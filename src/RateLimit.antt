-- ===== src/RateLimit.antt =====
-- frontend/lib/rateLimit.js: the limit on the requests of a client in a window of time.
pub mod Windows
use centry.Prelude.{
  ℕ, ◌+◌, ◌-◌, ◌/◌, ◌≡◌, Bool, true, false, Option, none, some, List, [], ◌∷◌, ◌++◌, length, max,
  ltb, leb, ◌==◌, if◌then◌else◌,
}
use centry.Prelude.Int.{ℤ, pos, negsuc}
use centry.Prelude.Text.{Text, codes}
use centry.Prelude.Trim.{trim}
use centry.Prelude.Assoc.{lookup, insert}

abbrev pub default_max : ℕ
default_max = 30

abbrev pub default_window_ms : ℕ
default_window_ms = 60000

abbrev pub max_buckets : ℕ
max_buckets = 10000

-- The entry of a client. A time is a number of milliseconds.
pub record Bucket : Type 0 where
  pub count : ℕ
  pub reset_at : ℕ

abbrev pub Buckets : Type 0
Buckets = List (Text × Bucket)

-- The headers that are read of a request.
pub record Headers : Type 0 where
  pub forwarded_for : Option Text
  pub real_ip : Option Text

-- A request with its scope and options; of an option that is a finite number, the number rounded
-- down.
pub record Request : Type 0 where
  pub headers : Headers
  pub scope : Text
  pub identity : Option Text
  pub max_option : Option ℤ
  pub window_option : Option ℤ

pub record Answer : Type 0 where
  pub allowed : Bool
  pub limit : ℕ
  pub remaining : ℕ
  pub reset_at : ℕ

-- `split(",")[0]`
unfoldable pub first_part : Text → Text
first_part [] = []
first_part (c ∷ t) = let rest = first_part t in if c == 44 then [] else c ∷ rest

-- `t || "unknown"`
unfoldable pub or_unknown : Text → Text
or_unknown [] = codes "unknown"
or_unknown (c ∷ t) = c ∷ t

unfoldable pub real_ip_of : Option Text → Text
unfolding or_unknown
real_ip_of none = codes "unknown"
real_ip_of (some t) = or_unknown t

-- `getClientIp`
unfoldable pub get_client_ip : Headers → Text
unfolding first_part or_unknown real_ip_of
get_client_ip h = elim h.forwarded_for [
  | none ↦ real_ip_of h.real_ip
  | some [] ↦ real_ip_of h.real_ip
  | some (c ∷ t) ↦ or_unknown (trim (first_part (c ∷ t)))
]

unfoldable pub identity_of : Request → Text
unfolding get_client_ip
identity_of r = elim r.identity [
  | none ↦ get_client_ip r.headers
  | some [] ↦ get_client_ip r.headers
  | some (c ∷ t) ↦ c ∷ t
]

unfoldable pub key_of : Request → Text
unfolding identity_of
key_of r = r.scope ++ codes ":" ++ identity_of r

-- `Number.isFinite(n) ? Math.max(low, Math.floor(n)) : fallback`
unfoldable pub at_least : ℕ → ℕ → Option ℤ → ℕ
at_least low fallback none = fallback
at_least low fallback (some (pos n)) = max low n
at_least low fallback (some (negsuc n)) = low

unfoldable pub max_of : Request → ℕ
unfolding at_least
max_of r = at_least 1 default_max r.max_option

unfoldable pub window_of : Request → ℕ
unfolding at_least
window_of r = at_least 1000 default_window_ms r.window_option

-- The loop of `cleanupExpired`, with the size of the map.
unfoldable pub cleanup_loop : ℕ → ℕ → Buckets → Buckets
cleanup_loop timestamp size [] = []
cleanup_loop timestamp size ((k, e) ∷ m) =
    let expired = leb e.reset_at timestamp in
    let left = if expired then size - 1 else size in
    let later = cleanup_loop timestamp left m in
    let rest = if leb left max_buckets then m else later in if expired then rest else (k, e) ∷ rest

-- `cleanupExpired`
unfoldable pub cleanup_expired : ℕ → Buckets → Buckets
unfolding cleanup_loop
cleanup_expired timestamp m =
    if leb (length m) max_buckets then m else cleanup_loop timestamp (length m) m

-- A new window.
unfoldable pub open_window : Buckets → Text → ℕ → ℕ → ℕ → Answer × Buckets
unfolding insert cleanup_expired
open_window m key most window timestamp = (
  record { allowed = true; limit = most; remaining = most - 1; reset_at = timestamp + window },
  cleanup_expired timestamp (insert key (record { count = 1; reset_at = timestamp + window }) m),
)

-- One more request in a window.
unfoldable pub count_request : Buckets → Text → ℕ → Bucket → Answer × Buckets
unfolding insert
count_request m key most current = (
  record {
    allowed = leb (current.count + 1) most;
    limit = most;
    remaining = most - (current.count + 1);
    reset_at = current.reset_at;
  },
  insert key (record current { count = current.count + 1 }) m,
)

-- The rest of `rateLimit`, with the key and the options read.
unfoldable pub limit_key : Buckets → Text → ℕ → ℕ → ℕ → Answer × Buckets
unfolding lookup open_window count_request
limit_key m key most window timestamp = elim (lookup key m) [
  | none ↦ open_window m key most window timestamp
  | some current ↦
      if leb current.reset_at timestamp
      then open_window m key most window timestamp
      else count_request m key most current
]

-- `rateLimit`
unfoldable pub rate_limit : Request → ℕ → Buckets → Answer × Buckets
unfolding key_of max_of window_of limit_key
rate_limit r timestamp m = limit_key m (key_of r) (max_of r) (window_of r) timestamp

-- The seconds of the header `Retry-After`, rounded up.
unfoldable pub retry_after : Answer → ℕ → ℕ
retry_after a now = max 1 ((a.reset_at - now + 999) / 1000)
