-- ===== src/RateLimit/Windows.antt =====
-- How many requests a window allows.
use centry.Prelude.{
  ℕ, ◌+◌, ◌-◌, ◌<◌, ◌≤◌, ◌≡◌, refl, ap, sym, ◌∙◌, inl, inr, true, false, ◌&&◌, Bool-cases, Option,
  Option-cases, none, some, List, [], ◌∷◌, length, All, min, leb, if◌then◌else◌, subst, arith,
}
use centry.Prelude.Int.{ℤ, pos, negsuc}
use centry.Prelude.Text.{Text, text_eq, text_eq_refl, text_eq_iff}
use centry.Prelude.Assoc.{lookup, insert, lookup-insert}
use centry.RateLimit.{
  Bucket, Buckets, Request, Answer, max_buckets, default_max, default_window_ms, at_least, key_of,
  max_of, window_of, cleanup_loop, cleanup_expired, open_window, count_request, limit_key,
  rate_limit,
}

-- The cleaning keeps a bucket that has not expired.
lookup-cleanup_loop :
    (timestamp size : ℕ) (m : Buckets) (key : Text) (e : Bucket)
    → lookup key m ≡ some e
    → timestamp < e.reset_at
    → lookup key (cleanup_loop timestamp size m) ≡ some e
unfolding lookup cleanup_loop
lookup-cleanup_loop timestamp size [] key e h later = cc
lookup-cleanup_loop timestamp size ((k, f) ∷ m) key e h later =
    let expired = leb f.reset_at timestamp in
    let left = if expired then size - 1 else size in
    let rest = if leb left max_buckets then m else cleanup_loop timestamp left m in
    let kept : lookup key m ≡ some e → lookup key rest ≡ some e = λ found.
      elim (Bool-cases (leb left max_buckets)) [
        | inl full ↦ rw full found
        | inr over ↦ rw over (lookup-cleanup_loop timestamp left m key e found later)
      ] in
    elim (Bool-cases (text_eq k key)) [
      | inl here ↦
          let same : some f ≡ some e = rw here at h in
          let eq : f ≡ e = cc in
          let lasts : timestamp < f.reset_at =
            subst (λ (b : Bucket). timestamp < b.reset_at) (sym eq) later in
          let alive : expired ≡ false = ground arith in rw alive (rw here same)
      | inr other ↦
          let found : lookup key m ≡ some e = rw other at h in
          elim (Bool-cases expired) [
            | inl dead ↦ rw dead (rw dead at (kept found))
            | inr alive ↦ rw alive (rw other (rw alive at (kept found)))
          ]
    ]

lookup-cleanup_expired :
    (timestamp : ℕ) (m : Buckets) (key : Text) (e : Bucket)
    → lookup key m ≡ some e
    → timestamp < e.reset_at
    → lookup key (cleanup_expired timestamp m) ≡ some e
unfolding cleanup_expired
lookup-cleanup_expired timestamp m key e h later = elim (Bool-cases (leb (length m) max_buckets)) [
  | inl few ↦ rw few h
  | inr many ↦ rw many (lookup-cleanup_loop timestamp (length m) m key e h later)
]

-- A request of another client leaves a bucket that has not expired as it is.
lookup-limit_key_other :
    (m : Buckets) (key other : Text) (most window timestamp : ℕ) (e : Bucket)
    → text_eq other key ≡ false
    → lookup key m ≡ some e
    → timestamp < e.reset_at
    → lookup key (limit_key m other most window timestamp).1 ≡ some e
unfolding limit_key open_window count_request
lookup-limit_key_other m key other most window timestamp e differs h later =
    let opens : lookup key (open_window m other most window timestamp).1 ≡ some e =
      lookup-cleanup_expired timestamp (insert other _ m) key e
        (lookup-insert other key _ m ∙ rw differs h) later in
    elim (Option-cases (lookup other m)) [
      | inl f ↦ rw (limit_key, f) opens
      | inr (current, f) ↦ elim (Bool-cases (leb current.reset_at timestamp)) [
        | inl dead ↦ rw (limit_key, f, dead) opens
        | inr alive ↦ rw (limit_key, f, alive) (lookup-insert other key _ m ∙ rw differs h)
      ]
    ]

-- A request of the client itself, in its window.
limit_key_own :
    (m : Buckets) (key : Text) (most window timestamp : ℕ) (e : Bucket)
    → lookup key m ≡ some e
    → timestamp < e.reset_at
    → limit_key m key most window timestamp ≡ count_request m key most e
unfolding limit_key
limit_key_own m key most window timestamp e h later =
    let alive : leb e.reset_at timestamp ≡ false = ground arith in rw (limit_key, h, alive) refl

-- Requests, each with its time, one after the other: the answers and the buckets.
abbrev pub serve : List (Request × ℕ) → Buckets → List (Request × Answer) × Buckets
serve [] m = ([], m)
serve ((r, timestamp) ∷ more) m =
    let served = rate_limit r timestamp m in
    let rest = serve more served.1 in ((r, served.0) ∷ rest.0, rest.1)

-- The requests of a client, and those of them that were allowed.
abbrev pub requests_of : Text → List (Request × ℕ) → ℕ
requests_of key [] = 0
requests_of key ((r, timestamp) ∷ more) =
    if text_eq (key_of r) key then 1 + requests_of key more else requests_of key more

abbrev pub allowed_of : Text → List (Request × Answer) → ℕ
allowed_of key [] = 0
allowed_of key ((r, a) ∷ more) =
    if text_eq (key_of r) key && a.allowed then 1 + allowed_of key more else allowed_of key more

-- A request before the end of the client's window, with the client's limit if it is the client's.
abbrev pub IsInWindow : Text → ℕ → ℕ → Request × ℕ → Type 0
IsInWindow key most reset_at (r, timestamp) =
    (timestamp < reset_at) × (text_eq (key_of r) key ≡ true → max_of r ≡ most)

counted :
    (requests most count allowed : ℕ)
    → allowed ≡ min requests (most - (count + 1))
    → (if true && leb (count + 1) most then 1 + allowed else allowed)
      ≡ min (1 + requests) (most - count)
counted requests most count allowed h = ground arith

serve_counts :
    (key : Text) (most : ℕ) (e : Bucket) (more : List (Request × ℕ)) (m : Buckets)
    → lookup key m ≡ some e
    → All (IsInWindow key most e.reset_at) more
    → allowed_of key (serve more m).0 ≡ min (requests_of key more) (most - e.count)
unfolding rate_limit
serve_counts key most e [] m h inside = ground arith
serve_counts key most e ((r, timestamp) ∷ more) m h ((early, same), inside) =
    elim (Bool-cases (text_eq (key_of r) key)) [
      | inl own ↦
          let here : key_of r ≡ key = (text_eq_iff (key_of r) key).0 own in
          let step : rate_limit r timestamp m ≡ count_request m key most e =
            ap (λ k. limit_key m k (max_of r) (window_of r) timestamp) here
            ∙ ap (λ n. limit_key m key n (window_of r) timestamp) (same own)
            ∙ limit_key_own m key most (window_of r) timestamp e h early in
          let next : Bucket = record e { count = e.count + 1 } in
          let found : lookup key (insert key next m) ≡ some next =
            lookup-insert key key next m ∙ rw (text_eq_refl key) refl in
          let rest = serve_counts key most next more (insert key next m) found inside in
          rw (own, step, count_request) (counted (requests_of key more) most e.count _ rest)
      | inr other ↦ rw other (
          serve_counts key most e more (rate_limit r timestamp m).1
            (lookup-limit_key_other m key (key_of r) (max_of r) (window_of r) timestamp e other h
              early)
            inside)
    ]

at_least_pos :
    (low fallback : ℕ) (o : Option ℤ) → 1 ≤ low → 1 ≤ fallback → 1 ≤ at_least low fallback o
unfolding at_least
at_least_pos low fallback none h k = k
at_least_pos low fallback (some (pos n)) h k = omega arith
at_least_pos low fallback (some (negsuc n)) h k = h

max_of_pos : (r : Request) → 1 ≤ max_of r
unfolding max_of
max_of_pos r = at_least_pos 1 default_max r.max_option (omega arith) (omega arith)

window_of_pos : (r : Request) → 1 ≤ window_of r
unfolding window_of
window_of_pos r = at_least_pos 1000 default_window_ms r.window_option (omega arith) (omega arith)

-- The client has no bucket, or one that has expired.
abbrev pub IsOver : Buckets → Text → ℕ → Type 0
IsOver m key timestamp = (e : Bucket) → lookup key m ≡ some e → e.reset_at ≤ timestamp

limit_key_opens :
    (m : Buckets) (key : Text) (most window timestamp : ℕ)
    → IsOver m key timestamp
    → limit_key m key most window timestamp ≡ open_window m key most window timestamp
unfolding limit_key
limit_key_opens m key most window timestamp over = elim (Option-cases (lookup key m)) [
  | inl e ↦ rw (limit_key, e) refl
  | inr (current, e) ↦
      let late = over current e in
      let dead : leb current.reset_at timestamp ≡ true = ground arith in
      rw (limit_key, e, dead) refl
]

opened_bucket :
    (m : Buckets) (key : Text) (most window timestamp : ℕ)
    → timestamp < timestamp + window
    → lookup key (open_window m key most window timestamp).1
      ≡ some (record { count = 1; reset_at = timestamp + window })
unfolding open_window
opened_bucket m key most window timestamp lasts =
    lookup-cleanup_expired timestamp (insert key _ m) key _
      (lookup-insert key key _ m ∙ rw (text_eq_refl key) refl) lasts

-- Let a client have no bucket that lasts when a request of its opens a window, and let all further
-- requests, of whatever clients, come before the end of that window, the client's with the same
-- limit. Then of all its requests from the first on, exactly the smaller of their number and the
-- limit are allowed, whatever the other clients do and however many buckets there are.
pub serve_window :
    (r : Request) (timestamp : ℕ) (more : List (Request × ℕ)) (m : Buckets)
    → IsOver m (key_of r) timestamp
    → All (IsInWindow (key_of r) (max_of r) (timestamp + window_of r)) more
    → allowed_of (key_of r) (serve ((r, timestamp) ∷ more) m).0
      ≡ min (requests_of (key_of r) ((r, timestamp) ∷ more)) (max_of r)
unfolding rate_limit
serve_window r timestamp more m over inside =
    let key = key_of r in
    let first : Bucket = record { count = 1; reset_at = timestamp + window_of r } in
    let opened : rate_limit r timestamp m ≡ open_window m key (max_of r) (window_of r) timestamp =
      limit_key_opens m key (max_of r) (window_of r) timestamp over in
    let lasts : timestamp < timestamp + window_of r = omega (arith, window_of_pos r) in
    let found : lookup key (open_window m key (max_of r) (window_of r) timestamp).1 ≡ some first =
      opened_bucket m key (max_of r) (window_of r) timestamp lasts in
    let rest = serve_counts key (max_of r) first more _ found inside in
    rw (text_eq_refl key, opened, open_window) (omega (arith, max_of_pos r, rest))
