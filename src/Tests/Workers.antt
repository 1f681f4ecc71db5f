-- ===== src/Tests/Workers.antt =====
-- The theorems on the shared workers and on the rate limit, on a few items and requests.
use centry.Prelude.{
  ℕ, zero, suc, ◌+◌, ◌*◌, ◌≤◌, ◌≡◌, refl, sym, ◌∙◌, subst, Option, none, some, List, [], ◌∷◌,
  length, All, Result, ok, err, min, ◌==◌, if◌then◌else◌, arith,
}
use centry.Prelude.Int.{pos}
use centry.Prelude.Text.{Text, text_eq, codes}
use centry.Prelude.Trim
use centry.Prelude.Assoc.{lookup}
use centry.Runner.Concurrency.{
  returned, failed, fulfilled, Pool, run, start, advance, set_at, settle, message_of,
}
use centry.Runner.Concurrency.Shares.{result_at}
use centry.Runner.Concurrency.Finishes.{run_bounded, run_complete}
use centry.RateLimit.{Bucket, Buckets, Request, key_of, max_of, window_of}
use centry.RateLimit.Windows.{serve, serve_window, allowed_of, requests_of, IsOver, IsInWindow}

-- Three items, of which the second fails.
abbrev items : List ℕ
items = 10 ∷ 20 ∷ 30 ∷ []

abbrev id_of : ℕ → Option Text
id_of n = some (codes "id")

abbrev fn : ℕ → ℕ → Result (Option Text) ℕ
fn n i = if n == 20 then err none else ok (n + i)

-- Two workers: the second is faster and takes the last item.
abbrev steps : List ℕ
steps = 0 ∷ 1 ∷ 1 ∷ 1 ∷ 1 ∷ 1 ∷ 0 ∷ 0 ∷ []

abbrev final : Pool ℕ
final = record {
  cursor = 5;
  results = λ j.
      if j == 0
      then some (fulfilled 10)
      else (if j == 2
          then some (fulfilled 32)
          else (if j == 1
              then some (failed (codes "agent_worker_failed") (some (codes "id")))
              else none));
  workers = returned ∷ returned ∷ [];
}

ran : run items id_of fn steps (start items id_of fn 2) ≡ some final
unfolding run start set_at advance settle message_of
ran = refl

stuck : (k : ℕ) → advance items id_of fn final k ≡ none
unfolding advance
stuck zero = refl
stuck (suc zero) = refl
stuck (suc (suc k)) = refl

run_bounded_example : length steps ≤ 2 * length items + min 2 (length items)
run_bounded_example = run_bounded items id_of fn 2 steps final ran

run_complete_example : final.results 1 ≡ result_at items id_of fn 1
run_complete_example =
    run_complete items id_of fn 2 steps final 1 (omega arith) ran stuck (omega arith)

abbrev request : Text → Request
request ip = record {
  headers = record { forwarded_for = some ip; real_ip = none };
  scope = codes "chat";
  identity = none;
  max_option = some (pos 2);
  window_option = none;
}

abbrev alice : Request
alice = request (codes "1.2.3.4, 5.6.7.8")

abbrev bob : Request
bob = request (codes "9.9.9.9")

abbrev more : List (Request × ℕ)
more = (alice, 150) ∷ (bob, 40000) ∷ (alice, 60050) ∷ []

abbrev late_bucket : Bucket
late_bucket = record { count = 9; reset_at = 100 }

abbrev buckets : Buckets
buckets = (codes "chat:1.2.3.4", late_bucket) ∷ []

found : lookup (key_of alice) buckets ≡ some late_bucket
unfolding key_of text_eq lookup Trim.trim
found = refl

over : IsOver buckets (key_of alice) 100
over e h =
    let same : some late_bucket ≡ some e = sym found ∙ h in
    let eq : late_bucket ≡ e = cc in subst (λ (b : Bucket). b.reset_at ≤ 100) eq (omega arith)

inside : All (IsInWindow (key_of alice) (max_of alice) (100 + window_of alice)) more
unfolding key_of max_of window_of
inside = ((omega arith, λ e. refl), ((omega arith, λ e. refl), ((omega arith, λ e. refl), tt)))

serve_window_example :
    allowed_of (key_of alice) (serve ((alice, 100) ∷ more) buckets).0
    ≡ min (requests_of (key_of alice) ((alice, 100) ∷ more)) (max_of alice)
serve_window_example = serve_window alice 100 more buckets over inside
