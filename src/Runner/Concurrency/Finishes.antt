-- ===== src/Runner/Concurrency/Finishes.antt =====
-- Every order of the workers' steps comes to an end, with every item dealt with.
use centry.Prelude.{
  ℕ, zero, suc, ◌+◌, ◌*◌, ◌<◌, ◌≤◌, ◌≡◌, refl, ap, sym, ◌∙◌, inl, inr, Option, Option-cases, none,
  some, List, [], ◌∷◌, length, get_elem?, replicate, Result, min, subst, true, false, arith,
}
use centry.Prelude.Text.{Text}
use centry.Runner.Concurrency.{
  Worker, free, busy, returned, Pool, advance, run, start, take_index, end_run, set_at,
}
use centry.Runner.Concurrency.Shares.{
  load, measure, IsShared, result_at, advance-measure, advance-IsShared, get_elem?-some,
}

load-replicate : (m : ℕ) → load (replicate m free) ≡ m
load-replicate zero = omega arith
load-replicate (suc m) = omega (arith, load-replicate m)

get_elem?-replicate : (m k : ℕ) (w : Worker) → get_elem? (replicate m free) k ≡ some w → w ≡ free
get_elem?-replicate zero k w h = cc
get_elem?-replicate (suc m) zero w h = cc
get_elem?-replicate (suc m) (suc k) w h = get_elem?-replicate m k w h

length-replicate : (m : ℕ) → length (replicate m free) ≡ m
length-replicate zero = refl
length-replicate (suc m) = ap suc (length-replicate m)

length-set_at {ℓ} : {A : Type ℓ} (xs : List A) (k : ℕ) (v : A) → length (set_at xs k v) ≡ length xs
unfolding set_at
length-set_at [] k v = refl
length-set_at (x ∷ xs) zero v = refl
length-set_at (x ∷ xs) (suc k) v = ap suc (length-set_at xs k v)

module _ {ℓ κ} {A : Type ℓ} {B : Type κ} (items : List A) (id_of : A → Option Text)
    (fn : A → ℕ → Result (Option Text) B) where
  start-IsShared : (concurrency : ℕ) → IsShared items id_of fn (start items id_of fn concurrency)
  unfolding start
  start-IsShared concurrency = record {
    covered = λ i inside low. let wrong : true ≡ false = ground arith in cc;
    inside = λ k i e. let wrong = get_elem?-replicate _ k (busy i) e in cc;
    past = λ k e. let wrong = get_elem?-replicate _ k returned e in cc;
  }

  run-measure :
      (ks : List ℕ) (p q : Pool B)
      → run items id_of fn ks p ≡ some q
      → length ks + measure items id_of fn q ≡ measure items id_of fn p
  unfolding run
  run-measure [] p q h = let eq : p ≡ q = cc in omega (arith, ap (measure items id_of fn) eq)
  run-measure (k ∷ ks) p q h = elim (Option-cases (advance items id_of fn p k)) [
    | inl e ↦ let wrong : none ≡ some q = rw (run, e) at h in cc
    | inr (r, e) ↦
        let first = advance-measure items id_of fn p r k e in
        let rest = run-measure ks r q (rw (run, e) at h) in omega arith
  ]

  run-IsShared :
      (ks : List ℕ) (p q : Pool B)
      → run items id_of fn ks p ≡ some q
      → IsShared items id_of fn p
      → IsShared items id_of fn q
  unfolding run
  run-IsShared [] p q h s = let eq : p ≡ q = cc in subst (IsShared items id_of fn) eq s
  run-IsShared (k ∷ ks) p q h s = elim (Option-cases (advance items id_of fn p k)) [
    | inl e ↦ let wrong : none ≡ some q = rw (run, e) at h in cc
    | inr (r, e) ↦
        run-IsShared ks r q (rw (run, e) at h) (advance-IsShared items id_of fn p r k e s)
  ]

  end_run-length :
      (p : Pool B) (k i : ℕ) → length (end_run items id_of fn p k i).workers ≡ length p.workers
  unfolding end_run
  end_run-length p k i = elim (Option-cases (get_elem? items i)) [
    | inl e ↦ rw (end_run, e) (length-set_at p.workers k free)
    | inr (a, e) ↦ rw (end_run, e) (length-set_at p.workers k free)
  ]

  -- No step makes or removes a worker.
  advance-length :
      (p q : Pool B) (k : ℕ)
      → advance items id_of fn p k ≡ some q
      → length q.workers ≡ length p.workers
  unfolding advance take_index end_run
  advance-length p q k h = elim (Option-cases (get_elem? p.workers k)) [
    | inl e ↦ let wrong : none ≡ some q = rw (advance, e) at h in cc
    | inr (free, e) ↦
        let same : some (take_index items id_of fn p k) ≡ some q = rw (advance, e) at h in
        let eq : take_index items id_of fn p k ≡ q = cc in
        ap (λ r. length r.workers) (sym eq) ∙ length-set_at p.workers k _
    | inr (busy i, e) ↦
        let same : some (end_run items id_of fn p k i) ≡ some q = rw (advance, e) at h in
        let eq : end_run items id_of fn p k i ≡ q = cc in
        ap (λ r. length r.workers) (sym eq) ∙ end_run-length p k i
    | inr (returned, e) ↦ let wrong : none ≡ some q = rw (advance, e) at h in cc
  ]

  run-length :
      (ks : List ℕ) (p q : Pool B)
      → run items id_of fn ks p ≡ some q
      → length q.workers ≡ length p.workers
  unfolding run
  run-length [] p q h = let eq : p ≡ q = cc in ap (λ r. length r.workers) (sym eq)
  run-length (k ∷ ks) p q h = elim (Option-cases (advance items id_of fn p k)) [
    | inl e ↦ let wrong : none ≡ some q = rw (run, e) at h in cc
    | inr (r, e) ↦ run-length ks r q (rw (run, e) at h) ∙ advance-length p r k e
  ]

  -- A worker that has no next step, of those that there are, has returned.
  stuck-returned :
      (p : Pool B) (k : ℕ) (w : Worker)
      → advance items id_of fn p k ≡ none
      → get_elem? p.workers k ≡ some w
      → w ≡ returned
  unfolding advance
  stuck-returned p k free h e = let wrong : some _ ≡ none = rw (advance, e) at h in cc
  stuck-returned p k (busy i) h e = let wrong : some _ ≡ none = rw (advance, e) at h in cc
  stuck-returned p k returned h e = refl

  -- In whatever order the workers take their steps, there are at most two for each item and one for
  -- each worker.
  pub run_bounded :
      (concurrency : ℕ) (ks : List ℕ) (q : Pool B)
      → run items id_of fn ks (start items id_of fn concurrency) ≡ some q
      → length ks ≤ 2 * length items + min concurrency (length items)
  unfolding start
  run_bounded concurrency ks q h =
      let total = run-measure ks _ q h in
      let workers = load-replicate (min concurrency (length items)) in omega arith

  -- With at least one worker: in whatever order the workers take their steps, when none of them has
  -- a next one, every item has its result, which is what the function gave for it or that it failed.
  pub run_complete :
      (concurrency : ℕ) (ks : List ℕ) (q : Pool B) (i : ℕ)
      → 1 ≤ concurrency
      → run items id_of fn ks (start items id_of fn concurrency) ≡ some q
      → ((k : ℕ) → advance items id_of fn q k ≡ none)
      → i < length items
      → q.results i ≡ result_at items id_of fn i
  unfolding start
  run_complete concurrency ks q i some_worker h stuck inside =
      let s = run-IsShared ks _ q h (start-IsShared concurrency) in
      let size = run-length ks _ q h ∙ length-replicate (min concurrency (length items)) in
      let (w, e) = get_elem?-some q.workers 0 (omega arith) in
      let over = s.past 0 (e ∙ ap some (stuck-returned q 0 w (stuck 0) e)) in
      elim (s.covered i inside (omega arith)) [
        | inl r ↦ r
        | inr (k, f) ↦ let wrong = stuck-returned q k (busy i) (stuck k) f in cc
      ]
