-- ===== src/Runner/Concurrency/Shares.antt =====
-- What holds of the workers' variables at all times, and how much work is left.
use centry.Prelude.{
  ℕ, zero, suc, ◌+◌, ◌-◌, ◌*◌, ◌<◌, ◌≤◌, ◌≡◌, ◌≢◌, ◌⊎◌, refl, ap, sym, ◌∙◌, inl, inr, true, false,
  Bool-cases, Option, Option-cases, none, some, List, [], ◌∷◌, length, get_elem?, Result, ltb, ◌==◌,
  ==_iff, subst, if◌then◌else◌, arith,
}
use centry.Prelude.Text.{Text}
use centry.Runner.Concurrency.{
  Worker, free, busy, returned, Settled, Pool, set_at, settle, take_index, end_run, advance,
}

-- The steps that a worker has before it, if it takes no more.
abbrev pub weight : Worker → ℕ
weight free = 1
weight (busy i) = 2
weight returned = 0

abbrev pub load : List Worker → ℕ
load [] = 0
load (w ∷ ws) = weight w + load ws

pub load-set_at :
    (ws : List Worker) (k : ℕ) (v w : Worker)
    → get_elem? ws k ≡ some w
    → load (set_at ws k v) + weight w ≡ load ws + weight v
unfolding set_at
load-set_at [] k v w h = cc
load-set_at (x ∷ ws) zero v w h =
    let same : some x ≡ some w = h in let eq : x ≡ w = cc in rw eq (omega arith)
load-set_at (x ∷ ws) (suc k) v w h = omega (arith, load-set_at ws k v w h)

pub get_elem?-set_at {ℓ} :
    {A : Type ℓ} (xs : List A) (k j : ℕ) (v w : A)
    → get_elem? xs k ≡ some w
    → get_elem? (set_at xs k v) j ≡ (if j == k then some v else get_elem? xs j)
unfolding set_at
get_elem?-set_at [] k j v w h = cc
get_elem?-set_at (x ∷ xs) zero zero v w h = ground arith
get_elem?-set_at (x ∷ xs) zero (suc j) v w h = ground arith
get_elem?-set_at (x ∷ xs) (suc k) zero v w h = ground arith
get_elem?-set_at (x ∷ xs) (suc k) (suc j) v w h = ground (arith, get_elem?-set_at xs k j v w h)

-- An element that differs from the one that is replaced stays.
set_at_other {ℓ} :
    {A : Type ℓ} (xs : List A) (k j : ℕ) (v w u : A)
    → get_elem? xs k ≡ some w
    → get_elem? xs j ≡ some u
    → u ≢ w
    → get_elem? (set_at xs k v) j ≡ some u
set_at_other xs k j v w u h e differs = elim (Bool-cases (j == k)) [
  | inl here ↦
      let eq : j ≡ k = (==_iff j k).0 here in
      let same : some u ≡ some w = sym e ∙ ap (get_elem? xs) eq ∙ h in
      let equal : u ≡ w = cc in elim (differs equal) [ ]
  | inr other ↦ get_elem?-set_at xs k j v w h ∙ rw other e
]

-- An element of the new list is the new one or was there.
set_at_cases {ℓ} :
    {A : Type ℓ} (xs : List A) (k j : ℕ) (v w u : A)
    → get_elem? xs k ≡ some w
    → get_elem? (set_at xs k v) j ≡ some u
    → (u ≡ v) ⊎ (get_elem? xs j ≡ some u)
set_at_cases xs k j v w u h e =
    let known : (if j == k then some v else get_elem? xs j) ≡ some u =
      sym (get_elem?-set_at xs k j v w h) ∙ e in
    elim (Bool-cases (j == k)) [
      | inl here ↦ let same : some v ≡ some u = rw here at known in inl cc
      | inr other ↦ inr (rw other at known)
    ]

pub get_elem?-some {ℓ} :
    {A : Type ℓ} (xs : List A) (i : ℕ) → i < length xs → (a : A) × (get_elem? xs i ≡ some a)
get_elem?-some [] i h = let wrong : true ≡ false = ground arith in cc
get_elem?-some (x ∷ xs) zero h = (x, refl)
get_elem?-some (x ∷ xs) (suc i) h = get_elem?-some xs i (omega arith)

==_refl : (n : ℕ) → (n == n) ≡ true
==_refl n = ground arith

module _ {ℓ κ} {A : Type ℓ} {B : Type κ} (items : List A) (id_of : A → Option Text)
    (fn : A → ℕ → Result (Option Text) B) where
  -- The steps that are left.
  abbrev pub measure : Pool B → ℕ
  measure p = 2 * (length items - p.cursor) + load p.workers

  take_index-measure :
      (p : Pool B) (k : ℕ)
      → get_elem? p.workers k ≡ some free
      → measure p ≡ measure (take_index items id_of fn p k) + 1
  unfolding take_index
  take_index-measure p k h = elim (Bool-cases (ltb p.cursor (length items))) [
    | inl more ↦ rw more (ground (arith, load-set_at p.workers k (busy p.cursor) free h))
    | inr over ↦ rw over (ground (arith, load-set_at p.workers k returned free h))
  ]

  end_run-measure :
      (p : Pool B) (k i : ℕ)
      → get_elem? p.workers k ≡ some (busy i)
      → measure p ≡ measure (end_run items id_of fn p k i) + 1
  unfolding end_run
  end_run-measure p k i h = elim (Option-cases (get_elem? items i)) [
    | inl e ↦ rw (end_run, e) (omega (arith, load-set_at p.workers k free (busy i) h))
    | inr (a, e) ↦ rw (end_run, e) (omega (arith, load-set_at p.workers k free (busy i) h))
  ]

  -- Every step leaves one less.
  pub advance-measure :
      (p q : Pool B) (k : ℕ) → advance items id_of fn p k ≡ some q → measure p ≡ measure q + 1
  unfolding advance
  advance-measure p q k h = elim (Option-cases (get_elem? p.workers k)) [
    | inl e ↦ let wrong : none ≡ some q = rw (advance, e) at h in cc
    | inr (free, e) ↦
        let same : some (take_index items id_of fn p k) ≡ some q = rw (advance, e) at h in
        let eq : take_index items id_of fn p k ≡ q = cc in
        take_index-measure p k e ∙ ap (λ r. measure r + 1) eq
    | inr (busy i, e) ↦
        let same : some (end_run items id_of fn p k i) ≡ some q = rw (advance, e) at h in
        let eq : end_run items id_of fn p k i ≡ q = cc in
        end_run-measure p k i e ∙ ap (λ r. measure r + 1) eq
    | inr (returned, e) ↦ let wrong : none ≡ some q = rw (advance, e) at h in cc
  ]

  -- What is to stand in `results`.
  abbrev pub result_at : ℕ → Option (Settled B)
  result_at i = elim (get_elem? items i) [ none ↦ none | some a ↦ some (settle items id_of fn a i) ]

  -- Every index below the cursor has its result or a worker that waits for it, and no other has; a
  -- worker returns only when the cursor is past the end.
  pub record IsShared (p : Pool B) : Type κ where
    pub covered :
        (i : ℕ)
        → i < length items
        → i < p.cursor
        → (p.results i ≡ result_at i) ⊎ ((k : ℕ) × (get_elem? p.workers k ≡ some (busy i)))
    pub inside : (k i : ℕ) → get_elem? p.workers k ≡ some (busy i) → i < length items
    pub past : (k : ℕ) → get_elem? p.workers k ≡ some returned → length items ≤ p.cursor

  take_index-IsShared :
      (p : Pool B) (k : ℕ)
      → get_elem? p.workers k ≡ some free
      → IsShared p
      → IsShared (take_index items id_of fn p k)
  unfolding take_index
  take_index-IsShared p k h s = elim (Bool-cases (ltb p.cursor (length items))) [
    | inl more ↦ rw more (record {
      covered = λ i inside low. elim (Bool-cases (i == p.cursor)) [
        | inl last ↦
            let eq : i ≡ p.cursor = (==_iff i p.cursor).0 last in
            inr (
              k,
              get_elem?-set_at p.workers k k (busy p.cursor) free h
                  ∙ rw (==_refl k) (ap (λ n. some (busy n)) (sym eq)),
            )
        | inr before ↦ elim (s.covered i inside (ground arith)) [
          | inl r ↦ inl r
          | inr (j, e) ↦
              inr (j, set_at_other p.workers k j (busy p.cursor) free (busy i) h e (λ wrong. cc))
        ]
      ];
      inside = λ j i e. elim (set_at_cases p.workers k j (busy p.cursor) free (busy i) h e) [
        | inl new ↦ let eq : i ≡ p.cursor = cc in ground arith
        | inr old ↦ s.inside j i old
      ];
      past = λ j e. elim (set_at_cases p.workers k j (busy p.cursor) free returned h e) [
        | inl new ↦ cc
        | inr old ↦ let far = s.past j old in omega arith
      ];
    })
    | inr over ↦ rw over (record {
      covered = λ i inside low. elim (s.covered i inside (ground arith)) [
        | inl r ↦ inl r
        | inr (j, e) ↦ inr (j, set_at_other p.workers k j returned free (busy i) h e (λ wrong. cc))
      ];
      inside = λ j i e. elim (set_at_cases p.workers k j returned free (busy i) h e) [
        | inl new ↦ cc
        | inr old ↦ s.inside j i old
      ];
      past = λ j e. ground arith;
    })
  ]

  end_run-IsShared :
      (p : Pool B) (k i : ℕ)
      → get_elem? p.workers k ≡ some (busy i)
      → IsShared p
      → IsShared (end_run items id_of fn p k i)
  unfolding end_run
  end_run-IsShared p k i h s =
      let (a, e) = get_elem?-some items i (s.inside k i h) in
      rw (end_run, e)
        (record {
          covered = λ j inside low. elim (Bool-cases (j == i)) [
            | inl here ↦
                let eq : j ≡ i = (==_iff j i).0 here in
                inl (rw here (sym (ap result_at eq ∙ rw (result_at, e) refl)))
            | inr other ↦ elim (s.covered j inside low) [
              | inl r ↦ inl (rw other r)
              | inr (l, f) ↦ inr (
                l,
                set_at_other p.workers k l free (busy i) (busy j) h f
                    (λ wrong. let eq : j ≡ i = cc in ground (arith, other)),
              )
            ]
          ];
          inside = λ l j f. elim (set_at_cases p.workers k l free (busy i) (busy j) h f) [
            | inl new ↦ cc
            | inr old ↦ s.inside l j old
          ];
          past = λ l f. elim (set_at_cases p.workers k l free (busy i) returned h f) [
            | inl new ↦ cc
            | inr old ↦ s.past l old
          ];
        })

  pub advance-IsShared :
      (p q : Pool B) (k : ℕ) → advance items id_of fn p k ≡ some q → IsShared p → IsShared q
  unfolding advance
  advance-IsShared p q k h s = elim (Option-cases (get_elem? p.workers k)) [
    | inl e ↦ let wrong : none ≡ some q = rw (advance, e) at h in cc
    | inr (free, e) ↦
        let same : some (take_index items id_of fn p k) ≡ some q = rw (advance, e) at h in
        let eq : take_index items id_of fn p k ≡ q = cc in
        subst IsShared eq (take_index-IsShared p k e s)
    | inr (busy i, e) ↦
        let same : some (end_run items id_of fn p k i) ≡ some q = rw (advance, e) at h in
        let eq : end_run items id_of fn p k i ≡ q = cc in
        subst IsShared eq (end_run-IsShared p k i e s)
    | inr (returned, e) ↦ let wrong : none ≡ some q = rw (advance, e) at h in cc
  ]
