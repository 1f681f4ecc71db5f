-- ===== src/Prelude/Sort.antt =====
-- `Array.prototype.sort` with a comparison function: a stable sort. The sign of the comparison is an
-- `Ordering`: -1 is `lt`, 0 is `eq` and 1 is `gt`.
use mathlib.Core.Path.{◌≡◌, refl}
use mathlib.Core.Logic.{◌≢◌, ◌⊎◌, inl, inr}
use mathlib.Core.List.{List, [], ◌∷◌, Perm}
use mathlib.Core.List.Perm
use Prim.Native.Nat.{ℕ, suc, ◌+◌, Ordering}
use native.Mathlib.Omega.{arith}
use centry.Prelude.Lists.{All, All-imp, AllPairs, length}

-- The sum of a number of each element.
abbrev pub sum_by {ℓ} : {A : Type ℓ} → (A → ℕ) → List A → ℕ
sum_by f [] = 0
sum_by f (x ∷ xs) = f x + sum_by f xs

-- The greater elements pass `x`; equal ones do not, which keeps the sort stable.
abbrev pub gt_cases {ℓ} : {A : Type ℓ} → Ordering → A → A → A
gt_cases Ordering.gt a b = a
gt_cases Ordering.lt a b = b
gt_cases Ordering.eq a b = b

pub Ordering-cases : (o : Ordering) → (o ≡ Ordering.gt) ⊎ (o ≢ Ordering.gt)
Ordering-cases Ordering.gt = inl refl
Ordering-cases Ordering.lt = inr (λ e. cc)
Ordering-cases Ordering.eq = inr (λ e. cc)

pub gt_cases_ne {ℓ} : {A : Type ℓ} (o : Ordering) (a b : A) → o ≢ Ordering.gt → gt_cases o a b ≡ b
gt_cases_ne Ordering.gt a b h = absurd (h refl)
gt_cases_ne Ordering.lt a b h = refl
gt_cases_ne Ordering.eq a b h = refl

module _ {ℓ} {A : Type ℓ} (cmp : A → A → Ordering) where
  -- Puts `x` before the first element that it is not greater than.
  unfoldable pub insert_sorted : A → List A → List A
  insert_sorted x [] = x ∷ []
  insert_sorted x (y ∷ ys) = gt_cases (cmp x y) (y ∷ insert_sorted x ys) (x ∷ y ∷ ys)

  unfoldable pub sort : List A → List A
  unfolding insert_sorted
  sort [] = []
  sort (x ∷ xs) = insert_sorted x (sort xs)

  insert_sorted-perm : (x : A) (ys : List A) → Perm (insert_sorted x ys) (x ∷ ys)
  unfolding insert_sorted
  insert_sorted-perm x [] = Perm.rfl
  insert_sorted-perm x (y ∷ ys) =
      let swapped = Perm.trans (Perm.cons y (insert_sorted-perm x ys)) (Perm.swap x y ys) in
      ground (arith, swapped, Perm.refl (x ∷ y ∷ ys))

  -- Sorting moves the elements about, and neither adds nor drops one.
  pub sort-perm : (xs : List A) → Perm (sort xs) xs
  unfolding sort
  sort-perm [] = Perm.rfl
  sort-perm (x ∷ xs) = Perm.trans (insert_sorted-perm x (sort xs)) (Perm.cons x (sort-perm xs))

  module _ {κ} (P : A → Type κ) where
    insert_sorted-All : (x : A) (ys : List A) → P x → All P ys → All P (insert_sorted x ys)
    unfolding insert_sorted
    insert_sorted-All x [] p a = (p, tt)
    insert_sorted-All x (y ∷ ys) p (q, a) = elim (Ordering-cases (cmp x y)) [
      | inl e ↦ rw e (q, insert_sorted-All x ys p a)
      | inr n ↦ rw (gt_cases_ne (cmp x y) (y ∷ insert_sorted x ys) (x ∷ y ∷ ys) n) (p, (q, a))
    ]

    pub sort-All : (xs : List A) → All P xs → All P (sort xs)
    unfolding sort
    sort-All [] a = tt
    sort-All (x ∷ xs) (p, a) = insert_sorted-All x (sort xs) p (sort-All xs a)

    insert_sorted-All_back : (x : A) (ys : List A) → All P (insert_sorted x ys) → P x × All P ys
    unfolding insert_sorted
    insert_sorted-All_back x [] a = a
    insert_sorted-All_back x (y ∷ ys) a = elim (Ordering-cases (cmp x y)) [
      | inl e ↦
          let (q, b) = let c : P y × All P (insert_sorted x ys) = rw e at a in c in
          let (p, c) = insert_sorted-All_back x ys b in (p, (q, c))
      | inr n ↦
          let c : P x × (P y × All P ys) =
            rw (gt_cases_ne (cmp x y) (y ∷ insert_sorted x ys) (x ∷ y ∷ ys) n) at a in
          c
    ]

    pub sort-All_back : (xs : List A) → All P (sort xs) → All P xs
    unfolding sort
    sort-All_back [] a = tt
    sort-All_back (x ∷ xs) a =
        let (p, b) = insert_sorted-All_back x (sort xs) a in (p, sort-All_back xs b)

  module _ {κ} (R : A → A → Type κ) (swap : (x y : A) → R x y → R y x) where
    insert_sorted-AllPairs :
        (x : A) (ys : List A) → All (R x) ys → AllPairs R ys → AllPairs R (insert_sorted x ys)
    unfolding insert_sorted
    insert_sorted-AllPairs x [] a d = (tt, tt)
    insert_sorted-AllPairs x (y ∷ ys) (r, a) (b, d) = elim (Ordering-cases (cmp x y)) [
      | inl e ↦ rw e (insert_sorted-All (R y) x ys (swap x y r) b, insert_sorted-AllPairs x ys a d)
      | inr n ↦ rw (gt_cases_ne (cmp x y) (y ∷ insert_sorted x ys) (x ∷ y ∷ ys) n) ((r, a), (b, d))
    ]

    -- A symmetric relation between all elements does not depend on their order.
    pub sort-AllPairs : (xs : List A) → AllPairs R xs → AllPairs R (sort xs)
    unfolding sort
    sort-AllPairs [] d = tt
    sort-AllPairs (x ∷ xs) (a, d) =
        insert_sorted-AllPairs x (sort xs) (sort-All (R x) xs a) (sort-AllPairs xs d)

  -- Each element is not greater than any that follows it.
  abbrev pub IsSorted : List A → Type ℓ
  IsSorted [] = Unit
  IsSorted (x ∷ xs) = All (λ y. cmp x y ≢ Ordering.gt) xs × IsSorted xs

  -- What a comparison must satisfy for a sort to order by it.
  pub record IsOrder : Type ℓ where
    pub flips : (x y : A) → cmp x y ≡ Ordering.gt → cmp y x ≢ Ordering.gt
    pub chains : (x y z : A) → cmp x y ≢ Ordering.gt → cmp y z ≢ Ordering.gt → cmp x z ≢ Ordering.gt

  module _ (order : IsOrder) where
    insert_sorted-IsSorted : (x : A) (ys : List A) → IsSorted ys → IsSorted (insert_sorted x ys)
    unfolding insert_sorted
    insert_sorted-IsSorted x [] s = (tt, tt)
    insert_sorted-IsSorted x (y ∷ ys) (a, s) = elim (Ordering-cases (cmp x y)) [
      | inl e ↦ rw e (
        insert_sorted-All (λ z. cmp y z ≢ Ordering.gt) x ys (order.flips x y e) a,
        insert_sorted-IsSorted x ys s,
      )
      | inr n ↦
          rw (gt_cases_ne (cmp x y) (y ∷ insert_sorted x ys) (x ∷ y ∷ ys) n)
            ((n, All-imp (λ z. order.chains x y z n) ys a), (a, s))
    ]

    pub sort-IsSorted : (xs : List A) → IsSorted (sort xs)
    unfolding sort
    sort-IsSorted [] = tt
    sort-IsSorted (x ∷ xs) = insert_sorted-IsSorted x (sort xs) (sort-IsSorted xs)

  length-insert_sorted : (x : A) (ys : List A) → length (insert_sorted x ys) ≡ suc (length ys)
  unfolding insert_sorted
  length-insert_sorted x [] = refl
  length-insert_sorted x (y ∷ ys) = ground (arith, length-insert_sorted x ys)

  pub length-sort : (xs : List A) → length (sort xs) ≡ length xs
  unfolding sort
  length-sort [] = refl
  length-sort (x ∷ xs) = omega (arith, length-insert_sorted x (sort xs), length-sort xs)

  module _ (f : A → ℕ) where
    sum_by-insert_sorted : (x : A) (ys : List A) → sum_by f (insert_sorted x ys) ≡ f x + sum_by f ys
    unfolding insert_sorted
    sum_by-insert_sorted x [] = refl
    sum_by-insert_sorted x (y ∷ ys) = ground (arith, sum_by-insert_sorted x ys)

    pub sum_by-sort : (xs : List A) → sum_by f (sort xs) ≡ sum_by f xs
    unfolding sort
    sum_by-sort [] = refl
    sum_by-sort (x ∷ xs) = omega (arith, sum_by-insert_sorted x (sort xs), sum_by-sort xs)
