-- ===== src/Rewards/Allocate/Leftover.antt =====
-- What rounding down leaves of the budget.
use native.Mathlib.Nat.{div-add-mod, mod-lt, le_of_mul-le-mul_left, lt_of_mul-lt-mul_left}
use centry.Prelude.{ℕ, ◌+◌, ◌-◌, ◌*◌, ◌≤◌, ◌<◌, ◌≡◌, ap, List, [], ◌∷◌, map, length, arith}
use centry.Prelude.Sort.{sum_by}
use centry.Rewards.Types.{Position, Allocation}
use centry.Rewards.Allocate.{share, allocated}

module _ (budget total : ℕ) where
  abbrev pub shares : List Position → List Allocation
  shares = map (share budget total)

  abbrev pub remainders : List Allocation → ℕ
  remainders = sum_by (λ a. a.remainder)

  -- Shares and remainders account for the whole of what each power claims.
  pub shares_account :
      (ps : List Position)
      → total * allocated (shares ps) + remainders (shares ps)
        ≡ budget * sum_by (λ p. p.voting_power) ps
  unfolding share
  shares_account [] = omega arith
  shares_account (p ∷ ps) =
      omega (arith, shares_account ps, div-add-mod (budget * p.voting_power) total)

  pub remainders_below :
      (ps : List Position) → 0 < total → remainders (shares ps) + length ps ≤ total * length ps
  unfolding share
  remainders_below [] h = omega arith
  remainders_below (p ∷ ps) h =
      omega (arith, remainders_below ps h, mod-lt (budget * p.voting_power) h)

module _ (budget total : ℕ) (ps : List Position) (sums : total ≡ sum_by (λ p. p.voting_power) ps)
    (positive : 0 < total) where
  pub allocated-shares-le : allocated (shares budget total ps) ≤ budget
  allocated-shares-le =
      le_of_mul-le-mul_left {k = total}
        (omega (arith, shares_account budget total ps, ap (λ (t : ℕ). budget * t) sums)) positive

  pub leftover-lt : 0 < length ps → budget - allocated (shares budget total ps) < length ps
  leftover-lt some_position =
      let left = budget - allocated (shares budget total ps) in
      let whole : total * left + total * allocated (shares budget total ps) ≡ total * budget =
        omega (
          arith,
          ap (λ (t : ℕ). total * t)
              (let e : left + allocated (shares budget total ps) ≡ budget =
                  omega (arith, allocated-shares-le) in
                e),
        ) in
      lt_of_mul-lt-mul_left total (
        omega (
          arith,
          whole,
          shares_account budget total ps,
          remainders_below budget total ps positive,
          ap (λ (t : ℕ). budget * t) sums,
        ))
