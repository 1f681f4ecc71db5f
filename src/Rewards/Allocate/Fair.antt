-- ===== src/Rewards/Allocate/Fair.antt =====
-- Who is served by the loop: shares are rounded down or up, and the larger remainders come first.
use native.Mathlib.Nat.{div-add-mod, le-div_iff_mul-le, mul-le-mul_left}
use native.Mathlib.Decide.{ℕ_discrete}
use centry.Prelude.{
  ℕ, zero, suc, ◌+◌, ◌*◌, ◌/◌, ◌%◌, ◌≤◌, ◌<◌, ◌≡◌, ◌≢◌, ◌⊎◌, inl, inr, refl, ap, List, [], ◌∷◌, All,
  All-every, All-imp, All-both, Ordering, arith,
}
use centry.Prelude.Sort.{IsSorted, IsOrder}
use centry.Rewards.Types.{Position, Allocation}
use centry.Rewards.Allocate.{share, by_remainder}
use centry.Rewards.Allocate.Leftover.{shares}
use centry.Rewards.Allocate.Rounds.{bump, bump_first}

pub by_remainder-IsOrder : IsOrder by_remainder
unfolding by_remainder
by_remainder-IsOrder = record { flips = λ x y h. ground arith; chains = λ x y z h k. ground arith }

module _ (budget total : ℕ) where
  -- The share of a position, rounded down.
  abbrev pub floor_of : Position → ℕ
  floor_of p = budget * p.voting_power / total

  -- An allocation before the loop.
  pub record IsShare (a : Allocation) : Type 0 where
    pub amount_eq : a.amount ≡ floor_of a.position
    pub remainder_eq : a.remainder ≡ budget * a.position.voting_power % total

  -- An allocation after the loop.
  pub record IsPaid (a : Allocation) : Type 0 where
    pub down_or_up : (a.amount ≡ floor_of a.position) ⊎ (a.amount ≡ floor_of a.position + 1)
    pub remainder_eq : a.remainder ≡ budget * a.position.voting_power % total

  -- Where `p` got one more and `q` did not, `p` had no smaller a remainder.
  abbrev pub Prior : Allocation → Allocation → Type 0
  Prior p q =
      p.amount ≡ floor_of p.position + 1
      → q.amount ≡ floor_of q.position
      → q.remainder ≤ p.remainder

  pub shares-IsShare : (ps : List Position) → All IsShare (shares budget total ps)
  unfolding share
  shares-IsShare [] = tt
  shares-IsShare (p ∷ ps) = (record { amount_eq = refl; remainder_eq = refl }, shares-IsShare ps)

  IsShare→IsPaid : (a : Allocation) → IsShare a → IsPaid a
  IsShare→IsPaid a s = record { down_or_up = inl s.amount_eq; remainder_eq = s.remainder_eq }

  pub bump_first-IsPaid :
      (r : ℕ) (l : List Allocation) → All IsShare l → All IsPaid (bump_first r l)
  bump_first-IsPaid zero l s = All-imp IsShare→IsPaid l s
  bump_first-IsPaid (suc r) [] s = tt
  bump_first-IsPaid (suc r) (a ∷ l) (s, ss) = (
    record { down_or_up = inr (omega (arith, s.amount_eq)); remainder_eq = s.remainder_eq },
    bump_first-IsPaid r l ss,
  )

  ahead-remainder : (a b : Allocation) → by_remainder a b ≢ Ordering.gt → b.remainder ≤ a.remainder
  unfolding by_remainder
  ahead-remainder a b n = ground arith

  -- Elements that the sort puts behind `a` have no larger a remainder, with one more unit or not.
  behind-remainder :
      (r : ℕ) (a : Allocation) (l : List Allocation)
      → All (λ b. by_remainder a b ≢ Ordering.gt) l
      → All (λ b. b.remainder ≤ a.remainder) (bump_first r l)
  behind-remainder zero a l h = All-imp (ahead-remainder a) l h
  behind-remainder (suc r) a [] h = tt
  behind-remainder (suc r) a (b ∷ l) (n, h) = (ahead-remainder a b n, behind-remainder r a l h)

  -- A served allocation is not passed over.
  served-Prior :
      (r : ℕ) (a : Allocation) (l : List Allocation)
      → IsShare a
      → All (λ p. Prior p (bump a)) (bump_first r l)
  served-Prior r a l s =
      All-every (λ p up down. absurd (omega (arith, s.amount_eq, down))) (bump_first r l)

  -- Of any two allocations after the loop, the one with a unit more has the larger remainder.
  pub bump_first-Prior :
      (r : ℕ) (l : List Allocation)
      → All IsShare l
      → IsSorted by_remainder l
      → All (λ p. All (Prior p) (bump_first r l)) (bump_first r l)
  bump_first-Prior zero l s o =
      All-imp (λ p sp. All-every (λ q up down. absurd (omega (arith, sp.amount_eq))) l) l s
  bump_first-Prior (suc r) [] s o = tt
  bump_first-Prior (suc r) (a ∷ l) (s, ss) (n, o) =
      let rest = bump_first r l in
      let own : Prior (bump a) (bump a) = λ up down. absurd (omega (arith, up, down)) in
      let ahead : All (Prior (bump a)) rest =
        All-imp (λ b h up down. h) rest (behind-remainder r a l n) in
      (
        (own, ahead),
        All-both (λ p. Prior p (bump a)) (λ p. All (Prior p) rest) rest (served-Prior r a l s)
            (bump_first-Prior r l ss o),
      )

-- Of two allocations after the loop, the one with more power has no smaller an amount.
pub more_power :
    (budget total : ℕ) (a b : Allocation)
    → 0 < budget
    → 0 < total
    → IsPaid budget total a
    → IsPaid budget total b
    → Prior budget total a b
    → a.position.voting_power < b.position.voting_power
    → a.amount ≤ b.amount
more_power budget total a b funded positive pa pb prior more =
    let x = budget * a.position.voting_power in
    let y = budget * b.position.voting_power in
    let claims : x + budget ≤ y = omega (arith, mul-le-mul_left budget more) in
    let whole : total * (x / total) + x % total ≡ x = div-add-mod x total in
    let whole' : total * (y / total) + y % total ≡ y = div-add-mod y total in
    let floors : x / total ≤ y / total =
      (le-div_iff_mul-le {k = total} positive).1 (omega (arith, whole, claims)) in
    elim (ℕ_discrete (x / total) (y / total)) [
      | yes same ↦ ground (arith, ap (λ (t : ℕ). total * t) same)
      | no other ↦ omega (arith, floors, other)
    ]
