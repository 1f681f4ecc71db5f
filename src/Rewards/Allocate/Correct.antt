-- ===== src/Rewards/Allocate/Correct.antt =====
-- The whole division: it never fails, spends the budget exactly, keeps every position, and rounds
-- each share fairly.
use mathlib.Core.List.{Perm}
use mathlib.Core.List.Perm
use centry.Prelude.{
  ℕ, ◌+◌, ◌-◌, ◌≤◌, ◌<◌, ◌≡◌, ◌≢◌, refl, ap, sym, ◌∙◌, List, [], ◌∷◌, map, length, length-map, ok,
  All, All-map, All-both, All-imp, Ordering, arith,
}
use centry.Prelude.Sort.{
  sort, sort-All, sort-IsSorted, sort-perm, length-sort, sum_by, sum_by-sort, IsSorted, IsOrder,
}
use centry.Rewards.Types.{Position, Allocation, OutputPosition}
use centry.Rewards.Allocate.{share, by_remainder, by_token, to_output, divide, allocate, allocated}
use centry.Rewards.Allocate.Leftover.{shares, allocated-shares-le, leftover-lt}
use centry.Rewards.Allocate.Rounds.{
  bump_first, hand_out-bump_first, allocated-bump_first, positions-bump_first,
}
use centry.Rewards.Allocate.Fair.{
  floor_of, IsPaid, Prior, shares-IsShare, bump_first-IsPaid, bump_first-Prior,
  by_remainder-IsOrder, more_power,
}

-- The position that an entry of the file describes.
abbrev pub origin : OutputPosition → Position
origin o = record {
  token_id = o.token_id;
  owner = o.owner;
  voting_power = o.voting_power;
  locked_amount = o.locked_amount;
  lock_end = o.lock_end;
}

abbrev pub paid : List OutputPosition → ℕ
paid = sum_by (λ o. o.amount)

positions-shares :
    (budget total : ℕ) (ps : List Position) → map (λ a. a.position) (shares budget total ps) ≡ ps
unfolding share
positions-shares budget total [] = refl
positions-shares budget total (p ∷ ps) = ap (◌∷◌ p) (positions-shares budget total ps)

origins-outputs : (l : List Allocation) → map origin (map to_output l) ≡ map (λ a. a.position) l
unfolding to_output
origins-outputs [] = refl
origins-outputs (a ∷ l) = ap (◌∷◌ a.position) (origins-outputs l)

paid-outputs : (l : List Allocation) → paid (map to_output l) ≡ allocated l
unfolding to_output
paid-outputs [] = refl
paid-outputs (a ∷ l) = omega (arith, paid-outputs l)

-- No token comes before a smaller one.
abbrev pub TokensAscend : List OutputPosition → Type 0
TokensAscend [] = Unit
TokensAscend (o ∷ os) = All (λ o'. o.token_id ≤ o'.token_id) os × TokensAscend os

by_token-IsOrder : IsOrder by_token
unfolding by_token
by_token-IsOrder = record { flips = λ x y h. ground arith; chains = λ x y z h k. ground arith }

by_token-le :
    (a b : Allocation) → by_token a b ≢ Ordering.gt → a.position.token_id ≤ b.position.token_id
unfolding by_token
by_token-le a b h = ground arith

outputs-TokensAscend : (l : List Allocation) → IsSorted by_token l → TokensAscend (map to_output l)
unfolding to_output
outputs-TokensAscend [] s = tt
outputs-TokensAscend (a ∷ l) (n, s) = (
  All-map (λ o'. a.position.token_id ≤ o'.token_id) to_output (by_token-le a) l n,
  outputs-TokensAscend l s,
)

module _ (budget total : ℕ) (ps : List Position) (sums : total ≡ sum_by (λ p. p.voting_power) ps)
    (positive : 0 < total) where
  sorted_shares : List Allocation
  sorted_shares = sort by_remainder (shares budget total ps)

  left_over : ℕ
  left_over = budget - allocated (shares budget total ps)

  some_position : 0 < length ps
  some_position = positions ps sums
    where
      positions : (l : List Position) → total ≡ sum_by (λ p. p.voting_power) l → 0 < length l
      positions [] e = absurd (omega arith)
      positions (p ∷ l) e = omega arith

  left_over-le : left_over ≤ length sorted_shares
  unfolding left_over sorted_shares
  left_over-le = omega (
    arith,
    leftover-lt budget total ps sums positive some_position,
    length-sort by_remainder (shares budget total ps),
    length-map ps (share budget total),
  )

  -- The loop serves the first of the sorted shares, one unit each, and its index never goes round.
  divide-bump_first : divide budget total ps ≡ bump_first left_over sorted_shares
  unfolding divide left_over sorted_shares
  divide-bump_first = hand_out-bump_first _ _ (unfold left_over sorted_shares in left_over-le)

  divide_spends : allocated (divide budget total ps) ≡ budget
  unfolding left_over sorted_shares
  divide_spends = rw divide-bump_first (
      omega (
        arith,
        allocated-bump_first left_over sorted_shares left_over-le,
        allocated-shares-le budget total ps sums positive,
        sum_by-sort by_remainder (λ a. a.amount) (shares budget total ps),
      ))

  divide-IsPaid : All (IsPaid budget total) (divide budget total ps)
  unfolding sorted_shares
  divide-IsPaid = rw divide-bump_first (
      bump_first-IsPaid budget total left_over sorted_shares
        (sort-All by_remainder _ _ (shares-IsShare budget total ps)))

  divide-Prior :
      All (λ p. All (Prior budget total p) (divide budget total ps)) (divide budget total ps)
  unfolding sorted_shares
  divide-Prior = rw divide-bump_first (
      bump_first-Prior budget total left_over sorted_shares
        (sort-All by_remainder _ _ (shares-IsShare budget total ps))
        (sort-IsSorted by_remainder by_remainder-IsOrder (shares budget total ps)))

  divide-perm : Perm (map (λ a. a.position) (divide budget total ps)) ps
  unfolding sorted_shares
  divide-perm =
      let moved : Perm (map (λ a. a.position) sorted_shares)
          (map (λ a. a.position) (shares budget total ps)) =
        Perm.map (λ a. a.position) (sort-perm by_remainder (shares budget total ps)) in
      rw (divide-bump_first, positions-bump_first) (rw (positions-shares budget total ps) at moved)

  allocate_lem :
      allocate budget total ps ≡ ok (map to_output (sort by_token (divide budget total ps)))
  unfolding allocate
  allocate_lem = rw divide_spends (ground arith)

  -- A division of a budget among positions, by their total power, which is positive, succeeds: the
  -- amounts add up to exactly the budget, the entries describe exactly the given positions, each
  -- as often as it was given, and they stand in the order of their tokens.
  pub allocate-ok :
      (out : List OutputPosition) × (allocate budget total ps ≡ ok out)
      × (paid out ≡ budget)
      × Perm (map origin out) ps
      × TokensAscend out
  allocate-ok =
      let entries = divide budget total ps in
      let sorted = sort by_token entries in
      (
        map to_output sorted,
        allocate_lem,
        omega (
          arith,
          paid-outputs sorted,
          sum_by-sort by_token (λ a. a.amount) entries,
          divide_spends,
        ),
        rw (origins-outputs sorted)
            (Perm.trans (Perm.map (λ a. a.position) (sort-perm by_token entries)) divide-perm),
        outputs-TokensAscend sorted (sort-IsSorted by_token by_token-IsOrder entries),
      )

  outputs-eq :
      (out : List OutputPosition)
      → allocate budget total ps ≡ ok out
      → out ≡ map to_output (sort by_token (divide budget total ps))
  outputs-eq out e =
      let known : ok out ≡ ok (map to_output (sort by_token (divide budget total ps))) =
        sym e ∙ allocate_lem in
      cc

  -- In a division by the positive total power of the positions, every entry is paid at least its
  -- share of the budget by power, rounded down, and at most one unit more.
  pub allocate_quota :
      (out : List OutputPosition)
      → allocate budget total ps ≡ ok out
      → All
          (λ o.
            (floor_of budget total (origin o) ≤ o.amount)
            × (o.amount ≤ floor_of budget total (origin o) + 1))
          out
  unfolding to_output
  allocate_quota out e = rw (outputs-eq out e) (
      All-map _ to_output (λ a (h : IsPaid budget total a). omega arith) _
        (sort-All by_token _ _ divide-IsPaid))

  -- In a division of a positive budget by the positive total power of the positions, a position
  -- with more power than another is never paid less.
  pub allocate_monotone :
      (out : List OutputPosition)
      → allocate budget total ps ≡ ok out
      → 0 < budget
      → All (λ p. All (λ q. p.voting_power < q.voting_power → p.amount ≤ q.amount) out) out
  unfolding to_output
  allocate_monotone out e funded =
      let entries = divide budget total ps in
      let outranks : Allocation → Allocation → Type 0 =
        λ a b. a.position.voting_power < b.position.voting_power → a.amount ≤ b.amount in
      let each : All (λ a. All (outranks a) entries) entries =
        All-imp
          (λ a (h : IsPaid budget total a × All (Prior budget total a) entries).
            All-imp
              (λ b (k : IsPaid budget total b × Prior budget total a b).
                more_power budget total a b funded positive h.0 k.0 k.1)
              entries
              (All-both (IsPaid budget total) (Prior budget total a) entries divide-IsPaid h.1))
          entries
          (All-both (IsPaid budget total) (λ a. All (Prior budget total a) entries) entries
            divide-IsPaid divide-Prior) in
      rw (outputs-eq out e) (
        All-map _ to_output
          (λ a (h : All (outranks a) entries).
            All-map _ to_output (λ b w. w) _ (sort-All by_token (outranks a) entries h))
          _ (sort-All by_token _ _ each))
