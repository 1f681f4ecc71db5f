-- ===== src/Rewards/Allocate.antt =====
-- The division of the budget, in `main` of scripts/generate-reward-allocations.js: shares in
-- proportion to the voting power, rounded down, and one more unit for the largest remainders.
pub mod Leftover
mod Rounds
pub mod Fair
pub mod Correct
use centry.Prelude.{
  ℕ, zero, suc, ◌+◌, ◌-◌, ◌*◌, ◌/◌, ◌%◌, compare, Ordering, List, [], ◌∷◌, map, length, Result, ok,
  err, leb, ◌==◌, if◌then◌else◌,
}
use centry.Prelude.Sort.{sort, sum_by}
use centry.Rewards.Types.{Error, allocation_mismatch, Position, Allocation, OutputPosition}

-- One position's share of the budget.
unfoldable pub share : ℕ → ℕ → Position → Allocation
share budget total p = record {
  position = p;
  amount = budget * p.voting_power / total;
  remainder = budget * p.voting_power % total;
}

-- The comparison of the first sort: the larger remainder, then the larger power, then the
-- smaller token comes first.
unfoldable pub by_remainder : Allocation → Allocation → Ordering
by_remainder a b = elim (compare b.remainder a.remainder) [
  | Ordering.lt ↦ Ordering.lt
  | Ordering.gt ↦ Ordering.gt
  | Ordering.eq ↦ elim (compare b.position.voting_power a.position.voting_power) [
    | Ordering.lt ↦ Ordering.lt
    | Ordering.gt ↦ Ordering.gt
    | Ordering.eq ↦ compare a.position.token_id b.position.token_id
  ]
]

-- The comparison of the second sort.
unfoldable pub by_token : Allocation → Allocation → Ordering
by_token a b = compare a.position.token_id b.position.token_id

-- `allocations[index].amount += 1`
unfoldable pub bump_at : List Allocation → ℕ → List Allocation
bump_at [] i = []
bump_at (a ∷ l) zero = record a { amount = a.amount + 1 } ∷ l
bump_at (a ∷ l) (suc i) = a ∷ bump_at l i

-- The `while (remainder > 0n)` loop: the index goes round.
unfoldable pub hand_out : ℕ → ℕ → List Allocation → List Allocation
unfolding bump_at
hand_out zero i l = l
hand_out (suc r) i l = hand_out r (if leb (length l) (i + 1) then 0 else i + 1) (bump_at l i)

abbrev pub allocated : List Allocation → ℕ
allocated = sum_by (λ a. a.amount)

unfoldable pub to_output : Allocation → OutputPosition
to_output a = record {
  token_id = a.position.token_id;
  owner = a.position.owner;
  voting_power = a.position.voting_power;
  locked_amount = a.position.locked_amount;
  lock_end = a.position.lock_end;
  amount = a.amount;
  instructions = [];
}

-- The allocations after the loop.
unfoldable pub divide : ℕ → ℕ → List Position → List Allocation
unfolding share by_remainder hand_out
divide budget total ps =
    let shares = map (share budget total) ps in
    hand_out (budget - allocated shares) 0 (sort by_remainder shares)

-- From the shares to the positions of the file, with the check of the sum.
unfoldable pub allocate : ℕ → ℕ → List Position → Result Error (List OutputPosition)
unfolding divide by_token to_output
allocate budget total ps =
    let shares = divide budget total ps in
    if allocated shares == budget
    then ok (map to_output (sort by_token shares))
    else err allocation_mismatch
