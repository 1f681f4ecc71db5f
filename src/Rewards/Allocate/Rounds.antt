-- ===== src/Rewards/Allocate/Rounds.antt =====
-- The loop that hands out the leftover, for a leftover that is at most the number of shares.
use centry.Prelude.{
  ℕ, zero, suc, ◌+◌, ◌≤◌, ◌≡◌, refl, ap, ◌∙◌, false, List, [], ◌∷◌, ◌++◌, map, length, leb,
  append_assoc, length-append, arith,
}
use centry.Rewards.Types.{Allocation}
use centry.Rewards.Allocate.{bump_at, hand_out, allocated}

-- One more unit.
abbrev pub bump : Allocation → Allocation
bump a = record a { amount = a.amount + 1 }

-- One more unit for each of the first `r`.
abbrev pub bump_first : ℕ → List Allocation → List Allocation
bump_first zero l = l
bump_first (suc r) [] = []
bump_first (suc r) (a ∷ l) = bump a ∷ bump_first r l

bump_at_middle :
    (done : List Allocation) (a : Allocation) (l : List Allocation)
    → bump_at (done ++ a ∷ l) (length done) ≡ done ++ bump a ∷ l
unfolding bump_at
bump_at_middle [] a l = refl
bump_at_middle (d ∷ done) a l = ap (◌∷◌ d) (bump_at_middle done a l)

-- While another share follows, the index moves on by one.
hand_out_step :
    (r i : ℕ) (done : List Allocation) (a b : Allocation) (l : List Allocation)
    → i ≡ length done
    → hand_out (suc r) i (done ++ a ∷ b ∷ l) ≡ hand_out r (i + 1) (done ++ bump a ∷ b ∷ l)
unfolding hand_out
hand_out_step r i done a b l e =
    let inside : leb (length (done ++ a ∷ b ∷ l)) (i + 1) ≡ false =
      ground (arith, length-append done (a ∷ b ∷ l)) in
    rw (inside, e, bump_at_middle)

-- The index goes round only when there is nothing left to hand out.
hand_out_next :
    (r i : ℕ) (done : List Allocation) (a : Allocation) (l : List Allocation)
    → i ≡ length done
    → r ≤ length l
    → hand_out (suc r) i (done ++ a ∷ l) ≡ hand_out r (i + 1) (done ++ bump a ∷ l)
hand_out_next zero i done a l e h = unfold hand_out in rw (e, bump_at_middle)
hand_out_next (suc r) i done a [] e h = absurd (omega arith)
hand_out_next (suc r) i done a (b ∷ l) e h = hand_out_step (suc r) i done a b l e

-- From any place with room for the rest, the loop serves the next `r` in order.
hand_out_rest :
    (r i : ℕ) (done l : List Allocation)
    → i ≡ length done
    → r ≤ length l
    → hand_out r i (done ++ l) ≡ done ++ bump_first r l
hand_out_rest zero i done l e h = unfold hand_out in refl
hand_out_rest (suc r) i done [] e h = absurd (omega arith)
hand_out_rest (suc r) i done (a ∷ l) e h =
    let rest =
      hand_out_rest r (i + 1) (done ++ bump a ∷ []) l
        (omega (arith, length-append done (bump a ∷ []))) (omega arith) in
    hand_out_next r i done a l e (omega arith) ∙ (simp append_assoc at rest)

pub hand_out-bump_first :
    (r : ℕ) (l : List Allocation) → r ≤ length l → hand_out r 0 l ≡ bump_first r l
hand_out-bump_first r l h = hand_out_rest r 0 [] l refl h

pub allocated-bump_first :
    (r : ℕ) (l : List Allocation) → r ≤ length l → allocated (bump_first r l) ≡ allocated l + r
allocated-bump_first zero l h = omega arith
allocated-bump_first (suc r) [] h = absurd (omega arith)
allocated-bump_first (suc r) (a ∷ l) h = omega (arith, allocated-bump_first r l)

pub positions-bump_first :
    (r : ℕ) (l : List Allocation) → map (λ a. a.position) (bump_first r l) ≡ map (λ a. a.position) l
positions-bump_first zero l = refl
positions-bump_first (suc r) [] = refl
positions-bump_first (suc r) (a ∷ l) = ap (◌∷◌ a.position) (positions-bump_first r l)
