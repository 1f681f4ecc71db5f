-- ===== src/Rewards/Budget/Obligations.antt =====
-- The two scans over the epochs, against sums over a range.
use native.Mathlib.Decide.{ℕ_discrete}
use centry.Prelude.{ℕ, zero, suc, ◌+◌, ◌≤◌, ◌<◌, ◌≡◌, arith}
use centry.Rewards.Budget.{RewardsView, owed, queued, active_loop, pending_loop}

-- The sum of `f` over `n` epochs from `first` on.
abbrev pub sum_range : (ℕ → ℕ) → ℕ → ℕ → ℕ
sum_range f zero first = 0
sum_range f (suc n) first = f first + sum_range f n (first + 1)

-- Each epoch of the range is counted.
pub le-sum_range :
    (f : ℕ → ℕ) (n first e : ℕ) → first ≤ e → e < first + n → f e ≤ sum_range f n first
le-sum_range f zero first e h k = absurd (omega arith)
le-sum_range f (suc n) first e h k = elim (ℕ_discrete first e) [
  | yes same ↦ rw same (omega arith)
  | no other ↦ omega (arith, le-sum_range f n (first + 1) e)
]

module _ (rewards : RewardsView) where
  pub active_loop-sum_range :
      (n epoch acc : ℕ) → active_loop rewards n epoch acc ≡ acc + sum_range (owed rewards) n epoch
  unfolding active_loop
  active_loop-sum_range zero epoch acc = omega arith
  active_loop-sum_range (suc n) epoch acc =
      omega (arith, active_loop-sum_range n (epoch + 1) (acc + owed rewards epoch))

  pub pending_loop-sum_range :
      (n epoch acc : ℕ)
      → pending_loop rewards n epoch acc ≡ acc + sum_range (queued rewards) n epoch
  unfolding pending_loop
  pending_loop-sum_range zero epoch acc = omega arith
  pending_loop-sum_range (suc n) epoch acc =
      omega (arith, pending_loop-sum_range n (epoch + 1) (acc + queued rewards epoch))
