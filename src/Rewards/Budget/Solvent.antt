-- ===== src/Rewards/Budget/Solvent.antt =====
-- A new budget never spends what earlier epochs may still claim.
use centry.Prelude.{ℕ, ◌+◌, ◌-◌, ◌≤◌, ◌<◌, ◌≡◌, ok, >>=-eq-ok, throw_if, ltb, ◌==◌, arith}
use centry.Prelude.Int.{pos, negsuc}
use centry.Rewards.Budget.{
  RewardsView, Limits, Setting, unset, malformed, value, owed, queued, active_obligations,
  pending_obligations, choose_budget, resolve_reward_budget,
}
use centry.Rewards.Budget.Obligations.{sum_range, active_loop-sum_range, pending_loop-sum_range}

module _ (rewards : RewardsView) where
  -- What the active epochs still owe.
  abbrev pub owed_in_all : ℕ
  owed_in_all = sum_range (owed rewards) rewards.latest_epoch 1

  -- What the queued epochs up to `last` will owe.
  abbrev pub queued_up_to : ℕ → ℕ
  queued_up_to last = sum_range (queued rewards) last 1

  active_obligations-ok :
      (max_scan a : ℕ) → active_obligations rewards max_scan ≡ ok a → a ≡ owed_in_all
  unfolding active_obligations
  active_obligations-ok max_scan a h =
      ground (arith, active_loop-sum_range rewards rewards.latest_epoch 1 0)

  pending_obligations-eq :
      (lookahead next : ℕ)
      → pending_obligations rewards lookahead next ≡ queued_up_to (next + lookahead)
  unfolding pending_obligations
  pending_obligations-eq lookahead next =
      omega (arith, pending_loop-sum_range rewards (next + lookahead) 1 0)

choose_budget_bounds :
    (available : ℕ) (configured : Setting) (b : ℕ)
    → 0 < available
    → choose_budget available configured ≡ ok b
    → (0 < b) × (b ≤ available)
unfolding choose_budget
choose_budget_bounds available unset b some_left h = ground arith
choose_budget_bounds available malformed b some_left h = cc
choose_budget_bounds available (value (pos n)) b some_left h = ground arith
choose_budget_bounds available (value (negsuc n)) b some_left h = cc

-- A budget that the script settles on is positive, and the contract's balance covers it beside
-- everything that the active epochs still owe and that the queued epochs up to the lookahead
-- behind the new one will owe.
pub resolve_reward_budget-solvent :
    (rewards : RewardsView) (limits : Limits) (balance : ℕ) (configured : Setting)
    (next_epoch b : ℕ)
    → resolve_reward_budget rewards limits balance configured next_epoch ≡ ok b
    → (0 < b)
      × (b + owed_in_all rewards + queued_up_to rewards (next_epoch + limits.epoch_lookahead)
          ≤ balance)
unfolding resolve_reward_budget
resolve_reward_budget-solvent rewards limits balance configured next_epoch b h =
    let queued_sum = pending_obligations rewards limits.epoch_lookahead next_epoch in
    let (active, counted, h₁) = >>=-eq-ok (active_obligations rewards limits.max_epoch_scan) _ h in
    let (_, covered, h₂) = >>=-eq-ok (throw_if (ltb balance (active + queued_sum)) _) _ h₁ in
    let (_, some_left, h₃) = >>=-eq-ok (throw_if (balance - (active + queued_sum) == 0) _) _ h₂ in
    ground (
      arith,
      covered,
      some_left,
      active_obligations-ok rewards limits.max_epoch_scan active counted,
      pending_obligations-eq rewards limits.epoch_lookahead next_epoch,
      choose_budget_bounds (balance - (active + queued_sum)) configured b,
    )
