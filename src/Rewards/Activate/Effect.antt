-- ===== src/Rewards/Activate/Effect.antt =====
-- What each way to end says about the chain.
use centry.Prelude.{ℕ, ◌+◌, ◌≤◌, ◌<◌, ◌≡◌, Bool, true, false, ok, when_ok, arith}
use centry.Prelude.Text.{Text, text_eq}
use centry.Rewards.Budget.{RewardsView, zero_hash}
use centry.Rewards.Merkle.{Ethers}
use centry.Rewards.Queue.{Request, same_root}
use centry.Rewards.Activate.{
  Run, Outcome, already_active, not_ready, activated, check_settings, read_request, check_signer,
  decide_epoch, activate,
}

-- The epoch is active with the requested root, but for the case of its digits, and budget.
pub record IsActive (rewards : RewardsView) (r : Request) : Type 0 where
  pub root : same_root (rewards.epoch_roots r.epoch) r.root ≡ true
  pub budget : rewards.epoch_reward_budget r.epoch ≡ r.budget

-- The epoch is queued with the requested root and budget, and not active.
pub record IsPending (rewards : RewardsView) (r : Request) : Type 0 where
  pub inactive : text_eq (rewards.epoch_roots r.epoch) zero_hash ≡ true
  pub present : text_eq (rewards.pending_root r.epoch) zero_hash ≡ false
  pub root : same_root (rewards.pending_root r.epoch) r.root ≡ true
  pub budget : rewards.pending_budget r.epoch ≡ r.budget

-- What an outcome says of the chain before the run, of the clock, and of the chain after it.
abbrev pub Means : (RewardsView → ℕ → RewardsView) → RewardsView → ℕ → Request → Outcome → Type 0
Means activate_epoch rewards now r already_active = IsActive rewards r
Means activate_epoch rewards now r (not_ready n) =
    IsPending rewards r × (0 < n) × (now + n ≡ rewards.pending_ready_at r.epoch)
Means activate_epoch rewards now r activated =
    IsPending rewards r
    × (rewards.pending_ready_at r.epoch ≤ now)
    × (r.epoch ≤ (activate_epoch rewards r.epoch).latest_epoch)
    × IsActive (activate_epoch rewards r.epoch) r

decide_epoch-Means :
    (activate_epoch : RewardsView → ℕ → RewardsView) (rewards : RewardsView) (now : ℕ) (r : Request)
    (o : Outcome)
    → decide_epoch activate_epoch rewards now r ≡ ok o
    → Means activate_epoch rewards now r o
unfolding decide_epoch
decide_epoch-Means activate_epoch rewards now r already_active h = ground arith
decide_epoch-Means activate_epoch rewards now r (not_ready n) h = ground arith
decide_epoch-Means activate_epoch rewards now r activated h = ground arith

-- A run that ends without an error tells the truth about the requested epoch: it was active with
-- the requested root and budget; or it was queued so and `n` seconds are left until it is ready; or
-- it was queued and ready, and the chain after the transaction has it active with the requested
-- root and budget and has advanced to it.
pub activate-Means :
    (is_hex_string : Text → Bool) (activate_epoch : RewardsView → ℕ → RewardsView) (ethers : Ethers)
    (run : Run) (o : Outcome)
    → activate is_hex_string activate_epoch ethers run ≡ ok o
    → (r : Request) × (read_request is_hex_string run ≡ ok r)
      × (check_signer ethers run ≡ ok tt)
      × Means activate_epoch run.rewards run.now r o
unfolding activate
activate-Means is_hex_string activate_epoch ethers run o h =
    when_ok (check_settings run) _ h λ _ _ h₁.
      when_ok (read_request is_hex_string run) _ h₁ λ r e₁ h₂.
        when_ok (check_signer ethers run) _ h₂
          λ _ e₂ h₃. (r, e₁, e₂, decide_epoch-Means activate_epoch run.rewards run.now r o h₃)
