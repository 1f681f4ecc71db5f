-- ===== src/Rewards/Queue/Safe.antt =====
-- When the script submits an epoch, and that it does so once.
use centry.Prelude.{refl, ℕ, ◌≤◌, ◌<◌, ◌≡◌, ◌≢◌, true, ok, if◌then◌else◌, ◌==◌, when_ok, arith}
use centry.Prelude.Text.{text_eq_refl, text_eq_ne, to_lower_case}
use centry.Rewards.Budget.{RewardsView, zero_hash, is_free}
use centry.Rewards.Budget.FreeEpoch.{IsOpen, is_free-IsOpen}
use centry.Rewards.Merkle.{Ethers}
use centry.Rewards.Queue.Files.{IsAsked, IsSigned, read_request-IsAsked, check_signer-IsSigned}
use centry.Rewards.Queue.{
  Run, Request, Outcome, already_queued, submitted, check_settings, read_request, check_signer,
  decide_epoch, queue,
}

-- The chain after the contract has taken the request: the epoch is pending with its root and
-- budget, and all else is as before.
unfoldable pub after_queue : RewardsView → Request → ℕ → RewardsView
after_queue rewards r ready_at = record rewards {
  pending_root = λ e. if e == r.epoch then r.root else rewards.pending_root e;
  pending_budget = λ e. if e == r.epoch then r.budget else rewards.pending_budget e;
  pending_ready_at = λ e. if e == r.epoch then ready_at else rewards.pending_ready_at e;
}

decide_epoch-submitted :
    (rewards : RewardsView) (balance : ℕ) (r s : Request)
    → decide_epoch rewards balance r ≡ ok (submitted s)
    → (r ≡ s)
      × (is_free rewards s.epoch ≡ true)
      × (rewards.latest_epoch < s.epoch)
      × (s.budget ≤ balance)
unfolding decide_epoch is_free
decide_epoch-submitted rewards balance r s h = ground arith

-- What stands behind a submitted request: the files have it, the owner signs it on the expected
-- chain, and the epoch is open, behind the latest active one, and covered by the balance.
pub record IsBacked (ethers : Ethers) (run : Run) (s : Request) : Type 0 where
  pub asked : IsAsked run s
  pub signed : IsSigned ethers run
  pub free : IsOpen run.rewards s.epoch
  pub future : run.rewards.latest_epoch < s.epoch
  pub covered : s.budget ≤ run.balance

queue-decided :
    (ethers : Ethers) (run : Run) (o : Outcome)
    → queue ethers run ≡ ok o
    → check_settings run ≡ ok tt
      × (check_signer ethers run ≡ ok tt)
      × ((r : Request) × (read_request run ≡ ok r)
          × (decide_epoch run.rewards run.balance r ≡ ok o))
unfolding queue
queue-decided ethers run o h = when_ok (check_settings run) _ h λ _ e h₁.
    when_ok (read_request run) _ h₁
      λ r e₁ h₂. when_ok (check_signer ethers run) _ h₂ λ _ e₂ h₃. (e, e₂, (r, e₁, h₃))

-- A transaction is submitted only when both files have its epoch, the manifest its root, a 32-byte
-- value, and the allocations its budget, with epoch and budget above zero; on chain 5042, with a
-- signer whose address is the owner's; when the contract has neither an active nor a pending root
-- for the epoch, which lies behind the latest active one; and when its balance covers the budget.
pub queue-IsBacked :
    (ethers : Ethers) (run : Run) (s : Request)
    → queue ethers run ≡ ok (submitted s)
    → IsBacked ethers run s
queue-IsBacked ethers run s h =
    let (_, signed, (r, requested, decided)) = queue-decided ethers run (submitted s) h in
    let (same, free, future, covered) =
      decide_epoch-submitted run.rewards run.balance r s decided in
    record {
      asked = read_request-IsAsked run s (rw same at requested);
      signed = check_signer-IsSigned ethers run signed;
      free = is_free-IsOpen run.rewards s.epoch free;
      future = future;
      covered = covered;
    }

decide_epoch-again :
    (rewards : RewardsView) (balance : ℕ) (s : Request) (ready_at : ℕ)
    → s.root ≢ zero_hash
    → is_free rewards s.epoch ≡ true
    → decide_epoch (after_queue rewards s ready_at) balance s ≡ ok already_queued
unfolding decide_epoch is_free after_queue
decide_epoch-again rewards balance s ready_at nonzero free =
    ground (arith, text_eq_ne s.root zero_hash nonzero, text_eq_refl (to_lower_case s.root))

module _ (ethers : Ethers) (run : Run) (rewards : RewardsView) where
  abbrev elsewhere : Run
  elsewhere = record run { rewards = rewards }

  check_settings-elsewhere : check_settings elsewhere ≡ check_settings run
  unfolding check_settings
  check_settings-elsewhere = refl

  read_request-elsewhere : read_request elsewhere ≡ read_request run
  unfolding read_request
  read_request-elsewhere = refl

  check_signer-elsewhere : check_signer ethers elsewhere ≡ check_signer ethers run
  unfolding check_signer
  check_signer-elsewhere = refl

-- If the root is not the zero hash, then a second run, on the chain that the first run's
-- transaction left, submits nothing and reports the epoch as queued.
pub queue_once :
    (ethers : Ethers) (run : Run) (s : Request) (ready_at : ℕ)
    → s.root ≢ zero_hash
    → queue ethers run ≡ ok (submitted s)
    → queue ethers (record run { rewards = after_queue run.rewards s ready_at }) ≡ ok already_queued
unfolding queue
queue_once ethers run s ready_at nonzero h =
    let (configured, signed, (r, requested, decided)) = queue-decided ethers run (submitted s) h in
    let (same, free, _, _) = decide_epoch-submitted run.rewards run.balance r s decided in
    let after = after_queue run.rewards s ready_at in
    rw (
      check_settings-elsewhere ethers run after,
      configured,
      read_request-elsewhere ethers run after,
      rw same at requested,
      check_signer-elsewhere ethers run after,
      signed,
      decide_epoch-again run.rewards run.balance s ready_at nonzero free,
    )
