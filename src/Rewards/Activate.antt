-- ===== src/Rewards/Activate.antt =====
-- scripts/activate-reward-epoch.js: the activation of a queued epoch, and what is read back.
pub mod Effect
use centry.Prelude.{
  ℕ, ◌-◌, Bool, not, Option, none, some, Result, ok, err, ◌>>=◌, ◌>>◌, throw_if, ltb, ◌==◌,
  if◌then◌else◌,
}
use centry.Prelude.Int.{ℤ, pos}
use centry.Prelude.Text.{Text, text_eq}
use centry.Rewards.Types.{
  Error, missing_rpc_url, missing_private_key, file_not_found, epoch_not_positive, not_bytes32,
  budget_not_positive, wrong_chain, not_the_owner, active_with_other_root, active_with_other_budget,
  not_queued, pending_root_mismatch, pending_budget_mismatch, latest_did_not_advance,
  activated_root_mismatch, activated_budget_mismatch, Field, absent, ManifestInput,
}
use centry.Rewards.Budget.{RewardsView, zero_hash}
use centry.Rewards.Merkle.{Ethers}
use centry.Rewards.Manifest.{read_int, checked_address}
use centry.Rewards.Validate.{positive, present}
use centry.Rewards.Queue.{Request, same_root}

-- What the script reads before it sends the transaction. `now` is in seconds.
pub record Run : Type 0 where
  pub has_rpc_url : Bool
  pub has_private_key : Bool
  pub manifest : Option ManifestInput
  pub chain_id : ℕ
  pub signer : Text
  pub owner : Text
  pub rewards : RewardsView
  pub now : ℕ

-- How the script ends.
pub data Outcome : Type 0 where
  already_active : Outcome
  not_ready : (remaining : ℕ) → Outcome
  activated : Outcome

unfoldable pub check_settings : Run → Result Error (Unit {0})
check_settings run = do
  throw_if (not run.has_rpc_url) missing_rpc_url
  throw_if (not run.has_private_key) missing_private_key

-- `BigInt(manifest.rewardBudget ?? 0)`
unfoldable pub read_budget_or_zero : Field → Result Error ℤ
read_budget_or_zero absent = ok (pos 0)
read_budget_or_zero f = read_int f

-- `is_hex_string` is `ethers.isHexString(_, 32)`, which is false for what is no text.
unfoldable pub hex_root : (Text → Bool) → Option Text → Result Error Text
hex_root is_hex_string none = err not_bytes32
hex_root is_hex_string (some t) = if is_hex_string t then ok t else err not_bytes32

unfoldable pub read_request : (Text → Bool) → Run → Result Error Request
unfolding read_budget_or_zero hex_root
read_request is_hex_string run = do
  manifest ← present run.manifest file_not_found
  epoch_number ← read_int manifest.epoch
  budget_number ← read_budget_or_zero manifest.reward_budget
  epoch ← positive epoch_number epoch_not_positive
  root ← hex_root is_hex_string manifest.root
  budget ← positive budget_number budget_not_positive
  ok (record { epoch = epoch; root = root; budget = budget })

unfoldable pub check_signer : Ethers → Run → Result Error (Unit {0})
check_signer ethers run = do
  throw_if (not (run.chain_id == 5042)) wrong_chain
  signer ← checked_address ethers run.signer
  owner ← checked_address ethers run.owner
  throw_if (not (text_eq signer owner)) not_the_owner

-- An epoch that is active must be the requested one.
unfoldable pub when_active : RewardsView → Request → Result Error Outcome
when_active rewards r = do
  throw_if (not (same_root (rewards.epoch_roots r.epoch) r.root)) active_with_other_root
  throw_if (not (rewards.epoch_reward_budget r.epoch == r.budget)) active_with_other_budget
  ok already_active

-- The queued entry must be there and be the requested one.
unfoldable pub check_pending : RewardsView → Request → Result Error (Unit {0})
check_pending rewards r = do
  throw_if (text_eq (rewards.pending_root r.epoch) zero_hash) not_queued
  throw_if (not (same_root (rewards.pending_root r.epoch) r.root)) pending_root_mismatch
  throw_if (not (rewards.pending_budget r.epoch == r.budget)) pending_budget_mismatch

-- What the chain holds after the transaction must be the requested epoch.
unfoldable pub check_activated : RewardsView → Request → Result Error Outcome
check_activated after r = do
  throw_if (ltb after.latest_epoch r.epoch) latest_did_not_advance
  throw_if (not (same_root (after.epoch_roots r.epoch) r.root)) activated_root_mismatch
  throw_if (not (after.epoch_reward_budget r.epoch == r.budget)) activated_budget_mismatch
  ok activated

-- The transaction is sent once the delay is over. `activate_epoch` gives the chain after it.
unfoldable pub send_activation :
    (RewardsView → ℕ → RewardsView) → RewardsView → ℕ → Request → Result Error Outcome
unfolding check_activated
send_activation activate_epoch rewards now r =
    if ltb now (rewards.pending_ready_at r.epoch)
    then ok (not_ready (rewards.pending_ready_at r.epoch - now))
    else check_activated (activate_epoch rewards r.epoch) r

-- The decision: active already, or queued and to be activated.
unfoldable pub decide_epoch :
    (RewardsView → ℕ → RewardsView) → RewardsView → ℕ → Request → Result Error Outcome
unfolding when_active check_pending send_activation
decide_epoch activate_epoch rewards now r =
    if not (text_eq (rewards.epoch_roots r.epoch) zero_hash)
    then when_active rewards r
    else check_pending rewards r >> send_activation activate_epoch rewards now r

-- `main`
unfoldable pub activate :
    (Text → Bool) → (RewardsView → ℕ → RewardsView) → Ethers → Run → Result Error Outcome
activate is_hex_string activate_epoch ethers run = do
  check_settings run
  request ← read_request is_hex_string run
  check_signer ethers run
  decide_epoch activate_epoch run.rewards run.now request
