-- ===== src/Rewards/Queue.antt =====
-- scripts/queue-reward-epoch.js: the tests before a manifest's epoch is queued on the chain.
pub mod Files
pub mod Safe
use centry.Prelude.{
  ℕ, Bool, true, false, not, ◌&&◌, Option, [], ◌∷◌, Result, ok, err, ◌>>=◌, ◌>>◌, throw_if, ltb,
  leb, ◌==◌, if◌then◌else◌,
}
use centry.Prelude.Int.{ℤ, pos, int_eq}
use centry.Prelude.Text.{Text, text_eq, to_lower_case}
use centry.Rewards.Types.{
  Error, missing_rpc_url, missing_private_key, file_not_found, epoch_missing, root_missing,
  epoch_not_positive, budget_not_positive, epoch_mismatch, wrong_chain, not_the_owner,
  active_with_other_root, queued_with_other_parameters, not_a_future_epoch, balance_below_budget,
  AllocationInput, ManifestInput,
}
use centry.Rewards.Budget.{RewardsView, zero_hash}
use centry.Rewards.Merkle.{Ethers}
use centry.Rewards.Manifest.{read_int, required, checked_address}
use centry.Rewards.Validate.{positive, present, read_root}

-- What the script reads: its environment, the two files, and the chain.
pub record Run : Type 0 where
  pub has_rpc_url : Bool
  pub has_private_key : Bool
  pub manifest : Option ManifestInput
  pub allocations : Option AllocationInput
  pub chain_id : ℕ
  pub signer : Text
  pub owner : Text
  pub rewards : RewardsView
  pub balance : ℕ

-- The epoch, root and budget of the two files.
pub record Request : Type 0 where
  pub epoch : ℕ
  pub root : Text
  pub budget : ℕ

-- How the script ends: with nothing to do, or with the transaction `queueEpoch`.
pub data Outcome : Type 0 where
  already_active : Outcome
  already_queued : Outcome
  submitted : Request → Outcome

-- The connection and the key must be configured.
unfoldable pub check_settings : Run → Result Error (Unit {0})
check_settings run = do
  throw_if (not run.has_rpc_url) missing_rpc_url
  throw_if (not run.has_private_key) missing_private_key

abbrev is_empty : Text → Bool
is_empty [] = true
is_empty (c ∷ t) = false

-- A root, whose form is tested later.
unfoldable pub some_root : Option Text → Result Error (Unit {0})
some_root o = do r ← present o root_missing; throw_if (is_empty r) root_missing

-- The files, read and compared.
unfoldable pub read_request : Run → Result Error Request
read_request run = do
  manifest ← present run.manifest file_not_found
  allocations ← present run.allocations file_not_found
  epoch_field ← required manifest.epoch epoch_missing
  some_root manifest.root
  epoch_number ← read_int epoch_field
  budget_number ← read_int allocations.reward_budget
  root ← read_root manifest.root
  epoch ← positive epoch_number epoch_not_positive
  budget ← positive budget_number budget_not_positive
  allocated ← read_int allocations.epoch
  throw_if (not (int_eq allocated (pos epoch))) epoch_mismatch
  ok (record { epoch = epoch; root = root; budget = budget })

-- The chain must be the expected one, and the signer the owner of the contract.
unfoldable pub check_signer : Ethers → Run → Result Error (Unit {0})
check_signer ethers run = do
  throw_if (not (run.chain_id == 5042)) wrong_chain
  owner ← checked_address ethers run.owner
  signer ← checked_address ethers run.signer
  throw_if (not (text_eq owner signer)) not_the_owner

abbrev pub same_root : Text → Text → Bool
same_root a b = text_eq (to_lower_case a) (to_lower_case b)

-- A root that is active for the epoch ends the script.
unfoldable pub when_active : RewardsView → Request → Result Error Outcome
when_active rewards r =
    if same_root (rewards.epoch_roots r.epoch) r.root
    then ok already_active
    else err active_with_other_root

-- So does one that is queued.
unfoldable pub when_queued : RewardsView → Request → Result Error Outcome
when_queued rewards r =
    if same_root (rewards.pending_root r.epoch) r.root && rewards.pending_budget r.epoch == r.budget
    then ok already_queued
    else err queued_with_other_parameters

-- A free epoch is queued if it is a future one and the balance covers the budget.
unfoldable pub when_free : RewardsView → ℕ → Request → Result Error Outcome
when_free rewards balance r = do
  throw_if (leb r.epoch rewards.latest_epoch) not_a_future_epoch
  throw_if (ltb balance r.budget) balance_below_budget
  ok (submitted r)

unfoldable pub decide_epoch : RewardsView → ℕ → Request → Result Error Outcome
unfolding when_active when_queued when_free
decide_epoch rewards balance r =
    if not (text_eq (rewards.epoch_roots r.epoch) zero_hash)
    then when_active rewards r
    else (if not (text_eq (rewards.pending_root r.epoch) zero_hash)
        then when_queued rewards r
        else when_free rewards balance r)

-- `main`
unfoldable pub queue : Ethers → Run → Result Error Outcome
queue ethers run = do
  check_settings run
  request ← read_request run
  check_signer ethers run
  decide_epoch run.rewards run.balance request
