-- ===== src/Rewards/Types.antt =====
-- The data that the scripts of scripts/ hand to one another. A JSON field with a decimal number is
-- the number: each script writes it by `toString` and reads it back by `BigInt`.
use centry.Prelude.{ℕ, List, Option}
use centry.Prelude.Int.{ℤ}
use centry.Prelude.Text.{Text}

-- One error for each `throw` of the scripts.
pub data Error : Type 0 where
  missing_rpc_url : Error
  wrong_chain : Error
  not_an_integer : Error
  not_an_address : Error
  no_free_epoch : Error
  too_many_epochs : Error
  balance_below_obligations : Error
  nothing_available : Error
  budget_not_positive : Error
  budget_exceeds_available : Error
  epoch_not_positive : Error
  epoch_taken : Error
  no_positions : Error
  allocation_mismatch : Error
  input_missing : Error
  epoch_missing : Error
  positions_missing : Error
  budget_missing : Error
  epoch_not_integer : Error
  token_id_missing : Error
  amount_missing : Error
  duplicate_token_id : Error
  zero_leaves : Error
  not_encodable : Error
  root_missing : Error
  not_bytes32 : Error
  proof_missing : Error
  instructions_missing : Error
  amount_not_positive : Error
  proof_mismatch : Error
  invalid_debt_asset : Error
  reward_amount_not_positive : Error
  min_out_not_positive : Error
  invalid_swap_data : Error
  instructions_exceed_amount : Error
  epoch_not_active : Error
  no_active_root : Error
  root_mismatch : Error
  missing_private_key : Error
  file_not_found : Error
  epoch_mismatch : Error
  not_the_owner : Error
  active_with_other_root : Error
  active_with_other_budget : Error
  queued_with_other_parameters : Error
  not_a_future_epoch : Error
  balance_below_budget : Error
  not_queued : Error
  pending_root_mismatch : Error
  pending_budget_mismatch : Error
  latest_did_not_advance : Error
  activated_root_mismatch : Error
  activated_budget_mismatch : Error

-- A veCENT position that the scan found.
pub record Position : Type 0 where
  pub token_id : ℕ
  pub owner : Text
  pub voting_power : ℕ
  pub locked_amount : ℤ
  pub lock_end : ℕ

-- A swap that the keeper makes for a position out of its reward.
pub record Instruction : Type 0 where
  pub debt_asset : Text
  pub reward_amount_in : ℤ
  pub min_debt_asset_out : ℤ
  pub swap_data : Text

-- `{...position, amount, remainder, instructions: []}`.
pub record Allocation : Type 0 where
  pub position : Position
  pub amount : ℕ
  pub remainder : ℕ

-- A position of the allocation file.
pub record OutputPosition : Type 0 where
  pub token_id : ℕ
  pub owner : Text
  pub voting_power : ℕ
  pub locked_amount : ℤ
  pub lock_end : ℕ
  pub amount : ℕ
  pub instructions : List Instruction

-- A field of a JSON file: undefined, the empty text, a value that is no integer, or an integer, by
-- what `BigInt` (for an epoch of the generator, `Number`) makes of it.
pub data Field : Type 0 where
  absent : Field
  empty : Field
  malformed : Field
  int : ℤ → Field

-- An entry of `instructions` in a file; `none` is a `swapData` that is no text, or undefined.
pub record InstructionInput : Type 0 where
  pub debt_asset : Text
  pub reward_amount_in : Field
  pub min_debt_asset_out : Field
  pub swap_data : Option Text

-- An entry of `positions` in a file; `none` is a field that is no array.
pub record PositionInput : Type 0 where
  pub token_id : Field
  pub amount : Field
  pub proof : Option (List Text)
  pub instructions : Option (List InstructionInput)

-- keeper/reward-allocations.json, as the next script reads it.
pub record AllocationInput : Type 0 where
  pub epoch : Field
  pub positions : Option (List PositionInput)
  pub reward_budget : Field
  pub source : Option Text

-- A position of the manifest.
pub record ManifestPosition : Type 0 where
  pub token_id : ℤ
  pub amount : ℤ
  pub proof : List Text
  pub instructions : List Instruction

-- keeper/reward-manifest.json, as it is written.
pub record Manifest : Type 0 where
  pub version : ℕ
  pub generated_at : Text
  pub epoch : ℕ
  pub reward_budget : ℕ
  pub root : Option Text
  pub source : Text
  pub positions : List ManifestPosition

-- The same file, as the later scripts read it.
pub record ManifestInput : Type 0 where
  pub epoch : Field
  pub root : Option Text
  pub reward_budget : Field
  pub positions : Option (List PositionInput)
