-- ===== src/Rewards/Validate.antt =====
-- scripts/validate-reward-manifest.js: the tests of a manifest, and of its root on the chain.
pub mod Structure
pub mod Fields
use centry.Prelude.{
  ℕ, zero, suc, ◌+◌, ◌%◌, Bool, true, false, not, ◌&&◌, ◌||◌, Option, none, some, List, [], ◌∷◌,
  length, Result, ok, err, ◌>>=◌, ◌>>◌, throw_if, leb, ltb, ◌==◌, if◌then◌else◌,
}
use centry.Prelude.Int.{ℤ, pos, negsuc}
use centry.Prelude.Text.{Text, text_eq, to_lower_case}
use centry.Rewards.Types.{
  Error, epoch_missing, positions_missing, epoch_not_positive, token_id_missing, amount_missing,
  duplicate_token_id, root_missing, not_bytes32, proof_missing, instructions_missing,
  amount_not_positive, proof_mismatch, invalid_debt_asset, reward_amount_not_positive,
  min_out_not_positive, invalid_swap_data, instructions_exceed_amount, epoch_not_active,
  no_active_root, root_mismatch, Field, InstructionInput, PositionInput, ManifestInput,
}
use centry.Rewards.Budget.{RewardsView, zero_hash}
use centry.Rewards.Merkle.{Ethers, leaf_hash, verify_proof}
use centry.Rewards.Manifest.{read_int, required, has_id}

-- `[0-9a-fA-F]`
unfoldable pub is_hex_digit : ℕ → Bool
is_hex_digit c = leb b'0' c && leb c b'9' || leb b'a' c && leb c b'f' || leb b'A' c && leb c b'F'

-- `n` hexadecimal digits, and nothing else.
unfoldable pub hex_digits : ℕ → Text → Bool
unfolding is_hex_digit
hex_digits zero [] = true
hex_digits zero (c ∷ t) = false
hex_digits (suc n) [] = false
hex_digits (suc n) (c ∷ t) = is_hex_digit c && hex_digits n t

-- `startsWith("0x")`
unfoldable pub has_hex_prefix : Text → Bool
has_hex_prefix [] = false
has_hex_prefix (a ∷ []) = false
has_hex_prefix (a ∷ b ∷ t) = a == b'0' && b == b'x'

abbrev after_prefix : Text → Text
after_prefix [] = []
after_prefix (a ∷ []) = []
after_prefix (a ∷ b ∷ t) = t

-- `/^0x[0-9a-fA-F]{64}$/`
unfoldable pub is_bytes32 : Text → Bool
unfolding hex_digits has_hex_prefix
is_bytes32 t = has_hex_prefix t && hex_digits 64 (after_prefix t)

-- The loop of `assertBytes32` over a proof.
unfoldable pub check_items : List Text → Result Error (Unit {0})
check_items [] = ok tt
check_items (t ∷ ts) = do throw_if (not (is_bytes32 t)) not_bytes32; check_items ts

-- A number above zero.
unfoldable pub positive : ℤ → Error → Result Error ℕ
positive (pos zero) e = err e
positive (pos (suc n)) e = ok (suc n)
positive (negsuc n) e = err e

-- `root` is there, and is a 32-byte value.
unfoldable pub read_root : Option Text → Result Error Text
read_root none = err root_missing
read_root (some []) = err root_missing
read_root (some (c ∷ t)) = do throw_if (not (is_bytes32 (c ∷ t))) not_bytes32; ok (c ∷ t)

-- The tests of `swapData`.
unfoldable pub check_swap_data : Option Text → Result Error (Unit {0})
check_swap_data none = err invalid_swap_data
check_swap_data (some t) = do
  throw_if (not (has_hex_prefix t)) invalid_swap_data
  throw_if (not (length t % 2 == 0)) invalid_swap_data

-- What an entry must have, or the script stops.
unfoldable pub present {ℓ} : {A : Type ℓ} → Option A → Error → Result Error A
present none e = err e
present (some a) e = ok a

-- The fields that an entry must have: its token, amount, proof and instructions.
unfoldable pub entry_fields :
    PositionInput → Result Error (Field × Field × List Text × List InstructionInput)
unfolding required present
entry_fields p = do
  token_field ← required p.token_id token_id_missing
  amount_field ← required p.amount amount_missing
  proof ← present p.proof proof_missing
  instructions ← present p.instructions instructions_missing
  ok (token_field, amount_field, proof, instructions)

module _ (ethers : Ethers) where
  unfoldable pub is_address : Text → Bool
  is_address t = elim (ethers.get_address t) [ some a ↦ true | none ↦ false ]

  -- One instruction: what it takes of the reward.
  unfoldable pub check_instruction : InstructionInput → Result Error ℕ
  unfolding positive check_swap_data
  check_instruction i = do
    throw_if (not (is_address i.debt_asset)) invalid_debt_asset
    amount_in ← read_int i.reward_amount_in
    min_out ← read_int i.min_debt_asset_out
    taken ← positive amount_in reward_amount_not_positive
    _ ← positive min_out min_out_not_positive
    check_swap_data i.swap_data
    ok taken

  -- The loop over the instructions, with the total so far.
  unfoldable pub check_instructions : List InstructionInput → ℕ → Result Error ℕ
  check_instructions [] total = ok total
  check_instructions (i ∷ is) total = do
    taken ← check_instruction i
    check_instructions is (total + taken)

  -- A positive amount with a proof that leads to the root, and instructions within the amount.
  unfoldable pub check_reward :
      Text → ℤ → Field → List Text → List InstructionInput → Result Error (Unit {0})
  check_reward root token amount_field proof instructions = do
    amount ← read_int amount_field
    paid ← positive amount amount_not_positive
    check_items proof
    leaf ← leaf_hash ethers token amount
    throw_if (not (verify_proof ethers proof root leaf)) proof_mismatch
    total ← check_instructions instructions 0
    throw_if (ltb paid total) instructions_exceed_amount

  -- One entry, against the tokens seen before: its token.
  unfoldable pub check_entry : Text → List ℤ → PositionInput → Result Error ℤ
  check_entry root seen p = do
    (token_field, amount_field, proof, instructions) ← entry_fields p
    token ← read_int token_field
    throw_if (has_id token seen) duplicate_token_id
    check_reward root token amount_field proof instructions
    ok token

  -- The loop over the entries.
  unfoldable pub check_entries : Text → List ℤ → List PositionInput → Result Error (Unit {0})
  check_entries root seen [] = ok tt
  check_entries root seen (p ∷ ps) = do
    token ← check_entry root seen p
    check_entries root (token ∷ seen) ps

  -- The script up to `main`: the epoch and the root of a manifest in order.
  unfoldable pub check_structure : ManifestInput → Result Error (ℕ × Text)
  check_structure m = do
    epoch_field ← required m.epoch epoch_missing
    entries ← present m.positions positions_missing
    number ← read_int epoch_field
    epoch ← positive number epoch_not_positive
    root ← read_root m.root
    check_entries root [] entries
    ok (epoch, root)

-- What `main` reports.
pub data Verdict : Type 0 where
  structure_passed : Verdict
  active : Verdict

-- The tests of `main` against the chain.
unfoldable pub check_chain : RewardsView → ℕ → Text → Result Error Verdict
check_chain rewards epoch root = do
  throw_if (ltb rewards.latest_epoch epoch) epoch_not_active
  throw_if (text_eq (rewards.epoch_roots epoch) zero_hash) no_active_root
  throw_if (not (text_eq (to_lower_case (rewards.epoch_roots epoch)) (to_lower_case root)))
      root_mismatch
  ok active

-- The script; `none` is a run without a connection to the chain.
unfoldable pub validate : Ethers → Option RewardsView → ManifestInput → Result Error Verdict
validate ethers chain m = do
  (epoch, root) ← check_structure ethers m
  elim chain [ none ↦ ok structure_passed | some rewards ↦ check_chain rewards epoch root ]
