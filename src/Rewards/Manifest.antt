-- ===== src/Rewards/Manifest.antt =====
-- scripts/generate-reward-manifest.js: from the file of allocations to the manifest, with a Merkle
-- root over the positions and a proof for each.
pub mod Distinct
pub mod Verifies
use centry.Prelude.{
  ℕ, zero, suc, Ordering, Bool, true, false, ◌||◌, Option, none, some, List, [], ◌∷◌, map, Result,
  ok, err, ◌>>=◌, ◌>>◌, throw_if, ◌==◌, if◌then◌else◌,
}
use centry.Prelude.Int.{ℤ, pos, negsuc, int_compare, int_eq}
use centry.Prelude.Sort.{sort}
use centry.Prelude.Text.{Text, codes}
use centry.Rewards.Types.{
  Error, not_an_integer, not_an_address, budget_not_positive, epoch_missing, positions_missing,
  budget_missing, epoch_not_integer, token_id_missing, amount_missing, duplicate_token_id,
  Instruction, Field, absent, empty, malformed, int, InstructionInput, PositionInput,
  AllocationInput, ManifestPosition, Manifest,
}
use centry.Rewards.Merkle.{Ethers, Leaf, Tree, proof_of, leaf_hash, build_merkle_tree}

-- `BigInt(value)`: it throws for `undefined`, and the empty text is 0.
unfoldable pub read_int : Field → Result Error ℤ
read_int (int n) = ok n
read_int empty = ok (pos 0)
read_int other = err not_an_integer

-- A field that must be there.
unfoldable pub required : Field → Error → Result Error Field
required absent e = err e
required f e = ok f

-- A position without its proof.
pub record ParsedPosition : Type 0 where
  pub token_id : ℤ
  pub amount : ℤ
  pub instructions : List Instruction

-- `instruction.swapData || "0x"`
unfoldable pub swap_data_of : Option Text → Text
swap_data_of none = codes "0x"
swap_data_of (some []) = codes "0x"
swap_data_of (some (c ∷ t)) = c ∷ t

-- The budget must be a positive integer.
unfoldable pub read_budget : Field → Result Error ℕ
read_budget absent = err budget_missing
read_budget empty = err budget_missing
read_budget malformed = err not_an_integer
read_budget (int (pos n)) = if n == 0 then err budget_not_positive else ok n
read_budget (int (negsuc n)) = err budget_not_positive

-- The epoch must be a positive integer.
unfoldable pub read_epoch : Field → Result Error ℕ
read_epoch (int (pos n)) = if n == 0 then err epoch_not_integer else ok n
read_epoch other = err epoch_not_integer

-- `duplicateIds.has(tokenId)`
unfoldable pub has_id : ℤ → List ℤ → Bool
has_id k [] = false
has_id k (j ∷ seen) = int_eq j k || has_id k seen

-- The loop that refuses a second entry for a token.
unfoldable pub check_distinct : List ℤ → List ParsedPosition → Result Error (Unit {0})
unfolding has_id
check_distinct seen [] = ok tt
check_distinct seen (p ∷ ps) = do
  throw_if (has_id p.token_id seen) duplicate_token_id
  check_distinct (p.token_id ∷ seen) ps

-- The comparison of the sort of the leaves.
unfoldable pub by_key : Leaf → Leaf → Ordering
by_key a b = int_compare a.key b.key

-- The manifest's entry, with the proof that the tree has for the token.
unfoldable pub with_proof : Tree → ParsedPosition → ManifestPosition
with_proof tree p = record {
  token_id = p.token_id;
  amount = p.amount;
  proof = proof_of p.token_id tree.proofs;
  instructions = p.instructions;
}

-- The tests of the file's fields, in order: its positions, the budget and the epoch.
unfoldable pub read_input : AllocationInput → Result Error (List PositionInput × ℕ × ℕ)
unfolding required read_budget read_epoch
read_input input = do
  epoch_field ← required input.epoch epoch_missing
  positions ← elim input.positions [ none ↦ err positions_missing | some ps ↦ ok ps ]
  budget ← read_budget input.reward_budget
  epoch ← read_epoch epoch_field
  ok (positions, budget, epoch)

-- `input.source || …`
unfoldable pub source_of : Option Text → Text
source_of none = codes "authoritative Centry reward allocation"
source_of (some []) = codes "authoritative Centry reward allocation"
source_of (some (c ∷ t)) = c ∷ t

module _ (ethers : Ethers) where
  unfoldable pub checked_address : Text → Result Error Text
  checked_address t = elim (ethers.get_address t) [ some a ↦ ok a | none ↦ err not_an_address ]

  unfoldable pub read_instruction : InstructionInput → Result Error Instruction
  unfolding read_int swap_data_of checked_address
  read_instruction i = do
    asset ← checked_address i.debt_asset
    amount_in ← read_int i.reward_amount_in
    min_out ← read_int i.min_debt_asset_out
    ok (record {
      debt_asset = asset;
      reward_amount_in = amount_in;
      min_debt_asset_out = min_out;
      swap_data = swap_data_of i.swap_data;
    })

  unfoldable pub read_instructions : List InstructionInput → Result Error (List Instruction)
  unfolding read_instruction
  read_instructions [] = ok []
  read_instructions (i ∷ is) = do r ← read_instruction i; rest ← read_instructions is; ok (r ∷ rest)

  -- `Array.isArray(instructions) ? … : []`
  unfoldable pub instructions_of : Option (List InstructionInput) → Result Error (List Instruction)
  unfolding read_instructions
  instructions_of none = ok []
  instructions_of (some is) = read_instructions is

  unfoldable pub read_position : PositionInput → Result Error ParsedPosition
  unfolding required read_int instructions_of
  read_position p = do
    id_field ← required p.token_id token_id_missing
    amount_field ← required p.amount amount_missing
    token ← read_int id_field
    amount ← read_int amount_field
    instructions ← instructions_of p.instructions
    ok (record { token_id = token; amount = amount; instructions = instructions })

  unfoldable pub read_positions : List PositionInput → Result Error (List ParsedPosition)
  unfolding read_position
  read_positions [] = ok []
  read_positions (p ∷ ps) = do r ← read_position p; rest ← read_positions ps; ok (r ∷ rest)

  -- `{ key, hash }` for each position, in the order of the positions.
  unfoldable pub hash_leaves : List ParsedPosition → Result Error (List Leaf)
  hash_leaves [] = ok []
  hash_leaves (p ∷ ps) = do
    h ← leaf_hash ethers p.token_id p.amount
    rest ← hash_leaves ps
    ok (record { key = p.token_id; hash = h } ∷ rest)

  -- The tree over the leaves in the order of their tokens.
  unfoldable pub tree_of : List ParsedPosition → Result Error Tree
  unfolding hash_leaves by_key
  tree_of ps = do leaves ← hash_leaves ps; build_merkle_tree ethers (sort by_key leaves)

  -- The whole script. `now` is the clock's text.
  unfoldable pub generate_manifest : Text → AllocationInput → Result Error Manifest
  unfolding read_input read_positions check_distinct tree_of with_proof source_of
  generate_manifest now input = do
    (entries, budget, epoch) ← read_input input
    positions ← read_positions entries
    check_distinct [] positions
    tree ← tree_of positions
    ok (record {
      version = 1;
      generated_at = now;
      epoch = epoch;
      reward_budget = budget;
      root = tree.root;
      source = source_of input.source;
      positions = map (with_proof tree) positions;
    })
