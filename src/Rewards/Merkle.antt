-- ===== src/Rewards/Merkle.antt =====
-- The Merkle tree of scripts/generate-reward-manifest.js, and the check of a proof in
-- scripts/validate-reward-manifest.js. The library `ethers` is a parameter.
pub mod Pairs
pub mod Levels
pub mod Proofs
use centry.Prelude.{
  ℕ, zero, suc, ◌+◌, ◌-◌, ◌/◌, ◌%◌, Bool, Option, none, some, List, [], ◌∷◌, map, length, get_elem?,
  Result, ok, err, ◌>>=◌, ltb, ◌==◌, if◌then◌else◌,
}
use centry.Prelude.Int.{ℤ, int_eq}
use centry.Prelude.Text.{Text, text_eq, text_gt, to_lower_case}
use centry.Rewards.Types.{Error, zero_leaves, not_encodable}

-- What the scripts call of `ethers`. `encode` is the ABI encoding of two uint256, with `none` for
-- a number out of range; `get_address` has `none` for a text that is no address.
pub record Ethers : Type 0 where
  pub keccak256 : Text → Text
  pub concat : List Text → Text
  pub encode : ℤ → ℤ → Option Text
  pub get_address : Text → Option Text

-- A leaf of the tree, by the token that it stands for.
pub record Leaf : Type 0 where
  pub key : ℤ
  pub hash : Text

-- The index of the node beside node `i`.
unfoldable pub sibling : ℕ → ℕ
sibling i = if i % 2 == 0 then i + 1 else i - 1

-- `proofs.get(key) || []`, in a map that holds its last writes first.
unfoldable pub proof_of : ℤ → List (ℤ × List Text) → List Text
proof_of k [] = []
proof_of k ((j, p) ∷ m) = if int_eq j k then p else proof_of k m

-- The inner loop over the levels but the last: the siblings on the way up from node `i`.
unfoldable pub proof_loop : List (List Text) → ℕ → List Text
unfolding sibling
proof_loop [] i = []
proof_loop (nodes ∷ []) i = []
proof_loop (nodes ∷ above ∷ levels) i =
    let rest = proof_loop (above ∷ levels) (i / 2) in
    elim (get_elem? nodes (sibling i)) [ some s ↦ s ∷ rest | none ↦ rest ]

-- The loop over the leaves from index `i` on.
unfoldable pub proofs_loop :
    List (List Text) → ℕ → List Leaf → List (ℤ × List Text) → List (ℤ × List Text)
proofs_loop levels i [] proofs = proofs
proofs_loop levels i (l ∷ leaves) proofs =
    proofs_loop levels (i + 1) leaves ((l.key, proof_loop levels i) ∷ proofs)

-- `current[0]`, of the last level.
unfoldable pub top : List (List Text) → Option Text
top [] = none
top (nodes ∷ []) = get_elem? nodes 0
top (nodes ∷ above ∷ levels) = top (above ∷ levels)

pub record Tree : Type 0 where
  pub root : Option Text
  pub proofs : List (ℤ × List Text)

module _ (ethers : Ethers) where
  unfoldable pub leaf_hash : ℤ → ℤ → Result Error Text
  leaf_hash token amount = elim (ethers.encode token amount) [
    | none ↦ err not_encodable
    | some e ↦ ok (ethers.keccak256 (ethers.concat (ethers.keccak256 e ∷ [])))
  ]

  unfoldable pub pair_hash : Text → Text → Text
  pair_hash left right =
      if text_gt (to_lower_case left) (to_lower_case right)
      then ethers.keccak256 (ethers.concat (right ∷ left ∷ []))
      else ethers.keccak256 (ethers.concat (left ∷ right ∷ []))

  -- The level above; a last node without a partner is passed up as it is.
  unfoldable pub next_level : List Text → List Text
  next_level [] = []
  next_level (left ∷ []) = left ∷ []
  next_level (left ∷ right ∷ nodes) = pair_hash left right ∷ next_level nodes

  -- The `while (current.length > 1)` loop: the levels from `current` up. The fuel bounds the rounds.
  unfoldable pub levels_from : ℕ → List Text → List (List Text)
  levels_from zero current = current ∷ []
  levels_from (suc fuel) current =
      let above = levels_from fuel (next_level current) in
      if ltb 1 (length current) then current ∷ above else current ∷ []

  -- As many rounds as there are leaves are always enough.
  unfoldable pub build_merkle_tree : List Leaf → Result Error Tree
  build_merkle_tree [] = err zero_leaves
  build_merkle_tree (l ∷ leaves) =
      let hashes = map (λ x. x.hash) (l ∷ leaves) in
      let levels = levels_from (length hashes) hashes in
      ok (record { root = top levels; proofs = proofs_loop levels 0 (l ∷ leaves) [] })

  -- The loop of `verifyProof`.
  unfoldable pub climb : List Text → Text → Text
  climb [] computed = computed
  climb (s ∷ proof) computed = climb proof (pair_hash computed s)

  unfoldable pub verify_proof : List Text → Text → Text → Bool
  unfolding climb
  verify_proof proof root leaf = text_eq (to_lower_case (climb proof leaf)) (to_lower_case root)
