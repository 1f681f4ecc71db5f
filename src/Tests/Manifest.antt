-- ===== src/Tests/Manifest.antt =====
-- The theorems of the manifest and of its way onto the chain, on the small chain.
use centry.Prelude.{
  ℕ, ◌%◌, ◌<◌, ◌≡◌, ◌≢◌, ◌↔◌, refl, List, [], ◌∷◌, All, AllPairs, ok, some, arith, true, length,
  ◌==◌, Bool-cases, inl, inr,
}
use centry.Prelude.Int.{ℤ, pos, int_compare, int_eq}
use centry.Prelude.Sort.{sort}
use centry.Prelude.Text.{Text, codes, text_eq, text_gt, to_lower_case, lower}
use centry.Rewards.Types.{PositionInput, int}
use centry.Rewards.Merkle.{
  Leaf, Tree, leaf_hash, pair_hash, next_level, proofs_loop, proof_loop, proof_of, top, levels_from,
  climb, verify_proof, build_merkle_tree,
}
use centry.Rewards.Merkle.Pairs.{IsLower, HashesLower, pair_hash_comm}
use centry.Rewards.Merkle.Levels.{climb-proof_loop}
use centry.Rewards.Merkle.Proofs.{DistinctKeys, build_merkle_tree-verifies}
use centry.Rewards.Manifest.{
  read_int, required, has_id, ParsedPosition, check_distinct, generate_manifest,
}
use centry.Rewards.Manifest.Distinct.{DistinctTokens, check_distinct_iff}
use centry.Rewards.Manifest.Verifies.{IsProven, generate_manifest-IsProven}
use centry.Rewards.Validate.{
  is_hex_digit, hex_digits, has_hex_prefix, is_bytes32, check_items, positive, read_root, present,
  check_swap_data, is_address, check_instruction, check_instructions, entry_fields, check_reward,
  check_entry, check_entries, check_structure,
}
use centry.Rewards.Validate.Structure.{AreEntries, check_structure_lem}
use centry.Tests.Data

toy-HashesLower : HashesLower Data.toy
unfolding to_lower_case lower
toy-HashesLower t = elim (Bool-cases (length t % 2 == 0)) [ inl even ↦ rw even | inr odd ↦ rw odd ]

pair_hash_comm_example :
    pair_hash Data.toy (codes "0xaa") (codes "0xbb")
    ≡ pair_hash Data.toy (codes "0xbb") (codes "0xaa")
unfolding to_lower_case lower
pair_hash_comm_example = pair_hash_comm Data.toy (codes "0xaa") (codes "0xbb") refl refl

abbrev hashes : List Text
hashes = codes "0xaa" ∷ codes "0xbb" ∷ codes "0xcc" ∷ []

hashes_low : All IsLower hashes
unfolding to_lower_case lower
hashes_low = (refl, (refl, (refl, tt)))

climb-proof_loop_example :
    top (levels_from Data.toy 3 hashes)
    ≡ some (climb Data.toy (proof_loop (levels_from Data.toy 3 hashes) 2) (codes "0xcc"))
climb-proof_loop_example =
    climb-proof_loop Data.toy 3 hashes 2 (codes "0xcc") toy-HashesLower hashes_low (omega arith)
      refl

abbrev first_leaf : Leaf
first_leaf = record { key = pos 1; hash = codes "0xaa" }

abbrev more_leaves : List Leaf
more_leaves =
    record { key = pos 2; hash = codes "0xbb" } ∷ record { key = pos 3; hash = codes "0xcc" } ∷ []

leaves-DistinctKeys : DistinctKeys (first_leaf ∷ more_leaves)
leaves-DistinctKeys = ((λ e. cc, (λ e. cc, tt)), ((λ e. cc, tt), (tt, tt)))

build_merkle_tree-verifies_example :
    (tree : Tree) × (root : Text) × (build_merkle_tree Data.toy (first_leaf ∷ more_leaves)
      ≡ ok tree)
    × (tree.root ≡ some root)
    × All
        (λ m. verify_proof Data.toy (proof_of m.key tree.proofs) root m.hash ≡ true)
        (first_leaf ∷ more_leaves)
build_merkle_tree-verifies_example =
    build_merkle_tree-verifies Data.toy first_leaf more_leaves toy-HashesLower hashes_low
      leaves-DistinctKeys

abbrev parsed : ℕ → ParsedPosition
parsed t = record { token_id = pos t; amount = pos 5; instructions = [] }

check_distinct_iff_example :
    (check_distinct [] (parsed 1 ∷ parsed 3 ∷ []) ≡ ok tt)
    ↔ DistinctTokens (parsed 1 ∷ parsed 3 ∷ [])
check_distinct_iff_example = check_distinct_iff (parsed 1 ∷ parsed 3 ∷ [])

manifested : generate_manifest Data.toy (codes "now") Data.allocation_input ≡ ok Data.manifest
unfolding generate_manifest int_eq leaf_hash build_merkle_tree sort top proof_of levels_from
    proofs_loop next_level proof_loop pair_hash text_gt to_lower_case lower
manifested = refl

generate_manifest-IsProven_example :
    AllPairs (λ p q. p.token_id ≢ q.token_id) Data.manifest.positions
    × ((root : Text) × (Data.manifest.root ≡ some root)
        × All (IsProven Data.toy root) Data.manifest.positions)
generate_manifest-IsProven_example =
    generate_manifest-IsProven Data.toy (codes "now") Data.allocation_input Data.manifest
      toy-HashesLower manifested

structured : check_structure Data.toy Data.manifest_input ≡ ok (3, Data.root)
unfolding check_structure required present read_int positive read_root is_bytes32 check_entries
    check_entry entry_fields has_id check_reward check_items leaf_hash verify_proof text_eq
    to_lower_case lower pair_hash int_compare int_eq text_gt climb check_instruction
    check_instructions check_swap_data has_hex_prefix hex_digits is_address is_hex_digit
structured = refl

check_structure_lem_example :
    (0 < 3)
    × (Data.manifest_input.epoch ≡ int (pos 3))
    × (Data.manifest_input.root ≡ some Data.root)
    × (is_bytes32 Data.root ≡ true)
    × ((entries : List PositionInput) × (tokens : List ℤ) × (Data.manifest_input.positions
          ≡ some entries)
        × AreEntries Data.toy Data.root entries tokens
        × AllPairs (λ a b. a ≢ b) tokens)
check_structure_lem_example =
    check_structure_lem Data.toy Data.manifest_input 3 Data.root structured
