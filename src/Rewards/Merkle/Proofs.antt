-- ===== src/Rewards/Merkle/Proofs.antt =====
-- Every proof of a built tree leads from its leaf to the root.
use native.Mathlib.Nat.{le_refl, add-zero, zero-add}
use centry.Prelude.{
  ℕ, suc, ◌+◌, ◌≡◌, ◌≢◌, refl, sym, ◌∙◌, true, some, List, [], ◌∷◌, map, length, get_elem?,
  get_elem?-map, All, All-map, AllPairs, ok, arith,
}
use centry.Prelude.Int.{ℤ, int_eq_ne, int_eq_refl}
use centry.Prelude.Text.{Text, text_eq_refl}
use centry.Rewards.Merkle.{
  Ethers, Leaf, Tree, proof_of, proof_loop, proofs_loop, top, levels_from, build_merkle_tree, climb,
  verify_proof,
}
use centry.Rewards.Merkle.Pairs.{IsLower, HashesLower}
use centry.Rewards.Merkle.Levels.{climb-proof_loop}

-- No two leaves stand for the same token.
abbrev pub DistinctKeys : List Leaf → Type 0
DistinctKeys = AllPairs (λ l m. l.key ≢ m.key)

some_injective : {a b : Text} → some a ≡ some b → a ≡ b
some_injective e = cc

-- A key that none of the leaves has keeps what the map had for it.
proof_of-proofs_loop_absent :
    (levels : List (List Text)) (i : ℕ) (k : ℤ) (leaves : List Leaf) (proofs : List (ℤ × List Text))
    → All (λ m. k ≢ m.key) leaves
    → proof_of k (proofs_loop levels i leaves proofs) ≡ proof_of k proofs
unfolding proofs_loop proof_of
proof_of-proofs_loop_absent levels i k [] proofs a = refl
proof_of-proofs_loop_absent levels i k (l ∷ leaves) proofs (n, a) = rw (
  proof_of-proofs_loop_absent levels (i + 1) k leaves ((l.key, proof_loop levels i) ∷ proofs) a,
  int_eq_ne l.key k (λ e. n (sym e)),
)

module _ (ethers : Ethers) (levels : List (List Text)) (nodes : List Text) (root : Text)
    (leads : (i : ℕ) (h : Text)
      → get_elem? nodes i ≡ some h
      → climb ethers (proof_loop levels i) h ≡ root) where
  proofs_loop-verify :
      (i : ℕ) (leaves : List Leaf) (proofs : List (ℤ × List Text))
      → DistinctKeys leaves
      → ((j : ℕ) (l : Leaf) → get_elem? leaves j ≡ some l → get_elem? nodes (i + j) ≡ some l.hash)
      → All
          (λ l.
            verify_proof ethers (proof_of l.key (proofs_loop levels i leaves proofs)) root l.hash
            ≡ true)
          leaves
  unfolding proofs_loop verify_proof proof_of proof_loop
  proofs_loop-verify i [] proofs d at_index = tt
  proofs_loop-verify i (l ∷ leaves) proofs (n, d) at_index =
      let added = (l.key, proof_loop levels i) ∷ proofs in
      let here : get_elem? nodes i ≡ some l.hash =
        let first : get_elem? nodes (i + 0) ≡ some l.hash = at_index 0 l refl in
        rw add-zero at first in
      let own : proof_of l.key (proofs_loop levels (i + 1) leaves added) ≡ proof_loop levels i =
        rw (proof_of-proofs_loop_absent levels (i + 1) l.key leaves added n, proof_of)
          (rw int_eq_refl) in
      (
        rw (own, leads i l.hash here) (text_eq_refl _),
        proofs_loop-verify (i + 1) leaves added d (λ j m e.
            let next : i + 1 + j ≡ i + suc j = omega arith in rw next (at_index (suc j) m e)),
      )

-- If `keccak256` returns lower-case text, then a tree is built of every non-empty list of leaves
-- with different keys and lower-case hashes; it has a root, and the proof stored for each leaf
-- verifies that leaf's hash against the root.
pub build_merkle_tree-verifies :
    (ethers : Ethers) (l : Leaf) (leaves : List Leaf)
    → HashesLower ethers
    → All (λ m. IsLower m.hash) (l ∷ leaves)
    → DistinctKeys (l ∷ leaves)
    → (tree : Tree) × (root : Text) × (build_merkle_tree ethers (l ∷ leaves) ≡ ok tree)
      × (tree.root ≡ some root)
      × All (λ m. verify_proof ethers (proof_of m.key tree.proofs) root m.hash ≡ true) (l ∷ leaves)
unfolding build_merkle_tree
build_merkle_tree-verifies ethers l leaves lower low distinct =
    let nodes = map (λ x. x.hash) (l ∷ leaves) in
    let levels = levels_from ethers (length nodes) nodes in
    let root = climb ethers (proof_loop levels 0) l.hash in
    let lowest : All IsLower nodes =
      All-map IsLower (λ x. x.hash) (λ x low. low) (l ∷ leaves) low in
    let to_root = λ (i : ℕ) (h : Text) (e : get_elem? nodes i ≡ some h).
      climb-proof_loop ethers (length nodes) nodes i h lower lowest (le_refl _) e in
    (
      record { root = top levels; proofs = proofs_loop levels 0 (l ∷ leaves) [] },
      root,
      refl,
      to_root 0 l.hash refl,
      proofs_loop-verify ethers levels nodes root
          (λ i h e. some_injective (sym (to_root i h e) ∙ to_root 0 l.hash refl)) 0 (l ∷ leaves) []
          distinct (λ j m e. rw zero-add (get_elem?-map (λ x. x.hash) (l ∷ leaves) j m e)),
    )
