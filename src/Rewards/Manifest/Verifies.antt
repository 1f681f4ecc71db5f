-- ===== src/Rewards/Manifest/Verifies.antt =====
-- Every position of a manifest carries a proof that verifies against the manifest's root.
use centry.Prelude.{
  ◌≡◌, ◌≢◌, sym, true, some, List, [], ◌∷◌, map, ok, All, All-imp, All-map, AllPairs, when_ok,
  subst, ◌∙◌, inl, inr, Option-cases, ok_injective, All-every, arith,
}
use centry.Prelude.Sort.{sort, sort-All, sort-All_back, sort-AllPairs}
use centry.Prelude.Text.{Text}
use centry.Rewards.Types.{AllocationInput, ManifestPosition, Manifest}
use centry.Rewards.Merkle.{Ethers, Leaf, Tree, proof_of, leaf_hash, build_merkle_tree, verify_proof}
use centry.Rewards.Merkle.Pairs.{IsLower, HashesLower}
use centry.Rewards.Merkle.Proofs.{DistinctKeys, build_merkle_tree-verifies}
use centry.Rewards.Manifest.{
  ParsedPosition, check_distinct, by_key, with_proof, read_input, read_positions, hash_leaves,
  tree_of, generate_manifest,
}
use centry.Rewards.Manifest.Distinct.{DistinctTokens, check_distinct_iff}

-- Some hash is the leaf of the token and its amount, and the proof verifies it against the root.
abbrev pub IsProven : Ethers → Text → ManifestPosition → Type 0
IsProven ethers root p =
    (h : Text) × (leaf_hash ethers p.token_id p.amount ≡ ok h)
    × (verify_proof ethers p.proof root h ≡ true)

with_proof-DistinctTokens :
    (tree : Tree) (ps : List ParsedPosition)
    → DistinctTokens ps
    → AllPairs (λ p q. p.token_id ≢ q.token_id) (map (with_proof tree) ps)
unfolding with_proof
with_proof-DistinctTokens tree [] d = tt
with_proof-DistinctTokens tree (p ∷ ps) (n, d) =
    (All-map _ _ (λ q ne. ne) ps n, with_proof-DistinctTokens tree ps d)

module _ (ethers : Ethers) where
  abbrev leaf_of : ParsedPosition → Text → Leaf
  leaf_of p h = record { key = p.token_id; hash = h }

  -- What holds of every leaf holds of every position, at its leaf.
  hash_leaves-back :
      (P : Leaf → Type 0) (ps : List ParsedPosition) (leaves : List Leaf)
      → hash_leaves ethers ps ≡ ok leaves
      → All P leaves
      → All (λ p. (h : Text) × (leaf_hash ethers p.token_id p.amount ≡ ok h) × P (leaf_of p h)) ps
  unfolding hash_leaves
  hash_leaves-back P [] leaves e a = tt
  hash_leaves-back P (p ∷ ps) leaves e a =
      when_ok (leaf_hash ethers p.token_id p.amount) _ e λ h e₁ h₁.
        when_ok (hash_leaves ethers ps) _ h₁ λ rest e₂ h₂.
          let whole : leaves ≡ leaf_of p h ∷ rest = cc in
          let (q, b) = let c : All P (leaf_of p h ∷ rest) = rw whole at a in c in
          ((h, e₁, q), hash_leaves-back P ps rest e₂ b)

  -- What holds of every position's leaf holds of every leaf.
  hash_leaves-All :
      (P : Leaf → Type 0) (ps : List ParsedPosition) (leaves : List Leaf)
      → hash_leaves ethers ps ≡ ok leaves
      → All (λ p. (h : Text) → leaf_hash ethers p.token_id p.amount ≡ ok h → P (leaf_of p h)) ps
      → All P leaves
  unfolding hash_leaves
  hash_leaves-All P [] leaves e a = let whole : leaves ≡ [] = cc in rw whole tt
  hash_leaves-All P (p ∷ ps) leaves e (q, a) =
      when_ok (leaf_hash ethers p.token_id p.amount) _ e λ h e₁ h₁.
        when_ok (hash_leaves ethers ps) _ h₁ λ rest e₂ h₂.
          let whole : leaves ≡ leaf_of p h ∷ rest = cc in
          rw whole (q h e₁, hash_leaves-All P ps rest e₂ a)

  hash_leaves-DistinctKeys :
      (ps : List ParsedPosition) (leaves : List Leaf)
      → hash_leaves ethers ps ≡ ok leaves
      → DistinctTokens ps
      → DistinctKeys leaves
  unfolding hash_leaves
  hash_leaves-DistinctKeys [] leaves e d = let whole : leaves ≡ [] = cc in rw whole tt
  hash_leaves-DistinctKeys (p ∷ ps) leaves e (n, d) =
      when_ok (leaf_hash ethers p.token_id p.amount) _ e λ h e₁ h₁.
        when_ok (hash_leaves ethers ps) _ h₁ λ rest e₂ h₂.
          let whole : leaves ≡ leaf_of p h ∷ rest = cc in
          rw whole (
            hash_leaves-All (λ l. p.token_id ≢ l.key) ps rest e₂ (All-imp (λ q ne h e. ne) ps n),
            hash_leaves-DistinctKeys ps rest e₂ d,
          )

  leaf_hash-IsLower :
      (p : ParsedPosition) (h : Text)
      → HashesLower ethers
      → leaf_hash ethers p.token_id p.amount ≡ ok h
      → IsLower h
  unfolding leaf_hash
  leaf_hash-IsLower p h lower e = elim (Option-cases (ethers.encode p.token_id p.amount)) [
    | inl out_of_range ↦ absurd (ground arith)
    | inr (t, encoded) ↦
        let same : ethers.keccak256 (ethers.concat (ethers.keccak256 t ∷ [])) ≡ h = ground arith in
        rw (← same) (lower _)
  ]

  built-verifies :
      (leaves : List Leaf) (tree : Tree)
      → HashesLower ethers
      → All (λ l. IsLower l.hash) leaves
      → DistinctKeys leaves
      → build_merkle_tree ethers leaves ≡ ok tree
      → (root : Text) × (tree.root ≡ some root)
        × All (λ l. verify_proof ethers (proof_of l.key tree.proofs) root l.hash ≡ true) leaves
  built-verifies [] tree lower low d e = unfold build_merkle_tree in cc
  built-verifies (l ∷ leaves) tree lower low d e =
      let (built, root, e', is_root, verified) =
        build_merkle_tree-verifies ethers l leaves lower low d in
      let same : built ≡ tree = ok_injective (sym e' ∙ e) in
      subst
        (λ (t : Tree).
          (root : Text) × (t.root ≡ some root)
          × All (λ l. verify_proof ethers (proof_of l.key t.proofs) root l.hash ≡ true)
              (l ∷ leaves))
        same (root, is_root, verified)

  tree_of-verifies :
      (ps : List ParsedPosition) (tree : Tree)
      → HashesLower ethers
      → DistinctTokens ps
      → tree_of ethers ps ≡ ok tree
      → (root : Text) × (tree.root ≡ some root)
        × All (λ p. IsProven ethers root (with_proof tree p)) ps
  unfolding tree_of with_proof
  tree_of-verifies ps tree lower distinct e =
      when_ok (hash_leaves ethers ps) _ e λ leaves hashed built.
        let low =
          hash_leaves-All (λ l. IsLower l.hash) ps leaves hashed
            (All-every (λ p h e. leaf_hash-IsLower p h lower e) ps) in
        let keys = hash_leaves-DistinctKeys ps leaves hashed distinct in
        let (root, is_root, verified) =
          built-verifies (sort by_key leaves) tree lower (sort-All by_key _ leaves low)
            (sort-AllPairs by_key _ (λ a b n. λ e. n (sym e)) leaves keys) built in
        (
          root,
          is_root,
          hash_leaves-back _ ps leaves hashed (sort-All_back by_key _ leaves verified),
        )

-- If `keccak256` returns lower-case text, then a manifest that the script writes has no second
-- entry for a token and has a root, and for every position the stored proof verifies the leaf of
-- its token and amount against the root.
pub generate_manifest-IsProven :
    (ethers : Ethers) (now : Text) (input : AllocationInput) (m : Manifest)
    → HashesLower ethers
    → generate_manifest ethers now input ≡ ok m
    → AllPairs (λ p q. p.token_id ≢ q.token_id) m.positions
      × ((root : Text) × (m.root ≡ some root) × All (IsProven ethers root) m.positions)
unfolding generate_manifest
generate_manifest-IsProven ethers now input m lower e =
    when_ok (read_input input) _ e λ fields _ h₁.
      when_ok (read_positions ethers fields.0) _ h₁ λ positions _ h₂.
        when_ok (check_distinct [] positions) _ h₂ λ _ checked h₃.
          when_ok (tree_of ethers positions) _ h₃ λ tree built h₄.
            let distinct = (check_distinct_iff positions).0 checked in
            let (root, is_root, proven) =
              tree_of-verifies ethers positions tree lower distinct built in
            subst
              (λ (m : Manifest).
                AllPairs (λ p q. p.token_id ≢ q.token_id) m.positions
                × ((root : Text) × (m.root ≡ some root) × All (IsProven ethers root) m.positions))
              (ok_injective h₄)
              (
                with_proof-DistinctTokens tree positions distinct,
                (
                  root,
                  is_root,
                  All-map (IsProven ethers root) (with_proof tree) (λ p q. q) positions proven,
                ),
              )
