-- ===== src/Rewards/Merkle/Levels.antt =====
-- The way from a node up to the root, level by level.
use centry.Prelude.{
  ℕ, zero, suc, ◌+◌, ◌/◌, ◌≤◌, ◌≡◌, refl, false, Bool-cases, inl, inr, Option, none, some,
  Option-cases, List, [], ◌∷◌, length, get_elem?, All, ltb, ltb→lt, arith,
}
use centry.Prelude.Text.{Text}
use centry.Rewards.Merkle.{
  Ethers, sibling, proof_loop, top, pair_hash, next_level, levels_from, climb,
}
use centry.Rewards.Merkle.Pairs.{IsLower, HashesLower, pair_hash_comm, pair_hash-IsLower}

sibling-suc-suc : (i : ℕ) → sibling (suc (suc i)) ≡ suc (suc (sibling i))
unfolding sibling
sibling-suc-suc i = ground arith

top_step :
    (nodes up : List Text) (levels : List (List Text))
    → top (nodes ∷ up ∷ levels) ≡ top (up ∷ levels)
unfolding top
top_step nodes up levels = refl

module _ (ethers : Ethers) where
  -- What stands above a node, by the node beside it.
  abbrev pub above : Text → Option Text → Text
  above h (some s) = pair_hash ethers h s
  above h none = h

  next_level-get :
      (l : List Text) (i : ℕ) (h : Text)
      → All IsLower l
      → get_elem? l i ≡ some h
      → get_elem? (next_level ethers l) (i / 2) ≡ some (above h (get_elem? l (sibling i)))
  unfolding next_level sibling
  next_level-get [] i h low e = cc
  next_level-get (a ∷ []) zero h low e = e
  next_level-get (a ∷ []) (suc i) h low e = cc
  next_level-get (a ∷ b ∷ l) zero h low e = ground arith
  next_level-get (a ∷ b ∷ l) (suc zero) h (la, (lb, low)) e =
      ground (arith, pair_hash_comm ethers a b la lb)
  next_level-get (a ∷ b ∷ l) (suc (suc i)) h (la, (lb, low)) e =
      let half : suc (suc i) / 2 ≡ suc (i / 2) = omega arith in
      rw (half, sibling-suc-suc i) (next_level-get l i h low e)

  next_level-IsLower :
      (l : List Text) → HashesLower ethers → All IsLower l → All IsLower (next_level ethers l)
  unfolding next_level
  next_level-IsLower [] lower low = tt
  next_level-IsLower (a ∷ []) lower low = low
  next_level-IsLower (a ∷ b ∷ l) lower (la, (lb, low)) =
      (pair_hash-IsLower ethers a b lower, next_level-IsLower l lower low)

  -- A level has half as many nodes as the one below it, rounded up.
  length-next_level : (l : List Text) → length (next_level ethers l) ≡ (length l + 1) / 2
  unfolding next_level
  length-next_level [] = omega arith
  length-next_level (a ∷ []) = omega arith
  length-next_level (a ∷ b ∷ l) = omega (arith, length-next_level l)

  levels_from-cons :
      (fuel : ℕ) (current : List Text)
      → (rest : List (List Text)) × (levels_from ethers fuel current ≡ current ∷ rest)
  unfolding levels_from
  levels_from-cons zero current = ([], refl)
  levels_from-cons (suc fuel) current = elim (Bool-cases (ltb 1 (length current))) [
    | inl more ↦ (levels_from ethers fuel (next_level ethers current), rw more)
    | inr done ↦ ([], rw done)
  ]

  climb_step :
      (nodes up : List Text) (levels : List (List Text)) (i : ℕ) (h : Text)
      → climb ethers (proof_loop (nodes ∷ up ∷ levels) i) h
        ≡ climb ethers (proof_loop (up ∷ levels) (i / 2)) (above h (get_elem? nodes (sibling i)))
  unfolding climb proof_loop
  climb_step nodes up levels i h = elim (Option-cases (get_elem? nodes (sibling i))) [
    | inl alone ↦ rw (alone, proof_loop)
    | inr (s, beside) ↦ rw (beside, proof_loop)
  ]

  top_single :
      (l : List Text) (i : ℕ) (h : Text)
      → ltb 1 (length l) ≡ false
      → get_elem? l i ≡ some h
      → top (l ∷ []) ≡ some (climb ethers (proof_loop (l ∷ []) i) h)
  unfolding top proof_loop climb
  top_single [] i h single e = cc
  top_single (a ∷ []) zero h single e = e
  top_single (a ∷ []) (suc i) h single e = cc
  top_single (a ∷ b ∷ l) i h single e = absurd (ground arith)

  -- With at least as many rounds as there are nodes in the lowest level, all lower-case, and with
  -- hashes in lower case: from node `h` at index `i` of that level, its proof leads to the root.
  pub climb-proof_loop :
      (fuel : ℕ) (current : List Text) (i : ℕ) (h : Text)
      → HashesLower ethers
      → All IsLower current
      → length current ≤ fuel
      → get_elem? current i ≡ some h
      → top (levels_from ethers fuel current)
        ≡ some (climb ethers (proof_loop (levels_from ethers fuel current) i) h)
  unfolding levels_from
  climb-proof_loop zero [] i h lower low enough e = cc
  climb-proof_loop zero (a ∷ l) i h lower low enough e = absurd (omega arith)
  climb-proof_loop (suc fuel) current i h lower low enough e =
      let next = next_level ethers current in
      elim (Bool-cases (ltb 1 (length current))) [
        | inl more ↦
            let (rest, c) = levels_from-cons fuel next in
            let h' = above h (get_elem? current (sibling i)) in
            let ih =
              climb-proof_loop fuel next (i / 2) h' lower (next_level-IsLower current lower low)
                (omega (arith, length-next_level current, ltb→lt 1 (length current) more))
                (next_level-get current i h low e) in
            rw (more, c, top_step current next rest, climb_step current next rest i h) (rw c at ih)
        | inr done ↦ rw done (top_single current i h done e)
      ]
