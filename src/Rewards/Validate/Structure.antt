-- ===== src/Rewards/Validate/Structure.antt =====
-- What a manifest that passes the tests is known to be.
use centry.Prelude.{
  ℕ, ◌+◌, ◌≤◌, ◌<◌, ◌≡◌, ◌≢◌, true, not, some, List, [], ◌∷◌, ok, All, All-imp, AllPairs, when_ok,
  throw_if, throw_if-eq-ok, ok_injective, subst, ap, sym, ◌∙◌, arith,
}
use centry.Prelude.Int.{ℤ, pos}
use centry.Prelude.Sort.{sum_by}
use centry.Prelude.Text.{Text}
use centry.Rewards.Types.{
  reward_amount_not_positive, min_out_not_positive, amount_not_positive, Field, int,
  InstructionInput, PositionInput, ManifestInput,
}
use centry.Rewards.Merkle.{Ethers, leaf_hash, verify_proof}
use centry.Rewards.Manifest.{read_int, required, has_id}
use centry.Rewards.Manifest.Distinct.{has_id-Unseen}
use centry.Rewards.Validate.{
  is_bytes32, check_items, check_swap_data, positive, read_root, present, check_instruction,
  check_instructions, entry_fields, check_reward, check_entry, check_entries, check_structure,
}
use centry.Rewards.Validate.Fields.{
  field_value, taken_by, positive-field, check_items-All, positive-eq, throw_if-le, required-eq,
  present-eq, read_root-eq, entry_fields_lem,
}

-- An entry in order: a positive amount, a proof of 32-byte values that verifies the leaf of the
-- token and the amount, and instructions that take no more than the amount.
pub record IsEntry (ethers : Ethers) (root : Text) (p : PositionInput) (token : ℤ) : Type 0 where
  pub token_eq : read_int p.token_id ≡ ok token
  pub paid : ℕ
  pub amount_eq : p.amount ≡ int (pos paid)
  pub positive : 0 < paid
  pub proof : List Text
  pub proof_eq : p.proof ≡ some proof
  pub items : All (λ t. is_bytes32 t ≡ true) proof
  pub leaf : Text
  pub leaf_eq : leaf_hash ethers token (pos paid) ≡ ok leaf
  pub verified : verify_proof ethers proof root leaf ≡ true
  pub instructions : List InstructionInput
  pub instructions_eq : p.instructions ≡ some instructions
  pub within : sum_by taken_by instructions ≤ paid

module _ (ethers : Ethers) where
  check_instruction-taken :
      (i : InstructionInput) (k : ℕ) → check_instruction ethers i ≡ ok k → k ≡ taken_by i
  unfolding check_instruction
  check_instruction-taken i k h = when_ok (throw_if _ _) _ h λ _ _ h₁.
      when_ok (read_int i.reward_amount_in) _ h₁ λ amount e₁ h₂.
        when_ok (read_int i.min_debt_asset_out) _ h₂ λ out _ h₃.
          when_ok (positive amount reward_amount_not_positive) _ h₃ λ t e₃ h₄.
            when_ok (positive out min_out_not_positive) _ h₄ λ _ _ h₅.
              when_ok (check_swap_data i.swap_data) _ h₅ λ _ _ h₆.
                let same : t ≡ k = ok_injective h₆ in
                let field : i.reward_amount_in ≡ int (pos t) = positive-field _ amount _ t e₁ e₃ in
                sym same ∙ sym (ap field_value field)

  check_instructions-sum :
      (is : List InstructionInput) (total k : ℕ)
      → check_instructions ethers is total ≡ ok k
      → k ≡ total + sum_by taken_by is
  unfolding check_instructions
  check_instructions-sum [] total k h = ground arith
  check_instructions-sum (i ∷ is) total k h = when_ok (check_instruction ethers i) _ h λ t e h₁.
      omega (arith, check_instruction-taken i t e, check_instructions-sum is (total + t) k h₁)

  -- The reward of an entry, from its fields.
  check_reward_lem :
      (root : Text) (token : ℤ) (f : Field) (proof : List Text) (is : List InstructionInput)
      → check_reward ethers root token f proof is ≡ ok tt
      → (paid : ℕ) × (f ≡ int (pos paid))
        × (0 < paid)
        × All (λ t. is_bytes32 t ≡ true) proof
        × ((leaf : Text) × (leaf_hash ethers token (pos paid) ≡ ok leaf)
            × (verify_proof ethers proof root leaf ≡ true))
        × (sum_by taken_by is ≤ paid)
  unfolding check_reward
  check_reward_lem root token f proof is h = when_ok (read_int f) _ h λ amount e h₁.
      when_ok (positive amount amount_not_positive) _ h₁ λ paid e₁ h₂.
        when_ok (check_items proof) _ h₂ λ _ e₂ h₃.
          when_ok (leaf_hash ethers token amount) _ h₃ λ leaf e₃ h₄.
            when_ok (throw_if (not (verify_proof ethers proof root leaf)) _) _ h₄ λ _ e₄ h₅.
              when_ok (check_instructions ethers is 0) _ h₅ λ total e₅ h₆.
                let (amount_eq, some_paid) = positive-eq amount _ paid e₁ in
                (
                  paid,
                  positive-field f amount _ paid e e₁,
                  some_paid,
                  check_items-All proof e₂,
                  (leaf, rw amount_eq at e₃, ground (arith, throw_if-eq-ok _ _ e₄)),
                  omega (arith, check_instructions-sum is 0 total e₅, throw_if-le paid total _ h₆),
                )

  check_entry-IsEntry :
      (root : Text) (seen : List ℤ) (p : PositionInput) (token : ℤ)
      → check_entry ethers root seen p ≡ ok token
      → IsEntry ethers root p token × All (λ j. j ≢ token) seen
  unfolding check_entry
  check_entry-IsEntry root seen p token h = when_ok (entry_fields p) _ h λ fields e h₁.
      when_ok (read_int fields.0) _ h₁ λ t e₁ h₂.
        when_ok (throw_if (has_id t seen) _) _ h₂ λ _ e₂ h₃.
          when_ok (check_reward ethers root t fields.1 fields.2 fields.3) _ h₃ λ _ e₃ h₄.
            let same : t ≡ token = ok_injective h₄ in
            let (token_eq, amount_field, proof_eq, instructions_eq) = entry_fields_lem p fields e in
            let (paid, amount_eq, some_paid, items, (leaf, leaf_eq, verified), within) =
              check_reward_lem root t fields.1 fields.2 fields.3 e₃ in
            subst (λ (k : ℤ). IsEntry ethers root p k × All (λ j. j ≢ k) seen) same
              (
                record {
                  token_eq = rw token_eq e₁;
                  paid = paid;
                  amount_eq = amount_field ∙ amount_eq;
                  positive = some_paid;
                  proof = fields.2;
                  proof_eq = proof_eq;
                  items = items;
                  leaf = leaf;
                  leaf_eq = leaf_eq;
                  verified = verified;
                  instructions = fields.3;
                  instructions_eq = instructions_eq;
                  within = within;
                },
                has_id-Unseen t seen (throw_if-eq-ok _ _ e₂),
              )

  -- The tokens of the entries, each with what it is known to be.
  abbrev pub AreEntries : Text → List PositionInput → List ℤ → Type 0
  AreEntries root [] [] = Unit
  AreEntries root [] (t ∷ ts) = ⊥
  AreEntries root (p ∷ ps) [] = ⊥
  AreEntries root (p ∷ ps) (t ∷ ts) = IsEntry ethers root p t × AreEntries root ps ts

  check_entries_lem :
      (root : Text) (seen : List ℤ) (ps : List PositionInput)
      → check_entries ethers root seen ps ≡ ok tt
      → (tokens : List ℤ) × AreEntries root ps tokens
        × AllPairs (λ a b. a ≢ b) tokens
        × All (λ t. All (λ j. j ≢ t) seen) tokens
  unfolding check_entries
  check_entries_lem root seen [] h = ([], tt, tt, tt)
  check_entries_lem root seen (p ∷ ps) h = when_ok (check_entry ethers root seen p) _ h λ t e h₁.
      let (is_entry, unseen) = check_entry-IsEntry root seen p t e in
      let (ts, entries, distinct, rest) = check_entries_lem root (t ∷ seen) ps h₁ in
      (
        t ∷ ts,
        (is_entry, entries),
        (All-imp (λ k u. u.0) ts rest, distinct),
        (unseen, All-imp (λ k u. u.1) ts rest),
      )

-- A manifest that passes the tests before the chain is asked has a positive epoch and a 32-byte
-- root; its entries are of different tokens, and each has a positive amount, a proof of 32-byte
-- values that verifies its leaf against the root, and instructions that take no more than the
-- amount.
pub check_structure_lem :
    (ethers : Ethers) (m : ManifestInput) (epoch : ℕ) (root : Text)
    → check_structure ethers m ≡ ok (epoch, root)
    → (0 < epoch)
      × (m.epoch ≡ int (pos epoch))
      × (m.root ≡ some root)
      × (is_bytes32 root ≡ true)
      × ((entries : List PositionInput) × (tokens : List ℤ) × (m.positions ≡ some entries)
          × AreEntries ethers root entries tokens
          × AllPairs (λ a b. a ≢ b) tokens)
unfolding check_structure
check_structure_lem ethers m epoch root h = when_ok (required m.epoch _) _ h λ f e h₁.
    when_ok (present m.positions _) _ h₁ λ entries e₁ h₂. when_ok (read_int f) _ h₂ λ n e₂ h₃.
      when_ok (positive n _) _ h₃ λ k e₃ h₄. when_ok (read_root m.root) _ h₄ λ r e₄ h₅.
        when_ok (check_entries ethers r [] entries) _ h₅ λ _ e₅ h₆.
          let same : (k, r) ≡ (epoch, root) = ok_injective h₆ in
          subst
            (λ (v : ℕ × Text).
              (0 < v.0)
              × (m.epoch ≡ int (pos v.0))
              × (m.root ≡ some v.1)
              × (is_bytes32 v.1 ≡ true)
              × ((entries : List PositionInput) × (tokens : List ℤ) × (m.positions ≡ some entries)
                  × AreEntries ethers v.1 entries tokens
                  × AllPairs (λ a b. a ≢ b) tokens))
            same
            (
              (positive-eq n _ k e₃).1,
              required-eq _ _ f e ∙ positive-field f n _ k e₂ e₃,
              (read_root-eq m.root r e₄).0,
              (read_root-eq m.root r e₄).1,
              let (tokens, are, distinct, _) = check_entries_lem ethers r [] entries e₅ in
                  (entries, tokens, present-eq _ _ entries e₁, are, distinct),
            )
