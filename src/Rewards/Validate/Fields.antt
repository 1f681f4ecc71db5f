-- ===== src/Rewards/Validate/Fields.antt =====
-- The tests of single fields, read backwards: what a field is that passed.
use centry.Prelude.{
  ℕ, zero, suc, ◌≤◌, ◌<◌, ◌≡◌, true, not, Option, none, some, List, [], ◌∷◌, ok, All, when_ok,
  throw_if, throw_if-eq-ok, ok_injective, ltb, subst, ap, arith,
}
use centry.Prelude.Int.{ℤ, pos, negsuc, pos_part}
use centry.Prelude.Text.{Text}
use centry.Rewards.Types.{
  Error, token_id_missing, amount_missing, proof_missing, instructions_missing, Field, absent,
  empty, malformed, int, InstructionInput, PositionInput,
}
use centry.Rewards.Manifest.{read_int, required}
use centry.Rewards.Validate.{is_bytes32, check_items, positive, read_root, present, entry_fields}

-- The number of a field, as far as it is a positive integer.
abbrev pub field_value : Field → ℕ
field_value absent = 0
field_value empty = 0
field_value malformed = 0
field_value (int n) = pos_part n

-- What an instruction takes of the reward.
abbrev pub taken_by : InstructionInput → ℕ
taken_by i = field_value i.reward_amount_in

-- A field that reads as a positive integer is that integer.
pub read_int-positive : (f : Field) (k : ℕ) → read_int f ≡ ok (pos k) → 0 < k → f ≡ int (pos k)
unfolding read_int
read_int-positive (int m) k h p = ap int (ok_injective h)
read_int-positive empty k h p = absurd (ground arith)
read_int-positive absent k h p = cc
read_int-positive malformed k h p = cc

pub check_items-All : (ts : List Text) → check_items ts ≡ ok tt → All (λ t. is_bytes32 t ≡ true) ts
unfolding check_items
check_items-All [] h = tt
check_items-All (t ∷ ts) h =
    when_ok (throw_if (not (is_bytes32 t)) _) _ h
      λ _ e h₁. (ground (arith, throw_if-eq-ok _ _ e), check_items-All ts h₁)

pub positive-eq : (n : ℤ) (e : Error) (k : ℕ) → positive n e ≡ ok k → (n ≡ pos k) × (0 < k)
unfolding positive
positive-eq (pos zero) e k h = cc
positive-eq (pos (suc n)) e k h = ground arith
positive-eq (negsuc n) e k h = cc

-- A field whose integer passes the test of its sign is that integer.
pub positive-field :
    (f : Field) (n : ℤ) (e : Error) (k : ℕ)
    → read_int f ≡ ok n
    → positive n e ≡ ok k
    → f ≡ int (pos k)
positive-field f n e k h p =
    let (same, above) = positive-eq n e k p in read_int-positive f k (rw same at h) above

pub throw_if-le : (a b : ℕ) (e : Error) → throw_if (ltb a b) e ≡ ok tt → b ≤ a
throw_if-le a b e h = ground arith

pub required-eq : (f : Field) (e : Error) (g : Field) → required f e ≡ ok g → f ≡ g
unfolding required
required-eq absent e g h = cc
required-eq malformed e g h = ground arith
required-eq empty e g h = ground arith
required-eq (int n) e g h = ground arith

pub present-eq {ℓ} :
    {A : Type ℓ} (o : Option A) (e : Error) (a : A) → present o e ≡ ok a → o ≡ some a
unfolding present
present-eq none e a h = cc
present-eq (some b) e a h = ap some (ok_injective h)

pub read_root-eq :
    (o : Option Text) (r : Text) → read_root o ≡ ok r → (o ≡ some r) × (is_bytes32 r ≡ true)
unfolding read_root
read_root-eq none r h = cc
read_root-eq (some []) r h = cc
read_root-eq (some (c ∷ t)) r h = when_ok (throw_if (not (is_bytes32 (c ∷ t))) _) _ h λ _ e h₁.
    let same : c ∷ t ≡ r = ok_injective h₁ in
    (ap some same, rw (← same) (ground (arith, throw_if-eq-ok _ _ e)))

pub entry_fields_lem :
    (p : PositionInput) (fs : Field × Field × List Text × List InstructionInput)
    → entry_fields p ≡ ok fs
    → (p.token_id ≡ fs.0) × (p.amount ≡ fs.1) × (p.proof ≡ some fs.2) × (p.instructions ≡ some fs.3)
unfolding entry_fields
entry_fields_lem p fs h = when_ok (required p.token_id token_id_missing) _ h λ a e h₁.
    when_ok (required p.amount amount_missing) _ h₁ λ b e₁ h₂.
      when_ok (present p.proof proof_missing) _ h₂ λ c e₂ h₃.
        when_ok (present p.instructions instructions_missing) _ h₃ λ d e₃ h₄.
          subst
            (λ (fs : Field × Field × List Text × List InstructionInput).
              (p.token_id ≡ fs.0)
              × (p.amount ≡ fs.1)
              × (p.proof ≡ some fs.2)
              × (p.instructions ≡ some fs.3))
            (ok_injective h₄)
            (required-eq _ _ a e, required-eq _ _ b e₁, present-eq _ _ c e₂, present-eq _ _ d e₃)
