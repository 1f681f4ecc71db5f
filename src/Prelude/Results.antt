-- ===== src/Prelude/Results.antt =====
-- A thrown error as a value, for any type of errors.
use mathlib.Core.Path.{◌≡◌, refl}
use mathlib.Core.Logic.{◌⊎◌, inl, inr}
use mathlib.Core.Bool.{Bool, true, false}

pub data Result {ℓ κ} (E : Type κ) (A : Type ℓ) : Type (ℓ ⊔ κ) where
  ok : A → Result E A
  err : E → Result E A

-- A step `m` that may throw, and what is done with its value.
module _ {κ ℓ μ} {E : Type κ} {A : Type ℓ} {B : Type μ} where
  infixl 5 ◌>>=◌
  abbrev pub ◌>>=◌ : Result E A → (A → Result E B) → Result E B
  err e >>= next = err e
  ok a >>= next = next a

  -- If both end well, then the value between them is known to the rest of a proof.
  pub when_ok {ν} :
      {C : Type ν} (step : Result E A) (next : A → Result E B) {b : B}
      → (step >>= next) ≡ ok b
      → ((a : A) → step ≡ ok a → next a ≡ ok b → C)
      → C
  when_ok (err e) next h k = cc
  when_ok (ok a) next h k = k a refl h

  -- The same as a triple.
  pub >>=-eq-ok :
      (step : Result E A) (next : A → Result E B) {b : B}
      → (step >>= next) ≡ ok b
      → (a : A) × (step ≡ ok a) × (next a ≡ ok b)
  >>=-eq-ok step next h = when_ok step next h λ a e h'. (a, e, h')

-- The sequence of two steps of which the first is a test.
infixl 5 ◌>>◌
abbrev pub ◌>>◌ {κ μ} : {E : Type κ} {B : Type μ} → Result E (Unit {0}) → Result E B → Result E B
test >> next = test >>= λ passed. next

-- `if (b) throw e`
abbrev pub throw_if {κ} : {E : Type κ} → Bool → E → Result E (Unit {0})
throw_if false e = ok tt
throw_if true e = err e

pub throw_if-eq-ok {κ} : {E : Type κ} (b : Bool) (e : E) → throw_if b e ≡ ok tt → b ≡ false
throw_if-eq-ok true e h = cc
throw_if-eq-ok false e h = refl

pub Result-cases {ℓ κ} :
    {E : Type κ} {A : Type ℓ} (r : Result E A) → ((a : A) × (r ≡ ok a)) ⊎ ((e : E) × (r ≡ err e))
Result-cases (ok a) = inl (a, refl)
Result-cases (err e) = inr (e, refl)

pub ok_injective {ℓ κ} :
    {E : Type κ} {A : Type ℓ} {a b : A} → ◌≡◌ {A = Result E A} (ok a) (ok b) → a ≡ b
ok_injective e = cc
