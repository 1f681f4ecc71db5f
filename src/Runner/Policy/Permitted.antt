-- ===== src/Runner/Policy/Permitted.antt =====
-- What `assertActionPolicy` lets pass.
use centry.Prelude.{
  ℕ, ◌≤◌, ◌≡◌, ◌⊎◌, refl, Option, inl, inr, Bool, true, false, not, ◌&&◌, ◌||◌, some, ok, err,
  Result-cases, ok_injective, when_ok, throw_if, ◌>>=◌, throw_if-eq-ok, ltb, if◌then◌else◌, ap, ◌∙◌,
  arith,
}
use centry.Prelude.Text.{Text, codes, text_eq}
use centry.Prelude.Trim.{trim}
use centry.Prelude.Assoc.{lookup}
use centry.Runner.Values.{
  Viem, Action, approval_not_allowed, invalid_max_amount, amount_limit_exceeded, amount_in_units,
}
use centry.Runner.Policy.{
  Policy, Kind, name_of, has, type_of, is_kind, needs_asset, asset_of, output_of, cap_text,
  is_blank, cap_of, find_kind, read_amount, max_amount, assert_cap, assert_asset,
  assert_action_policy,
}

-- The types that move an asset.
abbrev pub IsMoving : Text → Type 0
IsMoving t =
    (t ≡ codes "approve")
    ⊎ (t ≡ codes "supply")
    ⊎ (t ≡ codes "withdraw")
    ⊎ (t ≡ codes "borrow")
    ⊎ (t ≡ codes "repay")
    ⊎ (t ≡ codes "swap")
    ⊎ (t ≡ codes "transfer")

IsMoving-needs_asset : (t : Text) → IsMoving t → needs_asset t ≡ true
unfolding needs_asset find_kind text_eq
IsMoving-needs_asset t (inl e) = rw e refl
IsMoving-needs_asset t (inr (inl e)) = rw e refl
IsMoving-needs_asset t (inr (inr (inl e))) = rw e refl
IsMoving-needs_asset t (inr (inr (inr (inl e)))) = rw e refl
IsMoving-needs_asset t (inr (inr (inr (inr (inl e))))) = rw e refl
IsMoving-needs_asset t (inr (inr (inr (inr (inr (inl e)))))) = rw e refl
IsMoving-needs_asset t (inr (inr (inr (inr (inr (inr e)))))) = rw e refl

cap_of-some :
    (policy : Policy) (asset : Text) (cap : Option Text)
    → lookup asset policy.max_amount_by_asset ≡ some cap
    → is_blank (trim (cap_text cap)) ≡ false
    → cap_of policy asset ≡ some cap
unfolding cap_of
cap_of-some policy asset cap there full = rw (cap_of, there, full) refl

module _ (viem : Viem) (human : Bool) (policy : Policy) where
  -- The amount of the action, which can be read, does not exceed a cap that is set and not blank.
  abbrev pub IsCapped : Action → Type 0
  IsCapped a =
      (cap : Option Text)
      → lookup (asset_of a) policy.max_amount_by_asset ≡ some cap
      → is_blank (trim (cap_text cap)) ≡ false
      → (most : ℕ) × (amount : ℕ) × (amount_in_units viem cap (asset_of a) ≡ ok most)
        × (read_amount viem human a (asset_of a) ≡ ok amount)
        × (amount ≤ most)

  -- An action that the policy allows.
  pub record IsPermitted (a : Action) : Type 0 where
    pub type_allowed :
        is_kind Kind.approve (type_of a) ≡ false → has policy.allowed_actions (type_of a) ≡ true
    pub approval_allowed :
        is_kind Kind.approve (type_of a) ≡ true
        → IsMoving (type_of a)
        → (has policy.allowed_actions (name_of Kind.supply)
            || has policy.allowed_actions (name_of Kind.repay))
          ≡ true
    pub asset_allowed : IsMoving (type_of a) → has policy.allowed_assets (asset_of a) ≡ true
    pub output_allowed :
        is_kind Kind.swap (type_of a) ≡ true → has policy.allowed_assets (output_of a) ≡ true
    pub capped : IsMoving (type_of a) → IsCapped a

  max_amount-eq-ok :
      (asset : Text) (cap : Option Text) (n : ℕ)
      → max_amount viem asset cap ≡ ok n
      → amount_in_units viem cap asset ≡ ok n
  unfolding max_amount
  max_amount-eq-ok asset cap n h = elim (Result-cases (amount_in_units viem cap asset)) [
    | inl (m, e) ↦ let same : ok m ≡ ok n = rw (max_amount, e) at h in e ∙ ap ok (ok_injective same)
    | inr (e, f) ↦ let wrong : err (invalid_max_amount asset) ≡ ok n = rw (max_amount, f) at h in cc
  ]

  assert_cap-IsCapped :
      (a : Action) → assert_cap viem human policy a (asset_of a) ≡ ok tt → IsCapped a
  unfolding assert_cap
  assert_cap-IsCapped a h cap there full =
      let e : cap_of policy (asset_of a) ≡ some cap =
        cap_of-some policy (asset_of a) cap there full in
      when_ok {B = Unit {0}} (max_amount viem (asset_of a) cap)
        (λ most. read_amount viem human a (asset_of a) >>= λ amount.
          throw_if (ltb most amount) (amount_limit_exceeded (asset_of a)))
        (rw (assert_cap, e) at h)
        λ most e₁ h₁. when_ok (read_amount viem human a (asset_of a)) _ h₁ λ amount e₂ h₂.
          let fits = throw_if-eq-ok (ltb most amount) _ h₂ in
          (most, amount, max_amount-eq-ok (asset_of a) cap most e₁, e₂, ground arith)

  -- The approvals that the policy allows.
  abbrev pub allows_approval : Bool
  allows_approval =
      has policy.allowed_actions (name_of Kind.supply)
      || has policy.allowed_actions (name_of Kind.repay)

  assert_asset-eq-ok :
      (a : Action)
      → assert_asset viem human policy a ≡ ok tt
      → (has policy.allowed_assets (asset_of a) ≡ true)
        × (is_kind Kind.approve (type_of a) ≡ true → allows_approval ≡ true)
        × IsCapped a
  unfolding assert_asset
  assert_asset-eq-ok a h =
      let refused = not (has policy.allowed_assets (asset_of a)) in
      let barred =
        is_kind Kind.approve (type_of a)
        && not (has policy.allowed_actions (name_of Kind.supply))
        && not (has policy.allowed_actions (name_of Kind.repay)) in
      when_ok (throw_if refused _) _ h λ u e h₁.
        when_ok (throw_if barred approval_not_allowed) _ h₁ λ v e₁ h₂.
          let passed : refused ≡ false = throw_if-eq-ok refused _ e in
          let free : barred ≡ false = throw_if-eq-ok barred approval_not_allowed e₁ in
          (ground arith, (λ approves. ground arith), assert_cap-IsCapped a h₂)

  pub assert_action_policy-IsPermitted :
      (a : Action) → assert_action_policy viem human policy a ≡ ok tt → IsPermitted a
  unfolding assert_action_policy
  assert_action_policy-IsPermitted a h =
      let barred =
        not (is_kind Kind.approve (type_of a)) && not (has policy.allowed_actions (type_of a)) in
      let closed = is_kind Kind.swap (type_of a) && not (has policy.allowed_assets (output_of a)) in
      when_ok (throw_if barred _) _ h λ u e h₁.
        when_ok (if needs_asset (type_of a) then assert_asset viem human policy a else ok tt) _ h₁
          λ v e₁ h₂.
            let passed : barred ≡ false = throw_if-eq-ok barred _ e in
            let free : closed ≡ false = throw_if-eq-ok closed _ h₂ in
            let checked : IsMoving (type_of a) → _ =
              λ m. assert_asset-eq-ok a (rw (IsMoving-needs_asset (type_of a) m) at e₁) in
            record {
              type_allowed = λ k. ground arith;
              approval_allowed = λ k n. (checked n).1 k;
              asset_allowed = λ n. (checked n).0;
              output_allowed = λ k. ground arith;
              capped = λ n. (checked n).2;
            }
