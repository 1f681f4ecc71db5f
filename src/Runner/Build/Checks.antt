-- ===== src/Runner/Build/Checks.antt =====
-- What the tests of single actions make sure of.
use centry.Prelude.{
  ℕ, ◌≤◌, ◌≡◌, ap, ◌∙◌, inl, inr, true, false, not, Bool-cases, Option, none, some, ok, err,
  ok_injective, when_ok, throw_if, throw_if-eq-ok, ltb, arith,
}
use centry.Prelude.Int.{pos, negsuc}
use centry.Prelude.Text.{Text}
use centry.Prelude.Trim.{to_upper_case}
use centry.Rewards.Types.{Field, absent, empty, malformed, int}
use centry.Runner.Values.{
  Error, Viem, text_or_empty, agent_factory, asset_amount_to_base_units, address_of,
  approval_spender_not_allowed, external_genesis_prohibited, not_created_by_factory,
  target_not_created_by_factory, external_transfer_prohibited, invalid_support,
}
use centry.Runner.Values.Bounds.{positive_uint_pos, amount_in_units_pos, address_of-eq}
use centry.Runner.Batch.{Agent, Reads, same_address, read_required, read_required-eq}
use centry.Runner.Build.{Context, amount_of}
use centry.Runner.Conditions.{
  check_factories, verify_agent_genesis, check_spender, check_owner, found, support_of,
}
use centry.Runner.Build.Sent.{is_spender}

pub amount_of_pos :
    (x : Context) (value asset : Option Text) (n : ℕ) → amount_of x value asset ≡ ok n → 1 ≤ n
unfolding amount_of asset_amount_to_base_units
amount_of_pos x value asset n h = elim (Bool-cases x.human) [
  | inl e ↦
      amount_in_units_pos x.viem value (to_upper_case (text_or_empty asset)) n
        (rw (amount_of, e) at h)
  | inr e ↦ positive_uint_pos value n (rw (amount_of, e) at h)
]

pub check_spender-is_spender :
    (spender asset : Text) → check_spender spender asset ≡ ok tt → is_spender spender ≡ true
unfolding check_spender
check_spender-is_spender spender asset h =
    let refused = not (is_spender spender) in
    when_ok (throw_if refused approval_spender_not_allowed) _ h λ _ e _.
      let passed : refused ≡ false = throw_if-eq-ok refused approval_spender_not_allowed e in
      ground arith

pub check_owner-same :
    (agent target : Agent)
    → check_owner agent target ≡ ok tt
    → same_address target.owner agent.owner ≡ true
unfolding check_owner
check_owner-same agent target h =
    let other = not (same_address target.owner agent.owner) in
    let passed : other ≡ false = throw_if-eq-ok other external_transfer_prohibited h in ground arith

pub found-eq {ℓ} : {A : Type ℓ} (o : Option A) (e : Error) (a : A) → found o e ≡ ok a → o ≡ some a
unfolding found
found-eq none e a h = cc
found-eq (some b) e a h = ap some (ok_injective h)

pub support_of_bound : (f : Field) (n : ℕ) → support_of f ≡ ok n → n ≤ 2
unfolding support_of
support_of_bound absent n h = cc
support_of_bound empty n h = ground arith
support_of_bound malformed n h = cc
support_of_bound (int (negsuc m)) n h = cc
support_of_bound (int (pos m)) n h = elim (Bool-cases (ltb m 3)) [
  | inl small ↦
      let same : ok m ≡ ok n = rw small at h in let m_eq : m ≡ n = ok_injective same in ground arith
  | inr big ↦ let wrong : err invalid_support ≡ ok n = rw big at h in cc
]

check_factories-same :
    (source target : Text)
    → check_factories source target ≡ ok tt
    → same_address source agent_factory ≡ true
unfolding check_factories
check_factories-same source target h =
    let other = not (same_address source agent_factory) in
    when_ok (throw_if (not (same_address source target)) external_genesis_prohibited) _ h λ _ _ h₁.
      let passed : other ≡ false = throw_if-eq-ok other not_created_by_factory h₁ in ground arith

-- The factory is the worker's, and it has registered the target.
pub verify_agent_genesis-genuine :
    (viem : Viem) (reads : Reads) (source target factory : Text)
    → verify_agent_genesis viem reads source target ≡ ok factory
    → (account : Text) × (viem.get_address target ≡ some account)
      × (same_address factory agent_factory ≡ true)
      × (reads.is_registered factory account ≡ some true)
unfolding verify_agent_genesis
verify_agent_genesis-genuine viem reads source target factory h =
    when_ok (address_of viem source) _ h λ s _ h₁. when_ok (address_of viem target) _ h₁ λ t e₁ h₂.
      when_ok (read_required (reads.factory s)) _ h₂ λ sr _ h₃.
        when_ok (address_of viem sr) _ h₃ λ f _ h₄.
          when_ok (read_required (reads.factory t)) _ h₄ λ tr _ h₅.
            when_ok (address_of viem tr) _ h₅ λ g _ h₆. when_ok (check_factories f g) _ h₆ λ _ e h₇.
              when_ok (read_required (reads.is_registered f t)) _ h₇ λ r e₂ h₈.
                when_ok (throw_if (not r) target_not_created_by_factory) _ h₈ λ _ e₃ h₉.
                  let f_eq : f ≡ factory = ok_injective h₉ in
                  let passed : not r ≡ false = throw_if-eq-ok (not r) _ e₃ in
                  let yes : r ≡ true = ground arith in
                  (
                    t,
                    address_of-eq viem target t e₁,
                    rw (← f_eq) (check_factories-same f g e),
                    rw (← f_eq) (read_required-eq (reads.is_registered f t) r e₂ ∙ ap some yes),
                  )
