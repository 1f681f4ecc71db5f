-- ===== src/Runner/RiskGuard/Repays.antt =====
-- The repayments that the guard asks for.
use centry.Prelude.{
  ℕ, ◌≤◌, ◌≡◌, ap, ◌∙◌, inl, inr, true, ◌||◌, Bool-cases, Option, Option-cases, none, some, ok,
  Result-cases, ltb, subst, if◌then◌else◌, arith,
}
use centry.Prelude.Text.{Text}
use centry.Prelude.Trim.{trim}
use centry.Prelude.Assoc.{lookup}
use centry.Runner.Values.{Viem, amount_in_units}
use centry.Runner.Values.Bounds.{amount_in_units_pos}
use centry.Runner.Policy.{Policy, has, is_blank}
use centry.Runner.RiskGuard.{
  Snapshot, Repay, guarded_assets, readable_cap, max_policy_amount_raw, capped, repay_amount,
  repay_of,
}

capped_le : (o : Option ℕ) (n : ℕ) → capped o n ≤ n
unfolding capped
capped_le none n = ground arith
capped_le (some m) n = ground arith

capped_le_cap : (m n : ℕ) → 1 ≤ m → capped (some m) n ≤ m
unfolding capped
capped_le_cap m n h = ground arith

capped_pos : (o : Option ℕ) (n : ℕ) → 1 ≤ n → 1 ≤ capped o n
unfolding capped
capped_pos none n h = h
capped_pos (some m) n h = ground arith

module _ (viem : Viem) (policy : Policy) (s : Snapshot) where
  -- A repayment that the account can make, of a debt that it has, within a cap that can be read.
  pub record IsPayable (r : Repay) : Type 0 where
    pub guarded_asset : has guarded_assets r.asset ≡ true
    pub positive : 1 ≤ r.amount
    pub owed : r.amount ≤ s.debt r.asset
    pub held : r.amount ≤ s.balance r.asset
    pub capped : (cap : ℕ) → max_policy_amount_raw viem policy r.asset ≡ some cap → r.amount ≤ cap

  readable_cap_pos : (asset t : Text) (n : ℕ) → readable_cap viem asset t ≡ some n → 1 ≤ n
  unfolding readable_cap
  readable_cap_pos asset t n h = elim (Bool-cases (is_blank (trim t))) [
    | inl e ↦ let wrong : none ≡ some n = rw (readable_cap, e) at h in cc
    | inr e ↦ elim (Result-cases (amount_in_units viem (some t) asset)) [
      | inl (m, f) ↦
          let same : some m ≡ some n = rw (readable_cap, e, f) at h in
          let m_eq : m ≡ n = cc in amount_in_units_pos viem (some t) asset n (f ∙ ap ok m_eq)
      | inr (_, f) ↦ let wrong : none ≡ some n = rw (readable_cap, e, f) at h in cc
    ]
  ]

  max_policy_amount_raw_pos :
      (asset : Text) (n : ℕ) → max_policy_amount_raw viem policy asset ≡ some n → 1 ≤ n
  unfolding max_policy_amount_raw
  max_policy_amount_raw_pos asset n h =
      elim (Option-cases (lookup asset policy.max_amount_by_asset)) [
        | inl e ↦ let wrong : none ≡ some n = rw (max_policy_amount_raw, e) at h in cc
        | inr (none, e) ↦ let wrong : none ≡ some n = rw (max_policy_amount_raw, e) at h in cc
        | inr (some t, e) ↦ readable_cap_pos asset t n (rw (max_policy_amount_raw, e) at h)
      ]

  repay_amount_bounds :
      (asset : Text)
      → (repay_amount viem policy s asset ≤ s.debt asset)
        × (repay_amount viem policy s asset ≤ s.balance asset)
        × ((n : ℕ)
            → max_policy_amount_raw viem policy asset ≡ some n
            → repay_amount viem policy s asset ≤ n)
  unfolding repay_amount
  repay_amount_bounds asset =
      let most = if ltb (s.debt asset) (s.balance asset) then s.debt asset else s.balance asset in
      let low = capped_le (max_policy_amount_raw viem policy asset) most in
      (
        ground arith,
        ground arith,
        λ n e. rw e (capped_le_cap n most (max_policy_amount_raw_pos asset n e)),
      )

  pub repay_of-IsPayable :
      (asset : Text) (r : Repay)
      → has guarded_assets asset ≡ true
      → repay_of viem policy s asset ≡ some r
      → IsPayable r
  unfolding repay_of
  repay_of-IsPayable asset r known h =
      let amount = repay_amount viem policy s asset in
      let skipped = ltb (s.debt asset) 1 || ltb (s.balance asset) 1 || ltb amount 1 in
      let (owed, held, capped) = repay_amount_bounds asset in
      elim (Bool-cases skipped) [
        | inl e ↦ let wrong : none ≡ some r = rw (repay_of, e) at h in cc
        | inr e ↦
            let same : some (record { asset = asset; amount = amount }) ≡ some r =
              rw (repay_of, e) at h in
            let r_eq : record { asset = asset; amount = amount } ≡ r = cc in
            subst IsPayable r_eq (record {
              guarded_asset = known;
              positive = ground arith;
              owed = owed;
              held = held;
              capped = capped;
            })
      ]

  pub repay_amount_pos :
      (asset : Text) → 1 ≤ s.debt asset → 1 ≤ s.balance asset → 1 ≤ repay_amount viem policy s asset
  unfolding repay_amount
  repay_amount_pos asset owed held =
      capped_pos (max_policy_amount_raw viem policy asset) _ (ground arith)
