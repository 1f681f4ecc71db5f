-- ===== src/Runner/RiskGuard/Guarantees.antt =====
-- What the guard's repayments are, and when there are any.
use centry.Prelude.{
  ◌+◌, ◌≤◌, ◌≡◌, refl, ap, sym, ◌∙◌, inl, inr, true, false, ◌||◌, Bool-cases, Option-cases, none,
  some, List, [], ◌∷◌, ◌++◌, length, length-append, All, All-snoc, ok, ltb, leb, arith,
}
use centry.Prelude.Text.{Text, text_eq, text_eq_sound}
use centry.Runner.Values.{Viem}
use centry.Runner.Policy.{Autonomy, Policy, has}
use centry.Runner.RiskGuard.{
  Snapshot, Repay, Decision, guarded_assets, repay_of, repay_amount, repay_loop,
  evaluate_risk_guard,
}
use centry.Runner.RiskGuard.Repays.{IsPayable, repay_of-IsPayable, repay_amount_pos}
use centry.Runner.RiskGuard.Decisions.{must_repay, evaluate-IsDecided}

guarded_all : All (λ a. has guarded_assets a ≡ true) guarded_assets
unfolding has text_eq
guarded_all = (refl, (refl, (refl, tt)))

module _ (viem : Viem) (policy : Policy) (s : Snapshot) where
  -- The loop keeps what it has, and has at most two in the end.
  repay_loop-IsPayable :
      (assets : List Text) (actions : List Repay)
      → All (λ a. has guarded_assets a ≡ true) assets
      → length actions ≤ 1
      → All (IsPayable viem policy s) actions
      → (length (repay_loop viem policy s assets actions) ≤ 2)
        × (length actions ≤ length (repay_loop viem policy s assets actions))
        × All (IsPayable viem policy s) (repay_loop viem policy s assets actions)
  unfolding repay_loop
  repay_loop-IsPayable [] actions known few h = (ground arith, ground arith, h)
  repay_loop-IsPayable (asset ∷ assets) actions (here, known) few h =
      elim (Option-cases (repay_of viem policy s asset)) [
        | inl e ↦ rw (repay_loop, e) (repay_loop-IsPayable assets actions known few h)
        | inr (r, e) ↦
            let payable =
              All-snoc (IsPayable viem policy s) actions r h
                (repay_of-IsPayable viem policy s asset r here e) in
            let longer = length-append actions (r ∷ []) in
            elim (Bool-cases (leb 2 (length actions + 1))) [
              | inl full ↦ rw (repay_loop, e, full) (ground arith, ground arith, payable)
              | inr room ↦
                  let (most, least, all_payable) =
                    repay_loop-IsPayable assets (actions ++ r ∷ []) known (ground arith) payable in
                  rw (repay_loop, e, room) (most, ground arith, all_payable)
            ]
      ]

  repay_of-some :
      (asset : Text)
      → 1 ≤ s.debt asset
      → 1 ≤ s.balance asset
      → (r : Repay) × (repay_of viem policy s asset ≡ some r)
  unfolding repay_of
  repay_of-some asset owed held =
      let positive = repay_amount_pos viem policy s asset owed held in
      let skipped =
        ltb (s.debt asset) 1
        || ltb (s.balance asset) 1
        || ltb (repay_amount viem policy s asset) 1 in
      let none_skipped : skipped ≡ false = ground arith in
      (record { asset = asset; amount = repay_amount viem policy s asset }, rw none_skipped refl)

  -- The first asset of the list that can be repaid is.
  repay_loop_some :
      (assets : List Text) (asset : Text)
      → All (λ a. has guarded_assets a ≡ true) assets
      → has assets asset ≡ true
      → 1 ≤ s.debt asset
      → 1 ≤ s.balance asset
      → 1 ≤ length (repay_loop viem policy s assets [])
  unfolding repay_loop has
  repay_loop_some [] asset known found owed held = cc
  repay_loop_some (a ∷ assets) asset (here, known) found owed held =
      elim (Option-cases (repay_of viem policy s a)) [
        | inl e ↦ elim (Bool-cases (text_eq a asset)) [
          | inl same ↦
              let (r, f) = repay_of-some asset owed held in
              let eq : a ≡ asset = text_eq_sound a asset same in
              let wrong : none ≡ some r = sym e ∙ ap (repay_of viem policy s) eq ∙ f in cc
          | inr other ↦
              rw (repay_loop, e)
                (repay_loop_some assets asset known (ground (arith, other)) owed held)
        ]
        | inr (r, e) ↦
            let payable = repay_of-IsPayable viem policy s a r here e in
            let (_, least, _) =
              repay_loop-IsPayable assets (r ∷ []) known (ground arith) (payable, tt) in
            rw (repay_loop, e) least
      ]

-- Where the guard gives a decision, it asks for at most two repayments, each positive, no more than
-- the debt of its asset, no more than the balance, no more than a cap that can be read, and of one
-- of the three guarded assets. It asks for none unless it is on, the health factor is below the
-- threshold for repayments, and the policy has `repay` in its list.
pub evaluate_risk_guard-IsPayable :
    (viem : Viem) (s : Snapshot) (autonomy : Autonomy) (policy : Policy) (d : Decision)
    → evaluate_risk_guard viem s autonomy policy ≡ ok d
    → (length d.actions ≤ 2)
      × All (IsPayable viem policy s) d.actions
      × (must_repay d.config policy s.health_factor ≡ false → d.actions ≡ [])
evaluate_risk_guard-IsPayable viem s autonomy policy d h =
    let (_, _, listed) = evaluate-IsDecided viem s autonomy policy d h in
    let (most, _, payable) =
      repay_loop-IsPayable viem policy s guarded_assets [] guarded_all (ground arith) tt in
    elim (Bool-cases (must_repay d.config policy s.health_factor)) [
      | inl due ↦
          let all_of : d.actions ≡ repay_loop viem policy s guarded_assets [] =
            listed ∙ rw due refl in
          (
            rw all_of most,
            rw all_of payable,
            λ calm. let wrong : true ≡ false = sym due ∙ calm in cc,
          )
      | inr calm ↦
          let none_of : d.actions ≡ [] = listed ∙ rw calm refl in
          (rw none_of (ground arith), rw none_of tt, λ _. none_of)
    ]

-- Where the guard must repay, and a guarded asset has a debt and a balance, the decision asks for
-- at least one repayment.
pub evaluate_risk_guard-repays :
    (viem : Viem) (s : Snapshot) (autonomy : Autonomy) (policy : Policy) (d : Decision)
    (asset : Text)
    → evaluate_risk_guard viem s autonomy policy ≡ ok d
    → must_repay d.config policy s.health_factor ≡ true
    → has guarded_assets asset ≡ true
    → 1 ≤ s.debt asset
    → 1 ≤ s.balance asset
    → 1 ≤ length d.actions
evaluate_risk_guard-repays viem s autonomy policy d asset h due known owed held =
    let (_, _, listed) = evaluate-IsDecided viem s autonomy policy d h in
    let all_of : d.actions ≡ repay_loop viem policy s guarded_assets [] = listed ∙ rw due refl in
    rw all_of (repay_loop_some viem policy s guarded_assets asset guarded_all known owed held)
