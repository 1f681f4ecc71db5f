-- ===== src/Runner/HealthActions.antt =====
-- What agent-runner/src/index.js does with a health factor besides its repayments: the actions that
-- it filters and the warning that it sends.
use centry.Prelude.{
  arith, ◌≡◌, refl, ap, ◌++◌, sym, ◌∙◌, inl, inr, Bool-cases, All, ok, true, false, not, Option,
  none, some, List, [], ◌∷◌, if◌then◌else◌,
}
use centry.Prelude.Int.{ℤ, pos}
use centry.Prelude.Text.{text_eq}
use centry.Rewards.Types.{Field, absent, empty, malformed, int}
use centry.Runner.Values.{Action, Viem}
use centry.Runner.Policy.{Autonomy, Policy, type_of, name_of, borrow}
use centry.Runner.RiskGuard.{Snapshot, Config, Decision, is_below, evaluate_risk_guard}
use centry.Runner.RiskGuard.Decisions.{blocks, evaluate-IsDecided}

-- The actions that are not to borrow.
unfoldable pub without_borrows : List Action → List Action
without_borrows [] = []
without_borrows (a ∷ more) =
    let rest = without_borrows more in
    if text_eq (type_of a) (name_of borrow) then rest else a ∷ rest

-- `filterRiskGuardActions`; without a decision there is no guard.
unfoldable pub filter_risk_guard_actions : List Action → Option Decision → List Action
unfolding without_borrows
filter_risk_guard_actions actions none = actions
filter_risk_guard_actions actions (some d) =
    if not d.config.enabled
    then actions
    else (if not d.borrow_blocked then actions else without_borrows actions)

-- The levels of `evaluateHealthWarning`.
pub data Warning : Type 0 where
  no_health_factor : Warning
  liquidation : Warning
  critical_range : Warning
  warning : Warning
  healthy : Warning

unfoldable pub warning_at : ℤ → Warning
unfolding is_below
warning_at h =
    if is_below h 1000000000000000000
    then liquidation
    else (if is_below h 1200000000000000000
        then critical_range
        else (if is_below h 1500000000000000000 then warning else healthy))

-- `evaluateHealthWarning`, up to its texts.
unfoldable pub evaluate_health_warning : Snapshot → Warning
unfolding warning_at
evaluate_health_warning s = elim s.health_factor [
  | absent ↦ no_health_factor
  | malformed ↦ no_health_factor
  | empty ↦ warning_at (pos 0)
  | int h ↦ warning_at h
]

-- An action that is not to borrow.
abbrev pub IsNoBorrow : Action → Type 0
IsNoBorrow a = text_eq (type_of a) (name_of borrow) ≡ false

without_borrows-IsNoBorrow : (actions : List Action) → All IsNoBorrow (without_borrows actions)
unfolding without_borrows
without_borrows-IsNoBorrow [] = tt
without_borrows-IsNoBorrow (a ∷ more) = elim (Bool-cases (text_eq (type_of a) (name_of borrow))) [
  | inl e ↦ rw e (without_borrows-IsNoBorrow more)
  | inr e ↦ rw e (e, without_borrows-IsNoBorrow more)
]

without_borrows-append :
    (xs ys : List Action) → without_borrows (xs ++ ys) ≡ without_borrows xs ++ without_borrows ys
unfolding without_borrows
without_borrows-append [] ys = refl
without_borrows-append (a ∷ xs) ys = elim (Bool-cases (text_eq (type_of a) (name_of borrow))) [
  | inl e ↦ rw e (without_borrows-append xs ys)
  | inr e ↦ rw e (ap (λ rest. a ∷ rest) (without_borrows-append xs ys))
]

without_borrows-cons :
    (xs ys : List Action) (a : Action)
    → IsNoBorrow a
    → without_borrows (xs ++ a ∷ ys) ≡ without_borrows xs ++ a ∷ without_borrows ys
unfolding without_borrows
without_borrows-cons xs ys a other = without_borrows-append xs (a ∷ ys) ∙ rw other refl

filter-blocked :
    (d : Decision) (actions : List Action)
    → d.config.enabled ≡ true
    → d.borrow_blocked ≡ true
    → filter_risk_guard_actions actions (some d) ≡ without_borrows actions
unfolding filter_risk_guard_actions
filter-blocked d actions on blocked = rw (on, blocked) refl

filter-free :
    (d : Decision) (actions : List Action)
    → d.borrow_blocked ≡ false
    → filter_risk_guard_actions actions (some d) ≡ actions
unfolding filter_risk_guard_actions
filter-free d actions free = ground (arith, free)

blocks-enabled : (config : Config) (f : Field) → blocks config f ≡ true → config.enabled ≡ true
unfolding blocks
blocks-enabled config f h = ground arith

-- Where the guard gives a decision: if it is on and the health factor is below the threshold for
-- loans, then no action to borrow is left among the filtered ones; otherwise all actions are left.
-- Every other action stays where it is.
pub filter_risk_guard_actions-IsNoBorrow :
    (viem : Viem) (s : Snapshot) (autonomy : Autonomy) (policy : Policy) (d : Decision)
    (actions : List Action)
    → evaluate_risk_guard viem s autonomy policy ≡ ok d
    → (blocks d.config s.health_factor ≡ true
        → All IsNoBorrow (filter_risk_guard_actions actions (some d)))
      × (blocks d.config s.health_factor ≡ false
          → filter_risk_guard_actions actions (some d) ≡ actions)
      × ((xs ys : List Action) (a : Action)
          → IsNoBorrow a
          → filter_risk_guard_actions (xs ++ a ∷ ys) (some d)
            ≡ filter_risk_guard_actions xs (some d) ++ a ∷ filter_risk_guard_actions ys (some d))
filter_risk_guard_actions-IsNoBorrow viem s autonomy policy d actions h =
    let (_, blocked, _) = evaluate-IsDecided viem s autonomy policy d h in
    elim (Bool-cases (blocks d.config s.health_factor)) [
      | inl low ↦
          let filters : (more : List Action)
              → filter_risk_guard_actions more (some d) ≡ without_borrows more =
            λ more.
              filter-blocked d more (blocks-enabled d.config s.health_factor low) (blocked ∙ low) in
          (
            (λ _. rw (filters actions) (without_borrows-IsNoBorrow actions)),
            (λ high. let wrong : true ≡ false = sym low ∙ high in cc),
            λ xs ys a other.
                filters (xs ++ a ∷ ys)
                ∙ without_borrows-cons xs ys a other
                ∙ sym (rw (filters xs, filters ys) refl),
          )
      | inr high ↦
          let keeps : (more : List Action) → filter_risk_guard_actions more (some d) ≡ more =
            λ more. filter-free d more (blocked ∙ high) in
          (
            (λ low. let wrong : true ≡ false = sym low ∙ high in cc),
            (λ _. keeps actions),
            λ xs ys a other. keeps (xs ++ a ∷ ys) ∙ sym (rw (keeps xs, keeps ys) refl),
          )
    ]
