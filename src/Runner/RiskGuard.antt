-- ===== src/Runner/RiskGuard.antt =====
-- The guard of an agent's health factor, in agent-runner/src/index.js.
pub mod Repays
pub mod Decisions
pub mod Guarantees
use centry.Prelude.{
  ℕ, zero, suc, ◌+◌, ◌≤◌, Bool, true, false, not, ◌&&◌, ◌||◌, Option, none, some, List, [], ◌∷◌,
  ◌++◌, length, Result, ok, err, ◌>>=◌, ◌>>◌, throw_if, ltb, leb, if◌then◌else◌,
}
use centry.Prelude.Int.{ℤ, pos, negsuc}
use centry.Prelude.Text.{Text, text_eq, codes}
use centry.Prelude.Trim.{trim}
use centry.Prelude.Assoc.{lookup}
use centry.Rewards.Types.{Field, absent, empty, malformed, int}
use centry.Runner.Values.{
  Error, invalid_threshold, invalid_threshold_order, not_an_integer, Viem, Action, text_or_empty,
  amount_in_units,
}
use centry.Runner.Policy.{
  Autonomy, Policy, has, is_blank, cap_text, type_of, name_of, repay, borrow,
}

-- What the guard reads of a snapshot of the account: the health factor, the debts and the balances.
pub record Snapshot : Type 0 where
  pub health_factor : Field
  pub debt : Text → ℕ
  pub balance : Text → ℕ

-- The thresholds, with 18 decimals behind the point.
pub record Config : Type 0 where
  pub enabled : Bool
  pub min_health_factor : ℕ
  pub repay_at_health_factor : ℕ
  pub stop_borrow_at_health_factor : ℕ

pub data State : Type 0 where
  inactive : State
  unknown : State
  normal : State
  critical : State
  protection : State
  borrow_restricted : State

pub data Reason : Type 0 where
  health_factor_unavailable : Reason
  risk_guard_disabled : Reason
  health_factor_invalid : Reason
  health_factor_above_guard : Reason
  deterministic_repay_required : Reason
  repay_liquidity_unavailable : Reason
  repay_not_allowed_by_policy : Reason

-- A repayment that the guard asks for, in the smallest units.
pub record Repay : Type 0 where
  pub asset : Text
  pub amount : ℕ

pub record Decision : Type 0 where
  pub config : Config
  pub health_factor : Option ℤ
  pub state : State
  pub borrow_blocked : Bool
  pub actions : List Repay
  pub reason : Reason

unfoldable pub text_or : Text → Option Text → Text
text_or default none = default
text_or default (some t) = t

-- The assets that the guard repays, in this order.
abbrev pub guarded_assets : List Text
guarded_assets = codes "USDC" ∷ codes "EURC" ∷ codes "CIRBTC" ∷ []

-- `amount > cap` with the cap.
unfoldable pub capped : Option ℕ → ℕ → ℕ
capped none amount = amount
capped (some cap) amount = if ltb 0 cap && ltb cap amount then cap else amount

module _ (viem : Viem) where
  -- `decimalWad`
  unfoldable pub decimal_wad : Option Text → Text → Result Error ℕ
  unfolding text_or
  decimal_wad value fallback = elim (viem.parse_units (trim (text_or fallback value)) 18) [
    | some (pos (suc n)) ↦ ok (suc n)
    | other ↦ err invalid_threshold
  ]

  -- `riskGuardConfig`
  unfoldable pub risk_guard_config : Autonomy → Result Error Config
  unfolding decimal_wad
  risk_guard_config autonomy = do
    low ← decimal_wad autonomy.risk_guard.min_health_factor (codes "1.50")
    middle ← decimal_wad autonomy.risk_guard.repay_at_health_factor (codes "1.65")
    high ← decimal_wad autonomy.risk_guard.stop_borrow_at_health_factor (codes "1.80")
    throw_if (not (leb low middle && leb middle high)) invalid_threshold_order
    ok (record {
      enabled = autonomy.risk_guard.enabled;
      min_health_factor = low;
      repay_at_health_factor = middle;
      stop_borrow_at_health_factor = high;
    })

  -- A cap that is blank or cannot be read counts as none.
  unfoldable pub readable_cap : Text → Text → Option ℕ
  unfolding amount_in_units
  readable_cap asset cap =
      if is_blank (trim cap)
      then none
      else elim (amount_in_units viem (some cap) asset) [ ok n ↦ some n | err e ↦ none ]

  -- `maxPolicyAmountRaw`
  unfoldable pub max_policy_amount_raw : Policy → Text → Option ℕ
  unfolding lookup readable_cap
  max_policy_amount_raw policy asset = elim (lookup asset policy.max_amount_by_asset) [
    | none ↦ none
    | some none ↦ none
    | some (some cap) ↦ readable_cap asset cap
  ]

  unfoldable pub repay_amount : Policy → Snapshot → Text → ℕ
  unfolding capped max_policy_amount_raw
  repay_amount policy s asset =
      capped (max_policy_amount_raw policy asset)
        (if ltb (s.debt asset) (s.balance asset) then s.debt asset else s.balance asset)

  -- One round of the loop: `none` is a `continue`.
  unfoldable pub repay_of : Policy → Snapshot → Text → Option Repay
  unfolding repay_amount
  repay_of policy s asset =
      if ltb (s.debt asset) 1 || ltb (s.balance asset) 1 || ltb (repay_amount policy s asset) 1
      then none
      else some (record { asset = asset; amount = repay_amount policy s asset })

  -- The loop, with the actions so far; it stops at two.
  unfoldable pub repay_loop : Policy → Snapshot → List Text → List Repay → List Repay
  unfolding repay_of
  repay_loop policy s [] actions = actions
  repay_loop policy s (asset ∷ assets) actions = elim (repay_of policy s asset) [
    | none ↦ repay_loop policy s assets actions
    | some r ↦ elim (leb 2 (length actions + 1)) [
      | true ↦ actions ++ r ∷ []
      | false ↦ repay_loop policy s assets (actions ++ r ∷ [])
    ]
  ]

-- `healthFactor < threshold`
unfoldable pub is_below : ℤ → ℕ → Bool
is_below (negsuc n) threshold = true
is_below (pos h) threshold = ltb h threshold

unfoldable pub state_of : Config → ℤ → State
unfolding is_below
state_of config h =
    if is_below h config.min_health_factor
    then critical
    else (if is_below h config.repay_at_health_factor then protection else borrow_restricted)

unfoldable pub reason_of : Bool → List Repay → Reason
reason_of allowed (r ∷ rs) = deterministic_repay_required
reason_of allowed [] = if allowed then repay_liquidity_unavailable else repay_not_allowed_by_policy

-- The answer of a guard that does nothing.
unfoldable pub quiet : Config → Option ℤ → State → Reason → Decision
quiet config h state reason = record {
  config = config;
  health_factor = h;
  state = state;
  borrow_blocked = false;
  actions = [];
  reason = reason;
}

-- The answer of a guard that is off, or has no health factor: the factor is read where it is true
-- for a condition, and then what is no integer throws.
unfoldable pub inactive_decision : Config → Field → Reason → Result Error Decision
unfolding quiet
inactive_decision config absent reason = ok (quiet config none inactive reason)
inactive_decision config empty reason = ok (quiet config none inactive reason)
inactive_decision config malformed reason = err not_an_integer
inactive_decision config (int n) reason = ok (quiet config (some n) inactive reason)

module _ (viem : Viem) where
  -- The answer at a health factor below the highest threshold.
  unfoldable pub guarded : Config → Policy → Snapshot → ℤ → Decision
  unfolding state_of reason_of is_below
  guarded config policy s h =
      let allowed = has policy.allowed_actions (name_of repay) in
      let actions =
        if is_below h config.repay_at_health_factor && allowed
        then repay_loop viem policy s guarded_assets []
        else [] in
      record {
        config = config;
        health_factor = some h;
        state = state_of config h;
        borrow_blocked = true;
        actions = actions;
        reason = reason_of allowed actions;
      }

  unfoldable pub at_health : Config → Policy → Snapshot → ℤ → Decision
  unfolding guarded quiet is_below
  at_health config policy s h =
      if is_below h config.stop_borrow_at_health_factor
      then guarded config policy s h
      else quiet config (some h) normal health_factor_above_guard

  -- The health factor, read. A number in the snapshot is a text, so 0 counts as one that is there.
  unfoldable pub at_field : Config → Policy → Snapshot → Field → Result Error Decision
  unfolding at_health quiet inactive_decision
  at_field config policy s absent = inactive_decision config absent health_factor_unavailable
  at_field config policy s malformed = ok (quiet config none unknown health_factor_invalid)
  at_field config policy s empty = ok (at_health config policy s (pos 0))
  at_field config policy s (int h) = ok (at_health config policy s h)

  unfoldable pub with_config : Snapshot → Policy → Config → Result Error Decision
  unfolding inactive_decision at_field
  with_config s policy config =
      if config.enabled
      then at_field config policy s s.health_factor
      else inactive_decision config s.health_factor risk_guard_disabled

  -- `evaluateRiskGuard`
  unfoldable pub evaluate_risk_guard : Snapshot → Autonomy → Policy → Result Error Decision
  unfolding with_config
  evaluate_risk_guard s autonomy policy = risk_guard_config viem autonomy >>= with_config s policy
