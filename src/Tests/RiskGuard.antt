-- ===== src/Tests/RiskGuard.antt =====
-- The theorems on the risk guard, on a small snapshot.
use centry.Prelude.{
  ◌++◌, All, ◌*◌, ◌^◌, ◌≡◌, ◌≤◌, refl, true, false, some, List, [], ◌∷◌, length, ok, if◌then◌else◌,
  arith,
}
use centry.Prelude.Int.{pos}
use centry.Prelude.Text.{text_eq, codes}
use centry.Prelude.Trim.{big_int}
use centry.Rewards.Types.{int}
use centry.Runner.Values.{Action}
use centry.Runner.Policy.{Policy, agent_policy, has}
use centry.Runner.RiskGuard.{Snapshot, Decision, State, Reason, guarded_assets, evaluate_risk_guard}
use centry.Runner.RiskGuard
use centry.Runner.RiskGuard.Repays.{IsPayable}
use centry.Runner.RiskGuard.Decisions.{blocks, must_repay, health_below}
use centry.Runner.RiskGuard.Guarantees.{evaluate_risk_guard-IsPayable, evaluate_risk_guard-repays}
use centry.Runner.HealthActions.{
  IsNoBorrow, filter_risk_guard_actions, filter_risk_guard_actions-IsNoBorrow,
}
use centry.Tests.Runner.{viem, autonomy, supply_usdc, borrow_usdc}

-- An account with two debts and a health factor of 1.
abbrev snapshot : Snapshot
snapshot = record {
  health_factor = int (pos (10 ^ 18));
  debt = λ asset. if text_eq asset (codes "EURC") then 0 else 7000000;
  balance = λ asset. 5000000;
}

abbrev policy : Policy
policy = agent_policy autonomy

abbrev decision : Decision
decision = record {
  config = record {
    enabled = true;
    min_health_factor = 2 * 10 ^ 18;
    repay_at_health_factor = 3 * 10 ^ 18;
    stop_borrow_at_health_factor = 4 * 10 ^ 18;
  };
  health_factor = some (pos (10 ^ 18));
  state = State.critical;
  borrow_blocked = true;
  actions =
      record { asset = codes "USDC"; amount = 1000000 }
      ∷ record { asset = codes "CIRBTC"; amount = 5000000 }
      ∷ [];
  reason = Reason.deterministic_repay_required;
}

decided : evaluate_risk_guard viem snapshot autonomy policy ≡ ok decision
unfolding evaluate_risk_guard RiskGuard.risk_guard_config big_int has agent_policy text_eq
    RiskGuard.repay_loop
decided = refl

evaluate_risk_guard-IsPayable_example :
    (length decision.actions ≤ 2)
    × All (IsPayable viem policy snapshot) decision.actions
    × (must_repay decision.config policy snapshot.health_factor ≡ false → decision.actions ≡ [])
evaluate_risk_guard-IsPayable_example =
    evaluate_risk_guard-IsPayable viem snapshot autonomy policy decision decided

due : must_repay decision.config policy snapshot.health_factor ≡ true
unfolding must_repay health_below has agent_policy text_eq
due = refl

usdc_guarded : has guarded_assets (codes "USDC") ≡ true
unfolding has text_eq
usdc_guarded = refl

usdc_owed : 1 ≤ snapshot.debt (codes "USDC")
unfolding text_eq
usdc_owed = omega arith

evaluate_risk_guard-repays_example : 1 ≤ length decision.actions
evaluate_risk_guard-repays_example =
    evaluate_risk_guard-repays viem snapshot autonomy policy decision (codes "USDC") decided due
      usdc_guarded usdc_owed (omega arith)

filter_risk_guard_actions-IsNoBorrow_example :
    (blocks decision.config snapshot.health_factor ≡ true
      → All IsNoBorrow (filter_risk_guard_actions (borrow_usdc ∷ supply_usdc ∷ []) (some decision)))
    × (blocks decision.config snapshot.health_factor ≡ false
        → filter_risk_guard_actions (borrow_usdc ∷ supply_usdc ∷ []) (some decision)
          ≡ borrow_usdc ∷ supply_usdc ∷ [])
    × ((xs ys : List Action) (a : Action)
        → IsNoBorrow a
        → filter_risk_guard_actions (xs ++ a ∷ ys) (some decision)
          ≡ filter_risk_guard_actions xs (some decision)
            ++ a ∷ filter_risk_guard_actions ys (some decision))
filter_risk_guard_actions-IsNoBorrow_example =
    filter_risk_guard_actions-IsNoBorrow viem snapshot autonomy policy decision
      (borrow_usdc ∷ supply_usdc ∷ []) decided
