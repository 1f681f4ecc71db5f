-- ===== src/Runner/RiskGuard/Decisions.antt =====
-- What a decision of the guard says.
use centry.Prelude.{
  ℕ, ◌≤◌, ◌≡◌, refl, sym, inl, inr, Bool, true, false, not, ◌&&◌, Bool-cases, List, [], ok,
  ok_injective, when_ok, throw_if, throw_if-eq-ok, leb, subst, if◌then◌else◌, arith,
}
use centry.Prelude.Int.{ℤ, pos, negsuc}
use centry.Rewards.Types.{Field, absent, empty, malformed, int}
use centry.Runner.Values.{Viem, invalid_threshold_order}
use centry.Runner.Policy.{Autonomy, Policy, has, name_of, repay}
use centry.Runner.RiskGuard.{
  Snapshot, Config, Reason, risk_guard_disabled, Repay, Decision, guarded_assets, repay_loop,
  is_below, guarded, at_health, at_field, with_config, decimal_wad, risk_guard_config,
  evaluate_risk_guard, quiet, inactive_decision,
}

-- Is there a health factor that can be read, and is it below a threshold?
unfoldable pub health_below : Field → ℕ → Bool
unfolding is_below
health_below absent threshold = false
health_below malformed threshold = false
health_below empty threshold = is_below (pos 0) threshold
health_below (int h) threshold = is_below h threshold

-- Is the guard on, and the health factor low enough to block loans?
unfoldable pub blocks : Config → Field → Bool
blocks config f = config.enabled && health_below f config.stop_borrow_at_health_factor

-- Is the guard on, the health factor low enough for a repayment, and does the policy allow one?
unfoldable pub must_repay : Config → Policy → Field → Bool
must_repay config policy f =
    config.enabled
    && health_below f config.repay_at_health_factor
    && has policy.allowed_actions (name_of repay)

-- The repayments of the guard.
abbrev pub repayments : Viem → Config → Policy → Snapshot → List Repay
repayments viem config policy s =
    if must_repay config policy s.health_factor
    then repay_loop viem policy s guarded_assets []
    else []

-- The decision of a configuration that is known, by those tests.
abbrev pub IsDecided : Viem → Config → Policy → Snapshot → Decision → Type 0
IsDecided viem config policy s d =
    (d.config ≡ config)
    × (d.borrow_blocked ≡ blocks config s.health_factor)
    × (d.actions ≡ repayments viem config policy s)

-- The thresholds are in order.
abbrev pub IsOrdered : Config → Type 0
IsOrdered config =
    (config.min_health_factor ≤ config.repay_at_health_factor)
    × (config.repay_at_health_factor ≤ config.stop_borrow_at_health_factor)

is_below_mono : (h : ℤ) (m n : ℕ) → m ≤ n → is_below h n ≡ false → is_below h m ≡ false
unfolding is_below
is_below_mono (pos k) m n le h = ground arith
is_below_mono (negsuc k) m n le h = cc

risk_guard_config-IsOrdered :
    (viem : Viem) (autonomy : Autonomy) (config : Config)
    → risk_guard_config viem autonomy ≡ ok config
    → IsOrdered config
unfolding risk_guard_config
risk_guard_config-IsOrdered viem autonomy config h =
    when_ok (decimal_wad viem autonomy.risk_guard.min_health_factor _) _ h λ low _ h₁.
      when_ok (decimal_wad viem autonomy.risk_guard.repay_at_health_factor _) _ h₁ λ middle _ h₂.
        when_ok (decimal_wad viem autonomy.risk_guard.stop_borrow_at_health_factor _) _ h₂
          λ high _ h₃.
            let wrong = not (leb low middle && leb middle high) in
            when_ok (throw_if wrong invalid_threshold_order) _ h₃ λ _ e h₄.
              let passed : wrong ≡ false = throw_if-eq-ok wrong invalid_threshold_order e in
              subst IsOrdered (ok_injective h₄) (ground arith, ground arith)

module _ (viem : Viem) (config : Config) (policy : Policy) (s : Snapshot) where
  at_health-IsDecided :
      (h : ℤ)
      → IsOrdered config
      → config.enabled ≡ true
      → ((n : ℕ) → health_below s.health_factor n ≡ is_below h n)
      → IsDecided viem config policy s (at_health viem config policy s h)
  unfolding at_health guarded quiet blocks must_repay
  at_health-IsDecided h (_, order) on reads =
      elim (Bool-cases (is_below h config.stop_borrow_at_health_factor)) [
        | inl low ↦
            rw (at_health, low)
              (
                refl,
                sym (rw (on, reads config.stop_borrow_at_health_factor, low) refl),
                rw (on, reads config.repay_at_health_factor) refl,
              )
        | inr high ↦
            let safe =
              is_below_mono h config.repay_at_health_factor config.stop_borrow_at_health_factor
                order high in
            rw (at_health, high)
              (
                refl,
                sym (rw (on, reads config.stop_borrow_at_health_factor, high) refl),
                sym (rw (on, reads config.repay_at_health_factor, safe) refl),
              )
      ]

  inactive-IsDecided :
      (f : Field) (reason : Reason) (d : Decision)
      → blocks config s.health_factor ≡ false
      → must_repay config policy s.health_factor ≡ false
      → inactive_decision config f reason ≡ ok d
      → IsDecided viem config policy s d
  unfolding inactive_decision quiet
  inactive-IsDecided absent reason d free calm h =
      subst (IsDecided viem config policy s) (ok_injective h) (refl, sym free, sym (rw calm refl))
  inactive-IsDecided empty reason d free calm h =
      subst (IsDecided viem config policy s) (ok_injective h) (refl, sym free, sym (rw calm refl))
  inactive-IsDecided malformed reason d free calm h = cc
  inactive-IsDecided (int n) reason d free calm h =
      subst (IsDecided viem config policy s) (ok_injective h) (refl, sym free, sym (rw calm refl))

  at_field-IsDecided :
      (f : Field) (d : Decision)
      → s.health_factor ≡ f
      → IsOrdered config
      → config.enabled ≡ true
      → at_field viem config policy s f ≡ ok d
      → IsDecided viem config policy s d
  unfolding at_field quiet health_below blocks must_repay
  at_field-IsDecided absent d e order on h =
      inactive-IsDecided absent _ d (rw (on, e) refl) (rw (on, e) refl) h
  at_field-IsDecided malformed d e order on h =
      subst (IsDecided viem config policy s) (ok_injective h)
        (refl, sym (rw (on, e) refl), sym (rw (on, e) refl))
  at_field-IsDecided empty d e order on h =
      subst (IsDecided viem config policy s) (ok_injective h)
        (at_health-IsDecided (pos 0) order on (λ n. rw e refl))
  at_field-IsDecided (int k) d e order on h =
      subst (IsDecided viem config policy s) (ok_injective h)
        (at_health-IsDecided k order on (λ n. rw e refl))

  with_config-IsDecided :
      (d : Decision)
      → IsOrdered config
      → with_config viem s policy config ≡ ok d
      → IsDecided viem config policy s d
  unfolding with_config blocks must_repay
  with_config-IsDecided d order h =
      let chosen : Bool → Type 0 = λ on.
        (if on
          then at_field viem config policy s s.health_factor
          else inactive_decision config s.health_factor risk_guard_disabled)
        ≡ ok d in
      elim (Bool-cases config.enabled) [
        | inl on ↦ at_field-IsDecided s.health_factor d refl order on (subst chosen on h)
        | inr off ↦
            inactive-IsDecided s.health_factor _ d (rw off refl) (rw off refl) (subst chosen off h)
      ]

pub evaluate-IsDecided :
    (viem : Viem) (s : Snapshot) (autonomy : Autonomy) (policy : Policy) (d : Decision)
    → evaluate_risk_guard viem s autonomy policy ≡ ok d
    → IsOrdered d.config
      × (d.borrow_blocked ≡ blocks d.config s.health_factor)
      × (d.actions ≡ repayments viem d.config policy s)
unfolding evaluate_risk_guard
evaluate-IsDecided viem s autonomy policy d h =
    when_ok (risk_guard_config viem autonomy) _ h λ config e h₁.
      let order = risk_guard_config-IsOrdered viem autonomy config e in
      let (same, blocked, listed) = with_config-IsDecided viem config policy s d order h₁ in
      subst
        (λ (c : Config).
          IsOrdered c
          × (d.borrow_blocked ≡ blocks c s.health_factor)
          × (d.actions ≡ repayments viem c policy s))
        (sym same) (order, blocked, listed)
