-- ===== src/Runner/Ledger/Builds.antt =====
-- Every action that is built leads from a ledger to a ledger.
use centry.Prelude.{
  ℕ, ◌≡◌, refl, Option, none, some, List, [], ◌∷◌, ok, ok_injective, when_ok, subst, sym,
}
use centry.Prelude.Text.{Text, text_eq}
use centry.Runner.Values.{Payload, Action}
use centry.Runner.Policy.{Policy, Kind, type_of, kind_of, assert_action_policy}
use centry.Runner.Batch.{Batch, pair_key}
use centry.Runner.Build.{Context, build_kind, build_action, build_loop}
use centry.Runner.Build.Pushes.{IsDraw, IsPlain, Pushes, approved, drawn, called, build_kind-Pushes}
use centry.Runner.Ledger.{Ledger, put, run_payload, approves_payload, KeepsAddresses, Shows}
use centry.Runner.Ledger.Tracks.{Tracks}
use centry.Runner.Ledger.Steps.{
  IsNeutral, Spends, push_call-Tracks, push_approval-Tracks, ensured-Tracks,
}

IsDraw-Spends :
    (k : Kind) (token : Text) (amount : ℕ) (p : Payload)
    → IsDraw k token amount p
    → Spends token amount p
unfolding run_payload approves_payload text_eq
IsDraw-Spends Kind.supply token amount p e =
    subst (Spends token amount) (sym e) ((λ l t. refl), (λ k t. refl))
IsDraw-Spends Kind.repay token amount p e =
    subst (Spends token amount) (sym e) ((λ l t. refl), (λ k t. refl))
IsDraw-Spends Kind.swap token amount p (_, _, _, _, _, e) =
    subst (Spends token amount) (sym e) ((λ l t. refl), (λ k t. refl))
IsDraw-Spends Kind.approve token amount p e = cc
IsDraw-Spends Kind.withdraw token amount p e = cc
IsDraw-Spends Kind.borrow token amount p e = cc
IsDraw-Spends Kind.transfer token amount p e = cc
IsDraw-Spends Kind.cast_vote token amount p e = cc

IsPlain-IsNeutral : (k : Kind) (p : Payload) → IsPlain k p → IsNeutral p
unfolding run_payload approves_payload text_eq
IsPlain-IsNeutral Kind.withdraw p (_, _, e) = subst IsNeutral (sym e) ((λ l t. refl), (λ k t. refl))
IsPlain-IsNeutral Kind.borrow p (_, _, e) = subst IsNeutral (sym e) ((λ l t. refl), (λ k t. refl))
IsPlain-IsNeutral Kind.transfer p (_, _, _, e) =
    subst IsNeutral (sym e) ((λ l t. refl), (λ k t. refl))
IsPlain-IsNeutral Kind.cast_vote p (_, _, e) =
    subst IsNeutral (sym e) ((λ l t. refl), (λ k t. refl))
IsPlain-IsNeutral Kind.approve p e = cc
IsPlain-IsNeutral Kind.supply p e = cc
IsPlain-IsNeutral Kind.repay p e = cc
IsPlain-IsNeutral Kind.swap p e = cc

-- From every ledger that the first batch leads to, some ledger that the second leads to.
abbrev pub Leads : Ledger → Batch → Batch → Type 0
Leads before b c =
    (ledger : Ledger) → Tracks before b ledger → (after : Ledger) × Tracks before c after

module _ (x : Context) (before : Ledger) (keeps : KeepsAddresses x.viem)
    (shows : Shows x.reads before) where
  Pushes-Leads : (k : Kind) (b c : Batch) → Pushes x k b c → Leads before b c
  Pushes-Leads k b c (approved _ (token, spender, amount, d, e, same)) ledger t = (
    put ledger (pair_key token spender) amount,
    subst (λ c. Tracks before c (put ledger (pair_key token spender) amount)) same
        (push_approval-Tracks x before keeps b d token spender amount ledger t e),
  )
  Pushes-Leads k b c (drawn (token, spender, amount, payload, d, draw, e, h)) ledger t =
      ensured-Tracks x before keeps shows b d c token spender amount payload ledger
        (IsDraw-Spends k token amount payload draw) t e h
  Pushes-Leads k b c (called (target, payload, plain, h)) ledger t = (
    ledger,
    push_call-Tracks x before keeps b c target payload ledger (IsPlain-IsNeutral k payload plain) t
        h,
  )

  build_kind-Leads :
      (kind : Option Kind) (b c : Batch) (a : Action)
      → build_kind x kind b a ≡ ok c
      → Leads before b c
  unfolding build_kind
  build_kind-Leads none b c a h = cc
  build_kind-Leads (some k) b c a h = Pushes-Leads k b c (build_kind-Pushes x k b c a h)

  pub build_loop-Leads :
      (policy : Policy) (actions : List Action) (b c : Batch)
      → build_loop x policy actions b ≡ ok c
      → Leads before b c
  unfolding build_loop build_action
  build_loop-Leads policy [] b c h ledger t =
      (ledger, subst (λ c. Tracks before c ledger) (ok_injective h) t)
  build_loop-Leads policy (a ∷ more) b c h ledger t =
      when_ok (build_action x policy b a) _ h λ d e h₁.
        when_ok (assert_action_policy x.viem x.human policy a) _ e λ _ _ e₁.
          let (middle, t₁) = build_kind-Leads (kind_of (type_of a)) b d a e₁ ledger t in
          build_loop-Leads policy more d c h₁ middle t₁
