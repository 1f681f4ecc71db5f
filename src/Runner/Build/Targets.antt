-- ===== src/Runner/Build/Targets.antt =====
-- Every call of a batch goes where it is meant to.
use centry.Prelude.{
  ◌≤◌, ◌≡◌, ◌⊎◌, sym, inl, inr, Bool, true, false, Option, none, some, List, [], ◌∷◌, All, length,
  ok, ok_injective, when_ok, subst,
}
use centry.Prelude.Text.{Text}
use centry.Runner.Values.{Payload, Viem, Action}
use centry.Runner.Values.Bounds.{address_of-eq}
use centry.Runner.Policy.{
  Policy, Autonomy, Kind, type_of, kind_of, agent_policy, assert_action_policy,
}
use centry.Runner.Batch.{Agent, Reads, Call, Batch, empty_batch}
use centry.Runner.Build.{
  Context, push_call, build_kind, build_action, build_loop, reset_loop, build_calls,
}
use centry.Runner.Build.Parts.{Parts, context, build_calls-Parts}
use centry.Runner.Build.Sent.{IsSent, IsOwn, IsSound, push_call-IsSound}
use centry.Runner.Build.Kinds.{
  build_approve-IsSound, build_pool_call-IsSound, build_swap-IsSound, build_transfer-IsSound,
  build_vote-IsSound,
}

module _ (x : Context) where
  build_kind-IsSound :
      (kind : Option Kind) (b c : Batch) (a : Action)
      → IsSound x b
      → build_kind x kind b a ≡ ok c
      → IsSound x c
  unfolding build_kind
  build_kind-IsSound none b c a s h = cc
  build_kind-IsSound (some Kind.approve) b c a s h = build_approve-IsSound x b c a s h
  build_kind-IsSound (some Kind.supply) b c a s h = build_pool_call-IsSound x true _ b c a s h
  build_kind-IsSound (some Kind.withdraw) b c a s h = build_pool_call-IsSound x false _ b c a s h
  build_kind-IsSound (some Kind.borrow) b c a s h = build_pool_call-IsSound x false _ b c a s h
  build_kind-IsSound (some Kind.repay) b c a s h = build_pool_call-IsSound x true _ b c a s h
  build_kind-IsSound (some Kind.swap) b c a s h = build_swap-IsSound x b c a s h
  build_kind-IsSound (some Kind.transfer) b c a s h = build_transfer-IsSound x b c a s h
  build_kind-IsSound (some Kind.cast_vote) b c a s h = build_vote-IsSound x b c a s h

  build_loop-IsSound :
      (policy : Policy) (actions : List Action) (b c : Batch)
      → IsSound x b
      → build_loop x policy actions b ≡ ok c
      → IsSound x c
  unfolding build_loop build_action
  build_loop-IsSound policy [] b c s h = subst (IsSound x) (ok_injective h) s
  build_loop-IsSound policy (a ∷ more) b c s h = when_ok (build_action x policy b a) _ h λ d e h₁.
      when_ok (assert_action_policy x.viem x.human policy a) _ e λ _ _ e₁.
        build_loop-IsSound policy more d c (build_kind-IsSound (kind_of (type_of a)) b d a s e₁) h₁

  reset_loop-IsSound :
      (entries : List (Text × (Text × Text))) (b c : Batch)
      → All IsOwn entries
      → IsSound x b
      → reset_loop x entries b ≡ ok c
      → IsSound x c
  unfolding reset_loop
  reset_loop-IsSound [] b c own s h = subst (IsSound x) (ok_injective h) s
  reset_loop-IsSound ((key, (token, spender)) ∷ entries) b c (here, own) s h =
      when_ok (push_call x b token (Payload.approve spender 0)) _ h λ d e h₁.
        reset_loop-IsSound entries d c own
          (push_call-IsSound x b d token (Payload.approve spender 0) here s e) h₁

  Parts-IsSent :
      (actions : List Action) (calls : List Call) → Parts x actions calls → All (IsSent x) calls
  Parts-IsSent actions calls parts =
      let s =
        build_loop-IsSound (agent_policy x.autonomy) actions empty_batch parts.built
          (record { sent = tt; own = tt }) parts.loop in
      subst (All (IsSent x)) parts.result
        (reset_loop-IsSound parts.built.cleanup parts.built parts.reset s.own s parts.resets).sent

-- Where `buildCalls` gives calls at all, they are 1 to 32, and each has as target the address of
-- one that its payload is meant for: an approval goes to a known token and names the lending pool
-- or the router as its spender; a supply, withdrawal, loan or repayment goes to the pool, for a
-- known token; a swap goes to the router, between two different known tokens, at one of the fee
-- tiers, and pays out to the agent's account; a transfer goes through the agent's account to an
-- agent of the same owner, which the worker's factory has registered; a vote goes to the governor
-- and is 0, 1 or 2. What is supplied, withdrawn, borrowed, repaid, swapped or transferred is
-- positive.
pub build_calls-IsSent :
    (viem : Viem) (reads : Reads) (agent : Agent) (autonomy : Autonomy) (human : Bool)
    (actions : List Action) (calls : List Call)
    → build_calls viem reads agent autonomy human actions ≡ ok calls
    → (calls ≡ [])
      ⊎ ((account : Text) × (viem.get_address agent.account ≡ some account)
          × All (IsSent (context viem reads agent autonomy human account)) calls
          × (1 ≤ length calls)
          × (length calls ≤ 32))
unfolding build_calls
build_calls-IsSent viem reads agent autonomy human [] calls h = inl (sym (ok_injective h))
build_calls-IsSent viem reads agent autonomy human (a ∷ more) calls h =
    let (account, _, e, parts) = build_calls-Parts viem reads agent autonomy human a more calls h in
    let x = context viem reads agent autonomy human account in
    inr (
      account,
      address_of-eq viem agent.account account e,
      Parts-IsSent x (a ∷ more) calls parts,
      subst (λ (cs : List Call). 1 ≤ length cs) parts.result parts.some_calls,
      subst (λ (cs : List Call). length cs ≤ 32) parts.result parts.few_calls,
    )
