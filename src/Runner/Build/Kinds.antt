-- ===== src/Runner/Build/Kinds.antt =====
-- Every action sends its calls where they are meant to go.
use centry.Prelude.{
  ℕ, ◌≡◌, refl, sym, ◌∙◌, Bool, true, false, not, ◌||◌, some, ok, ok_injective, when_ok, throw_if,
  throw_if-eq-ok, subst, if◌then◌else◌, arith,
}
use centry.Prelude.Text.{Text, text_eq, text_eq_refl, to_lower_case}
use centry.Prelude.Trim.{trim}
use centry.Runner.Values.{
  Payload, Action, lending_pool, unitflow_router, governor, unitflow_fees, tokens, first_text,
  text_or_empty, asset_address, address_of, positive_uint, unsupported_swap_direction,
  unsupported_fee, transfer_target_required, transfer_target_not_found,
}
use centry.Runner.Values.Bounds.{address_of-eq, positive_uint_pos}
use centry.Runner.Batch.{
  is_fee, Agent, Batch, same_address, quote_exact_input, push_approval, ensure_batch_allowance,
}
use centry.Runner.Build.{
  Context, amount_of, spender_of, minimum_of, build_approve, build_pool_call, build_swap,
  build_transfer, build_vote,
}
use centry.Runner.Conditions.{
  check_spender, non_empty, found, check_owner, verify_agent_genesis, support_of, slippage_of,
  fee_of, is_token,
}
use centry.Runner.Build.Sent.{
  is_spender, IsOwnAgent, IsSound, asset_address-is_token, push_call-IsSound, push_approval-IsSound,
  set_allowance-IsSound, ensured-IsSound,
}
use centry.Runner.Build.Checks.{
  amount_of_pos, check_spender-is_spender, check_owner-same, found-eq, support_of_bound,
  verify_agent_genesis-genuine,
}

or_true : (b : Bool) → (b || true) ≡ true
or_true b = ground arith

pool_is_spender : is_spender lending_pool ≡ true
unfolding same_address
pool_is_spender = rw (text_eq_refl (to_lower_case lending_pool)) refl

router_is_spender : is_spender unitflow_router ≡ true
unfolding same_address
router_is_spender =
    rw (text_eq_refl (to_lower_case unitflow_router))
      (or_true (same_address unitflow_router lending_pool))

is_fee_of :
    (fee : ℕ)
    → throw_if (not (is_fee fee unitflow_fees)) unsupported_fee ≡ ok tt
    → is_fee fee unitflow_fees ≡ true
is_fee_of fee h =
    let passed = throw_if-eq-ok (not (is_fee fee unitflow_fees)) unsupported_fee h in ground arith

module _ (x : Context) where
  ensured_if :
      (spends : Bool) (b c : Batch) (asset : Text) (amount : ℕ)
      → is_token asset tokens ≡ true
      → IsSound x b
      → (if spends then ensure_batch_allowance x.viem x.reads b asset lending_pool amount else ok b)
        ≡ ok c
      → IsSound x c
  ensured_if true b c asset amount known s h =
      ensured-IsSound x b c asset lending_pool amount known pool_is_spender s h
  ensured_if false b c asset amount known s h = subst (IsSound x) (ok_injective h) s

  pub build_approve-IsSound :
      (b c : Batch) (a : Action) → IsSound x b → build_approve x b a ≡ ok c → IsSound x c
  unfolding build_approve
  build_approve-IsSound b c a s h = when_ok (asset_address a.asset) _ h λ asset e h₁.
      when_ok (amount_of x a.amount a.asset) _ h₁ λ amount _ h₂.
        when_ok (spender_of x a.spender) _ h₂ λ spender _ h₃.
          when_ok (check_spender spender asset) _ h₃ λ _ e₁ h₄.
            when_ok (push_approval x.viem b asset spender amount) _ h₄ λ d e₂ h₅.
              subst (IsSound x) (ok_injective h₅) (
                set_allowance-IsSound x d asset spender amount (
                  push_approval-IsSound x b d asset spender amount
                    (asset_address-is_token a.asset asset e)
                    (check_spender-is_spender spender asset e₁) s e₂))

  pub build_pool_call-IsSound :
      (spends : Bool) (function : Text) (b c : Batch) (a : Action)
      → IsSound x b
      → build_pool_call x spends function b a ≡ ok c
      → IsSound x c
  unfolding build_pool_call
  build_pool_call-IsSound spends function b c a s h =
      when_ok (asset_address a.asset) _ h λ asset e h₁.
        when_ok (amount_of x a.amount a.asset) _ h₁ λ amount e₁ h₂.
          let known = asset_address-is_token a.asset asset e in
          when_ok
            (if spends
              then ensure_batch_allowance x.viem x.reads b asset lending_pool amount
              else ok b)
            _ h₂
            λ d e₂ h₃.
              push_call-IsSound x d c lending_pool _
                (refl, known, amount_of_pos x a.amount a.asset amount e₁)
                (ensured_if spends b d asset amount known s e₂) h₃

  pub build_swap-IsSound :
      (b c : Batch) (a : Action) → IsSound x b → build_swap x b a ≡ ok c → IsSound x c
  unfolding build_swap
  build_swap-IsSound b c a s h =
      let input_text = first_text a.asset a.input_token in
      let output_text = first_text a.to_asset a.output_token in
      when_ok (asset_address input_text) _ h λ input e h₁.
        when_ok (asset_address output_text) _ h₁ λ output e₁ h₂.
          when_ok (throw_if (text_eq input output) unsupported_swap_direction) _ h₂ λ _ e₂ h₃.
            when_ok (amount_of x a.amount input_text) _ h₃ λ amount e₃ h₄.
              when_ok
                (quote_exact_input (λ fee. x.reads.quote input fee output amount)
                  (slippage_of a x.autonomy))
                _ h₄
                λ quoted _ h₅. when_ok (fee_of a.fee quoted.0) _ h₅ λ fee _ h₆.
                  when_ok (throw_if (not (is_fee fee unitflow_fees)) unsupported_fee) _ h₆
                    λ _ e₄ h₇.
                      when_ok (minimum_of x a.min_out output_text quoted.1) _ h₇ λ minimum _ h₈.
                        let known = asset_address-is_token input_text input e in
                        when_ok
                          (ensure_batch_allowance x.viem x.reads b input unitflow_router amount) _
                          h₈
                          λ d e₅ h₉.
                            push_call-IsSound x d c unitflow_router _
                              (
                                refl,
                                known,
                                asset_address-is_token output_text output e₁,
                                throw_if-eq-ok _ unsupported_swap_direction e₂,
                                is_fee_of fee e₄,
                                refl,
                                amount_of_pos x a.amount input_text amount e₃,
                              )
                              (ensured-IsSound x b d input unitflow_router amount known
                                router_is_spender s e₅)
                              h₉

  own_agent :
      (id : Text) (row : Agent) (factory account : Text)
      → x.reads.agent_by_id id ≡ some row
      → same_address row.owner x.agent.owner ≡ true
      → verify_agent_genesis x.viem x.reads x.agent.account row.account ≡ ok factory
      → x.viem.get_address row.account ≡ some account
      → IsOwnAgent x account
  own_agent id row factory account e owned g h =
      let (verified, e₁, made, registered) =
        verify_agent_genesis-genuine x.viem x.reads x.agent.account row.account factory g in
      let same : some verified ≡ some account = sym e₁ ∙ h in
      let eq : verified ≡ account = cc in
      (id, row, factory, e, owned, h, made, rw (← eq) registered)

  pub build_transfer-IsSound :
      (b c : Batch) (a : Action) → IsSound x b → build_transfer x b a ≡ ok c → IsSound x c
  unfolding build_transfer
  build_transfer-IsSound b c a s h =
      when_ok (non_empty (trim (text_or_empty a.to_agent_id)) transfer_target_required) _ h
        λ id _ h₁.
          when_ok (found (x.reads.agent_by_id id) transfer_target_not_found) _ h₁ λ row e h₂.
            when_ok (check_owner x.agent row) _ h₂ λ _ e₁ h₃.
              when_ok (verify_agent_genesis x.viem x.reads x.agent.account row.account) _ h₃
                λ factory e₂ h₄. when_ok (asset_address a.asset) _ h₄ λ asset e₃ h₅.
                  when_ok (amount_of x a.amount a.asset) _ h₅ λ amount e₄ h₆.
                    when_ok (address_of x.viem row.account) _ h₆ λ account e₅ h₇.
                      push_call-IsSound x b c x.account _
                        (
                          refl,
                          asset_address-is_token a.asset asset e₃,
                          own_agent id row factory account
                              (found-eq (x.reads.agent_by_id id) transfer_target_not_found row e)
                              (check_owner-same x.agent row e₁) e₂
                              (address_of-eq x.viem row.account account e₅),
                          amount_of_pos x a.amount a.asset amount e₄,
                        )
                        s h₇

  pub build_vote-IsSound :
      (b c : Batch) (a : Action) → IsSound x b → build_vote x b a ≡ ok c → IsSound x c
  unfolding build_vote
  build_vote-IsSound b c a s h = when_ok (positive_uint a.proposal_id) _ h λ proposal e h₁.
      when_ok (support_of a.support) _ h₁ λ support e₁ h₂.
        push_call-IsSound x b c governor (Payload.cast_vote proposal support)
          (refl, positive_uint_pos a.proposal_id proposal e, support_of_bound a.support support e₁)
          s h₂
