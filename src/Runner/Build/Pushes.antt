-- ===== src/Runner/Build/Pushes.antt =====
-- What each action adds to the batch, read off the builders once for all proofs that need no more.
use centry.Prelude.{
  ℕ, ◌≡◌, refl, true, false, not, some, ok, ok_injective, when_ok, ◌>>=◌, throw_if,
}
use centry.Prelude.Text.{Text, text_eq}
use centry.Prelude.Trim.{trim}
use centry.Runner.Values.{
  Payload, Action, lending_pool, unitflow_router, governor, unitflow_fees, first_text,
  text_or_empty, asset_address, address_of, positive_uint, unsupported_swap_direction,
  unsupported_fee, transfer_target_required, transfer_target_not_found,
}
use centry.Runner.Policy.{Kind, name_of}
use centry.Runner.Batch.{
  Batch, is_fee, set_allowance, quote_exact_input, push_approval, ensure_batch_allowance,
}
use centry.Runner.Build.{
  Context, amount_of, push_call, spender_of, minimum_of, build_approve, build_pool_call, build_swap,
  build_transfer, build_vote, build_kind,
}
use centry.Runner.Conditions.{
  check_spender, non_empty, found, check_owner, verify_agent_genesis, support_of, slippage_of,
  fee_of,
}

-- A payload by which its target takes an amount of a token, for the kinds that have one.
abbrev pub IsDraw : Kind → Text → ℕ → Payload → Type 0
IsDraw Kind.supply token amount p = p ≡ Payload.pool_call (name_of Kind.supply) token amount
IsDraw Kind.repay token amount p = p ≡ Payload.pool_call (name_of Kind.repay) token amount
IsDraw Kind.swap token amount p =
    (token_out : Text) × (fee : ℕ) × (recipient : Text) × (deadline : ℕ) × (minimum : ℕ) × (p
      ≡ Payload.exact_input token token_out fee recipient deadline amount minimum)
IsDraw other token amount p = true ≡ false

-- A payload that takes nothing, for the other kinds.
abbrev pub IsPlain : Kind → Payload → Type 0
IsPlain Kind.withdraw p =
    (asset : Text) × (amount : ℕ) × (p ≡ Payload.pool_call (name_of Kind.withdraw) asset amount)
IsPlain Kind.borrow p =
    (asset : Text) × (amount : ℕ) × (p ≡ Payload.pool_call (name_of Kind.borrow) asset amount)
IsPlain Kind.transfer p =
    (asset : Text) × (account : Text) × (amount : ℕ) × (p
      ≡ Payload.transfer_to_agent asset account amount)
IsPlain Kind.cast_vote p = (proposal : ℕ) × (support : ℕ) × (p ≡ Payload.cast_vote proposal support)
IsPlain other p = true ≡ false

module _ (x : Context) where
  -- An approval.
  abbrev pub Approves : Batch → Batch → Type 0
  Approves b c =
      (token : Text) × (spender : Text) × (amount : ℕ) × (d : Batch) × (push_approval x.viem b token
          spender amount
        ≡ ok d)
      × (set_allowance d token spender amount ≡ c)

  -- A call that takes an amount, with the allowance that it needs.
  abbrev pub Draws : Kind → Batch → Batch → Type 0
  Draws k b c =
      (token : Text) × (spender : Text) × (amount : ℕ) × (payload : Payload) × (d : Batch) × IsDraw
        k token amount payload
      × (ensure_batch_allowance x.viem x.reads b token spender amount ≡ ok d)
      × (push_call x d spender payload ≡ ok c)

  -- Any other call.
  abbrev pub Calls : Kind → Batch → Batch → Type 0
  Calls k b c =
      (target : Text) × (payload : Payload) × IsPlain k payload
      × (push_call x b target payload ≡ ok c)

  build_approve-Approves : (b c : Batch) (a : Action) → build_approve x b a ≡ ok c → Approves b c
  unfolding build_approve
  build_approve-Approves b c a h = when_ok (asset_address a.asset) _ h λ asset _ h₁.
      when_ok (amount_of x a.amount a.asset) _ h₁ λ amount _ h₂.
        when_ok (spender_of x a.spender) _ h₂ λ spender _ h₃.
          when_ok (check_spender spender asset) _ h₃ λ _ _ h₄.
            when_ok (push_approval x.viem b asset spender amount) _ h₄
              λ d e h₅. (asset, spender, amount, d, e, ok_injective h₅)

  build_supply-Draws :
      (b c : Batch) (a : Action)
      → build_pool_call x true (name_of Kind.supply) b a ≡ ok c
      → Draws Kind.supply b c
  unfolding build_pool_call
  build_supply-Draws b c a h = when_ok (asset_address a.asset) _ h λ asset _ h₁.
      when_ok (amount_of x a.amount a.asset) _ h₁ λ amount _ h₂.
        when_ok (ensure_batch_allowance x.viem x.reads b asset lending_pool amount) _ h₂
          λ d e h₃. (asset, lending_pool, amount, _, d, refl, e, h₃)

  build_repay-Draws :
      (b c : Batch) (a : Action)
      → build_pool_call x true (name_of Kind.repay) b a ≡ ok c
      → Draws Kind.repay b c
  unfolding build_pool_call
  build_repay-Draws b c a h = when_ok (asset_address a.asset) _ h λ asset _ h₁.
      when_ok (amount_of x a.amount a.asset) _ h₁ λ amount _ h₂.
        when_ok (ensure_batch_allowance x.viem x.reads b asset lending_pool amount) _ h₂
          λ d e h₃. (asset, lending_pool, amount, _, d, refl, e, h₃)

  build_neutral :
      (function : Text) (b c : Batch) (a : Action)
      → build_pool_call x false function b a ≡ ok c
      → (asset : Text) × (amount : ℕ) × (push_call x b lending_pool
            (Payload.pool_call function asset amount)
          ≡ ok c)
  unfolding build_pool_call
  build_neutral function b c a h =
      when_ok (asset_address a.asset) _ h
        λ asset _ h₁. when_ok (amount_of x a.amount a.asset) _ h₁ λ amount _ h₂. (asset, amount, h₂)

  swap-Draws :
      (b c : Batch) (recipient input output : Text) (fee amount minimum deadline : ℕ)
      → (ensure_batch_allowance x.viem x.reads b input unitflow_router amount >>= λ d.
          push_call x d unitflow_router
            (Payload.exact_input input output fee recipient deadline amount minimum))
        ≡ ok c
      → Draws Kind.swap b c
  swap-Draws b c recipient input output fee amount minimum deadline h =
      when_ok (ensure_batch_allowance x.viem x.reads b input unitflow_router amount) _ h λ d e h₁. (
        input,
        unitflow_router,
        amount,
        _,
        d,
        (output, fee, recipient, deadline, minimum, refl),
        e,
        h₁,
      )

  build_swap-Draws : (b c : Batch) (a : Action) → build_swap x b a ≡ ok c → Draws Kind.swap b c
  unfolding build_swap
  build_swap-Draws b c a h =
      when_ok (asset_address (first_text a.asset a.input_token)) _ h λ input _ h₁.
        when_ok (asset_address (first_text a.to_asset a.output_token)) _ h₁ λ output _ h₂.
          when_ok (throw_if (text_eq input output) unsupported_swap_direction) _ h₂ λ _ _ h₃.
            when_ok (amount_of x a.amount (first_text a.asset a.input_token)) _ h₃ λ amount _ h₄.
              when_ok
                (quote_exact_input (λ fee. x.reads.quote input fee output amount)
                  (slippage_of a x.autonomy))
                _ h₄
                λ quoted _ h₅. when_ok (fee_of a.fee quoted.0) _ h₅ λ fee _ h₆.
                  when_ok (throw_if (not (is_fee fee unitflow_fees)) unsupported_fee) _ h₆ λ _ _ h₇.
                    when_ok (minimum_of x a.min_out (first_text a.to_asset a.output_token) quoted.1)
                      _ h₇ λ minimum _ h₈. swap-Draws b c _ input output fee amount minimum _ h₈

  build_transfer-Calls :
      (b c : Batch) (a : Action) → build_transfer x b a ≡ ok c → Calls Kind.transfer b c
  unfolding build_transfer
  build_transfer-Calls b c a h =
      when_ok (non_empty (trim (text_or_empty a.to_agent_id)) transfer_target_required) _ h
        λ id _ h₁.
          when_ok (found (x.reads.agent_by_id id) transfer_target_not_found) _ h₁ λ target _ h₂.
            when_ok (check_owner x.agent target) _ h₂ λ _ _ h₃.
              when_ok (verify_agent_genesis x.viem x.reads x.agent.account target.account) _ h₃
                λ _ _ h₄. when_ok (asset_address a.asset) _ h₄ λ asset _ h₅.
                  when_ok (amount_of x a.amount a.asset) _ h₅ λ amount _ h₆.
                    when_ok (address_of x.viem target.account) _ h₆
                      λ account _ h₇. (x.account, _, (asset, account, amount, refl), h₇)

  build_vote-Calls : (b c : Batch) (a : Action) → build_vote x b a ≡ ok c → Calls Kind.cast_vote b c
  unfolding build_vote
  build_vote-Calls b c a h = when_ok (positive_uint a.proposal_id) _ h λ proposal _ h₁.
      when_ok (support_of a.support) _ h₁
        λ support _ h₂. (governor, _, (proposal, support, refl), h₂)

  -- What an action of a kind has added.
  pub data Pushes (k : Kind) (b c : Batch) : Type 0 where
    approved : k ≡ Kind.approve → Approves b c → Pushes k b c
    drawn : Draws k b c → Pushes k b c
    called : Calls k b c → Pushes k b c

  pub build_kind-Pushes :
      (k : Kind) (b c : Batch) (a : Action) → build_kind x (some k) b a ≡ ok c → Pushes k b c
  unfolding build_kind
  build_kind-Pushes Kind.approve b c a h = approved refl (build_approve-Approves b c a h)
  build_kind-Pushes Kind.supply b c a h = drawn (build_supply-Draws b c a h)
  build_kind-Pushes Kind.withdraw b c a h =
      let (asset, amount, e) = build_neutral (name_of Kind.withdraw) b c a h in
      called (lending_pool, _, (asset, amount, refl), e)
  build_kind-Pushes Kind.borrow b c a h =
      let (asset, amount, e) = build_neutral (name_of Kind.borrow) b c a h in
      called (lending_pool, _, (asset, amount, refl), e)
  build_kind-Pushes Kind.repay b c a h = drawn (build_repay-Draws b c a h)
  build_kind-Pushes Kind.swap b c a h = drawn (build_swap-Draws b c a h)
  build_kind-Pushes Kind.transfer b c a h = called (build_transfer-Calls b c a h)
  build_kind-Pushes Kind.cast_vote b c a h = called (build_vote-Calls b c a h)
