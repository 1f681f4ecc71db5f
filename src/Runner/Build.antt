-- ===== src/Runner/Build.antt =====
-- `buildCalls` of agent-runner/src/index.js: from the actions to the batch of calls.
pub mod Parts
pub mod Actions
pub mod Sent
pub mod Checks
pub mod Pushes
pub mod Kinds
pub mod Targets
use centry.Prelude.{
  ℕ, zero, suc, ◌+◌, Bool, true, false, not, ◌&&◌, ◌||◌, Option, none, some, List, [], ◌∷◌, ◌++◌,
  map, length, Result, ok, err, ◌>>=◌, ◌>>◌, throw_if, ltb, ◌==◌, if◌then◌else◌,
}
use centry.Prelude.Int.{pos}
use centry.Prelude.Text.{Text, text_eq, to_lower_case, codes}
use centry.Prelude.Trim.{trim}
use centry.Rewards.Types.{Field, absent, empty, malformed, int}
use centry.Runner.Values.{
  Error, approval_spender_not_allowed, approval_asset_not_allowed, unsupported_swap_direction,
  unsupported_fee, transfer_target_required, transfer_target_not_found,
  external_transfer_prohibited, external_genesis_prohibited, not_created_by_factory,
  target_not_created_by_factory, invalid_support, unsupported_action, action_limit_exceeded,
  invalid_call_batch, Payload, pool_call, exact_input, transfer_to_agent, cast_vote, Viem, Action,
  text_or_empty, first_text, tokens, lending_pool, unitflow_router, governor, agent_factory,
  unitflow_fees, clamp_int, positive_uint, asset_address, asset_amount_to_base_units, address_of,
}
use centry.Runner.Policy.{
  Autonomy, Policy, Kind, agent_policy, type_of, kind_of, name_of, assert_action_policy,
}
use centry.Runner.Batch.{
  Agent, Reads, Call, Batch, empty_batch, is_fee, same_address, read_required, quote_exact_input,
  push, set_allowance, make_call, push_approval, ensure_batch_allowance,
}
use centry.Runner.Conditions.{
  check_factories, verify_agent_genesis, slippage_of, fee_of, support_of, is_token, check_spender,
  check_owner, found, non_empty,
}

-- What is fixed for all actions of a batch: the library, the reads, the agent, its account's
-- address, and whether amounts come in units of their asset.
pub record Context : Type 0 where
  pub viem : Viem
  pub reads : Reads
  pub agent : Agent
  pub account : Text
  pub autonomy : Autonomy
  pub human : Bool

module _ (x : Context) where
  -- The amount of an action, or its `minOut`.
  unfoldable pub amount_of : Option Text → Option Text → Result Error ℕ
  unfolding asset_amount_to_base_units positive_uint
  amount_of value asset =
      if x.human then asset_amount_to_base_units x.viem value asset else positive_uint value

  unfoldable pub push_call : Batch → Text → Payload → Result Error Batch
  unfolding make_call push
  push_call b target payload = do c ← make_call x.viem target payload; ok (push b c)

  unfoldable pub spender_of : Option Text → Result Error Text
  unfolding address_of
  spender_of none = ok lending_pool
  spender_of (some []) = ok lending_pool
  spender_of (some (c ∷ t)) = address_of x.viem (c ∷ t)

  unfoldable pub build_approve : Batch → Action → Result Error Batch
  unfolding asset_address amount_of spender_of check_spender push_approval set_allowance
  build_approve b a = do
    asset ← asset_address a.asset
    amount ← amount_of a.amount a.asset
    spender ← spender_of a.spender
    check_spender spender asset
    c ← push_approval x.viem b asset spender amount
    ok (set_allowance c asset spender amount)

  -- `supply` and `repay` spend an allowance of the pool; `withdraw` and `borrow` do not.
  unfoldable pub build_pool_call : Bool → Text → Batch → Action → Result Error Batch
  unfolding asset_address amount_of ensure_batch_allowance push_call
  build_pool_call spends function b a = do
    asset ← asset_address a.asset
    amount ← amount_of a.amount a.asset
    c ← if spends then ensure_batch_allowance x.viem x.reads b asset lending_pool amount else ok b
    push_call c lending_pool (pool_call function asset amount)

  unfoldable pub minimum_of : Option Text → Option Text → ℕ → Result Error ℕ
  unfolding amount_of
  minimum_of none asset quoted = ok quoted
  minimum_of (some []) asset quoted = ok quoted
  minimum_of (some (c ∷ t)) asset quoted = amount_of (some (c ∷ t)) asset

  unfoldable pub build_swap : Batch → Action → Result Error Batch
  unfolding asset_address amount_of first_text quote_exact_input slippage_of fee_of is_fee
      minimum_of ensure_batch_allowance push_call
  build_swap b a = do
    input ← asset_address (first_text a.asset a.input_token)
    output ← asset_address (first_text a.to_asset a.output_token)
    throw_if (text_eq input output) unsupported_swap_direction
    amount ← amount_of a.amount (first_text a.asset a.input_token)
    (quoted_fee, quoted_minimum) ←
        quote_exact_input (λ fee. x.reads.quote input fee output amount) (slippage_of a x.autonomy)
    fee ← fee_of a.fee quoted_fee
    throw_if (not (is_fee fee unitflow_fees)) unsupported_fee
    minimum ← minimum_of a.min_out (first_text a.to_asset a.output_token) quoted_minimum
    c ← ensure_batch_allowance x.viem x.reads b input unitflow_router amount
    push_call c unitflow_router
        (exact_input input output fee x.account (x.reads.seconds + 300) amount minimum)

  unfoldable pub build_transfer : Batch → Action → Result Error Batch
  unfolding text_or_empty non_empty found check_owner verify_agent_genesis asset_address amount_of
      address_of push_call
  build_transfer b a = do
    target_id ← non_empty (trim (text_or_empty a.to_agent_id)) transfer_target_required
    target ← found (x.reads.agent_by_id target_id) transfer_target_not_found
    check_owner x.agent target
    _ ← verify_agent_genesis x.viem x.reads x.agent.account target.account
    asset ← asset_address a.asset
    amount ← amount_of a.amount a.asset
    account ← address_of x.viem target.account
    push_call b x.account (transfer_to_agent asset account amount)

  unfoldable pub build_vote : Batch → Action → Result Error Batch
  unfolding positive_uint support_of push_call
  build_vote b a = do
    proposal ← positive_uint a.proposal_id
    support ← support_of a.support
    push_call b governor (cast_vote proposal support)

  -- The `switch`.
  unfoldable pub build_kind : Option Kind → Batch → Action → Result Error Batch
  unfolding type_of
  build_kind none b a = err (unsupported_action (type_of a))
  build_kind (some Kind.approve) b a = build_approve b a
  build_kind (some Kind.supply) b a = build_pool_call true (name_of Kind.supply) b a
  build_kind (some Kind.withdraw) b a = build_pool_call false (name_of Kind.withdraw) b a
  build_kind (some Kind.borrow) b a = build_pool_call false (name_of Kind.borrow) b a
  build_kind (some Kind.repay) b a = build_pool_call true (name_of Kind.repay) b a
  build_kind (some Kind.swap) b a = build_swap b a
  build_kind (some Kind.transfer) b a = build_transfer b a
  build_kind (some Kind.cast_vote) b a = build_vote b a

  unfoldable pub build_action : Policy → Batch → Action → Result Error Batch
  unfolding type_of kind_of assert_action_policy
  build_action policy b a = do
    assert_action_policy x.viem x.human policy a
    build_kind (kind_of (type_of a)) b a

  -- The loop over the actions.
  unfoldable pub build_loop : Policy → List Action → Batch → Result Error Batch
  build_loop policy [] b = ok b
  build_loop policy (a ∷ more) b = do c ← build_action policy b a; build_loop policy more c

  -- The loop over the approvals of the batch: each is set back to 0.
  unfoldable pub reset_loop : List (Text × (Text × Text)) → Batch → Result Error Batch
  unfolding push_call
  reset_loop [] b = ok b
  reset_loop ((key, (token, spender)) ∷ entries) b = do
    c ← push_call b token (Payload.approve spender 0)
    reset_loop entries c

  unfoldable pub check_size : Batch → Result Error (List Call)
  check_size b = do
    throw_if (ltb (length b.calls) 1 || ltb 32 (length b.calls)) invalid_call_batch
    ok b.calls

  -- `buildCalls`, with the account's address known.
  unfoldable pub build_batch : List Action → Result Error (List Call)
  unfolding build_loop reset_loop check_size agent_policy
  build_batch actions = do
    b ← build_loop (agent_policy x.autonomy) actions empty_batch
    c ← reset_loop b.cleanup b
    check_size c

-- `buildCalls`
unfoldable pub build_calls :
    Viem → Reads → Agent → Autonomy → Bool → List Action → Result Error (List Call)
build_calls viem reads agent autonomy human [] = ok []
build_calls viem reads agent autonomy human (a ∷ more) = do
  throw_if (ltb (clamp_int autonomy.max_actions 1 4 4) (length (a ∷ more))) action_limit_exceeded
  account ← address_of viem agent.account
  build_batch
      (record {
        viem = viem;
        reads = reads;
        agent = agent;
        account = account;
        autonomy = autonomy;
        human = human;
      })
      (a ∷ more)
