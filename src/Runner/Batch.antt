-- ===== src/Runner/Batch.antt =====
-- The batch of calls that `buildCalls` of agent-runner/src/index.js collects, with the allowances
-- that it counts on.
pub mod Quotes
use centry.Prelude.{
  ℕ, ◌-◌, ◌*◌, ◌/◌, Bool, true, false, Option, none, some, List, [], ◌∷◌, ◌++◌, Result, ok, err,
  ◌>>=◌, ltb, ◌==◌, ◌||◌, ◌≡◌, refl, ap, subst, when_ok, ok_injective, if◌then◌else◌,
}
use centry.Prelude.Text.{Text, text_eq, to_lower_case, codes}
use centry.Prelude.Assoc.{lookup, insert}
use centry.Rewards.Types.{Field}
use centry.Runner.Values.{
  Error, rpc_read_failed, no_quote_available, Payload, approve, Viem, unitflow_fees, clamp_int,
  address_of, encoded, selector,
}
use centry.Runner.Values.Bounds.{address_of-eq}

-- A row of centry_agents, as far as a transfer reads it.
pub record Agent : Type 0 where
  pub owner : Text
  pub account : Text

-- What the builder reads of the chain, the database and the clock. `none` is a read that fails,
-- after the attempts of `readRequiredContract`; for `agent_by_id` it is no row, and for `quote` a
-- pool that gives no amount.
pub record Reads : Type 0 where
  pub allowance : Text → Text → Option ℕ
  pub quote : Text → ℕ → Text → ℕ → Option ℕ
  pub agent_by_id : Text → Option Agent
  pub factory : Text → Option Text
  pub is_registered : Text → Text → Option Bool
  pub seconds : ℕ

-- A call of the batch. Its value is 0 for every call.
pub record Call : Type 0 where
  pub target : Text
  pub payload : Payload
  pub data_hex : Text
  pub selector_hex : Text

-- The state of the loop: the calls, the allowances that are left in `allowanceState`, and the token
-- and spender of each approval in `cleanupApprovals`.
pub record Batch : Type 0 where
  pub calls : List Call
  pub allowances : List (Text × ℕ)
  pub cleanup : List (Text × (Text × Text))

abbrev pub empty_batch : Batch
empty_batch = record { calls = []; allowances = []; cleanup = [] }

-- The key of both maps.
unfoldable pub pair_key : Text → Text → Text
pair_key token spender = to_lower_case token ++ codes ":" ++ to_lower_case spender

unfoldable pub same_address : Text → Text → Bool
same_address a b = text_eq (to_lower_case a) (to_lower_case b)

-- `readRequiredContract`
unfoldable pub read_required {ℓ} : {A : Type ℓ} → Option A → Result Error A
read_required none = err rpc_read_failed
read_required (some a) = ok a

-- The fee tier with the highest amount, the first of those with the same.
unfoldable pub better_quote : ℕ → Option ℕ → Option (ℕ × ℕ) → Option (ℕ × ℕ)
better_quote fee none best = best
better_quote fee (some amount) none = if ltb 0 amount then some (fee, amount) else none
better_quote fee (some amount) (some (f, most)) =
    if ltb most amount then some (fee, amount) else some (f, most)

unfoldable pub quote_loop : (ℕ → Option ℕ) → List ℕ → Option (ℕ × ℕ) → Option (ℕ × ℕ)
unfolding better_quote
quote_loop quote [] best = best
quote_loop quote (fee ∷ fees) best = quote_loop quote fees (better_quote fee (quote fee) best)

-- `UNITFLOW_FEES.includes`
unfoldable pub is_fee : ℕ → List ℕ → Bool
is_fee n [] = false
is_fee n (f ∷ fees) = f == n || is_fee n fees

-- The smallest amount that a swap accepts, for a slippage in hundredths of a percent.
unfoldable pub min_out : ℕ → Field → ℕ
unfolding clamp_int
min_out amount slippage = amount * (10000 - clamp_int slippage 0 5000 50) / 10000

-- `quoteUnitFlowExactInput`: the fee and the smallest amount.
unfoldable pub quote_exact_input : (ℕ → Option ℕ) → Field → Result Error (ℕ × ℕ)
unfolding quote_loop min_out
quote_exact_input quote slippage = elim (quote_loop quote unitflow_fees none) [
  | none ↦ err no_quote_available
  | some (fee, amount) ↦ ok (fee, min_out amount slippage)
]

-- The allowance that the loop knows of, or the one that the chain has.
unfoldable pub known_allowance : Reads → Batch → Text → Text → Result Error ℕ
unfolding lookup pair_key read_required
known_allowance reads b token spender = elim (lookup (pair_key token spender) b.allowances) [
  | some remaining ↦ ok remaining
  | none ↦ read_required (reads.allowance token spender)
]

-- `calls.push`
unfoldable pub push : Batch → Call → Batch
push b c = record b { calls = b.calls ++ c ∷ [] }

-- `allowanceState.set`
unfoldable pub set_allowance : Batch → Text → Text → ℕ → Batch
unfolding insert pair_key
set_allowance b token spender n = record b {
  allowances = insert (pair_key token spender) n b.allowances;
}

-- `trackCleanup`
unfoldable pub track_cleanup : Batch → Text → Text → Batch
unfolding insert pair_key
track_cleanup b token spender = record b {
  cleanup = insert (pair_key token spender) (token, spender) b.cleanup;
}

module _ (viem : Viem) where
  -- `makeCall`, of the encoded payload.
  unfoldable pub make_call : Text → Payload → Result Error Call
  unfolding encoded address_of selector
  make_call target payload = do
    data_hex ← encoded viem payload
    address ← address_of viem target
    ok (record {
      target = address;
      payload = payload;
      data_hex = data_hex;
      selector_hex = selector data_hex;
    })

  -- An approval of the token for the spender.
  unfoldable pub push_approval : Batch → Text → Text → ℕ → Result Error Batch
  unfolding make_call push track_cleanup
  push_approval b token spender amount = do
    c ← make_call token (approve spender amount)
    ok (track_cleanup (push b c) token spender)

  -- The approval that is needed where an allowance falls short, and what is left of it then.
  unfoldable pub top_up : Batch → Text → Text → ℕ → ℕ → Result Error Batch
  unfolding push_approval set_allowance
  top_up b token spender amount remaining =
      if ltb remaining amount
      then (do
        c ← push_approval b token spender amount
        ok (set_allowance c token spender (amount - amount)))
      else ok (set_allowance b token spender (remaining - amount))

  -- `ensureBatchAllowance`
  unfoldable pub ensure_batch_allowance : Reads → Batch → Text → Text → ℕ → Result Error Batch
  unfolding known_allowance top_up
  ensure_batch_allowance reads b token spender amount = do
    remaining ← known_allowance reads b token spender
    top_up b token spender amount remaining

-- The target and the payload of a call that was made.
pub make_call-eq :
    (viem : Viem) (target : Text) (payload : Payload) (c : Call)
    → make_call viem target payload ≡ ok c
    → (viem.get_address target ≡ some c.target) × (c.payload ≡ payload)
unfolding make_call
make_call-eq viem target payload c h = when_ok (encoded viem payload) _ h λ d _ h₁.
    when_ok (address_of viem target) _ h₁ λ a e h₂.
      subst (λ (c : Call). (viem.get_address target ≡ some c.target) × (c.payload ≡ payload))
        (ok_injective h₂) (address_of-eq viem target a e, refl)

pub read_required-eq {ℓ} : {A : Type ℓ} (o : Option A) (a : A) → read_required o ≡ ok a → o ≡ some a
unfolding read_required
read_required-eq none a h = cc
read_required-eq (some b) a h = ap some (ok_injective h)
