-- ===== src/Runner/Conditions.antt =====
-- The conditions on single actions in `buildCalls` of agent-runner/src/index.js, and
-- `verifyAgentGenesis`.
use centry.Prelude.{
  ℕ, zero, suc, Bool, false, not, ◌&&◌, ◌||◌, Option, none, some, List, [], ◌∷◌, Result, ok, err,
  ◌>>=◌, ◌>>◌, throw_if, ltb, if◌then◌else◌,
}
use centry.Prelude.Int.{pos}
use centry.Prelude.Text.{Text, text_eq}
use centry.Rewards.Types.{Field, absent, empty, malformed, int}
use centry.Runner.Values.{
  Error, approval_spender_not_allowed, approval_asset_not_allowed, unsupported_fee,
  external_transfer_prohibited, external_genesis_prohibited, not_created_by_factory,
  target_not_created_by_factory, invalid_support, Viem, Action, tokens, lending_pool,
  unitflow_router, agent_factory, address_of,
}
use centry.Runner.Policy.{Autonomy}
use centry.Runner.Batch.{Agent, Reads, same_address, read_required}

-- `verifyAgentGenesis`: both accounts are of the one factory, which knows the target.
unfoldable pub check_factories : Text → Text → Result Error (Unit {0})
unfolding same_address
check_factories source target = do
  throw_if (not (same_address source target)) external_genesis_prohibited
  throw_if (not (same_address source agent_factory)) not_created_by_factory

unfoldable pub verify_agent_genesis : Viem → Reads → Text → Text → Result Error Text
unfolding address_of read_required check_factories
verify_agent_genesis viem reads source_account target_account = do
  source ← address_of viem source_account
  target ← address_of viem target_account
  source_read ← read_required (reads.factory source)
  source_factory ← address_of viem source_read
  target_read ← read_required (reads.factory target)
  target_factory ← address_of viem target_read
  check_factories source_factory target_factory
  registered ← read_required (reads.is_registered source_factory target)
  throw_if (not registered) target_not_created_by_factory
  ok source_factory

-- `a ?? b ?? 50`
unfoldable pub slippage_of : Action → Autonomy → Field
slippage_of a autonomy = elim a.slippage_bps [
  | absent ↦ elim autonomy.slippage_bps [ absent ↦ int (pos 50) | f ↦ f ]
  | f ↦ f
]

-- `Number(action.fee || quoted.fee)`, which must be a fee tier.
unfoldable pub fee_of : Field → ℕ → Result Error ℕ
fee_of absent quoted = ok quoted
fee_of empty quoted = ok quoted
fee_of malformed quoted = err unsupported_fee
fee_of (int (pos zero)) quoted = ok quoted
fee_of (int (pos (suc n))) quoted = ok (suc n)
fee_of (int other) quoted = err unsupported_fee

-- `Number(action.support)`, which must be 0, 1 or 2; null and the empty text are 0.
unfoldable pub support_of : Field → Result Error ℕ
support_of empty = ok 0
support_of (int (pos n)) = if ltb n 3 then ok n else err invalid_support
support_of other = err invalid_support

unfoldable pub is_token : Text → List (Text × Text) → Bool
is_token a [] = false
is_token a ((symbol, t) ∷ ts) = text_eq t a || is_token a ts

-- The spender of an approval must be the lending pool or the router.
unfoldable pub check_spender : Text → Text → Result Error (Unit {0})
unfolding same_address is_token
check_spender spender asset = do
  throw_if (not (same_address spender lending_pool || same_address spender unitflow_router))
      approval_spender_not_allowed
  throw_if (same_address spender unitflow_router && not (is_token asset tokens))
      approval_asset_not_allowed

-- The owners must be the same, up to case.
unfoldable pub check_owner : Agent → Agent → Result Error (Unit {0})
unfolding same_address
check_owner agent target =
    throw_if (not (same_address target.owner agent.owner)) external_transfer_prohibited

unfoldable pub found {ℓ} : {A : Type ℓ} → Option A → Error → Result Error A
found none e = err e
found (some a) e = ok a

unfoldable pub non_empty : Text → Error → Result Error Text
non_empty [] e = err e
non_empty (c ∷ t) e = ok (c ∷ t)
