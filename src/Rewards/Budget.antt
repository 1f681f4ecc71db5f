-- ===== src/Rewards/Budget.antt =====
-- What a new epoch may pay, in scripts/generate-reward-allocations.js: a free epoch, the
-- obligations of the epochs that are active or queued, and the budget that is left.
mod Obligations
pub mod Solvent
pub mod FreeEpoch
use centry.Prelude.{
  ℕ, zero, suc, ◌+◌, ◌-◌, Bool, ◌&&◌, List, [], ◌∷◌, ◌++◌, Result, ok, err, ◌>>=◌, ◌>>◌, throw_if,
  replicate, not, ltb, leb, ◌==◌, if◌then◌else◌,
}
use centry.Prelude.Int.{ℤ, pos, negsuc, pos_part}
use centry.Prelude.Text.{Text, text_eq, codes}
use centry.Rewards.Types.{
  Error, not_an_integer, no_free_epoch, too_many_epochs, balance_below_obligations,
  nothing_available, budget_not_positive, budget_exceeds_available,
}

-- The reads of the RevenueRewards contract.
pub record RewardsView : Type 0 where
  pub latest_epoch : ℕ
  pub epoch_reward_budget : ℕ → ℕ
  pub epoch_claimed : ℕ → ℕ
  pub epoch_roots : ℕ → Text
  pub pending_root : ℕ → Text
  pub pending_budget : ℕ → ℕ
  pub pending_ready_at : ℕ → ℕ

-- The limits of the script, from the environment.
pub record Limits : Type 0 where
  pub max_token_scan : ℕ
  pub max_epoch_scan : ℕ
  pub epoch_lookahead : ℕ

-- A setting of the environment: undefined or empty, no integer for `BigInt`, or an integer.
pub data Setting : Type 0 where
  unset : Setting
  malformed : Setting
  value : ℤ → Setting

-- `ethers.ZeroHash`
abbrev pub zero_hash : Text
zero_hash = codes "0x" ++ replicate 64 b'0'

-- `toBigInt`, of what `BigInt` makes of the text.
unfoldable pub to_big_int : Setting → Result Error ℤ
to_big_int (value n) = ok n
to_big_int other = err not_an_integer

-- An override must be positive and within what is available.
unfoldable pub check_override : ℕ → ℤ → Result Error ℕ
check_override available (negsuc n) = err budget_not_positive
check_override available (pos n) = do
  throw_if (n == 0) budget_not_positive
  throw_if (ltb available n) budget_exceeds_available
  ok n

unfoldable pub choose_budget : ℕ → Setting → Result Error ℕ
unfolding to_big_int check_override
choose_budget available unset = ok available
choose_budget available configured = do
  requested ← to_big_int configured
  check_override available requested

module _ (rewards : RewardsView) where
  -- Neither active nor queued.
  unfoldable pub is_free : ℕ → Bool
  is_free epoch =
      text_eq (rewards.epoch_roots epoch) zero_hash
      && text_eq (rewards.pending_root epoch) zero_hash

  -- The loop of `findNextEpoch`, over the rounds left.
  unfoldable pub find_from : ℕ → ℕ → Result Error ℕ
  find_from zero epoch = err no_free_epoch
  find_from (suc n) epoch =
      let rest = find_from n (epoch + 1) in if is_free epoch then ok epoch else rest

  -- `checked` runs from 0 up to and with the lookahead.
  unfoldable pub find_next_epoch : ℕ → Result Error ℕ
  unfolding find_from
  find_next_epoch lookahead = find_from (lookahead + 1) (rewards.latest_epoch + 1)

  -- What an active epoch still owes.
  unfoldable pub owed : ℕ → ℕ
  owed epoch =
      if ltb (rewards.epoch_claimed epoch) (rewards.epoch_reward_budget epoch)
      then rewards.epoch_reward_budget epoch - rewards.epoch_claimed epoch
      else 0

  unfoldable pub active_loop : ℕ → ℕ → ℕ → ℕ
  active_loop zero epoch outstanding = outstanding
  active_loop (suc n) epoch outstanding = active_loop n (epoch + 1) (outstanding + owed epoch)

  -- `getOutstandingActiveObligations`
  unfoldable pub active_obligations : ℕ → Result Error ℕ
  unfolding active_loop
  active_obligations max_scan = if rewards.latest_epoch == 0 then ok 0 else do
    throw_if (ltb max_scan rewards.latest_epoch) too_many_epochs
    ok (active_loop rewards.latest_epoch 1 0)

  -- What a queued epoch will owe.
  unfoldable pub queued : ℕ → ℕ
  queued epoch =
      if not (text_eq (rewards.pending_root epoch) zero_hash)
      then rewards.pending_budget epoch
      else 0

  unfoldable pub pending_loop : ℕ → ℕ → ℕ → ℕ
  pending_loop zero epoch outstanding = outstanding
  pending_loop (suc n) epoch outstanding = pending_loop n (epoch + 1) (outstanding + queued epoch)

  -- `getPendingObligations`
  unfoldable pub pending_obligations : ℕ → ℕ → ℕ
  unfolding pending_loop
  pending_obligations lookahead next_epoch = pending_loop (next_epoch + lookahead) 1 0

  -- `resolveRewardBudget`, at the contract's balance of the reward token.
  unfoldable pub resolve_reward_budget : Limits → ℕ → Setting → ℕ → Result Error ℕ
  unfolding active_obligations pending_obligations choose_budget
  resolve_reward_budget limits balance configured next_epoch = do
    active ← active_obligations limits.max_epoch_scan
    let outstanding = active + pending_obligations limits.epoch_lookahead next_epoch
    throw_if (ltb balance outstanding) balance_below_obligations
    throw_if (balance - outstanding == 0) nothing_available
    choose_budget (balance - outstanding) configured
