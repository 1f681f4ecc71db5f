-- ===== src/Rewards/Generate.antt =====
-- `main` of scripts/generate-reward-allocations.js: from the chain and the environment to the file
-- of allocations.
pub mod Correct
use centry.Prelude.{
  ℕ, Bool, true, false, not, Option, List, [], ◌∷◌, Result, ok, err, ◌>>=◌, ◌>>◌, throw_if, ◌==◌,
}
use centry.Prelude.Int.{ℤ, pos, negsuc}
use centry.Prelude.Number.{number}
use centry.Prelude.Text.{Text, codes}
use centry.Rewards.Types.{
  Error, missing_rpc_url, wrong_chain, epoch_not_positive, epoch_taken, no_positions, Position,
  OutputPosition,
}
use centry.Rewards.Scan.{VeCent, normalize_address, scan}
use centry.Rewards.Budget.{
  RewardsView, Limits, Setting, unset, to_big_int, is_free, find_next_epoch, resolve_reward_budget,
}
use centry.Rewards.Allocate.{allocate}

-- What the script reads from the chain.
pub record Chain : Type 0 where
  pub chain_id : ℕ
  pub rewards : RewardsView
  pub reward_token : Text
  pub ve_cent_address : Text
  pub ve_cent : VeCent
  pub balance : ℕ

-- What it reads from its environment and the clock.
pub record Environment : Type 0 where
  pub has_rpc_url : Bool
  pub rewards_address : Text
  pub limits : Limits
  pub configured_epoch : Setting
  pub configured_budget : Setting
  pub now : Text

-- keeper/reward-allocations.json
pub record AllocationFile : Type 0 where
  pub version : ℕ
  pub generated_at : Text
  pub epoch : ℕ
  pub reward_budget : ℕ
  pub total_voting_power : ℕ
  pub reward_token : Text
  pub revenue_rewards : Text
  pub ve_cent : Text
  pub source : Text
  pub positions : List OutputPosition

-- An epoch from the environment must be positive and free.
unfoldable pub check_epoch : RewardsView → ℤ → Result Error ℕ
check_epoch rewards (negsuc n) = err epoch_not_positive
check_epoch rewards (pos n) = do
  throw_if (n == 0) epoch_not_positive
  throw_if (not (is_free rewards n)) epoch_taken
  ok n

unfoldable pub select_epoch : RewardsView → ℕ → Setting → Result Error ℕ
unfolding check_epoch
select_epoch rewards lookahead unset = find_next_epoch rewards lookahead
select_epoch rewards lookahead configured = do
  epoch ← to_big_int configured
  check_epoch rewards epoch

abbrev is_empty : List Position → Bool
is_empty [] = true
is_empty (p ∷ ps) = false

-- The positions of the scan, of which there must be one.
unfoldable pub some_positions : List Position × ℕ → Result Error (List Position × ℕ)
some_positions (found, total) = do throw_if (is_empty found) no_positions; ok (found, total)

-- The connection must be there, to the right chain.
unfoldable pub check_network : Chain → Environment → Result Error (Unit {0})
check_network chain env = do
  throw_if (not env.has_rpc_url) missing_rpc_url
  throw_if (not (chain.chain_id == 5042)) wrong_chain
  ok tt

-- The addresses of the rewards contract, the reward token and veCENT.
unfoldable pub addresses :
    (Text → Option Text) → Chain → Environment → Result Error (Text × Text × Text)
addresses get_address chain env = do
  rewards ← normalize_address get_address env.rewards_address
  token ← normalize_address get_address chain.reward_token
  ve_cent ← normalize_address get_address chain.ve_cent_address
  ok (rewards, token, ve_cent)

-- The epoch and its budget.
unfoldable pub fund : Chain → Environment → Result Error (ℕ × ℕ)
unfolding select_epoch
fund chain env = do
  epoch ← select_epoch chain.rewards env.limits.epoch_lookahead env.configured_epoch
  budget ← resolve_reward_budget chain.rewards env.limits chain.balance env.configured_budget epoch
  ok (epoch, budget)

-- The positions with their amounts, and their total power.
unfoldable pub allocate_found :
    (Text → Option Text) → Chain → Environment → ℕ → Result Error (List OutputPosition × ℕ)
unfolding some_positions
allocate_found get_address chain env budget = do
  scanned ← scan get_address chain.ve_cent env.limits.max_token_scan
  kept ← some_positions scanned
  positions ← allocate budget kept.1 kept.0
  ok (positions, kept.1)

-- `output`
unfoldable pub to_file :
    Environment → Text × Text × Text → ℕ × ℕ → List OutputPosition × ℕ → AllocationFile
to_file env (rewards, token, ve_cent) (epoch, budget) (positions, power) = record {
  version = 1;
  generated_at = env.now;
  epoch = number epoch;
  reward_budget = budget;
  total_voting_power = power;
  reward_token = token;
  revenue_rewards = rewards;
  ve_cent = ve_cent;
  source = codes "Centry deterministic voting-power reward allocation";
  positions = positions;
}

-- `main`
unfoldable pub generate : (Text → Option Text) → Chain → Environment → Result Error AllocationFile
unfolding check_network addresses fund allocate_found to_file
generate get_address chain env = do
  check_network chain env
  named ← addresses get_address chain env
  funded ← fund chain env
  allocated ← allocate_found get_address chain env funded.1
  ok (to_file env named funded allocated)
