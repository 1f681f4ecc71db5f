-- ===== src/Tests/Data.antt =====
-- A small chain with its files: two active tokens, an active epoch and a queued one.
use centry.Prelude.{
  ℕ, ◌+◌, ◌%◌, true, Option, none, some, List, [], ◌∷◌, ◌++◌, replicate, length, if◌then◌else◌,
  ◌==◌,
}
use centry.Prelude.Int.{ℤ, pos}
use centry.Prelude.Text.{Text, codes}
use centry.Rewards.Types.{
  Position, OutputPosition, int, InstructionInput, PositionInput, AllocationInput, ManifestPosition,
  Manifest, ManifestInput,
}
use centry.Rewards.Scan.{VeCent}
use centry.Rewards.Budget.{RewardsView, Limits, unset, zero_hash}
use centry.Rewards.Generate.{Chain, Environment, AllocationFile}
use centry.Rewards.Merkle.{Ethers}

abbrev pub alice : Text
alice = codes "0xa11ce"

abbrev pub bob : Text
bob = codes "0xb0b"

abbrev pub join : List Text → Text
join [] = []
join (t ∷ ts) = t ++ join ts

abbrev pub hash_of_digit : ℕ → Text
hash_of_digit d = codes "0x" ++ replicate 64 d

-- Stands for the library: the hash tells an even from an odd length.
abbrev pub toy_hash : Text → Text
toy_hash t = if length t % 2 == 0 then hash_of_digit b'1' else hash_of_digit b'2'

abbrev pub toy_encode : ℤ → ℤ → Option Text
toy_encode (pos a) (pos b) = some (replicate (a + b) b'0')
toy_encode a b = none

abbrev pub toy_address : Text → Option Text
toy_address [] = none
toy_address (c ∷ t) = some (c ∷ t)

abbrev pub toy : Ethers
toy = record { keccak256 = toy_hash; concat = join; encode = toy_encode; get_address = toy_address }

-- Token 1 is Alice's, token 2 is burnt, token 3 is Bob's and its lock is not read.
abbrev pub ve : VeCent
ve = record {
  next_token_id = 4;
  owner_of = λ t. if t == 2 then none else some (if t == 1 then alice else bob);
  voting_power = λ t. if t == 1 then some 2 else none;
  balance_of_nft = λ t. some 1;
  locked = λ t. if t == 1 then some (pos 5, 9) else none;
}

abbrev pub alice_position : Position
alice_position = record {
  token_id = 1;
  owner = alice;
  voting_power = 2;
  locked_amount = pos 5;
  lock_end = 9;
}

abbrev pub bob_position : Position
bob_position = record {
  token_id = 3;
  owner = bob;
  voting_power = 1;
  locked_amount = pos 0;
  lock_end = 0;
}

-- Epoch 1 is active and owes 60, epoch 2 is queued and will owe 30.
abbrev pub rewards : RewardsView
rewards = record {
  latest_epoch = 1;
  epoch_reward_budget = λ e. if e == 1 then 100 else 0;
  epoch_claimed = λ e. if e == 1 then 40 else 0;
  epoch_roots = λ e. if e == 1 then hash_of_digit b'a' else zero_hash;
  pending_root = λ e. if e == 2 then hash_of_digit b'b' else zero_hash;
  pending_budget = λ e. if e == 2 then 30 else 0;
  pending_ready_at = λ e. 0;
}

abbrev pub limits : Limits
limits = record { max_token_scan = 10; max_epoch_scan = 10; epoch_lookahead = 3 }

abbrev pub chain : Chain
chain = record {
  chain_id = 5042;
  rewards = rewards;
  reward_token = codes "0xc1";
  ve_cent_address = codes "0xc2";
  ve_cent = ve;
  balance = 200;
}

abbrev pub environment : Environment
environment = record {
  has_rpc_url = true;
  rewards_address = codes "0xc3";
  limits = limits;
  configured_epoch = unset;
  configured_budget = unset;
  now = codes "now";
}

abbrev pub alice_output : OutputPosition
alice_output = record {
  token_id = 1;
  owner = alice;
  voting_power = 2;
  locked_amount = pos 5;
  lock_end = 9;
  amount = 73;
  instructions = [];
}

abbrev pub bob_output : OutputPosition
bob_output = record {
  token_id = 3;
  owner = bob;
  voting_power = 1;
  locked_amount = pos 0;
  lock_end = 0;
  amount = 37;
  instructions = [];
}

abbrev pub allocation_file : AllocationFile
allocation_file = record {
  version = 1;
  generated_at = codes "now";
  epoch = 3;
  reward_budget = 110;
  total_voting_power = 3;
  reward_token = codes "0xc1";
  revenue_rewards = codes "0xc3";
  ve_cent = codes "0xc2";
  source = codes "Centry deterministic voting-power reward allocation";
  positions = alice_output ∷ bob_output ∷ [];
}

abbrev pub allocation_entry : ℕ → ℕ → PositionInput
allocation_entry t a = record {
  token_id = int (pos t);
  amount = int (pos a);
  proof = none;
  instructions = some [];
}

abbrev pub allocation_input : AllocationInput
allocation_input = record {
  epoch = int (pos 3);
  positions = some (allocation_entry 1 73 ∷ allocation_entry 3 37 ∷ []);
  reward_budget = int (pos 110);
  source = none;
}

abbrev pub manifest_entry : ℕ → ℕ → List Text → ManifestPosition
manifest_entry t a proof = record {
  token_id = pos t;
  amount = pos a;
  proof = proof;
  instructions = [];
}

-- 132 characters, the two hashes, are even.
abbrev pub root : Text
root = hash_of_digit b'1'

abbrev pub leaf : Text
leaf = hash_of_digit b'1'

abbrev pub manifest : Manifest
manifest = record {
  version = 1;
  generated_at = codes "now";
  epoch = 3;
  reward_budget = 110;
  root = some root;
  source = codes "authoritative Centry reward allocation";
  positions = manifest_entry 1 73 (leaf ∷ []) ∷ manifest_entry 3 37 (leaf ∷ []) ∷ [];
}

-- A swap that takes 7 of the reward.
abbrev pub swap : InstructionInput
swap = record {
  debt_asset = codes "0xc4";
  reward_amount_in = int (pos 7);
  min_debt_asset_out = int (pos 6);
  swap_data = some (codes "0x12");
}

abbrev pub proven_entry : ℕ → ℕ → List InstructionInput → PositionInput
proven_entry t a instructions = record {
  token_id = int (pos t);
  amount = int (pos a);
  proof = some (leaf ∷ []);
  instructions = some instructions;
}

abbrev pub manifest_entries : List PositionInput
manifest_entries = proven_entry 1 73 (swap ∷ []) ∷ proven_entry 3 37 [] ∷ []

abbrev pub manifest_input : ManifestInput
manifest_input = record {
  epoch = int (pos 3);
  root = some root;
  reward_budget = int (pos 110);
  positions = some manifest_entries;
}
