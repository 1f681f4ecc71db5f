-- ===== src/Tests/Publish.antt =====
-- The theorems on queueing and activating an epoch, on the small chain.
use centry.Prelude.{ℕ, ◌≡◌, ◌≢◌, refl, true, some, ok, if◌then◌else◌, ◌==◌}
use centry.Prelude.Int.{int_eq}
use centry.Prelude.Text.{text_eq, text_eq_iff, to_lower_case, lower}
use centry.Rewards.Budget.{RewardsView, zero_hash}
use centry.Rewards.Queue.{Request, Run, submitted, already_queued, queue}
use centry.Rewards.Queue.Safe.{after_queue, IsBacked, queue-IsBacked, queue_once}
use centry.Rewards.Activate.{activated, activate, read_request, check_signer}
use centry.Rewards.Activate
use centry.Rewards.Queue
use centry.Rewards.Manifest.{read_int, required, checked_address}
use centry.Rewards.Validate.{present, read_root, is_bytes32, positive}
use centry.Rewards.Activate.Effect.{Means, activate-Means}
use centry.Tests.Data

abbrev run : Run
run = record {
  has_rpc_url = true;
  has_private_key = true;
  manifest = some Data.manifest_input;
  allocations = some Data.allocation_input;
  chain_id = 5042;
  signer = Data.alice;
  owner = Data.alice;
  rewards = Data.rewards;
  balance = 110;
}

abbrev request : Request
request = record { epoch = 3; root = Data.root; budget = 110 }

queued : queue Data.toy run ≡ ok (submitted request)
unfolding queue Queue.check_settings Queue.read_request Queue.some_root Queue.check_signer
    Queue.decide_epoch present required read_int read_root is_bytes32 positive int_eq
    checked_address text_eq
queued = refl

queue-IsBacked_example : IsBacked Data.toy run request
queue-IsBacked_example = queue-IsBacked Data.toy run request queued

root-nonzero : Data.root ≢ zero_hash
unfolding text_eq
root-nonzero e = let same = (text_eq_iff Data.root zero_hash).1 e in cc

queue_once_example :
    queue Data.toy (record run { rewards = after_queue run.rewards request 10 }) ≡ ok already_queued
queue_once_example = queue_once Data.toy run request 10 root-nonzero queued

-- The transaction of an epoch, on the contract.
abbrev activate_epoch : RewardsView → ℕ → RewardsView
activate_epoch rewards e = record rewards {
  latest_epoch = e;
  epoch_roots = λ k. if k == e then rewards.pending_root e else rewards.epoch_roots k;
  epoch_reward_budget =
      λ k. if k == e then rewards.pending_budget e else rewards.epoch_reward_budget k;
}

abbrev late_run : Activate.Run
late_run = record {
  has_rpc_url = true;
  has_private_key = true;
  manifest = some Data.manifest_input;
  chain_id = 5042;
  signer = Data.alice;
  owner = Data.alice;
  rewards = after_queue Data.rewards request 10;
  now = 12;
}

ran : activate (λ t. true) activate_epoch Data.toy late_run ≡ ok activated
unfolding activate Activate.check_settings read_request check_signer Activate.decide_epoch present
    read_int positive checked_address text_eq after_queue to_lower_case lower
ran = refl

activate-Means_example :
    (r : Request) × (read_request (λ t. true) late_run ≡ ok r)
    × (check_signer Data.toy late_run ≡ ok tt)
    × Means activate_epoch late_run.rewards 12 r activated
activate-Means_example = activate-Means (λ t. true) activate_epoch Data.toy late_run activated ran
