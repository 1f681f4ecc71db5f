-- ===== src/AgentDb/Claims.antt =====
-- The leases on the tasks between agents, in `runOperation` of agent-db/src/index.js.
use centry.Prelude.{
  ℕ, ◌+◌, Bool, true, false, ◌&&◌, ◌||◌, Option, none, some, List, [], ◌∷◌, take, Result, ok, ◌>>=◌,
  ltb,
}
use centry.Prelude.Int.{ℤ}
use centry.Prelude.Text.{Text, text_eq, codes}
use centry.AgentDb.Args.{Error, require_string, clamp}
use centry.AgentDb.Tasks.{
  Status, pending, processing, completed, failed, Task, filter, is_processing, has_lease,
  update_where,
}

-- `COALESCE(lease_until, 0)`
unfoldable pub lease_end : Task → ℕ
lease_end t = elim t.lease_until [ none ↦ 0 | some until ↦ until ]

-- `status = 'pending' OR (status = 'processing' AND COALESCE(lease_until, 0) < now)`
unfoldable pub is_claimable : ℕ → Task → Bool
unfolding lease_end
is_claimable now t = elim t.status [
  | pending ↦ true
  | processing ↦ ltb (lease_end t) now
  | completed ↦ false
  | failed ↦ false
]

unfoldable pub has_task_id : Text → List Task → Bool
has_task_id id [] = false
has_task_id id (t ∷ tasks) = text_eq t.id id || has_task_id id tasks

-- The arguments of `claim_agent_tasks`. The task's id is trimmed, and `none` if it is empty then.
pub record ClaimInput : Type 0 where
  pub agent_id : Option Text
  pub lease_id : Option Text
  pub lease_ms : Option ℤ
  pub task_id : Option Text
  pub limit : Option ℤ

-- The same after the tests.
pub record Claim : Type 0 where
  pub agent_id : Text
  pub lease_id : Text
  pub lease_ms : Option ℤ
  pub task_id : Option Text
  pub limit : Option ℤ

unfoldable pub read_claim : ClaimInput → Result Error Claim
unfolding require_string
read_claim args = do
  agent_id ← require_string args.agent_id (codes "agentId")
  lease_id ← require_string args.lease_id (codes "leaseId")
  ok (record {
    agent_id = agent_id;
    lease_id = lease_id;
    lease_ms = args.lease_ms;
    task_id = args.task_id;
    limit = args.limit;
  })

unfoldable pub claim_limit : Claim → ℕ
unfolding clamp
claim_limit c = elim c.task_id [ some id ↦ 1 | none ↦ clamp 1 20 20 c.limit ]

-- `AND id = ?`, if a task is named.
unfoldable pub matches_id : Option Text → Task → Bool
matches_id none t = true
matches_id (some id) t = text_eq t.id id

-- The row, leased.
unfoldable pub lease : Claim → ℕ → Task → Task
lease c now t = record t {
  status = processing;
  lease_id = some c.lease_id;
  lease_until = some (now + clamp 30000 600000 300000 c.lease_ms);
  attempts = t.attempts + 1;
  updated_at = now;
}

unfoldable pub is_pending : Status → Bool
is_pending pending = true
is_pending other = false

-- `list_pending_agent_tasks` and `claim_agent_tasks` read rows in the order of `created_at`. The
-- database is free in the order of rows of one time, so its sorting is a parameter.
module _ (order_by_created : List Task → List Task) where
  -- The inner `SELECT` of the claim.
  unfoldable pub selected : Claim → ℕ → List Task → List Task
  unfolding is_claimable matches_id claim_limit
  selected c now tasks = take (claim_limit c) (
      order_by_created (
        filter
          (λ t. text_eq t.to_agent_id c.agent_id && is_claimable now t && matches_id c.task_id t)
          tasks))

  -- The test of the `UPDATE`.
  unfoldable pub is_claimed : Claim → ℕ → List Task → Task → Bool
  unfolding selected has_task_id
  is_claimed c now tasks t =
      has_task_id t.id (selected c now tasks)
      && text_eq t.to_agent_id c.agent_id
      && is_claimable now t

  -- The `UPDATE` of the claim.
  unfoldable pub lease_rows : Claim → ℕ → List Task → List Task
  unfolding is_claimed lease
  lease_rows c now tasks = update_where (is_claimed c now tasks) (lease c now) tasks

  -- The last `SELECT` of the claim: all rows under the lease.
  unfoldable pub leased_tasks : Claim → List Task → List Task
  unfolding filter is_processing has_lease
  leased_tasks c tasks = order_by_created (
      filter
        (λ t.
          text_eq t.to_agent_id c.agent_id
          && has_lease c.lease_id t.lease_id
          && is_processing t.status)
        tasks)

  -- `claim_agent_tasks`: the table, and the rows under the lease.
  unfoldable pub claim_agent_tasks :
      ClaimInput → ℕ → List Task → Result Error (List Task × List Task)
  unfolding read_claim lease_rows leased_tasks
  claim_agent_tasks args now tasks = do
    c ← read_claim args
    ok (lease_rows c now tasks, leased_tasks c (lease_rows c now tasks))

  unfoldable pub list_pending_agent_tasks :
      Option Text → Option ℤ → List Task → Result Error (List Task)
  unfolding filter is_pending
  list_pending_agent_tasks agent_id limit tasks = do
    id ← require_string agent_id (codes "agentId")
    ok (
        take (clamp 1 50 20 limit)
          (order_by_created (filter (λ t. text_eq t.to_agent_id id && is_pending t.status) tasks)))
