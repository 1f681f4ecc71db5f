-- ===== src/AgentDb/Tasks.antt =====
-- The queue of tasks between agents, in `runOperation` of agent-db/src/index.js: an agent leases
-- tasks for a time, and completes a task under its lease. A time is a number of milliseconds: the
-- ISO texts that the table holds have a fixed width, so they compare as their times do.
pub mod Leases
pub mod Finished
pub mod Invariant
use centry.Prelude.{
  ℕ, zero, suc, ◌+◌, Bool, true, false, not, ◌&&◌, ◌||◌, Option, none, some, List, [], ◌∷◌, ◌++◌,
  map, take, Result, ok, err, ◌>>=◌, ◌>>◌, throw_if, ltb, ◌==◌, if◌then◌else◌,
}
use centry.Prelude.Int.{ℤ}
use centry.Prelude.Text.{Text, text_eq, codes}
use centry.AgentDb.Args.{
  Error, invalid_task_status, agent_task_lease_lost, require_string, bounded_text, clamp,
}

-- The values that the worker writes into the column `status`.
pub data Status : Type 0 where
  pending : Status
  processing : Status
  completed : Status
  failed : Status

-- A row of centry_agent_tasks.
pub record Task : Type 0 where
  pub id : Text
  pub from_agent_id : Option Text
  pub to_agent_id : Text
  pub task : Text
  pub status : Status
  pub result : Text
  pub created_at : ℕ
  pub updated_at : ℕ
  pub completed_at : Option ℕ
  pub lease_id : Option Text
  pub lease_until : Option ℕ
  pub attempts : ℕ
  pub last_error : Text

-- `WHERE` with a test, in the order of the table.
unfoldable pub filter {ℓ} : {A : Type ℓ} → (A → Bool) → List A → List A
filter p [] = []
filter p (a ∷ l) = let rest = filter p l in if p a then a ∷ rest else rest

unfoldable pub find_task : Text → List Task → Option Task
find_task id [] = none
find_task id (t ∷ tasks) = let rest = find_task id tasks in if text_eq t.id id then some t else rest

-- `INSERT OR IGNORE`: a task with a known id is left as it is.
unfoldable pub insert_task : Task → List Task → List Task
unfolding find_task
insert_task t tasks = elim (find_task t.id tasks) [ some old ↦ tasks | none ↦ tasks ++ t ∷ [] ]

-- The arguments of `enqueue_agent_task`.
pub record NewTask : Type 0 where
  pub id : Option Text
  pub from_agent_id : Option Text
  pub to_agent_id : Option Text
  pub task : Option Text

-- `task.fromAgentId ? String(task.fromAgentId) : null`
unfoldable pub sender_of : Option Text → Option Text
sender_of none = none
sender_of (some []) = none
sender_of (some (c ∷ t)) = some (c ∷ t)

unfoldable pub new_task : NewTask → ℕ → Result Error Task
unfolding sender_of
new_task args now = do
  id ← require_string args.id (codes "id")
  to_agent_id ← require_string args.to_agent_id (codes "toAgentId")
  body ← bounded_text args.task (codes "task") 4000
  ok (record {
    id = id;
    from_agent_id = sender_of args.from_agent_id;
    to_agent_id = to_agent_id;
    task = body;
    status = pending;
    result = [];
    created_at = now;
    updated_at = now;
    completed_at = none;
    lease_id = none;
    lease_until = none;
    attempts = 0;
    last_error = [];
  })

-- `enqueue_agent_task`: the table, and the row that now has the id.
unfoldable pub enqueue_agent_task : List Task → ℕ → NewTask → Result Error (List Task × Option Task)
unfolding new_task insert_task
enqueue_agent_task tasks now args = do
  t ← new_task args now
  ok (insert_task t tasks, find_task t.id (insert_task t tasks))

-- The `result` of a completion: a string, or another value, by what `JSON.stringify(value || "")`
-- makes of it.
pub data Given : Type 0 where
  plain : Text → Given
  json : Text → Given

-- The text that is stored: a string is cut.
unfoldable pub stored : Given → Text
stored (plain t) = take 8000 t
stored (json t) = t

-- The arguments of `complete_agent_task`.
pub record Completion : Type 0 where
  pub id : Option Text
  pub lease_id : Option Text
  pub status : Option Text
  pub result : Given

-- `["completed", "failed"].includes(status)`
unfoldable pub end_status : Text → Result Error Status
end_status t =
    if text_eq t (codes "completed")
    then ok completed
    else (if text_eq t (codes "failed") then ok failed else err invalid_task_status)

unfoldable pub is_processing : Status → Bool
is_processing processing = true
is_processing other = false

unfoldable pub has_lease : Text → Option Text → Bool
has_lease lease_id none = false
has_lease lease_id (some held) = text_eq held lease_id

-- `id = ? AND status = 'processing' AND lease_id = ?`
unfoldable pub is_held : Text → Text → Task → Bool
unfolding is_processing has_lease
is_held id lease_id t = text_eq t.id id && is_processing t.status && has_lease lease_id t.lease_id

unfoldable pub finish : Status → Text → ℕ → Task → Task
finish status result now t = record t {
  status = status;
  result = result;
  updated_at = now;
  completed_at = some now;
  lease_id = none;
  lease_until = none;
}

-- An `UPDATE` of the rows that pass a test, and the number of them.
unfoldable pub update_where : (Task → Bool) → (Task → Task) → List Task → List Task
update_where p f = map (λ t. if p t then f t else t)

unfoldable pub changes : (Task → Bool) → List Task → ℕ
changes p [] = 0
changes p (t ∷ tasks) = let rest = changes p tasks in if p t then suc rest else rest

-- The tests of the arguments.
unfoldable pub read_completion : Completion → Result Error (Text × Text × Status)
unfolding require_string end_status
read_completion args = do
  id ← require_string args.id (codes "id")
  lease_id ← require_string args.lease_id (codes "leaseId")
  status_text ← require_string args.status (codes "status")
  status ← end_status status_text
  ok (id, lease_id, status)

-- The update, which is made before the number of changed rows is tested.
unfoldable pub complete_held :
    List Task → ℕ → Text → Text × Text × Status → List Task × Result Error (Text × Status)
complete_held tasks now result (id, lease_id, status) = (
  update_where (is_held id lease_id) (finish status result now) tasks,
  (if changes (is_held id lease_id) tasks == 1 then ok (id, status) else err agent_task_lease_lost),
)

-- `complete_agent_task`: the table, and the answer.
unfoldable pub complete_agent_task :
    List Task → ℕ → Completion → List Task × Result Error (Text × Status)
unfolding read_completion complete_held
complete_agent_task tasks now args = elim (read_completion args) [
  | err e ↦ (tasks, err e)
  | ok read ↦ complete_held tasks now (stored args.result) read
]
