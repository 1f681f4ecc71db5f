-- ===== src/AgentDb/Tasks/Leases.antt =====
-- What a lease guarantees: no claim takes a leased task away, and a task is completed once.
use mathlib.Core.List.{Mem, mem-map_of_mem}
use centry.Prelude.{
  ℕ, ◌≤◌, ◌≡◌, inl, inr, refl, ap, subst, Bool, false, Bool-cases, List, [], ◌∷◌, map, All, Result,
  Result-cases, ok, err, if◌then◌else◌, arith,
}
use centry.Prelude.Text.{Text}
use centry.AgentDb.Args.{Error, agent_task_lease_lost}
use centry.AgentDb.Claims.{Claim, lease_end, is_claimable, is_claimed, lease, lease_rows}
use centry.AgentDb.Tasks.{
  stored, Status, processing, Task, Completion, update_where, changes, is_held, finish,
  read_completion, complete_held, complete_agent_task,
}

-- A row that fails the test stays in the table.
update_where-Mem :
    (p : Task → Bool) (f : Task → Task) (t : Task) (tasks : List Task)
    → p t ≡ false
    → Mem t tasks
    → Mem t (update_where p f tasks)
unfolding update_where
update_where-Mem p f t tasks kept m =
    let same : (if p t then f t else t) ≡ t = rw kept in
    subst (λ t'. Mem t' (map (λ t. if p t then f t else t) tasks)) same
      (mem-map_of_mem (λ t. if p t then f t else t) m)

-- While a lease lasts, no claim changes the leased row: at a time up to the end of the lease, the
-- row of a task in process is still in the table after any claim, by whatever agent.
pub lease_rows-leased :
    (order_by_created : List Task → List Task) (c : Claim) (now : ℕ) (tasks : List Task) (t : Task)
    → t.status ≡ processing
    → now ≤ lease_end t
    → Mem t tasks
    → Mem t (lease_rows order_by_created c now tasks)
unfolding lease_rows is_claimed is_claimable
lease_rows-leased order_by_created c now tasks t busy lasts m =
    update_where-Mem _ (lease c now) t tasks (ground arith) m

-- An update that leaves no row in the table that passes its test.
update_where-none :
    (p : Task → Bool) (f : Task → Task)
    → ((t : Task) → p (f t) ≡ false)
    → (tasks : List Task) → All (λ t. p t ≡ false) (update_where p f tasks)
unfolding update_where
update_where-none p f done [] = tt
update_where-none p f done (t ∷ tasks) =
    let rest = update_where-none p f done tasks in
    elim (Bool-cases (p t)) [ inl e ↦ rw e (done t, rest) | inr e ↦ rw e (e, rest) ]

pub unchanged :
    (p : Task → Bool) (f : Task → Task) (tasks : List Task)
    → All (λ t. p t ≡ false) tasks
    → (update_where p f tasks ≡ tasks) × (changes p tasks ≡ 0)
unfolding update_where changes
unchanged p f [] n = (refl, refl)
unchanged p f (t ∷ tasks) (e, n) =
    let (same, none) = unchanged p f tasks n in rw (e, same) (refl, none)

finish-is_held :
    (id lease_id result : Text) (status : Status) (now : ℕ) (t : Task)
    → is_held id lease_id (finish status result now t) ≡ false
unfolding is_held finish
finish-is_held id lease_id result status now t = ground arith

-- A task is completed at most once under a lease: once a completion has answered, the same call
-- again, at any time, fails with the loss of the lease and leaves the table as it is.
pub complete_agent_task_once :
    (tasks after : List Task) (now later : ℕ) (args : Completion) (answer : Text × Status)
    → complete_agent_task tasks now args ≡ (after, ok answer)
    → complete_agent_task after later args ≡ (after, err agent_task_lease_lost)
unfolding complete_agent_task complete_held
complete_agent_task_once tasks after now later args answer h =
    elim (Result-cases (read_completion args)) [
      | inl ((id, lease_id, status), e) ↦
          let held = is_held id lease_id in
          let done = finish status (stored args.result) in
          let updated : update_where held (done now) tasks ≡ after =
            ap (λ (w : List Task × Result Error (Text × Status)). w.0)
              (rw (complete_agent_task, e) at h) in
          let none_left : All (λ t. held t ≡ false) after = rw (← updated) (
            update_where-none held (done now)
              (finish-is_held id lease_id (stored args.result) status now) tasks) in
          let (same, none) = unchanged held (done later) after none_left in
          rw (complete_agent_task, e, complete_held, same, none)
      | inr (error, e) ↦
          let thrown : err error ≡ ok answer =
            ap (λ (w : List Task × Result Error (Text × Status)). w.1)
              (rw (complete_agent_task, e) at h) in
          cc
    ]
