-- ===== src/AgentDb/Tasks/Invariant.antt =====
-- What holds of the table of tasks after any sequence of operations.
use centry.Prelude.{
  ℕ, ◌≡◌, ◌≢◌, inl, inr, refl, Bool, true, false, Bool-cases, Option, Option-cases, none, some,
  List, [], ◌∷◌, ◌++◌, All, All-map, AllPairs, Result-cases, ok, when_ok, ok_injective, ap, subst,
  if◌then◌else◌, arith,
}
use centry.Prelude.Text.{Text, text_eq, text_eq_refl}
use centry.AgentDb.Args.{require_string, bounded_text}
use centry.AgentDb.Claims.{ClaimInput, Claim, lease, lease_rows, claim_agent_tasks, read_claim}
use centry.AgentDb.Tasks.{
  stored, Status, Task, NewTask, Completion, find_task, insert_task, new_task, enqueue_agent_task,
  update_where, is_held, finish, is_processing, end_status, read_completion, complete_held,
  complete_agent_task,
}

-- The table after any sequence of the operations that write it. Failed calls count too.
pub data Reachable (order_by_created : List Task → List Task) : List Task → Type 0 where
  no_tasks : Reachable order_by_created []
  enqueued :
      {tasks after : List Task} {row : Option Task} (now : ℕ) (args : NewTask)
      → Reachable order_by_created tasks
      → enqueue_agent_task tasks now args ≡ ok (after, row)
      → Reachable order_by_created after
  claimed :
      {tasks after leased : List Task} (now : ℕ) (args : ClaimInput)
      → Reachable order_by_created tasks
      → claim_agent_tasks order_by_created args now tasks ≡ ok (after, leased)
      → Reachable order_by_created after
  ended :
      {tasks : List Task} (now : ℕ) (args : Completion)
      → Reachable order_by_created tasks
      → Reachable order_by_created (complete_agent_task tasks now args).0

abbrev pub is_some {ℓ} : {A : Type ℓ} → Option A → Bool
is_some none = false
is_some (some a) = true

-- A task has a lease, with an end, exactly while it is in process.
pub record IsConsistent (t : Task) : Type 0 where
  pub leased : is_some t.lease_id ≡ is_processing t.status
  pub timed : is_some t.lease_until ≡ is_processing t.status

-- The ids are all different.
abbrev pub DistinctIds : List Task → Type 0
DistinctIds = AllPairs (λ t u. t.id ≢ u.id)

pub record IsWellFormed (tasks : List Task) : Type 0 where
  pub distinct : DistinctIds tasks
  pub consistent : All IsConsistent tasks

lease-id : (c : Claim) (now : ℕ) (t : Task) → (lease c now t).id ≡ t.id
unfolding lease
lease-id c now t = refl

lease-IsConsistent : (c : Claim) (now : ℕ) (t : Task) → IsConsistent (lease c now t)
unfolding lease is_processing
lease-IsConsistent c now t = record { leased = refl; timed = refl }

end_status-not_processing :
    (t : Text) (status : Status) → end_status t ≡ ok status → is_processing status ≡ false
unfolding end_status is_processing
end_status-not_processing t status h = ground arith

-- The change of a row by an `UPDATE`.
module _ (p : Task → Bool) (f : Task → Task) where
  update_where-All :
      (P : Task → Type 0)
      → ((t : Task) → P (f t))
      → (tasks : List Task) → All P tasks
      → All P (update_where p f tasks)
  unfolding update_where
  update_where-All P made tasks all =
      All-map P (λ t. if p t then f t else t)
        (λ t h. elim (Bool-cases (p t)) [ inl e ↦ rw e (made t) | inr e ↦ rw e h ]) tasks all

  module _ (keeps : (t : Task) → (f t).id ≡ t.id) where
    updated-id : (t : Task) → (if p t then f t else t).id ≡ t.id
    updated-id t = elim (Bool-cases (p t)) [ inl e ↦ rw e (keeps t) | inr e ↦ rw e ]

    update_where-DistinctIds :
        (tasks : List Task) → DistinctIds tasks → DistinctIds (update_where p f tasks)
    unfolding update_where
    update_where-DistinctIds [] d = tt
    update_where-DistinctIds (t ∷ tasks) (n, d) = (
      All-map _ (λ u. if p u then f u else u) (λ u other. rw (updated-id t, updated-id u) other)
          tasks n,
      update_where-DistinctIds tasks d,
    )

find_task-none :
    (id : Text) (tasks : List Task) → find_task id tasks ≡ none → All (λ t. t.id ≢ id) tasks
unfolding find_task
find_task-none id [] h = tt
find_task-none id (t ∷ tasks) h = elim (Bool-cases (text_eq t.id id)) [
  | inl e ↦ let found : some t ≡ none = rw e at h in cc
  | inr e ↦ (
    λ same. let own : text_eq t.id id ≡ true = rw same (text_eq_refl id) in cc,
    find_task-none id tasks (rw e at h),
  )
]

append-All :
    (P : Task → Type 0) (tasks : List Task) (t : Task) → All P tasks → P t → All P (tasks ++ t ∷ [])
append-All P [] t all own = (own, tt)
append-All P (u ∷ tasks) t (h, all) own = (h, append-All P tasks t all own)

append-DistinctIds :
    (tasks : List Task) (t : Task)
    → DistinctIds tasks
    → All (λ u. u.id ≢ t.id) tasks
    → DistinctIds (tasks ++ t ∷ [])
append-DistinctIds [] t d n = (tt, tt)
append-DistinctIds (u ∷ tasks) t (m, d) (other, n) =
    (append-All (λ v. u.id ≢ v.id) tasks t m other, append-DistinctIds tasks t d n)

insert_task-IsWellFormed :
    (t : Task) (tasks : List Task)
    → IsConsistent t
    → IsWellFormed tasks
    → IsWellFormed (insert_task t tasks)
unfolding insert_task
insert_task-IsWellFormed t tasks own w = elim (Option-cases (find_task t.id tasks)) [
  | inl e ↦
      rw (insert_task, e)
        (record {
          distinct = append-DistinctIds tasks t w.distinct (find_task-none t.id tasks e);
          consistent = append-All IsConsistent tasks t w.consistent own;
        })
  | inr (old, e) ↦ rw (insert_task, e) w
]

update_where-IsWellFormed :
    (p : Task → Bool) (f : Task → Task)
    → ((t : Task) → (f t).id ≡ t.id)
    → ((t : Task) → IsConsistent (f t))
    → (tasks : List Task) → IsWellFormed tasks
    → IsWellFormed (update_where p f tasks)
update_where-IsWellFormed p f keeps made tasks w = record {
  distinct = update_where-DistinctIds p f keeps tasks w.distinct;
  consistent = update_where-All p f IsConsistent made tasks w.consistent;
}

new_task-IsConsistent :
    (args : NewTask) (now : ℕ) (t : Task) → new_task args now ≡ ok t → IsConsistent t
unfolding new_task is_processing
new_task-IsConsistent args now t h = when_ok (require_string args.id _) _ h λ _ _ h₁.
    when_ok (require_string args.to_agent_id _) _ h₁ λ _ _ h₂.
      when_ok (bounded_text args.task _ _) _ h₂
        λ _ _ h₃. subst IsConsistent (ok_injective h₃) (record { leased = refl; timed = refl })

read_completion-ended :
    (args : Completion) (r : Text × Text × Status)
    → read_completion args ≡ ok r
    → is_processing r.2 ≡ false
unfolding read_completion
read_completion-ended args r h = when_ok (require_string args.id _) _ h λ id _ h₁.
    when_ok (require_string args.lease_id _) _ h₁ λ lease_id _ h₂.
      when_ok (require_string args.status _) _ h₂ λ t _ h₃.
        when_ok (end_status t) _ h₃ λ status e h₄.
          subst (λ (r : Text × Text × Status). is_processing r.2 ≡ false) (ok_injective h₄)
            (end_status-not_processing t status e)

finish-id :
    (status : Status) (result : Text) (now : ℕ) (t : Task) → (finish status result now t).id ≡ t.id
unfolding finish
finish-id status result now t = refl

finish-IsConsistent :
    (status : Status) (result : Text) (now : ℕ) (t : Task)
    → is_processing status ≡ false
    → IsConsistent (finish status result now t)
unfolding finish
finish-IsConsistent status result now t h = record { leased = rw h; timed = rw h }

complete-IsWellFormed :
    (tasks : List Task) (now : ℕ) (args : Completion)
    → IsWellFormed tasks
    → IsWellFormed (complete_agent_task tasks now args).0
unfolding complete_agent_task
complete-IsWellFormed tasks now args w = elim (Result-cases (read_completion args)) [
  | inl ((id, lease_id, status), e) ↦
      let ended = read_completion-ended args (id, lease_id, status) e in
      rw (complete_agent_task, e, complete_held)
        (update_where-IsWellFormed (is_held id lease_id) (finish status (stored args.result) now)
          (λ t. finish-id status (stored args.result) now t)
          (λ t. finish-IsConsistent status (stored args.result) now t ended) tasks w)
  | inr (error, e) ↦ rw (complete_agent_task, e) w
]

-- After any sequence of operations the ids of the tasks are all different, and a task has a lease
-- with an end exactly while it is in process.
pub Reachable-IsWellFormed :
    (order_by_created : List Task → List Task) (tasks : List Task)
    → Reachable order_by_created tasks
    → IsWellFormed tasks
unfolding enqueue_agent_task claim_agent_tasks lease_rows
Reachable-IsWellFormed order tasks no_tasks = record { distinct = tt; consistent = tt }
Reachable-IsWellFormed order tasks (enqueued now args before h) =
    when_ok (new_task args now) _ h λ t e h₁.
      let w =
        insert_task-IsWellFormed t _ (new_task-IsConsistent args now t e)
          (Reachable-IsWellFormed order _ before) in
      subst IsWellFormed (ap (λ (r : List Task × Option Task). r.0) (ok_injective h₁)) w
Reachable-IsWellFormed order tasks (claimed now args before h) =
    when_ok (read_claim args) _ h λ c _ h₁.
      let w =
        update_where-IsWellFormed _ (lease c now) (lease-id c now) (lease-IsConsistent c now) _
          (Reachable-IsWellFormed order _ before) in
      subst IsWellFormed (ap (λ (r : List Task × List Task). r.0) (ok_injective h₁)) w
Reachable-IsWellFormed order tasks (ended now args before) =
    complete-IsWellFormed _ now args (Reachable-IsWellFormed order _ before)
