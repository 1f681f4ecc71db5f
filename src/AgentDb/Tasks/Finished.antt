-- ===== src/AgentDb/Tasks/Finished.antt =====
-- The holder of a lease can complete its task.
use centry.Prelude.{
  ℕ, ◌≡◌, ◌≢◌, refl, sym, ◌∙◌, Bool, true, false, List, [], ◌∷◌, ◌++◌, All, All-imp, ok, arith,
}
use centry.Prelude.Text.{Text, text_eq, text_eq_sound, text_eq_ne}
use centry.AgentDb.Tasks.{
  stored, Status, Task, Completion, is_held, finish, update_where, changes, read_completion,
  complete_held, complete_agent_task,
}
use centry.AgentDb.Tasks.Leases.{unchanged}
use centry.AgentDb.Tasks.Invariant.{DistinctIds}

is_held-id : (id lease_id : Text) (t : Task) → is_held id lease_id t ≡ true → t.id ≡ id
unfolding is_held
is_held-id id lease_id t h = text_eq_sound t.id id (ground arith)

is_held_no_id :
    (id lease_id : Text) (t : Task) → text_eq t.id id ≡ false → is_held id lease_id t ≡ false
unfolding is_held
is_held_no_id id lease_id t h = rw h

is_held-other :
    (id lease_id : Text) (t u : Task)
    → is_held id lease_id t ≡ true
    → u.id ≢ t.id
    → is_held id lease_id u ≡ false
is_held-other id lease_id t u h other =
    is_held_no_id id lease_id u
      (text_eq_ne u.id id (λ e. other (e ∙ sym (is_held-id id lease_id t h))))

middle :
    (before after : List Task) (t : Task) (P : Task → Type 0) → All P (before ++ t ∷ after) → P t
middle [] after t P (h, all) = h
middle (b ∷ before) after t P (h, all) = middle before after t P all

-- Every task of a list but the one in the middle differs from it in its id.
others-differ :
    (before after : List Task) (t : Task)
    → DistinctIds (before ++ t ∷ after)
    → All (λ u. u.id ≢ t.id) before × All (λ u. u.id ≢ t.id) after
others-differ [] after t (n, d) = (tt, All-imp (λ u h e. h (sym e)) after n)
others-differ (b ∷ before) after t (n, d) =
    let (left, right) = others-differ before after t d in
    ((middle before after t (λ u. b.id ≢ u.id) n, left), right)

update_one :
    (p : Task → Bool) (f : Task → Task) (before after : List Task) (t : Task)
    → All (λ u. p u ≡ false) before
    → p t ≡ true
    → All (λ u. p u ≡ false) after
    → (update_where p f (before ++ t ∷ after) ≡ before ++ f t ∷ after)
      × (changes p (before ++ t ∷ after) ≡ 1)
unfolding update_where changes
update_one p f [] after t left h right =
    let (same, none) = unchanged p f after right in rw (h, same, none) (refl, refl)
update_one p f (b ∷ before) after t (e, left) h right =
    let (one, count) = update_one p f before after t left h right in rw (e, one) (refl, count)

-- In a table whose ids are all different, a completion in good form of a task that is in process
-- under the given lease succeeds: it ends that task, and changes no other.
pub complete_agent_task_held :
    (before after : List Task) (t : Task) (now : ℕ) (args : Completion) (id lease_id : Text)
    (status : Status)
    → DistinctIds (before ++ t ∷ after)
    → read_completion args ≡ ok (id, lease_id, status)
    → is_held id lease_id t ≡ true
    → complete_agent_task (before ++ t ∷ after) now args
      ≡ (before ++ finish status (stored args.result) now t ∷ after, ok (id, status))
unfolding complete_agent_task
complete_agent_task_held before after t now args id lease_id status d e held =
    let (left, right) = others-differ before after t d in
    let not_held = λ (u : Task). is_held-other id lease_id t u held in
    let (one, count) =
      update_one (is_held id lease_id) (finish status (stored args.result) now) before after t
        (All-imp not_held before left) held (All-imp not_held after right) in
    rw (complete_agent_task, e, complete_held, one, count)
