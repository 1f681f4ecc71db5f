-- ===== src/Tests/Agents.antt =====
-- The theorems of the agents' tables on small tables.
use mathlib.Core.List.{Mem, mem-cons_self}
use centry.Prelude.{
  ◌≡◌, ◌≢◌, List, Option, ◌≤◌, refl, ℕ, ◌+◌, true, false, none, some, [], ◌∷◌, ok, err, arith,
}
use centry.Prelude.Int.{pos}
use centry.Prelude.Text.{Text, codes, text_eq, text_eq_iff, to_lower_case, lower}
use centry.AgentDb.Args.{agent_task_lease_lost, require_string, bounded_text, clamp}
use centry.AgentDb.Claims.{Claim, lease_end, lease_rows}
use centry.AgentDb.Tasks.{
  read_completion, plain, stored, Task, pending, processing, completed, Completion, NewTask,
  is_held, finish, update_where, changes, complete_agent_task, enqueue_agent_task,
}
use centry.AgentDb.Tasks.Leases.{lease_rows-leased, complete_agent_task_once}
use centry.AgentDb.Tasks.Finished.{complete_agent_task_held}
use centry.AgentDb.Tasks.Invariant.{no_tasks, enqueued, IsWellFormed, Reachable-IsWellFormed}
use centry.AgentDb.Locks.{Lock, try_lock_agent, unlock_agent}
use centry.AgentDb.Locks.Exclusive.{
  Calls, none_between, locking, unlocking, try_lock_agent_exclusive,
}
use centry.AgentDb.Nonces.{Nonce, Consumption, consume_owner_auth_nonce}
use centry.AgentDb.Nonces.Once.{no_calls, call, consume_owner_auth_nonce_once}
use centry.AgentDb.Keys.{Key, Revocation, get_active_agent_key, revoke_agent_key}
use centry.AgentDb.Keys.Revoked.{revoke_agent_key_inactive, revoke_agent_key_local}

-- A task under a lease until time 100.
abbrev leased_task : Task
leased_task = record {
  id = codes "t1";
  from_agent_id = none;
  to_agent_id = codes "a1";
  task = codes "swap";
  status = processing;
  result = [];
  created_at = 1;
  updated_at = 40;
  completed_at = none;
  lease_id = some (codes "l1");
  lease_until = some 100;
  attempts = 1;
  last_error = [];
}

abbrev other_claim : Claim
other_claim = record {
  agent_id = codes "a1";
  lease_id = codes "l2";
  lease_ms = none;
  task_id = none;
  limit = some (pos 5);
}

lasts : 50 ≤ lease_end leased_task
unfolding lease_end
lasts = omega arith

lease_rows-leased_example :
    Mem leased_task (lease_rows (λ tasks. tasks) other_claim 50 (leased_task ∷ []))
lease_rows-leased_example =
    lease_rows-leased (λ tasks. tasks) other_claim 50 (leased_task ∷ []) leased_task refl lasts
      mem-cons_self

abbrev completion : Completion
completion = record {
  id = some (codes "t1");
  lease_id = some (codes "l1");
  status = some (codes "completed");
  result = plain (codes "done");
}

abbrev completed_task : Task
completed_task = record leased_task {
  status = completed;
  result = codes "done";
  updated_at = 60;
  completed_at = some 60;
  lease_id = none;
  lease_until = none;
}

completes :
    complete_agent_task (leased_task ∷ []) 60 completion
    ≡ (completed_task ∷ [], ok (codes "t1", completed))
unfolding complete_agent_task text_eq update_where changes is_held finish stored
completes = refl

complete_agent_task_once_example :
    complete_agent_task (completed_task ∷ []) 70 completion
    ≡ (completed_task ∷ [], err agent_task_lease_lost)
complete_agent_task_once_example =
    complete_agent_task_once (leased_task ∷ []) (completed_task ∷ []) 60 70 completion
      (codes "t1", completed) completes

reads : read_completion completion ≡ ok (codes "t1", codes "l1", completed)
unfolding read_completion text_eq
reads = refl

held : is_held (codes "t1") (codes "l1") leased_task ≡ true
unfolding is_held text_eq
held = refl

complete_agent_task_held_example :
    complete_agent_task (leased_task ∷ []) 60 completion
    ≡ (finish completed (codes "done") 60 leased_task ∷ [], ok (codes "t1", completed))
unfolding stored
complete_agent_task_held_example =
    complete_agent_task_held [] [] leased_task 60 completion (codes "t1") (codes "l1") completed
      (tt, tt) reads held

abbrev request : NewTask
request = record {
  id = some (codes "t1");
  from_agent_id = none;
  to_agent_id = some (codes "a1");
  task = some (codes "swap");
}

abbrev fresh_task : Task
fresh_task = record {
  id = codes "t1";
  from_agent_id = none;
  to_agent_id = codes "a1";
  task = codes "swap";
  status = pending;
  result = [];
  created_at = 1;
  updated_at = 1;
  completed_at = none;
  lease_id = none;
  lease_until = none;
  attempts = 0;
  last_error = [];
}

enqueues : enqueue_agent_task [] 1 request ≡ ok (fresh_task ∷ [], some fresh_task)
unfolding enqueue_agent_task require_string bounded_text text_eq
enqueues = refl

Reachable-IsWellFormed_example : IsWellFormed (fresh_task ∷ [])
Reachable-IsWellFormed_example =
    Reachable-IsWellFormed (λ tasks. tasks) (fresh_task ∷ []) (enqueued 1 request no_tasks enqueues)

abbrev lock : Lock
lock = record { agent_id = codes "a1"; locked_until = 50100; updated_at = 100 }

locks : try_lock_agent (some (codes "a1")) none 100 [] ≡ ok (lock ∷ [], true)
unfolding try_lock_agent
locks = refl

still_locked : 50000 ≤ 100 + clamp 5000 300000 50000 none
unfolding clamp
still_locked = omega arith

abbrev other_lock : Lock
other_lock = record { agent_id = codes "a2"; locked_until = 50200; updated_at = 200 }

abbrev other_unlocked : Lock
other_unlocked = record { agent_id = codes "a2"; locked_until = 0; updated_at = 300 }

abbrev two_locks : List Lock
two_locks = lock ∷ other_lock ∷ []

others_lock : try_lock_agent (some (codes "a2")) none 200 (lock ∷ []) ≡ ok (two_locks, true)
unfolding try_lock_agent text_eq
others_lock = refl

others_unlock :
    unlock_agent (some (codes "a2")) 300 two_locks ≡ ok (lock ∷ other_unlocked ∷ [], true)
unfolding unlock_agent text_eq
others_unlock = refl

not_the_holder : ◌≢◌ {A = Option Text} (some (codes "a2")) (some (codes "a1"))
not_the_holder e = ground arith

between_locks :
    Calls
      (some (codes "a1"))
      (100 + clamp 5000 300000 50000 none)
      (lock ∷ [])
      (lock ∷ other_unlocked ∷ [])
unfolding clamp
between_locks =
    locking (some (codes "a2")) none 200 true (omega arith) others_lock
      (unlocking (some (codes "a2")) 300 true not_the_holder others_unlock none_between)

try_lock_agent_exclusive_example :
    try_lock_agent (some (codes "a1")) (some (pos 7000)) 50000 (lock ∷ other_unlocked ∷ [])
    ≡ ok (lock ∷ other_unlocked ∷ [], false)
try_lock_agent_exclusive_example =
    try_lock_agent_exclusive (some (codes "a1")) none (some (pos 7000)) 100 50000 [] (lock ∷ [])
      (lock ∷ other_unlocked ∷ []) locks between_locks still_locked

abbrev signed : Text → Consumption
signed nonce = record {
  nonce = some nonce;
  owner = some (codes "o");
  account = some (codes "a");
  action = some (codes "run");
  params_hash = some (codes "h");
}

abbrev row : Text → ℕ → Nonce
row nonce now = record {
  nonce = nonce;
  owner = codes "o";
  account = codes "a";
  action = codes "run";
  params_hash = codes "h";
  consumed_at = now;
}

first_use : consume_owner_auth_nonce [] 5 (signed (codes "n1")) ≡ ok (row (codes "n1") 5 ∷ [], true)
unfolding consume_owner_auth_nonce
first_use = refl

other_use :
    consume_owner_auth_nonce (row (codes "n1") 5 ∷ []) 6 (signed (codes "n2"))
    ≡ ok (row (codes "n2") 6 ∷ row (codes "n1") 5 ∷ [], true)
unfolding consume_owner_auth_nonce text_eq
other_use = refl

second_use :
    consume_owner_auth_nonce (row (codes "n2") 6 ∷ row (codes "n1") 5 ∷ []) 7 (signed (codes "n1"))
    ≡ ok (row (codes "n2") 6 ∷ row (codes "n1") 5 ∷ [], false)
unfolding consume_owner_auth_nonce text_eq
second_use = refl

consume_owner_auth_nonce_once_example : false ≡ false
consume_owner_auth_nonce_once_example =
    consume_owner_auth_nonce_once (signed (codes "n1")) (signed (codes "n1")) 5 7 []
      (row (codes "n1") 5 ∷ []) (row (codes "n2") 6 ∷ row (codes "n1") 5 ∷ [])
      (row (codes "n2") 6 ∷ row (codes "n1") 5 ∷ []) false first_use
      (call 6 (signed (codes "n2")) true (omega arith) other_use no_calls) refl (omega arith)
      second_use

abbrev key_of : Text → Key
key_of id = record {
  id = id;
  agent_id = codes "a1";
  owner = codes "o";
  operator = none;
  label = codes "External agent";
  key_hash = codes "h";
  scopes_json = codes "[]";
  created_at = 1;
  revoked_at = none;
}

abbrev keys : List Key
keys = key_of (codes "k1") ∷ key_of (codes "k2") ∷ []

abbrev revoked_keys : List Key
revoked_keys = record (key_of (codes "k1")) { revoked_at = some 9 } ∷ key_of (codes "k2") ∷ []

abbrev revocation : Revocation
revocation = record {
  id = some (codes "k1");
  agent_id = some (codes "a1");
  owner = some (codes "O");
  time = 9;
}

revokes : revoke_agent_key keys revocation ≡ ok (revoked_keys, true)
unfolding revoke_agent_key text_eq to_lower_case lower
revokes = refl

two_ids : codes "k1" ≢ codes "k2"
unfolding text_eq
two_ids e = let same = (text_eq_iff (codes "k1") (codes "k2")).1 e in cc

revoke_agent_key_inactive_example : get_active_agent_key revoked_keys (some (codes "k1")) ≡ ok none
revoke_agent_key_inactive_example =
    revoke_agent_key_inactive keys revoked_keys revocation ((two_ids, tt), (tt, tt)) revokes

other_id : some (codes "k1") ≢ some (codes "k2")
other_id e = two_ids cc

revoke_agent_key_local_example :
    get_active_agent_key revoked_keys (some (codes "k2"))
    ≡ get_active_agent_key keys (some (codes "k2"))
revoke_agent_key_local_example =
    revoke_agent_key_local keys revoked_keys revocation true (codes "k2") other_id revokes
