-- ===== src/AgentDb/Locks.antt =====
-- The lock that one run of an agent holds, in `runOperation` of agent-db/src/index.js.
pub mod Exclusive
use centry.Prelude.{
  ℕ, ◌+◌, Bool, true, false, Option, none, some, List, [], ◌∷◌, Result, ok, ◌>>=◌, ltb,
  if◌then◌else◌,
}
use centry.Prelude.Int.{ℤ}
use centry.Prelude.Text.{Text, text_eq, codes}
use centry.AgentDb.Args.{Error, require_string, clamp}

-- A row of centry_agent_locks. Times are in milliseconds.
pub record Lock : Type 0 where
  pub agent_id : Text
  pub locked_until : ℕ
  pub updated_at : ℕ

-- `INSERT ... ON CONFLICT(agent_id) DO UPDATE ... WHERE locked_until < now`: the table, and whether
-- a row was written.
unfoldable pub write_lock : Lock → ℕ → List Lock → List Lock × Bool
write_lock new now [] = (new ∷ [], true)
write_lock new now (l ∷ locks) =
    let rest = write_lock new now locks in
    if text_eq l.agent_id new.agent_id
    then (if ltb l.locked_until now then (new ∷ locks, true) else (l ∷ locks, false))
    else (l ∷ rest.0, rest.1)

-- `try_lock_agent`
unfoldable pub try_lock_agent :
    Option Text → Option ℤ → ℕ → List Lock → Result Error (List Lock × Bool)
unfolding require_string write_lock clamp
try_lock_agent agent_id ttl_ms now locks = do
  id ← require_string agent_id (codes "agentId")
  ok (
      write_lock
        (record {
          agent_id = id;
          locked_until = now + clamp 5000 300000 50000 ttl_ms;
          updated_at = now;
        })
        now locks)

-- The `UPDATE` of `unlock_agent`.
unfoldable pub release : Text → ℕ → List Lock → List Lock
release agent_id now [] = []
release agent_id now (l ∷ locks) =
    (if text_eq l.agent_id agent_id then record l { locked_until = 0; updated_at = now } else l)
    ∷ release agent_id now locks

-- `unlock_agent`, which answers true.
unfoldable pub unlock_agent : Option Text → ℕ → List Lock → Result Error (List Lock × Bool)
unfolding require_string release
unlock_agent agent_id now locks = do
  id ← require_string agent_id (codes "agentId")
  ok (release id now locks, true)
