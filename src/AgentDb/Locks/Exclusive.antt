-- ===== src/AgentDb/Locks/Exclusive.antt =====
-- Sequences of calls on the locks of agents, in agent-db/src/index.js.
use centry.Prelude.{
  ℕ, ◌+◌, ◌≤◌, ◌≡◌, ◌≢◌, ◌⊎◌, inl, inr, Bool, true, false, Bool-cases, Option, some, none, [], ◌∷◌,
  List, ok, when_ok, ltb, ok_injective, ap, subst, sym, ◌∙◌, arith,
}
use centry.Prelude.Int.{ℤ}
use centry.Prelude.Text.{Text, text_eq, text_eq_refl, text_eq_ne, text_eq_sound}
use centry.AgentDb.Args.{require_string, clamp}
use centry.AgentDb.Locks.{Lock, write_lock, try_lock_agent, release, unlock_agent}

-- Calls one after the other: attempts to lock any agent, not later than `last`, and unlocks of
-- agents other than `own`.
pub data Calls (own : Option Text) (last : ℕ) : List Lock → List Lock → Type 0 where
  none_between : {locks : List Lock} → Calls own last locks locks
  locking :
      {before between after : List Lock} (agent_id : Option Text) (ttl : Option ℤ) (now : ℕ)
      (got : Bool)
      → now ≤ last
      → try_lock_agent agent_id ttl now before ≡ ok (between, got)
      → Calls own last between after
      → Calls own last before after
  unlocking :
      {before between after : List Lock} (agent_id : Option Text) (now : ℕ) (done : Bool)
      → agent_id ≢ own
      → unlock_agent agent_id now before ≡ ok (between, done)
      → Calls own last between after
      → Calls own last before after

-- The agent's row in the table is locked until `time` at least.
abbrev IsHeldUntil : Text → ℕ → List Lock → Type 0
IsHeldUntil k time [] = ⊥
IsHeldUntil k time (l ∷ locks) =
    ((text_eq l.agent_id k ≡ true) × (time ≤ l.locked_until))
    ⊎ ((text_eq l.agent_id k ≡ false) × IsHeldUntil k time locks)

write_lock-got :
    (new : Lock) (now : ℕ) (locks : List Lock)
    → (write_lock new now locks).1 ≡ true
    → IsHeldUntil new.agent_id new.locked_until (write_lock new now locks).0
unfolding write_lock
write_lock-got new now [] h = inl (text_eq_refl new.agent_id, omega arith)
write_lock-got new now (l ∷ locks) h = elim (Bool-cases (text_eq l.agent_id new.agent_id)) [
  | inl e ↦ elim (Bool-cases (ltb l.locked_until now)) [
    | inl free ↦ rw (e, free) (inl (text_eq_refl new.agent_id, omega arith))
    | inr busy ↦ let refused : false ≡ true = rw (e, busy) at h in cc
  ]
  | inr e ↦ rw e (inr (e, write_lock-got new now locks (rw e at h)))
]

write_lock-refused :
    (again : Lock) (later time : ℕ) (locks : List Lock)
    → later ≤ time
    → IsHeldUntil again.agent_id time locks
    → write_lock again later locks ≡ (locks, false)
unfolding write_lock
write_lock-refused again later time [] within u = elim u [ ]
write_lock-refused again later time (l ∷ locks) within (inl (own, held)) =
    let still : ltb l.locked_until later ≡ false = ground arith in rw (own, still)
write_lock-refused again later time (l ∷ locks) within (inr (other, u)) =
    rw (other, write_lock-refused again later time locks within u)

-- An attempt leaves a row alone that is locked for longer.
write_lock-IsHeldUntil :
    (k : Text) (new : Lock) (now time : ℕ) (locks : List Lock)
    → now ≤ time
    → IsHeldUntil k time locks
    → IsHeldUntil k time (write_lock new now locks).0
unfolding write_lock
write_lock-IsHeldUntil k new now time [] within u = elim u [ ]
write_lock-IsHeldUntil k new now time (l ∷ locks) within (inl (own, held)) =
    let still : ltb l.locked_until now ≡ false = ground arith in
    elim (Bool-cases (text_eq l.agent_id new.agent_id)) [
      | inl e ↦ rw (e, still) (inl (own, held))
      | inr e ↦ rw e (inl (own, held))
    ]
write_lock-IsHeldUntil k new now time (l ∷ locks) within (inr (other, u)) =
    elim (Bool-cases (text_eq l.agent_id new.agent_id)) [
      | inl e ↦
          let same : l.agent_id ≡ new.agent_id = text_eq_sound l.agent_id new.agent_id e in
          elim (Bool-cases (ltb l.locked_until now)) [
            | inl free ↦ rw (e, free) (inr (rw same at other, u))
            | inr busy ↦ rw (e, busy) (inr (other, u))
          ]
      | inr e ↦ rw e (inr (other, write_lock-IsHeldUntil k new now time locks within u))
    ]

-- The release of another agent's row does too.
release-IsHeldUntil :
    (k id : Text) (now time : ℕ) (locks : List Lock)
    → id ≢ k
    → IsHeldUntil k time locks
    → IsHeldUntil k time (release id now locks)
unfolding release
release-IsHeldUntil k id now time [] other u = elim u [ ]
release-IsHeldUntil k id now time (l ∷ locks) other (inl (own, held)) =
    let same : l.agent_id ≡ k = text_eq_sound l.agent_id k own in
    let kept : text_eq l.agent_id id ≡ false =
      text_eq_ne l.agent_id id (λ e. other (sym e ∙ same)) in
    rw kept (inl (own, held))
release-IsHeldUntil k id now time (l ∷ locks) other (inr (differs, u)) =
    let rest = release-IsHeldUntil k id now time locks other u in
    elim (Bool-cases (text_eq l.agent_id id)) [
      | inl e ↦ rw e (inr (differs, rest))
      | inr e ↦ rw e (inr (differs, rest))
    ]

require_string-some : (o : Option Text) (name k : Text) → require_string o name ≡ ok k → o ≡ some k
unfolding require_string
require_string-some none name k h = cc
require_string-some (some []) name k h = cc
require_string-some (some (c ∷ t)) name k h = ap some (ok_injective h)

locking-IsHeldUntil :
    (k : Text) (agent_id : Option Text) (ttl : Option ℤ) (now time : ℕ) (before after : List Lock)
    (got : Bool)
    → now ≤ time
    → try_lock_agent agent_id ttl now before ≡ ok (after, got)
    → IsHeldUntil k time before
    → IsHeldUntil k time after
unfolding try_lock_agent
locking-IsHeldUntil k agent_id ttl now time before after got within h u =
    when_ok (require_string agent_id _) _ h λ id e h₁.
      subst (λ (w : List Lock × Bool). IsHeldUntil k time w.0) (ok_injective h₁)
        (write_lock-IsHeldUntil k _ now time before within u)

unlocking-IsHeldUntil :
    (k : Text) (agent_id : Option Text) (now time : ℕ) (before after : List Lock) (done : Bool)
    → agent_id ≢ some k
    → unlock_agent agent_id now before ≡ ok (after, done)
    → IsHeldUntil k time before
    → IsHeldUntil k time after
unfolding unlock_agent
unlocking-IsHeldUntil k agent_id now time before after done other h u =
    when_ok (require_string agent_id _) _ h λ id e h₁.
      let named = require_string-some agent_id _ id e in
      subst (λ (w : List Lock × Bool). IsHeldUntil k time w.0) (ok_injective h₁)
        (release-IsHeldUntil k id now time before (λ same. other (named ∙ ap some same)) u)

Calls-IsHeldUntil :
    (k : Text) (time : ℕ) (before after : List Lock)
    → Calls (some k) time before after
    → IsHeldUntil k time before
    → IsHeldUntil k time after
Calls-IsHeldUntil k time before after none_between u = u
Calls-IsHeldUntil k time before after (locking agent_id ttl now got within h calls) u =
    Calls-IsHeldUntil k time _ after calls
      (locking-IsHeldUntil k agent_id ttl now time before _ got within h u)
Calls-IsHeldUntil k time before after (unlocking agent_id now done other h calls) u =
    Calls-IsHeldUntil k time _ after calls
      (unlocking-IsHeldUntil k agent_id now time before _ done other h u)

-- After a call that got an agent's lock, every call for the same agent, not later than the end of
-- the lock, answers false and leaves the table as it is: whatever attempts to lock any agent, not
-- later than that end, and whatever unlocks of other agents come in between.
pub try_lock_agent_exclusive :
    (agent_id : Option Text) (ttl again : Option ℤ) (now later : ℕ) (locks held between : List Lock)
    → try_lock_agent agent_id ttl now locks ≡ ok (held, true)
    → Calls agent_id (now + clamp 5000 300000 50000 ttl) held between
    → later ≤ now + clamp 5000 300000 50000 ttl
    → try_lock_agent agent_id again later between ≡ ok (between, false)
unfolding try_lock_agent
try_lock_agent_exclusive agent_id ttl again now later locks held between h calls within =
    when_ok (require_string agent_id _) _ h λ id e h₁.
      let until = now + clamp 5000 300000 50000 ttl in
      let written = ok_injective h₁ in
      let got =
        write_lock-got (record { agent_id = id; locked_until = until; updated_at = now }) now locks
          (ap (λ (w : List Lock × Bool). w.1) written) in
      let there =
        Calls-IsHeldUntil id until held between (rw (require_string-some agent_id _ id e) at calls)
          (rw written at got) in
      rw e (
        ap ok (
          write_lock-refused
            (record {
              agent_id = id;
              locked_until = later + clamp 5000 300000 50000 again;
              updated_at = later;
            })
            later until between within there))
