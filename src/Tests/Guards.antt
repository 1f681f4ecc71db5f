-- ===== src/Tests/Guards.antt =====
-- The theorems on permissions and on the executor, on a batch and a request.
use centry.Prelude.{
  ◌≡◌, ◌≢◌, refl, Bool, true, Option, none, some, [], ◌∷◌, ◌++◌, Result, ok, err, replicate,
  if◌then◌else◌,
}
use centry.Prelude.Text.{Text, text_eq, codes}
use centry.Prelude.Trim
use centry.Runner.Values.{Payload}
use centry.Runner.Batch.{Call}
use centry.Runner.Permissions.{assert_permissions, IsAllowed, refusal, assert_permissions_lem}
use centry.Executor.{Env, Request, Outcome, fetch}
use centry.Executor.Guards.{IsGuarded, fetch-IsGuarded}

abbrev call : Text → Call
call target = record {
  target = target;
  payload = Payload.cast_vote 1 2;
  data_hex = codes "0x56781388";
  selector_hex = codes "0x56781388";
}

-- The account permits calls of one target only.
abbrev can_execute : Text → Text → Option Bool
can_execute target selector = some (text_eq target (codes "0xaa"))

call-IsAllowed : IsAllowed can_execute (call (codes "0xaa"))
unfolding text_eq
call-IsAllowed = refl

assert_permissions_lem_example :
    (assert_permissions can_execute (call (codes "0xaa") ∷ []) ≡ ok tt)
    × ((c : Call) (answer : Option Bool)
        → can_execute c.target c.selector_hex ≡ answer
        → answer ≢ some true
        → assert_permissions can_execute (call (codes "0xaa") ∷ c ∷ call (codes "0xbb") ∷ [])
          ≡ err (refusal can_execute c answer))
assert_permissions_lem_example =
    assert_permissions_lem can_execute (call (codes "0xaa") ∷ []) (call (codes "0xbb") ∷ [])
      (call-IsAllowed, tt)

abbrev env : Env
env = record {
  executor_key = some (codes "0x" ++ replicate 64 97);
  runner_key = none;
  http_secret = some (codes "s3cret");
}

abbrev request : Request
request = record {
  method = codes "POST";
  path = codes "/execute";
  authorization = some (codes "Bearer s3cret");
  body = some (record { agent_id = some (codes " a1 "); message = some (codes "swap it ") });
}

-- One agent, which is its own id.
abbrev agent_by_id : Text → Result (Option Text) (Option Text)
agent_by_id id = ok (if text_eq id (codes "a1") then some id else none)

abbrev address : Text → Text
address key = codes "0xcc"

abbrev run_agent : Text → Text → Result (Option Text) Outcome
run_agent agent t = err none

ran : (fetch agent_by_id address run_agent env request).1 ≡ some (codes "a1", codes "swap it")
unfolding fetch text_eq Trim.trim
ran = refl

fetch-IsGuarded_example :
    IsGuarded agent_by_id address run_agent env request (codes "a1", codes "swap it")
fetch-IsGuarded_example =
    fetch-IsGuarded agent_by_id address run_agent env request (codes "a1", codes "swap it") ran
