-- ===== src/Executor.antt =====
-- agent-executor/src/index.js: the worker that runs an agent at an owner's request.
pub mod Guards
use centry.Prelude.{
  ℕ, ◌≡◌, Bool, true, false, not, ◌&&◌, ◌||◌, Option, none, some, List, [], ◌∷◌, ◌++◌, length, take,
  Result, ok, err, leb, ◌==◌, if◌then◌else◌,
}
use centry.Prelude.Text.{Text, text_eq, codes}
use centry.Prelude.Trim.{trim}
use centry.Runner.Values.{text_or_empty, first_text}

-- The settings that the handler reads.
pub record Env : Type 0 where
  pub executor_key : Option Text
  pub runner_key : Option Text
  pub http_secret : Option Text

-- The body of a request, as far as it is read.
pub record Body : Type 0 where
  pub agent_id : Option Text
  pub message : Option Text

-- A request; the body is `none` where it is no JSON.
pub record Request : Type 0 where
  pub method : Text
  pub path : Text
  pub authorization : Option Text
  pub body : Option Body

-- What `runAgent` gives, as far as it is read.
pub record Outcome : Type 0 where
  pub status : Option Text
  pub answer : Option Text
  pub tx_hash : Option Text
  pub reason : Option Text
  pub error : Option Text

pub data Content : Type 0 where
  healthy : (signer : Text) → Content
  message : Text → Content
  busy : Outcome → Content
  executed : (status : Text) (answer tx_hash reason error : Option Text) → Content

pub record Response : Type 0 where
  pub status : ℕ
  pub content : Content

unfoldable pub is_hex : ℕ → Bool
is_hex c = leb 48 c && leb c 57 || leb 65 c && leb c 70 || leb 97 c && leb c 102

unfoldable pub all_hex : Text → Bool
unfolding is_hex
all_hex [] = true
all_hex (c ∷ t) = is_hex c && all_hex t

-- `/^0x[0-9a-fA-F]{64}$/`
unfoldable pub is_private_key : Text → Bool
unfolding all_hex
is_private_key (c ∷ d ∷ t) = c == 48 && d == 120 && length t == 64 && all_hex t
is_private_key other = false

-- The private key of `getSigner`.
unfoldable pub signer_key : Env → Result Text Text
unfolding text_or_empty first_text is_private_key
signer_key env =
    let key = text_or_empty (first_text env.executor_key env.runner_key) in
    if is_private_key key then ok key else err (codes "agent_executor_private_key_not_configured")

-- `!secret || authorization !== "Bearer " + secret`, denied.
unfoldable pub is_bearer : Option Text → Text → Bool
is_bearer authorization [] = false
is_bearer none (c ∷ t) = false
is_bearer (some a) (c ∷ t) = text_eq a (codes "Bearer " ++ c ∷ t)

unfoldable pub is_authorized : Env → Request → Bool
unfolding is_bearer text_or_empty
is_authorized env r = is_bearer r.authorization (text_or_empty env.http_secret)

-- `value || null`
unfoldable pub or_null : Option Text → Option Text
or_null (some []) = none
or_null other = other

-- `status || "processed"`
unfoldable pub status_or_processed : Option Text → Text
status_or_processed none = codes "processed"
status_or_processed (some []) = codes "processed"
status_or_processed (some (c ∷ t)) = c ∷ t

-- `error instanceof Error ? error.message : "agent_execution_failed"`
unfoldable pub failure : Option Text → Text
failure none = codes "agent_execution_failed"
failure (some t) = t

abbrev pub refused : ℕ → Text → Response
refused status t = record { status = status; content = Content.message t }

unfoldable pub is_locked : Outcome → Bool
is_locked o = text_eq (text_or_empty o.status) (codes "locked")

unfoldable pub respond : Outcome → Response
unfolding is_locked or_null status_or_processed
respond o = if is_locked o then record { status = 409; content = busy o } else record {
  status = 200;
  content =
      executed (status_or_processed o.status) (or_null o.answer) (or_null o.tx_hash)
        (or_null o.reason) (or_null o.error);
}

-- The agents, the database's answer for an id, the address of a key, and what a run gives or
-- throws, with the message of what it throws.
module _ {ℓ} {A : Type ℓ} (agent_by_id : Text → Result (Option Text) (Option A))
    (address : Text → Text) (run_agent : A → Text → Result (Option Text) Outcome) where
  -- The answer, with the run that was made for it, if one was.
  abbrev pub Answer : Type ℓ
  Answer = Response × Option (A × Text)

  unfoldable pub run : A → Text → Answer
  unfolding respond failure
  run agent t = elim (run_agent agent t) [
    | ok o ↦ (respond o, some (agent, t))
    | err e ↦ (refused 400 (failure e), some (agent, t))
  ]

  -- The `try`, up to the run.
  unfoldable pub find_and_run : Env → Text → Text → Answer
  unfolding signer_key run failure
  find_and_run env id t = elim (agent_by_id id) [
    | err e ↦ (refused 400 (failure e), none)
    | ok none ↦ (refused 404 (codes "agent_not_found"), none)
    | ok (some agent) ↦ elim (signer_key env) [
      | err e ↦ (refused 400 e, none)
      | ok key ↦ run agent t
    ]
  ]

  unfoldable pub with_texts : Env → Text → Text → Answer
  unfolding find_and_run
  with_texts env [] t = (refused 400 (codes "agent_id_and_message_required"), none)
  with_texts env (c ∷ id) [] = (refused 400 (codes "agent_id_and_message_required"), none)
  with_texts env (c ∷ id) (d ∷ t) = find_and_run env (c ∷ id) (d ∷ t)

  unfoldable pub with_body : Env → Option Body → Answer
  unfolding with_texts text_or_empty
  with_body env none = (refused 400 (codes "invalid_json"), none)
  with_body env (some b) =
      with_texts env (trim (text_or_empty b.agent_id)) (take 4000 (trim (text_or_empty b.message)))

  unfoldable pub health : Env → Response
  unfolding signer_key
  health env = elim (signer_key env) [
    | ok key ↦ record { status = 200; content = healthy (address key) }
    | err e ↦ refused 503 e
  ]

  unfoldable pub is_route : Request → Text → Text → Bool
  is_route r method path = text_eq r.method method && text_eq r.path path

  -- `fetch`
  unfoldable pub fetch : Env → Request → Answer
  unfolding health is_route is_authorized with_body
  fetch env r =
      if is_route r (codes "GET") (codes "/health")
      then (health env, none)
      else (if not (is_route r (codes "POST") (codes "/execute"))
          then (refused 404 (codes "Not found"), none)
          else (if not (is_authorized env r)
              then (refused 401 (codes "Unauthorized"), none)
              else with_body env r.body))
