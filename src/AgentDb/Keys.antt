-- ===== src/AgentDb/Keys.antt =====
-- The keys of external agents, in `runOperation` of agent-db/src/index.js. A time is a number of
-- milliseconds.
pub mod Revoked
use centry.Prelude.{
  ℕ, Bool, true, false, ◌&&◌, ◌||◌, Option, none, some, List, [], ◌∷◌, ◌++◌, Result, ok, err, ◌>>=◌,
  ◌>>◌, if◌then◌else◌,
}
use centry.Prelude.Text.{Text, text_eq, to_lower_case, codes}
use centry.AgentDb.Args.{Error, key_exists, require_string}

-- A row of centry_agent_keys.
pub record Key : Type 0 where
  pub id : Text
  pub agent_id : Text
  pub owner : Text
  pub operator : Option Text
  pub label : Text
  pub key_hash : Text
  pub scopes_json : Text
  pub created_at : ℕ
  pub revoked_at : Option ℕ

-- The arguments of `create_agent_key`; the scopes are given as the JSON that is stored.
pub record NewKey : Type 0 where
  pub id : Option Text
  pub agent_id : Option Text
  pub owner : Option Text
  pub operator : Option Text
  pub label : Option Text
  pub key_hash : Option Text
  pub scopes_json : Text

-- `args.label || "External agent"`
unfoldable pub label_of : Option Text → Text
label_of none = codes "External agent"
label_of (some []) = codes "External agent"
label_of (some (c ∷ t)) = c ∷ t

-- `args.operator || null`
unfoldable pub operator_of : Option Text → Option Text
operator_of none = none
operator_of (some []) = none
operator_of (some (c ∷ t)) = some (c ∷ t)

unfoldable pub find_key : (Key → Bool) → List Key → Option Key
find_key p [] = none
find_key p (k ∷ keys) = let rest = find_key p keys in if p k then some k else rest

unfoldable pub new_key : NewKey → ℕ → Result Error Key
unfolding require_string label_of operator_of
new_key args now = do
  id ← require_string args.id (codes "id")
  agent_id ← require_string args.agent_id (codes "agentId")
  owner ← require_string args.owner (codes "owner")
  key_hash ← require_string args.key_hash (codes "keyHash")
  ok (record {
    id = id;
    agent_id = agent_id;
    owner = owner;
    operator = operator_of args.operator;
    label = label_of args.label;
    key_hash = key_hash;
    scopes_json = args.scopes_json;
    created_at = now;
    revoked_at = none;
  })

-- `INSERT`, which fails for an id that the table has.
unfoldable pub insert_key : Key → List Key → Result Error (List Key)
unfolding find_key
insert_key k keys = elim (find_key (λ j. text_eq j.id k.id) keys) [
  | some old ↦ err key_exists
  | none ↦ ok (keys ++ k ∷ [])
]

-- `create_agent_key`
unfoldable pub create_agent_key : List Key → ℕ → NewKey → Result Error (List Key)
unfolding new_key insert_key
create_agent_key keys now args = do k ← new_key args now; insert_key k keys

unfoldable pub is_active : Text → Key → Bool
is_active id k = text_eq k.id id && elim k.revoked_at [ none ↦ true | some time ↦ false ]

-- `get_active_agent_key`
unfoldable pub get_active_agent_key : List Key → Option Text → Result Error (Option Key)
unfolding require_string is_active find_key
get_active_agent_key keys arg = do
  id ← require_string arg (codes "id")
  ok (find_key (is_active id) keys)

-- `id = ? AND agent_id = ? AND lower(owner) = lower(?)`
unfoldable pub is_owned : Text → Text → Text → Key → Bool
is_owned id agent_id owner k =
    text_eq k.id id
    && text_eq k.agent_id agent_id
    && text_eq (to_lower_case k.owner) (to_lower_case owner)

-- `revoked_at = COALESCE(revoked_at, ?)`
unfoldable pub mark_revoked : ℕ → Key → Key
mark_revoked time k = record k {
  revoked_at = elim k.revoked_at [ none ↦ some time | some old ↦ some old ];
}

unfoldable pub revoke_owned : (Key → Bool) → ℕ → List Key → List Key
unfolding mark_revoked
revoke_owned p time [] = []
revoke_owned p time (k ∷ keys) = (if p k then mark_revoked time k else k) ∷ revoke_owned p time keys

-- The arguments of `revoke_agent_key`, with its time or the clock's.
pub record Revocation : Type 0 where
  pub id : Option Text
  pub agent_id : Option Text
  pub owner : Option Text
  pub time : ℕ

-- `revoke_agent_key`: the table, and whether the key was found.
unfoldable pub revoke_agent_key : List Key → Revocation → Result Error (List Key × Bool)
unfolding require_string is_owned find_key revoke_owned
revoke_agent_key keys args = do
  id ← require_string args.id (codes "id")
  agent_id ← require_string args.agent_id (codes "agentId")
  owner ← require_string args.owner (codes "owner")
  elim (find_key (is_owned id agent_id owner) keys) [
    | none ↦ ok (keys, false)
    | some k ↦ ok (revoke_owned (is_owned id agent_id owner) args.time keys, true)
  ]
