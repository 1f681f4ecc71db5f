-- ===== src/AgentDb/Nonces.antt =====
-- The nonces of the owners' signed requests, in `runOperation` of agent-db/src/index.js. A time is
-- a number of milliseconds.
pub mod Once
use centry.Prelude.{
  ℕ, ◌-◌, Bool, true, false, Option, List, [], ◌∷◌, ◌++◌, ◌||◌, Result, ok, ◌>>=◌, ltb,
  if◌then◌else◌,
}
use centry.Prelude.Text.{Text, text_eq, codes}
use centry.AgentDb.Args.{Error, require_string}

-- A row of centry_owner_auth_nonces.
pub record Nonce : Type 0 where
  pub nonce : Text
  pub owner : Text
  pub account : Text
  pub action : Text
  pub params_hash : Text
  pub consumed_at : ℕ

-- The arguments, as they arrive.
pub record Consumption : Type 0 where
  pub nonce : Option Text
  pub owner : Option Text
  pub account : Option Text
  pub action : Option Text
  pub params_hash : Option Text

-- The row that the arguments ask for.
unfoldable pub read_nonce : Consumption → ℕ → Result Error Nonce
unfolding require_string
read_nonce args now = do
  nonce ← require_string args.nonce (codes "nonce")
  owner ← require_string args.owner (codes "owner")
  account ← require_string args.account (codes "account")
  action ← require_string args.action (codes "action")
  params_hash ← require_string args.params_hash (codes "paramsHash")
  ok (record {
    nonce = nonce;
    owner = owner;
    account = account;
    action = action;
    params_hash = params_hash;
    consumed_at = now;
  })

-- `DELETE ... WHERE consumed_at < ?`
unfoldable pub delete_before : ℕ → List Nonce → List Nonce
delete_before time [] = []
delete_before time (n ∷ nonces) =
    let rest = delete_before time nonces in if ltb n.consumed_at time then rest else n ∷ rest

unfoldable pub is_used : Text → List Nonce → Bool
is_used nonce [] = false
is_used nonce (n ∷ nonces) = text_eq n.nonce nonce || is_used nonce nonces

-- `INSERT OR IGNORE`, and whether the row was written.
unfoldable pub insert_nonce : Nonce → List Nonce → List Nonce × Bool
unfolding is_used
insert_nonce n nonces = if is_used n.nonce nonces then (nonces, false) else (n ∷ nonces, true)

-- `consume_owner_auth_nonce`: rows older than a day are deleted first.
unfoldable pub consume_owner_auth_nonce :
    List Nonce → ℕ → Consumption → Result Error (List Nonce × Bool)
unfolding read_nonce delete_before insert_nonce
consume_owner_auth_nonce nonces now args = do
  n ← read_nonce args now
  ok (insert_nonce n (delete_before (now - 86400000) nonces))
