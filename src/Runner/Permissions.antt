-- ===== src/Runner/Permissions.antt =====
-- `assertPermissions` of agent-runner/src/index.js: the account must let the worker make each call.
use centry.Prelude.{
  ◌≡◌, ◌≢◌, refl, Bool, true, false, not, Option, none, some, List, [], ◌∷◌, ◌++◌, All, Result, ok,
  err, ◌>>=◌, ◌>>◌, throw_if,
}
use centry.Prelude.Text.{Text}
use centry.Runner.Batch.{Call}

pub data PermissionError : Type 0 where
  check_failed : (target selector : Text) → PermissionError
  denied : (target selector : Text) → PermissionError

-- The account's answers, by target and selector; `none` is a read that fails.
module _ (can_execute : Text → Text → Option Bool) where
  unfoldable pub read_permission : Call → Result PermissionError Bool
  read_permission c = elim (can_execute c.target c.selector_hex) [
    | none ↦ err (check_failed c.target c.selector_hex)
    | some permitted ↦ ok permitted
  ]

  unfoldable pub check_call : Call → Result PermissionError (Unit {0})
  unfolding read_permission
  check_call c = do
    permitted ← read_permission c
    throw_if (not permitted) (denied c.target c.selector_hex)

  -- `assertPermissions`
  unfoldable pub assert_permissions : List Call → Result PermissionError (Unit {0})
  unfolding check_call
  assert_permissions [] = ok tt
  assert_permissions (c ∷ calls) = check_call c >> assert_permissions calls

  -- The account permits a call.
  abbrev pub IsAllowed : Call → Type 0
  IsAllowed c = can_execute c.target c.selector_hex ≡ some true

  -- What a call that is not permitted is refused with.
  abbrev pub refusal : Call → Option Bool → PermissionError
  refusal c none = check_failed c.target c.selector_hex
  refusal c (some permitted) = denied c.target c.selector_hex

  check_call-allowed : (c : Call) → IsAllowed c → check_call c ≡ ok tt
  unfolding check_call read_permission
  check_call-allowed c h = rw (check_call, read_permission, h) refl

  refused :
      (c : Call) (calls : List Call) (answer : Option Bool)
      → can_execute c.target c.selector_hex ≡ answer
      → answer ≢ some true
      → assert_permissions (c ∷ calls) ≡ err (refusal c answer)
  unfolding assert_permissions check_call read_permission
  refused c calls none h other = rw (check_call, read_permission, h) refl
  refused c calls (some true) h other = elim (other refl) [ ]
  refused c calls (some false) h other = rw (check_call, read_permission, h) refl

  -- Where the account permits the calls `first`, and the answer to the next one is not yes, the
  -- batch is refused with that call's error, whatever comes after it: that the read failed, or that
  -- the call is denied. Where the account permits all calls of a batch, it passes.
  pub assert_permissions_lem :
      (first calls : List Call)
      → All IsAllowed first
      → (assert_permissions first ≡ ok tt)
        × ((c : Call) (answer : Option Bool)
            → can_execute c.target c.selector_hex ≡ answer
            → answer ≢ some true
            → assert_permissions (first ++ c ∷ calls) ≡ err (refusal c answer))
  unfolding assert_permissions
  assert_permissions_lem [] calls allowed =
      (refl, λ c answer h other. refused c calls answer h other)
  assert_permissions_lem (d ∷ first) calls (here, allowed) =
      let (passes, refuses) = assert_permissions_lem first calls allowed in
      (
        rw (check_call-allowed d here) passes,
        λ c answer h other. rw (check_call-allowed d here) (refuses c answer h other),
      )
