-- ===== src/AgentDb/Args.antt =====
-- The tests of an operation's arguments, in agent-db/src/index.js.
use centry.Prelude.{
  ℕ, Option, none, some, [], ◌∷◌, length, Result, ok, err, ◌>>=◌, ◌>>◌, throw_if, ltb,
  if◌then◌else◌,
}
use centry.Prelude.Int.{ℤ, pos, negsuc}
use centry.Prelude.Text.{Text}

-- The errors that an operation throws; the first two name the argument.
pub data Error : Type 0 where
  argument_required : Text → Error
  argument_too_long : Text → Error
  invalid_task_status : Error
  agent_task_lease_lost : Error
  key_exists : Error

-- `requireString`; `none` is a value that is no string.
unfoldable pub require_string : Option Text → Text → Result Error Text
require_string none name = err (argument_required name)
require_string (some []) name = err (argument_required name)
require_string (some (c ∷ t)) name = ok (c ∷ t)

-- `boundedText`
unfoldable pub bounded_text : Option Text → Text → ℕ → Result Error Text
unfolding require_string
bounded_text value name max_length = do
  text ← require_string value name
  throw_if (ltb max_length (length text)) (argument_too_long name)
  ok text

-- `Math.max(low, Math.min(high, Number(value) || default))`, for the whole numbers that the callers
-- send; `none` is what `Number` makes no number of.
unfoldable pub clamp : ℕ → ℕ → ℕ → Option ℤ → ℕ
clamp low high default none = default
clamp low high default (some (negsuc n)) = low
clamp low high default (some (pos n)) =
    if ltb n 1 then default else (if ltb n low then low else (if ltb high n then high else n))
