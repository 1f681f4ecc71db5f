-- ===== src/Runner/Receipts.antt =====
-- The receipts of a batch, in agent-runner/src/index.js: which action each call is recorded under.
pub mod Segments
pub mod Shapes
pub mod Labels
use centry.Prelude.{
  ℕ, ◌+◌, Bool, true, false, ◌&&◌, ◌||◌, Option, none, some, List, [], ◌∷◌, ◌++◌, map,
  if◌then◌else◌,
}
use centry.Prelude.Text.{Text, text_eq, to_lower_case, codes}
use centry.Runner.Values.{Action}
use centry.Runner.Policy.{Kind, name_of, type_of}
use centry.Runner.Batch.{Call}

-- `actionIndex` and `actionType` of a call.
pub record Label : Type 0 where
  pub index : ℕ
  pub type : Text

abbrev pub approve_selector : Text
approve_selector = codes "0x095ea7b3"

-- `approvalMayPrecede`
unfoldable pub may_precede : Text → Bool
may_precede t =
    text_eq t (name_of Kind.supply)
    || text_eq t (name_of Kind.repay)
    || text_eq t (name_of Kind.swap)

-- Has a call the selector of `approve`?
unfoldable pub is_approval : Call → Bool
is_approval c = text_eq (to_lower_case c.selector_hex) approve_selector

unfoldable pub is_approval_next : List Call → Bool
unfolding is_approval
is_approval_next [] = false
is_approval_next (c ∷ calls) = is_approval c

-- `annotate`, of the next call if there is one.
unfoldable pub label_next : ℕ → Text → List Call → List (Option Label)
label_next i t [] = []
label_next i t (c ∷ calls) = some (record { index = i; type = t }) ∷ []

unfoldable pub drop_next : List Call → List Call
drop_next [] = []
drop_next (c ∷ calls) = calls

abbrev pub unlabelled : List Call → List (Option Label)
unlabelled calls = map (λ c. none) calls

-- The loop of `annotateActionCalls`, from an action's index on, over the calls from the offset on.
unfoldable pub annotate_from : ℕ → List Action → List Call → List (Option Label)
unfolding may_precede is_approval_next label_next drop_next type_of
annotate_from i [] calls = unlabelled calls
annotate_from i (a ∷ more) calls =
    let approved = may_precede (type_of a) && is_approval_next calls in
    let after = if approved then drop_next calls else calls in
    (if approved then label_next i (name_of Kind.approve) calls else [])
    ++ label_next i (type_of a) after
    ++ annotate_from (i + 1) more (drop_next after)

-- `annotateActionCalls`
unfoldable pub annotate_action_calls : List Action → List Call → List (Option Label)
unfolding annotate_from
annotate_action_calls actions calls = annotate_from 0 actions calls

-- A row of centry_agent_action_receipts, as far as it is of its call.
pub record Receipt : Type 0 where
  pub action_index : ℕ
  pub action_type : Text
  pub target : Text
  pub selector : Text

-- `String(call.actionType || "unknown")`
unfoldable pub type_or_unknown : Text → Text
type_or_unknown [] = codes "unknown"
type_or_unknown (c ∷ t) = c ∷ t

unfoldable pub receipt_of : Call → Option Label → Receipt
unfolding type_or_unknown
receipt_of c none = record {
  action_index = 0;
  action_type = codes "unknown";
  target = c.target;
  selector = c.selector_hex;
}
receipt_of c (some l) = record {
  action_index = l.index;
  action_type = type_or_unknown l.type;
  target = c.target;
  selector = c.selector_hex;
}

-- The rows that `createActionReceipts` inserts, for the calls and what they are annotated with.
unfoldable pub create_action_receipts : List Call → List (Option Label) → List Receipt
unfolding receipt_of
create_action_receipts [] labels = []
create_action_receipts (c ∷ calls) [] = receipt_of c none ∷ create_action_receipts calls []
create_action_receipts (c ∷ calls) (l ∷ labels) =
    receipt_of c l ∷ create_action_receipts calls labels
