-- ===== src/Runner/Ledger/Cleared.antt =====
-- A batch of `buildCalls` can pay for itself, and leaves no approval behind.
use centry.Prelude.{
  ◌≤◌, ◌≡◌, refl, ◌∙◌, sym, inl, inr, Bool, true, false, some, List, [], ◌∷◌, ok, ok_injective,
  subst, arith,
}
use centry.Prelude.Text.{Text}
use centry.Prelude.Assoc.{lookup}
use centry.Runner.Values.{Viem, Action}
use centry.Runner.Policy.{Autonomy, agent_policy}
use centry.Runner.Batch.{Agent, Reads, Call, Batch, empty_batch}
use centry.Runner.Build.{Context, build_calls}
use centry.Runner.Ledger.{Ledger, run_calls, approves, KeepsAddresses, Shows}
use centry.Runner.Build.Parts.{Parts, context, build_calls-Parts}
use centry.Runner.Ledger.Tracks.{Tracks}
use centry.Runner.Ledger.Builds.{build_loop-Leads}
use centry.Runner.Ledger.Resets.{IsReset, reset_loop_runs}

-- The calls run from the ledger: no allowance is higher afterwards, and what was approved is 0.
abbrev pub IsCleared : List Call → Ledger → Type 0
IsCleared calls before =
    (after : Ledger) × (run_calls calls before ≡ some after)
    × ((k : Text) → after k ≤ before k)
    × ((k : Text) → approves k calls ≡ true → after k ≡ 0)

empty_batch-Tracks : (before : Ledger) → Tracks before empty_batch before
unfolding run_calls approves lookup
empty_batch-Tracks before = record {
  runs = refl;
  known = λ k n h. cc;
  fresh = λ k h. refl;
  not_raised = λ k h. ground arith;
  unapproved = λ k h. refl;
  keyed = tt;
}

not_raised_after :
    (before : Ledger) (b : Batch) (ledger : Ledger) (calls : List Call) (after : Ledger) (k : Text)
    → Tracks before b ledger
    → IsReset b.cleanup b.calls calls ledger after k
    → after k ≤ before k
not_raised_after before b ledger calls after k t (inl (absent, kept, same)) =
    rw kept (t.not_raised k absent)
not_raised_after before b ledger calls after k t (inr zeroed) = rw zeroed (omega arith)

cleared_after :
    (before : Ledger) (b : Batch) (ledger : Ledger) (calls : List Call) (after : Ledger) (k : Text)
    → Tracks before b ledger
    → IsReset b.cleanup b.calls calls ledger after k
    → approves k calls ≡ true
    → after k ≡ 0
cleared_after before b ledger calls after k t (inl (absent, kept, same)) h =
    let wrong : true ≡ false = sym h ∙ same ∙ t.unapproved k absent in cc
cleared_after before b ledger calls after k t (inr zeroed) h = zeroed

Parts-IsCleared :
    (x : Context) (before : Ledger) (actions : List Action) (calls : List Call)
    → KeepsAddresses x.viem
    → Shows x.reads before
    → Parts x actions calls
    → IsCleared calls before
Parts-IsCleared x before actions calls keeps shows parts =
    let (ledger, t) =
      build_loop-Leads x before keeps shows (agent_policy x.autonomy) actions empty_batch
        parts.built parts.loop before (empty_batch-Tracks before) in
    let (after, runs, reset) =
      reset_loop_runs x before keeps parts.built.cleanup parts.built parts.reset ledger t.keyed
        t.runs parts.resets in
    subst (λ calls. IsCleared calls before) parts.result
      (
        after,
        runs,
        λ k. not_raised_after before parts.built ledger parts.reset.calls after k t (reset k),
        λ k. cleared_after before parts.built ledger parts.reset.calls after k t (reset k),
      )

-- Let `getAddress` keep an address up to case, and the ledger hold what the chain's reads of
-- allowances give. Then the calls that `buildCalls` gives run from the ledger, none of them
-- reverting for want of an allowance, to one in which no allowance is higher than before and every
-- allowance that a call of the batch approved is 0.
pub build_calls-IsCleared :
    (viem : Viem) (reads : Reads) (agent : Agent) (autonomy : Autonomy) (human : Bool)
    (actions : List Action) (calls : List Call) (before : Ledger)
    → KeepsAddresses viem
    → Shows reads before
    → build_calls viem reads agent autonomy human actions ≡ ok calls
    → IsCleared calls before
unfolding build_calls run_calls approves
build_calls-IsCleared viem reads agent autonomy human [] calls before keeps shows h =
    subst (λ calls. IsCleared calls before) (ok_injective h)
      (before, refl, (λ k. ground arith), λ k e. cc)
build_calls-IsCleared viem reads agent autonomy human (a ∷ more) calls before keeps shows h =
    let (account, _, _, parts) = build_calls-Parts viem reads agent autonomy human a more calls h in
    Parts-IsCleared (context viem reads agent autonomy human account) before (a ∷ more) calls keeps
      shows parts
