-- ===== src/Runner/Receipts/Labels.antt =====
-- Every call of a batch is recorded under the action that has added it.
use centry.Prelude.{
  ℕ, ◌+◌, ◌≡◌, refl, ap, sym, ◌∙◌, Bool, Option, some, List, [], ◌∷◌, ◌++◌, append_assoc,
  append-nil, map, All, ok, ok_injective, when_ok, subst,
}
use centry.Prelude.Text.{Text}
use centry.Runner.Values.{Payload, Viem, Action}
use centry.Runner.Policy.{Policy, Autonomy, type_of, agent_policy, assert_action_policy}
use centry.Runner.Batch.{Agent, Reads, Call, Batch, empty_batch, push, make_call, make_call-eq}
use centry.Runner.Build.{Context, push_call, build_action, build_loop, reset_loop, build_calls}
use centry.Runner.Build.Parts.{Parts, context, build_calls-Parts}
use centry.Runner.Receipts.{
  Label, unlabelled, annotate_from, annotate_action_calls, is_approval_next, label_next, drop_next,
}
use centry.Runner.Receipts.Segments.{Selects, call_type, Shape, single, double}
use centry.Runner.Receipts.Shapes.{build_kind-Shape}

-- The action has added the segment.
abbrev pub IsPushed : Context → Policy → Action → List Call → Type 0
IsPushed x policy a segment =
    (b : Batch) × (c : Batch) × (build_action x policy b a ≡ ok c) × (c.calls ≡ b.calls ++ segment)

-- A call that sets an allowance to 0.
abbrev pub IsReset : Call → Type 0
IsReset c = (spender : Text) × (c.payload ≡ Payload.approve spender 0)

module _ (x : Context) (policy : Policy) where
  -- The calls of the actions, one after the other, and the rest of the batch.
  abbrev pub Segmented : List Action → List Call → List Call → Type 0
  Segmented [] tail calls = calls ≡ tail
  Segmented (a ∷ more) tail calls =
      (segment : List Call) × (rest : List Call) × (calls ≡ segment ++ rest)
      × IsPushed x policy a segment
      × Shape (type_of a) segment
      × Segmented more tail rest

  -- What a call of the action of the index is to be annotated with.
  abbrev pub label_of : ℕ → Action → Call → Option Label
  label_of i a c = some (record { index = i; type = call_type (type_of a) c })

  -- The calls of the actions from an index on with their labels, and the rest without.
  abbrev pub IsLabelled : ℕ → List Action → List Call → List Call → List (Option Label) → Type 0
  IsLabelled i [] tail calls labels = (calls ≡ tail) × (labels ≡ unlabelled tail)
  IsLabelled i (a ∷ more) tail calls labels =
      (segment : List Call) × (rest : List Call) × (rest_labels : List (Option Label)) × (calls
        ≡ segment ++ rest)
      × (labels ≡ map (label_of i a) segment ++ rest_labels)
      × IsPushed x policy a segment
      × IsLabelled (i + 1) more tail rest rest_labels

  annotate_segment :
      (i : ℕ) (a : Action) (more : List Action) (segment rest : List Call)
      → Shape (type_of a) segment
      → annotate_from i (a ∷ more) (segment ++ rest)
        ≡ map (label_of i a) segment ++ annotate_from (i + 1) more rest
  unfolding annotate_from is_approval_next label_next drop_next
  annotate_segment i a more segment rest (single c e taken same) = rw e (rw (taken, same) refl)
  annotate_segment i a more segment rest (double p c e taken first same) =
      rw e (rw (taken, first, same) refl)

  annotate_from-IsLabelled :
      (i : ℕ) (actions : List Action) (tail calls : List Call)
      → Segmented actions tail calls
      → IsLabelled i actions tail calls (annotate_from i actions calls)
  unfolding annotate_from
  annotate_from-IsLabelled i [] tail calls e = (e, ap unlabelled e)
  annotate_from-IsLabelled i (a ∷ more) tail calls (segment, rest, e, pushed, shape, s) = (
    segment,
    rest,
    annotate_from (i + 1) more rest,
    e,
    ap (annotate_from i (a ∷ more)) e ∙ annotate_segment i a more segment rest shape,
    pushed,
    annotate_from-IsLabelled (i + 1) more tail rest s,
  )

  build_loop-Segmented :
      Selects x.viem
      → (actions : List Action) (b c : Batch) (tail : List Call)
      → build_loop x policy actions b ≡ ok c
      → (calls : List Call) × (c.calls ≡ b.calls ++ calls) × Segmented actions tail (calls ++ tail)
  unfolding build_loop build_action
  build_loop-Segmented selects [] b c tail h =
      ([], ap (λ c. c.calls) (sym (ok_injective h)) ∙ sym (append-nil b.calls), refl)
  build_loop-Segmented selects (a ∷ more) b c tail h =
      when_ok (build_action x policy b a) _ h λ d e h₁.
        when_ok (assert_action_policy x.viem x.human policy a) _ e λ _ _ e₁.
          let (segment, grown, shape) = build_kind-Shape x selects (type_of a) b d a e₁ in
          let (rest, all_grown, s) = build_loop-Segmented selects more d c tail h₁ in
          (
            segment ++ rest,
            all_grown ∙ ap (λ calls. calls ++ rest) grown ∙ append_assoc b.calls segment rest,
            (segment, rest ++ tail, append_assoc segment rest tail, (b, d, e, grown), shape, s),
          )

  reset_loop-IsReset :
      (entries : List (Text × (Text × Text))) (b c : Batch)
      → reset_loop x entries b ≡ ok c
      → (resets : List Call) × (c.calls ≡ b.calls ++ resets) × All IsReset resets
  unfolding reset_loop push_call push
  reset_loop-IsReset [] b c h =
      ([], ap (λ c. c.calls) (sym (ok_injective h)) ∙ sym (append-nil b.calls), tt)
  reset_loop-IsReset ((key, (token, spender)) ∷ entries) b c h =
      when_ok (push_call x b token (Payload.approve spender 0)) _ h λ d e h₁.
        when_ok (make_call x.viem token (Payload.approve spender 0)) _ e λ call e₁ e₂.
          let (_, payload) = make_call-eq x.viem token (Payload.approve spender 0) call e₁ in
          let (resets, grown, all_resets) = reset_loop-IsReset entries d c h₁ in
          (
            call ∷ resets,
            grown
                ∙ ap (λ calls. calls ++ resets) (ap (λ c. c.calls) (sym (ok_injective e₂)))
                ∙ append_assoc b.calls (call ∷ []) resets,
            ((spender, payload), all_resets),
          )

Parts-Segmented :
    (x : Context) (actions : List Action) (calls : List Call)
    → Selects x.viem
    → Parts x actions calls
    → (resets : List Call) × All IsReset resets
      × Segmented x (agent_policy x.autonomy) actions resets calls
Parts-Segmented x actions calls selects parts =
    let policy = agent_policy x.autonomy in
    let (resets, grown, all_resets) =
      reset_loop-IsReset x policy parts.built.cleanup parts.built parts.reset parts.resets in
    let (pushed, built, s) =
      build_loop-Segmented x policy selects actions empty_batch parts.built resets parts.loop in
    let whole : pushed ++ resets ≡ calls =
      ap (λ calls. calls ++ resets) (sym built) ∙ sym grown ∙ parts.result in
    (resets, all_resets, subst (Segmented x policy actions resets) whole s)

-- Let the digits of an encoded call begin with the selector of `approve` if and only if the call is
-- an approval. Where `buildCalls` gives calls for some actions, they are, in the order of the
-- actions, what each action has added, followed by calls that set allowances to 0; and
-- `annotateActionCalls`, given the same actions, annotates each call with the index of the action
-- that has added it and with that action's type, or `approve` for an approval, and annotates none of
-- the calls at the end.
pub annotate_action_calls-IsLabelled :
    (viem : Viem) (reads : Reads) (agent : Agent) (autonomy : Autonomy) (human : Bool) (a : Action)
    (more : List Action) (calls : List Call)
    → Selects viem
    → build_calls viem reads agent autonomy human (a ∷ more) ≡ ok calls
    → (account : Text) × (resets : List Call) × All IsReset resets
      × IsLabelled
          (context viem reads agent autonomy human account)
          (agent_policy autonomy)
          0
          (a ∷ more)
          resets
          calls
          (annotate_action_calls (a ∷ more) calls)
unfolding annotate_action_calls
annotate_action_calls-IsLabelled viem reads agent autonomy human a more calls selects h =
    let (account, _, _, parts) = build_calls-Parts viem reads agent autonomy human a more calls h in
    let x = context viem reads agent autonomy human account in
    let (resets, all_resets, s) = Parts-Segmented x (a ∷ more) calls selects parts in
    (
      account,
      resets,
      all_resets,
      annotate_from-IsLabelled x (agent_policy autonomy) 0 (a ∷ more) resets calls s,
    )
