-- ===== src/Runner/Receipts/Shapes.antt =====
-- What each action adds has one of the two shapes.
use centry.Prelude.{
  ◌≡◌, refl, ap, sym, ◌∙◌, inl, inr, false, Option-cases, none, List, [], ◌∷◌, ◌++◌, append_assoc,
  ok, subst, arith,
}
use centry.Prelude.Text.{Text, text_eq}
use centry.Runner.Values.{Payload, Action}
use centry.Runner.Policy.{Kind, name_of, kinds, kind_of}
use centry.Runner.Batch.{Call, Batch, set_allowance}
use centry.Runner.Build.{Context, build_kind}
use centry.Runner.Build.Pushes.{Pushes, approved, drawn, called, build_kind-Pushes}
use centry.Runner.Receipts.{may_precede, is_approval}
use centry.Runner.Receipts.Segments.{
  is_approve, Selects, Shape, single, double, find_kind-name_of, push_call-Grows,
  push_approval-Grows, ensured-Grows, IsDraw-facts, IsPlain-is_approve,
}

single_of :
    (t : Text) (d : Call) (p : Payload)
    → is_approval d ≡ is_approve p
    → d.payload ≡ p
    → is_approve p ≡ false
    → Shape t (d ∷ [])
single_of t d p told same plain =
    single d refl (ground (arith, told, plain)) (rw (same, plain) refl)

module _ (x : Context) (selects : Selects x.viem) where
  Pushes-Shape :
      (k : Kind) (b c : Batch)
      → Pushes x k b c
      → (segment : List Call) × (c.calls ≡ b.calls ++ segment) × Shape (name_of k) segment
  unfolding set_allowance may_precede text_eq
  Pushes-Shape k b c (approved kind (token, spender, amount, d, e, same)) =
      let (call, more, told, payload) = push_approval-Grows x selects b d token spender amount e in
      (
        call ∷ [],
        ap (λ c. c.calls) (sym same) ∙ more,
        subst (λ k. Shape (name_of k) (call ∷ [])) (sym kind)
            (single call refl refl (rw payload refl)),
      )
  Pushes-Shape k b c (drawn (token, spender, amount, payload, d, draw, e, h)) =
      let (call, more, told, same) = push_call-Grows x selects d c spender payload h in
      let (precedes, plain) = IsDraw-facts k token amount payload draw in
      elim (ensured-Grows x selects b d token spender amount e) [
        | inl kept ↦ (
          call ∷ [],
          more ∙ ap (λ calls. calls ++ call ∷ []) kept,
          single_of (name_of k) call payload told same plain,
        )
        | inr (p, first, told_p, same_p) ↦ (
          p ∷ call ∷ [],
          more ∙ ap (λ calls. calls ++ call ∷ []) first ∙ append_assoc b.calls (p ∷ []) (call ∷ []),
          double p call refl (ground (arith, precedes, told_p)) (rw same_p refl)
              (rw (same, plain) refl),
        )
      ]
  Pushes-Shape k b c (called (target, payload, plain, h)) =
      let (call, more, told, same) = push_call-Grows x selects b c target payload h in
      (
        call ∷ [],
        more,
        single_of (name_of k) call payload told same (IsPlain-is_approve k payload plain),
      )

  pub build_kind-Shape :
      (t : Text) (b c : Batch) (a : Action)
      → build_kind x (kind_of t) b a ≡ ok c
      → (segment : List Call) × (c.calls ≡ b.calls ++ segment) × Shape t segment
  unfolding build_kind kind_of
  build_kind-Shape t b c a h = elim (Option-cases (kind_of t)) [
    | inl e ↦ let wrong : build_kind x none b a ≡ ok c = rw e at h in cc
    | inr (k, e) ↦
        let pushed = build_kind-Pushes x k b c a (rw e at h) in
        subst (λ t. (segment : List Call) × (c.calls ≡ b.calls ++ segment) × Shape t segment)
          (sym (find_kind-name_of t k kinds e)) (Pushes-Shape k b c pushed)
  ]
