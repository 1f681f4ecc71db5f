-- ===== src/Runner/Receipts/Segments.antt =====
-- The calls of each action of a batch stand together, an approval first if there is one.
use centry.Prelude.{
  ℕ, ◌-◌, ◌≡◌, ◌⊎◌, refl, ap, sym, ◌∙◌, inl, inr, Bool, true, false, ◌&&◌, Bool-cases, Option-cases,
  some, List, [], ◌∷◌, ◌++◌, ok, err, ok_injective, when_ok, ltb, subst, if◌then◌else◌,
}
use centry.Prelude.Text.{Text, text_eq, text_eq_sound, to_lower_case}
use centry.Runner.Values.{not_encodable, Payload, Viem, encoded, address_of, selector}
use centry.Runner.Policy.{Kind, name_of, find_kind}
use centry.Runner.Batch.{
  Call, Batch, push, set_allowance, track_cleanup, known_allowance, make_call, push_approval,
  top_up, ensure_batch_allowance,
}
use centry.Runner.Build.{Context, push_call}
use centry.Runner.Build.Pushes.{IsDraw, IsPlain}
use centry.Runner.Receipts.{approve_selector, may_precede, is_approval}

abbrev pub is_approve : Payload → Bool
is_approve (Payload.approve spender amount) = true
is_approve other = false

-- The digits of an encoded call tell whether it is an approval.
abbrev pub Selects : Viem → Type 0
Selects viem =
    (p : Payload) (d : Text)
    → viem.encode p ≡ some d
    → text_eq (to_lower_case (selector d)) approve_selector ≡ is_approve p

-- What a call of an action of the type is to be recorded as.
abbrev pub call_type : Text → Call → Text
call_type t c = if is_approve c.payload then name_of Kind.approve else t

-- The calls of an action of the type: one that is not taken for an approval before it, or an
-- approval and one more.
pub data Shape (t : Text) (segment : List Call) : Type 0 where
  single :
      (c : Call)
      → segment ≡ c ∷ []
      → (may_precede t && is_approval c) ≡ false
      → call_type t c ≡ t
      → Shape t segment
  double :
      (p c : Call)
      → segment ≡ p ∷ c ∷ []
      → (may_precede t && is_approval p) ≡ true
      → call_type t p ≡ name_of Kind.approve
      → call_type t c ≡ t
      → Shape t segment

pub find_kind-name_of :
    (t : Text) (k : Kind) (ks : List Kind) → find_kind t ks ≡ some k → t ≡ name_of k
unfolding find_kind
find_kind-name_of t k [] h = cc
find_kind-name_of t k (j ∷ ks) h = elim (Bool-cases (text_eq t (name_of j))) [
  | inl here ↦
      let same : some j ≡ some k = rw here at h in
      let eq : j ≡ k = cc in text_eq_sound t (name_of j) here ∙ ap name_of eq
  | inr other ↦ find_kind-name_of t k ks (rw other at h)
]

encoded-eq : (viem : Viem) (p : Payload) (d : Text) → encoded viem p ≡ ok d → viem.encode p ≡ some d
unfolding encoded
encoded-eq viem p d h = elim (Option-cases (viem.encode p)) [
  | inl e ↦ let wrong : err not_encodable ≡ ok d = rw (encoded, e) at h in cc
  | inr (b, e) ↦ let same : ok b ≡ ok d = rw (encoded, e) at h in e ∙ ap some (ok_injective same)
]

-- One more call, of a payload.
abbrev pub Grows : Batch → Batch → Payload → Type 0
Grows b c p =
    (d : Call) × (c.calls ≡ b.calls ++ d ∷ []) × (is_approval d ≡ is_approve p) × (d.payload ≡ p)

pub IsDraw-facts :
    (k : Kind) (token : Text) (amount : ℕ) (p : Payload)
    → IsDraw k token amount p
    → (may_precede (name_of k) ≡ true) × (is_approve p ≡ false)
unfolding may_precede text_eq
IsDraw-facts Kind.supply token amount p e = (refl, ap is_approve e)
IsDraw-facts Kind.repay token amount p e = (refl, ap is_approve e)
IsDraw-facts Kind.swap token amount p (_, _, _, _, _, e) = (refl, ap is_approve e)
IsDraw-facts Kind.approve token amount p e = cc
IsDraw-facts Kind.withdraw token amount p e = cc
IsDraw-facts Kind.borrow token amount p e = cc
IsDraw-facts Kind.transfer token amount p e = cc
IsDraw-facts Kind.cast_vote token amount p e = cc

pub IsPlain-is_approve : (k : Kind) (p : Payload) → IsPlain k p → is_approve p ≡ false
IsPlain-is_approve Kind.withdraw p (_, _, e) = ap is_approve e
IsPlain-is_approve Kind.borrow p (_, _, e) = ap is_approve e
IsPlain-is_approve Kind.transfer p (_, _, _, e) = ap is_approve e
IsPlain-is_approve Kind.cast_vote p (_, _, e) = ap is_approve e
IsPlain-is_approve Kind.approve p e = cc
IsPlain-is_approve Kind.supply p e = cc
IsPlain-is_approve Kind.repay p e = cc
IsPlain-is_approve Kind.swap p e = cc

module _ (x : Context) (selects : Selects x.viem) where
  make_call-is_approval :
      (target : Text) (p : Payload) (c : Call)
      → make_call x.viem target p ≡ ok c
      → (is_approval c ≡ is_approve p) × (c.payload ≡ p)
  unfolding make_call is_approval
  make_call-is_approval target p c h = when_ok (encoded x.viem p) _ h λ d e h₁.
      when_ok (address_of x.viem target) _ h₁ λ a _ h₂.
        subst (λ (c : Call). (is_approval c ≡ is_approve p) × (c.payload ≡ p)) (ok_injective h₂)
          (selects p d (encoded-eq x.viem p d e), refl)

  pub push_call-Grows :
      (b c : Batch) (target : Text) (p : Payload) → push_call x b target p ≡ ok c → Grows b c p
  unfolding push_call push
  push_call-Grows b c target p h = when_ok (make_call x.viem target p) _ h λ d e h₁.
      let (told, same) = make_call-is_approval target p d e in
      (d, ap (λ c. c.calls) (sym (ok_injective h₁)), told, same)

  pub push_approval-Grows :
      (b c : Batch) (token spender : Text) (amount : ℕ)
      → push_approval x.viem b token spender amount ≡ ok c
      → Grows b c (Payload.approve spender amount)
  unfolding push_approval push track_cleanup
  push_approval-Grows b c token spender amount h =
      when_ok (make_call x.viem token (Payload.approve spender amount)) _ h λ d e h₁.
        let (told, same) = make_call-is_approval token (Payload.approve spender amount) d e in
        (d, ap (λ c. c.calls) (sym (ok_injective h₁)), told, same)

  pub ensured-Grows :
      (b c : Batch) (token spender : Text) (amount : ℕ)
      → ensure_batch_allowance x.viem x.reads b token spender amount ≡ ok c
      → (c.calls ≡ b.calls) ⊎ Grows b c (Payload.approve spender amount)
  unfolding ensure_batch_allowance set_allowance
  ensured-Grows b c token spender amount h =
      when_ok (known_allowance x.reads b token spender) _ h λ n _ h₁.
        elim (Bool-cases (ltb n amount)) [
          | inl short ↦
              when_ok (push_approval x.viem b token spender amount) _ (rw (top_up, short) at h₁)
                λ d e h₂.
                  let (call, more, told, same) = push_approval-Grows b d token spender amount e in
                  inr (call, ap (λ c. c.calls) (sym (ok_injective h₂)) ∙ more, told, same)
          | inr enough ↦
              let left : ok (set_allowance b token spender (n - amount)) ≡ ok c =
                rw (top_up, enough) at h₁ in
              inl (ap (λ c. c.calls) (sym (ok_injective left)))
        ]
