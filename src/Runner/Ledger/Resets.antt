-- ===== src/Runner/Ledger/Resets.antt =====
-- The calls at the end of a batch, which set every approval of it back to 0.
use centry.Prelude.{
  ◌≡◌, ◌⊎◌, refl, ◌∙◌, inl, inr, ◌||◌, Bool-cases, none, some, List, [], ◌∷◌, All, ok, ok_injective,
  when_ok, subst, arith,
}
use centry.Prelude.Text.{Text, text_eq}
use centry.Prelude.Assoc.{lookup}
use centry.Runner.Values.{Payload}
use centry.Runner.Batch.{Batch, Call, pair_key, push, make_call, make_call-eq}
use centry.Runner.Build.{Context, push_call, reset_loop}
use centry.Runner.Ledger.{
  Ledger, put, run_payload, run_calls, approves_payload, approves, KeepsAddresses, run_calls_push,
  approves_push,
}
use centry.Runner.Ledger.Tracks.{IsKeyed}
use centry.Runner.Ledger.Steps.{pair_key-eq}

-- What is left of the key's allowance when the entries have been gone through.
abbrev pub IsReset :
    List (Text × (Text × Text)) → List Call → List Call → Ledger → Ledger → Text → Type 0
IsReset entries calls all_calls ledger after k =
    (lookup k entries ≡ none) × (after k ≡ ledger k) × (approves k all_calls ≡ approves k calls)
    ⊎ (after k ≡ 0)

IsReset-cons :
    (key : Text) (pair : Text × Text) (entries : List (Text × (Text × Text)))
    (first middle last : List Call) (ledger after : Ledger) (k : Text)
    → approves k middle ≡ (approves k first || text_eq key k)
    → IsReset entries middle last (put ledger key 0) after k
    → IsReset ((key, pair) ∷ entries) first last ledger after k
unfolding lookup
IsReset-cons key pair entries first middle last ledger after k grows (inr zeroed) = inr zeroed
IsReset-cons key pair entries first middle last ledger after k grows (inl (absent, kept, same)) =
    elim (Bool-cases (text_eq key k)) [
      | inl here ↦ inr (kept ∙ rw here)
      | inr other ↦ inl (rw other absent, kept ∙ rw other, same ∙ grows ∙ ground (arith, other))
    ]

module _ (x : Context) (before : Ledger) (keeps : KeepsAddresses x.viem) where
  -- One call that sets an allowance to 0.
  push_reset :
      (b c : Batch) (token spender : Text) (ledger : Ledger)
      → run_calls b.calls before ≡ some ledger
      → push_call x b token (Payload.approve spender 0) ≡ ok c
      → (run_calls c.calls before ≡ some (put ledger (pair_key token spender) 0))
        × ((k : Text)
            → approves k c.calls ≡ (approves k b.calls || text_eq (pair_key token spender) k))
  unfolding push_call push run_payload approves_payload
  push_reset b c token spender ledger runs h =
      when_ok (make_call x.viem token (Payload.approve spender 0)) _ h λ d e h₁.
        let (address, p) = make_call-eq x.viem token (Payload.approve spender 0) d e in
        let key = pair_key-eq d.target token spender (keeps token d.target address) in
        subst
          (λ c.
            (run_calls c.calls before ≡ some (put ledger (pair_key token spender) 0))
            × ((k : Text)
                → approves k c.calls ≡ (approves k b.calls || text_eq (pair_key token spender) k)))
          (ok_injective h₁)
          (
            run_calls_push b.calls d before ledger runs ∙ rw (p, run_payload) (rw key refl),
            λ k. approves_push k b.calls d ∙ rw (p, approves_payload) (rw key refl),
          )

  pub reset_loop_runs :
      (entries : List (Text × (Text × Text))) (b c : Batch) (ledger : Ledger)
      → All IsKeyed entries
      → run_calls b.calls before ≡ some ledger
      → reset_loop x entries b ≡ ok c
      → (after : Ledger) × (run_calls c.calls before ≡ some after)
        × ((k : Text) → IsReset entries b.calls c.calls ledger after k)
  unfolding reset_loop lookup
  reset_loop_runs [] b c ledger keyed runs h =
      subst
        (λ c.
          (after : Ledger) × (run_calls c.calls before ≡ some after)
          × ((k : Text) → IsReset [] b.calls c.calls ledger after k))
        (ok_injective h) (ledger, runs, λ k. inl (refl, refl, refl))
  reset_loop_runs ((key, (token, spender)) ∷ entries) b c ledger (own, keyed) runs h =
      when_ok (push_call x b token (Payload.approve spender 0)) _ h λ d e h₁.
        let (runs₁, grows) = push_reset b d token spender ledger runs e in
        let (after, all_run, reset) =
          reset_loop_runs entries d c (put ledger (pair_key token spender) 0) keyed runs₁ h₁ in
        (
          after,
          all_run,
          λ k.
              IsReset-cons key (token, spender) entries b.calls d.calls c.calls ledger after k
                (rw (← own) (grows k)) (rw (← own) (reset k)),
        )
