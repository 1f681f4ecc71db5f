-- ===== src/Runner/Ledger/Steps.antt =====
-- Every step of the builder keeps track of the ledger.
use centry.Prelude.{
  ℕ, ◌-◌, ◌≤◌, ◌≡◌, ap, ◌∙◌, inl, inr, false, Bool-cases, Option-cases, some, List, ok,
  ok_injective, when_ok, subst, ltb, arith,
}
use centry.Prelude.Text.{Text, text_eq_refl, to_lower_case}
use centry.Prelude.Assoc.{lookup, insert-insert}
use centry.Runner.Values.{Payload}
use centry.Runner.Batch.{
  Batch, pair_key, set_allowance, read_required, known_allowance, make_call, make_call-eq,
  read_required-eq, push_approval, top_up, ensure_batch_allowance,
}
use centry.Runner.Build.{Context, push_call}
use centry.Runner.Ledger.{Ledger, put, spend, run_payload, approves_payload, KeepsAddresses, Shows}
use centry.Runner.Ledger.Tracks.{Tracks, push-Tracks, approve-Tracks, spend-Tracks}

pub pair_key-eq :
    (a b spender : Text)
    → to_lower_case a ≡ to_lower_case b
    → pair_key a spender ≡ pair_key b spender
unfolding pair_key
pair_key-eq a b spender h = rw h

pub pair_key-eq_right :
    (token a b : Text) → to_lower_case a ≡ to_lower_case b → pair_key token a ≡ pair_key token b
unfolding pair_key
pair_key-eq_right token a b h = rw h

set_allowance-twice :
    (b : Batch) (token spender : Text) (m n : ℕ)
    → set_allowance (set_allowance b token spender m) token spender n
      ≡ set_allowance b token spender n
unfolding set_allowance
set_allowance-twice b token spender m n =
    ap (λ (a : List (Text × ℕ)). record b { allowances = a })
      (insert-insert (pair_key token spender) m n b.allowances)

-- A payload that neither spends nor approves.
abbrev pub IsNeutral : Payload → Type 0
IsNeutral payload =
    ((ledger : Ledger) (target : Text) → run_payload ledger target payload ≡ some ledger)
    × ((k target : Text) → approves_payload k target payload ≡ false)

-- A payload by which its target takes an amount of a token.
abbrev pub Spends : Text → ℕ → Payload → Type 0
Spends token amount payload =
    ((ledger : Ledger) (target : Text)
      → run_payload ledger target payload ≡ spend ledger (pair_key token target) amount)
    × ((k target : Text) → approves_payload k target payload ≡ false)

module _ (x : Context) (before : Ledger) (keeps : KeepsAddresses x.viem) where
  pub push_call-Tracks :
      (b c : Batch) (target : Text) (payload : Payload) (ledger : Ledger)
      → IsNeutral payload
      → Tracks before b ledger
      → push_call x b target payload ≡ ok c
      → Tracks before c ledger
  unfolding push_call
  push_call-Tracks b c target payload ledger (neutral, silent) t h =
      when_ok (make_call x.viem target payload) _ h λ d e h₁.
        let (_, p) = make_call-eq x.viem target payload d e in
        subst (λ c. Tracks before c ledger) (ok_injective h₁)
          (push-Tracks before b ledger t d (rw p (neutral ledger d.target))
            (λ k. rw p (silent k d.target)))

  pub push_approval-Tracks :
      (b c : Batch) (token spender : Text) (amount : ℕ) (ledger : Ledger)
      → Tracks before b ledger
      → push_approval x.viem b token spender amount ≡ ok c
      → Tracks before
          (set_allowance c token spender amount)
          (put ledger (pair_key token spender) amount)
  unfolding push_approval
  push_approval-Tracks b c token spender amount ledger t h =
      when_ok (make_call x.viem token (Payload.approve spender amount)) _ h λ d e h₁.
        let (address, p) = make_call-eq x.viem token (Payload.approve spender amount) d e in
        subst
          (λ c.
            Tracks before (set_allowance c token spender amount)
              (put ledger (pair_key token spender) amount))
          (ok_injective h₁)
          (approve-Tracks before b ledger t d token spender amount
            (pair_key-eq d.target token spender (keeps token d.target address)) p)

  pub push_spend-Tracks :
      (b c : Batch) (token spender : Text) (n amount : ℕ) (payload : Payload) (ledger : Ledger)
      → Spends token amount payload
      → Tracks before b ledger
      → ledger (pair_key token spender) ≡ n
      → amount ≤ n
      → push_call x (set_allowance b token spender (n - amount)) spender payload ≡ ok c
      → Tracks before c (put ledger (pair_key token spender) (n - amount))
  unfolding push_call
  push_spend-Tracks b c token spender n amount payload ledger (spends, silent) t has enough h =
      when_ok (make_call x.viem spender payload) _ h λ d e h₁.
        let (address, p) = make_call-eq x.viem spender payload d e in
        let key = pair_key-eq_right token d.target spender (keeps spender d.target address) in
        subst (λ c. Tracks before c (put ledger (pair_key token spender) (n - amount)))
          (ok_injective h₁)
          (spend-Tracks before b ledger t d token spender n amount has enough
            (rw (p, ← key) (spends ledger d.target)) (λ k. rw p (silent k d.target)))

  module _ (shows : Shows x.reads before) where
    pub known_allowance-eq :
        (b : Batch) (token spender : Text) (n : ℕ) (ledger : Ledger)
        → Tracks before b ledger
        → known_allowance x.reads b token spender ≡ ok n
        → ledger (pair_key token spender) ≡ n
    unfolding known_allowance
    known_allowance-eq b token spender n ledger t h =
        elim (Option-cases (lookup (pair_key token spender) b.allowances)) [
          | inl e ↦
              let read : read_required (x.reads.allowance token spender) ≡ ok n =
                rw (known_allowance, e) at h in
              t.fresh (pair_key token spender) e
              ∙ shows token spender n (read_required-eq (x.reads.allowance token spender) n read)
          | inr (m, e) ↦
              let kept : ok m ≡ ok n = rw (known_allowance, e) at h in
              t.known (pair_key token spender) n (e ∙ ap some (ok_injective kept))
        ]

    -- An allowance that is made sure of, and then spent.
    pub ensured-Tracks :
        (b c d : Batch) (token spender : Text) (amount : ℕ) (payload : Payload) (ledger : Ledger)
        → Spends token amount payload
        → Tracks before b ledger
        → ensure_batch_allowance x.viem x.reads b token spender amount ≡ ok c
        → push_call x c spender payload ≡ ok d
        → (after : Ledger) × Tracks before d after
    unfolding ensure_batch_allowance
    ensured-Tracks b c d token spender amount payload ledger spends t h k =
        when_ok (known_allowance x.reads b token spender) _ h λ n e h₁.
          let has = known_allowance-eq b token spender n ledger t e in
          elim (Bool-cases (ltb n amount)) [
            | inl short ↦
                when_ok (push_approval x.viem b token spender amount) _ (rw (top_up, short) at h₁)
                  λ e' p h₂.
                    let approved = push_approval-Tracks b e' token spender amount ledger t p in
                    let key = pair_key token spender in
                    let own : put ledger key amount key ≡ amount = rw (text_eq_refl key) in
                    let same : set_allowance (set_allowance e' token spender amount) token spender
                          (amount - amount)
                        ≡ c =
                      set_allowance-twice e' token spender amount (amount - amount)
                      ∙ ok_injective h₂ in
                    (
                      _,
                      push_spend-Tracks (set_allowance e' token spender amount) d token spender
                          amount amount payload (put ledger key amount) spends approved own
                          (ground arith) (rw same k),
                    )
            | inr enough ↦
                let left : ok (set_allowance b token spender (n - amount)) ≡ ok c =
                  rw (top_up, enough) at h₁ in
                (
                  _,
                  push_spend-Tracks b d token spender n amount payload ledger spends t has
                      (ground arith) (rw (ok_injective left) k),
                )
          ]
