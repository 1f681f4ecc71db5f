-- ===== src/Runner/Build/Sent.antt =====
-- Where the calls of a batch go.
use centry.Prelude.{
  ℕ, ◌-◌, ◌≤◌, ◌≡◌, refl, ap, ◌∙◌, inl, inr, Bool, true, false, ◌||◌, Bool-cases, Option,
  Option-cases, some, List, [], ◌∷◌, All, All-snoc, ok, err, ok_injective, when_ok, ltb, subst,
  arith,
}
use centry.Prelude.Text.{Text, text_eq, text_eq_refl}
use centry.Prelude.Assoc.{lookup, insert-All}
use centry.Runner.Values.{
  Payload, unsupported_asset, text_or_empty, tokens, lending_pool, unitflow_router, governor,
  agent_factory, unitflow_fees, asset_address,
}
use centry.Prelude.Trim.{to_upper_case}
use centry.Runner.Batch.{
  is_fee, Agent, Call, Batch, same_address, push, set_allowance, track_cleanup, make_call,
  make_call-eq, pair_key, push_approval, top_up, ensure_batch_allowance, known_allowance,
}
use centry.Runner.Build.{Context, push_call}
use centry.Runner.Conditions.{is_token}

-- The spenders that an approval may name.
abbrev pub is_spender : Text → Bool
is_spender t = same_address t lending_pool || same_address t unitflow_router

-- The account is that of an agent of the same owner, and the worker's factory has made it.
abbrev pub IsOwnAgent : Context → Text → Type 0
IsOwnAgent x account =
    (id : Text) × (row : Agent) × (factory : Text) × (x.reads.agent_by_id id ≡ some row)
    × (same_address row.owner x.agent.owner ≡ true)
    × (x.viem.get_address row.account ≡ some account)
    × (same_address factory agent_factory ≡ true)
    × (x.reads.is_registered factory account ≡ some true)

-- What a payload may be for, with the target that it is sent to.
abbrev pub IsMeant : Context → Text → Payload → Type 0
IsMeant x target (Payload.approve spender amount) =
    (is_token target tokens ≡ true) × (is_spender spender ≡ true)
IsMeant x target (Payload.pool_call function asset amount) =
    (target ≡ lending_pool) × (is_token asset tokens ≡ true) × (1 ≤ amount)
IsMeant x target (Payload.exact_input token_in token_out fee recipient deadline amount minimum) =
    (target ≡ unitflow_router)
    × (is_token token_in tokens ≡ true)
    × (is_token token_out tokens ≡ true)
    × (text_eq token_in token_out ≡ false)
    × (is_fee fee unitflow_fees ≡ true)
    × (recipient ≡ x.account)
    × (1 ≤ amount)
IsMeant x target (Payload.transfer_to_agent asset account amount) =
    (target ≡ x.account) × (is_token asset tokens ≡ true) × IsOwnAgent x account × (1 ≤ amount)
IsMeant x target (Payload.cast_vote proposal support) =
    (target ≡ governor) × (1 ≤ proposal) × (support ≤ 2)

-- A call whose target is the address of one that its payload may be sent to.
abbrev pub IsSent : Context → Call → Type 0
IsSent x c =
    (target : Text) × (x.viem.get_address target ≡ some c.target) × IsMeant x target c.payload

-- An approval to be reset.
abbrev pub IsOwn : Text × (Text × Text) → Type 0
IsOwn (k, (token, spender)) = (is_token token tokens ≡ true) × (is_spender spender ≡ true)

pub record IsSound (x : Context) (b : Batch) : Type 0 where
  pub sent : All (IsSent x) b.calls
  pub own : All IsOwn b.cleanup

lookup-is_token : (k a : Text) (m : List (Text × Text)) → lookup k m ≡ some a → is_token a m ≡ true
unfolding lookup is_token
lookup-is_token k a [] h = cc
lookup-is_token k a ((j, t) ∷ m) h = elim (Bool-cases (text_eq j k)) [
  | inl here ↦
      let same : some t ≡ some a = rw here at h in
      let t_eq : t ≡ a = cc in rw (t_eq, text_eq_refl a) refl
  | inr other ↦ let later = lookup-is_token k a m (rw other at h) in ground (arith, later)
]

pub asset_address-is_token :
    (o : Option Text) (a : Text) → asset_address o ≡ ok a → is_token a tokens ≡ true
unfolding asset_address
asset_address-is_token o a h =
    let symbol = to_upper_case (text_or_empty o) in
    elim (Option-cases (lookup symbol tokens)) [
      | inl e ↦ let wrong : err unsupported_asset ≡ ok a = rw (asset_address, e) at h in cc
      | inr (t, e) ↦
          let same : ok t ≡ ok a = rw (asset_address, e) at h in
          lookup-is_token symbol a tokens (e ∙ ap some (ok_injective same))
    ]

module _ (x : Context) where
  make_call-IsSent :
      (target : Text) (payload : Payload) (c : Call)
      → IsMeant x target payload
      → make_call x.viem target payload ≡ ok c
      → IsSent x c
  make_call-IsSent target payload c meant h =
      let (address, same) = make_call-eq x.viem target payload c h in
      (target, address, rw same meant)

  pub push_call-IsSound :
      (b c : Batch) (target : Text) (payload : Payload)
      → IsMeant x target payload
      → IsSound x b
      → push_call x b target payload ≡ ok c
      → IsSound x c
  unfolding push_call push
  push_call-IsSound b c target payload meant s h =
      when_ok (make_call x.viem target payload) _ h λ d e h₁.
        subst (IsSound x) (ok_injective h₁) (record {
          sent = All-snoc (IsSent x) b.calls d s.sent (make_call-IsSent target payload d meant e);
          own = s.own;
        })

  pub push_approval-IsSound :
      (b c : Batch) (token spender : Text) (amount : ℕ)
      → is_token token tokens ≡ true
      → is_spender spender ≡ true
      → IsSound x b
      → push_approval x.viem b token spender amount ≡ ok c
      → IsSound x c
  unfolding push_approval push track_cleanup
  push_approval-IsSound b c token spender amount known may s h =
      when_ok (make_call x.viem token (Payload.approve spender amount)) _ h λ d e h₁.
        subst (IsSound x) (ok_injective h₁) (record {
          sent =
              All-snoc (IsSent x) b.calls d s.sent
                (make_call-IsSent token (Payload.approve spender amount) d (known, may) e);
          own =
              insert-All IsOwn (pair_key token spender) (token, spender) b.cleanup s.own
                (known, may);
        })

  -- The map of allowances does not matter.
  pub set_allowance-IsSound :
      (b : Batch) (token spender : Text) (n : ℕ)
      → IsSound x b
      → IsSound x (set_allowance b token spender n)
  unfolding set_allowance
  set_allowance-IsSound b token spender n s = record { sent = s.sent; own = s.own }

  pub ensured-IsSound :
      (b c : Batch) (token spender : Text) (amount : ℕ)
      → is_token token tokens ≡ true
      → is_spender spender ≡ true
      → IsSound x b
      → ensure_batch_allowance x.viem x.reads b token spender amount ≡ ok c
      → IsSound x c
  unfolding ensure_batch_allowance
  ensured-IsSound b c token spender amount known may s h =
      when_ok (known_allowance x.reads b token spender) _ h λ n _ h₁.
        elim (Bool-cases (ltb n amount)) [
          | inl short ↦
              when_ok (push_approval x.viem b token spender amount) _ (rw (top_up, short) at h₁)
                λ d e h₂. subst (IsSound x) (ok_injective h₂) (
                  set_allowance-IsSound d token spender (amount - amount)
                    (push_approval-IsSound b d token spender amount known may s e))
          | inr enough ↦
              let left : ok (set_allowance b token spender (n - amount)) ≡ ok c =
                rw (top_up, enough) at h₁ in
              subst (IsSound x) (ok_injective left)
                (set_allowance-IsSound b token spender (n - amount) s)
        ]
