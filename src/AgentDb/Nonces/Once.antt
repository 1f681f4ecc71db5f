-- ===== src/AgentDb/Nonces/Once.antt =====
-- A nonce is used once in a day, whatever else is used in between.
use centry.Prelude.{
  ℕ, ◌+◌, ◌-◌, ◌≤◌, ◌≡◌, ◌⊎◌, inl, inr, refl, Bool, true, false, Bool-cases, List, [], ◌∷◌, ok,
  when_ok, ok_injective, subst, sym, ap, ◌∙◌, ltb, arith,
}
use centry.Prelude.Text.{Text, codes, text_eq_refl}
use centry.AgentDb.Args.{require_string}
use centry.AgentDb.Nonces.{
  Nonce, Consumption, read_nonce, delete_before, is_used, insert_nonce, consume_owner_auth_nonce,
}

-- The table has the nonce in a row that is not older than `time`.
abbrev pub IsUsedSince : Text → ℕ → List Nonce → Type 0
IsUsedSince k time [] = ⊥
IsUsedSince k time (n ∷ nonces) =
    ((n.nonce ≡ k) × (time ≤ n.consumed_at)) ⊎ IsUsedSince k time nonces

-- Calls one after the other, none later than `last`.
pub data Calls (last : ℕ) : List Nonce → List Nonce → Type 0 where
  no_calls : {nonces : List Nonce} → Calls last nonces nonces
  call :
      {before between after : List Nonce} (now : ℕ) (args : Consumption) (used : Bool)
      → now ≤ last
      → consume_owner_auth_nonce before now args ≡ ok (between, used)
      → Calls last between after
      → Calls last before after

delete_before-IsUsedSince :
    (k : Text) (limit time : ℕ) (nonces : List Nonce)
    → limit ≤ time
    → IsUsedSince k time nonces
    → IsUsedSince k time (delete_before limit nonces)
unfolding delete_before
delete_before-IsUsedSince k limit time [] le u = elim u [ ]
delete_before-IsUsedSince k limit time (n ∷ nonces) le (inl (same, young)) =
    let kept : ltb n.consumed_at limit ≡ false = ground arith in rw kept (inl (same, young))
delete_before-IsUsedSince k limit time (n ∷ nonces) le (inr u) =
    let rest = delete_before-IsUsedSince k limit time nonces le u in
    elim (Bool-cases (ltb n.consumed_at limit)) [ inl e ↦ rw e rest | inr e ↦ rw e (inr rest) ]

insert_nonce-IsUsedSince :
    (k : Text) (time : ℕ) (n : Nonce) (nonces : List Nonce)
    → IsUsedSince k time nonces
    → IsUsedSince k time (insert_nonce n nonces).0
unfolding insert_nonce
insert_nonce-IsUsedSince k time n nonces u = elim (Bool-cases (is_used n.nonce nonces)) [
  | inl e ↦ rw e u
  | inr e ↦ rw e (inr u)
]

IsUsedSince-is_used :
    (k : Text) (time : ℕ) (nonces : List Nonce)
    → IsUsedSince k time nonces
    → is_used k nonces ≡ true
unfolding is_used
IsUsedSince-is_used k time [] u = elim u [ ]
IsUsedSince-is_used k time (n ∷ nonces) (inl (same, young)) = rw (same, text_eq_refl k)
IsUsedSince-is_used k time (n ∷ nonces) (inr u) =
    ground (arith, IsUsedSince-is_used k time nonces u)

-- A call on a table that has the nonce answers false, and every call leaves it there.
consume-IsUsedSince :
    (k : Text) (time now : ℕ) (nonces after : List Nonce) (args : Consumption) (used : Bool)
    → IsUsedSince k time nonces
    → now ≤ time + 86400000
    → consume_owner_auth_nonce nonces now args ≡ ok (after, used)
    → IsUsedSince k time after
unfolding consume_owner_auth_nonce
consume-IsUsedSince k time now nonces after args used u within h =
    when_ok (read_nonce args now) _ h λ n e h₁.
      let kept = delete_before-IsUsedSince k (now - 86400000) time nonces (omega arith) u in
      let written = ok_injective h₁ in rw written at (insert_nonce-IsUsedSince k time n _ kept)

Calls-IsUsedSince :
    (k : Text) (time : ℕ) (before after : List Nonce)
    → Calls (time + 86400000) before after
    → IsUsedSince k time before
    → IsUsedSince k time after
Calls-IsUsedSince k time before after no_calls u = u
Calls-IsUsedSince k time before after (call now args used within h calls) u =
    Calls-IsUsedSince k time _ after calls
      (consume-IsUsedSince k time now before _ args used u within h)

read_nonce-nonce :
    (args : Consumption) (now : ℕ) (n : Nonce)
    → read_nonce args now ≡ ok n
    → (require_string args.nonce (codes "nonce") ≡ ok n.nonce) × (n.consumed_at ≡ now)
unfolding read_nonce
read_nonce-nonce args now n h = when_ok (require_string args.nonce _) _ h λ k e h₁.
    when_ok (require_string args.owner _) _ h₁ λ _ _ h₂.
      when_ok (require_string args.account _) _ h₂ λ _ _ h₃.
        when_ok (require_string args.action _) _ h₃ λ _ _ h₄.
          when_ok (require_string args.params_hash _) _ h₄ λ _ _ h₅.
            subst
              (λ (n : Nonce).
                (require_string args.nonce (codes "nonce") ≡ ok n.nonce) × (n.consumed_at ≡ now))
              (ok_injective h₅) (e, refl)

insert_nonce-added :
    (n : Nonce) (nonces : List Nonce)
    → (insert_nonce n nonces).1 ≡ true
    → IsUsedSince n.nonce n.consumed_at (insert_nonce n nonces).0
unfolding insert_nonce
insert_nonce-added n nonces h = elim (Bool-cases (is_used n.nonce nonces)) [
  | inl e ↦ let refused : false ≡ true = rw e at h in cc
  | inr e ↦ rw e (inl (refl, omega arith))
]

insert_nonce-refused :
    (n : Nonce) (nonces : List Nonce)
    → is_used n.nonce nonces ≡ true
    → (insert_nonce n nonces).1 ≡ false
unfolding insert_nonce
insert_nonce-refused n nonces h = rw h

-- After a call that used a nonce, every call with the same nonce is refused for a day, whoever
-- makes it and whatever calls come in between.
pub consume_owner_auth_nonce_once :
    (first again : Consumption) (now later : ℕ) (nonces used between after : List Nonce)
    (answer : Bool)
    → consume_owner_auth_nonce nonces now first ≡ ok (used, true)
    → Calls (now + 86400000) used between
    → again.nonce ≡ first.nonce
    → later ≤ now + 86400000
    → consume_owner_auth_nonce between later again ≡ ok (after, answer)
    → answer ≡ false
unfolding consume_owner_auth_nonce
consume_owner_auth_nonce_once first again now later nonces used between after answer h calls same
      within k =
    when_ok (read_nonce first now) _ h λ n e h₁. when_ok (read_nonce again later) _ k λ m e₁ k₁.
      let (wanted, at) = read_nonce-nonce first now n e in
      let (repeated, _) = read_nonce-nonce again later m e₁ in
      let match : m.nonce ≡ n.nonce = ok_injective (sym repeated ∙ rw same wanted) in
      let written = ok_injective h₁ in
      let answered = ok_injective k₁ in
      let added : IsUsedSince n.nonce now used =
        rw (written, at) at
          (insert_nonce-added n (delete_before (now - 86400000) nonces)
            (ap (λ (w : List Nonce × Bool). w.1) written)) in
      let there =
        delete_before-IsUsedSince n.nonce (later - 86400000) now between (omega arith)
          (Calls-IsUsedSince n.nonce now used between calls added) in
      let refused =
        insert_nonce-refused m (delete_before (later - 86400000) between)
          (rw match (IsUsedSince-is_used n.nonce now _ there)) in
      rw answered at refused
