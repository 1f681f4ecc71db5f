-- ===== src/AgentDb/Keys/Revoked.antt =====
-- What a revocation does.
use centry.Prelude.{
  ℕ, ◌≡◌, inl, inr, refl, Bool, true, false, Bool-cases, Option, Option-cases, none, some, List, [],
  ◌∷◌, AllPairs, All, ok, when_ok, ok_injective, ◌≢◌, ◌∙◌, ap, sym, All-imp, arith,
}
use centry.Prelude.Text.{Text, text_eq, text_eq_sound, text_eq_ne}
use centry.AgentDb.Args.{require_string}
use centry.AgentDb.Keys.{
  Key, Revocation, find_key, is_active, get_active_agent_key, is_owned, mark_revoked, revoke_owned,
  revoke_agent_key,
}

-- The ids are all different, as the primary key of the table demands.
abbrev pub DistinctIds : List Key → Type 0
DistinctIds = AllPairs (λ j k. j.id ≢ k.id)

is_owned-id : (id agent_id owner : Text) (k : Key) → is_owned id agent_id owner k ≡ true → k.id ≡ id
unfolding is_owned
is_owned-id id agent_id owner k h = text_eq_sound k.id id (ground arith)

mark_revoked-is_active :
    (id : Text) (time : ℕ) (k : Key) → is_active id (mark_revoked time k) ≡ false
unfolding is_active mark_revoked
mark_revoked-is_active id time k = ground arith

is_active_no_id : (id : Text) (k : Key) → text_eq k.id id ≡ false → is_active id k ≡ false
unfolding is_active
is_active_no_id id k h = rw h

is_active-other : (id : Text) (k : Key) → k.id ≢ id → is_active id k ≡ false
unfolding is_active
is_active-other id k h = is_active_no_id id k (text_eq_ne k.id id h)

module _ (id agent_id owner : Text) (time : ℕ) where
  -- Where no row has the id, none is found.
  none_owned :
      (keys : List Key)
      → All (λ k. k.id ≢ id) keys
      → find_key (is_owned id agent_id owner) keys ≡ none
  unfolding find_key
  none_owned [] n = refl
  none_owned (k ∷ keys) (h, n) = elim (Bool-cases (is_owned id agent_id owner k)) [
    | inl e ↦ absurd (h (is_owned-id id agent_id owner k e))
    | inr e ↦ rw e (none_owned keys n)
  ]

  none_active :
      (keys : List Key)
      → All (λ k. k.id ≢ id) keys
      → find_key (is_active id) (revoke_owned (is_owned id agent_id owner) time keys) ≡ none
  unfolding find_key revoke_owned
  none_active [] n = refl
  none_active (k ∷ keys) (h, n) = elim (Bool-cases (is_owned id agent_id owner k)) [
    | inl e ↦ absurd (h (is_owned-id id agent_id owner k e))
    | inr e ↦ rw (e, is_active-other id k h) (none_active keys n)
  ]

  revoke_owned-inactive :
      (keys : List Key) (found : Key)
      → DistinctIds keys
      → find_key (is_owned id agent_id owner) keys ≡ some found
      → find_key (is_active id) (revoke_owned (is_owned id agent_id owner) time keys) ≡ none
  unfolding find_key revoke_owned
  revoke_owned-inactive [] found d h = cc
  revoke_owned-inactive (k ∷ keys) found (n, d) h =
      elim (Bool-cases (is_owned id agent_id owner k)) [
        | inl e ↦
            let same = is_owned-id id agent_id owner k e in
            let others : All (λ j. j.id ≢ id) keys =
              All-imp (λ j other e'. other (same ∙ sym e')) keys n in
            rw (e, mark_revoked-is_active id time k) (none_active keys others)
        | inr e ↦ elim (Bool-cases (text_eq k.id id)) [
          | inl own ↦
              let same = text_eq_sound k.id id own in
              let others : All (λ j. j.id ≢ id) keys =
                All-imp (λ j other e'. other (same ∙ sym e')) keys n in
              let missing = none_owned keys others in
              let later : find_key (is_owned id agent_id owner) keys ≡ some found = rw e at h in cc
          | inr other ↦
              let idle : is_active id k ≡ false = is_active_no_id id k other in
              rw (e, idle) (revoke_owned-inactive keys found d (rw e at h))
        ]
      ]

  revoke_owned-other :
      (other : Text)
      → other ≢ id
      → (keys : List Key)
      → find_key (is_active other) (revoke_owned (is_owned id agent_id owner) time keys)
        ≡ find_key (is_active other) keys
  unfolding find_key revoke_owned
  revoke_owned-other other differs [] = refl
  revoke_owned-other other differs (k ∷ keys) =
      let rest = revoke_owned-other other differs keys in
      elim (Bool-cases (is_owned id agent_id owner k)) [
        | inl e ↦
            let same = is_owned-id id agent_id owner k e in
            let idle = is_active-other other k (λ e'. differs (sym e' ∙ same)) in
            rw (e, mark_revoked-is_active other time k, idle, rest)
        | inr e ↦ rw (e, rest)
      ]

-- In a table whose ids are all different, a key that was found and revoked is not active any more.
pub revoke_agent_key_inactive :
    (keys after : List Key) (args : Revocation)
    → DistinctIds keys
    → revoke_agent_key keys args ≡ ok (after, true)
    → get_active_agent_key after args.id ≡ ok none
unfolding revoke_agent_key get_active_agent_key
revoke_agent_key_inactive keys after args d h = when_ok (require_string args.id _) _ h λ id e h₁.
    when_ok (require_string args.agent_id _) _ h₁ λ agent_id _ h₂.
      when_ok (require_string args.owner _) _ h₂ λ owner _ h₃.
        elim (Option-cases (find_key (is_owned id agent_id owner) keys)) [
          | inl missing ↦
              let refused : false ≡ true =
                ap (λ (r : List Key × Bool). r.1) (ok_injective (rw missing at h₃)) in
              cc
          | inr (found, there) ↦
              let revoked = ap (λ (r : List Key × Bool). r.0) (ok_injective (rw there at h₃)) in
              let gone = revoke_owned-inactive id agent_id owner args.time keys found d there in
              rw e (ap ok (rw revoked at gone))
        ]

require_string-some : (o : Option Text) (name t : Text) → require_string o name ≡ ok t → o ≡ some t
unfolding require_string
require_string-some none name t h = cc
require_string-some (some []) name t h = cc
require_string-some (some (c ∷ u)) name t h = ap some (ok_injective h)

get_active_agent_key-eq :
    (keys after : List Key) (id : Text)
    → find_key (is_active id) after ≡ find_key (is_active id) keys
    → get_active_agent_key after (some id) ≡ get_active_agent_key keys (some id)
unfolding get_active_agent_key require_string
get_active_agent_key-eq keys after [] h = refl
get_active_agent_key-eq keys after (c ∷ t) h = rw h

-- A revocation that is answered leaves every other id as it was: the same key, or none, is active.
pub revoke_agent_key_local :
    (keys after : List Key) (args : Revocation) (answer : Bool) (other : Text)
    → args.id ≢ some other
    → revoke_agent_key keys args ≡ ok (after, answer)
    → get_active_agent_key after (some other) ≡ get_active_agent_key keys (some other)
unfolding revoke_agent_key
revoke_agent_key_local keys after args answer other differs h =
    when_ok (require_string args.id _) _ h λ id e h₁.
      when_ok (require_string args.agent_id _) _ h₁ λ agent_id _ h₂.
        when_ok (require_string args.owner _) _ h₂ λ owner _ h₃.
          let first = λ (r : List Key × Bool). r.0 in
          let unlike : other ≢ id =
            λ same. differs (require_string-some args.id _ id e ∙ ap some (sym same)) in
          get_active_agent_key-eq keys after other
            (elim (Option-cases (find_key (is_owned id agent_id owner) keys)) [
              | inl missing ↦
                  ap (find_key (is_active other)) (sym (ap first (ok_injective (rw missing at h₃))))
              | inr (found, there) ↦
                  let revoked = ap first (ok_injective (rw there at h₃)) in
                  rw revoked at (revoke_owned-other id agent_id owner args.time other unlike keys)
            ])
