-- ===== src/Rewards/Manifest/Distinct.antt =====
-- The loop over the token ids lets through exactly the lists without a second entry for a token.
use centry.Prelude.{
  ◌≡◌, ◌≢◌, ◌↔◌, refl, false, Bool-cases, inl, inr, List, [], ◌∷◌, ok, ap, All, All-imp, All-every,
  All-both, AllPairs, throw_if, when_ok, throw_if-eq-ok, arith,
}
use centry.Prelude.Int.{ℤ, int_eq, int_eq_refl, int_eq_ne}
use centry.Rewards.Manifest.{ParsedPosition, has_id, check_distinct}

-- No two positions are of the same token.
abbrev pub DistinctTokens : List ParsedPosition → Type 0
DistinctTokens = AllPairs (λ p q. p.token_id ≢ q.token_id)

-- None of the ids seen is the token's.
abbrev Unseen : List ℤ → ParsedPosition → Type 0
Unseen seen p = All (λ j. j ≢ p.token_id) seen

pub has_id-Unseen : (k : ℤ) (seen : List ℤ) → has_id k seen ≡ false → All (λ j. j ≢ k) seen
unfolding has_id
has_id-Unseen k [] h = tt
has_id-Unseen k (j ∷ seen) h = elim (Bool-cases (int_eq j k)) [
  | inl same ↦ ground arith
  | inr other ↦ (
    λ e. ground (arith, int_eq_refl k, ap (λ (i : ℤ). int_eq i k) e),
    has_id-Unseen k seen (ground arith),
  )
]

pub Unseen-has_id : (k : ℤ) (seen : List ℤ) → All (λ j. j ≢ k) seen → has_id k seen ≡ false
unfolding has_id
Unseen-has_id k [] a = refl
Unseen-has_id k (j ∷ seen) (n, a) = rw (int_eq_ne j k n, Unseen-has_id k seen a)

-- The list split into what the later entries see.
check_distinct_sound :
    (seen : List ℤ) (ps : List ParsedPosition)
    → check_distinct seen ps ≡ ok tt
    → All (Unseen seen) ps × DistinctTokens ps
unfolding check_distinct
check_distinct_sound seen [] h = (tt, tt)
check_distinct_sound seen (p ∷ ps) h = when_ok (throw_if (has_id p.token_id seen) _) _ h λ t e h₁.
    let (unseen, distinct) = check_distinct_sound (p.token_id ∷ seen) ps h₁ in
    let here = has_id-Unseen p.token_id seen (throw_if-eq-ok _ _ e) in
    ((here, All-imp (λ q u. u.1) ps unseen), (All-imp (λ q u. u.0) ps unseen, distinct))

check_distinct_complete :
    (seen : List ℤ) (ps : List ParsedPosition)
    → All (Unseen seen) ps
    → DistinctTokens ps
    → check_distinct seen ps ≡ ok tt
unfolding check_distinct
check_distinct_complete seen [] u d = refl
check_distinct_complete seen (p ∷ ps) (u, us) (n, d) =
    rw (Unseen-has_id p.token_id seen u)
      (check_distinct_complete (p.token_id ∷ seen) ps (All-both _ _ ps n us) d)

-- The loop passes a list of positions if and only if their tokens are all different.
pub check_distinct_iff :
    (ps : List ParsedPosition) → (check_distinct [] ps ≡ ok tt) ↔ DistinctTokens ps
check_distinct_iff ps =
    (λ h. (check_distinct_sound [] ps h).1, check_distinct_complete [] ps (All-every (λ p. tt) ps))
