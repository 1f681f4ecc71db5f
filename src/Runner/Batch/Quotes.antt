-- ===== src/Runner/Batch/Quotes.antt =====
-- The quote of a swap.
use native.Mathlib.Nat.{mul-le-mul_left}
use centry.Prelude.{
  Result, ℕ, ◌-◌, ◌*◌, ◌≤◌, ◌≡◌, ap, inl, inr, true, Bool-cases, Option, Option-cases, none, some,
  ◌+◌, ◌⊎◌, List, [], ◌∷◌, All, ok, err, ok_injective, ltb, subst, arith,
}
use centry.Rewards.Types.{Field}
use centry.Runner.Values.{Error, no_quote_available, unitflow_fees, clamp_int}
use centry.Runner.Values.Bounds.{clamp_int_bounds}
use centry.Runner.Batch.{is_fee, better_quote, quote_loop, min_out, quote_exact_input}

-- The amount of a quote, 0 where there is none.
abbrev amount_in : Option (ℕ × ℕ) → ℕ
amount_in none = 0
amount_in (some (fee, amount)) = amount

some_eq : (m n : ℕ) → some m ≡ some n → m ≡ n
some_eq m n h = cc

better_quote_grows :
    (fee : ℕ) (q : Option ℕ) (best : Option (ℕ × ℕ))
    → (amount_in best ≤ amount_in (better_quote fee q best))
      × ((n : ℕ) → q ≡ some n → n ≤ amount_in (better_quote fee q best))
unfolding better_quote
better_quote_grows fee none best = (ground arith, λ n e. cc)
better_quote_grows fee (some m) none = elim (Bool-cases (ltb 0 m)) [
  | inl e ↦ rw e (ground arith, λ n h. ground (arith, some_eq m n h))
  | inr e ↦ rw e (ground arith, λ n h. ground (arith, some_eq m n h))
]
better_quote_grows fee (some m) (some (f, most)) = elim (Bool-cases (ltb most m)) [
  | inl e ↦ rw e (ground arith, λ n h. ground (arith, some_eq m n h))
  | inr e ↦ rw e (ground arith, λ n h. ground (arith, some_eq m n h))
]

better_quote_from :
    (fee : ℕ) (q : Option ℕ) (best : Option (ℕ × ℕ)) (r : ℕ × ℕ)
    → better_quote fee q best ≡ some r
    → (best ≡ some r) ⊎ ((fee ≡ r.0) × (q ≡ some r.1))
unfolding better_quote
better_quote_from fee none best r h = inl h
better_quote_from fee (some m) none r h = elim (Bool-cases (ltb 0 m)) [
  | inl e ↦
      let same : some (fee, m) ≡ some r = rw e at h in
      let eq : (fee, m) ≡ r = cc in inr (ap (λ p. p.0) eq, ap (λ p. some p.1) eq)
  | inr e ↦ let wrong : none ≡ some r = rw e at h in cc
]
better_quote_from fee (some m) (some (f, most)) r h = elim (Bool-cases (ltb most m)) [
  | inl e ↦
      let same : some (fee, m) ≡ some r = rw e at h in
      let eq : (fee, m) ≡ r = cc in inr (ap (λ p. p.0) eq, ap (λ p. some p.1) eq)
  | inr e ↦ inl (rw e at h)
]

module _ (quote : ℕ → Option ℕ) where
  -- No tier of the list gives more than the amount.
  abbrev pub IsMost : ℕ → List ℕ → Type 0
  IsMost amount fees = All (λ fee. (n : ℕ) → quote fee ≡ some n → n ≤ amount) fees

  quote_loop_grows :
      (fees : List ℕ) (best : Option (ℕ × ℕ))
      → (amount_in best ≤ amount_in (quote_loop quote fees best))
        × IsMost (amount_in (quote_loop quote fees best)) fees
  unfolding quote_loop
  quote_loop_grows [] best = (ground arith, tt)
  quote_loop_grows (fee ∷ fees) best =
      let (low, reached) = better_quote_grows fee (quote fee) best in
      let (grows, most) = quote_loop_grows fees (better_quote fee (quote fee) best) in
      (ground arith, ((λ n e. let bound = reached n e in ground arith), most))

  quote_loop_from :
      (fees : List ℕ) (best : Option (ℕ × ℕ)) (r : ℕ × ℕ)
      → quote_loop quote fees best ≡ some r
      → (best ≡ some r) ⊎ ((is_fee r.0 fees ≡ true) × (quote r.0 ≡ some r.1))
  unfolding quote_loop is_fee
  quote_loop_from [] best r h = inl h
  quote_loop_from (fee ∷ fees) best r h =
      elim (quote_loop_from fees (better_quote fee (quote fee) best) r h) [
        | inr (found, e) ↦ inr (ground (arith, found), e)
        | inl e ↦ elim (better_quote_from fee (quote fee) best r e) [
          | inl same ↦ inl same
          | inr (here, q) ↦ inr (ground (arith, here), subst (λ f. quote f ≡ some r.1) here q)
        ]
      ]

  min_out_bounds :
      (amount : ℕ) (slippage : Field)
      → (min_out amount slippage ≤ amount) × (amount ≤ 2 * min_out amount slippage + 1)
  unfolding min_out
  min_out_bounds amount slippage =
      let (_, high) = clamp_int_bounds slippage 0 5000 50 (ground arith) (ground arith) in
      let rest = 10000 - clamp_int slippage 0 5000 50 in
      let at_least : 5000 ≤ rest = omega arith in
      let at_most : rest ≤ 10000 = omega arith in
      (
        omega (arith, mul-le-mul_left amount at_most),
        omega (arith, mul-le-mul_left amount at_least),
      )

  best_of :
      (slippage : Field) (f amount : ℕ)
      → quote_loop quote unitflow_fees none ≡ some (f, amount)
      → (fee minimum : ℕ) → f ≡ fee
      → min_out amount slippage ≡ minimum
      → (amount : ℕ) × (is_fee fee unitflow_fees ≡ true)
        × (quote fee ≡ some amount)
        × IsMost amount unitflow_fees
        × (minimum ≤ amount)
        × (amount ≤ 2 * minimum + 1)
  best_of slippage f amount e fee minimum same_fee same_minimum =
      let (_, most) = quote_loop_grows unitflow_fees none in
      let (low, high) = min_out_bounds amount slippage in
      elim (quote_loop_from unitflow_fees none (f, amount) e) [
        | inl wrong ↦ cc
        | inr (found, quoted) ↦ (
          amount,
          subst (λ n. is_fee n unitflow_fees ≡ true) same_fee found,
          subst (λ n. quote n ≡ some amount) same_fee quoted,
          subst (λ best. IsMost (amount_in best) unitflow_fees) e most,
          ground (arith, same_minimum),
          ground (arith, same_minimum),
        )
      ]

  -- Where a quote is given, it is of one of the fee tiers, that tier gives an amount, no other tier
  -- gives more, and the smallest amount that the swap accepts is at most that amount and, rounded
  -- down, at least half of it, whatever slippage was asked for.
  pub quote_exact_input-IsMost :
      (slippage : Field) (fee minimum : ℕ)
      → quote_exact_input quote slippage ≡ ok (fee, minimum)
      → (amount : ℕ) × (is_fee fee unitflow_fees ≡ true)
        × (quote fee ≡ some amount)
        × IsMost amount unitflow_fees
        × (minimum ≤ amount)
        × (amount ≤ 2 * minimum + 1)
  unfolding quote_exact_input
  quote_exact_input-IsMost slippage fee minimum h =
      elim (Option-cases (quote_loop quote unitflow_fees none)) [
        | inl e ↦
            let wrong : ◌≡◌ {A = Result Error (ℕ × ℕ)} (err no_quote_available)
                (ok (fee, minimum)) =
              rw (quote_exact_input, e) at h in
            cc
        | inr ((f, amount), e) ↦
            let same : ok (f, min_out amount slippage) ≡ ok (fee, minimum) =
              rw (quote_exact_input, e) at h in
            let eq : (f, min_out amount slippage) ≡ (fee, minimum) = ok_injective same in
            best_of slippage f amount e fee minimum (ap (λ p. p.0) eq) (ap (λ p. p.1) eq)
      ]
