-- ===== src/Rewards/Scan/Found.antt =====
-- What the scan of scripts/generate-reward-allocations.js finds.
use mathlib.Core.List.{Mem, mem-cons_self, mem-cons_of_mem}
use native.Mathlib.Nat.{add-zero, add_assoc}
use native.Mathlib.Decide.{ℕ_discrete}
use centry.Prelude.{
  ℕ, zero, suc, ◌+◌, ◌-◌, ◌≤◌, ◌<◌, ◌≡◌, refl, inl, inr, Result-cases, ap, Option, none, some, List,
  [], ◌∷◌, ◌++◌, append_assoc, append-nil, Result, ok, err, ◌>>=◌, >>=-eq-ok, All, arith,
}
use centry.Prelude.Sort.{sum_by}
use centry.Prelude.Text.{Text}
use centry.Rewards.Types.{Error, Position}
use centry.Rewards.Scan.Eligible.{
  IsEligible, scan_limit-inside, inside-scan_limit, scan_token-IsHeld, IsHeld-scan_token,
}
use centry.Rewards.Scan.{VeCent, scan_token, scan_loop, scan_limit, scan}

-- The tokens ascend strictly, and none is below `first`.
abbrev pub Ascends : ℕ → List Position → Type 0
Ascends first [] = Unit
Ascends first (p ∷ ps) = (first ≤ p.token_id) × Ascends (p.token_id + 1) ps

Ascends-weaken : (lo hi : ℕ) (ps : List Position) → lo ≤ hi → Ascends hi ps → Ascends lo ps
Ascends-weaken lo hi [] h a = tt
Ascends-weaken lo hi (p ∷ ps) h (b, a) = (omega arith, a)

abbrev pub power : List Position → ℕ
power = sum_by (λ p. p.voting_power)

-- `found`, with the position in front if there is one.
abbrev add_found : Option Position → List Position → List Position
add_found none found = found
add_found (some p) found = p ∷ found

abbrev after : List Position → ℕ → List Position → Result Error (List Position × ℕ)
after found total l = ok (found ++ l, total + power l)

skip_round :
    (found : List Position) (total : ℕ) (m : Result Error (List Position))
    → (m >>= after found total) ≡ ((m >>= λ f. ok (add_found none f)) >>= after found total)
skip_round found total (ok l) = refl
skip_round found total (err e) = refl

add_round :
    (found : List Position) (total : ℕ) (p : Position) (m : Result Error (List Position))
    → (m >>= after (found ++ p ∷ []) (total + p.voting_power))
      ≡ ((m >>= λ f. ok (add_found (some p) f)) >>= after found total)
add_round found total p (ok l) = rw (append_assoc, add_assoc)
add_round found total p (err e) = refl

module _ (get_address : Text → Option Text) (ve : VeCent) where
  -- The scan without accumulators.
  scan_list : ℕ → ℕ → Result Error (List Position)
  scan_list zero token = ok []
  scan_list (suc n) token = do
    r ← scan_token get_address ve token
    found ← scan_list n (token + 1)
    ok (add_found r found)

  scan_loop-scan_list :
      (n token : ℕ) (found : List Position) (total : ℕ)
      → scan_loop get_address ve n token found total ≡ (scan_list n token >>= after found total)
  unfolding scan_loop scan_list
  scan_loop-scan_list zero token found total = rw (append-nil found, add-zero)
  scan_loop-scan_list (suc n) token found total =
      elim (Result-cases (scan_token get_address ve token)) [
        | inl (none, e) ↦
            rw (e, scan_loop-scan_list n (token + 1) found total)
              (skip_round found total (scan_list n (token + 1)))
        | inl (some p, e) ↦
            rw (e, scan_loop-scan_list n (token + 1) (found ++ p ∷ []) (total + p.voting_power))
              (add_round found total p (scan_list n (token + 1)))
        | inr (x, e) ↦ rw e
      ]

  module _ (max_scan : ℕ) where
    -- One round of the scan, from the facts about the rounds after it.
    add_found_sound :
        (token : ℕ) (r : Option Position) (found : List Position)
        → scan_token get_address ve token ≡ ok r
        → 1 ≤ token
        → token < scan_limit ve max_scan
        → Ascends (token + 1) found × All (IsEligible get_address ve max_scan) found
        → Ascends token (add_found r found)
          × All (IsEligible get_address ve max_scan) (add_found r found)
    add_found_sound token none found e lo hi (up, all) =
        (Ascends-weaken token (token + 1) found (omega arith) up, all)
    add_found_sound token (some p) found e lo hi (up, all) =
        let (facts, same) = scan_token-IsHeld get_address ve token p e in
        let (below, within) = scan_limit-inside ve max_scan token hi in
        (
          (omega arith, rw same up),
          (
            record { facts = facts; from = omega arith; below = omega arith; within = omega arith },
            all,
          ),
        )

    scan_list_sound :
        (n token : ℕ) (l : List Position)
        → 1 ≤ token
        → n ≤ scan_limit ve max_scan - token
        → scan_list n token ≡ ok l
        → Ascends token l × All (IsEligible get_address ve max_scan) l
    unfolding scan_list
    scan_list_sound zero token l lo fits h = let e : l ≡ [] = cc in rw e (tt, tt)
    scan_list_sound (suc n) token l lo fits h =
        let (r, read, h₁) = >>=-eq-ok (scan_token get_address ve token) _ h in
        let (found, rest, h₂) = >>=-eq-ok (scan_list n (token + 1)) _ h₁ in
        let e : l ≡ add_found r found = cc in
        rw e (
          add_found_sound token r found read lo (omega arith)
            (scan_list_sound n (token + 1) found (omega arith) (omega arith) rest))

  add_found-mem :
      (r : Option Position) (p : Position) (found : List Position)
      → Mem p found
      → Mem p (add_found r found)
  add_found-mem none p found m = m
  add_found-mem (some q) p found m = mem-cons_of_mem q m

  scan_list_complete :
      (n token t : ℕ) (p : Position) (l : List Position)
      → scan_list n token ≡ ok l
      → token ≤ t
      → t < token + n
      → scan_token get_address ve t ≡ ok (some p)
      → Mem p l
  unfolding scan_list
  scan_list_complete zero token t p l h lo hi e = absurd (omega arith)
  scan_list_complete (suc n) token t p l h lo hi e =
      let (r, read, h₁) = >>=-eq-ok (scan_token get_address ve token) _ h in
      let (found, rest, h₂) = >>=-eq-ok (scan_list n (token + 1)) _ h₁ in
      let whole : l ≡ add_found r found = cc in
      rw whole (elim (ℕ_discrete token t) [
        | yes same ↦
            let here : r ≡ some p = cc (ap (scan_token get_address ve) same) in
            rw here mem-cons_self
        | no other ↦
            add_found-mem r p found
              (scan_list_complete n (token + 1) t p found rest (omega arith) (omega arith) e)
      ])

  -- A scan that succeeds returns exactly the positions of the tokens from 1 that are minted and
  -- within the number of tokens to scan, whose owner is not the zero address and whose voting power,
  -- or else NFT balance, is positive, each with the owner, power and lock that the contract answers;
  -- in strictly ascending order of the tokens, and with the sum of their powers.
  pub scan_exact :
      (max_scan total : ℕ) (found : List Position)
      → scan get_address ve max_scan ≡ ok (found, total)
      → (total ≡ power found)
        × Ascends 1 found
        × All (IsEligible get_address ve max_scan) found
        × ((p : Position) → IsEligible get_address ve max_scan p → Mem p found)
  unfolding scan
  scan_exact max_scan total found h =
      let rounds = scan_limit ve max_scan - 1 in
      let (l, listed, h₁) = >>=-eq-ok (scan_list rounds 1) _ (rw scan_loop-scan_list at h) in
      let e : l ≡ found = ground arith in
      let sums : total ≡ power l = ground arith in
      let (up, all) = scan_list_sound max_scan rounds 1 l (omega arith) (omega arith) listed in
      rw (← e) (
        sums,
        up,
        all,
        λ p f.
            let inside = inside-scan_limit ve max_scan p.token_id f.below f.within in
            scan_list_complete rounds 1 p.token_id p l listed f.from (omega arith)
              (IsHeld-scan_token get_address ve p f.facts),
      )
