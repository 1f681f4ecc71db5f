-- ===== src/Rewards/Scan/Eligible.antt =====
-- The tokens that a round of the loop in scripts/generate-reward-allocations.js keeps, in terms of
-- the reads of the veCENT contract.
use centry.Prelude.{ℕ, ◌≤◌, ◌<◌, ◌≡◌, ◌≢◌, ◌⊎◌, refl, subst, Option, none, some, false, ok, arith}
use centry.Prelude.Int.{ℤ, pos}
use centry.Prelude.Text.{Text, text_eq, text_eq_ne, text_eq-differ}
use centry.Rewards.Types.{Position}
use centry.Rewards.Scan.{
  VeCent, zero_address, read_power, lock_of, normalize_address, eligible, scan_token, scan_limit,
}

-- The amount and the end of a position's lock.
abbrev pub lock_fields : Position → ℤ × ℕ
lock_fields p = (p.locked_amount, p.lock_end)

-- What the contract and `get_address` answer for a position's token: an owner that is not the zero
-- address and reads as the position's, a positive power (the NFT's balance where the power cannot
-- be read), and the lock, or zeros where the lock cannot be read.
pub record IsHeld (get_address : Text → Option Text) (ve : VeCent) (p : Position) : Type 0 where
  pub holder : Text
  pub owned : ve.owner_of p.token_id ≡ some holder
  pub held : holder ≢ zero_address
  pub named : get_address holder ≡ some p.owner
  pub has_power : 0 < p.voting_power
  pub powered :
      (ve.voting_power p.token_id ≡ some p.voting_power)
      ⊎ ((ve.voting_power p.token_id ≡ none) × (ve.balance_of_nft p.token_id ≡ some p.voting_power))
  pub lock :
      (ve.locked p.token_id ≡ some (lock_fields p))
      ⊎ ((ve.locked p.token_id ≡ none) × (lock_fields p ≡ (pos 0, 0)))

-- A position whose token is minted, and within the number of tokens that are scanned.
pub record IsEligible (get_address : Text → Option Text) (ve : VeCent) (max_scan : ℕ) (p : Position)
    : Type 0 where
  pub facts : IsHeld get_address ve p
  pub from : 1 ≤ p.token_id
  pub below : p.token_id < ve.next_token_id
  pub within : p.token_id ≤ max_scan

pub scan_limit-inside :
    (ve : VeCent) (max_scan t : ℕ)
    → t < scan_limit ve max_scan
    → (t < ve.next_token_id) × (t ≤ max_scan)
unfolding scan_limit
scan_limit-inside ve max_scan t h = ground arith

pub inside-scan_limit :
    (ve : VeCent) (max_scan t : ℕ)
    → t < ve.next_token_id
    → t ≤ max_scan
    → t < scan_limit ve max_scan
unfolding scan_limit
inside-scan_limit ve max_scan t below within = ground arith

module _ (get_address : Text → Option Text) (ve : VeCent) where
  read_power-some :
      (t power : ℕ)
      → read_power ve t ≡ some power
      → (ve.voting_power t ≡ some power)
        ⊎ ((ve.voting_power t ≡ none) × (ve.balance_of_nft t ≡ some power))
  unfolding read_power
  read_power-some t power h = ground arith

  lock_of-cases :
      (t : ℕ)
      → (ve.locked t ≡ some (lock_of ve t)) ⊎ ((ve.locked t ≡ none) × (lock_of ve t ≡ (pos 0, 0)))
  unfolding lock_of
  lock_of-cases t = ground arith

  eligible-some :
      (t power : ℕ) (owner : Text) (p : Position)
      → eligible get_address ve t owner power ≡ ok (some p)
      → (o : Text) × (get_address owner ≡ some o)
        × (0 < power)
        × (record {
          token_id = t;
          owner = o;
          voting_power = power;
          locked_amount = (lock_of ve t).0;
          lock_end = (lock_of ve t).1;
        }
            ≡ p)
  unfolding eligible normalize_address
  eligible-some t power owner p h = ground arith

  eligible-IsHeld :
      (t power : ℕ) (owner : Text) (p : Position)
      → ve.owner_of t ≡ some owner
      → owner ≢ zero_address
      → read_power ve t ≡ some power
      → eligible get_address ve t owner power ≡ ok (some p)
      → IsHeld get_address ve p × (p.token_id ≡ t)
  unfolding eligible
  eligible-IsHeld t power owner p owned held powered h =
      let (o, named, nonzero, whole) = eligible-some t power owner p h in
      subst (λ (q : Position). IsHeld get_address ve q × (q.token_id ≡ t)) whole
        (
          record {
            holder = owner;
            owned = owned;
            held = held;
            named = named;
            has_power = nonzero;
            powered = read_power-some t power powered;
            lock = lock_of-cases t;
          },
          refl,
        )

  scan_token-some :
      (t : ℕ) (p : Position)
      → scan_token get_address ve t ≡ ok (some p)
      → (owner : Text) × (power : ℕ) × (ve.owner_of t ≡ some owner)
        × (text_eq owner zero_address ≡ false)
        × (read_power ve t ≡ some power)
        × (eligible get_address ve t owner power ≡ ok (some p))
  unfolding scan_token
  scan_token-some t p h = ground arith

  pub scan_token-IsHeld :
      (t : ℕ) (p : Position)
      → scan_token get_address ve t ≡ ok (some p)
      → IsHeld get_address ve p × (p.token_id ≡ t)
  scan_token-IsHeld t p h =
      let (owner, power, owned, held, powered, made) = scan_token-some t p h in
      eligible-IsHeld t power owner p owned (text_eq-differ owner zero_address held) powered made

  pub IsHeld-scan_token :
      (p : Position) → IsHeld get_address ve p → scan_token get_address ve p.token_id ≡ ok (some p)
  unfolding scan_token eligible read_power lock_of
  IsHeld-scan_token p f = ground (
    arith,
    f.owned,
    f.named,
    f.has_power,
    f.powered,
    f.lock,
    text_eq_ne f.holder zero_address f.held,
  )
