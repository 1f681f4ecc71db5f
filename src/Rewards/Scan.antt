-- ===== src/Rewards/Scan.antt =====
-- The scan over the veCENT tokens, in `main` of scripts/generate-reward-allocations.js.
pub mod Eligible
pub mod Found
use centry.Prelude.{
  ℕ, zero, suc, ◌+◌, ◌-◌, Option, none, some, List, [], ◌∷◌, ◌++◌, Result, ok, err, ◌>>=◌, ltb,
  ◌==◌, if◌then◌else◌,
}
use centry.Prelude.Int.{ℤ, pos}
use centry.Prelude.Text.{Text, text_eq, codes}
use centry.Prelude.{replicate}
use centry.Rewards.Types.{Error, not_an_address, Position}

-- The reads of the veCENT contract; `none` is a call that reverts.
pub record VeCent : Type 0 where
  pub next_token_id : ℕ
  pub owner_of : ℕ → Option Text
  pub voting_power : ℕ → Option ℕ
  pub balance_of_nft : ℕ → Option ℕ
  pub locked : ℕ → Option (ℤ × ℕ)

-- `ethers.ZeroAddress`
abbrev pub zero_address : Text
zero_address = codes "0x" ++ replicate 40 b'0'

-- The voting power, with the NFT's balance where that read fails.
unfoldable pub read_power : VeCent → ℕ → Option ℕ
read_power ve token = elim (ve.voting_power token) [
  | some p ↦ some p
  | none ↦ ve.balance_of_nft token
]

-- `locked ? BigInt(locked.amount) : "0"`, and the same for the end.
unfoldable pub lock_of : VeCent → ℕ → ℤ × ℕ
lock_of ve token = elim (ve.locked token) [ some l ↦ l | none ↦ (pos 0, 0) ]

-- `max_scan` is `MAX_TOKEN_SCAN`.
unfoldable pub scan_limit : VeCent → ℕ → ℕ
scan_limit ve max_scan =
    if ltb ve.next_token_id (max_scan + 1) then ve.next_token_id else max_scan + 1

-- `get_address` is `ethers.getAddress`, with `none` for a text that is no address.
module _ (get_address : Text → Option Text) where
  unfoldable pub normalize_address : Text → Result Error Text
  normalize_address t = elim (get_address t) [ some a ↦ ok a | none ↦ err not_an_address ]

  module _ (ve : VeCent) where
    -- One round of the loop for a token with an owner and a power: the position, if it is eligible.
    unfoldable pub eligible : ℕ → Text → ℕ → Result Error (Option Position)
    unfolding normalize_address lock_of
    eligible token owner power = if power == 0 then ok none else do
      o ← normalize_address owner
      ok (
          some (record {
            token_id = token;
            owner = o;
            voting_power = power;
            locked_amount = (lock_of ve token).0;
            lock_end = (lock_of ve token).1;
          }))

    -- The body of the loop: `ok none` is a `continue`.
    unfoldable pub scan_token : ℕ → Result Error (Option Position)
    unfolding read_power eligible
    scan_token token = elim (ve.owner_of token) [
      | none ↦ ok none
      | some owner ↦
          if text_eq owner zero_address
          then ok none
          else elim (read_power ve token) [ none ↦ ok none | some p ↦ eligible token owner p ]
    ]

    -- The loop, over the rounds left: the positions found and their total power.
    unfoldable pub scan_loop : ℕ → ℕ → List Position → ℕ → Result Error (List Position × ℕ)
    scan_loop zero token found total = ok (found, total)
    scan_loop (suc n) token found total = do
      r ← scan_token token
      elim r [
        | none ↦ scan_loop n (token + 1) found total
        | some p ↦ scan_loop n (token + 1) (found ++ p ∷ []) (total + p.voting_power)
      ]

    -- The tokens from 1 up to, and without, the limit.
    unfoldable pub scan : ℕ → Result Error (List Position × ℕ)
    unfolding scan_loop scan_limit
    scan max_scan = scan_loop (scan_limit ve max_scan - 1) 1 [] 0
