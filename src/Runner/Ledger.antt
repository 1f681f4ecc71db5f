-- ===== src/Runner/Ledger.antt =====
-- What the calls of a batch do to the allowances of the agent's account, by the rules of ERC-20: an
-- approval sets the allowance of its spender, and a contract that takes tokens spends its own.
mod Tracks
mod Steps
mod Builds
mod Resets
pub mod Cleared
use centry.Prelude.{
  ℕ, ◌-◌, ◌≡◌, arith, sym, inl, inr, Bool, true, false, ◌||◌, Option, Option-cases, none, some,
  List, [], ◌∷◌, ◌++◌, ltb, if◌then◌else◌,
}
use centry.Prelude.Text.{Text, text_eq, to_lower_case, codes}
use centry.Runner.Values.{Payload, Viem}
use centry.Runner.Policy.{Kind, name_of}
use centry.Runner.Batch.{Reads, Call, pair_key}

-- The allowance for each pair of a token and a spender, by the pair's key.
abbrev pub Ledger : Type 0
Ledger = Text → ℕ

abbrev pub put : Ledger → Text → ℕ → Ledger
put ledger k n j = if text_eq k j then n else ledger j

-- `none` is a call that reverts, since the allowance does not suffice.
abbrev pub spend : Ledger → Text → ℕ → Option Ledger
spend ledger k n = if ltb (ledger k) n then none else some (put ledger k (ledger k - n))

abbrev pub takes : Text → Bool
takes function = text_eq function (name_of Kind.supply) || text_eq function (name_of Kind.repay)

-- The effect of a payload that is sent to a target.
unfoldable pub run_payload : Ledger → Text → Payload → Option Ledger
run_payload ledger target (Payload.approve spender amount) =
    some (put ledger (pair_key target spender) amount)
run_payload ledger target (Payload.pool_call function asset amount) =
    if takes function then spend ledger (pair_key asset target) amount else some ledger
run_payload ledger target (Payload.exact_input token_in token_out fee recipient deadline amount m) =
    spend ledger (pair_key token_in target) amount
run_payload ledger target (Payload.transfer_to_agent asset account amount) = some ledger
run_payload ledger target (Payload.cast_vote proposal support) = some ledger

unfoldable pub run_calls : List Call → Ledger → Option Ledger
run_calls [] ledger = some ledger
run_calls (c ∷ calls) ledger = elim (run_payload ledger c.target c.payload) [
  | none ↦ none
  | some after ↦ run_calls calls after
]

-- Does a payload set the allowance of the key?
unfoldable pub approves_payload : Text → Text → Payload → Bool
approves_payload k target (Payload.approve spender amount) = text_eq (pair_key target spender) k
approves_payload k target other = false

unfoldable pub approves : Text → List Call → Bool
approves k [] = false
approves k (c ∷ calls) = approves_payload k c.target c.payload || approves k calls

-- `getAddress` changes the case of an address only.
abbrev pub KeepsAddresses : Viem → Type 0
KeepsAddresses viem = (t a : Text) → viem.get_address t ≡ some a → to_lower_case a ≡ to_lower_case t

-- The chain's allowances are those of the ledger.
abbrev pub Shows : Reads → Ledger → Type 0
Shows reads ledger =
    (token spender : Text) (n : ℕ)
    → reads.allowance token spender ≡ some n
    → ledger (pair_key token spender) ≡ n

run_calls_push :
    (calls : List Call) (c : Call) (before ledger : Ledger)
    → run_calls calls before ≡ some ledger
    → run_calls (calls ++ c ∷ []) before ≡ run_payload ledger c.target c.payload
unfolding run_calls
run_calls_push [] c before ledger h =
    let same : before ≡ ledger = cc in
    elim (Option-cases (run_payload before c.target c.payload)) [
      | inl e ↦ rw (run_calls, e) (rw (← same) (sym e))
      | inr (after, e) ↦ rw (run_calls, e) (rw (← same) (sym e))
    ]
run_calls_push (d ∷ calls) c before ledger h =
    elim (Option-cases (run_payload before d.target d.payload)) [
      | inl e ↦ let stuck : none ≡ some ledger = rw (run_calls, e) at h in cc
      | inr (after, e) ↦
          rw (run_calls, e) (run_calls_push calls c after ledger (rw (run_calls, e) at h))
    ]

approves_push :
    (k : Text) (calls : List Call) (c : Call)
    → approves k (calls ++ c ∷ []) ≡ (approves k calls || approves_payload k c.target c.payload)
unfolding approves
approves_push k [] c = ground arith
approves_push k (d ∷ calls) c = ground (arith, approves_push k calls c)
