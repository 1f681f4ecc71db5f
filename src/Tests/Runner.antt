-- ===== src/Tests/Runner.antt =====
-- The theorems on the worker that runs the agents, on small batches and snapshots.
use centry.Prelude.{
  ℕ, ◌+◌, ◌-◌, ◌==◌, ◌⊎◌, ap, sym, All, ◌*◌, ◌^◌, ◌≡◌, ◌≤◌, refl, subst, true, false, Option, none,
  some, List, [], ◌∷◌, length, ok, if◌then◌else◌,
}
use centry.Prelude.Int.{ℤ, pos, negsuc}
use centry.Prelude.Text.{Text, text_eq, codes, to_lower_case, lower}
use centry.Prelude.Trim.{big_int}
use centry.Prelude.Trim
use centry.Rewards.Types.{absent, int}
use centry.Runner.Values.{
  selector, Payload, Viem, Action, usdc, eurc, lending_pool, unitflow_router, unitflow_fees,
}
use centry.Runner.Values
use centry.Runner.Policy.{Autonomy, agent_policy}
use centry.Runner.Batch.{Agent, Reads, Call, is_fee, quote_exact_input}
use centry.Runner.Build.{build_calls}
use centry.Runner.Build
use centry.Runner.Ledger.{Ledger, KeepsAddresses, Shows}
use centry.Runner.Ledger.Cleared.{IsCleared, build_calls-IsCleared}
use centry.Runner.Build.Parts.{context}
use centry.Runner.Build.Sent.{IsSent}
use centry.Runner.Build.Targets.{build_calls-IsSent}
use centry.Runner.Build.Actions.{build_calls-IsPermitted}
use centry.Runner.Policy.Permitted.{IsPermitted}
use centry.Runner.Batch.Quotes.{IsMost, quote_exact_input-IsMost}
use centry.Runner.Receipts.{approve_selector, annotate_action_calls}
use centry.Runner.Receipts.Segments.{is_approve, Selects}
use centry.Runner.Receipts.Labels.{IsReset, IsLabelled, annotate_action_calls-IsLabelled}

abbrev pub whole_units : Option ℤ → ℕ → Option ℤ
whole_units none d = none
whole_units (some (pos n)) d = some (pos (n * 10 ^ d))
whole_units (some (negsuc n)) d = none

abbrev digits_of : Payload → Text
digits_of (Payload.approve spender amount) = codes "0x095ea7b3"
digits_of other = codes "0x617ba037"

abbrev pub viem : Viem
viem = record {
  get_address = λ t. some t;
  parse_units = λ t d. whole_units (big_int t) d;
  encode = λ p. some (digits_of p);
}

abbrev agent : Agent
agent = record { owner = codes "0xaa"; account = codes "0xbb" }

abbrev reads : Reads
reads = record {
  allowance = λ token spender. some 3;
  quote = λ input fee output amount. if text_eq input output then none else some (fee * 2);
  agent_by_id = λ id. none;
  factory = λ account. none;
  is_registered = λ f account. none;
  seconds = 1700000000;
}

abbrev pub autonomy : Autonomy
autonomy = record {
  max_actions = absent;
  slippage_bps = absent;
  risk_guard = record {
    enabled = true;
    min_health_factor = some (codes "2");
    repay_at_health_factor = some (codes "3");
    stop_borrow_at_health_factor = some (codes "4");
  };
  policy = record {
    allowed_actions = none;
    allowed_assets = none;
    max_amount_by_asset = (codes "USDC", some (codes "1")) ∷ [];
  };
}

abbrev pub no_action : Action
no_action = record {
  action = none;
  asset = some (codes "usdc");
  input_token = none;
  to_asset = none;
  output_token = none;
  amount = some (codes "5");
  spender = none;
  min_out = none;
  fee = absent;
  slippage_bps = absent;
  to_agent_id = none;
  proposal_id = none;
  support = absent;
}

abbrev pub supply_usdc : Action
supply_usdc = record no_action { action = some (codes "supply") }

abbrev swap_usdc : Action
swap_usdc = record no_action { action = some (codes " swap"); to_asset = some (codes "EURC") }

abbrev actions : List Action
actions = supply_usdc ∷ swap_usdc ∷ []

abbrev ledger : Ledger
ledger k = 3

abbrev call : Text → Payload → Call
call target payload = record {
  target = target;
  payload = payload;
  data_hex = digits_of payload;
  selector_hex = digits_of payload;
}

abbrev calls : List Call
calls =
    call usdc (Payload.approve lending_pool 5)
    ∷ call lending_pool (Payload.pool_call (codes "supply") usdc 5)
    ∷ call usdc (Payload.approve unitflow_router 5)
    ∷ call unitflow_router (Payload.exact_input usdc eurc 10000 (codes "0xbb") 1700000300 5 19900)
    ∷ call usdc (Payload.approve lending_pool 0)
    ∷ call usdc (Payload.approve unitflow_router 0)
    ∷ []

built : build_calls viem reads agent autonomy false actions ≡ ok calls
unfolding build_calls Values.clamp_int Values.address_of Build.build_batch Build.build_action
    text_eq Trim.trim Trim.to_upper_case big_int Build.build_kind Build.build_pool_call
    Build.build_swap to_lower_case lower
built = refl

keeps : KeepsAddresses viem
keeps t a e = let same : t ≡ a = cc in ap to_lower_case (sym same)

shows : Shows reads ledger
shows token spender n e = cc

build_calls-IsCleared_example : IsCleared calls ledger
build_calls-IsCleared_example =
    build_calls-IsCleared viem reads agent autonomy false actions calls ledger keeps shows built

build_calls-IsSent_example :
    (calls ≡ [])
    ⊎ ((account : Text) × (viem.get_address agent.account ≡ some account)
        × All (IsSent (context viem reads agent autonomy false account)) calls
        × (1 ≤ length calls)
        × (length calls ≤ 32))
build_calls-IsSent_example = build_calls-IsSent viem reads agent autonomy false actions calls built

build_calls-IsPermitted_example :
    All (IsPermitted viem false (agent_policy autonomy)) actions × (length actions ≤ 4)
build_calls-IsPermitted_example =
    build_calls-IsPermitted viem reads agent autonomy false actions calls built

abbrev quote : ℕ → Option ℕ
quote fee = if fee == 500 then none else some (20000 - fee)

quoted : quote_exact_input quote (int (pos 9000)) ≡ ok (100, 9950)
unfolding quote_exact_input
quoted = refl

quote_exact_input-IsMost_example :
    (amount : ℕ) × (is_fee 100 unitflow_fees ≡ true)
    × (quote 100 ≡ some amount)
    × IsMost quote amount unitflow_fees
    × (9950 ≤ amount)
    × (amount ≤ 2 * 9950 + 1)
quote_exact_input-IsMost_example = quote_exact_input-IsMost quote (int (pos 9000)) 100 9950 quoted

abbrev pub borrow_usdc : Action
borrow_usdc = record no_action { action = some (codes "borrow") }

digits_tell :
    (p : Payload) → text_eq (to_lower_case (selector (digits_of p))) approve_selector ≡ is_approve p
unfolding text_eq to_lower_case lower selector
digits_tell (Payload.approve spender amount) = refl
digits_tell (Payload.pool_call function asset amount) = refl
digits_tell (Payload.exact_input token_in token_out fee recipient deadline amount m) = refl
digits_tell (Payload.transfer_to_agent asset target amount) = refl
digits_tell (Payload.cast_vote proposal support) = refl

selects : Selects viem
selects p d e =
    let same : digits_of p ≡ d = cc in
    subst (λ t. text_eq (to_lower_case (selector t)) approve_selector ≡ is_approve p) same
      (digits_tell p)

annotate_action_calls-IsLabelled_example :
    (account : Text) × (resets : List Call) × All IsReset resets
    × IsLabelled
        (context viem reads agent autonomy false account)
        (agent_policy autonomy)
        0
        actions
        resets
        calls
        (annotate_action_calls actions calls)
annotate_action_calls-IsLabelled_example =
    annotate_action_calls-IsLabelled viem reads agent autonomy false supply_usdc (swap_usdc ∷ [])
      calls selects built

-- The labels of the batch of the two actions.
labelled :
    annotate_action_calls actions calls
    ≡ some (record { index = 0; type = codes "approve" })
      ∷ some (record { index = 0; type = codes "supply" })
      ∷ some (record { index = 1; type = codes "approve" })
      ∷ some (record { index = 1; type = codes "swap" })
      ∷ none
      ∷ none
      ∷ []
unfolding annotate_action_calls text_eq Trim.trim to_lower_case lower
labelled = refl

-- With a list that still has a loan that was filtered out, as `runAgent` gives it, the labels are of
-- the wrong actions: the approval of the supply is recorded as the loan.
mislabelled :
    annotate_action_calls (borrow_usdc ∷ actions) calls
    ≡ some (record { index = 0; type = codes "borrow" })
      ∷ some (record { index = 1; type = codes "supply" })
      ∷ some (record { index = 2; type = codes "approve" })
      ∷ some (record { index = 2; type = codes "swap" })
      ∷ none
      ∷ none
      ∷ []
unfolding annotate_action_calls text_eq Trim.trim to_lower_case lower
mislabelled = refl
