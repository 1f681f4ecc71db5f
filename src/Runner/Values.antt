-- ===== src/Runner/Values.antt =====
-- The data of agent-runner/src/index.js, and how it reads amounts and numbers.
pub mod Bounds
use centry.Prelude.{
  ℕ, zero, suc, Option, none, some, List, [], ◌∷◌, take, Result, ok, err, ◌>>=◌, min, max, ◌≡◌, ◌≤◌,
  ◌∙◌, ap, inl, inr, Option-cases, ok_injective, arith,
}
use centry.Prelude.Int.{ℤ, pos, negsuc}
use centry.Prelude.Text.{Text, codes}
use centry.Prelude.Trim.{trim, to_upper_case, big_int}
use centry.Prelude.Assoc.{lookup}
use centry.Rewards.Types.{Field, absent, empty, malformed, int}

-- The errors that the modelled functions throw.
pub data Error : Type 0 where
  unsupported_asset : Error
  not_a_positive_amount : Error
  not_an_address : Error
  not_encodable : Error
  rpc_read_failed : Error
  not_an_integer : Error
  invalid_threshold : Error
  invalid_threshold_order : Error
  action_not_allowed : Text → Error
  asset_not_allowed : Text → Error
  approval_not_allowed : Error
  invalid_max_amount : Text → Error
  amount_limit_exceeded : Text → Error
  approval_spender_not_allowed : Error
  approval_asset_not_allowed : Error
  unsupported_swap_direction : Error
  no_quote_available : Error
  unsupported_fee : Error
  transfer_target_required : Error
  transfer_target_not_found : Error
  external_transfer_prohibited : Error
  external_genesis_prohibited : Error
  not_created_by_factory : Error
  target_not_created_by_factory : Error
  invalid_support : Error
  unsupported_action : Text → Error
  action_limit_exceeded : Error
  invalid_call_batch : Error

-- The functions of ABIs that a call encodes, with their arguments.
pub data Payload : Type 0 where
  approve : (spender : Text) (amount : ℕ) → Payload
  pool_call : (function asset : Text) (amount : ℕ) → Payload
  exact_input :
      (token_in token_out : Text) (fee : ℕ) (recipient : Text) (deadline amount_in minimum : ℕ)
      → Payload
  transfer_to_agent : (asset target : Text) (amount : ℕ) → Payload
  cast_vote : (proposal support : ℕ) → Payload

-- What the worker calls of the library viem, with `none` for what throws. `parse_units` reads a
-- decimal number as an integer with so many decimals behind the point.
pub record Viem : Type 0 where
  pub get_address : Text → Option Text
  pub parse_units : Text → ℕ → Option ℤ
  pub encode : Payload → Option Text

-- An action, as the owner's client or the model sent it. A text field is `none` where it is not
-- there; an amount that is sent as a number is the text that `String` makes of it. Null is `empty`
-- for `support`, where `Number` reads it, and `absent` for `slippage_bps`, where `??` passes over it;
-- a fee of 0 is the number.
pub record Action : Type 0 where
  pub action : Option Text
  pub asset : Option Text
  pub input_token : Option Text
  pub to_asset : Option Text
  pub output_token : Option Text
  pub amount : Option Text
  pub spender : Option Text
  pub min_out : Option Text
  pub fee : Field
  pub slippage_bps : Field
  pub to_agent_id : Option Text
  pub proposal_id : Option Text
  pub support : Field

-- `String(value || "")`
unfoldable pub text_or_empty : Option Text → Text
text_or_empty none = []
text_or_empty (some t) = t

-- `a || b`, of texts.
unfoldable pub first_text : Option Text → Option Text → Option Text
first_text none b = b
first_text (some []) b = b
first_text (some (c ∷ t)) b = some (c ∷ t)

abbrev pub cent : Text
cent = codes "0x75E1C49f3fAebEc149c4c997f209A8e639c2253F"

abbrev pub usdc : Text
usdc = codes "0x3600000000000000000000000000000000000000"

abbrev pub eurc : Text
eurc = codes "0xbEf5f6d51CB62b58e6A8f77868681825C6fe21c1"

abbrev pub cirbtc : Text
cirbtc = codes "0x171A4217b86A807A64eB94757Db6849fb4bDbAA0"

-- `TOKENS`
abbrev pub tokens : List (Text × Text)
tokens =
    (codes "CENT", cent)
    ∷ (codes "USDC", usdc)
    ∷ (codes "EURC", eurc)
    ∷ (codes "CIRBTC", cirbtc)
    ∷ []

-- `ASSET_DECIMALS`
abbrev pub asset_decimals : List (Text × ℕ)
asset_decimals =
    (codes "USDC", 6) ∷ (codes "EURC", 6) ∷ (codes "CIRBTC", 8) ∷ (codes "CENT", 18) ∷ []

abbrev pub lending_pool : Text
lending_pool = codes "0x0ee649E5A95eB9127cB7146b26349a92B68c17A4"

abbrev pub unitflow_router : Text
unitflow_router = codes "0x6fD8351b9596C1F0b2f2479BfA6A171cb3d0f410"

abbrev pub governor : Text
governor = codes "0x0F54683a09a73cB60575E0DF36E474D4F9e1157B"

abbrev pub agent_factory : Text
agent_factory = codes "0x6Fc0b5E800A055f8adC9212294779860b2B0D0E3"

abbrev pub unitflow_fees : List ℕ
unitflow_fees = 100 ∷ 500 ∷ 3000 ∷ 10000 ∷ []

-- `clampInt`, of what `Number` makes of the value, rounded down.
unfoldable pub clamp_int : Field → ℕ → ℕ → ℕ → ℕ
clamp_int absent low high fallback = fallback
clamp_int malformed low high fallback = fallback
clamp_int empty low high fallback = max low (min high 0)
clamp_int (int (pos n)) low high fallback = max low (min high n)
clamp_int (int (negsuc n)) low high fallback = low

-- A positive number, of what was parsed.
unfoldable pub positive_amount : Option ℤ → Result Error ℕ
positive_amount (some (pos (suc n))) = ok (suc n)
positive_amount other = err not_a_positive_amount

-- `positiveUint`
unfoldable pub positive_uint : Option Text → Result Error ℕ
unfolding positive_amount
positive_uint none = err not_a_positive_amount
positive_uint (some t) = positive_amount (big_int t)

-- `assetAddress`
unfoldable pub asset_address : Option Text → Result Error Text
unfolding lookup text_or_empty
asset_address value = elim (lookup (to_upper_case (text_or_empty value)) tokens) [
  | some a ↦ ok a
  | none ↦ err unsupported_asset
]

module _ (viem : Viem) where
  -- `assetAmountToBaseUnits`, of a symbol in capitals.
  unfoldable pub amount_in_units : Option Text → Text → Result Error ℕ
  unfolding lookup text_or_empty positive_amount
  amount_in_units value symbol = elim (lookup symbol asset_decimals) [
    | none ↦ err unsupported_asset
    | some d ↦ positive_amount (viem.parse_units (trim (text_or_empty value)) d)
  ]

  unfoldable pub asset_amount_to_base_units : Option Text → Option Text → Result Error ℕ
  unfolding amount_in_units text_or_empty
  asset_amount_to_base_units value asset =
      amount_in_units value (to_upper_case (text_or_empty asset))

  -- `getAddress`
  unfoldable pub address_of : Text → Result Error Text
  address_of t = elim (viem.get_address t) [ some a ↦ ok a | none ↦ err not_an_address ]

  -- `encodeFunctionData`
  unfoldable pub encoded : Payload → Result Error Text
  encoded p = elim (viem.encode p) [ some d ↦ ok d | none ↦ err not_encodable ]

-- `selector`
unfoldable pub selector : Text → Text
selector d = take 10 d
