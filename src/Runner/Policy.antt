-- ===== src/Runner/Policy.antt =====
-- The owner's policy for an agent's actions, in agent-runner/src/index.js.
pub mod Permitted
use centry.Prelude.{
  ℕ, Bool, true, false, not, ◌&&◌, ◌||◌, Option, none, some, List, [], ◌∷◌, map, Result, ok, err,
  ◌>>=◌, ◌>>◌, throw_if, ltb, if◌then◌else◌,
}
use centry.Prelude.Text.{Text, text_eq, codes}
use centry.Prelude.Trim.{trim, to_upper_case}
use centry.Prelude.Assoc.{lookup}
use centry.Rewards.Types.{Field}
use centry.Runner.Values.{
  Error, action_not_allowed, asset_not_allowed, approval_not_allowed, invalid_max_amount,
  amount_limit_exceeded, Viem, Action, text_or_empty, first_text, positive_uint, amount_in_units,
  asset_amount_to_base_units,
}

-- `config.policy`. A list is `none` where it is no array; of an amount, `none` is null.
pub record PolicyInput : Type 0 where
  pub allowed_actions : Option (List Text)
  pub allowed_assets : Option (List Text)
  pub max_amount_by_asset : List (Text × Option Text)

-- `autonomy.riskGuard`
pub record RiskGuardInput : Type 0 where
  pub enabled : Bool
  pub min_health_factor : Option Text
  pub repay_at_health_factor : Option Text
  pub stop_borrow_at_health_factor : Option Text

-- `autonomy`; null is `empty` for `max_actions`, and `absent` for `slippage_bps`.
pub record Autonomy : Type 0 where
  pub max_actions : Field
  pub slippage_bps : Field
  pub risk_guard : RiskGuardInput
  pub policy : PolicyInput

-- The policy that holds.
pub record Policy : Type 0 where
  pub allowed_actions : List Text
  pub allowed_assets : List Text
  pub max_amount_by_asset : List (Text × Option Text)

-- `DEFAULT_ALLOWED_ACTIONS`
abbrev pub default_allowed_actions : List Text
default_allowed_actions =
    codes "supply"
    ∷ codes "withdraw"
    ∷ codes "borrow"
    ∷ codes "repay"
    ∷ codes "swap"
    ∷ codes "castVote"
    ∷ codes "transfer"
    ∷ []

-- `DEFAULT_ALLOWED_ASSETS`
abbrev pub default_allowed_assets : List Text
default_allowed_assets = codes "USDC" ∷ codes "EURC" ∷ codes "CIRBTC" ∷ []

-- A list that is there and not empty, or the default.
unfoldable pub list_or : List Text → Option (List Text) → List Text
list_or default none = default
list_or default (some []) = default
list_or default (some (t ∷ ts)) = t ∷ ts

unfoldable pub upper_list : Option (List Text) → Option (List Text)
upper_list none = none
upper_list (some ts) = some (map to_upper_case ts)

-- `agentPolicy`
unfoldable pub agent_policy : Autonomy → Policy
unfolding list_or upper_list
agent_policy autonomy = record {
  allowed_actions = list_or default_allowed_actions autonomy.policy.allowed_actions;
  allowed_assets = list_or default_allowed_assets (upper_list autonomy.policy.allowed_assets);
  max_amount_by_asset = autonomy.policy.max_amount_by_asset;
}

-- `has`, of a set.
unfoldable pub has : List Text → Text → Bool
has [] t = false
has (u ∷ us) t = text_eq u t || has us t

-- `String(action?.action || "").trim()`
unfoldable pub type_of : Action → Text
unfolding text_or_empty
type_of a = trim (text_or_empty a.action)

-- The types of actions that the worker knows.
pub data Kind : Type 0 where
  approve : Kind
  supply : Kind
  withdraw : Kind
  borrow : Kind
  repay : Kind
  swap : Kind
  transfer : Kind
  cast_vote : Kind

abbrev pub name_of : Kind → Text
name_of approve = codes "approve"
name_of supply = codes "supply"
name_of withdraw = codes "withdraw"
name_of borrow = codes "borrow"
name_of repay = codes "repay"
name_of swap = codes "swap"
name_of transfer = codes "transfer"
name_of cast_vote = codes "castVote"

abbrev pub kinds : List Kind
kinds = approve ∷ supply ∷ withdraw ∷ borrow ∷ repay ∷ swap ∷ transfer ∷ cast_vote ∷ []

unfoldable pub find_kind : Text → List Kind → Option Kind
find_kind t [] = none
find_kind t (k ∷ ks) = if text_eq t (name_of k) then some k else find_kind t ks

-- The `case` that a type selects.
unfoldable pub kind_of : Text → Option Kind
unfolding find_kind
kind_of t = find_kind t kinds

unfoldable pub is_kind : Kind → Text → Bool
is_kind k t = text_eq t (name_of k)

-- The types that move an asset.
unfoldable pub needs_asset : Text → Bool
unfolding kind_of
needs_asset t = elim (kind_of t) [ none ↦ false | some cast_vote ↦ false | some k ↦ true ]

-- `String(action?.asset || action?.inputToken || "").toUpperCase()`
unfoldable pub asset_of : Action → Text
unfolding first_text text_or_empty
asset_of a = to_upper_case (text_or_empty (first_text a.asset a.input_token))

unfoldable pub output_of : Action → Text
unfolding first_text text_or_empty
output_of a = to_upper_case (text_or_empty (first_text a.to_asset a.output_token))

-- `String(cap)`
unfoldable pub cap_text : Option Text → Text
cap_text none = codes "null"
cap_text (some t) = t

abbrev pub is_blank : Text → Bool
is_blank [] = true
is_blank (c ∷ t) = false

-- A cap that is set, where `none` is `null`; a cap that is blank or not there counts as none.
unfoldable pub cap_of : Policy → Text → Option (Option Text)
unfolding cap_text
cap_of policy asset = elim (lookup asset policy.max_amount_by_asset) [
  | none ↦ none
  | some cap ↦ if is_blank (trim (cap_text cap)) then none else some cap
]

module _ (viem : Viem) where
  -- The amount of an action: in units of the asset, or already in its smallest units.
  unfoldable pub read_amount : Bool → Action → Text → Result Error ℕ
  unfolding amount_in_units positive_uint
  read_amount human a symbol =
      if human then amount_in_units viem a.amount symbol else positive_uint a.amount

  unfoldable pub max_amount : Text → Option Text → Result Error ℕ
  max_amount asset cap = elim (amount_in_units viem cap asset) [
    | ok n ↦ ok n
    | err e ↦ err (invalid_max_amount asset)
  ]

  -- The amount must not exceed the cap.
  unfoldable pub assert_cap : Bool → Policy → Action → Text → Result Error (Unit {0})
  unfolding cap_of max_amount read_amount
  assert_cap human policy a asset = elim (cap_of policy asset) [
    | none ↦ ok tt
    | some cap ↦ do
      most ← max_amount asset cap
      amount ← read_amount human a asset
      throw_if (ltb most amount) (amount_limit_exceeded asset)
  ]

  -- The tests of an action that moves an asset.
  unfoldable pub assert_asset : Bool → Policy → Action → Result Error (Unit {0})
  unfolding has type_of is_kind asset_of assert_cap
  assert_asset human policy a = do
    throw_if (not (has policy.allowed_assets (asset_of a))) (asset_not_allowed (asset_of a))
    throw_if
        (is_kind approve (type_of a)
          && not (has policy.allowed_actions (name_of supply))
          && not (has policy.allowed_actions (name_of repay)))
        approval_not_allowed
    assert_cap human policy a (asset_of a)

  -- `assertActionPolicy`
  unfoldable pub assert_action_policy : Bool → Policy → Action → Result Error (Unit {0})
  unfolding type_of is_kind has needs_asset assert_asset output_of
  assert_action_policy human policy a = do
    throw_if (not (is_kind approve (type_of a)) && not (has policy.allowed_actions (type_of a)))
        (action_not_allowed (type_of a))
    (if needs_asset (type_of a) then assert_asset human policy a else ok tt)
    throw_if (is_kind swap (type_of a) && not (has policy.allowed_assets (output_of a)))
        (asset_not_allowed (output_of a))
