-- ===== src/Rewards/Generate/Correct.antt =====
-- What the file of allocations promises.
use mathlib.Core.List.{Mem, Perm}
use centry.Prelude.{
  ℕ, ◌+◌, ◌≤◌, ◌<◌, ◌≡◌, refl, Option, List, [], ◌∷◌, map, ok, when_ok, inl, inr, subst, All, arith,
}
use centry.Prelude.Int.{pos, negsuc}
use centry.Prelude.Number.{number}
use centry.Prelude.Text.{Text}
use centry.Rewards.Types.{Position, OutputPosition}
use centry.Rewards.Scan.{VeCent, scan}
use centry.Rewards.Scan.Eligible.{IsEligible}
use centry.Rewards.Scan.Found.{power, Ascends, scan_exact}
use centry.Rewards.Budget.{
  RewardsView, Setting, unset, malformed, value, to_big_int, find_next_epoch, resolve_reward_budget,
}
use centry.Rewards.Budget.Solvent.{owed_in_all, queued_up_to, resolve_reward_budget-solvent}
use centry.Rewards.Budget.FreeEpoch.{IsOpen, is_free-IsOpen, find_next_epoch_lem}
use centry.Rewards.Allocate.{allocate}
use centry.Rewards.Allocate.Correct.{origin, paid, TokensAscend, allocate-ok}
use centry.Rewards.Generate.{
  Chain, Environment, AllocationFile, select_epoch, some_positions, check_network, addresses, fund,
  allocate_found, to_file, generate,
}

find_next_epoch-IsOpen :
    (rewards : RewardsView) (lookahead e : ℕ)
    → find_next_epoch rewards lookahead ≡ ok e
    → IsOpen rewards e
find_next_epoch-IsOpen rewards lookahead e h = elim (find_next_epoch_lem rewards lookahead) [
  | inl (f, found, first, within) ↦ let same : e ≡ f = cc in rw same first.free
  | inr (failed, taken) ↦ cc
]

-- The selected epoch is open, whether the script searched for it or the operator named it.
select_epoch-IsOpen :
    (rewards : RewardsView) (lookahead : ℕ) (configured : Setting) (e : ℕ)
    → select_epoch rewards lookahead configured ≡ ok e
    → IsOpen rewards e
unfolding select_epoch to_big_int
select_epoch-IsOpen rewards lookahead unset e h = find_next_epoch-IsOpen rewards lookahead e h
select_epoch-IsOpen rewards lookahead malformed e h = cc
select_epoch-IsOpen rewards lookahead (value (pos n)) e h = is_free-IsOpen rewards e (ground arith)
select_epoch-IsOpen rewards lookahead (value (negsuc n)) e h = cc

-- A file of allocations that stands behind the chain that it was made from.
pub record IsSound (get_address : Text → Option Text) (chain : Chain) (env : Environment)
    (file : AllocationFile) : Type 0 where
  -- The epoch, before it becomes a number.
  pub epoch : ℕ
  pub epoch_eq : file.epoch ≡ number epoch
  pub free : IsOpen chain.rewards epoch
  -- The eligible positions, each of them once.
  pub found : List Position
  pub ascends : Ascends 1 found
  pub eligible : All (IsEligible get_address chain.ve_cent env.limits.max_token_scan) found
  pub complete :
      (p : Position)
      → IsEligible get_address chain.ve_cent env.limits.max_token_scan p
      → Mem p found
  pub described : Perm (map origin file.positions) found
  pub ascend : TokensAscend file.positions
  pub power_eq : file.total_voting_power ≡ power found
  pub spends : paid file.positions ≡ file.reward_budget
  pub positive : 0 < file.reward_budget
  pub solvent :
      paid file.positions
        + owed_in_all chain.rewards
        + queued_up_to chain.rewards (epoch + env.limits.epoch_lookahead)
      ≤ chain.balance

fund_lem :
    (chain : Chain) (env : Environment) (e b : ℕ)
    → fund chain env ≡ ok (e, b)
    → IsOpen chain.rewards e
      × (0 < b)
      × (b + owed_in_all chain.rewards + queued_up_to chain.rewards (e + env.limits.epoch_lookahead)
          ≤ chain.balance)
unfolding fund
fund_lem chain env e b h =
    when_ok (select_epoch chain.rewards env.limits.epoch_lookahead env.configured_epoch) _ h
      λ e' selected h₁.
        when_ok
          (resolve_reward_budget chain.rewards env.limits chain.balance env.configured_budget e') _
          h₁
          λ b' resolved h₂.
            let same : e' ≡ e = ground arith in
            let same' : b' ≡ b = ground arith in
            let (positive, solvent) =
              resolve_reward_budget-solvent chain.rewards env.limits chain.balance
                env.configured_budget e b (rw (same, same') at resolved) in
            (
              select_epoch-IsOpen chain.rewards env.limits.epoch_lookahead env.configured_epoch e
                  (rw same at selected),
              positive,
              solvent,
            )

positive_power :
    (get_address : Text → Option Text) (ve : VeCent) (max_scan t : ℕ) (found : List Position)
    → All (IsEligible get_address ve max_scan) found
    → some_positions (found, t) ≡ ok (found, t)
    → 0 < power found
unfolding some_positions
positive_power get_address ve max_scan t [] all h = cc
positive_power get_address ve max_scan t (p ∷ ps) (e, all) h = omega (arith, e.facts.has_power)

some_positions-eq : (a b : List Position × ℕ) → some_positions a ≡ ok b → b ≡ a
unfolding some_positions
some_positions-eq a b h = ground arith

-- What `allocate_found` makes of the scan.
record IsDivided (get_address : Text → Option Text) (chain : Chain) (env : Environment) (budget : ℕ)
    (positions : List OutputPosition) (total : ℕ) : Type 0 where
  found : List Position
  ascends : Ascends 1 found
  eligible : All (IsEligible get_address chain.ve_cent env.limits.max_token_scan) found
  complete :
      (p : Position)
      → IsEligible get_address chain.ve_cent env.limits.max_token_scan p
      → Mem p found
  described : Perm (map origin positions) found
  ascend : TokensAscend positions
  power_eq : total ≡ power found
  spends : paid positions ≡ budget

divided :
    (get_address : Text → Option Text) (chain : Chain) (env : Environment) (budget : ℕ)
    (positions : List OutputPosition) (scanned : List Position × ℕ)
    → scan get_address chain.ve_cent env.limits.max_token_scan ≡ ok scanned
    → some_positions scanned ≡ ok scanned
    → allocate budget scanned.1 scanned.0 ≡ ok positions
    → IsDivided get_address chain env budget positions scanned.1
divided get_address chain env budget positions (found, total) scanned kept allocated =
    let (power_eq, ascends, eligible, complete) =
      scan_exact get_address chain.ve_cent env.limits.max_token_scan total found scanned in
    let some_power : 0 < power found =
      positive_power get_address chain.ve_cent _ total found eligible kept in
    let (out, done, spends, described, ascend) =
      allocate-ok budget total found power_eq (omega arith) in
    let same : out ≡ positions = cc in
    record {
      found = found;
      ascends = ascends;
      eligible = eligible;
      complete = complete;
      described = rw same at described;
      ascend = rw same at ascend;
      power_eq = power_eq;
      spends = rw same at spends;
    }

allocate_found-IsDivided :
    (get_address : Text → Option Text) (chain : Chain) (env : Environment) (budget : ℕ)
    (allocated : List OutputPosition × ℕ)
    → allocate_found get_address chain env budget ≡ ok allocated
    → IsDivided get_address chain env budget allocated.0 allocated.1
unfolding allocate_found
allocate_found-IsDivided get_address chain env budget allocated h =
    when_ok (scan get_address chain.ve_cent env.limits.max_token_scan) _ h λ scanned e h₁.
      when_ok (some_positions scanned) _ h₁ λ kept e₁ h₂.
        when_ok (allocate budget kept.1 kept.0) _ h₂ λ out e₂ h₃.
          let k : kept ≡ scanned = some_positions-eq scanned kept e₁ in
          let whole : (out, kept.1) ≡ allocated = ground arith in
          subst (λ (a : List OutputPosition × ℕ). IsDivided get_address chain env budget a.0 a.1)
            whole
            (divided get_address chain env budget out kept (rw (← k) at e) (rw (← k) at e₁) e₂)

-- A run that writes a file selects an epoch with neither an active nor a pending root. It pays out
-- exactly a positive budget that the contract's balance covers beside what the active epochs owe
-- and what is queued for the epochs up to the lookahead behind the selected one. It divides the
-- budget, in the order of the tokens, among exactly the eligible positions: each token that is
-- minted and within the number of tokens to scan, with an owner other than the zero address and a
-- positive voting power, or else NFT balance.
pub generate-IsSound :
    (get_address : Text → Option Text) (chain : Chain) (env : Environment) (file : AllocationFile)
    → generate get_address chain env ≡ ok file
    → IsSound get_address chain env file
unfolding generate
generate-IsSound get_address chain env file h = when_ok (check_network chain env) _ h λ _ _ h₁.
    when_ok (addresses get_address chain env) _ h₁ λ named _ h₂.
      when_ok (fund chain env) _ h₂ λ funded e h₃.
        when_ok (allocate_found get_address chain env funded.1) _ h₃ λ allocated e₁ h₄.
          let f : to_file env named funded allocated ≡ file = ground arith in
          let d = allocate_found-IsDivided get_address chain env funded.1 allocated e₁ in
          let (free, positive, solvent) = fund_lem chain env funded.0 funded.1 e in
          subst (IsSound get_address chain env) f (record {
            epoch = funded.0;
            epoch_eq = refl;
            free = free;
            found = d.found;
            ascends = d.ascends;
            eligible = d.eligible;
            complete = d.complete;
            described = d.described;
            ascend = d.ascend;
            power_eq = d.power_eq;
            spends = d.spends;
            positive = positive;
            solvent = omega (arith, d.spends, solvent);
          })
