-- ===== src/Tests/Rewards.antt =====
-- The generator's theorems on the small chain.
use mathlib.Core.List.{Mem, Perm}
use centry.Prelude.{ℕ, ◌+◌, ◌≤◌, ◌<◌, ◌≡◌, ◌⊎◌, refl, List, [], ◌∷◌, map, All, ok, err, arith}
use centry.Prelude.Number.{number}
use centry.Prelude.Sort.{sort}
use centry.Prelude.Text.{text_eq}
use centry.Rewards.Types.{Position, OutputPosition, no_free_epoch}
use centry.Rewards.Scan.{normalize_address, scan, scan_token}
use centry.Rewards.Scan.Eligible.{IsEligible}
use centry.Rewards.Scan.Found.{power, Ascends, scan_exact}
use centry.Rewards.Budget.{is_free, owed, queued, resolve_reward_budget, find_next_epoch, unset}
use centry.Rewards.Budget.Solvent.{owed_in_all, queued_up_to, resolve_reward_budget-solvent}
use centry.Rewards.Budget.FreeEpoch.{IsFirstFree, AllTaken, find_next_epoch_lem}
use centry.Rewards.Allocate.{allocate}
use centry.Rewards.Allocate.Fair.{floor_of}
use centry.Rewards.Allocate.Correct.{
  origin, paid, TokensAscend, allocate-ok, allocate_quota, allocate_monotone,
}
use centry.Rewards.Generate.{generate}
use centry.Rewards.Generate.Correct.{IsSound, generate-IsSound}
use centry.Tests.Data

abbrev positions : List Position
positions = Data.alice_position ∷ Data.bob_position ∷ []

abbrev outputs : List OutputPosition
outputs = Data.alice_output ∷ Data.bob_output ∷ []

scanned : scan Data.toy_address Data.ve 10 ≡ ok (positions, 3)
unfolding scan scan_token text_eq
scanned = refl

scan_exact_example :
    (3 ≡ power positions)
    × Ascends 1 positions
    × All (IsEligible Data.toy_address Data.ve 10) positions
    × ((p : Position) → IsEligible Data.toy_address Data.ve 10 p → Mem p positions)
scan_exact_example = scan_exact Data.toy_address Data.ve 10 3 positions scanned

find_next_epoch_lem_example :
    ((e : ℕ) × (find_next_epoch Data.rewards 3 ≡ ok e) × IsFirstFree Data.rewards 2 e × (e ≤ 5))
    ⊎ ((find_next_epoch Data.rewards 3 ≡ err no_free_epoch) × AllTaken Data.rewards 2 6)
find_next_epoch_lem_example = find_next_epoch_lem Data.rewards 3

budgeted : resolve_reward_budget Data.rewards Data.limits 200 unset 3 ≡ ok 110
unfolding resolve_reward_budget owed queued text_eq
budgeted = refl

resolve_reward_budget-solvent_example :
    (0 < 110) × (110 + owed_in_all Data.rewards + queued_up_to Data.rewards 6 ≤ 200)
resolve_reward_budget-solvent_example =
    resolve_reward_budget-solvent Data.rewards Data.limits 200 unset 3 110 budgeted

allocate-ok_example :
    (out : List OutputPosition) × (allocate 110 3 positions ≡ ok out)
    × (paid out ≡ 110)
    × Perm (map origin out) positions
    × TokensAscend out
allocate-ok_example = allocate-ok 110 3 positions refl (omega arith)

divided : allocate 110 3 positions ≡ ok outputs
unfolding allocate sort
divided = refl

allocate_quota_example :
    All
      (λ o. (floor_of 110 3 (origin o) ≤ o.amount) × (o.amount ≤ floor_of 110 3 (origin o) + 1))
      outputs
allocate_quota_example = allocate_quota 110 3 positions refl (omega arith) outputs divided

allocate_monotone_example :
    All (λ p. All (λ q. p.voting_power < q.voting_power → p.amount ≤ q.amount) outputs) outputs
allocate_monotone_example =
    allocate_monotone 110 3 positions refl (omega arith) outputs divided (omega arith)

generated : generate Data.toy_address Data.chain Data.environment ≡ ok Data.allocation_file
unfolding generate normalize_address find_next_epoch is_free text_eq resolve_reward_budget owed
    queued scan scan_token allocate sort number
generated = refl

generate-IsSound_example : IsSound Data.toy_address Data.chain Data.environment Data.allocation_file
generate-IsSound_example =
    generate-IsSound Data.toy_address Data.chain Data.environment Data.allocation_file generated
