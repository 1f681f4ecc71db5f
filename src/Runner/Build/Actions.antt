-- ===== src/Runner/Build/Actions.antt =====
-- The policy holds for every action of a batch.
use centry.Prelude.{◌≤◌, ◌≡◌, Bool, List, [], ◌∷◌, length, All, ok, when_ok, arith}
use centry.Runner.Values.{Viem, Action}
use centry.Runner.Values.Bounds.{clamp_int_bounds}
use centry.Runner.Policy.{Autonomy, Policy, agent_policy, assert_action_policy}
use centry.Runner.Policy.Permitted.{IsPermitted, assert_action_policy-IsPermitted}
use centry.Runner.Batch.{Agent, Reads, Call, Batch, empty_batch}
use centry.Runner.Build.{Context, build_action, build_loop, build_calls}
use centry.Runner.Build.Parts.{context, build_calls-Parts}

build_loop-IsPermitted :
    (x : Context) (policy : Policy) (actions : List Action) (b c : Batch)
    → build_loop x policy actions b ≡ ok c
    → All (IsPermitted x.viem x.human policy) actions
unfolding build_loop build_action
build_loop-IsPermitted x policy [] b c h = tt
build_loop-IsPermitted x policy (a ∷ more) b c h = when_ok (build_action x policy b a) _ h λ d e h₁.
    when_ok (assert_action_policy x.viem x.human policy a) _ e λ u e₁ _. (
      assert_action_policy-IsPermitted x.viem x.human policy a e₁,
      build_loop-IsPermitted x policy more d c h₁,
    )

-- Where `buildCalls` gives a batch, every action passes the owner's policy: its type is in the
-- list, its asset, and for a swap the asset that it buys, are in theirs, and where the asset has a
-- cap, the cap and the amount can be read and the amount does not exceed it. An approval needs
-- `supply` or `repay` in the list instead. The batch has at most four actions.
pub build_calls-IsPermitted :
    (viem : Viem) (reads : Reads) (agent : Agent) (autonomy : Autonomy) (human : Bool)
    (actions : List Action) (calls : List Call)
    → build_calls viem reads agent autonomy human actions ≡ ok calls
    → All (IsPermitted viem human (agent_policy autonomy)) actions × (length actions ≤ 4)
build_calls-IsPermitted viem reads agent autonomy human [] calls h = (tt, ground arith)
build_calls-IsPermitted viem reads agent autonomy human (a ∷ more) calls h =
    let (account, few, _, parts) =
      build_calls-Parts viem reads agent autonomy human a more calls h in
    let x = context viem reads agent autonomy human account in
    (
      build_loop-IsPermitted x (agent_policy autonomy) (a ∷ more) empty_batch parts.built
          parts.loop,
      ground (arith, clamp_int_bounds autonomy.max_actions 1 4 4),
    )
