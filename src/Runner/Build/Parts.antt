-- ===== src/Runner/Build/Parts.antt =====
-- What `buildCalls` has gone through when it gives a batch.
use centry.Prelude.{
  ◌≡◌, ◌≤◌, Bool, false, ◌||◌, List, ◌∷◌, length, ok, ok_injective, ◌>>=◌, when_ok, throw_if,
  throw_if-eq-ok, ltb, arith,
}
use centry.Prelude.Text.{Text}
use centry.Runner.Values.{
  Viem, Action, action_limit_exceeded, invalid_call_batch, clamp_int, address_of,
}
use centry.Runner.Policy.{Autonomy, agent_policy}
use centry.Runner.Batch.{Agent, Reads, Call, Batch, empty_batch}
use centry.Runner.Build.{Context, build_loop, reset_loop, check_size, build_batch, build_calls}

-- The context of a batch.
abbrev pub context : Viem → Reads → Agent → Autonomy → Bool → Text → Context
context viem reads agent autonomy human account = record {
  viem = viem;
  reads = reads;
  agent = agent;
  account = account;
  autonomy = autonomy;
  human = human;
}

-- The loop over the actions, the one over the approvals, and the test of the size.
pub record Parts (x : Context) (actions : List Action) (calls : List Call) : Type 0 where
  pub built : Batch
  pub reset : Batch
  pub loop : build_loop x (agent_policy x.autonomy) actions empty_batch ≡ ok built
  pub resets : reset_loop x built.cleanup built ≡ ok reset
  pub some_calls : 1 ≤ length reset.calls
  pub few_calls : length reset.calls ≤ 32
  pub result : reset.calls ≡ calls

build_batch-Parts :
    (x : Context) (actions : List Action) (calls : List Call)
    → build_batch x actions ≡ ok calls
    → Parts x actions calls
unfolding build_batch check_size
build_batch-Parts x actions calls h =
    when_ok (build_loop x (agent_policy x.autonomy) actions empty_batch) _ h λ b e h₁.
      when_ok (reset_loop x b.cleanup b) _ h₁ λ c e₁ h₂.
        let out = ltb (length c.calls) 1 || ltb 32 (length c.calls) in
        when_ok (throw_if out invalid_call_batch) _ h₂ λ u e₂ h₃.
          let fits : out ≡ false = throw_if-eq-ok out invalid_call_batch e₂ in
          record {
            built = b;
            reset = c;
            loop = e;
            resets = e₁;
            some_calls = ground arith;
            few_calls = ground arith;
            result = ok_injective h₃;
          }

pub build_calls-Parts :
    (viem : Viem) (reads : Reads) (agent : Agent) (autonomy : Autonomy) (human : Bool) (a : Action)
    (more : List Action) (calls : List Call)
    → build_calls viem reads agent autonomy human (a ∷ more) ≡ ok calls
    → (account : Text) × (length (a ∷ more) ≤ clamp_int autonomy.max_actions 1 4 4)
      × (address_of viem agent.account ≡ ok account)
      × Parts (context viem reads agent autonomy human account) (a ∷ more) calls
unfolding build_calls
build_calls-Parts viem reads agent autonomy human a more calls h =
    let most = clamp_int autonomy.max_actions 1 4 4 in
    let over = ltb most (length (a ∷ more)) in
    when_ok {B = List Call} (throw_if over action_limit_exceeded)
      (λ _. address_of viem agent.account >>= λ account.
        build_batch (context viem reads agent autonomy human account) (a ∷ more))
      h
      λ _ e h₁.
        when_ok {B = List Call} (address_of viem agent.account)
          (λ account. build_batch (context viem reads agent autonomy human account) (a ∷ more)) h₁
          λ account e₁ h₂.
            let few : over ≡ false = throw_if-eq-ok over action_limit_exceeded e in
            (account, ground arith, e₁, build_batch-Parts _ (a ∷ more) calls h₂)
