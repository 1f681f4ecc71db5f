-- ===== src/Executor/Guards.antt =====
-- When the executor runs an agent.
use centry.Prelude.{
  ℕ, zero, suc, ◌≤◌, ◌≡◌, ◌⊎◌, refl, ap, sym, ◌∙◌, inl, inr, true, false, Bool-cases, Option, none,
  some, List, [], ◌∷◌, ◌++◌, length, take, Result, Result-cases, ok, subst, arith,
}
use centry.Prelude.Text.{Text, text_eq_sound, codes}
use centry.Prelude.Trim.{trim}
use centry.Runner.Values.{text_or_empty, first_text}
use centry.Executor.{
  Env, Body, Request, Outcome, is_private_key, signer_key, is_bearer, is_authorized, run,
  find_and_run, with_texts, with_body, is_route, fetch,
}

length-take {ℓ} : {A : Type ℓ} (n : ℕ) (xs : List A) → length (take n xs) ≤ n
length-take zero xs = omega arith
length-take (suc n) [] = omega arith
length-take (suc n) (x ∷ xs) = omega (arith, length-take n xs)

is_bearer-eq :
    (a : Option Text) (secret : Text)
    → is_bearer a secret ≡ true
    → (a ≡ some (codes "Bearer " ++ secret)) × (1 ≤ length secret)
unfolding is_bearer
is_bearer-eq a [] h = cc
is_bearer-eq none (c ∷ t) h = cc
is_bearer-eq (some a) (c ∷ t) h = (ap some (text_eq_sound a _ h), omega arith)

-- A key of the right form is configured for the executor, or, where there is none, for the runner.
pub record IsSigner (env : Env) : Type 0 where
  pub key : Text
  pub configured :
      (env.executor_key ≡ some key)
      ⊎ (((env.executor_key ≡ none) ⊎ (env.executor_key ≡ some [])) × (env.runner_key ≡ some key))
  pub form : is_private_key key ≡ true

first_text-cases :
    (a b : Option Text) (c : ℕ) (t : Text)
    → text_or_empty (first_text a b) ≡ c ∷ t
    → (a ≡ some (c ∷ t)) ⊎ (((a ≡ none) ⊎ (a ≡ some [])) × (b ≡ some (c ∷ t)))
unfolding text_or_empty first_text
first_text-cases none none c t h = cc
first_text-cases none (some b) c t h = inr (inl refl, ap some h)
first_text-cases (some []) none c t h = cc
first_text-cases (some []) (some b) c t h = inr (inr refl, ap some h)
first_text-cases (some (d ∷ a)) b c t h = inl (ap some h)

signer_key-eq :
    (env : Env) (key : Text)
    → signer_key env ≡ ok key
    → (text_or_empty (first_text env.executor_key env.runner_key) ≡ key)
      × (is_private_key key ≡ true)
unfolding signer_key
signer_key-eq env key h = ground arith

signer_key-IsSigner : (env : Env) (key : Text) → signer_key env ≡ ok key → IsSigner env
unfolding is_private_key
signer_key-IsSigner env [] h = let wrong : false ≡ true = (signer_key-eq env [] h).1 in cc
signer_key-IsSigner env (c ∷ t) h =
    let (read, form) = signer_key-eq env (c ∷ t) h in
    record {
      key = c ∷ t;
      configured = first_text-cases env.executor_key env.runner_key c t read;
      form = form;
    }

module _ {ℓ} {A : Type ℓ} (agent_by_id : Text → Result (Option Text) (Option A))
    (address : Text → Text) (run_agent : A → Text → Result (Option Text) Outcome) where
  -- The agent of the id is run, with a key that is well formed.
  abbrev IsRun : Env → Text → Text → A × Text → Type ℓ
  IsRun env id t (agent, u) = (agent_by_id id ≡ ok (some agent)) × (u ≡ t) × IsSigner env

  is_route-eq :
      (r : Request) (method path : Text)
      → is_route agent_by_id address run_agent r method path ≡ true
      → (r.method ≡ method) × (r.path ≡ path)
  unfolding is_route
  is_route-eq r method path h =
      (text_eq_sound r.method method (ground arith), text_eq_sound r.path path (ground arith))

  run_ran : (agent : A) (t : Text) → (run agent_by_id address run_agent agent t).1 ≡ some (agent, t)
  unfolding run
  run_ran agent t = elim (Result-cases (run_agent agent t)) [
    | inl (o, e) ↦ rw (run, e) refl
    | inr (m, e) ↦ rw (run, e) refl
  ]

  find_and_run-IsRun :
      (env : Env) (id t : Text) (ran : A × Text)
      → (find_and_run agent_by_id address run_agent env id t).1 ≡ some ran
      → IsRun env id t ran
  unfolding find_and_run run
  find_and_run-IsRun env id t ran h = elim (Result-cases (agent_by_id id)) [
    | inr (e, f) ↦ let wrong : none ≡ some ran = rw (find_and_run, f) at h in cc
    | inl (none, f) ↦ let wrong : none ≡ some ran = rw (find_and_run, f) at h in cc
    | inl (some agent, f) ↦ elim (Result-cases (signer_key env)) [
      | inr (e, g) ↦ let wrong : none ≡ some ran = rw (find_and_run, f, g) at h in cc
      | inl (key, g) ↦
          let made : (run agent_by_id address run_agent agent t).1 ≡ some ran =
            rw (find_and_run, f, g) at h in
          let same : some (agent, t) ≡ some ran = sym (run_ran agent t) ∙ made in
          let eq : (agent, t) ≡ ran = cc in
          subst (IsRun env id t) eq (f, refl, signer_key-IsSigner env key g)
    ]
  ]

  with_texts-IsRun :
      (env : Env) (id t : Text) (ran : A × Text)
      → (with_texts agent_by_id address run_agent env id t).1 ≡ some ran
      → IsRun env id t ran × (1 ≤ length t)
  unfolding with_texts
  with_texts-IsRun env [] t ran h = let wrong : none ≡ some ran = h in cc
  with_texts-IsRun env (c ∷ id) [] ran h = let wrong : none ≡ some ran = h in cc
  with_texts-IsRun env (c ∷ id) (d ∷ t) ran h =
      (find_and_run-IsRun env (c ∷ id) (d ∷ t) ran h, omega arith)

  -- What a run has passed.
  pub record IsGuarded (env : Env) (r : Request) (ran : A × Text) : Type ℓ where
    pub posted : r.method ≡ codes "POST"
    pub path : r.path ≡ codes "/execute"
    pub secret : r.authorization ≡ some (codes "Bearer " ++ text_or_empty env.http_secret)
    pub has_secret : 1 ≤ length (text_or_empty env.http_secret)
    pub signer : IsSigner env
    pub request :
        (b : Body) × (r.body ≡ some b)
        × (agent_by_id (trim (text_or_empty b.agent_id)) ≡ ok (some ran.0))
        × (ran.1 ≡ take 4000 (trim (text_or_empty b.message)))
    pub has_message : 1 ≤ length ran.1
    pub short_message : length ran.1 ≤ 4000

  guarded :
      (env : Env) (r : Request) (o : Option Body) (ran : A × Text)
      → is_route agent_by_id address run_agent r (codes "POST") (codes "/execute") ≡ true
      → is_authorized env r ≡ true
      → r.body ≡ o
      → (with_body agent_by_id address run_agent env o).1 ≡ some ran
      → IsGuarded env r ran
  unfolding with_body is_authorized
  guarded env r none ran route authorized e h = let wrong : none ≡ some ran = h in cc
  guarded env r (some b) ran route authorized e h =
      let t = take 4000 (trim (text_or_empty b.message)) in
      let ((found, same, signer), filled) =
        with_texts-IsRun env (trim (text_or_empty b.agent_id)) t ran h in
      let (bearer, has_secret) =
        is_bearer-eq r.authorization (text_or_empty env.http_secret) authorized in
      record {
        posted = (is_route-eq r (codes "POST") (codes "/execute") route).0;
        path = (is_route-eq r (codes "POST") (codes "/execute") route).1;
        secret = bearer;
        has_secret = has_secret;
        signer = signer;
        request = (b, e, found, same);
        has_message = rw same filled;
        short_message = rw same (length-take 4000 (trim (text_or_empty b.message)));
      }

  -- The executor runs an agent only for a POST to /execute that carries the configured secret,
  -- which is not empty, with a well-formed key configured, and it runs the agent that the database
  -- has for the trimmed id of the body, with the body's trimmed message, cut to 4000 characters and
  -- not empty.
  pub fetch-IsGuarded :
      (env : Env) (r : Request) (ran : A × Text)
      → (fetch agent_by_id address run_agent env r).1 ≡ some ran
      → IsGuarded env r ran
  unfolding fetch
  fetch-IsGuarded env r ran h =
      let route = is_route agent_by_id address run_agent in
      elim (Bool-cases (route r (codes "GET") (codes "/health"))) [
        | inl asked ↦ let wrong : none ≡ some ran = rw (fetch, asked) at h in cc
        | inr not_asked ↦ elim (Bool-cases (route r (codes "POST") (codes "/execute"))) [
          | inr other ↦ let wrong : none ≡ some ran = rw (fetch, not_asked, other) at h in cc
          | inl posted ↦ elim (Bool-cases (is_authorized env r)) [
            | inr barred ↦
                let wrong : none ≡ some ran = rw (fetch, not_asked, posted, barred) at h in cc
            | inl authorized ↦
                guarded env r r.body ran posted authorized refl
                  (rw (fetch, not_asked, posted, authorized) at h)
          ]
        ]
      ]
