-- ===== src/Api/Setup/Laws.antt =====
-- What is in place when a route is served, and when setting up the API fails (src/api/app.ts,
-- src/api/bull-board.ts).
use queue_worker_kit.Prelude.{
  ◌&&◌, ◌⊎◌, inl, inr, ◌≡◌, refl, ◌∙◌, not, Text, codes, List, [], ◌∷◌, Bool, true, false,
  Bool-cases, Option, none, some,
}
use queue_worker_kit.Config.Env.{Env, is_production, load_env}
use queue_worker_kit.Config.Env.Variables.{Url}
use queue_worker_kit.Config.Env.Dashboard.{DashboardFits}
use queue_worker_kit.Config.Env.Laws.{load_env-IsLoaded}
use queue_worker_kit.Config.Schema.{Source, Builders, BuildersLaws}
use queue_worker_kit.Values.{Value, Completion, normal, throw}
use queue_worker_kit.Observability.Effects.{◌>>◌, emit, log, info}
use queue_worker_kit.Api.Setup.{
  AppStep, set_validator_compiler, add_request_hook, set_error_handler, registering, route,
  add_auth_hook, create_board, wrote, Plugin, helmet, health_routes, metrics_routes, jobs_routes,
  basic_auth, board_ui, Registers, Setup, register, register_bull_board, mount, build_app,
  routes_of,
}

-- What has been installed so far: for every request, and for those of the dashboard.
pub record Installed : Type 0 where
  pub validator : Bool
  pub request_hook : Bool
  pub error_handler : Bool
  pub credentials : Bool
  pub authentication : Bool

abbrev pub nothing : Installed
nothing = record {
  validator = false;
  request_hook = false;
  error_handler = false;
  credentials = false;
  authentication = false;
}

abbrev install : Installed → AppStep → Installed
install s set_validator_compiler = record s { validator = true }
install s add_request_hook = record s { request_hook = true }
install s (set_error_handler exposed) = record s { error_handler = true }
install s (registering (basic_auth username password)) = record s { credentials = true }
install s add_auth_hook = record s { authentication = true }
install s step = s

abbrev same : Bool → Bool → Bool
same true b = b
same false b = not b

-- A route comes after the validator, the hook of the correlation id and the error handler, which
-- exposes internals only as is given. The dashboard comes after its authentication, and this after
-- the credentials.
abbrev permits : Bool → Installed → AppStep → Bool
permits exposed s (set_error_handler e) = same exposed e
permits exposed s (route r) = s.validator && (s.request_hook && s.error_handler)
permits exposed s (create_board queues) = s.authentication
permits exposed s (registering board_ui) = s.authentication
permits exposed s add_auth_hook = s.credentials
permits exposed s step = true

abbrev pub is_guarded : Bool → Installed → List AppStep → Bool
is_guarded exposed s [] = true
is_guarded exposed s (step ∷ steps) =
    permits exposed s step && is_guarded exposed (install s step) steps

same_refl : (b : Bool) → same b b ≡ true
same_refl true = refl
same_refl false = refl

Completion-cases :
    {A : Type 0} (c : Completion A) → ((a : A) × (c ≡ normal a)) ⊎ ((v : Value) × (c ≡ throw v))
Completion-cases (normal a) = inl (a, refl)
Completion-cases (throw v) = inr (v, refl)

abbrev for_requests : Installed
for_requests = record nothing { validator = true; request_hook = true; error_handler = true }

mount-is_guarded :
    (registers : Registers) (queues : List Text) (username password : Option Text) (exposed : Bool)
    → is_guarded exposed for_requests (mount registers queues username password).1 ≡ true
unfolding mount register routes_of
mount-is_guarded registers queues none password exposed = refl
mount-is_guarded registers queues (some name) none exposed = refl
mount-is_guarded registers queues (some name) (some password) exposed =
    elim (Completion-cases (registers (basic_auth name password))) [
      | inr (v, e) ↦ rw e refl
      | inl (u, e) ↦ rw e (elim (Completion-cases (registers board_ui)) [
        | inr (v, f) ↦ rw f refl
        | inl (u', f) ↦ rw f refl
      ])
    ]

-- However the registrations end, `buildApp` adds no route before requests are validated, have their
-- correlation id and have an error handler, which exposes internals exactly where the environment
-- is not production. The dashboard is added only behind its authentication, which is added only
-- after the credentials.
pub build_app-is_guarded :
    (registers : Registers) (queues : List Text) (env : Env)
    → is_guarded (not (is_production env)) nothing (build_app registers queues env).1 ≡ true
unfolding build_app register routes_of
build_app-is_guarded registers queues env =
    let exposed = not (is_production env) in
    elim (Completion-cases (registers (helmet false))) [
      | inr (v, e) ↦ rw e refl
      | inl (u, e) ↦
          rw (e, same_refl exposed)
            (elim (Completion-cases (registers health_routes)) [
              | inr (v, f) ↦ rw f refl
              | inl (u', f) ↦ rw f (elim (Completion-cases (registers metrics_routes)) [
                | inr (v, g) ↦ rw g refl
                | inl (u', g) ↦ rw g (elim (Completion-cases (registers (jobs_routes queues))) [
                  | inr (v, k) ↦ rw k refl
                  | inl (u', k) ↦ rw k (elim (Bool-cases env.enable_bull_board) [
                    | inl y ↦ rw y (
                        mount-is_guarded registers queues env.bull_board_username
                          env.bull_board_password exposed)
                    | inr n ↦ rw n refl
                  ])
                ])
              ])
            ])
    ]

abbrev Fails : Registers → Value → Type 0
Fails registers v = (p : Plugin) × (registers p ≡ throw v)

>>-throws :
    {A B : Type 0} (m : Setup A) (next : Setup B) (v : Value)
    → (m >> next).0 ≡ throw v
    → (m.0 ≡ throw v) ⊎ (next.0 ≡ throw v)
>>-throws (normal a, steps) next v h = inr h
>>-throws (throw w, steps) next v h = inl (cc h)

register-Fails :
    (registers : Registers) (p : Plugin) (v : Value)
    → (register registers p).0 ≡ throw v
    → Fails registers v
unfolding register
register-Fails registers p v h = elim (Completion-cases (registers p)) [
  | inl (u, e) ↦ cc (rw e at h)
  | inr (w, e) ↦ (p, e ∙ (rw e at h))
]

-- A registration fails, or what follows it does.
register-throws :
    {A : Type 0} (registers : Registers) (p : Plugin) (next : Setup A) (v : Value)
    → (next.0 ≡ throw v → Fails registers v)
    → (register registers p >> next).0 ≡ throw v
    → Fails registers v
register-throws registers p next v later h = elim (>>-throws (register registers p) next v h) [
  | inl now ↦ register-Fails registers p v now
  | inr after ↦ later after
]

mount-throws :
    (registers : Registers) (queues : List Text) (name password : Text) (v : Value)
    → (mount registers queues (some name) (some password)).0 ≡ throw v
    → Fails registers v
unfolding mount register_bull_board
mount-throws registers queues name password v h =
    elim (>>-throws (register_bull_board registers queues name password)
      (emit (wrote (log info (codes "bull board mounted behind basic auth")))) v h) [
        | inl board ↦
            register-throws registers (basic_auth name password) _ v
              (register-Fails registers board_ui v) board
        | inr never ↦ cc never
      ]

-- Where the environment has been loaded, `buildApp` fails only with the error of a plugin that fails
-- to register: it never meets a dashboard that is on and has no credentials, whatever the
-- environment was given.
build_app-credentials :
    {z : Builders} (laws : BuildersLaws z) (new_url : Text → Option Url) (source : Source)
    (env : Env) (registers : Registers) (queues : List Text) (v : Value)
    → load_env z new_url source ≡ normal env
    → (build_app registers queues env).0 ≡ throw v
    → (p : Plugin) × (registers p ≡ throw v)
unfolding build_app
build_app-credentials laws new_url source env registers queues v loaded h =
    register-throws registers (helmet false) _ v
      (register-throws registers health_routes _ v (
        register-throws registers metrics_routes _ v (
          register-throws registers (jobs_routes queues) _ v λ later.
            elim (Bool-cases env.enable_bull_board) [
              | inr n ↦ cc (rw n at later)
              | inl y ↦
                  let (name, password, has_name, has_password, _) : DashboardFits true env =
                    rw y at ((load_env-IsLoaded laws new_url source env loaded).dashboard) in
                  mount-throws registers queues name password v
                    (rw (y, has_name, has_password) at later)
            ])))
      h
