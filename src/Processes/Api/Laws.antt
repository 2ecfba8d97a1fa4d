-- ===== src/Processes/Api/Laws.antt =====
-- The start of an API process, with an application that cannot be built and a server that cannot
-- listen (src/api/server.ts).
use queue_worker_kit.Prelude.{◌≡◌, inl, inr, refl, ap, ◌∙◌, codes, List, [], ◌∷◌, Bool-cases}
use queue_worker_kit.Config.Env.{Env}
use queue_worker_kit.Values.{Completion, normal, throw}
use queue_worker_kit.Observability.Effects.{◌>>◌, lift, emit, log, info}
use queue_worker_kit.Processes.{
  redis, queues, http_server, did, opened, install_signal_handlers, configures, Start,
}
use queue_worker_kit.Processes.Worker.Closing.{
  Seen, opens, installs, seen, seen-append, seen-configured,
}
use queue_worker_kit.Api.Setup.{build_app}
use queue_worker_kit.Config.Defaults.{all_queue_names}
use queue_worker_kit.Processes.Api.{ApiWorld, api_steps, start_api}

-- What is seen after the queues are open, by how `buildApp` and `app.listen` end.
abbrev pub served : Completion (Unit {0}) → Completion (Unit {0}) → List Seen
served (throw v) listening = []
served (normal u) (throw v) = installs api_steps ∷ []
served (normal u) (normal w) = installs api_steps ∷ opens http_server ∷ []

abbrev listening : Completion (Unit {0}) → Start (Unit {0})
listening c = do
  emit (install_signal_handlers api_steps)
  lift c
  emit (opened http_server)
  emit (did (log info (codes "api started")))

seen-listening :
    (m : Start (Unit {0})) (c : Completion (Unit {0}))
    → seen m.1 ≡ []
    → seen (m >> listening c).1 ≡ served m.0 c
seen-listening (throw v, es) c h = h
seen-listening (normal u, es) (throw v) h = seen-append es _ ∙ (rw h refl)
seen-listening (normal u, es) (normal w) h = seen-append es _ ∙ (rw h refl)

-- Every start of an API process opens Redis and the queues first. It installs its signal handlers
-- before it listens, where the application was built, and opens its port last; if the application
-- cannot be built, nothing is installed, and if the port cannot be opened, the handlers stay.
pub seen-start_api :
    (world : ApiWorld) (env : Env)
    → seen (start_api world env).1
      ≡ opens redis
        ∷ opens queues
        ∷ served (build_app world.registers all_queue_names env).0 world.listen
unfolding start_api
seen-start_api world env =
    let app = build_app world.registers all_queue_names env in
    let rest : seen (configures app >> listening world.listen).1 ≡ served app.0 world.listen =
      seen-listening (configures app) world.listen (seen-configured app.1) in
    let all = ap (λ (l : List Seen). opens redis ∷ opens queues ∷ l) rest in
    elim (Bool-cases world.redis_ready) [ inl y ↦ rw y all | inr n ↦ rw n all ]
