-- ===== src/Config/Env/Laws.antt =====
-- What a loaded environment satisfies, variable by variable and across variables.
use queue_worker_kit.Prelude.{
  Text, codes, any, text_eq, [], true, Option, some, ◌≡◌, ◌⊎◌, inl, inr, refl, subst, arith,
}
use queue_worker_kit.Values.{normal, normal-injective}
use queue_worker_kit.Jobs.Types.{Parsed, success, failure}
use queue_worker_kit.Config.Schema.{Schema, Source, ObjectSchema, Builders, BuildersLaws}
use queue_worker_kit.Config.Env.{
  Env, env_of, Variables, base_env_schema, env_schema, loaded, load_env, dashboard_issues,
  node_envs, log_levels,
}
use queue_worker_kit.Config.Env.Variables.{
  is_cron, Url, is_redis, is_prefix, not_empty, redis_url_schema, cron_schema, queue_prefix_schema,
  host_schema,
}
use queue_worker_kit.Config.Env.Integers.{Within, Within-default, default_holds, refined, listed}
use queue_worker_kit.Config.Env.Dashboard.{DashboardFits, dashboard_issues-nil}

-- What holds of every environment that has been loaded.
pub record IsLoaded (new_url : Text → Option Url) (env : Env) : Type 0 where
  pub node_env : any (text_eq env.node_env) node_envs ≡ true
  pub host : not_empty env.host ≡ true
  pub redis_url :
      (env.redis_url ≡ codes "redis://localhost:6379") ⊎ (is_redis (new_url env.redis_url) ≡ true)
  pub log_level : any (text_eq env.log_level) log_levels ≡ true
  pub queue_prefix : is_prefix env.queue_prefix ≡ true
  pub port : Within 1 65535 env.port
  pub worker_concurrency : Within 1 1000 env.worker_concurrency
  pub job_attempts : Within 1 50 env.job_attempts
  pub job_backoff_delay_ms : Within 0 3600000 env.job_backoff_delay_ms
  pub job_remove_on_complete_count : Within 0 1000000 env.job_remove_on_complete_count
  pub job_remove_on_fail_count : Within 0 1000000 env.job_remove_on_fail_count
  pub worker_rate_limit_max : Within 1 1000000 env.worker_rate_limit_max
  pub worker_rate_limit_duration_ms : Within 1 3600000 env.worker_rate_limit_duration_ms
  pub job_timeout_ms : Within 100 3600000 env.job_timeout_ms
  pub shutdown_timeout_ms : Within 1000 300000 env.shutdown_timeout_ms
  pub dead_letter_max_entries : Within 1 1000000 env.dead_letter_max_entries
  pub worker_metrics_host : not_empty env.worker_metrics_host ≡ true
  pub worker_metrics_port : Within 1 65535 env.worker_metrics_port
  pub maintenance_cleanup_cron : is_cron env.maintenance_cleanup_cron ≡ true
  pub dashboard : DashboardFits env.enable_bull_board env

module _ {z : Builders} (laws : BuildersLaws z) (new_url : Text → Option Url) where
  there :
      {A B : Type 0} (name : Text) (s : Schema A) (o : ObjectSchema B) {source : Source} {p : A × B}
      → z.key name s o source ≡ success p
      → o source ≡ success p.1
  there name s o {source} {p} h = (laws.key_success name s o source p h).1

  redis_url-loaded :
      (r : Option Text) (a : Text)
      → z.with_default (codes "redis://localhost:6379") (redis_url_schema z new_url) r ≡ success a
      → (a ≡ codes "redis://localhost:6379") ⊎ (is_redis (new_url a) ≡ true)
  unfolding redis_url_schema
  redis_url-loaded r a h =
      default_holds laws (λ a. (a ≡ codes "redis://localhost:6379") ⊎ (is_redis (new_url a) ≡ true))
        _ (redis_url_schema z new_url) r a (inl refl)
        (λ t k. inr ((laws.refine_iff _ _ _ (some t) a).0 k).1) h

  at :
      {A B : Type 0} (name : Text) (s : Schema A) (o : ObjectSchema B) {source : Source} {p : A × B}
      → z.key name s o source ≡ success p
      → s (source name) ≡ success p.0
  at name s o {source} {p} h = (laws.key_success name s o source p h).0

  variables-IsLoaded :
      (source : Source) (p : Variables)
      → base_env_schema z new_url source ≡ success p
      → dashboard_issues (env_of p) ≡ []
      → IsLoaded new_url (env_of p)
  unfolding text_eq base_env_schema host_schema queue_prefix_schema cron_schema is_cron is_prefix
  variables-IsLoaded source p h0 checked =
      let h1 = there _ _ _ h0 in
      let h2 = there _ _ _ h1 in
      let h3 = there _ _ _ h2 in
      let h4 = there _ _ _ h3 in
      let h5 = there _ _ _ h4 in
      let h6 = there _ _ _ h5 in
      let h7 = there _ _ _ h6 in
      let h8 = there _ _ _ h7 in
      let h9 = there _ _ _ h8 in
      let h10 = there _ _ _ h9 in
      let h11 = there _ _ _ h10 in
      let h12 = there _ _ _ h11 in
      let h13 = there _ _ _ h12 in
      let h14 = there _ _ _ h13 in
      let h15 = there _ _ _ h14 in
      let h16 = there _ _ _ h15 in
      let h17 = there _ _ _ h16 in
      let h18 = there _ _ _ h17 in
      let h19 = there _ _ _ h18 in
      let h20 = there _ _ _ h19 in
      let h21 = there _ _ _ h20 in
      let h22 = there _ _ _ h21 in
      record {
        node_env = listed laws _ _ _ _ _ refl (at _ _ _ h0);
        host = refined laws _ _ _ _ _ _ refl (at _ _ _ h1);
        redis_url = redis_url-loaded _ _ (at _ _ _ h3);
        log_level = listed laws _ _ _ _ _ refl (at _ _ _ h4);
        queue_prefix = refined laws _ _ _ _ _ _ refl (at _ _ _ h6);
        port = Within-default laws 1 65535 3000 _ _ (omega arith) (omega arith) (at _ _ _ h2);
        worker_concurrency =
            Within-default laws 1 1000 10 _ _ (omega arith) (omega arith) (at _ _ _ h7);
        job_attempts = Within-default laws 1 50 5 _ _ (omega arith) (omega arith) (at _ _ _ h8);
        job_backoff_delay_ms =
            Within-default laws 0 3600000 2000 _ _ (omega arith) (omega arith) (at _ _ _ h9);
        job_remove_on_complete_count =
            Within-default laws 0 1000000 1000 _ _ (omega arith) (omega arith) (at _ _ _ h10);
        job_remove_on_fail_count =
            Within-default laws 0 1000000 5000 _ _ (omega arith) (omega arith) (at _ _ _ h11);
        worker_rate_limit_max =
            Within-default laws 1 1000000 100 _ _ (omega arith) (omega arith) (at _ _ _ h12);
        worker_rate_limit_duration_ms =
            Within-default laws 1 3600000 1000 _ _ (omega arith) (omega arith) (at _ _ _ h13);
        job_timeout_ms =
            Within-default laws 100 3600000 30000 _ _ (omega arith) (omega arith) (at _ _ _ h14);
        shutdown_timeout_ms =
            Within-default laws 1000 300000 30000 _ _ (omega arith) (omega arith) (at _ _ _ h15);
        dead_letter_max_entries =
            Within-default laws 1 1000000 5000 _ _ (omega arith) (omega arith) (at _ _ _ h16);
        worker_metrics_host = refined laws _ _ _ _ _ _ refl (at _ _ _ h20);
        worker_metrics_port =
            Within-default laws 1 65535 9090 _ _ (omega arith) (omega arith) (at _ _ _ h21);
        maintenance_cleanup_cron = refined laws _ _ _ _ _ _ refl (at _ _ _ h22);
        dashboard =
            dashboard_issues-nil (env_of p) p.1.1.1.1.1.1.1.1.1.1.1.1.1.1.1.1.1.1.1.1.1.1.1.0 refl
              checked;
      }

  loaded-normal :
      (r : Parsed Variables) (env : Env)
      → loaded r ≡ normal env
      → (p : Variables) × (r ≡ success p) × (env_of p ≡ env)
  unfolding loaded
  loaded-normal (success p) env h = (p, refl, normal-injective h)
  loaded-normal (failure issues) env h = cc

  pub load_env-IsLoaded :
      (source : Source) (env : Env) → load_env z new_url source ≡ normal env → IsLoaded new_url env
  unfolding load_env env_schema
  load_env-IsLoaded source env h =
      let (p, parsed, same) = loaded-normal (env_schema z new_url source) env h in
      let (base, checked) = (laws.super_refine_iff _ _ source p).0 parsed in
      subst (IsLoaded new_url) same (variables-IsLoaded source p base checked)
