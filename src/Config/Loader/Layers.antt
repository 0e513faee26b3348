-- ===== src/Config/Loader/Layers.antt =====
-- What the layers add up to.
use edge_bootstrap.Prelude.{
  ℕ, String, List, [], ◌∷◌, not, Option, none, Result, ok, and_then, and_then-eq-ok, and_then_assoc,
  ok-injective, map_err, or_else, unwrap_or, if◌then◌else◌, ◌≡◌, ◌∙◌, sym, ap, refl, arith,
  Bool-cases, inl, inr, some, ◌⊎◌, Option-cases,
}
use edge_bootstrap.Config.Types.{Foreign, RuntimeConfig, default, ConfigError, parse}
use edge_bootstrap.Config.Override.{ConfigOverride, apply_to, non_empty}
use edge_bootstrap.Config.Override.Merge.{merge, apply_to-merge, nothing, apply_to-nothing}
use edge_bootstrap.Config.Host.{Host, FilePath, join}
use edge_bootstrap.Config.Loader.{
  read_bounded, apply_file_if_exists, apply_dirs, base, apply_env, load, env_timeout, with_env,
  parse_shutdown_timeout,
}

tenant_default :
    (env o : Option String) → or_else env (or_else (non_empty o) none) ≡ or_else env (non_empty o)
tenant_default env o = ground arith

module _ {x : Foreign} (h : Host x) where
  -- What one file says: nothing if it is not there.
  pub overlay_of : FilePath → Result ConfigError (ConfigOverride x)
  overlay_of p =
      if not (h.exists p)
      then ok nothing
      else and_then (read_bounded h p) (λ text. map_err parse (h.parse_override text))

  -- The merge of what the files say, in the order of the directories, up to the first error.
  pub merged : List FilePath → Result ConfigError (ConfigOverride x)
  merged [] = ok nothing
  merged (dir ∷ dirs) =
      and_then (overlay_of (join dir "application.toml"))
        (λ o. and_then (merged dirs) (λ os. ok (merge o os)))

  pub apply_file-overlay_of :
      (cfg : RuntimeConfig x) (p : FilePath)
      → apply_file_if_exists h cfg p ≡ and_then (overlay_of p) (λ o. ok (apply_to o cfg))
  unfolding apply_file_if_exists overlay_of
  apply_file-overlay_of cfg p = elim (Bool-cases (h.exists p)) [
    | inl e ↦ rw e (sym (and_then_assoc (read_bounded h p) _ _))
    | inr e ↦ rw e (ap ok (sym (apply_to-nothing cfg)))
  ]

  apply_dirs-merged :
      (dirs : List FilePath) (cfg : RuntimeConfig x)
      → apply_dirs h dirs cfg ≡ and_then (merged dirs) (λ o. ok (apply_to o cfg))
  unfolding apply_dirs merged
  apply_dirs-merged [] cfg = ap ok (sym (apply_to-nothing cfg))
  apply_dirs-merged (dir ∷ dirs) cfg = simp (
    apply_file-overlay_of cfg (join dir "application.toml"),
    and_then_assoc,
    apply_dirs-merged dirs,
    apply_to-merge,
  )

  -- The layered chain is one overlay over the defaults: the merge of what the directories' files say,
  -- in which a later directory wins field by field. The chain fails exactly where a file cannot
  -- be read, is too long or does not parse, with the first such error.
  pub base-merged :
      (dirs : List FilePath) → base h dirs ≡ and_then (merged dirs) (λ o. ok (apply_to o default))
  unfolding base
  base-merged dirs = apply_dirs-merged dirs default

  -- What `apply_env` sets.
  pub env_set :
      (b cfg : RuntimeConfig x)
      → apply_env h b ≡ ok cfg
      → (secs : ℕ) × (env_timeout h b.shutdown_timeout_secs ≡ ok secs) × (with_env h secs b ≡ cfg)
  unfolding apply_env
  env_set b cfg e =
      let (secs, timed, made) = and_then-eq-ok (env_timeout h b.shutdown_timeout_secs) _ e in
      (secs, timed, ok-injective _ _ made)

  load_shape :
      (dirs : List FilePath) (cfg : RuntimeConfig x)
      → load h dirs ≡ ok cfg
      → (o : ConfigOverride x) × (secs : ℕ) × (merged dirs ≡ ok o)
        × (env_timeout h (apply_to o default).shutdown_timeout_secs ≡ ok secs)
        × (cfg ≡ with_env h secs (apply_to o default))
  unfolding load
  load_shape dirs cfg e =
      let (b, from, set) = and_then-eq-ok (base h dirs) (apply_env h) e in
      let (o, files, applied) =
        and_then-eq-ok (merged dirs) (λ o. ok (apply_to o default))
          (sym (base-merged dirs) ∙ from) in
      let same = ok-injective _ _ applied in
      let (secs, timed, made) = env_set b cfg set in
      (o, secs, files, rw same timed, rw same (sym made))

  env_timeout_cases :
      (given secs : ℕ)
      → env_timeout h given ≡ ok secs
      → ((h.env "SWE_EDGE_SHUTDOWN_TIMEOUT" ≡ none) × (secs ≡ given))
        ⊎ ((v : String) × (h.env "SWE_EDGE_SHUTDOWN_TIMEOUT" ≡ some v)
            × (parse_shutdown_timeout v ≡ ok secs))
  unfolding env_timeout
  env_timeout_cases given secs e = elim (Option-cases (h.env "SWE_EDGE_SHUTDOWN_TIMEOUT")) [
    | inl unset ↦
        let shown : env_timeout h given ≡ ok given = rw (unset, env_timeout) refl in
        inl (unset, ok-injective secs given (sym e ∙ shown))
    | inr (v, given_there) ↦
        let shown : env_timeout h given ≡ parse_shutdown_timeout v =
          rw (given_there, env_timeout) refl in
        inr (v, given_there, sym shown ∙ e)
  ]

  -- A loaded configuration takes its service name, its two bind addresses, its timeout and its tenant id
  -- each from the environment if set there, a tenant id of a file counting only if not empty, else
  -- from the last directory that sets it, else from the defaults.
  pub load_layers :
      (dirs : List FilePath) (cfg : RuntimeConfig x)
      → load h dirs ≡ ok cfg
      → (o : ConfigOverride x) × (merged dirs ≡ ok o)
        × (cfg.service_name
            ≡ unwrap_or (h.env "SWE_EDGE_SERVICE_NAME") (unwrap_or o.service_name "swe-edge"))
        × (cfg.http_bind
            ≡ unwrap_or (h.env "SWE_EDGE_HTTP_BIND") (unwrap_or o.http_bind "0.0.0.0:8080"))
        × (cfg.grpc_bind
            ≡ unwrap_or (h.env "SWE_EDGE_GRPC_BIND") (unwrap_or o.grpc_bind "0.0.0.0:50051"))
        × (((h.env "SWE_EDGE_SHUTDOWN_TIMEOUT" ≡ none)
              × (cfg.shutdown_timeout_secs ≡ unwrap_or o.shutdown_timeout_secs 30))
            ⊎ ((v : String) × (h.env "SWE_EDGE_SHUTDOWN_TIMEOUT" ≡ some v)
                × (parse_shutdown_timeout v ≡ ok cfg.shutdown_timeout_secs)))
        × (cfg.tenant_id ≡ or_else (h.env "SWE_EDGE_TENANT_ID") (non_empty o.tenant_id))
  unfolding with_env apply_to default
  load_layers dirs cfg e =
      let (o, secs, files, timed, same) = load_shape dirs cfg e in
      (
        o,
        files,
        ap (λ c. c.service_name) same,
        ap (λ c. c.http_bind) same,
        ap (λ c. c.grpc_bind) same,
        env_timeout_cases (unwrap_or o.shutdown_timeout_secs 30) cfg.shutdown_timeout_secs
            (timed ∙ ap (λ c. ok c.shutdown_timeout_secs) (sym same)),
        ap (λ c. c.tenant_id) same ∙ tenant_default (h.env "SWE_EDGE_TENANT_ID") o.tenant_id,
      )

  -- The sections `services`, `metrics_backend`, `tracer_backend`, `log_backend`, `deploy_dir` and
  -- `intrusion` of a loaded configuration are the defaults, whatever the files and the environment
  -- say.
  pub load_ignores_sections :
      (dirs : List FilePath) (cfg : RuntimeConfig x)
      → load h dirs ≡ ok cfg
      → (cfg.services ≡ [])
        × (cfg.metrics_backend ≡ none)
        × (cfg.tracer_backend ≡ none)
        × (cfg.log_backend ≡ none)
        × (cfg.deploy_dir ≡ none)
        × (cfg.intrusion ≡ none)
  unfolding with_env apply_to default
  load_ignores_sections dirs cfg e =
      let same = (load_shape dirs cfg e).4 in
      (
        ap (λ c. c.services) same,
        ap (λ c. c.metrics_backend) same,
        ap (λ c. c.tracer_backend) same,
        ap (λ c. c.log_backend) same,
        ap (λ c. c.deploy_dir) same,
        ap (λ c. c.intrusion) same,
      )
