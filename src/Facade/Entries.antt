-- ===== src/Facade/Entries.antt =====
-- What the entry functions do not check.
use edge_bootstrap.Prelude.{
  List, String, some, ok, is_err, and_then-eq-ok, ok-injective, ◌≡◌, ap, sym, ◌∙◌, true, refl,
  arith,
}
use edge_bootstrap.Config.Types.{Foreign, RuntimeConfig}
use edge_bootstrap.Config.Host.{Host, FilePath}
use edge_bootstrap.Config.Loader
use edge_bootstrap.Config.Loader.{
  base, apply_env, env_timeout, with_env, load, parse_shutdown_timeout,
}
use edge_bootstrap.Config.Validator.{validate}
use edge_bootstrap.Facade.{load_config, load_config_xdg, validate_config}

module _ {x : Foreign} (h : Host x) where
  loaded_timeout :
      (dirs : List FilePath) (v : String) (c : RuntimeConfig x)
      → h.env "SWE_EDGE_SHUTDOWN_TIMEOUT" ≡ some v
      → load h dirs ≡ ok c
      → parse_shutdown_timeout v ≡ ok c.shutdown_timeout_secs
  unfolding load apply_env env_timeout with_env
  loaded_timeout dirs v c given loaded =
      let (cfg, based, applied) = and_then-eq-ok (base h dirs) (apply_env h) loaded in
      let (secs, timed, made) =
        and_then-eq-ok (env_timeout h cfg.shutdown_timeout_secs) (λ secs. ok (with_env h secs cfg))
          applied in
      let shown : env_timeout h cfg.shutdown_timeout_secs ≡ parse_shutdown_timeout v =
        rw (given, env_timeout) refl in
      let same = ok-injective (with_env h secs cfg) c made in
      sym shown ∙ timed ∙ ap (λ (d : RuntimeConfig x). ok d.shutdown_timeout_secs) same

  zero_invalid : (c : RuntimeConfig x) → c.shutdown_timeout_secs ≡ 0 → is_err (validate c) ≡ true
  unfolding validate
  zero_invalid c e = ground arith

  -- If the environment sets the shutdown timeout to a text that reads as 0, then a configuration that
  -- `load_config` or `load_config_xdg` returns is one that `validate_config` refuses.
  pub zero_timeout_loaded :
      (app_name v : String) (c c' : RuntimeConfig x)
      → h.env "SWE_EDGE_SHUTDOWN_TIMEOUT" ≡ some v
      → parse_shutdown_timeout v ≡ ok 0
      → load_config h ≡ ok c
      → load_config_xdg h app_name ≡ ok c'
      → (is_err (validate_config c) ≡ true) × (is_err (validate_config c') ≡ true)
  unfolding load_config load_config_xdg validate_config
  zero_timeout_loaded app_name v c c' given zero loaded loaded' = (
    zero_invalid c (is_zero (Loader.new h) c loaded),
    zero_invalid c' (is_zero (Loader.xdg h app_name) c' loaded'),
  )
    where
      is_zero :
          (dirs : List FilePath) (d : RuntimeConfig x)
          → load h dirs ≡ ok d
          → d.shutdown_timeout_secs ≡ 0
      is_zero dirs d done =
          ok-injective d.shutdown_timeout_secs 0 (sym (loaded_timeout dirs v d given done) ∙ zero)
