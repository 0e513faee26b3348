-- ===== src/Config/Loader.antt =====
-- scm/main/adapter/src/core/config/loader/application_config_loader.rs: the layered chain.
pub mod Numbers
pub mod Layers
pub mod Tenant
pub mod Timeout
use edge_bootstrap.Prelude.{
  ℕ, String, List, [], ◌∷◌, ◌++◌, reverse, map, Bool, true, false, not, ◌||◌, ◌==◌, Option, none,
  some, Result, ok, err, and_then, map_err, ok_or, unwrap_or, or_else, if◌then◌else◌, ltb, all_text,
  is_alphanumeric, split, is_empty_text, keep_if,
}
use Prim.Native.String
use text.Mathlib.Text.{◌==◌ as str_eq}
use edge_bootstrap.Config.Types.{
  Foreign, RuntimeConfig, default, ConfigError, parse, io, unknown_tenant, invalid_tenant_id,
  bad_env_var,
}
use edge_bootstrap.Config.Override.{ConfigOverride, apply_to}
use edge_bootstrap.Config.Host.{Host, FilePath, path, join}
use edge_bootstrap.Config.Loader.Numbers.{parse_u64}

infix 60 ◌<>◌
abbrev ◌<>◌ : String → String → String
s <> t = String.◌++◌ s t

abbrev pub max_config_file_bytes : ℕ
max_config_file_bytes = 1048576

-- `[a-zA-Z0-9_-]`
abbrev pub is_tenant_char : ℕ → Bool
is_tenant_char c = is_alphanumeric c || c == b'_' || c == b'-'

unfoldable pub validate_tenant_id : String → Result ConfigError (Unit {0})
validate_tenant_id id =
    if is_empty_text id || not (all_text is_tenant_char id)
    then err (invalid_tenant_id id)
    else ok tt

unfoldable pub parse_shutdown_timeout : String → Result ConfigError ℕ
parse_shutdown_timeout v = ok_or (parse_u64 v) (bad_env_var v)

unfoldable pub tenant_file : String → FilePath → FilePath
tenant_file id dir = join (join dir "tenants") (String.◌++◌ id ".toml")

abbrev is_truthy : String → Bool
is_truthy v = str_eq v "1" || str_eq v "true" || str_eq v "yes"

module _ {x : Foreign} (h : Host x) where
  -- The directories of the three constructors, from the lowest to the highest priority.
  unfoldable pub new : List FilePath
  new = path (unwrap_or (h.env "SWE_EDGE_CONFIG_DIR") "config") ∷ []

  unfoldable pub with_dir : FilePath → List FilePath
  with_dir dir = dir ∷ []

  unfoldable pub xdg : String → List FilePath
  xdg app_name =
      map (λ segment. join (path segment) app_name)
        (keep_if (λ segment. not (is_empty_text segment))
          (reverse (split b':' (unwrap_or (h.env "XDG_CONFIG_DIRS") "/etc/xdg"))))
      ++ (elim (h.config_dir) [ none ↦ [] | some home ↦ join (path home) app_name ∷ [] ]
          ++ elim (h.env "SWE_EDGE_CONFIG_DIR") [ none ↦ [] | some v ↦ path v ∷ [] ])

  -- The text of a file that is not too long.
  unfoldable pub read_bounded : FilePath → Result ConfigError String
  read_bounded p =
      let named : String → ConfigError = λ e. io (h.path_text p <> (": " <> e)) in
      and_then (map_err named (h.file_len p)) (λ len.
        if ltb max_config_file_bytes len
        then err (named ("config file exceeds the 1 MiB limit (" <> (h.decimal len <> " bytes)")))
        else map_err named (h.read p))

  unfoldable pub apply_file_if_exists :
      RuntimeConfig x → FilePath → Result ConfigError (RuntimeConfig x)
  apply_file_if_exists cfg p =
      if not (h.exists p)
      then ok cfg
      else (and_then (read_bounded p)
          (λ text. and_then (map_err parse (h.parse_override text)) (λ o. ok (apply_to o cfg))))

  -- The loop of `base`.
  unfoldable pub apply_dirs : List FilePath → RuntimeConfig x → Result ConfigError (RuntimeConfig x)
  apply_dirs [] cfg = ok cfg
  apply_dirs (dir ∷ dirs) cfg =
      and_then (apply_file_if_exists cfg (join dir "application.toml")) (apply_dirs dirs)

  unfoldable pub base : List FilePath → Result ConfigError (RuntimeConfig x)
  base dirs = apply_dirs dirs default

  -- `SWE_EDGE_SHUTDOWN_TIMEOUT`, if set
  unfoldable pub env_timeout : ℕ → Result ConfigError ℕ
  unfolding parse_shutdown_timeout
  env_timeout now = elim (h.env "SWE_EDGE_SHUTDOWN_TIMEOUT") [
    | none ↦ ok now
    | some v ↦ parse_shutdown_timeout v
  ]

  -- The variables that overwrite a field, the timeout being read already.
  unfoldable pub with_env : ℕ → RuntimeConfig x → RuntimeConfig x
  with_env secs cfg = record cfg {
    service_name = unwrap_or (h.env "SWE_EDGE_SERVICE_NAME") cfg.service_name;
    http_bind = unwrap_or (h.env "SWE_EDGE_HTTP_BIND") cfg.http_bind;
    grpc_bind = unwrap_or (h.env "SWE_EDGE_GRPC_BIND") cfg.grpc_bind;
    shutdown_timeout_secs = secs;
    systemd_notify = elim (h.env "SWE_EDGE_SYSTEMD_NOTIFY") [
      | none ↦ cfg.systemd_notify
      | some v ↦ is_truthy (h.to_lowercase v)
    ];
    tenant_id = or_else (h.env "SWE_EDGE_TENANT_ID") cfg.tenant_id;
  }

  unfoldable pub apply_env : RuntimeConfig x → Result ConfigError (RuntimeConfig x)
  apply_env cfg = and_then (env_timeout cfg.shutdown_timeout_secs) (λ secs. ok (with_env secs cfg))

  -- `find_map` over the reversed directories: the first that has the file.
  unfoldable pub first_tenant_file : String → List FilePath → Option FilePath
  first_tenant_file id [] = none
  first_tenant_file id (dir ∷ dirs) =
      let rest = first_tenant_file id dirs in
      if h.exists (tenant_file id dir) then some (tenant_file id dir) else rest

  unfoldable pub tenant_path : List FilePath → String → Option FilePath
  tenant_path dirs id = first_tenant_file id (reverse dirs)

  unfoldable pub load : List FilePath → Result ConfigError (RuntimeConfig x)
  load dirs = and_then (base dirs) apply_env

  -- A tenant id that no layer sets is the one asked for.
  abbrev pub default_tenant : String → RuntimeConfig x → RuntimeConfig x
  default_tenant id cfg = record cfg { tenant_id = or_else cfg.tenant_id (some id) }

  unfoldable pub load_for_tenant : List FilePath → String → Result ConfigError (RuntimeConfig x)
  load_for_tenant dirs id = and_then (validate_tenant_id id) (λ _. and_then (base dirs) (λ cfg.
      and_then (ok_or (tenant_path dirs id) (unknown_tenant id)) (λ p.
        and_then (apply_file_if_exists cfg p)
          (λ cfg'. and_then (apply_env cfg') (λ cfg''. ok (default_tenant id cfg''))))))
