-- ===== src/Examples/Config.antt =====
-- The configuration chain on a machine with one directory of files.
use edge_bootstrap.Prelude.{
  ℕ, String, List, [], ◌∷◌, none, some, ok, unwrap_or, or_else, and_then, if◌then◌else◌, ◌≡◌, ◌⊎◌,
  refl,
}
use text.Mathlib.Text.{◌==◌ as str_eq}
use Prim.Native.String
use edge_bootstrap.Config.Types.{Foreign, RuntimeConfig, default}
use edge_bootstrap.Config.Override.{ConfigOverride, apply_to, non_empty}
use edge_bootstrap.Config.Override.Merge.{nothing}
use edge_bootstrap.Config.Host.{Host, FilePath, path, join, scalar, table, Table, end, entry}
use edge_bootstrap.Config.Loader.{
  validate_tenant_id, tenant_file, read_bounded, apply_file_if_exists, apply_dirs, base, apply_env,
  env_timeout, with_env, load, default_tenant, parse_shutdown_timeout,
}
use edge_bootstrap.Config.Loader.Layers.{merged, base-merged, load_layers}
use edge_bootstrap.Config.Loader.Tenant.{IsPlainName, tenant_file_inside}
use edge_bootstrap.Config.Section.{get_key, add_sections, extract_dotted_value, walk, get_in}
use edge_bootstrap.Config.Section.Merging.{
  Sections, present, done, last_with, add_sections_last, section_at,
}

abbrev pub foreign : Foreign
foreign = record {
  PemTlsConfig = Unit {0};
  JwtConfig = Unit {0};
  HttpConfig = Unit {0};
  GrpcChannelConfig = Unit {0};
  ObservabilityConfig = Unit {0};
  LoadbalancerConfig = Unit {0};
  IntrusionConfig = Unit {0};
  Float = ℕ;
}

abbrev overlay : ConfigOverride foreign
overlay = record nothing { service_name = some "billing"; shutdown_timeout_secs = some 10 }

abbrev section : Table
section = entry "port" (scalar "80") end

-- Every file below `conf` is there, and says the same.
abbrev pub host : Host foreign
host = record {
  env = λ name. if str_eq name "SWE_EDGE_HTTP_BIND" then some "127.0.0.1:80" else none;
  config_dir = none;
  exists = λ p. str_eq p.base "conf";
  file_len = λ p. ok 40;
  read = λ p. ok "";
  parse_override = λ text. ok overlay;
  parse_value = λ text. ok (table (entry "svc" (table section) end));
  to_lowercase = λ s. s;
  path_text = λ p. p.base;
  decimal = λ n. "0";
}

abbrev dirs : List FilePath
dirs = path "etc" ∷ path "conf" ∷ []

abbrev loaded : RuntimeConfig foreign
loaded = with_env host 10 (apply_to overlay default)

base_example : base host dirs ≡ and_then (merged host dirs) (λ o. ok (apply_to o default))
base_example = base-merged host dirs

load_layers_example :
    (o : ConfigOverride foreign) × (merged host dirs ≡ ok o)
    × (loaded.service_name
        ≡ unwrap_or (host.env "SWE_EDGE_SERVICE_NAME") (unwrap_or o.service_name "swe-edge"))
    × (loaded.http_bind
        ≡ unwrap_or (host.env "SWE_EDGE_HTTP_BIND") (unwrap_or o.http_bind "0.0.0.0:8080"))
    × (loaded.grpc_bind
        ≡ unwrap_or (host.env "SWE_EDGE_GRPC_BIND") (unwrap_or o.grpc_bind "0.0.0.0:50051"))
    × (((host.env "SWE_EDGE_SHUTDOWN_TIMEOUT" ≡ none)
          × (loaded.shutdown_timeout_secs ≡ unwrap_or o.shutdown_timeout_secs 30))
        ⊎ ((v : String) × (host.env "SWE_EDGE_SHUTDOWN_TIMEOUT" ≡ some v)
            × (parse_shutdown_timeout v ≡ ok loaded.shutdown_timeout_secs)))
    × (loaded.tenant_id ≡ or_else (host.env "SWE_EDGE_TENANT_ID") (non_empty o.tenant_id))
unfolding load base apply_dirs apply_file_if_exists read_bounded apply_env env_timeout with_env
    apply_to default join nothing
load_layers_example = load_layers host dirs loaded refl

tenant_file_inside_example :
    IsPlainName "acme"
    × (tenant_file "acme" (path "conf")
        ≡ record (path "conf") { parts = "tenants" ∷ String.◌++◌ "acme" ".toml" ∷ [] })
unfolding validate_tenant_id
tenant_file_inside_example = tenant_file_inside "acme" tt (path "conf") refl

abbrev for_acme : RuntimeConfig foreign
for_acme =
    default_tenant host "acme" (with_env host 10 (apply_to overlay (apply_to overlay default)))

one_section : Sections host "svc" (path "conf" ∷ []) (section ∷ [])
unfolding section_at read_bounded join extract_dotted_value walk get_in get_key
one_section = present refl (refl, tt) done

add_sections_last_example :
    (m : Table) × (add_sections host "svc" (path "conf" ∷ []) (table end) ≡ ok (table m))
    × ((k : String) → get_key k m ≡ last_with k (section ∷ []))
add_sections_last_example = add_sections_last host "svc" one_section
