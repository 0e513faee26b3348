-- ===== src/Config/Override/Merge.antt =====
-- Overlays compose: applying one after another is applying one overlay, in which the later wins.
use edge_bootstrap.Prelude.{String, Option, none, some, or_else, unwrap_or, ◌≡◌, refl, arith}
use edge_bootstrap.Config.Types.{Foreign, RuntimeConfig}
use edge_bootstrap.Config.Override.{ConfigOverride, apply_to, non_empty}

-- The overlay of two, the second of which is applied later.
unfoldable pub merge : {x : Foreign} → ConfigOverride x → ConfigOverride x → ConfigOverride x
merge o p = record {
  service_name = or_else p.service_name o.service_name;
  http_bind = or_else p.http_bind o.http_bind;
  grpc_bind = or_else p.grpc_bind o.grpc_bind;
  shutdown_timeout_secs = or_else p.shutdown_timeout_secs o.shutdown_timeout_secs;
  systemd_notify = or_else p.systemd_notify o.systemd_notify;
  tenant_id = or_else (non_empty p.tenant_id) (non_empty o.tenant_id);
  http_tls = or_else p.http_tls o.http_tls;
  grpc_tls = or_else p.grpc_tls o.grpc_tls;
  http_auth = or_else p.http_auth o.http_auth;
  grpc_allow_unauthenticated = or_else p.grpc_allow_unauthenticated o.grpc_allow_unauthenticated;
  egress_http = or_else p.egress_http o.egress_http;
  egress_grpc = or_else p.egress_grpc o.egress_grpc;
  grpc_reflection = or_else p.grpc_reflection o.grpc_reflection;
  metrics = or_else p.metrics o.metrics;
  autoscale = or_else p.autoscale o.autoscale;
  observability = or_else p.observability o.observability;
}

module _ {A : Type 0} where
  unwrap_or-or_else :
      (p o : Option A) (a : A) → unwrap_or (or_else p o) a ≡ unwrap_or p (unwrap_or o a)
  unwrap_or-or_else none o a = refl
  unwrap_or-or_else (some v) o a = refl

  or_else_assoc : (p o q : Option A) → or_else (or_else p o) q ≡ or_else p (or_else o q)
  or_else_assoc none o q = refl
  or_else_assoc (some v) o q = refl

non_empty_merge :
    (p o q : Option String)
    → or_else (non_empty (or_else (non_empty p) (non_empty o))) q
      ≡ or_else (non_empty p) (or_else (non_empty o) q)
non_empty_merge p o q = ground arith

-- Applying `o` and then `p` to a configuration is applying their merge, in which each field of `p`
-- that is set wins over that of `o`.
pub apply_to-merge :
    {x : Foreign} (o p : ConfigOverride x) (base : RuntimeConfig x)
    → apply_to (merge o p) base ≡ apply_to p (apply_to o base)
unfolding apply_to merge
apply_to-merge o p base = simp (unwrap_or-or_else, or_else_assoc, non_empty_merge)

-- The overlay of a file that is not there.
unfoldable pub nothing : {x : Foreign} → ConfigOverride x
nothing = record {
  service_name = none;
  http_bind = none;
  grpc_bind = none;
  shutdown_timeout_secs = none;
  systemd_notify = none;
  tenant_id = none;
  http_tls = none;
  grpc_tls = none;
  http_auth = none;
  grpc_allow_unauthenticated = none;
  egress_http = none;
  egress_grpc = none;
  grpc_reflection = none;
  metrics = none;
  autoscale = none;
  observability = none;
}

pub apply_to-nothing : {x : Foreign} (base : RuntimeConfig x) → apply_to nothing base ≡ base
unfolding apply_to nothing
apply_to-nothing base = refl
