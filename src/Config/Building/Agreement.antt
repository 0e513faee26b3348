-- ===== src/Config/Building/Agreement.antt =====
-- The two builders agree.
use edge_bootstrap.Prelude.{
  ℕ, String, List, [], ◌∷◌, Bool, true, not, is_empty_text, ◌≡◌, refl, ◌∙◌, ap, ◌&&◌, arith,
}
use edge_bootstrap.Config.Types.{Foreign, default}
use edge_bootstrap.Config.Override.{apply_to}
use edge_bootstrap.Config.Override.Merge.{nothing, apply_to-nothing}
use edge_bootstrap.Config.Building.Full
use edge_bootstrap.Config.Building.Full.{RuntimeConfigBuilder}
use edge_bootstrap.Config.Building.Overlay
use edge_bootstrap.Config.Building.Overlay.{ConfigOverrideBuilder}
use edge_bootstrap.Config.Setters.{
  with_service_name, with_http_bind, with_grpc_bind, with_shutdown_timeout, with_systemd_notify,
  with_tenant_id,
}

-- A call that both builders have.
pub data Call : Type 0 where
  service_name http_bind grpc_bind : String → Call
  shutdown_timeout_secs : ℕ → Call
  systemd_notify : Bool → Call
  tenant_id : String → Call

-- No call sets an empty tenant id.
unfoldable pub names_tenants : List Call → Bool
names_tenants [] = true
names_tenants (Call.tenant_id v ∷ calls) = not (is_empty_text v) && names_tenants calls
names_tenants (_ ∷ calls) = names_tenants calls

names_tenants_split :
    (call : Call) (calls : List Call)
    → names_tenants (call ∷ calls) ≡ true
    → (names_tenants (call ∷ []) ≡ true) × (names_tenants calls ≡ true)
unfolding names_tenants
names_tenants_split (Call.service_name v) calls e = (refl, e)
names_tenants_split (Call.http_bind v) calls e = (refl, e)
names_tenants_split (Call.grpc_bind v) calls e = (refl, e)
names_tenants_split (Call.shutdown_timeout_secs v) calls e = (refl, e)
names_tenants_split (Call.systemd_notify v) calls e = (refl, e)
names_tenants_split (Call.tenant_id v) calls e = ground arith

module _ {x : Foreign} where
  abbrev pub to_full : Call → RuntimeConfigBuilder x → RuntimeConfigBuilder x
  to_full (Call.service_name v) = Full.service_name v
  to_full (Call.http_bind v) = Full.http_bind v
  to_full (Call.grpc_bind v) = Full.grpc_bind v
  to_full (Call.shutdown_timeout_secs v) = Full.shutdown_timeout_secs v
  to_full (Call.systemd_notify v) = Full.systemd_notify v
  to_full (Call.tenant_id v) = Full.tenant_id v

  abbrev pub to_overlay : Call → ConfigOverrideBuilder x → ConfigOverrideBuilder x
  to_overlay (Call.service_name v) = Overlay.service_name v
  to_overlay (Call.http_bind v) = Overlay.http_bind v
  to_overlay (Call.grpc_bind v) = Overlay.grpc_bind v
  to_overlay (Call.shutdown_timeout_secs v) = Overlay.shutdown_timeout_secs v
  to_overlay (Call.systemd_notify v) = Overlay.systemd_notify v
  to_overlay (Call.tenant_id v) = Overlay.tenant_id v

  abbrev pub all_to_full : List Call → RuntimeConfigBuilder x → RuntimeConfigBuilder x
  all_to_full [] b = b
  all_to_full (call ∷ calls) b = all_to_full calls (to_full call b)

  abbrev pub all_to_overlay : List Call → ConfigOverrideBuilder x → ConfigOverrideBuilder x
  all_to_overlay [] b = b
  all_to_overlay (call ∷ calls) b = all_to_overlay calls (to_overlay call b)

  -- The builder of the configuration that an overlay under construction leads to.
  abbrev applied : ConfigOverrideBuilder x → RuntimeConfigBuilder x
  applied b = record { inner = apply_to b.inner default }

  one_call :
      (call : Call) (b : ConfigOverrideBuilder x)
      → names_tenants (call ∷ []) ≡ true
      → applied (to_overlay call b) ≡ to_full call (applied b)
  unfolding names_tenants apply_to default Full.service_name Overlay.service_name Full.http_bind
      Overlay.http_bind Full.grpc_bind Overlay.grpc_bind Full.shutdown_timeout_secs
      Overlay.shutdown_timeout_secs Full.systemd_notify Overlay.systemd_notify Full.tenant_id
      Overlay.tenant_id with_service_name with_http_bind with_grpc_bind with_shutdown_timeout
      with_systemd_notify with_tenant_id
  one_call (Call.service_name v) b e = refl
  one_call (Call.http_bind v) b e = refl
  one_call (Call.grpc_bind v) b e = refl
  one_call (Call.shutdown_timeout_secs v) b e = refl
  one_call (Call.systemd_notify v) b e = refl
  one_call (Call.tenant_id v) b e = ground arith

  all_calls :
      (calls : List Call) (b : ConfigOverrideBuilder x)
      → names_tenants calls ≡ true
      → applied (all_to_overlay calls b) ≡ all_to_full calls (applied b)
  all_calls [] b e = refl
  all_calls (call ∷ calls) b e =
      let (first, rest) = names_tenants_split call calls e in
      all_calls calls (to_overlay call b) rest ∙ ap (all_to_full calls) (one_call call b first)

  -- The same calls on both builders, in the same order, none with an empty tenant id: the overlay that
  -- is built, applied to the defaults, is the configuration that is built.
  pub build_alike :
      (calls : List Call)
      → names_tenants calls ≡ true
      → apply_to (Overlay.build (all_to_overlay calls Overlay.new)) default
        ≡ Full.build (all_to_full calls Full.new)
  unfolding Overlay.build Full.build Overlay.new Full.new
  build_alike calls e =
      ap (λ c. c.inner) (all_calls calls (record { inner = nothing }) e)
      ∙ ap (λ c. (all_to_full calls (record { inner = c })).inner) (apply_to-nothing default)
