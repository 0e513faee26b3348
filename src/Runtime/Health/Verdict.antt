-- ===== src/Runtime/Health/Verdict.antt =====
-- When a health report counts as healthy.
use edge_bootstrap.Prelude.{
  ◌≡◌, ◌↔◌, refl, String, List, [], ◌∷◌, ◌++◌, map, Bool, true, ◌&&◌, Option, none, some, Result,
  ok, err, Call, all, All, arith, is_ok,
}
use edge_bootstrap.Runtime.Status.{
  RuntimeStatus, running, ComponentHealth, is_healthy, status_is_healthy,
}
use edge_bootstrap.Runtime.Lifecycle.{healthy, Component}
use edge_bootstrap.Runtime.Manager.{Manager, State, http_health, grpc_health, egress_grpc_health}
use edge_bootstrap.Runtime.Health.{
  of_component, probes, report_of, health, probe, probe_opt, of_probe,
}

-- Every probe of a configured transport, in the order of the code, ends without an error.
module _ {W : Type 0} where
  abbrev pub opt_ok : {E A : Type 0} → Option (Call W E A) → W → Bool
  opt_ok none w = true
  opt_ok (some call) w = is_ok (call w).1

  abbrev pub opt_next : {E A : Type 0} → Option (Call W E A) → W → W
  opt_next none w = w
  opt_next (some call) w = (call w).0

abbrev pub ProbesSucceed : {W : Type 0} → Manager W → W → Type 0
ProbesSucceed m w =
    let w1 = opt_next (http_health m.ingress) w in
    let w2 = opt_next (grpc_health m.ingress) w1 in
    let w3 = (m.egress.http.health_check w2).0 in
    let w4 = opt_next (egress_grpc_health m.egress) w3 in
    (opt_ok (http_health m.ingress) w ≡ true)
    × (opt_ok (grpc_health m.ingress) w1 ≡ true)
    × (is_ok (m.egress.http.health_check w2).1 ≡ true)
    × (opt_ok (egress_grpc_health m.egress) w3 ≡ true)
    × (opt_ok m.message_broker w4 ≡ true)

abbrev is_up : ComponentHealth → Bool
is_up c = c.healthy

all-append {ℓ} :
    {A : Type ℓ} (p : A → Bool) (xs ys : List A) → all p (xs ++ ys) ≡ all p xs && all p ys
all-append p [] ys = refl
all-append p (x ∷ xs) ys = ground (arith, all-append p xs ys)

of_probe_up :
    {E A : Type 0} (name : String) (text : E → String) (r : Result E A)
    → all is_up (of_probe name text r ∷ []) ≡ is_ok r
unfolding of_probe
of_probe_up name text (ok a) = refl
of_probe_up name text (err e) = refl

module _ {W E A : Type 0} (name : String) (text : E → String) where
  probe_up : (call : Call W E A) (w : W) → all is_up (probe name text call w).1 ≡ is_ok (call w).1
  unfolding probe
  probe_up call w = of_probe_up name text (call w).1

  probe_next : (call : Call W E A) (w : W) → (probe name text call w).0 ≡ (call w).0
  unfolding probe
  probe_next call w = refl

  probe_opt_up :
      (call : Option (Call W E A)) (w : W)
      → all is_up (probe_opt name text call w).1 ≡ opt_ok call w
  unfolding probe_opt
  probe_opt_up none w = refl
  probe_opt_up (some call) w = of_probe_up name text (call w).1

  probe_opt_next :
      (call : Option (Call W E A)) (w : W) → (probe_opt name text call w).0 ≡ opt_next call w
  unfolding probe_opt
  probe_opt_next none w = refl
  probe_opt_next (some call) w = refl

and_split : (a b : Bool) → (a && b ≡ true) ↔ ((a ≡ true) × (b ≡ true))
and_split a b = ground arith

of_component_up : (c : Component) → (is_up (of_component c) ≡ true) ↔ (c.status ≡ healthy)
unfolding of_component
of_component_up c = ground arith

all-of_component :
    (cs : List Component)
    → (all is_up (map of_component cs) ≡ true) ↔ All (λ c. c.status ≡ healthy) cs
all-of_component [] = (λ e. tt, λ u. refl)
all-of_component (c ∷ cs) = ground (arith, of_component_up c, all-of_component cs)

verdict_iff :
    (status : RuntimeStatus) (cs : List Component) (probed : List ComponentHealth)
    → (status_is_healthy status && all is_up (map of_component cs ++ probed) ≡ true)
      ↔ ((status ≡ running) × All (λ c. c.status ≡ healthy) cs × (all is_up probed ≡ true))
unfolding status_is_healthy
verdict_iff status cs probed =
    ground (arith, all-append is_up (map of_component cs) probed, all-of_component cs)

module _ {W : Type 0} (m : Manager W) where
  all-probes : (w : W) → (all is_up (probes m w).1 ≡ true) ↔ ProbesSucceed m w
  unfolding probes
  all-probes w =
      simp (all-append, probe_up, probe_next, probe_opt_up, probe_opt_next) (ground arith)

  -- A report counts as healthy exactly when the runtime is running, the components that the lifecycle
  -- monitor lists are all healthy, and every probe of a configured transport ends without an error.
  -- If the monitor's own check fails it lists no component.
  pub health-is_healthy_iff :
      (s : State W)
      → let report = report_of (m.lifecycle.health s.world).1 in
        (is_healthy (health m s).1 ≡ true) ↔ (
          (s.status ≡ running)
          × All (λ c. c.status ≡ healthy) report.components
          × ProbesSucceed m (m.lifecycle.health s.world).0)
  unfolding health is_healthy
  health-is_healthy_iff s =
      let (w, result) = m.lifecycle.health s.world in
      let (to, from) = verdict_iff s.status (report_of result).components (probes m w).1 in
      (
        λ e. let (up, listed, probed) = to e in (up, listed, (all-probes w).0 probed),
        λ h. from (h.0, h.1, (all-probes w).1 h.2),
      )
