-- ===== src/Programs/Hello/Stops.antt =====
-- The run of hello_edge to its end, and what its ingress answers.
use edge_bootstrap.Prelude.{ℕ, String, List, [], some, ok, ◌≡◌, arith, refl, true}
use edge_bootstrap.Config.Types.{Foreign}
use edge_bootstrap.Transport.{InboundRequest, Display, HttpIngress}
use edge_bootstrap.Codec.{Serde}
use edge_bootstrap.Dispatch.Interface.{Handler, HandlerContext, Registry, RegistryLaws}
use edge_bootstrap.Facade.{http_ingress}
use edge_bootstrap.Runtime.Status.{stopped, is_running}
use edge_bootstrap.Runtime.Lifecycle.{LifecycleMonitor}
use edge_bootstrap.Runtime.Manager.{Manager, State, new, start}
use edge_bootstrap.Runtime.Manager.Laws.{start_status, shutdown_status, start_ok_iff}
use edge_bootstrap.Runtime.Health.{health}
use edge_bootstrap.Adapters.{has_any, new_http_ingress}
use edge_bootstrap.Programs.Hello.{
  ended, handler_id, payload_of, answer, echo_handle, echo_ingress, registered, smoke_test,
  hello_manager, lived, hello_edge,
}

module _ {W : Type 0} (m : Manager W) (any : has_any m.ingress ≡ true)
    (starts : (w : W) → (m.lifecycle.start_background_tasks w).1 ≡ ok tt)
    (stops : (w : W) → (m.lifecycle.shutdown w).1 ≡ ok tt) where
  lived_stops : (s : State W) → ((lived m s).1 ≡ ended) × ((lived m s).0.status ≡ stopped)
  unfolding lived health is_running
  lived_stops s =
      let begun = start m s in
      let asked = health m begun.0 in
      ground (
        arith,
        start_status m s,
        start_ok_iff m s,
        starts s.world,
        shutdown_status m asked.0,
        stops asked.0.world,
      )

-- The registry of edge_application keeps what is registered, the handler registers, and it echoes as
-- documented; the lifecycle monitor that does nothing starts and shuts down.
module _ {O W R : Type 0} (reg : Registry R (Handler O W String String)) (payload : Serde String)
    (lossy : List ℕ → String) (context : HandlerContext O) (laws : RegistryLaws reg)
    (echo : String → String → Handler O W String String) (made : (registered reg echo).1 ≡ ok tt)
    (echoes : (p : String) (w : W) → ((echo handler_id "/echo").execute context p w).1 ≡ ok p) where
  found : reg.get (registered reg echo).0 handler_id ≡ ok (some (echo handler_id "/echo"))
  unfolding registered
  found = laws.get_same reg.empty handler_id (echo handler_id "/echo") made

  smoke_ok : (w : W) → (smoke_test reg context (registered reg echo).0 w).1 ≡ ok "hello edge"
  unfolding smoke_test
  smoke_ok w = rw (found, smoke_test) (echoes "hello edge" w)

  echo_handle_ok :
      (req : InboundRequest) (w : W) (body : List ℕ)
      → payload.to_vec (payload_of lossy req.request.body) ≡ ok body
      → (echo_handle reg context payload lossy (registered reg echo).0 req w).1
        ≡ ok (record { status = 200; headers = []; body = body })
  unfolding answer echo_handle
  echo_handle_ok req w body written =
      rw (found, echo_handle)
        (rw (echoes (payload_of lossy req.request.body) w) (rw (written, answer) refl))

  module _ (x : Foreign) (display : Display) (clock : W → ℕ) (null_lifecycle : LifecycleMonitor W)
      (starts : (w : W) → (null_lifecycle.start_background_tasks w).1 ≡ ok tt)
      (stops : (w : W) → (null_lifecycle.shutdown w).1 ≡ ok tt) where
    -- Under the section's assumptions `main` of hello_edge ends with `Ok`, past its assertion, and
    -- leaves the runtime stopped; and the ingress of its runtime answers any request, with a text in
    -- the body or the text `hello edge`, with status 200 and this text as JSON, if it can be written.
    pub hello_edge_stops :
        (w : W)
        → let m =
            hello_manager reg context payload lossy x display clock null_lifecycle
              (registered reg echo).0 in
          let (s, ending) =
            hello_edge reg context payload lossy x display clock null_lifecycle echo w in
          (ending ≡ ended)
          × (s.status ≡ stopped)
          × (h : HttpIngress W) × (m.ingress.http ≡ some h)
          × ((req : InboundRequest) (w' : W) (body : List ℕ)
              → payload.to_vec (payload_of lossy req.request.body) ≡ ok body
              → (h.handle req w').1 ≡ ok (record { status = 200; headers = []; body = body }))
    unfolding hello_edge hello_manager http_ingress echo_ingress has_any new_http_ingress
    hello_edge_stops w =
        let m =
          hello_manager reg context payload lossy x display clock null_lifecycle
            (registered reg echo).0 in
        let tested = smoke_ok w in
        let lasted =
          lived_stops m refl starts stops
            (new (smoke_test reg context (registered reg echo).0 w).0) in
        (
          rw (made, hello_edge) (rw tested (lasted.0)),
          rw (made, hello_edge) (rw tested (lasted.1)),
          echo_ingress reg context payload lossy (registered reg echo).0,
          refl,
          echo_handle_ok,
        )
