-- ===== src/Programs/Handlers.antt =====
-- The handlers of scm/examples that observe their calls: bootstrap-e2e, observability-e2e and
-- security-e2e, and those that only echo: websocket-e2e and tls-e2e. The default health check of the
-- handler trait is a parameter.
use edge_bootstrap.Prelude.{String, Bool, ok, Call}
use Prim.Native.String
use edge_bootstrap.Dispatch.Interface.{Handler}
use edge_bootstrap.Observability.{ObserverContext, record_annotation}

-- A span with the payload, one on a counter and a line in the log.
unfoldable pub observe :
    {F W : Type 0} → String → String → String → String → ObserverContext F W → W → W
unfolding record_annotation
observe handler_id counter label payload ctx w =
    let span = record_annotation "payload" payload (ctx.tracer.start_span handler_id "execute" w) in
    let (w1, closed) = ctx.tracer.finish span w in
    let w2 = ctx.metrics.counter counter 1 w1 in
    ctx.drain.emit "info" handler_id (String.◌++◌ label payload) w2

module _ {F W : Type 0} (default_health : Call W String Bool) where
  -- `EchoHandler` of bootstrap-e2e
  unfoldable pub echo_handler : Handler (ObserverContext F W) W String String
  unfolding observe
  echo_handler = record {
    id = ok "/echo";
    pattern = ok "/echo";
    execute = λ ctx payload w. (
      observe "echo" "echo_handler_invocations_total" "echoed payload: " payload ctx.observer w,
      ok payload,
    );
    health_check = default_health;
  }

  -- `ObservedHandler` of observability-e2e
  unfoldable pub observed_handler : Handler (ObserverContext F W) W String String
  unfolding observe
  observed_handler = record {
    id = ok "/observe";
    pattern = ok "/observe";
    execute = λ ctx payload w. (
      observe "observe" "observability_handler_invocations_total" "observed payload: " payload
          ctx.observer w,
      ok payload,
    );
    health_check = default_health;
  }

  -- `SecureEchoHandler` of security-e2e; a payload is its message.
  unfoldable pub secure_echo_handler : Handler (ObserverContext F W) W String String
  secure_echo_handler = record {
    id = ok "/secure-echo";
    pattern = ok "/secure-echo";
    execute = λ ctx message w. (
      ctx.observer.drain.emit "info" "secure-echo"
          (String.◌++◌ "authenticated request handled: " message) w,
      ok message,
    );
    health_check = default_health;
  }

-- `EchoHandler` of websocket-e2e and of tls-e2e
unfoldable pub plain_echo_handler : {O W A : Type 0} → Call W String Bool → Handler O W A A
plain_echo_handler default_health = record {
  id = ok "/echo";
  pattern = ok "/echo";
  execute = λ ctx payload w. (w, ok payload);
  health_check = default_health;
}
