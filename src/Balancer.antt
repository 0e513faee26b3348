-- ===== src/Balancer.antt =====
-- scm/main/adapter/src/core/egress/load_balanced_http_egress.rs: an HTTP egress over a pool of backends.
pub mod Outcomes
use edge_bootstrap.Prelude.{
  ℕ, String, Bool, Option, Result, ok, err, Call, map_err, and_then, if◌then◌else◌, leb, ltb, ◌&&◌,
}
use Prim.Native.String
use edge_bootstrap.Transport.{HttpRequest, HttpResponse, HttpEgressError, internal, HttpEgress}

-- A backend of swe_edge_loadbalancer, and what is reported of it.
pub record Backend : Type 0 where
  pub id : String
  pub url : String

pub data Outcome : Type 0 where
  success : Outcome
  failure : String → Outcome

-- The url crate, as far as it is used.
pub record Urls (U : Type 0) : Type 0 where
  pub parse : String → Result String U
  pub path : U → String
  pub query : U → Option String
  pub fragment : U → Option String
  pub set_path : String → U → U
  pub set_query : Option String → U → U
  pub set_fragment : Option String → U → U
  pub print : U → String

-- The pool is part of the world. `is_server_error`, the text of a status and the text of an error are
-- those of the transport crate.
pub record Pool (W : Type 0) : Type 0 where
  pub select : Call W String Backend
  pub report_outcome : String → Outcome → W → W
  pub backend_count : W → ℕ
  pub is_server_error : HttpResponse → Bool
  pub status_text : ℕ → String
  pub error_text : HttpEgressError → String

module _ {U : Type 0} (urls : Urls U) where
  unfoldable pub rewrite_url : String → String → Result HttpEgressError String
  rewrite_url orig backend_url =
      and_then
        (map_err (λ e. internal (String.◌++◌ "invalid backend URL: " e)) (urls.parse backend_url))
        (λ base.
          and_then
            (map_err (λ e. internal (String.◌++◌ "invalid request URL: " e)) (urls.parse orig))
            (λ u. ok (
              urls.print (
                urls.set_fragment (urls.fragment u)
                  (urls.set_query (urls.query u) (urls.set_path (urls.path u) base))))))

module _ {W : Type 0} (pool : Pool W) where
  unfoldable pub report_outcome : String → Outcome → W → W
  report_outcome backend_id outcome w = pool.report_outcome backend_id outcome w

  unfoldable pub backend_count : W → ℕ
  backend_count w = pool.backend_count w

module _ {U W : Type 0} (urls : Urls U) (pool : Pool W) where
  unfoldable pub outcome_of : Result HttpEgressError HttpResponse → Outcome
  outcome_of (ok resp) =
      if pool.is_server_error resp
      then failure (String.◌++◌ "status " (pool.status_text resp.status))
      else success
  outcome_of (err e) = failure (pool.error_text e)

  -- The status of a stream is not looked at.
  unfoldable pub stream_outcome_of : Result HttpEgressError HttpResponse → Outcome
  stream_outcome_of (ok resp) = success
  stream_outcome_of (err e) = failure (pool.error_text e)

  -- The common body of `send` and `send_stream`.
  unfoldable pub balanced :
      (HttpRequest → Call W HttpEgressError HttpResponse)
      → (Result HttpEgressError HttpResponse → Outcome)
      → HttpRequest
      → Call W HttpEgressError HttpResponse
  balanced call outcome request w =
      let (w1, selected) = pool.select w in
      elim selected [
        | err e ↦ (w1, err (internal e))
        | ok backend ↦ elim (rewrite_url urls request.url backend.url) [
          | err e ↦ (w1, err e)
          | ok url ↦
              let (w2, result) = call (record request { url = url }) w1 in
              (pool.report_outcome backend.id (outcome result) w2, result)
        ]
      ]

  unfoldable pub load_balanced_http_egress : HttpEgress W → HttpEgress W
  unfolding balanced
  load_balanced_http_egress inner = record {
    send = balanced inner.send outcome_of;
    send_stream = balanced inner.send_stream stream_outcome_of;
    health_check = inner.health_check;
  }
