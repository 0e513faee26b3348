-- ===== src/Codec/Calls.antt =====
-- Calls through routes that encode and decode JSON.
use edge_bootstrap.Prelude.{ℕ, String, List, [], some, Result, ok, err, map_err, ◌≡◌, ◌⊎◌}
use edge_bootstrap.Transport.{raw, HttpRequest, HttpResponse, Display}
use edge_bootstrap.Dispatch.Interface.{Handler, HandlerContext, Registry, PathRouter}
use edge_bootstrap.Dispatch.HttpJob
use edge_bootstrap.Dispatch.HttpJob.{HttpHandler}
use edge_bootstrap.Dispatch.GrpcJob
use edge_bootstrap.Dispatch.GrpcJob.{GrpcHandler}
use edge_bootstrap.Codec.{Serde, json_decode, json_encode, grpc_json_decode, grpc_json_encode}

-- The codec as the decoder of a route, whose errors are given by their text.
abbrev pub http_decoder : {A : Type 0} → Display → Serde A → HttpRequest → Result String A
http_decoder d s req = map_err d.http_ingress_error (json_decode s req)

abbrev pub grpc_decoder : {A : Type 0} → Display → Serde A → List ℕ → Result String A
grpc_decoder d s body = map_err d.grpc_ingress_error (grpc_json_decode s body)

-- A request that carries a body.
abbrev pub posting : HttpRequest → List ℕ → HttpRequest
posting req body = record req { body = some (raw body) }

module _ {O W Req Resp : Type 0} (d : Display) (bytes : String → List ℕ) (req : Serde Req)
    (resp : Serde Resp) (h : Handler O W Req Resp) (ctx : HandlerContext O) where
  abbrev grpc_route : {G : Type 0} → Registry G (GrpcHandler O W) → GrpcHandler O W
  grpc_route greg = GrpcJob.bridge greg h (grpc_decoder d req) (grpc_json_encode resp)

  abbrev http_route : {P R : Type 0} → Registry R (HttpHandler O W) → PathRouter P → HttpHandler O W
  http_route reg rt = HttpJob.bridge reg rt h (http_decoder d req) (json_encode resp bytes)

  -- What the two routes answer to one result of the handler: its error, if it fails; the written
  -- answer, if that can be written, from which a client reads back the answer itself; else an empty
  -- gRPC body and a response of status 500.
  pub Answers :
      HttpRequest
      → W × Result String Resp
      → W × Result String (List ℕ)
      → W × Result String HttpResponse
      → Type 0
  Answers base (w, done) grpc http =
      ((e : String) × (done ≡ err e) × (grpc ≡ (w, err e)) × (http ≡ (w, err e)))
      ⊎ (((r : Resp) × (out : List ℕ) × (done ≡ ok r)
            × (resp.to_vec r ≡ ok out)
            × (grpc ≡ (w, ok out))
            × (grpc_json_decode resp out ≡ ok r)
            × ((answer : HttpResponse) × (http ≡ (w, ok answer))
                × (answer.status ≡ 200)
                × (answer.body ≡ out)
                × (json_decode resp (posting base answer.body) ≡ ok r)))
          ⊎ ((r : Resp) × (e : String) × (done ≡ ok r)
              × (resp.to_vec r ≡ err e)
              × (grpc ≡ (w, ok []))
              × (http ≡ (w, ok (record { status = 500; headers = []; body = bytes e })))))
