-- ===== src/Serve/Settings.antt =====
-- How `serve` configures the gRPC server: scm/main/adapter/src/core/runtime/runtime_builder_serve.rs.
pub mod Exact
use edge_bootstrap.Prelude.{
  String, List, [], ◌∷◌, ◌++◌, Bool, true, not, Option, none, some, Result, ok, err, and_then,
  if◌then◌else◌,
}
use edge_bootstrap.Config.Types.{Foreign}
use edge_bootstrap.Runtime.Status.{RuntimeError, start_failed}
use edge_bootstrap.Builder.{Parts}
use edge_bootstrap.Serve.{
  GrpcServer, Setting, streaming_kind, unary, bidi_stream, tls, interceptors, allow_unauthenticated,
}

-- `refuses` is the transport's error, if it has one, for a setting of a server.
module _ {x : Foreign} {y : Parts} {V : Type 0}
    (refuses : GrpcServer x y V → Setting x y → Option String) where
  unfoldable pub ask : Setting x y → GrpcServer x y V → Result RuntimeError (GrpcServer x y V)
  ask setting server = elim (refuses server setting) [
    | some e ↦ err (start_failed e)
    | none ↦ ok (record server { settings = server.settings ++ setting ∷ [] })
  ]

  unfoldable pub ask_if :
      Bool → Setting x y → GrpcServer x y V → Result RuntimeError (GrpcServer x y V)
  ask_if wanted setting server = if wanted then ask setting server else ok server

  unfoldable pub ask_tls :
      Option x.PemTlsConfig → GrpcServer x y V → Result RuntimeError (GrpcServer x y V)
  ask_tls none server = ok server
  ask_tls (some cfg) server = ask (tls cfg) server

  -- The loop over the registered routes: each is unary.
  unfoldable pub ask_unary : List String → GrpcServer x y V → Result RuntimeError (GrpcServer x y V)
  ask_unary [] server = ok server
  ask_unary (id ∷ ids) server = and_then (ask (streaming_kind id unary) server) (ask_unary ids)

  -- `info` is the name of the reflection method.
  unfoldable pub configure :
      String
      → List String
      → Bool
      → Option x.PemTlsConfig
      → y.Chain
      → Bool
      → GrpcServer x y V
      → Result RuntimeError (GrpcServer x y V)
  configure info ids reflection cfg chain allow server = and_then (ask_unary ids server) (λ s1.
      and_then (ask_if reflection (streaming_kind info bidi_stream) s1) (λ s2.
        and_then (ask_tls cfg s2) (λ s3.
          and_then (ask_if (not (y.is_empty_chain chain)) (interceptors chain) s3)
            (ask_if allow (allow_unauthenticated true)))))
