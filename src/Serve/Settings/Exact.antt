-- ===== src/Serve/Settings/Exact.antt =====
-- Which settings a configured gRPC server has.
use edge_bootstrap.Prelude.{
  String, List, [], ◌∷◌, ◌++◌, Bool, true, false, not, Option, none, some, Result, ok, err,
  and_then, if◌then◌else◌, ◌≡◌, refl, sym, ◌∙◌, ap, and_then_assoc, Option-cases, inl, inr, fun_ext,
  and_then-eq-ok,
}
use mathlib.Core.List.{append-nil, append_assoc}
use edge_bootstrap.Config.Types.{Foreign}
use edge_bootstrap.Runtime.Status.{RuntimeError, start_failed}
use edge_bootstrap.Builder.{Parts}
use edge_bootstrap.Serve.{
  GrpcServer, Setting, streaming_kind, unary, bidi_stream, tls, interceptors, allow_unauthenticated,
}
use edge_bootstrap.Serve.Settings.{ask, ask_if, ask_tls, ask_unary, configure}

module _ {x : Foreign} {y : Parts} where
  abbrev pub wanted_tls : Option x.PemTlsConfig → List (Setting x y)
  wanted_tls none = []
  wanted_tls (some cfg) = tls cfg ∷ []

  abbrev pub wanted_if : Bool → Setting x y → List (Setting x y)
  wanted_if b setting = if b then setting ∷ [] else []

  abbrev pub wanted_unary : List String → List (Setting x y)
  wanted_unary [] = []
  wanted_unary (id ∷ ids) = streaming_kind id unary ∷ wanted_unary ids

  -- The settings that a server is to have, in the order in which they are asked for.
  abbrev pub wanted :
      String → List String → Bool → Option x.PemTlsConfig → y.Chain → Bool → List (Setting x y)
  wanted info ids reflection cfg chain allow =
      wanted_unary ids
      ++ (wanted_if reflection (streaming_kind info bidi_stream)
          ++ (wanted_tls cfg
              ++ (wanted_if (not (y.is_empty_chain chain)) (interceptors chain)
                  ++ wanted_if allow (allow_unauthenticated true))))

module _ {x : Foreign} {y : Parts} {V : Type 0}
    (refuses : GrpcServer x y V → Setting x y → Option String) where
  -- A list of settings, one by one.
  abbrev ask_all : List (Setting x y) → GrpcServer x y V → Result RuntimeError (GrpcServer x y V)
  ask_all [] server = ok server
  ask_all (s ∷ ss) server = and_then (ask refuses s server) (ask_all ss)

  ask_all-append :
      (ss ts : List (Setting x y)) (server : GrpcServer x y V)
      → ask_all (ss ++ ts) server ≡ and_then (ask_all ss server) (ask_all ts)
  ask_all-append [] ts server = refl
  ask_all-append (s ∷ ss) ts server =
      ap (and_then (ask refuses s server)) (fun_ext (λ t. ask_all-append ss ts t))
      ∙ sym (and_then_assoc (ask refuses s server) (ask_all ss) (ask_all ts))

  and_then_ok : (r : Result RuntimeError (GrpcServer x y V)) → and_then r ok ≡ r
  and_then_ok (ok s) = refl
  and_then_ok (err e) = refl

  ask_if_all :
      (b : Bool) (s : Setting x y) (server : GrpcServer x y V)
      → ask_if refuses b s server ≡ ask_all (wanted_if b s) server
  unfolding ask_if
  ask_if_all true s server = sym (and_then_ok (ask refuses s server))
  ask_if_all false s server = refl

  ask_tls_all :
      (cfg : Option x.PemTlsConfig) (server : GrpcServer x y V)
      → ask_tls refuses cfg server ≡ ask_all (wanted_tls cfg) server
  unfolding ask_tls
  ask_tls_all none server = refl
  ask_tls_all (some cfg) server = sym (and_then_ok (ask refuses (tls cfg) server))

  ask_unary_all :
      (ids : List String) (server : GrpcServer x y V)
      → ask_unary refuses ids server ≡ ask_all (wanted_unary ids) server
  unfolding ask_unary
  ask_unary_all [] server = refl
  ask_unary_all (id ∷ ids) server =
      ap (and_then (ask refuses (streaming_kind id unary) server))
        (fun_ext (λ t. ask_unary_all ids t))

  -- The rest of a chain whose first part asks for a list.
  then_all :
      (ss ts : List (Setting x y)) (server : GrpcServer x y V)
      (first rest : GrpcServer x y V → Result RuntimeError (GrpcServer x y V))
      → ((t : GrpcServer x y V) → first t ≡ ask_all ss t)
      → ((t : GrpcServer x y V) → rest t ≡ ask_all ts t)
      → and_then (first server) rest ≡ ask_all (ss ++ ts) server
  then_all ss ts server first rest f r =
      ap (λ q. and_then q rest) (f server)
      ∙ ap (and_then (ask_all ss server)) (fun_ext r)
      ∙ sym (ask_all-append ss ts server)

  configure_all :
      (info : String) (ids : List String) (reflection : Bool) (cfg : Option x.PemTlsConfig)
      (chain : y.Chain) (allow : Bool) (server : GrpcServer x y V)
      → configure refuses info ids reflection cfg chain allow server
        ≡ ask_all (wanted info ids reflection cfg chain allow) server
  unfolding configure
  configure_all info ids reflection cfg chain allow server =
      let some_chain = not (y.is_empty_chain chain) in
      let authless = wanted_if allow (allow_unauthenticated true) in
      let intercepted = wanted_if some_chain (interceptors chain) in
      let reflecting = wanted_if reflection (streaming_kind info bidi_stream) in
      then_all (wanted_unary ids) (reflecting ++ (wanted_tls cfg ++ (intercepted ++ authless)))
        server (ask_unary refuses ids) _ (ask_unary_all ids)
        (λ s1.
          then_all reflecting (wanted_tls cfg ++ (intercepted ++ authless)) s1
            (ask_if refuses reflection (streaming_kind info bidi_stream)) _
            (ask_if_all reflection (streaming_kind info bidi_stream))
            (λ s2.
              then_all (wanted_tls cfg) (intercepted ++ authless) s2 (ask_tls refuses cfg) _
                (ask_tls_all cfg)
                (λ s3.
                  then_all intercepted authless s3 (ask_if refuses some_chain (interceptors chain))
                    _ (ask_if_all some_chain (interceptors chain))
                    (ask_if_all allow (allow_unauthenticated true)))))

  ask-eq-ok :
      (s : Setting x y) (server made : GrpcServer x y V)
      → ask refuses s server ≡ ok made
      → made ≡ record server { settings = server.settings ++ s ∷ [] }
  unfolding ask
  ask-eq-ok s server made e = elim (Option-cases (refuses server s)) [
    | inl fine ↦
        let shown : ask refuses s server
            ≡ ok (record server { settings = server.settings ++ s ∷ [] }) =
          rw (fine, ask) refl in
        cc
    | inr (text, refused) ↦
        let shown : ask refuses s server ≡ err (start_failed text) = rw (refused, ask) refl in cc
  ]

  ask_all-eq-ok :
      (ss : List (Setting x y)) (server made : GrpcServer x y V)
      → ask_all ss server ≡ ok made
      → made ≡ record server { settings = server.settings ++ ss }
  ask_all-eq-ok [] server made e = rw (append-nil server.settings) (cc)
  ask_all-eq-ok (s ∷ ss) server made e =
      let (mid, asked, rest) = and_then-eq-ok (ask refuses s server) (ask_all ss) e in
      let one = ask-eq-ok s server mid asked in
      let more = ask_all-eq-ok ss mid made rest in
      more
      ∙ rw one (ap (λ l. record server { settings = l }) (append_assoc server.settings (s ∷ []) ss))

  -- A gRPC server that is configured without an error has kept its address and its handler, and has,
  -- after the settings it had, exactly the wanted ones in this order: every registered route as unary,
  -- the reflection method as a bidirectional stream if reflection is on, TLS if there is a
  -- configuration of it, the interceptors if there are any, and the permission to go without
  -- authentication if it was given.
  pub configure_settings :
      (info : String) (ids : List String) (reflection : Bool) (cfg : Option x.PemTlsConfig)
      (chain : y.Chain) (allow : Bool) (server made : GrpcServer x y V)
      → configure refuses info ids reflection cfg chain allow server ≡ ok made
      → made
        ≡ record server { settings = server.settings ++ wanted info ids reflection cfg chain allow }
  configure_settings info ids reflection cfg chain allow server made e =
      ask_all-eq-ok (wanted info ids reflection cfg chain allow) server made
        (sym (configure_all info ids reflection cfg chain allow server) ∙ e)
