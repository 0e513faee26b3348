-- ===== src/Codec.antt =====
-- scm/main/adapter/src/core/json/codec/codec.rs: JSON bodies of HTTP and gRPC routes.
pub mod Calls
use edge_bootstrap.Prelude.{
  ℕ, String, List, [], ◌∷◌, Option, none, some, Result, ok, err, map_err, ◌≡◌,
}
use edge_bootstrap.Transport.{
  HttpBody, json, raw, other_body, HttpRequest, HttpResponse, HttpIngressError, invalid_input,
  GrpcIngressError, invalid_argument,
}

-- serde_json at one type: from a parsed value, from bytes and to bytes.
pub record Serde (A : Type 0) : Type 0 where
  pub from_value : String → Result String A
  pub from_slice : List ℕ → Result String A
  pub to_vec : A → Result String (List ℕ)

-- What is written is read back.
pub record SerdeLaws {A : Type 0} (s : Serde A) : Type 0 where
  pub from_slice-to_vec : (a : A) (body : List ℕ) → s.to_vec a ≡ ok body → s.from_slice body ≡ ok a

abbrev pub null_bytes : List ℕ
null_bytes = b'n' ∷ b'u' ∷ b'l' ∷ b'l' ∷ []

module _ {A : Type 0} (s : Serde A) where
  unfoldable pub json_decode : HttpRequest → Result HttpIngressError A
  json_decode req = elim (req.body) [
    | none ↦ map_err invalid_input (s.from_slice null_bytes)
    | some body ↦ elim body [
      | json v ↦ map_err invalid_input (s.from_value v)
      | raw b ↦ map_err invalid_input (s.from_slice b)
      | other_body b ↦ err (invalid_input "expected JSON body (application/json or raw bytes)")
    ]
  ]

  -- `bytes` is the UTF-8 of a text.
  unfoldable pub json_encode : (String → List ℕ) → A → HttpResponse
  json_encode bytes resp = elim (s.to_vec resp) [
    | ok body ↦ record {
      status = 200;
      headers = ("content-type", "application/json") ∷ [];
      body = body;
    }
    | err e ↦ record { status = 500; headers = []; body = bytes e }
  ]

  unfoldable pub grpc_json_decode : List ℕ → Result GrpcIngressError A
  grpc_json_decode body = map_err invalid_argument (s.from_slice body)

  -- A body that cannot be written is empty.
  unfoldable pub grpc_json_encode : A → List ℕ
  grpc_json_encode resp = elim (s.to_vec resp) [ ok body ↦ body | err e ↦ [] ]
