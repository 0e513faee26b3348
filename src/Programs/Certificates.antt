-- ===== src/Programs/Certificates.antt =====
-- scm/examples/tls-e2e/tls_setup.rs: the certificate that the program serves with, if the environment
-- asks for one. A panic is `none`. Files, the openssl command and rustls are parameters.
use edge_bootstrap.Prelude.{
  ℕ, ◌+◌, String, List, [], ◌∷◌, Bool, true, false, ◌&&◌, ◌||◌, Option, none, some, ok, err, Call,
  ◌≡◌, arith, ◌==◌, leb, if◌then◌else◌, ◌∙◌, ◌⊎◌, inl, inr, Result-cases, Bool-cases, Option-cases,
}
use Prim.Native.Char.{code}
use text.Mathlib.Text.{◌==◌ as str_eq}

abbrev lower : ℕ → ℕ
lower c = if leb b'A' c && leb c b'Z' then c + 32 else c

-- `a.eq_ignore_ascii_case(b)`
abbrev eq_ignore_ascii_case : String → String → Bool
eq_ignore_ascii_case String.[] String.[] = true
eq_ignore_ascii_case String.[] (String.◌∷◌ d t) = false
eq_ignore_ascii_case (String.◌∷◌ c s) String.[] = false
eq_ignore_ascii_case (String.◌∷◌ c s) (String.◌∷◌ d t) =
    (lower (code c) == lower (code d)) && eq_ignore_ascii_case s t

unfoldable pub env_flag_enabled : Option String → Bool
env_flag_enabled none = false
env_flag_enabled (some v) = str_eq v "1" || eq_ignore_ascii_case v "true"

-- `provided` says whether the process has a rustls provider: `CRYPTO_PROVIDER_INIT` has run.
pub record Setup (W : Type 0) : Type 0 where
  pub provided : Bool
  pub world : W

-- `openssl` runs the command with its arguments and says whether it succeeded; `pem` is
-- `PemTlsConfig::tls`.
pub record Tools (W C : Type 0) : Type 0 where
  pub install_default : W → W × Bool
  pub tempdir : Call W String String
  pub openssl : List String → Call W String Bool
  pub join : String → String → String
  pub pem : String → String → C

module _ {W C : Type 0} (t : Tools W C) where
  unfoldable pub ensure_crypto_provider : Setup W → Option (Setup W)
  ensure_crypto_provider s =
      let (w, installed) = t.install_default s.world in
      if s.provided
      then some s
      else (if installed then some (record { provided = true; world = w }) else none)

  abbrev request_arguments : String → String → List String
  request_arguments cert_path key_path =
      "req" ∷ "-x509" ∷ "-newkey" ∷ "rsa:2048" ∷ "-nodes" ∷ "-keyout" ∷ key_path ∷ "-out"
      ∷ cert_path ∷ "-days" ∷ "1" ∷ "-subj" ∷ "/CN=localhost" ∷ []

  -- The two paths, of the certificate and of its key.
  unfoldable pub generate_self_signed_cert : String → W → Option (W × (String × String))
  generate_self_signed_cert dir w =
      let cert_path = t.join dir "cert.pem" in
      let key_path = t.join dir "key.pem" in
      let (w', status) = t.openssl (request_arguments cert_path key_path) w in
      elim status [
        | err e ↦ none
        | ok success ↦ if success then some (w', (cert_path, key_path)) else none
      ]

  -- What is made once the provider is there.
  unfoldable pub make_material : Setup W → Option (Setup W × Option C)
  unfolding generate_self_signed_cert
  make_material s =
      let (w, made) = t.tempdir s.world in
      elim made [
        | err e ↦ none
        | ok dir ↦ elim (generate_self_signed_cert dir w) [
          | none ↦ none
          | some written ↦
              let (w', paths) = written in
              some (record s { world = w' }, some (t.pem paths.0 paths.1))
        ]
      ]

  -- `value` is that of `TLS_E2E_TLS`.
  unfoldable pub build_tls_material : Option String → Setup W → Option (Setup W × Option C)
  unfolding ensure_crypto_provider make_material
  build_tls_material value s =
      if env_flag_enabled value
      then (elim (ensure_crypto_provider s) [ none ↦ none | some s' ↦ make_material s' ])
      else some (s, none)

  ensured-provided : (s s' : Setup W) → ensure_crypto_provider s ≡ some s' → s'.provided ≡ true
  unfolding ensure_crypto_provider
  ensured-provided s s' e = ground arith

  -- However often it is called, the provider is installed once.
  pub ensured_once :
      (s s' : Setup W) → ensure_crypto_provider s ≡ some s' → ensure_crypto_provider s' ≡ some s'
  unfolding ensure_crypto_provider
  ensured_once s s' e = ground (arith, ensured-provided s s' e)

  made_in :
      (s s' : Setup W) (m : Option C) (dir : String)
      → (t.tempdir s.world).1 ≡ ok dir
      → make_material s ≡ some (s', m)
      → (s'.provided ≡ s.provided)
        × (m ≡ some (t.pem (t.join dir "cert.pem") (t.join dir "key.pem")))
  unfolding make_material
  made_in s s' m dir made e = ground arith

  make_material-some :
      (s s' : Setup W) (m : Option C)
      → make_material s ≡ some (s', m)
      → (dir : String) × (s'.provided ≡ s.provided)
        × (m ≡ some (t.pem (t.join dir "cert.pem") (t.join dir "key.pem")))
  unfolding make_material
  make_material-some s s' m e = elim (Result-cases (t.tempdir s.world).1) [
    | inl (dir, made) ↦ let (kept, at) = made_in s s' m dir made e in (dir, kept, at)
    | inr (x, failed) ↦ ground arith
  ]

  -- The program serves plaintext, and has touched nothing, unless the variable asks for TLS. If it does and
  -- the setup does not panic, then the process has a provider, and the certificate and key are those
  -- that openssl was told to write into one directory.
  pub build_tls_material_cases :
      (value : Option String) (s s' : Setup W) (m : Option C)
      → build_tls_material value s ≡ some (s', m)
      → ((env_flag_enabled value ≡ false) × (s' ≡ s) × (m ≡ none))
        ⊎ ((env_flag_enabled value ≡ true)
            × (s'.provided ≡ true)
            × (dir : String) × (m ≡ some (t.pem (t.join dir "cert.pem") (t.join dir "key.pem"))))
  unfolding build_tls_material
  build_tls_material_cases value s s' m e = elim (Bool-cases (env_flag_enabled value)) [
    | inr unasked ↦ inl (unasked, ground arith, ground arith)
    | inl asked ↦ elim (Option-cases (ensure_crypto_provider s)) [
      | inl panicked ↦ ground arith
      | inr (s1, ensured) ↦
          let made : make_material s1 ≡ some (s', m) = ground arith in
          let (dir, kept, at) = make_material-some s1 s' m made in
          inr (asked, kept ∙ ensured-provided s s1 ensured, dir, at)
    ]
  ]
