-- ===== src/Config/Validator.antt =====
-- scm/main/adapter/src/core/validator/config_validator.rs
use edge_bootstrap.Prelude.{
  ◌==◌, false, Result, ok, err, if◌then◌else◌, is_blank, ◌≡◌, ◌≢◌, ◌↔◌, arith,
}
use edge_bootstrap.Config.Types.{Foreign, RuntimeConfig}
use edge_bootstrap.Runtime.Status.{RuntimeError, start_failed}

module _ {x : Foreign} where
  unfoldable pub validate : RuntimeConfig x → Result RuntimeError (Unit {0})
  validate c =
      if is_blank c.http_bind
      then err (start_failed "http_bind must not be empty")
      else if is_blank c.grpc_bind
      then err (start_failed "grpc_bind must not be empty")
      else if c.shutdown_timeout_secs == 0
      then err (start_failed "shutdown_timeout_secs must be > 0")
      else ok tt

  -- A configuration is valid exactly when neither bind address is blank and the timeout is not 0.
  pub validate_iff :
      (c : RuntimeConfig x)
      → (validate c ≡ ok tt) ↔ (
          (is_blank c.http_bind ≡ false)
          × (is_blank c.grpc_bind ≡ false)
          × (c.shutdown_timeout_secs ≢ 0))
  unfolding validate
  validate_iff c = ground arith
