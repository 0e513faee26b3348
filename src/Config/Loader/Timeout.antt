-- ===== src/Config/Loader/Timeout.antt =====
-- The shutdown timeout of the environment, `SWE_EDGE_SHUTDOWN_TIMEOUT`.
use edge_bootstrap.Prelude.{
  ℕ, ◌<◌, String, true, false, Option, none, some, ok, err, ok_or, ◌≡◌, ◌↔◌, ◌⊎◌, inl, inr, refl,
  arith, is_digit, is_empty_text, all_text,
}
use edge_bootstrap.Monitor.Floats.{u64_mod}
use edge_bootstrap.Config.Types.{bad_env_var}
use edge_bootstrap.Config.Loader.{parse_shutdown_timeout}
use edge_bootstrap.Config.Loader.Numbers.{parse_u64, drop_plus, value_from, parse_u64_iff}

ok_or-eq-ok_iff : {E A : Type 0} (o : Option A) (e : E) (a : A) → (ok_or o e ≡ ok a) ↔ (o ≡ some a)
ok_or-eq-ok_iff none e a = ground arith
ok_or-eq-ok_iff (some b) e a = ground arith

ok_or_cases :
    {E A : Type 0} (o : Option A) (e : E) → ((a : A) × (ok_or o e ≡ ok a)) ⊎ (ok_or o e ≡ err e)
ok_or_cases none e = inr refl
ok_or_cases (some a) e = inl (a, refl)

-- A timeout is taken from a text exactly when the text is not empty, holds only digits after at most one
-- plus sign that is not alone, and writes a number below 2 ^ 64, which is the timeout. Any other
-- text is refused with the error that names it.
pub parse_shutdown_timeout_iff :
    (s : String) (n : ℕ)
    → ((parse_shutdown_timeout s ≡ ok n) ↔ (
        (is_empty_text s ≡ false)
        × (all_text is_digit (drop_plus s) ≡ true)
        × (value_from 0 (drop_plus s) ≡ n)
        × (n < u64_mod)))
      × (((m : ℕ) × (parse_shutdown_timeout s ≡ ok m))
          ⊎ (parse_shutdown_timeout s ≡ err (bad_env_var s)))
unfolding parse_shutdown_timeout
parse_shutdown_timeout_iff s n =
    let (to, from) = ok_or-eq-ok_iff (parse_u64 s) (bad_env_var s) n in
    let (read, shown) = parse_u64_iff s n in
    ((λ e. read (to e), λ h. from (shown h)), ok_or_cases (parse_u64 s) (bad_env_var s))
