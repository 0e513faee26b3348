-- ===== src/Monitor/Floats.antt =====
-- The `f64` operations that the monitor uses, as a parameter: Rust's floats are not modelled.
use edge_bootstrap.Prelude.{ℕ, ◌-◌, ◌^◌, Bool, ltb}

abbrev pub u64_mod : ℕ
u64_mod = 2 ^ 64

-- An `i64` is a number below 2 ^ 64, read as negative from 2 ^ 63 on.
abbrev pub is_negative : ℕ → Bool
is_negative x = ltb (2 ^ 63 - 1) x

pub record Floats (F : Type 0) : Type 0 where
  pub of_u64 : ℕ → F
  pub of_i64 : ℕ → F
  pub div : F → F → F
  -- `as u64` truncates, and is 0 on a negative float
  pub to_u64 : F → ℕ
  pub lt : F → F → Bool
  pub half : F
