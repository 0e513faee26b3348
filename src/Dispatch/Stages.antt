-- ===== src/Dispatch/Stages.antt =====
-- How far the calls of a shared job are, by the number of the call.
use edge_bootstrap.Prelude.{ℕ, ◌==◌, ◌≡◌, arith, if◌then◌else◌}

abbrev pub set_stage : {A : Type 0} → ℕ → A → (ℕ → A) → ℕ → A
set_stage i s stages j = if j == i then s else stages j

pub set_stage-own : {A : Type 0} (i : ℕ) (s : A) (stages : ℕ → A) → set_stage i s stages i ≡ s
set_stage-own i s stages = ground arith
