-- ===== src/Monitor/RingBuffer.antt =====
-- scm/main/port/monitor/src/types/ring_buffer.rs: the latency window.
-- A `usize` or `u64` is a number below 2 ^ 64. A panic is `none`.
pub mod Percentile
pub mod Window
pub mod Recent
use edge_bootstrap.Prelude.{
  ℕ, ◌+◌, ◌-◌, ◌*◌, ◌/◌, ◌%◌, ◌^◌, List, [], ◌∷◌, Option, none, some, ltb, ◌==◌, if◌then◌else◌,
  length, set, replicate, keep_if, get_or, is_empty,
}
use edge_bootstrap.Monitor.Sort.{sort}
use edge_bootstrap.Monitor.Floats.{Floats}

pub record RingBuffer : Type 0 where
  pub buf : List ℕ
  pub head : ℕ

abbrev pub usize_mod : ℕ
usize_mod = 2 ^ 64

unfoldable pub new : ℕ → RingBuffer
new capacity = record { buf = replicate capacity 0; head = 0 }

-- `self.head % cap` panics at `cap == 0`.
unfoldable pub push : RingBuffer → ℕ → Option RingBuffer
push r val_us =
    let cap = length r.buf in
    if cap == 0
    then none
    else some (record { buf = set r.buf (r.head % cap) val_us; head = (r.head + 1) % usize_mod })

unfoldable pub samples : RingBuffer → List ℕ
samples r = keep_if (λ v. ltb 0 v) r.buf

-- `(samples.len() * 99 / 100).saturating_sub(1)`
abbrev pub p99_index : ℕ → ℕ
p99_index n = n * 99 / 100 - 1

-- The percentile in microseconds, which `p99_ms` divides by 1000.0.
unfoldable pub p99_us : RingBuffer → ℕ
unfolding samples
p99_us r = elim (samples r) [
  | [] ↦ 0
  | x ∷ xs ↦ get_or (sort (x ∷ xs)) (p99_index (length (x ∷ xs))) 0
]

-- `samples[idx] as f64 / 1_000.0`
unfoldable pub p99_ms : {F : Type 0} → Floats F → RingBuffer → F
unfolding samples p99_us
p99_ms fl r =
    if is_empty (samples r) then fl.of_u64 0 else fl.div (fl.of_u64 (p99_us r)) (fl.of_u64 1000)
