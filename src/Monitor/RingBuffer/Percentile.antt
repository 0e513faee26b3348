-- ===== src/Monitor/RingBuffer/Percentile.antt =====
-- What `p99_ms` reports of the window: rank bounds on both sides.
use edge_bootstrap.Prelude.{
  ℕ, suc, ◌+◌, ◌-◌, ◌*◌, ◌/◌, ◌≤◌, ◌<◌, ◌≡◌, refl, ◌≢◌, List, [], ◌∷◌, leb, length, count_if, arith,
  get_or, ap,
}
use edge_bootstrap.Monitor.Sort.{
  sort, sort-IsSorted, count_if-sort, length-sort, count_le-get_or, count_ge-get_or,
}
use edge_bootstrap.Monitor.RingBuffer.{RingBuffer, samples, p99_us, p99_index}

-- The value that the code picks from a list of samples that is not empty.
abbrev pub pick : List ℕ → ℕ
pick xs = get_or (sort xs) (p99_index (length xs)) 0

pub p99_us-pick : (r : RingBuffer) → p99_us r ≡ pick (samples r)
unfolding p99_us sort
p99_us-pick r = ground arith

index-lt : (xs : List ℕ) → 0 < length xs → p99_index (length xs) < length (sort xs)
index-lt xs h = omega (arith, length-sort xs)

pick_rank_low :
    (xs : List ℕ) → 0 < length xs → suc (p99_index (length xs)) ≤ count_if (λ y. leb y (pick xs)) xs
pick_rank_low xs h = omega (
  arith,
  count_le-get_or (sort xs) (p99_index (length xs)) (sort-IsSorted xs) (index-lt xs h),
  count_if-sort (λ y. leb y (pick xs)) xs,
)

pick_rank_high :
    (xs : List ℕ)
    → 0 < length xs
    → length xs ≤ p99_index (length xs) + count_if (λ y. leb (pick xs) y) xs
pick_rank_high xs h = omega (
  arith,
  count_ge-get_or (sort xs) (p99_index (length xs)) (sort-IsSorted xs) (index-lt xs h),
  count_if-sort (λ y. leb (pick xs) y) xs,
  length-sort xs,
)

length-pos : (xs : List ℕ) → xs ≢ [] → 0 < length xs
length-pos [] h = absurd (h refl)
length-pos (x ∷ xs) h = omega arith

-- Where the window of `r` has a sample above zero: of its `n` samples at least `n * 99 / 100`, and at
-- least one, are no larger than the percentile, and all but at most `n * 99 / 100 - 1`, or all if
-- this is below zero, are no smaller.
pub p99_us_rank :
    (r : RingBuffer)
    → samples r ≢ []
    → let n = length (samples r) in
      (n * 99 / 100 ≤ count_if (λ y. leb y (p99_us r)) (samples r))
      × (1 ≤ count_if (λ y. leb y (p99_us r)) (samples r))
      × (n ≤ n * 99 / 100 - 1 + count_if (λ y. leb (p99_us r) y) (samples r))
p99_us_rank r h =
    let pos = length-pos (samples r) h in
    rw (p99_us-pick r) (
      omega (arith, pick_rank_low (samples r) pos),
      omega (arith, pick_rank_low (samples r) pos),
      pick_rank_high (samples r) pos,
    )

-- With two up to a hundred samples, at least two samples are as large as the reported percentile: the
-- largest sample is reported only if it occurs twice.
pub p99_us_misses_largest :
    (r : RingBuffer)
    → 2 ≤ length (samples r)
    → length (samples r) ≤ 100
    → 2 ≤ count_if (λ y. leb (p99_us r) y) (samples r)
p99_us_misses_largest r l u =
    let full : samples r ≢ [] = λ e. omega (arith, ap (λ (xs : List ℕ). length xs) e) in
    omega (arith, (p99_us_rank r full).2)
