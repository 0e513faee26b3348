-- ===== src/Monitor/RingBuffer/Recent.antt =====
-- The percentile is that of the last samples, wherever they lie in the buffer.
use edge_bootstrap.Prelude.{
  ℕ, suc, zero, ◌+◌, ◌-◌, ◌%◌, ◌≤◌, ◌<◌, ◌≡◌, refl, sym, ap, List, [], ◌∷◌, Option, none, some,
  Bool, length, get_elem?, get_or, set, replicate, count_if, count_if-cons, keep_if, ltb, arith,
  ◌∙◌, inl, inr, ◌⊎◌,
}
use mathlib.Core.Option.{some-injective}
use native.Mathlib.Nat.{mod-eq_of_lt, mod-eq-sub-mod}
use edge_bootstrap.Monitor.Sort.Unique.{SameItems, SameItems-length, SameItems-keep_if, sort_unique}
use edge_bootstrap.Monitor.Sort.{get_or-get_elem?}
use edge_bootstrap.Monitor.RingBuffer.{RingBuffer, usize_mod, new, push, samples, p99_us}
use edge_bootstrap.Monitor.RingBuffer.Percentile.{pick, p99_us-pick}
use edge_bootstrap.Monitor.RingBuffer.Window.{
  IsWindow, new-IsWindow, slot_eq, pushed, push-pushed, push-IsWindow,
}

abbrev pub take : ℕ → List ℕ → List ℕ
take zero xs = []
take (suc n) [] = []
take (suc n) (x ∷ xs) = x ∷ take n xs

-- The last `n` samples of a history, with 0 for those that are missing.
abbrev window : ℕ → List ℕ → List ℕ
window zero history = []
window (suc n) [] = 0 ∷ window n []
window (suc n) (v ∷ history) = v ∷ window n history

window-nil : (n : ℕ) → replicate n 0 ≡ window n []
window-nil zero = refl
window-nil (suc n) = ap (λ xs. 0 ∷ xs) (window-nil n)

blank-window : (n : ℕ) → keep_if (λ v. ltb 0 v) (window n []) ≡ []
blank-window zero = refl
blank-window (suc n) = ground (arith, blank-window n)

keep_if-window :
    (n : ℕ) (history : List ℕ)
    → keep_if (λ v. ltb 0 v) (window n history) ≡ keep_if (λ v. ltb 0 v) (take n history)
keep_if-window zero history = refl
keep_if-window (suc n) [] = ground (arith, blank-window n)
keep_if-window (suc n) (v ∷ history) = ground (arith, keep_if-window n history)

count_if-window :
    (p : ℕ → Bool) (n : ℕ) (history : List ℕ)
    → count_if p (window (suc n) history)
      ≡ count_if p (window n history) + count_if p (get_or history n 0 ∷ [])
count_if-window p zero [] = omega arith
count_if-window p zero (v ∷ history) = omega arith
count_if-window p (suc n) [] = ground (arith, count_if-window p n [])
count_if-window p (suc n) (v ∷ history) = ground (arith, count_if-window p n history)

count_if-set :
    (p : ℕ → Bool) (xs : List ℕ) (k v old : ℕ)
    → get_elem? xs k ≡ some old
    → count_if p (set xs k v) + count_if p (old ∷ []) ≡ count_if p xs + count_if p (v ∷ [])
count_if-set p [] k v old e = cc
count_if-set p (x ∷ xs) zero v old e = ground arith
count_if-set p (x ∷ xs) (suc k) v old e = ground (arith, count_if-set p xs k v old e)

get_or-beyond : (xs : List ℕ) (i : ℕ) → length xs ≤ i → get_or xs i 0 ≡ 0
get_or-beyond [] i h = refl
get_or-beyond (x ∷ xs) zero h = omega arith
get_or-beyond (x ∷ xs) (suc i) h = get_or-beyond xs i (omega arith)

le_or_lt : (a b : ℕ) → (a ≤ b) ⊎ (b < a)
le_or_lt zero b = inl (omega arith)
le_or_lt (suc a) zero = inr (omega arith)
le_or_lt (suc a) (suc b) = elim (le_or_lt a b) [
  | inl h ↦ inl (omega arith)
  | inr h ↦ inr (omega arith)
]

module _ (n : ℕ) (history : List ℕ) (r : RingBuffer) (w : IsWindow (suc n) history r) where
  -- What a push replaces: the oldest sample of a full window, or a 0.
  slot_old : get_elem? r.buf (length history % suc n) ≡ some (get_or history n 0)
  slot_old = elim (le_or_lt (length history) n) [
    | inl few ↦
        let at : length history % suc n ≡ length history = mod-eq_of_lt (omega arith) in
        rw (at, get_or-beyond history n few) (w.blank (length history) (omega arith) (omega arith))
    | inr full ↦
        let at : (length history - 1 - n) % suc n ≡ length history % suc n =
          ap (λ (k : ℕ). k % suc n) (omega arith) ∙ sym (mod-eq-sub-mod full) in
        rw (← at) (w.recent n (omega arith) full ∙ get_or-get_elem? history n full)
  ]

  push-SameItems :
      (v : ℕ)
      → SameItems r.buf (window (suc n) history)
      → SameItems (pushed r v).buf (window (suc n) (v ∷ history))
  push-SameItems v same p =
      let slot = slot_eq (suc n) history r v w in
      let swapped =
        count_if-set p r.buf (r.head % length r.buf) v (get_or history n 0) (rw slot slot_old) in
      omega
        (arith, swapped, same p, count_if-window p n history, count_if-cons p v (window n history))

pick-SameItems : (xs ys : List ℕ) → SameItems xs ys → pick xs ≡ pick ys
pick-SameItems xs ys same = rw (sort_unique xs ys same, SameItems-length xs ys same)

-- The pushes of a history, the latest first, on a new buffer.
abbrev pub filled : ℕ → List ℕ → Option RingBuffer
filled cap [] = some (new cap)
filled cap (v ∷ history) = elim (filled cap history) [ none ↦ none | some r ↦ push r v ]

record Holds (cap : ℕ) (history : List ℕ) (r : RingBuffer) : Type 0 where
  is_filled : filled cap history ≡ some r
  window_of : IsWindow cap history r
  same : SameItems r.buf (window cap history)

filled-Holds :
    (n : ℕ) (history : List ℕ)
    → length history < usize_mod
    → (r : RingBuffer) × Holds (suc n) history r
unfolding new
filled-Holds n [] l = (
  new (suc n),
  record {
    is_filled = refl;
    window_of = new-IsWindow (suc n);
    same = λ p. ap (count_if p) (window-nil (suc n));
  },
)
filled-Holds n (v ∷ history) l =
    let (r, before) = filled-Holds n history (omega arith) in
    let w = before.window_of in
    let (s, pushes, w') = push-IsWindow (suc n) history r v w (omega arith) (omega arith) in
    let e : push r v ≡ some (pushed r v) = push-pushed r v (omega (arith, w.size)) in
    let here = some-injective s (pushed r v) (sym pushes ∙ e) in
    (
      pushed r v,
      record {
        is_filled = rw (before.is_filled) e;
        window_of = rw here at w';
        same = push-SameItems n history r w v before.same;
      },
    )

-- On a new buffer with room, fewer than 2 ^ 64 pushes do not panic, and the percentile that is then
-- reported is the one that the code picks from the last `cap` of the pushed samples, those above
-- zero: where they lie in the buffer, and what was pushed before them, makes no difference.
pub p99_us_recent :
    (cap : ℕ) (history : List ℕ)
    → 0 < cap
    → length history < usize_mod
    → (r : RingBuffer) × (filled cap history ≡ some r)
      × (p99_us r ≡ pick (keep_if (λ v. ltb 0 v) (take cap history)))
unfolding samples
p99_us_recent zero history room few = absurd (omega arith)
p99_us_recent (suc n) history room few =
    let (r, holds) = filled-Holds n history few in
    let kept = SameItems-keep_if (λ v. ltb 0 v) r.buf (window (suc n) history) holds.same in
    (
      r,
      holds.is_filled,
      p99_us-pick r
          ∙ pick-SameItems (samples r) (keep_if (λ v. ltb 0 v) (window (suc n) history)) kept
          ∙ ap pick (keep_if-window (suc n) history),
    )
