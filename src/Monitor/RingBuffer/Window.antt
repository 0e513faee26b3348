-- ===== src/Monitor/RingBuffer/Window.antt =====
-- The buffer holds the last samples: `push` refines a queue that is cut to the capacity.
use edge_bootstrap.Prelude.{
  ℕ, suc, zero, ◌+◌, ◌-◌, ◌%◌, ◌≤◌, ◌<◌, ◌≡◌, refl, ◌≢◌, List, [], ◌∷◌, length, get_elem?, set,
  replicate, length-set, length-replicate, get_elem?-set_self, get_elem?-set_ne, some, arith, ◌∙◌,
  ap,
}
use native.Mathlib.Nat.{mod-lt, mod-eq_of_lt, div-add-mod}
use edge_bootstrap.Monitor.RingBuffer.{RingBuffer, usize_mod, new, push}

-- `history` lists the samples pushed so far, the latest first.
pub record IsWindow (cap : ℕ) (history : List ℕ) (r : RingBuffer) : Type 0 where
  pub size : length r.buf ≡ cap
  pub head_counts : r.head ≡ length history
  pub recent :
      (i : ℕ)
      → i < cap
      → i < length history
      → get_elem? r.buf ((length history - 1 - i) % cap) ≡ get_elem? history i
  pub blank : (j : ℕ) → length history ≤ j → j < cap → get_elem? r.buf j ≡ some 0

-- Two of `cap` successive positions fall into different slots.
slots_differ : (cap h i : ℕ) → 0 < i → i < cap → i ≤ h → h % cap ≢ (h - i) % cap
slots_differ cap h i p q r e = grind (arith, div-add-mod h cap, div-add-mod (h - i) cap)

get_elem?-replicate : (n j : ℕ) → j < n → get_elem? (replicate {A = ℕ} n 0) j ≡ some 0
get_elem?-replicate zero j h = elim h [ ]
get_elem?-replicate (suc n) zero h = refl
get_elem?-replicate (suc n) (suc j) h = get_elem?-replicate n j (omega arith)

pub new-IsWindow : (cap : ℕ) → IsWindow cap [] (new cap)
unfolding new
new-IsWindow cap = record {
  size = length-replicate cap 0;
  head_counts = refl;
  recent = λ i p q. elim q [ ];
  blank = λ j p q. get_elem?-replicate cap j q;
}

-- The state after a push that does not panic.
abbrev pub pushed : RingBuffer → ℕ → RingBuffer
pushed r v = record { buf = set r.buf (r.head % length r.buf) v; head = (r.head + 1) % usize_mod }

pub push-pushed : (r : RingBuffer) (v : ℕ) → 0 < length r.buf → push r v ≡ some (pushed r v)
unfolding push
push-pushed r v h = ground arith

module _ (cap : ℕ) (history : List ℕ) (r : RingBuffer) (v : ℕ) (w : IsWindow cap history r) where
  pub slot_eq : r.head % length r.buf ≡ length history % cap
  slot_eq = rw (w.size, w.head_counts)

  slot_lt : 0 < cap → length history % cap < length r.buf
  slot_lt p = rw (w.size) (mod-lt _ p)

  recent_step :
      0 < cap
      → (i : ℕ) → i < cap
      → i < length (v ∷ history)
      → get_elem? (set r.buf (length history % cap) v) ((length (v ∷ history) - 1 - i) % cap)
        ≡ get_elem? (v ∷ history) i
  recent_step p zero q l =
      let same : length (v ∷ history) - 1 - 0 ≡ length history = omega arith in
      rw same (get_elem?-set_self r.buf (length history % cap) v (slot_lt p))
  recent_step p (suc i) q l =
      let shift : length (v ∷ history) - 1 - suc i ≡ length history - suc i = omega arith in
      let back : length history - 1 - i ≡ length history - suc i = omega arith in
      let apart = slots_differ cap (length history) (suc i) (omega arith) q (omega arith) in
      rw shift (
        get_elem?-set_ne r.buf (length history % cap) ((length history - suc i) % cap) v apart
        ∙ (rw (← back) (w.recent i (omega arith) (omega arith))))

  blank_step :
      0 < cap
      → (j : ℕ) → length (v ∷ history) ≤ j
      → j < cap
      → get_elem? (set r.buf (length history % cap) v) j ≡ some 0
  blank_step p j l q =
      let small : length history % cap ≡ length history = mod-eq_of_lt (omega arith) in
      let apart : length history % cap ≢ j = omega arith in
      get_elem?-set_ne r.buf (length history % cap) j v apart ∙ w.blank j (omega arith) q

-- On a window with room for at least one sample, and with fewer than 2 ^ 64 - 1 pushes so far, `push`
-- does not panic, and the new buffer is the window of the longer history.
pub push-IsWindow :
    (cap : ℕ) (history : List ℕ) (r : RingBuffer) (v : ℕ)
    → IsWindow cap history r
    → 0 < cap
    → length history + 1 < usize_mod
    → (s : RingBuffer) × (push r v ≡ some s) × IsWindow cap (v ∷ history) s
push-IsWindow cap history r v w p l = (
  pushed r v,
  push-pushed r v (omega (arith, w.size)),
  record {
    size = length-set r.buf _ v ∙ w.size;
    head_counts = ap (λ h. (h + 1) % usize_mod) w.head_counts ∙ mod-eq_of_lt l ∙ (omega arith);
    recent = rw (slot_eq cap history r v w) (recent_step cap history r v w p);
    blank = rw (slot_eq cap history r v w) (blank_step cap history r v w p);
  },
)
