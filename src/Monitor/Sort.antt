-- ===== src/Monitor/Sort.antt =====
-- The standard library's `sort_unstable` on numbers, as an insertion sort: the ordered arrangement
-- of numbers is unique, so every sort gives this list.
pub mod Unique
use edge_bootstrap.Prelude.{
  ℕ, suc, zero, ◌+◌, ◌≤◌, ◌<◌, ◌≡◌, refl, ap, List, [], ◌∷◌, Bool, leb, leb→le, length, count_if,
  All, get_or, Bool-cases, inl, inr, arith, if◌then◌else◌, ◌∙◌, some, get_elem?,
}

insert : ℕ → List ℕ → List ℕ
insert a [] = a ∷ []
insert a (x ∷ xs) = if leb a x then a ∷ x ∷ xs else x ∷ insert a xs

unfoldable pub sort : List ℕ → List ℕ
unfolding insert
sort [] = []
sort (x ∷ xs) = insert x (sort xs)

abbrev pub IsSorted : List ℕ → Type 0
IsSorted [] = Unit
IsSorted (x ∷ xs) = All (λ y. x ≤ y) xs × IsSorted xs

All-insert : (P : ℕ → Type 0) (a : ℕ) (xs : List ℕ) → P a → All P xs → All P (insert a xs)
unfolding insert
All-insert P a [] p h = (p, tt)
All-insert P a (x ∷ xs) p h = elim (Bool-cases (leb a x)) [
  | inl e ↦ rw e (p, h)
  | inr e ↦ rw e (h.0, All-insert P a xs p h.1)
]

All-le_trans : (a b : ℕ) (xs : List ℕ) → a ≤ b → All (λ y. b ≤ y) xs → All (λ y. a ≤ y) xs
All-le_trans a b [] l h = tt
All-le_trans a b (x ∷ xs) l h = (omega arith, All-le_trans a b xs l h.1)

insert-IsSorted : (a : ℕ) (xs : List ℕ) → IsSorted xs → IsSorted (insert a xs)
unfolding insert
insert-IsSorted a [] h = (tt, tt)
insert-IsSorted a (x ∷ xs) h = elim (Bool-cases (leb a x)) [
  | inl e ↦ rw e ((leb→le a x e, All-le_trans a x xs (leb→le a x e) h.0), h)
  | inr e ↦ rw e (All-insert (λ y. x ≤ y) a xs (ground arith) h.0, insert-IsSorted a xs h.1)
]

pub sort-IsSorted : (xs : List ℕ) → IsSorted (sort xs)
unfolding sort
sort-IsSorted [] = tt
sort-IsSorted (x ∷ xs) = insert-IsSorted x (sort xs) (sort-IsSorted xs)

-- Sorting keeps how many items pass any test.
count_if-insert :
    (p : ℕ → Bool) (a : ℕ) (xs : List ℕ) → count_if p (insert a xs) ≡ count_if p (a ∷ xs)
unfolding insert
count_if-insert p a [] = refl
count_if-insert p a (x ∷ xs) = ground (arith, count_if-insert p a xs)

pub count_if-sort : (p : ℕ → Bool) (xs : List ℕ) → count_if p (sort xs) ≡ count_if p xs
unfolding sort
count_if-sort p [] = refl
count_if-sort p (x ∷ xs) = count_if-insert p x (sort xs) ∙ ground (arith, count_if-sort p xs)

length-insert : (a : ℕ) (xs : List ℕ) → length (insert a xs) ≡ suc (length xs)
unfolding insert
length-insert a [] = refl
length-insert a (x ∷ xs) = ground (arith, length-insert a xs)

pub length-sort : (xs : List ℕ) → length (sort xs) ≡ length xs
unfolding sort
length-sort [] = refl
length-sort (x ∷ xs) = length-insert x (sort xs) ∙ ap suc (length-sort xs)

pub get_or-below : (xs : List ℕ) (i b : ℕ) → All (λ y. b ≤ y) xs → i < length xs → b ≤ get_or xs i 0
get_or-below [] i b a h = elim h [ ]
get_or-below (x ∷ xs) zero b a h = a.0
get_or-below (x ∷ xs) (suc i) b a h = get_or-below xs i b a.1 (omega arith)

-- In a sorted list the item at `i` is at least as large as the `i + 1` items up to it, and at most as
-- large as the items from it on.
pub count_le-get_or :
    (xs : List ℕ) (i : ℕ)
    → IsSorted xs
    → i < length xs
    → suc i ≤ count_if (λ y. leb y (get_or xs i 0)) xs
count_le-get_or [] i s h = elim h [ ]
count_le-get_or (x ∷ xs) zero s h = ground arith
count_le-get_or (x ∷ xs) (suc i) s h =
    ground (arith, count_le-get_or xs i s.1, get_or-below xs i x s.0)

count_if_full : (xs : List ℕ) (b : ℕ) → All (λ y. b ≤ y) xs → count_if (λ y. leb b y) xs ≡ length xs
count_if_full [] b a = refl
count_if_full (x ∷ xs) b a = ground (arith, count_if_full xs b)

pub count_ge-get_or :
    (xs : List ℕ) (i : ℕ)
    → IsSorted xs
    → i < length xs
    → length xs ≤ i + count_if (λ y. leb (get_or xs i 0) y) xs
count_ge-get_or [] i s h = elim h [ ]
count_ge-get_or (x ∷ xs) zero s h = ground (arith, count_if_full xs x s.0)
count_ge-get_or (x ∷ xs) (suc i) s h = ground (arith, count_ge-get_or xs i s.1)

pub get_or-get_elem? : (xs : List ℕ) (i : ℕ) → i < length xs → get_elem? xs i ≡ some (get_or xs i 0)
get_or-get_elem? [] i h = elim h [ ]
get_or-get_elem? (x ∷ xs) zero h = refl
get_or-get_elem? (x ∷ xs) (suc i) h = get_or-get_elem? xs i (omega arith)
