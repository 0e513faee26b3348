-- ===== src/Monitor/Sort/Unique.antt =====
-- Lists that hold the same numbers, as often, are the same once they are sorted.
use edge_bootstrap.Prelude.{
  ℕ, suc, ◌≤◌, ◌<◌, ◌≡◌, refl, sym, ap, List, [], ◌∷◌, Bool, true, ◌&&◌, ◌==◌, length, count_if,
  count_if-cons, keep_if, All, arith, ◌∙◌,
}
use edge_bootstrap.Monitor.Sort.{sort, IsSorted, sort-IsSorted, count_if-sort}

abbrev pub SameItems : List ℕ → List ℕ → Type 0
SameItems xs ys = (p : ℕ → Bool) → count_if p xs ≡ count_if p ys

length-count_if : (xs : List ℕ) → count_if (λ x. true) xs ≡ length xs
length-count_if [] = refl
length-count_if (x ∷ xs) = ap suc (length-count_if xs)

pub SameItems-length : (xs ys : List ℕ) → SameItems xs ys → length xs ≡ length ys
SameItems-length xs ys same = sym (length-count_if xs) ∙ same (λ x. true) ∙ length-count_if ys

count_if-keep_if :
    (p q : ℕ → Bool) (xs : List ℕ) → count_if p (keep_if q xs) ≡ count_if (λ x. q x && p x) xs
count_if-keep_if p q [] = refl
count_if-keep_if p q (x ∷ xs) = ground (arith, count_if-keep_if p q xs)

pub SameItems-keep_if :
    (q : ℕ → Bool) (xs ys : List ℕ) → SameItems xs ys → SameItems (keep_if q xs) (keep_if q ys)
SameItems-keep_if q xs ys same p =
    count_if-keep_if p q xs ∙ same (λ x. q x && p x) ∙ sym (count_if-keep_if p q ys)

-- A number that occurs is no smaller than the first of a sorted list.
occurs_above : (a b : ℕ) (xs : List ℕ) → All (λ y. b ≤ y) xs → 0 < count_if (λ y. y == a) xs → b ≤ a
occurs_above a b [] low h = elim h [ ]
occurs_above a b (x ∷ xs) low h = ground (arith, occurs_above a b xs low.1)

first_le : (x y : ℕ) (xs ys : List ℕ) → IsSorted (y ∷ ys) → SameItems (x ∷ xs) (y ∷ ys) → y ≤ x
first_le x y xs ys s same =
    occurs_above x y (y ∷ ys) (omega arith, s.0) (ground (arith, same (λ z. z == x)))

sorted_unique : (xs ys : List ℕ) → IsSorted xs → IsSorted ys → SameItems xs ys → xs ≡ ys
sorted_unique [] [] s t same = refl
sorted_unique [] (y ∷ ys) s t same = absurd (omega (arith, SameItems-length [] (y ∷ ys) same))
sorted_unique (x ∷ xs) [] s t same = absurd (omega (arith, SameItems-length (x ∷ xs) [] same))
sorted_unique (x ∷ xs) (y ∷ ys) s t same =
    let first : x ≡ y =
      omega (arith, first_le x y xs ys t same, first_le y x ys xs s (λ p. sym (same p))) in
    let rest : SameItems xs ys = λ p. omega (
      arith,
      same p,
      count_if-cons p x xs,
      count_if-cons p y ys,
      ap (λ z. count_if p (z ∷ [])) first,
    ) in
    cc (first, sorted_unique xs ys s.1 t.1 rest)

pub sort_unique : (xs ys : List ℕ) → SameItems xs ys → sort xs ≡ sort ys
sort_unique xs ys same =
    sorted_unique (sort xs) (sort ys) (sort-IsSorted xs) (sort-IsSorted ys)
      (λ p. count_if-sort p xs ∙ same p ∙ sym (count_if-sort p ys))
