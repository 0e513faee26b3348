-- ===== src/Config/Loader/Numbers.antt =====
-- `str::parse::<u64>` of the standard library, which reads the shutdown timeout.
use Prim.Native.Char.{code}
use edge_bootstrap.Prelude.{
  ℕ, ◌+◌, ◌-◌, ◌*◌, ◌<◌, ◌≤◌, String, true, false, Option, none, some, ltb, if◌then◌else◌, is_digit,
  is_empty_text, all_text, ◌==◌, ◌&&◌, not, ◌≡◌, ◌↔◌, arith,
}
use edge_bootstrap.Monitor.Floats.{u64_mod}

-- Digits after the number `acc`; `none` on another character or on overflow.
digits_from : ℕ → String → Option ℕ
digits_from acc String.[] = some acc
digits_from acc (String.◌∷◌ c s) =
    let n = acc * 10 + (code c - b'0') in
    let rest = digits_from n s in
    if is_digit (code c) then (if ltb n u64_mod then rest else none) else none

-- A leading plus sign is allowed before a digit.
unfoldable pub drop_plus : String → String
drop_plus String.[] = String.[]
drop_plus (String.◌∷◌ c s) = if (code c == b'+') && not (is_empty_text s) then s else String.◌∷◌ c s

unfoldable pub parse_u64 : String → Option ℕ
unfolding digits_from
parse_u64 s = if is_empty_text s then none else digits_from 0 (drop_plus s)

-- The number that a text of digits writes, without a bound.
pub value_from : ℕ → String → ℕ
value_from acc String.[] = acc
value_from acc (String.◌∷◌ c s) = value_from (acc * 10 + (code c - b'0')) s

value_from-grows : (acc : ℕ) (s : String) → acc ≤ value_from acc s
unfolding value_from
value_from-grows acc String.[] = omega arith
value_from-grows acc (String.◌∷◌ c s) =
    omega (arith, value_from-grows (acc * 10 + (code c - b'0')) s)

digits_from_iff :
    (acc : ℕ) (s : String) (n : ℕ)
    → acc < u64_mod
    → (digits_from acc s ≡ some n)
      ↔ ((all_text is_digit s ≡ true) × (value_from acc s ≡ n) × (n < u64_mod))
unfolding digits_from value_from
digits_from_iff acc String.[] n h = ground arith
digits_from_iff acc (String.◌∷◌ c s) n h =
    let next = acc * 10 + (code c - b'0') in
    ground (arith, digits_from_iff next s n, value_from-grows next s)

-- A text is read as a number exactly when it is not empty, holds only digits after at most one plus
-- sign that is not alone, and writes a number below 2 ^ 64; that number is the result.
pub parse_u64_iff :
    (s : String) (n : ℕ)
    → (parse_u64 s ≡ some n) ↔ (
        (is_empty_text s ≡ false)
        × (all_text is_digit (drop_plus s) ≡ true)
        × (value_from 0 (drop_plus s) ≡ n)
        × (n < u64_mod))
unfolding parse_u64
parse_u64_iff s n = ground (arith, digits_from_iff 0 (drop_plus s) n)
