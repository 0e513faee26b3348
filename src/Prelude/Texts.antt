-- ===== src/Prelude/Texts.antt =====
-- Text, over the native strings.
use Prim.Native.Nat.{ℕ}
use Prim.Native.Char.{Char, code}
use Prim.Native.String.{String}
use mathlib.Core.Bool.{Bool, true, false, ◌&&◌, ◌||◌}
use mathlib.Core.List.{List}
use edge_bootstrap.Prelude.Tests.{◌==◌, leb, if◌then◌else◌}

abbrev pub is_empty_text : String → Bool
is_empty_text String.[] = true
is_empty_text (String.◌∷◌ c s) = false

-- `s.chars().all(p)`
abbrev pub all_text : (ℕ → Bool) → String → Bool
all_text p String.[] = true
all_text p (String.◌∷◌ c s) = p (code c) && all_text p s

-- `s.split(sep).next()`: what stands before the first `sep`, or all of the text.
abbrev pub before : ℕ → String → String
before sep String.[] = String.[]
before sep (String.◌∷◌ c s) = if code c == sep then String.[] else String.◌∷◌ c (before sep s)

abbrev pub cons_trimmed : ℕ → Char → String → String
cons_trimmed sep c s = if (code c == sep) && is_empty_text s then String.[] else String.◌∷◌ c s

-- `s.trim_end_matches(sep)`
abbrev pub trim_end : ℕ → String → String
trim_end sep String.[] = String.[]
trim_end sep (String.◌∷◌ c s) = cons_trimmed sep c (trim_end sep s)

abbrev pub cons_first : Char → List String → List String
cons_first c List.[] = List.◌∷◌ (String.◌∷◌ c String.[]) List.[]
cons_first c (List.◌∷◌ s ss) = List.◌∷◌ (String.◌∷◌ c s) ss

-- `s.split(sep)`, collected
abbrev pub split : ℕ → String → List String
split sep String.[] = List.◌∷◌ String.[] List.[]
split sep (String.◌∷◌ c s) =
    let rest = split sep s in if code c == sep then List.◌∷◌ String.[] rest else cons_first c rest

abbrev pub is_digit : ℕ → Bool
is_digit c = leb b'0' c && leb c b'9'

-- `char::is_ascii_alphanumeric`
abbrev pub is_alphanumeric : ℕ → Bool
is_alphanumeric c = is_digit c || (leb b'a' c && leb c b'z') || (leb b'A' c && leb c b'Z')

-- `char::is_whitespace`
abbrev pub is_whitespace : ℕ → Bool
is_whitespace c =
    (leb 9 c && leb c 13)
    || c == 32
    || c == 0x85
    || c == 0xa0
    || c == 0x1680
    || (leb 0x2000 c && leb c 0x200a)
    || c == 0x2028
    || c == 0x2029
    || c == 0x202f
    || c == 0x205f
    || c == 0x3000

-- `s.trim().is_empty()`
abbrev pub is_blank : String → Bool
is_blank s = all_text is_whitespace s

-- `s.starts_with(prefix)`
abbrev pub starts_with : String → String → Bool
starts_with s String.[] = true
starts_with String.[] (String.◌∷◌ d t) = false
starts_with (String.◌∷◌ c s) (String.◌∷◌ d t) = (code c == code d) && starts_with s t
