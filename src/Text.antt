-- ===== src/Text.antt =====
-- Go strings and byte slices as lists of bytes, with the functions of the packages strings, bytes
-- and strconv that the program calls.
use cpa_plugin_token_saver.Common.{
  Bool, List, Option, [], arith, drop, false, if◌then◌else◌, leb, length, ltb, none, refl, reverse,
  some, suc, true, zero, ℕ, ◌%◌, ◌&&◌, ◌++◌, ◌+◌, ◌/◌, ◌==◌, ◌||◌, ◌↔◌, ◌∷◌, ◌≡◌,
}
pub mod Lines
use Prim.Native.String.{String}
use Prim.Native.Char.{code}

abbrev pub Bytes : Type 0
Bytes = List ℕ

-- The bytes of an ASCII literal.
abbrev pub codes : String → Bytes
codes String.[] = []
codes (String.◌∷◌ c s) = code c ∷ codes s

-- bytes.Equal, and == on strings.
unfoldable pub bytes_eq : Bytes → Bytes → Bool
bytes_eq [] [] = true
bytes_eq [] (y ∷ ys) = false
bytes_eq (x ∷ xs) [] = false
bytes_eq (x ∷ xs) (y ∷ ys) = x == y && bytes_eq xs ys

pub bytes_eq_sound : (xs ys : Bytes) → bytes_eq xs ys ≡ true → xs ≡ ys
unfolding bytes_eq
bytes_eq_sound [] [] h = refl
bytes_eq_sound [] (y ∷ ys) h = ground arith
bytes_eq_sound (x ∷ xs) [] h = ground arith
bytes_eq_sound (x ∷ xs) (y ∷ ys) h = ground (arith, bytes_eq_sound xs ys)

pub bytes_eq_refl : (xs : Bytes) → bytes_eq xs xs ≡ true
unfolding bytes_eq
bytes_eq_refl [] = refl
bytes_eq_refl (x ∷ xs) = ground (arith, bytes_eq_refl xs)

pub bytes_eq_iff : (xs ys : Bytes) → (bytes_eq xs ys ≡ true) ↔ (xs ≡ ys)
bytes_eq_iff xs ys = (bytes_eq_sound xs ys, λ e. ground (arith, bytes_eq_refl xs))

-- strings.HasPrefix, the text first.
unfoldable pub has_prefix : Bytes → Bytes → Bool
has_prefix s [] = true
has_prefix [] (p ∷ ps) = false
has_prefix (c ∷ s) (p ∷ ps) = c == p && has_prefix s ps

-- strings.TrimPrefix.
unfoldable pub trim_prefix : Bytes → Bytes → Bytes
unfolding has_prefix
trim_prefix s p = if has_prefix s p then drop (length p) s else s

-- strings.Contains.
unfoldable pub contains : Bytes → Bytes → Bool
unfolding has_prefix
contains [] p = has_prefix [] p
contains (c ∷ s) p = has_prefix (c ∷ s) p || contains s p

-- strings.IndexByte, with none for -1.
unfoldable pub index_byte : Bytes → ℕ → Option ℕ
index_byte [] b = none
index_byte (c ∷ s) b =
    if c == b then some 0 else elim (index_byte s b) [ none ↦ none | some i ↦ some (suc i) ]

-- strings.LastIndexByte, and strings.LastIndex of a one-byte text.
unfoldable pub last_index_byte : Bytes → ℕ → Option ℕ
last_index_byte [] b = none
last_index_byte (c ∷ s) b = elim (last_index_byte s b) [
  | none ↦ if c == b then some 0 else none
  | some i ↦ some (suc i)
]

abbrev between : ℕ → ℕ → ℕ → Bool
between lo hi c = leb lo c && leb c hi

-- How many bytes the white space at the front takes: the ASCII spaces, U+0085, U+00A0, U+1680,
-- U+2000 to U+200A, U+2028, U+2029, U+202F, U+205F and U+3000, as unicode.IsSpace has them.
unfoldable pub space_width : Bytes → ℕ
space_width [] = 0
space_width (a ∷ []) = if between 9 13 a || a == 32 then 1 else 0
space_width (a ∷ b ∷ []) =
    if between 9 13 a || a == 32
    then 1
    else (if a == 0xc2 && (b == 0x85 || b == 0xa0) then 2 else 0)
space_width (a ∷ b ∷ c ∷ s) =
    if between 9 13 a || a == 32
    then 1
    else (if a == 0xc2 && (b == 0x85 || b == 0xa0)
        then 2
        else (if (a == 0xe1 && b == 0x9a && c == 0x80)
              || (a == 0xe2
                  && b == 0x80
                  && (between 0x80 0x8a c || c == 0xa8 || c == 0xa9 || c == 0xaf))
              || (a == 0xe2 && b == 0x81 && c == 0x9f)
              || (a == 0xe3 && b == 0x80 && c == 0x80)
            then 3
            else 0))

-- The same at the back, over the reversed text.
unfoldable pub space_width_back : Bytes → ℕ
unfolding space_width
space_width_back [] = 0
space_width_back (a ∷ []) = space_width (a ∷ [])
space_width_back (a ∷ b ∷ []) = if between 9 13 a || a == 32 then 1 else space_width (b ∷ a ∷ [])
space_width_back (a ∷ b ∷ c ∷ s) =
    if between 9 13 a || a == 32
    then 1
    else (if space_width (b ∷ a ∷ []) == 2
        then 2
        else (if space_width (c ∷ b ∷ a ∷ []) == 3 then 3 else 0))

-- Drops what `width` measures at the front until it measures nothing. Every round takes a byte, so
-- the length is enough fuel.
unfoldable pub trim_by : (Bytes → ℕ) → ℕ → Bytes → Bytes
trim_by width zero s = s
trim_by width (suc fuel) s = elim (width s) [
  | zero ↦ s
  | suc n ↦ trim_by width fuel (drop (suc n) s)
]

-- strings.TrimSpace and bytes.TrimSpace.
unfoldable pub trim_space : Bytes → Bytes
unfolding trim_by space_width space_width_back
trim_space s =
    let left = trim_by space_width (length s) s in
    reverse (trim_by space_width_back (length left) (reverse left))

-- strings.TrimRight by a set of bytes, over the reversed text, and by the set itself.
unfoldable pub trim_front : (ℕ → Bool) → Bytes → Bytes
trim_front cut [] = []
trim_front cut (c ∷ s) = let rest = trim_front cut s in if cut c then rest else c ∷ s

unfoldable pub trim_right : (ℕ → Bool) → Bytes → Bytes
unfolding trim_front
trim_right cut s = reverse (trim_front cut (reverse s))

-- The text is blank: nothing is left of it by strings.TrimSpace.
unfoldable pub is_blank : Bytes → Bool
unfolding trim_space bytes_eq
is_blank s = bytes_eq (trim_space s) []

-- Decimal digits, as fmt prints %d of a number that is not negative.
unfoldable pub decimal_from : ℕ → ℕ → Bytes → Bytes
decimal_from zero n acc = acc
decimal_from (suc fuel) n acc =
    let acc' = (48 + n % 10) ∷ acc in
    let rest = decimal_from fuel (n / 10) acc' in if n / 10 == 0 then acc' else rest

unfoldable pub decimal : ℕ → Bytes
unfolding decimal_from
decimal n = decimal_from (suc n) n []

-- strings.Index, with none for -1.
unfoldable pub index_of : Bytes → Bytes → Option ℕ
unfolding has_prefix
index_of [] p = if has_prefix [] p then some 0 else none
index_of (c ∷ s) p =
    let rest = index_of s p in
    if has_prefix (c ∷ s) p then some 0 else elim rest [ none ↦ none | some i ↦ some (suc i) ]

-- The UTF-8 encoding of a code point.
abbrev utf8_unit : ℕ → Bytes
utf8_unit c =
    if ltb c 0x80
    then c ∷ []
    else (if ltb c 0x800
        then (0xc0 + c / 64) ∷ (0x80 + c % 64) ∷ []
        else (if ltb c 0x10000
            then (0xe0 + c / 4096) ∷ (0x80 + c / 64 % 64) ∷ (0x80 + c % 64) ∷ []
            else (0xf0 + c / 262144)
              ∷ (0x80 + c / 4096 % 64)
              ∷ (0x80 + c / 64 % 64)
              ∷ (0x80 + c % 64)
              ∷ []))

-- The bytes of a literal.
abbrev pub utf8 : String → Bytes
utf8 String.[] = []
utf8 (String.◌∷◌ c s) = utf8_unit (code c) ++ utf8 s
