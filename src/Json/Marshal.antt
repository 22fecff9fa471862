-- ===== src/Json/Marshal.antt =====
-- json.Marshal of a Go string: the quoted text with the escapes that encoding/json writes.
use cpa_plugin_token_saver.Common.{
  Bool, [], drop, if◌then◌else◌, leb, length, ltb, suc, take, zero, ℕ, ◌%◌, ◌&&◌, ◌++◌, ◌+◌, ◌-◌,
  ◌/◌, ◌==◌, ◌||◌, ◌∷◌,
}
use cpa_plugin_token_saver.Text.{Bytes, bytes_eq, codes}

abbrev between : ℕ → ℕ → ℕ → Bool
between lo hi c = leb lo c && leb c hi

-- The first two bytes of an encoding of three bytes, and of four.
abbrev is_three : ℕ → ℕ → Bool
is_three a b =
    (a == 0xe0 && between 0xa0 0xbf b)
    || (a == 0xed && between 0x80 0x9f b)
    || ((between 0xe1 0xec a || a == 0xee || a == 0xef) && between 0x80 0xbf b)

abbrev is_four : ℕ → ℕ → Bool
is_four a b =
    (a == 0xf0 && between 0x90 0xbf b)
    || (between 0xf1 0xf3 a && between 0x80 0xbf b)
    || (a == 0xf4 && between 0x80 0x8f b)

-- How many bytes the UTF-8 encoding of one code point at the front takes, 0 where it is no valid one.
unfoldable pub utf8_width : Bytes → ℕ
utf8_width (a ∷ b ∷ c ∷ d ∷ s) =
    if ltb a 0x80
    then 1
    else (if between 0xc2 0xdf a && between 0x80 0xbf b
        then 2
        else (if is_three a b && between 0x80 0xbf c
            then 3
            else (if is_four a b && between 0x80 0xbf c && between 0x80 0xbf d then 4 else 0)))
utf8_width (a ∷ b ∷ c ∷ []) =
    if ltb a 0x80
    then 1
    else (if between 0xc2 0xdf a && between 0x80 0xbf b
        then 2
        else (if is_three a b && between 0x80 0xbf c then 3 else 0))
utf8_width (a ∷ b ∷ []) =
    if ltb a 0x80 then 1 else (if between 0xc2 0xdf a && between 0x80 0xbf b then 2 else 0)
utf8_width (a ∷ []) = if ltb a 0x80 then 1 else 0
utf8_width [] = 0

unfoldable pub hex_digit : ℕ → ℕ
hex_digit n = if ltb n 10 then 48 + n else 87 + n

-- One ASCII byte.
unfoldable pub escape_ascii : ℕ → Bytes
unfolding hex_digit
escape_ascii a =
    if a == 34 || a == 92
    then 92 ∷ a ∷ []
    else (if a == 8
        then codes "\\b"
        else (if a == 9
            then codes "\\t"
            else (if a == 10
                then codes "\\n"
                else (if a == 12
                    then codes "\\f"
                    else (if a == 13
                        then codes "\\r"
                        else (if ltb a 32 || a == 38 || a == 60 || a == 62
                            then codes "\\u00" ++ (hex_digit (a / 16) ∷ hex_digit (a % 16) ∷ [])
                            else a ∷ []))))))

-- The code point at the front of a text, whose width is given.
unfoldable pub escape_unit : ℕ → ℕ → Bytes → Bytes
unfolding escape_ascii
escape_unit zero a s = codes "\\ufffd"
escape_unit (suc zero) a s = escape_ascii a
escape_unit (suc (suc n)) a s =
    if bytes_eq (a ∷ take (suc n) s) (0xe2 ∷ 0x80 ∷ 0xa8 ∷ [])
    then codes "\\u2028"
    else (if bytes_eq (a ∷ take (suc n) s) (0xe2 ∷ 0x80 ∷ 0xa9 ∷ [])
        then codes "\\u2029"
        else a ∷ take (suc n) s)

-- Every round takes a byte, so the length is enough fuel.
unfoldable pub escape_from : ℕ → Bytes → Bytes
unfolding utf8_width escape_unit
escape_from zero s = []
escape_from (suc fuel) [] = []
escape_from (suc fuel) (a ∷ s) =
    let width = utf8_width (a ∷ s) in escape_unit width a s ++ escape_from fuel (drop (width - 1) s)

-- The error of json.Marshal is nil for every string.
unfoldable pub marshal_string : Bytes → Bytes
unfolding escape_from
marshal_string s = 34 ∷ (escape_from (length s) s ++ 34 ∷ [])
