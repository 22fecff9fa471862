-- ===== src/Json/Bounds.antt =====
-- How long the text of json.Marshal is.
use cpa_plugin_token_saver.Common.{
  Bool-cases, [], ap, arith, drop, inl, inr, length, length-append, length-drop, length-take, ltb,
  suc, take, zero, ℕ, ◌*◌, ◌+◌, ◌-◌, ◌==◌, ◌||◌, ◌∷◌, ◌≡◌, ◌≤◌,
}
use cpa_plugin_token_saver.Text.{Bytes, bytes_eq, bytes_eq_sound}
use cpa_plugin_token_saver.Json.Marshal.{
  escape_ascii, escape_from, escape_unit, marshal_string, utf8_width,
}
use cpa_plugin_token_saver.Saver.Pipeline.{size}

escape_ascii-length : (a : ℕ) → (1 ≤ length (escape_ascii a)) × (length (escape_ascii a) ≤ 6)
unfolding escape_ascii
escape_ascii-length a = elim (Bool-cases (a == 34 || a == 92)) [
  | inl c1 ↦ rw (c1, escape_ascii) (omega arith, omega arith)
  | inr c1 ↦ elim (Bool-cases (a == 8)) [
    | inl c2 ↦ rw (c1, c2, escape_ascii) (omega arith, omega arith)
    | inr c2 ↦ elim (Bool-cases (a == 9)) [
      | inl c3 ↦ rw (c1, c2, c3, escape_ascii) (omega arith, omega arith)
      | inr c3 ↦ elim (Bool-cases (a == 10)) [
        | inl c4 ↦ rw (c1, c2, c3, c4, escape_ascii) (omega arith, omega arith)
        | inr c4 ↦ elim (Bool-cases (a == 12)) [
          | inl c5 ↦ rw (c1, c2, c3, c4, c5, escape_ascii) (omega arith, omega arith)
          | inr c5 ↦ elim (Bool-cases (a == 13)) [
            | inl c6 ↦ rw (c1, c2, c3, c4, c5, c6, escape_ascii) (omega arith, omega arith)
            | inr c6 ↦ elim (Bool-cases (ltb a 32 || a == 38 || a == 60 || a == 62)) [
              | inl c7 ↦ rw (c1, c2, c3, c4, c5, c6, c7, escape_ascii) (omega arith, omega arith)
              | inr c7 ↦ rw (c1, c2, c3, c4, c5, c6, c7, escape_ascii) (omega arith, omega arith)
            ]
          ]
        ]
      ]
    ]
  ]
]

abbrev taken : ℕ → ℕ
taken zero = 1
taken (suc n) = suc n

utf8_width-fits : (a : ℕ) (s : Bytes) → utf8_width (a ∷ s) ≤ suc (length s)
unfolding utf8_width
utf8_width-fits a [] = ground arith
utf8_width-fits a (b ∷ []) = ground arith
utf8_width-fits a (b ∷ c ∷ []) = ground arith
utf8_width-fits a (b ∷ c ∷ d ∷ s) = ground arith

escape_unit-length :
    (width a : ℕ) (s : Bytes)
    → width ≤ suc (length s)
    → (taken width ≤ length (escape_unit width a s))
      × (length (escape_unit width a s) ≤ 6 * taken width)
unfolding escape_unit
escape_unit-length zero a s h = (omega arith, omega arith)
escape_unit-length (suc zero) a s h = escape_ascii-length a
escape_unit-length (suc (suc n)) a s h =
    elim (Bool-cases (bytes_eq (a ∷ take (suc n) s) (0xe2 ∷ 0x80 ∷ 0xa8 ∷ []))) [
      | inl c1 ↦
          let size = ap length (bytes_eq_sound (a ∷ take (suc n) s) (0xe2 ∷ 0x80 ∷ 0xa8 ∷ []) c1) in
          rw (c1, escape_unit)
            (omega (arith, length-take (suc n) s), omega (arith, length-take (suc n) s))
      | inr c1 ↦ elim (Bool-cases (bytes_eq (a ∷ take (suc n) s) (0xe2 ∷ 0x80 ∷ 0xa9 ∷ []))) [
        | inl c2 ↦
            let size =
              ap length (bytes_eq_sound (a ∷ take (suc n) s) (0xe2 ∷ 0x80 ∷ 0xa9 ∷ []) c2) in
            rw (c1, c2, escape_unit)
              (omega (arith, length-take (suc n) s), omega (arith, length-take (suc n) s))
        | inr c2 ↦
            rw (c1, c2, escape_unit)
              (omega (arith, length-take (suc n) s), omega (arith, length-take (suc n) s))
      ]
    ]

bounds :
    (width size left unit rest whole : ℕ)
    → width ≤ suc size
    → left ≡ size - (width - 1)
    → taken width ≤ unit
    → unit ≤ 6 * taken width
    → left ≤ rest
    → rest ≤ 6 * left
    → whole ≡ unit + rest
    → (suc size ≤ whole) × (whole ≤ 6 * suc size)
bounds zero size left unit rest whole h1 h2 h3 h4 h5 h6 h7 = (omega arith, omega arith)
bounds (suc n) size left unit rest whole h1 h2 h3 h4 h5 h6 h7 = (omega arith, omega arith)

escape_from-length :
    (fuel : ℕ) (s : Bytes)
    → length s ≤ fuel
    → (length s ≤ length (escape_from fuel s)) × (length (escape_from fuel s) ≤ 6 * length s)
unfolding escape_from
escape_from-length zero s h = (omega arith, omega arith)
escape_from-length (suc fuel) [] h = (omega arith, omega arith)
escape_from-length (suc fuel) (a ∷ s) h =
    let width = utf8_width (a ∷ s) in
    let fits = utf8_width-fits a s in
    let (least, most) = escape_unit-length width a s fits in
    let left = drop (width - 1) s in
    let size = length-drop (width - 1) s in
    let (least', most') = escape_from-length fuel left (omega arith) in
    let total = length-append (escape_unit width a s) (escape_from fuel left) in
    bounds width (length s) (length left) _ _ _ fits size least most least' most' total

-- The encoding of a string is longer than the string by its quotes at least, and at most six times
-- as long beside them.
pub length-marshal_string :
    (s : Bytes)
    → (length s + 2 ≤ length (marshal_string s)) × (length (marshal_string s) ≤ 6 * length s + 2)
unfolding marshal_string
length-marshal_string s =
    let (least, most) = escape_from-length (length s) s (omega arith) in
    let total = length-append (escape_from (length s) s) (34 ∷ []) in (omega arith, omega arith)
