-- ===== src/Protocol/Payload/IndexString.antt =====
-- `indexString` writes decimal digits.
use cpa_plugin_token_saver.Common.{
  ==_iff, Bool-cases, [], ap, arith, false, inl, inr, ltb, ltb→lt, refl, suc, true, zero, ℕ, ◌%◌,
  ◌+◌, ◌/◌, ◌<◌, ◌==◌, ◌^◌, ◌∙◌, ◌∷◌, ◌≡◌,
}
use cpa_plugin_token_saver.Text.{Bytes, decimal, decimal_from}
use cpa_plugin_token_saver.Protocol.Payload.{digits_from, index_string}

digits_from_zero : (room : ℕ) (digits : Bytes) → digits_from room 0 digits ≡ digits
unfolding digits_from
digits_from_zero zero digits = refl
digits_from_zero (suc room) digits = refl

shorter : (room n : ℕ) → n < 10 ^ suc room → n / 10 < 10 ^ room
shorter room n h = grind arith

digits_from-decimal_from :
    (room fuel n : ℕ) (digits : Bytes)
    → n < 10 ^ room
    → n < fuel
    → 0 < n
    → digits_from room n digits ≡ decimal_from fuel n digits
unfolding digits_from decimal_from
digits_from-decimal_from zero fuel n digits h k l = absurd (omega arith)
digits_from-decimal_from (suc room) zero n digits h k l = absurd (omega arith)
digits_from-decimal_from (suc room) (suc fuel) n digits h k l =
    let some_left : (n == 0) ≡ false = (ground arith) in
    elim (Bool-cases (n / 10 == 0)) [
      | inl last ↦
          let rest : n / 10 ≡ 0 = (==_iff (n / 10) 0).0 last in
          rw (some_left, last, digits_from, decimal_from)
            (ap (λ m. digits_from room m ((48 + n % 10) ∷ digits)) rest
              ∙ digits_from_zero room ((48 + n % 10) ∷ digits))
      | inr further ↦
          rw (some_left, further, digits_from, decimal_from)
            (digits_from-decimal_from room fuel (n / 10) ((48 + n % 10) ∷ digits) (shorter room n h)
              (omega arith) (ground arith))
    ]

-- An index of at most 20 digits is written as fmt would write it.
pub index_string-decimal : (index : ℕ) → index < 10 ^ 20 → index_string index ≡ decimal index
unfolding index_string decimal decimal_from
index_string-decimal index h = elim (Bool-cases (ltb index 10)) [
  | inl short ↦
      let below : index < 10 = ltb→lt index 10 short in
      let last : (index / 10 == 0) ≡ true = (ground arith) in
      let digit : 48 + index ≡ 48 + index % 10 = (omega arith) in
      rw (short, index_string, last, decimal_from) (ap (λ d. d ∷ []) digit)
  | inr long ↦
      rw (long, index_string)
        (digits_from-decimal_from 20 (suc index) index [] h (omega arith) (ground arith))
]
