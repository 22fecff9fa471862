-- ===== src/Saver/Key.antt =====
-- internal/saver/dedupe.go, `dedupeKey`: the bytes whose SHA-256 sum is the key of a result.
use cpa_plugin_token_saver.Common.{
  Bool, [], ap, append_assoc, arith, drop, false, if◌then◌else◌, length, length-append, refl, suc,
  sym, true, zero, ℕ, ◌%◌, ◌*◌, ◌++◌, ◌+◌, ◌/◌, ◌<◌, ◌^◌, ◌∙◌, ◌∷◌, ◌≡◌,
}
use cpa_plugin_token_saver.Text.{Bytes}
use cpa_plugin_token_saver.Saver.Shape.{Request}

-- binary.BigEndian.PutUint64, for any number of bytes.
unfoldable pub put_uint : ℕ → ℕ → Bytes
put_uint zero n = []
put_uint (suc k) n = put_uint k (n / 256) ++ n % 256 ∷ []

unfoldable pub write_hash_field : Bytes → Bytes
unfolding put_uint
write_hash_field value = put_uint 8 (length value) ++ value

-- The byte for the flag.
abbrev stream_flag : Bool → ℕ
stream_flag stream = if stream then 1 else 0

-- What is written to the hash, in order.
unfoldable pub dedupe_key_input : ℕ → Request → Bytes
unfolding put_uint write_hash_field
dedupe_key_input generation r =
    put_uint 8 generation
    ++ (write_hash_field r.from_format
        ++ (write_hash_field r.to_format
            ++ (write_hash_field r.model ++ (stream_flag r.stream ∷ write_hash_field r.body))))

-- The number that the bytes stand for.
abbrev uint_of : ℕ → Bytes → ℕ
uint_of acc [] = acc
uint_of acc (b ∷ s) = uint_of (acc * 256 + b) s

uint_of-append : (acc b : ℕ) (s : Bytes) → uint_of acc (s ++ b ∷ []) ≡ uint_of acc s * 256 + b
uint_of-append acc b [] = refl
uint_of-append acc b (c ∷ s) = uint_of-append (acc * 256 + c) b s

byte_less : (k n : ℕ) → n < 256 ^ suc k → n / 256 < 256 ^ k
byte_less k n h = grind arith

uint_of-put_uint : (k n : ℕ) → n < 256 ^ k → uint_of 0 (put_uint k n) ≡ n
unfolding put_uint
uint_of-put_uint zero n h = omega arith
uint_of-put_uint (suc k) n h =
    uint_of-append 0 (n % 256) (put_uint k (n / 256))
    ∙ ap (λ m. m * 256 + n % 256) (uint_of-put_uint k (n / 256) (byte_less k n h))
    ∙ omega arith

length-put_uint : (k n : ℕ) → length (put_uint k n) ≡ k
unfolding put_uint
length-put_uint zero n = refl
length-put_uint (suc k) n =
    omega (arith, length-put_uint k (n / 256), length-append (put_uint k (n / 256)) (n % 256 ∷ []))

put_uint-injective : (n m : ℕ) → n < 2 ^ 64 → m < 2 ^ 64 → put_uint 8 n ≡ put_uint 8 m → n ≡ m
put_uint-injective n m h k e =
    sym (uint_of-put_uint 8 n h) ∙ ap (uint_of 0) e ∙ uint_of-put_uint 8 m k

abbrev first_of : ℕ → Bytes → ℕ
first_of d [] = d
first_of d (c ∷ s) = c

append-split :
    (xs ys r r' : Bytes) → length xs ≡ length ys → xs ++ r ≡ ys ++ r' → (xs ≡ ys) × (r ≡ r')
append-split [] [] r r' h e = (refl, e)
append-split [] (y ∷ ys) r r' h e = absurd (omega arith)
append-split (x ∷ xs) [] r r' h e = absurd (omega arith)
append-split (x ∷ xs) (y ∷ ys) r r' h e =
    let (same, rest) = append-split xs ys r r' (omega arith) (ap (drop 1) e) in
    (ap (λ c. c ∷ xs) (ap (first_of x) e) ∙ ap (◌∷◌ y) same, rest)

write_hash_field-split :
    (v w r r' : Bytes)
    → length v < 2 ^ 64
    → length w < 2 ^ 64
    → write_hash_field v ++ r ≡ write_hash_field w ++ r'
    → (v ≡ w) × (r ≡ r')
unfolding write_hash_field
write_hash_field-split v w r r' hv hw e =
    let e' =
      sym (append_assoc (put_uint 8 (length v)) v r)
      ∙ e
      ∙ append_assoc (put_uint 8 (length w)) w r' in
    let (sizes, rest) =
      append-split (put_uint 8 (length v)) (put_uint 8 (length w)) (v ++ r) (w ++ r')
        (length-put_uint 8 (length v) ∙ sym (length-put_uint 8 (length w))) e' in
    append-split v w r r' (put_uint-injective (length v) (length w) hv hw sizes) rest

-- Each field of the request has a length that a uint64 holds.
pub record IsSized (r : Request) : Type 0 where
  pub from_fits : length r.from_format < 2 ^ 64
  pub to_fits : length r.to_format < 2 ^ 64
  pub model_fits : length r.model < 2 ^ 64
  pub body_fits : length r.body < 2 ^ 64

-- The two requests agree in every field.
abbrev pub IsSameRequest : Request → Request → Type 0
IsSameRequest r s =
    (r.from_format ≡ s.from_format)
    × (r.to_format ≡ s.to_format)
    × (r.model ≡ s.model)
    × (r.stream ≡ s.stream)
    × (r.body ≡ s.body)

stream_byte : (a b : Bool) → stream_flag a ≡ stream_flag b → a ≡ b
stream_byte true true e = refl
stream_byte true false e = absurd (omega arith)
stream_byte false true e = absurd (omega arith)
stream_byte false false e = refl

-- The bytes that are hashed for the key of the result cache determine the generation and every
-- field of the request, for fields whose lengths a uint64 holds.
pub dedupe_key_input-injective :
    (n m : ℕ) (r s : Request)
    → n < 2 ^ 64
    → m < 2 ^ 64
    → IsSized r
    → IsSized s
    → dedupe_key_input n r ≡ dedupe_key_input m s
    → (n ≡ m) × IsSameRequest r s
unfolding dedupe_key_input
dedupe_key_input-injective n m r s hn hm hr hs e =
    let (numbers, e1) =
      append-split (put_uint 8 n) (put_uint 8 m) _ _
        (length-put_uint 8 n ∙ sym (length-put_uint 8 m)) e in
    let (from, e2) =
      write_hash_field-split r.from_format s.from_format _ _ hr.from_fits hs.from_fits e1 in
    let (to, e3) = write_hash_field-split r.to_format s.to_format _ _ hr.to_fits hs.to_fits e2 in
    let (model, e4) = write_hash_field-split r.model s.model _ _ hr.model_fits hs.model_fits e3 in
    let streams = stream_byte r.stream s.stream (ap (first_of 0) e4) in
    let body = ap (drop 1) e4 in
    (
      put_uint-injective n m hn hm numbers,
      (
        from,
        to,
        model,
        streams,
        (write_hash_field-split r.body s.body [] [] hr.body_fits hs.body_fits
            (ap (λ x. x ++ []) body)).0,
      ),
    )
