-- ===== src/Prompt/Marked.antt =====
-- Texts with a marker in them, and what json.Marshal leaves of it.
use cpa_plugin_token_saver.Common.{
  Bool, [], ap, append_assoc, arith, length, length-append, ltb, refl, subst, suc, sym, take, true,
  ℕ, ◌&&◌, ◌++◌, ◌-◌, ◌∙◌, ◌∷◌, ◌≡◌,
}
use cpa_plugin_token_saver.Text.{Bytes, bytes_eq, bytes_eq_sound, contains, has_prefix}
use cpa_plugin_token_saver.Json.Marshal.{
  escape_ascii, escape_from, escape_unit, marshal_string, utf8_width,
}
use cpa_plugin_token_saver.Protocol.Payload.{slice}

-- The marker stands somewhere in the text.
abbrev pub Within : Bytes → Bytes → Type 0
Within marker text = (before : Bytes) × (after : Bytes) × (text ≡ before ++ (marker ++ after))

pub Within-append_left : (m s x : Bytes) → Within m s → Within m (x ++ s)
Within-append_left m s x (before, after, e) =
    (x ++ before, after, ap (λ t. x ++ t) e ∙ sym (append_assoc x before (m ++ after)))

pub Within-append_right : (m s x : Bytes) → Within m s → Within m (s ++ x)
Within-append_right m s x (before, after, e) = (
  before,
  after ++ x,
  ap (λ t. t ++ x) e
      ∙ append_assoc before (m ++ after) x
      ∙ ap (λ t. before ++ t) (append_assoc m after x),
)

has_prefix-append : (p y : Bytes) → has_prefix (p ++ y) p ≡ true
unfolding has_prefix
has_prefix-append [] [] = refl
has_prefix-append [] (c ∷ y) = refl
has_prefix-append (c ∷ p) y = ground (arith, has_prefix-append p y)

contains-append : (p y : Bytes) → contains (p ++ y) p ≡ true
unfolding contains has_prefix
contains-append [] [] = refl
contains-append [] (c ∷ y) = refl
contains-append (c ∷ p) y =
    let front : has_prefix (c ∷ (p ++ y)) (c ∷ p) ≡ true = has_prefix-append (c ∷ p) y in
    rw (front) refl

contains-later : (x s p : Bytes) → contains s p ≡ true → contains (x ++ s) p ≡ true
unfolding contains
contains-later [] s p h = h
contains-later (c ∷ x) s p h = ground (arith, contains-later x s p h)

pub contains-Within : (m s : Bytes) → Within m s → contains s m ≡ true
contains-Within m s (before, after, e) =
    subst (λ t. contains t m ≡ true) (sym e)
      (contains-later before (m ++ after) m (contains-append m after))

-- Bytes that json.Marshal writes as they are.
abbrev pub is_plain : Bytes → Bool
is_plain [] = true
is_plain (c ∷ s) = (ltb c 0x80 && bytes_eq (escape_ascii c) (c ∷ [])) && is_plain s

abbrev pub is_ascii : Bytes → Bool
is_ascii [] = true
is_ascii (c ∷ s) = ltb c 0x80 && is_ascii s

utf8_width-ascii : (c : ℕ) (s : Bytes) → ltb c 0x80 ≡ true → utf8_width (c ∷ s) ≡ 1
unfolding utf8_width
utf8_width-ascii c [] h = rw (h) refl
utf8_width-ascii c (d ∷ []) h = rw (h) refl
utf8_width-ascii c (d ∷ e ∷ []) h = rw (h) refl
utf8_width-ascii c (d ∷ e ∷ f ∷ s) h = rw (h) refl

escape_from-ascii :
    (c fuel : ℕ) (s : Bytes)
    → ltb c 0x80 ≡ true
    → escape_from (suc fuel) (c ∷ s) ≡ escape_ascii c ++ escape_from fuel s
unfolding escape_from escape_unit
escape_from-ascii c fuel s h = rw (utf8_width-ascii c s h, escape_from) refl

abbrev escaped : Bytes → Bytes
escaped s = escape_from (length s) s

escape_from-is_ascii :
    (pre s : Bytes) → is_ascii pre ≡ true → (e : Bytes) × (escaped (pre ++ s) ≡ e ++ escaped s)
escape_from-is_ascii [] s h = ([], refl)
escape_from-is_ascii (c ∷ pre) s h =
    let (e, same) = escape_from-is_ascii pre s (ground arith) in
    (
      escape_ascii c ++ e,
      escape_from-ascii c (length (pre ++ s)) (pre ++ s) (ground arith)
          ∙ ap (λ t. escape_ascii c ++ t) same
          ∙ sym (append_assoc (escape_ascii c) e (escaped s)),
    )

escape_from-is_plain : (p s : Bytes) → is_plain p ≡ true → escaped (p ++ s) ≡ p ++ escaped s
escape_from-is_plain [] s h = refl
escape_from-is_plain (c ∷ p) s h =
    let same : escape_ascii c ≡ c ∷ [] = bytes_eq_sound (escape_ascii c) (c ∷ []) (ground arith) in
    escape_from-ascii c (length (p ++ s)) (p ++ s) (ground arith)
    ∙ ap (λ t. t ++ escaped (p ++ s)) same
    ∙ ap (◌∷◌ c) (escape_from-is_plain p s (ground arith))

-- A text with a plain marker after some ASCII bytes has it also when it is escaped.
pub escaped-Within :
    (m pre post : Bytes)
    → is_plain m ≡ true
    → is_ascii pre ≡ true
    → Within m (escape_from (length (pre ++ (m ++ post))) (pre ++ (m ++ post)))
escaped-Within m pre post plain ascii =
    let (e, same) = escape_from-is_ascii pre (m ++ post) ascii in
    (e, escaped post, same ∙ ap (λ t. e ++ t) (escape_from-is_plain m post plain))

take-length : (s y : Bytes) → take (length s) (s ++ y) ≡ s
take-length [] y = refl
take-length (c ∷ s) y = ap (◌∷◌ c) (take-length s y)

-- The text between the quotes.
pub slice-marshal_string :
    (s : Bytes)
    → slice 1 (length (marshal_string s) - 1) (marshal_string s) ≡ escape_from (length s) s
unfolding marshal_string
slice-marshal_string s =
    let size : length (marshal_string s) - 1 - 1 ≡ length (escaped s) =
      (omega (arith, length-append (escaped s) (34 ∷ []))) in
    ap (λ n. take n (escaped s ++ 34 ∷ [])) size ∙ take-length (escaped s) (34 ∷ [])

pub marshal_string-Within :
    (m post : Bytes) → is_plain m ≡ true → Within m (marshal_string (m ++ post))
unfolding marshal_string
marshal_string-Within m post plain =
    Within-append_left m _ (34 ∷ [])
      (Within-append_right m _ (34 ∷ []) (escaped-Within m [] post plain refl))
