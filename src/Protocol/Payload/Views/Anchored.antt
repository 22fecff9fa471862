-- ===== src/Protocol/Payload/Views/Anchored.antt =====
-- Every slot of a view lies in the body, at the text of a JSON string.
use cpa_plugin_token_saver.Common.{
  Bool, Bool-cases, List, [], arith, false, inl, inr, length, ltb, negsuc, not, pos, refl, subst,
  suc, true, ℕ, ℤ, ◌&&◌, ◌++◌, ◌+◌, ◌||◌, ◌∷◌, ◌≡◌, ◌≤◌, ◌⊎◌,
}
use cpa_plugin_token_saver.Json.{Gjson}
use cpa_plugin_token_saver.Text.{Bytes, bytes_eq, bytes_eq_sound, codes}
use cpa_plugin_token_saver.Protocol.Payload.{
  Payload, SlotKind, TextSlot, add, add_at, for_each, slice, slot_claude_messages, slot_gemini,
  slot_openai_chat, slot_openai_responses, string_at,
}
use cpa_plugin_token_saver.Protocol.Payload.Views.{add_block, add_content, item_path}

-- The path of a text itself, or of the text of one of its blocks.
abbrev pub IsContentPath : Bytes → Bytes → Type 0
IsContentPath content path =
    (path ≡ content) ⊎ ((j : ℕ) × (path ≡ item_path content j ++ codes ".text"))

pub Index-cases : (i : ℤ) → ((n : ℕ) × (i ≡ negsuc n)) ⊎ ((n : ℕ) × (i ≡ pos n))
Index-cases (negsuc n) = inl (n, refl)
Index-cases (pos n) = inr (n, refl)

-- The fields of one answer that may be read as its text.
abbrev pub IsTextPath : SlotKind → Bytes → Bytes → Type 0
IsTextPath slot_openai_chat base path = IsContentPath (base ++ codes ".content") path
IsTextPath slot_openai_responses base path = IsContentPath (base ++ codes ".output") path
IsTextPath slot_claude_messages base path = IsContentPath (base ++ codes ".content") path
IsTextPath slot_gemini base path = path ≡ base ++ codes ".response.result"

module _ (g : Gjson) where
  -- A string stands at a path of the body.
  abbrev pub IsStringAt : Bytes → Bytes → Bytes → Type 0
  IsStringAt body path text =
      let v = g.get_bytes body path in (g.is_string v ≡ true) × (g.string v ≡ text)

  -- An answer stands at the path `base` of the body, and has the identifier of the call that it
  -- answers: the one of the protocol's field, or, for Gemini without one, the name of the function.
  abbrev pub IsAnswer : Bytes → SlotKind → Bytes → Bytes → Type 0
  IsAnswer body slot_openai_chat base id =
      ((i : ℕ) × (base ≡ item_path (codes "messages") i))
      × IsStringAt body (base ++ codes ".role") (codes "tool")
      × IsStringAt body (base ++ codes ".tool_call_id") id
  IsAnswer body slot_openai_responses base id =
      ((i : ℕ) × (base ≡ item_path (codes "input") i))
      × IsStringAt body (base ++ codes ".call_id") id
  IsAnswer body slot_claude_messages base id =
      ((i : ℕ) × (j : ℕ) × (base
          ≡ item_path (item_path (codes "messages") i ++ codes ".content") j))
      × IsStringAt body (base ++ codes ".type") (codes "tool_result")
      × IsStringAt body (base ++ codes ".tool_use_id") id
  IsAnswer body slot_gemini base id =
      ((contents : Bytes) × (i : ℕ) × (j : ℕ) × (base
          ≡ item_path (item_path contents i ++ codes ".parts") j ++ codes ".functionResponse"))
      × (IsStringAt body (base ++ codes ".id") id
          ⊎ ((bytes_eq (string_at g body (base ++ codes ".id")) [] ≡ true)
              × IsStringAt body (base ++ codes ".name") id))

  -- The field at `path` is a text of an answer to the call `id`, which is not empty.
  abbrev pub Answers : Bytes → SlotKind → Bytes → Bytes → Type 0
  Answers body kind id path =
      (bytes_eq id [] ≡ false)
      × ((base : Bytes) × IsAnswer body kind base id × IsTextPath kind base path)

  -- A slot stands at the raw text of the string whose value it has, and names the call that the
  -- string is an answer to.
  abbrev pub IsAnchored : Bytes → SlotKind → TextSlot → Type 0
  IsAnchored body kind slot =
      (slot.start ≤ slot.end)
      × (slot.end ≤ length body)
      × (slot.kind ≡ kind)
      × ((path : Bytes) × Answers body kind slot.result_id path
          × IsStringAt body path slot.text
          × (slice slot.start slot.end body ≡ g.raw (g.get_bytes body path)))

  abbrev pub AllAnchored : Bytes → SlotKind → List TextSlot → Type 0
  AllAnchored body kind [] = Unit {0}
  AllAnchored body kind (slot ∷ slots) = IsAnchored body kind slot × AllAnchored body kind slots

  pub record IsView (body : Bytes) (kind : SlotKind) (p : Payload) : Type 0 where
    pub same : p.raw ≡ body
    pub anchored : AllAnchored body kind p.slots

  AllAnchored-append :
      (body : Bytes) (kind : SlotKind) (slots : List TextSlot) (slot : TextSlot)
      → AllAnchored body kind slots
      → IsAnchored body kind slot
      → AllAnchored body kind (slots ++ slot ∷ [])
  AllAnchored-append body kind [] slot all h = (h, tt)
  AllAnchored-append body kind (s ∷ slots) slot (hs, all) h =
      (hs, AllAnchored-append body kind slots slot all h)

  add_at-IsView :
      (body : Bytes) (kind : SlotKind) (error : Bool) (start : ℕ) (p : Payload) (path id : Bytes)
      → g.is_string (g.get_bytes p.raw path) ≡ true
      → Answers body kind id path
      → IsView body kind p
      → IsView body kind (add_at g p (g.get_bytes p.raw path) id kind error start)
  unfolding add_at
  add_at-IsView body kind error start p path id text answers h =
      let v = g.get_bytes p.raw path in
      elim (Bool-cases (
        ltb (length p.raw) (start + length (g.raw v))
        || not (bytes_eq (slice start (start + length (g.raw v)) p.raw) (g.raw v)))) [
          | inl refused ↦ rw (refused, add_at) h
          | inr found ↦
              let here : bytes_eq (slice start (start + length (g.raw v)) p.raw) (g.raw v) ≡ true =
                (ground arith) in
              let fits : start + length (g.raw v) ≤ length p.raw = (ground arith) in
              let spot =
                bytes_eq_sound (slice start (start + length (g.raw v)) p.raw) (g.raw v) here in
              rw (found, add_at)
                (record {
                  same = h.same;
                  anchored = AllAnchored-append body kind p.slots _ h.anchored (
                    omega arith,
                    subst (λ b. start + length (g.raw v) ≤ length b) h.same fits,
                    refl,
                    (
                      path,
                      answers,
                      subst (λ b. IsStringAt b path (g.string v)) h.same (text, refl),
                      subst
                          (λ b.
                            slice start (start + length (g.raw v)) b ≡ g.raw (g.get_bytes b path))
                          h.same spot,
                    ),
                  );
                })
        ]

  pub add-IsView :
      (body : Bytes) (kind : SlotKind) (error : Bool) (p : Payload) (path id : Bytes)
      → Answers body kind id path
      → IsView body kind p
      → IsView body kind (add g p (g.get_bytes p.raw path) id kind error)
  unfolding add
  add-IsView body kind error p path id answers h =
      let v = g.get_bytes p.raw path in
      elim (Bool-cases (g.is_string v)) [
        | inr otherwise ↦ rw (otherwise, add) h
        | inl text ↦ elim (Index-cases (g.index v)) [
          | inl (n, before) ↦ rw (text, before, add) h
          | inr (start, found) ↦
              rw (text, found, add) (add_at-IsView body kind error start p path id text answers h)
        ]
      ]

  pub for_each-IsView :
      (body : Bytes) (kind : SlotKind) (step : ℕ → g.Value → Payload → Payload)
      → ((i : ℕ) (v : g.Value) (p : Payload) → IsView body kind p → IsView body kind (step i v p))
      → (i : ℕ) (vs : List g.Value) (p : Payload) → IsView body kind p
      → IsView body kind (for_each g step i vs p)
  unfolding for_each
  for_each-IsView body kind step keeps i [] p h = h
  for_each-IsView body kind step keeps i (v ∷ vs) p h =
      for_each-IsView body kind step keeps (suc i) vs (step i v p) (keeps i v p h)

  add_block-IsView :
      (body : Bytes) (kind : SlotKind) (is_text : Bytes → Bool) (path id : Bytes) (error : Bool)
      → ((j : ℕ) → Answers body kind id (item_path path j ++ codes ".text"))
      → (j : ℕ) (block : g.Value) (p : Payload) → IsView body kind p
      → IsView body kind (add_block g is_text path id kind error j block p)
  unfolding add_block
  add_block-IsView body kind is_text path id error answers j block p h =
      elim (Bool-cases
        (g.is_object block && is_text (string_at g p.raw (item_path path j ++ codes ".type")))) [
          | inl matches ↦ rw (matches, add_block) (add-IsView body kind error p _ id (answers j) h)
          | inr differs ↦ rw (differs, add_block) h
        ]

  pub add_content-IsView :
      (body : Bytes) (kind : SlotKind) (is_text : Bytes → Bool) (path id : Bytes) (error : Bool)
      (p : Payload)
      → ((q : Bytes) → IsContentPath path q → Answers body kind id q)
      → IsView body kind p
      → IsView body kind (add_content g is_text path id kind error p)
  unfolding add_content
  add_content-IsView body kind is_text path id error p answers h =
      elim (Bool-cases (g.is_string (g.get_bytes p.raw path))) [
        | inl text ↦
            rw (text, add_content) (add-IsView body kind error p _ id (answers path (inl refl)) h)
        | inr blocks ↦ elim (Bool-cases (g.is_array (g.get_bytes p.raw path))) [
          | inr neither ↦ rw (blocks, neither, add_content) h
          | inl array ↦
              rw (blocks, array, add_content)
                (for_each-IsView body kind (add_block g is_text path id kind error)
                  (add_block-IsView body kind is_text path id error
                    (λ j. answers _ (inr (j, refl))))
                  0 (g.array (g.get_bytes p.raw path)) p h)
        ]
      ]
