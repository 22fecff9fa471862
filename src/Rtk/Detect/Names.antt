-- ===== src/Rtk/Detect/Names.antt =====
-- Which names `Detect` can come to.
use cpa_plugin_token_saver.Common.{
  Bool, Bool-cases, List, Option, arith, false, false≢true, if◌then◌else◌, inl, inr, leb, length,
  length-take, ltb, none≢some, refl, some, some-injective, subst, suc, sym, true, zero, ℕ, ◌&&◌,
  ◌∙◌, ◌≡◌, ◌≤◌,
}
use cpa_plugin_token_saver.Text.{Bytes, bytes_eq, bytes_eq_iff, codes}
use cpa_plugin_token_saver.Rtk.Detect.{
  Patterns, detect, detect_rest, detect_window_bytes, head_of, mostly_line_numbered,
  mostly_porcelain, non_empty_lines, window_end,
}
use cpa_plugin_token_saver.Rtk.Registry.{find_filter, resolve}
use cpa_plugin_token_saver.Text.Lines.{lines}

-- A test keeps what holds of both of its results.
if_both :
    (Q : Option Bytes → Type 0) (b : Bool) (x y : Option Bytes) → Q x → Q y → Q (if b then x else y)
if_both Q true x y h k = h
if_both Q false x y h k = k

-- The second result is only come to where the test failed, and the first where it held.
if_true :
    (Q : Option Bytes → Type 0) (b : Bool) (x y : Option Bytes)
    → (b ≡ true → Q x)
    → Q y
    → Q (if b then x else y)
if_true Q true x y h k = h refl
if_true Q false x y h k = k

abbrev Registered : Option Bytes → Type 0
Registered found = (name : Bytes) → found ≡ some name → resolve name ≡ some name

registered : (name : Bytes) → resolve name ≡ some name → Registered (resolve name)
registered name same found e =
    let equal : name ≡ found = some-injective (sym same ∙ e) in
    subst (λ n. resolve n ≡ some n) equal same

detect_rest-Registered :
    (p : Patterns) (text head : Bytes) (ls non_empty : List Bytes)
    → Registered (detect_rest p text head ls non_empty)
unfolding detect_rest resolve find_filter bytes_eq
detect_rest-Registered p text head ls non_empty =
    if_both Registered _ _ _ (registered (codes "tree") refl) (
      if_both Registered _ _ _ (registered (codes "ls") refl) (
        if_both Registered _ _ _ (registered (codes "search-list") refl) (
          if_both Registered _ _ _ (registered (codes "read-numbered") refl) (
            if_both Registered _ _ _ (registered (codes "dedup-log") refl) (
              if_both Registered _ _ _ (registered (codes "smart-truncate") refl)
                (λ name e. absurd (none≢some e)))))))

-- The name that is detected is a registered one.
pub detect-Registered :
    (p : Patterns) (text name : Bytes) → detect p text ≡ some name → resolve name ≡ some name
unfolding detect resolve find_filter bytes_eq
detect-Registered p text =
    let head = head_of text in
    if_both Registered (p.git_log head) _ _ (registered (codes "git-log") refl) (
      if_both Registered (p.git_diff head) _ _ (registered (codes "git-diff") refl) (
        if_both Registered (p.git_status head) _ _ (registered (codes "git-status") refl) (
          if_both Registered (p.build head) _ _ (registered (codes "build-output") refl) (
            if_both Registered (mostly_porcelain head) _ _ (registered (codes "git-status") refl) (
              if_both Registered _ _ _ (registered (codes "grep") refl) (
                if_both Registered _ _ _ (registered (codes "find") refl) (
                  detect_rest-Registered p text head (lines head)
                    (non_empty_lines (lines head)))))))))

abbrev Numbered : List Bytes → Option Bytes → Type 0
Numbered ls found = found ≡ some (codes "read-numbered") → 250 ≤ length ls

-- Another filter.
unnumbered :
    (ls : List Bytes) (name : Bytes)
    → resolve name ≡ some name
    → bytes_eq name (codes "read-numbered") ≡ false
    → Numbered ls (resolve name)
unnumbered ls name same differs e =
    let equal : name ≡ codes "read-numbered" = some-injective (sym same ∙ e) in
    absurd (false≢true (sym differs ∙ (bytes_eq_iff name (codes "read-numbered")).1 equal))

long_and : (n : ℕ) (b : Bool) → (leb 250 n && b) ≡ true → 250 ≤ n
long_and n b h = ground arith

detect_rest-Numbered :
    (p : Patterns) (text head : Bytes) (ls non_empty : List Bytes)
    → Numbered ls (detect_rest p text head ls non_empty)
unfolding detect_rest resolve find_filter bytes_eq
detect_rest-Numbered p text head ls non_empty =
    if_both (Numbered ls) _ _ _ (unnumbered ls (codes "tree") refl refl) (
      if_both (Numbered ls) _ _ _ (unnumbered ls (codes "ls") refl refl) (
        if_both (Numbered ls) _ _ _ (unnumbered ls (codes "search-list") refl refl) (
          if_true (Numbered ls) (leb 250 (length ls) && mostly_line_numbered p ls) _ _
            (λ h e. long_and (length ls) (mostly_line_numbered p ls) h)
            (if_both (Numbered ls) _ _ _ (unnumbered ls (codes "dedup-log") refl refl) (
              if_both (Numbered ls) _ _ _ (unnumbered ls (codes "smart-truncate") refl refl)
                (λ e. absurd (none≢some e)))))))

window_end-le : (text : Bytes) (n : ℕ) → window_end text n ≤ n
unfolding window_end
window_end-le text zero = omega arith
window_end-le text (suc n) = ground (arith, window_end-le text n)

head_of-le : (text : Bytes) → length (head_of text) ≤ detect_window_bytes
unfolding head_of
head_of-le text = elim (Bool-cases (ltb detect_window_bytes (length text))) [
  | inl long ↦
      rw (long, head_of)
        (omega (
          arith,
          window_end-le text detect_window_bytes,
          length-take (window_end text detect_window_bytes) text,
        ))
  | inr short ↦ rw (short, head_of) (ground arith)
]

-- A text is only taken for a numbered listing if there are 250 lines in its window of at most 1024
-- bytes.
pub detect-read_numbered :
    (p : Patterns) (text : Bytes)
    → detect p text ≡ some (codes "read-numbered")
    → (length (head_of text) ≤ 1024) × (250 ≤ length (lines (head_of text)))
unfolding detect resolve find_filter bytes_eq
detect-read_numbered p text found =
    let head = head_of text in
    let ls = lines head in
    let numbered_lines : Numbered ls (detect p text) =
      if_both (Numbered ls) (p.git_log head) _ _ (unnumbered ls (codes "git-log") refl refl) (
        if_both (Numbered ls) (p.git_diff head) _ _ (unnumbered ls (codes "git-diff") refl refl) (
          if_both (Numbered ls) (p.git_status head) _ _
            (unnumbered ls (codes "git-status") refl refl)
            (if_both (Numbered ls) (p.build head) _ _
              (unnumbered ls (codes "build-output") refl refl)
              (if_both (Numbered ls) (mostly_porcelain head) _ _
                (unnumbered ls (codes "git-status") refl refl)
                (if_both (Numbered ls) _ _ _ (unnumbered ls (codes "grep") refl refl) (
                  if_both (Numbered ls) _ _ _ (unnumbered ls (codes "find") refl refl)
                    (detect_rest-Numbered p text head ls (non_empty_lines ls)))))))) in
    (head_of-le text, numbered_lines found)
