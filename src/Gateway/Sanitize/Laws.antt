-- ===== src/Gateway/Sanitize/Laws.antt =====
-- What a sanitized status line is: the runes of the line, with the characters that the fonts lack
-- replaced, in valid UTF-8.
use Prim.Native.Char.{code}
use agnet.Common.{ℕ, ◌≡◌, refl, ap, ◌∙◌, inl, inr, Bool, true, false, Option}
use agnet.Common.{
  none, some, List, [], ◌∷◌, ◌++◌, append_assoc, append-nil, sym, String, arith, All, All-append,
}
use agnet.Common.{if◌then◌else◌, Bool-cases, Option-cases}
use agnet.Common.Text.{Bytes, bytes, encode_rune}
use agnet.Common.Utf8.{decode, encode, IsScalar}
use agnet.Common.Utf8.Laws.{
  decode-encode, decode-IsScalar, decode-ascii, encode-ascii, encode-append, IsAscii,
}
use agnet.Gateway.Sanitize.{status_line_replacement, append_rune, sanitize_rune, sanitize_runes}
use agnet.Gateway.Sanitize.{sanitize_status_line, all_ascii}

-- The code points of a text.
abbrev pub codes : String → List ℕ
codes String.[] = []
codes (String.◌∷◌ c s) = code c ∷ codes s

-- The fonts have the character.
abbrev pub IsCovered : ℕ → Type 0
IsCovered r = status_line_replacement r ≡ none

abbrev pub IsShowable : ℕ → Type 0
IsShowable r = IsScalar r × IsCovered r

bytes-encode : (s : String) → bytes s ≡ encode (codes s)
bytes-encode String.[] = refl
bytes-encode (String.◌∷◌ c s) = ap (λ t. encode_rune (code c) ++ t) (bytes-encode s)

-- What stands for a rune.
abbrev replaced : ℕ → Option String → List ℕ
replaced r (some rep) = codes rep
replaced r none = r ∷ []

unfoldable pub displayed : List ℕ → List ℕ
displayed [] = []
displayed (r ∷ rs) = replaced r (status_line_replacement r) ++ displayed rs

module _ (P : Option String → Type 0) where
  either : (b : Bool) (x y : Option String) → P x → P y → P (if b then x else y)
  either true x y px py = px
  either false x y px py = py

  replacement_elim :
      (r : ℕ)
      → P (some "-")
      → P (some "|")
      → P (some "+")
      → P (some "=")
      → P (some "<CR>")
      → P (some "L")
      → P (some "●")
      → P (some "<-")
      → P (some "^")
      → P (some "->")
      → P (some "v")
      → P (some "[X]")
      → P none
      → P (status_line_replacement r)
  unfolding status_line_replacement
  replacement_elim r p1 p2 p3 p4 p5 p6 p7 p8 p9 p10 p11 p12 p13 = search (either) depth 20

abbrev IsShowableText : Option String → Type 0
IsShowableText none = Unit {0}
IsShowableText (some rep) = All IsShowable (codes rep)

replacement-IsShowable : (r : ℕ) → IsShowableText (status_line_replacement r)
unfolding status_line_replacement
replacement-IsShowable r =
    replacement_elim IsShowableText r ((inl (omega arith), refl), tt)
      ((inl (omega arith), refl), tt) ((inl (omega arith), refl), tt)
      ((inl (omega arith), refl), tt) (ground arith) ((inl (omega arith), refl), tt)
      ((inl (omega arith), refl), tt) (ground arith) ((inl (omega arith), refl), tt) (ground arith)
      ((inl (omega arith), refl), tt) (ground arith) tt

All-left : (rs : List ℕ) → All IsShowable rs → All IsScalar rs
All-left [] _ = tt
All-left (r ∷ rs) (p, ps) = (p.0, All-left rs ps)

All-right : (rs : List ℕ) → All IsShowable rs → All IsCovered rs
All-right [] _ = tt
All-right (r ∷ rs) (p, ps) = (p.1, All-right rs ps)

replaced-IsShowable :
    (r : ℕ) (o : Option String)
    → status_line_replacement r ≡ o
    → IsScalar r
    → IsShowableText o
    → All IsShowable (replaced r o)
replaced-IsShowable r none e v _ = ((v, e), tt)
replaced-IsShowable r (some rep) e v h = h

displayed-IsShowable : (rs : List ℕ) → All IsScalar rs → All IsShowable (displayed rs)
unfolding displayed
displayed-IsShowable [] _ = tt
displayed-IsShowable (r ∷ rs) (v, vs) =
    All-append IsShowable (replaced r (status_line_replacement r)) (displayed rs)
      (replaced-IsShowable r (status_line_replacement r) refl v (replacement-IsShowable r))
      (displayed-IsShowable rs vs)

append_rune_lem : (b : Bytes) (r : ℕ) → IsScalar r → append_rune b r ≡ b ++ encode_rune r
unfolding append_rune
append_rune_lem b r v = ground arith

sanitize_rune_lem :
    (b : Bytes) (r : ℕ)
    → IsScalar r
    → sanitize_rune b r ≡ b ++ encode (replaced r (status_line_replacement r))
unfolding sanitize_rune
sanitize_rune_lem b r v = elim (Option-cases (status_line_replacement r)) [
  | inl e ↦
      rw (e, sanitize_rune)
        (append_rune_lem b r v ∙ ap (λ (t : Bytes). b ++ t) (sym (append-nil (encode_rune r))))
  | inr (rep, e) ↦ rw (e, sanitize_rune) (ap (λ (t : Bytes). b ++ t) (bytes-encode rep))
]

sanitize_runes_lem :
    (b : Bytes) (rs : List ℕ) → All IsScalar rs → sanitize_runes b rs ≡ b ++ encode (displayed rs)
unfolding sanitize_runes displayed
sanitize_runes_lem b [] _ = sym (append-nil b)
sanitize_runes_lem b (r ∷ rs) (v, vs) =
    sanitize_runes_lem (sanitize_rune b r) rs vs
    ∙ rw (sanitize_rune_lem b r v) (
        append_assoc b (encode (replaced r (status_line_replacement r))) (encode (displayed rs))
        ∙ ap (λ (t : Bytes). b ++ t)
            (sym (encode-append (replaced r (status_line_replacement r)) (displayed rs))))

all_ascii-IsAscii : (s : Bytes) → all_ascii s ≡ true → All IsAscii s
all_ascii-IsAscii [] _ = tt
all_ascii-IsAscii (c ∷ s) h = ground (arith, all_ascii-IsAscii s)

IsAscii-IsCovered : (c : ℕ) → IsAscii c → IsCovered c
unfolding status_line_replacement
IsAscii-IsCovered c h = ground arith

ascii-IsCovered : (s : Bytes) → All IsAscii s → All IsCovered s
ascii-IsCovered [] _ = tt
ascii-IsCovered (c ∷ s) (h, hs) = (IsAscii-IsCovered c h, ascii-IsCovered s hs)

displayed_covered : (rs : List ℕ) → All IsCovered rs → displayed rs ≡ rs
unfolding displayed
displayed_covered [] _ = refl
displayed_covered (c ∷ s) (h, hs) = rw h (ap (◌∷◌ c) (displayed_covered s hs))

ascii_shortcut : (s : Bytes) → All IsAscii s → s ≡ encode (displayed (decode s))
ascii_shortcut s h =
    rw (decode-ascii s h, displayed_covered s (ascii-IsCovered s h)) (sym (encode-ascii s h))

-- Sanitizing is: decode, put the replacements in, encode. The two shortcuts make no difference.
pub sanitize_status_line-displayed :
    (s : Bytes) → sanitize_status_line s ≡ encode (displayed (decode s))
unfolding sanitize_status_line displayed
sanitize_status_line-displayed [] =
    sym (ap (λ (t : List ℕ). encode (displayed t)) (decode-ascii [] tt))
sanitize_status_line-displayed (b ∷ s) = elim (Bool-cases (all_ascii (b ∷ s))) [
  | inl e ↦ rw e (ascii_shortcut (b ∷ s) (all_ascii-IsAscii (b ∷ s) e))
  | inr e ↦ rw e (sanitize_runes_lem [] (decode (b ∷ s)) (decode-IsScalar (b ∷ s)))
]

-- The runes of a sanitized line are those of the line with each that has a replacement replaced, and
-- each of them is a scalar value that no case of `statusLineReplacement` takes.
pub decode-sanitize_status_line :
    (s : Bytes)
    → (decode (sanitize_status_line s) ≡ displayed (decode s))
      × All IsShowable (decode (sanitize_status_line s))
decode-sanitize_status_line s =
    let good = displayed-IsShowable (decode s) (decode-IsScalar s) in
    let e =
      ap decode (sanitize_status_line-displayed s)
      ∙ decode-encode (displayed (decode s)) (All-left _ good) in
    (e, rw e good)

-- A valid text whose characters the fonts have stays as it is.
pub sanitize_status_line_covered :
    (rs : List ℕ) → All IsShowable rs → sanitize_status_line (encode rs) ≡ encode rs
sanitize_status_line_covered rs h =
    sanitize_status_line-displayed (encode rs)
    ∙ rw (decode-encode rs (All-left rs h)) (ap encode (displayed_covered rs (All-right rs h)))

-- Sanitizing a line that has been sanitized changes nothing.
pub sanitize_status_line_idempotent :
    (s : Bytes) → sanitize_status_line (sanitize_status_line s) ≡ sanitize_status_line s
sanitize_status_line_idempotent s = rw (sanitize_status_line-displayed s) (
    sanitize_status_line_covered (displayed (decode s))
      (displayed-IsShowable (decode s) (decode-IsScalar s)))
