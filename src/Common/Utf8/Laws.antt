-- ===== src/Common/Utf8/Laws.antt =====
-- Decoding undoes encoding.
use Prim.Native.Nat.{ℕ, zero, suc, ◌+◌, ◌-◌, ◌/◌, ◌%◌, ◌<◌, ◌≤◌}
use mathlib.Core.Path.{◌≡◌, refl, ap, ◌∙◌}
use mathlib.Core.List.{List, [], ◌∷◌, ◌++◌, append_assoc}
use native.Mathlib.Omega.{arith}
use native.Mathlib.Decide.{dec_lt}
use agnet.Common.Tests.{lt→ltb, ge→ltb}
use agnet.Common.Lists.{length, All}
use agnet.Common.Text.{Bytes, encode_rune}
use agnet.Common.Utf8.{next_rune, decode_from, decode, encode, IsScalar}

one : (r : ℕ) (rest : Bytes) → r < 0x80 → next_rune (r ∷ rest) ≡ (r, 1)
unfolding next_rune
one r rest h = rw (lt→ltb r 0x80 h) refl

two :
    (r : ℕ) (rest : Bytes)
    → 0x80 ≤ r
    → r < 0x800
    → next_rune ((0xC0 + r / 64) ∷ (0x80 + r % 64) ∷ rest) ≡ (r, 2)
unfolding next_rune
two r rest h k = ground arith

three :
    (r : ℕ) (rest : Bytes)
    → 0x800 ≤ r
    → r < 0x10000
    → IsScalar r
    → next_rune ((0xE0 + r / 4096) ∷ (0x80 + r / 64 % 64) ∷ (0x80 + r % 64) ∷ rest) ≡ (r, 3)
unfolding next_rune
three r rest h k v = ground arith

four :
    (r : ℕ) (rest : Bytes)
    → 0x10000 ≤ r
    → r ≤ 0x10FFFF
    → next_rune (
        (0xF0 + r / 262144)
        ∷ (0x80 + r / 4096 % 64)
        ∷ (0x80 + r / 64 % 64)
        ∷ (0x80 + r % 64)
        ∷ rest)
      ≡ (r, 4)
unfolding next_rune
four r rest h k = ground arith

next_rune-IsScalar : (s : Bytes) → IsScalar (next_rune s).0
unfolding next_rune
next_rune-IsScalar s = ground arith

decode_from_width :
    (w : ℕ) (b : ℕ) (s rest : Bytes) → w ≡ length s → decode_from w (s ++ rest) ≡ decode_from 0 rest
unfolding decode_from
decode_from_width w b [] rest h = rw h refl
decode_from_width w b (c ∷ s) rest h = rw h (decode_from_width (length s) b s rest refl)

decode-step :
    (r b : ℕ) (s rest : Bytes)
    → next_rune (b ∷ (s ++ rest)) ≡ (r, suc (length s))
    → decode (b ∷ (s ++ rest)) ≡ r ∷ decode rest
unfolding decode decode_from
decode-step r b s rest e =
    rw e (ap (◌∷◌ r) (decode_from_width (suc (length s) - 1) 0 s rest (omega arith)))

decode-rune : (r : ℕ) (rest : Bytes) → IsScalar r → decode (encode_rune r ++ rest) ≡ r ∷ decode rest
decode-rune r rest v = elim (dec_lt r 0x80) [
  | yes h ↦ rw (lt→ltb r 0x80 h) (decode-step r r [] rest (one r rest h))
  | no h ↦ elim (dec_lt r 0x800) [
    | yes k ↦
        rw (ge→ltb r 0x80 (omega arith), lt→ltb r 0x800 k)
          (decode-step r (0xC0 + r / 64) ((0x80 + r % 64) ∷ []) rest (two r rest (omega arith) k))
    | no k ↦ elim (dec_lt r 0x10000) [
      | yes l ↦
          rw (ge→ltb r 0x80 (omega arith), ge→ltb r 0x800 (omega arith), lt→ltb r 0x10000 l)
            (decode-step r (0xE0 + r / 4096) ((0x80 + r / 64 % 64) ∷ (0x80 + r % 64) ∷ []) rest
              (three r rest (omega arith) l v))
      | no l ↦
          rw
            (
              ge→ltb r 0x80 (omega arith),
              ge→ltb r 0x800 (omega arith),
              ge→ltb r 0x10000 (omega arith),
            )
            (decode-step r (0xF0 + r / 262144)
              ((0x80 + r / 4096 % 64) ∷ (0x80 + r / 64 % 64) ∷ (0x80 + r % 64) ∷ []) rest
              (four r rest (omega arith) (omega arith)))
    ]
  ]
]

-- Encoding and then decoding gives back every list of scalar values.
pub decode-encode : (rs : List ℕ) → All IsScalar rs → decode (encode rs) ≡ rs
unfolding decode decode_from
decode-encode [] _ = refl
decode-encode (r ∷ rs) (v, vs) = decode-rune r (encode rs) v ∙ ap (◌∷◌ r) (decode-encode rs vs)

decode_from-IsScalar : (skip : ℕ) (s : Bytes) → All IsScalar (decode_from skip s)
unfolding decode_from
decode_from-IsScalar zero [] = tt
decode_from-IsScalar (suc skip) [] = tt
decode_from-IsScalar (suc skip) (b ∷ s) = decode_from-IsScalar skip s
decode_from-IsScalar zero (b ∷ s) =
    (next_rune-IsScalar (b ∷ s), decode_from-IsScalar ((next_rune (b ∷ s)).1 - 1) s)

pub decode-IsScalar : (s : Bytes) → All IsScalar (decode s)
unfolding decode
decode-IsScalar s = decode_from-IsScalar 0 s

abbrev pub IsAscii : ℕ → Type 0
IsAscii b = b < 0x80

-- On ASCII the bytes are the runes.
pub decode-ascii : (s : Bytes) → All IsAscii s → decode s ≡ s
unfolding decode decode_from
decode-ascii [] _ = refl
decode-ascii (b ∷ s) (h, hs) = decode-step b b [] s (one b s h) ∙ ap (◌∷◌ b) (decode-ascii s hs)

pub encode-ascii : (s : Bytes) → All IsAscii s → encode s ≡ s
encode-ascii [] _ = refl
encode-ascii (b ∷ s) (h, hs) = rw (lt→ltb b 0x80 h) (ap (◌∷◌ b) (encode-ascii s hs))

pub encode-append : (xs ys : List ℕ) → encode (xs ++ ys) ≡ encode xs ++ encode ys
encode-append [] ys = refl
encode-append (x ∷ xs) ys = simp (encode-append xs ys, append_assoc)
