-- ===== src/Common/Utf8.antt =====
-- What `for _, r := range s` yields of a Go string: its UTF-8 decoding, in which a byte that starts
-- no well-formed sequence is U+FFFD, one byte wide.
pub mod Laws
use Prim.Native.Nat.{ℕ, zero, suc, ◌+◌, ◌-◌, ◌*◌, ◌<◌, ◌≤◌}
use mathlib.Core.Bool.{Bool, ◌&&◌}
use mathlib.Core.Logic.{◌⊎◌}
use mathlib.Core.List.{List, [], ◌∷◌, ◌++◌}
use agnet.Common.Tests.{ltb, leb, ◌==◌, if◌then◌else◌}
use agnet.Common.Lists.{get_or}
use agnet.Common.Text.{Bytes, encode_rune}

abbrev between : ℕ → ℕ → ℕ → Bool
between lo hi b = leb lo b && leb b hi

-- The value of a continuation byte; 0 stands for a byte that is missing, which is none.
abbrev tail : ℕ → ℕ
tail b = b - 0x80

abbrev bad_byte : ℕ × ℕ
bad_byte = (0xFFFD, 1)

-- The first rune of a string, and its width.
unfoldable pub next_rune : Bytes → ℕ × ℕ
next_rune s =
    let b0 = get_or s 0 0 in
    let b1 = get_or s 1 0 in
    let b2 = get_or s 2 0 in
    let b3 = get_or s 3 0 in
    if ltb b0 0x80
    then (b0, 1)
    else if ltb b0 0xC2
    then bad_byte
    else if ltb b0 0xE0
    then (if between 0x80 0xBF b1 then ((b0 - 0xC0) * 64 + tail b1, 2) else bad_byte)
    else if ltb b0 0xF0
    then (if between (if b0 == 0xE0 then 0xA0 else 0x80) (if b0 == 0xED then 0x9F else 0xBF) b1
          && between 0x80 0xBF b2
        then ((b0 - 0xE0) * 4096 + tail b1 * 64 + tail b2, 3)
        else bad_byte)
    else if ltb b0 0xF5
    then (if between (if b0 == 0xF0 then 0x90 else 0x80) (if b0 == 0xF4 then 0x8F else 0xBF) b1
          && between 0x80 0xBF b2
          && between 0x80 0xBF b3
        then ((b0 - 0xF0) * 262144 + tail b1 * 4096 + tail b2 * 64 + tail b3, 4)
        else bad_byte)
    else bad_byte

-- The runes of what is left after `skip` bytes.
unfoldable pub decode_from : ℕ → Bytes → List ℕ
decode_from skip [] = []
decode_from (suc skip) (b ∷ s) = decode_from skip s
decode_from zero (b ∷ s) = let (r, width) = next_rune (b ∷ s) in r ∷ decode_from (width - 1) s

unfoldable pub decode : Bytes → List ℕ
decode s = decode_from 0 s

-- The encoding of runes, one after the other.
abbrev pub encode : List ℕ → Bytes
encode [] = []
encode (r ∷ rs) = encode_rune r ++ encode rs

-- A code point that is no surrogate half.
abbrev pub IsScalar : ℕ → Type 0
IsScalar r = (r < 0xD800) ⊎ ((0xDFFF < r) × (r ≤ 0x10FFFF))
