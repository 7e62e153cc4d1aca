-- ===== src/Common/Text.antt =====
-- Go strings. A stored string is a native `String`; a byte stream is a list of numbers.
use Prim.Native.Nat.{ℕ, ◌+◌, ◌/◌, ◌%◌}
use Prim.Native.Char.{code}
use Prim.Native.String.{String}
use mathlib.Core.Path.{◌≡◌}
use mathlib.Core.Logic.{◌↔◌}
use native.Mathlib.Omega.{arith}
use mathlib.Core.Bool.{Bool, true, false, ◌&&◌, ◌||◌}
use mathlib.Core.List.{List, [], ◌∷◌, ◌++◌, map}
pub use text.Mathlib.Text.{◌==◌ as ◌=s◌}
pub use text.Mathlib.TextEquality.{eq_iff}
pub use text.Mathlib.TextPositions.{eq_refl}
use agnet.Common.Tests.{ltb, leb, ◌==◌, if◌then◌else◌}

abbrev pub Bytes : Type 0
Bytes = List ℕ

-- The UTF-8 encoding of one code point.
abbrev pub encode_rune : ℕ → Bytes
encode_rune r =
    if ltb r 0x80
    then r ∷ []
    else if ltb r 0x800
    then (0xC0 + r / 64) ∷ (0x80 + r % 64) ∷ []
    else if ltb r 0x10000
    then (0xE0 + r / 4096) ∷ (0x80 + r / 64 % 64) ∷ (0x80 + r % 64) ∷ []
    else (0xF0 + r / 262144) ∷ (0x80 + r / 4096 % 64) ∷ (0x80 + r / 64 % 64) ∷ (0x80 + r % 64) ∷ []

-- The bytes of a Go string.
abbrev pub bytes : String → Bytes
bytes String.[] = []
bytes (String.◌∷◌ c s) = encode_rune (code c) ++ bytes s

abbrev pub is_empty : String → Bool
is_empty s = s =s ""

pub is_empty_nil : is_empty "" ≡ true
is_empty_nil = eq_refl ""

infix 50 ◌=b◌
unfoldable pub ◌=b◌ : Bytes → Bytes → Bool
[] =b [] = true
[] =b (c ∷ t) = false
(b ∷ s) =b [] = false
(b ∷ s) =b (c ∷ t) = b == c && s =b t

pub =b_iff : (s t : Bytes) → ((s =b t) ≡ true) ↔ (s ≡ t)
unfolding ◌=b◌
=b_iff [] [] = ground arith
=b_iff [] (c ∷ t) = ((λ h. cc), (λ h. cc))
=b_iff (b ∷ s) [] = ((λ h. cc), (λ h. cc))
=b_iff (b ∷ s) (c ∷ t) = ground (arith, =b_iff s t)

-- The ASCII bytes that `unicode.IsSpace` holds of.
abbrev pub is_space : ℕ → Bool
is_space b = b == 0x20 || (leb 0x09 b && leb b 0x0D)

abbrev pub trim_left : Bytes → Bytes
trim_left [] = []
trim_left (b ∷ s) = let rest = trim_left s in if is_space b then rest else b ∷ s

abbrev pub trim_right : Bytes → Bytes
trim_right [] = []
trim_right (b ∷ s) = elim (trim_right s) [
  | [] ↦ if is_space b then [] else b ∷ []
  | c ∷ t ↦ b ∷ c ∷ t
]

-- `strings.TrimSpace`, on ASCII white space.
abbrev pub trim_space : Bytes → Bytes
trim_space s = trim_right (trim_left s)

-- `strings.ToLower`, on ASCII letters.
abbrev pub lower : ℕ → ℕ
lower b = if leb b'A' b && leb b b'Z' then b + 32 else b

abbrev pub to_lower : Bytes → Bytes
to_lower s = map lower s
