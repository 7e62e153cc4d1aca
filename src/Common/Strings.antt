-- ===== src/Common/Strings.antt =====
-- What is used of Go's packages strings and filepath, on bytes.
use Prim.Native.Nat.{ℕ}
use mathlib.Core.Path.{◌≡◌, refl, ap, ◌∙◌}
use mathlib.Core.Logic.{◌≢◌}
use mathlib.Core.Bool.{Bool, true, false, ◌&&◌, ◌||◌}
use mathlib.Core.Option.{Option, none, some}
use mathlib.Core.List.{List, [], ◌∷◌, ◌++◌}
use native.Mathlib.Omega.{arith}
use agnet.Common.Tests.{◌==◌, if◌then◌else◌}
use agnet.Common.Lists.{All, reversed}
use agnet.Common.Text.{Bytes, bytes}

unfoldable pub has_prefix : Bytes → Bytes → Bool
has_prefix s [] = true
has_prefix [] (c ∷ p) = false
has_prefix (b ∷ s) (c ∷ p) = b == c && has_prefix s p

-- What is left of `s` after `p`, if `s` starts with it.
unfoldable pub cut_prefix : Bytes → Bytes → Option Bytes
cut_prefix s [] = some s
cut_prefix [] (c ∷ p) = none
cut_prefix (b ∷ s) (c ∷ p) = if b == c then cut_prefix s p else none

unfoldable pub trim_prefix : Bytes → Bytes → Bytes
unfolding cut_prefix
trim_prefix s p = elim (cut_prefix s p) [ some rest ↦ rest | none ↦ s ]

unfoldable pub contains : Bytes → Bytes → Bool
unfolding has_prefix
contains [] p = has_prefix [] p
contains (b ∷ s) p = has_prefix (b ∷ s) p || contains s p

abbrev pub onto_first : ℕ → List Bytes → List Bytes
onto_first b [] = (b ∷ []) ∷ []
onto_first b (w ∷ ws) = (b ∷ w) ∷ ws

-- `strings.Split(s, sep)` for a separator of one byte
unfoldable pub split : Bytes → ℕ → List Bytes
split [] sep = [] ∷ []
split (b ∷ s) sep = let rest = split s sep in if b == sep then [] ∷ rest else onto_first b rest

-- `strings.Join(words, sep)` for such a separator
unfoldable pub join : List Bytes → ℕ → Bytes
join [] sep = []
join (w ∷ []) sep = w
join (w ∷ v ∷ ws) sep = w ++ (sep ∷ join (v ∷ ws) sep)

-- `s[:strings.Index(s, sep)]`, if `sep` occurs
unfoldable pub before : Bytes → ℕ → Option Bytes
before [] sep = none
before (b ∷ s) sep =
    let rest = before s sep in
    if b == sep then some [] else elim rest [ none ↦ none | some t ↦ some (b ∷ t) ]

abbrev pub trim_left_byte : ℕ → Bytes → Bytes
trim_left_byte c [] = []
trim_left_byte c (b ∷ s) = let rest = trim_left_byte c s in if b == c then rest else b ∷ s

-- `strings.TrimRight(s, c)`
abbrev pub trim_right_byte : ℕ → Bytes → Bytes
trim_right_byte c s = reversed (trim_left_byte c (reversed s))

abbrev pub last_word : List Bytes → Bytes
last_word [] = []
last_word (w ∷ []) = w
last_word (w ∷ v ∷ ws) = last_word (v ∷ ws)

abbrev named : Bytes → Bytes
named [] = bytes "/"
named (b ∷ s) = last_word (split (b ∷ s) b'/')

-- `filepath.Base`
unfoldable pub base : Bytes → Bytes
unfolding split
base [] = bytes "."
base (b ∷ s) = named (trim_right_byte b'/' (b ∷ s))

-- A text that does not hold the byte.
abbrev pub IsFree : ℕ → Bytes → Type 0
IsFree sep s = All (λ b. b ≢ sep) s

pub split-free : (s : Bytes) (sep : ℕ) → IsFree sep s → split s sep ≡ s ∷ []
unfolding split
split-free [] sep _ = refl
split-free (b ∷ s) sep (h, hs) = rw (split-free s sep hs) (ground arith)

pub split-append :
    (w rest : Bytes) (sep : ℕ) → IsFree sep w → split (w ++ (sep ∷ rest)) sep ≡ w ∷ split rest sep
unfolding split
split-append [] rest sep _ = ground arith
split-append (b ∷ w) rest sep (h, hs) = rw (split-append w rest sep hs) (ground arith)

-- Splitting undoes joining where no word holds the separator.
pub split-join :
    (w : Bytes) (ws : List Bytes) (sep : ℕ)
    → All (IsFree sep) (w ∷ ws)
    → split (join (w ∷ ws) sep) sep ≡ w ∷ ws
unfolding join
split-join w [] sep (h, _) = split-free w sep h
split-join w (v ∷ ws) sep (h, hs) =
    split-append w (join (v ∷ ws) sep) sep h ∙ ap (◌∷◌ w) (split-join v ws sep hs)
