-- ===== src/Gateway/Shell/Laws.antt =====
-- That a quoted word is read back by a POSIX shell as it was.
use agnet.Common.{ℕ, ◌≡◌, refl, arith, true, false, Option, none, some, [], ◌∷◌, ◌++◌, ◌==◌}
use agnet.Common.Text.{Bytes}
use agnet.Gateway.Shell.{escaped, shell_quote}

-- What a shell's reading of a word is in the middle of.
pub data Quoting : Type 0 where
  bare single backslash : Quoting

abbrev onto : ℕ → Option Bytes → Option Bytes
onto b none = none
onto b (some s) = some (b ∷ s)

-- The word that a POSIX shell makes of a text of quoted strings and escaped characters; `none` where
-- a quote is left open, and for characters that stand bare.
pub shell_word : Quoting → Bytes → Option Bytes
shell_word bare [] = some []
shell_word single [] = none
shell_word backslash [] = none
shell_word bare (b ∷ s) = elim (b == 0x27) [
  | true ↦ shell_word single s
  | false ↦ elim (b == 0x5C) [ true ↦ shell_word backslash s | false ↦ none ]
]
shell_word single (b ∷ s) = elim (b == 0x27) [
  | true ↦ shell_word bare s
  | false ↦ onto b (shell_word single s)
]
shell_word backslash (b ∷ s) = onto b (shell_word bare s)

word-escaped : (v : Bytes) → shell_word single (escaped v ++ (0x27 ∷ [])) ≡ some v
unfolding shell_word escaped
word-escaped [] = refl
word-escaped (b ∷ v) = ground (arith, word-escaped v)

-- A shell reads a quoted value, whatever bytes it has, as one word that is the value.
pub shell_word-shell_quote : (v : Bytes) → shell_word bare (shell_quote v) ≡ some v
unfolding shell_word shell_quote
shell_word-shell_quote v = word-escaped v
