-- ===== src/Agentd/Scanner/Pane.antt =====
-- The tmux pane of a terminal, from the panes that `tmux list-panes` prints
-- (agentd/internal/scanner/scanner.go, resolveTmuxTargetFromPaneList).
pub mod Laws
use agnet.Common.{
  ℕ, Bool, true, false, ◌&&◌, ◌||◌, not, Option, none, some, List, [], ◌∷◌, if◌then◌else◌,
}
use agnet.Common.Text.{Bytes, trim_space, ◌=b◌}
use agnet.Common.Strings.{split, before}
use agnet.Agentd.Scanner.{normalize_tty, no_bytes}

-- `target[:idx]` where a colon stands at `idx > 0`
abbrev pub session_of_target : Bytes → Bytes
session_of_target target = elim (before target b':') [ none ↦ [] | some name ↦ name ]

abbrev found : Bytes → Bytes → Bytes × Bytes
found target session = (target, if no_bytes session then session_of_target target else session)

-- What a line gives: `none` is the `continue` of the loop.
unfoldable pub pane_of_parts : Bytes → List Bytes → Option (Bytes × Bytes)
pane_of_parts want_tty (tty ∷ session ∷ target ∷ more) =
    if not (normalize_tty tty =b want_tty) || no_bytes (trim_space target)
    then none
    else some (found (trim_space target) (trim_space session))
pane_of_parts want_tty _ = none

unfoldable pub pane_of_line : Bytes → Bytes → Option (Bytes × Bytes)
pane_of_line want_tty line =
    if no_bytes (trim_space line) then none else pane_of_parts want_tty (split line 0x09)

unfoldable pub pane_of_lines : Bytes → List Bytes → Bytes × Bytes
pane_of_lines want_tty [] = ([], [])
pane_of_lines want_tty (line ∷ lines) = elim (pane_of_line want_tty line) [
  | some pane ↦ pane
  | none ↦ pane_of_lines want_tty lines
]

unfoldable pub resolve_tmux_target_from_pane_list : Bytes → Bytes → Bytes × Bytes
resolve_tmux_target_from_pane_list output terminal =
    if no_bytes (normalize_tty terminal)
    then ([], [])
    else pane_of_lines (normalize_tty terminal) (split output 0x0A)
