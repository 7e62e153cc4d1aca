-- ===== src/Agentd/Scanner/Pane/Laws.antt =====
-- The pane that is found in the lines that tmux prints for its panes.
use agnet.Common.{◌≡◌, refl, ap, ◌∙◌, inl, inr, ◌≢◌, false, Option, none, some}
use agnet.Common.{List, [], ◌∷◌, ◌++◌, if◌then◌else◌, All, Bool-cases, arith}
use agnet.Common.Text.{Bytes, trim_space, ◌=b◌, =b_iff}
use agnet.Common.Strings.{split, join, IsFree, split-join, split-append}
use agnet.Agentd.Scanner.{normalize_tty, no_bytes}
use agnet.Agentd.Scanner.Pane.{pane_of_parts, pane_of_line, pane_of_lines, session_of_target}
use agnet.Agentd.Scanner.Pane.{resolve_tmux_target_from_pane_list}

-- What `#{pane_tty}\t#{session_name}\t#{session_name}:#{window_index}.#{pane_index}` stands for.
pub record TmuxPane : Type 0 where
  pub tty : Bytes
  pub session : Bytes
  pub target : Bytes

abbrev pub parts : TmuxPane → List Bytes
parts p = p.tty ∷ p.session ∷ p.target ∷ []

abbrev pub line : TmuxPane → Bytes
line p = join (parts p) 0x09

-- A value of tmux holds no tab and no newline, and a target is not blank.
pub record IsPrintable (p : TmuxPane) : Type 0 where
  pub no_tabs : All (IsFree 0x09) (parts p)
  pub no_newlines : IsFree 0x0A (line p)
  pub shown : trim_space (line p) ≢ []
  pub target_shown : trim_space p.target ≢ []

-- The first pane of the terminal, with its session's name, or the target's where that is blank.
abbrev pub first_pane : Bytes → List TmuxPane → Bytes × Bytes
first_pane want [] = ([], [])
first_pane want (p ∷ ps) =
    if normalize_tty p.tty =b want
    then (
      trim_space p.target,
      if no_bytes (trim_space p.session)
          then session_of_target (trim_space p.target)
          else trim_space p.session,
    )
    else first_pane want ps

-- What tmux prints for panes: a line for each, ended by a newline.
abbrev pub printed : List TmuxPane → Bytes
printed [] = []
printed (p ∷ ps) = line p ++ (0x0A ∷ printed ps)

not_empty : (s : Bytes) → s ≢ [] → no_bytes s ≡ false
not_empty s h = elim (Bool-cases (no_bytes s)) [
  | inl e ↦ absurd (h ((=b_iff s []).0 e))
  | inr e ↦ e
]

abbrev chosen : Bytes → TmuxPane → Option (Bytes × Bytes)
chosen want p =
    if normalize_tty p.tty =b want
    then some (
      trim_space p.target,
      if no_bytes (trim_space p.session)
          then session_of_target (trim_space p.target)
          else trim_space p.session,
    )
    else none

pane_of_parts-shown :
    (want : Bytes) (p : TmuxPane)
    → no_bytes (trim_space p.target) ≡ false
    → pane_of_parts want (parts p) ≡ chosen want p
unfolding pane_of_parts
pane_of_parts-shown want p h = elim (Bool-cases (normalize_tty p.tty =b want)) [
  | inl e ↦ ground (arith, e, h)
  | inr e ↦ ground (arith, e, h)
]

pane_of_line-printed :
    (want : Bytes) (p : TmuxPane) → IsPrintable p → pane_of_line want (line p) ≡ chosen want p
unfolding pane_of_line
pane_of_line-printed want p h =
    ap (λ b. if b then none else pane_of_parts want (split (line p) 0x09))
      (not_empty (trim_space (line p)) h.shown)
    ∙ ap (pane_of_parts want) (split-join p.tty (p.session ∷ p.target ∷ []) 0x09 h.no_tabs)
    ∙ pane_of_parts-shown want p (not_empty (trim_space p.target) h.target_shown)

next_line :
    (want : Bytes) (l : Bytes) (p : TmuxPane) (ls : List Bytes) (ps : List TmuxPane)
    → pane_of_line want l ≡ chosen want p
    → pane_of_lines want ls ≡ first_pane want ps
    → pane_of_lines want (l ∷ ls) ≡ first_pane want (p ∷ ps)
unfolding pane_of_lines
next_line want l p ls ps e ih =
    rw (e, pane_of_lines)
      (elim (Bool-cases (normalize_tty p.tty =b want)) [ inl f ↦ rw f refl | inr f ↦ rw f ih ])

-- What is after the last newline is a blank line.
pane_of_lines-printed :
    (want : Bytes) (ps : List TmuxPane)
    → All IsPrintable ps
    → pane_of_lines want (split (printed ps) 0x0A) ≡ first_pane want ps
unfolding split pane_of_lines pane_of_line ◌=b◌
pane_of_lines-printed want [] _ = refl
pane_of_lines-printed want (p ∷ ps) (h, hs) =
    ap (pane_of_lines want) (split-append (line p) (printed ps) 0x0A h.no_newlines)
    ∙ next_line want (line p) p (split (printed ps) 0x0A) ps (pane_of_line-printed want p h)
        (pane_of_lines-printed want ps hs)

-- From what tmux prints for its panes, each line with its newline, the pane of a terminal is the first
-- whose terminal is the same, and there is none for a terminal that is not known or that no pane has.
pub resolve_tmux_target_from_pane_list-printed :
    (terminal : Bytes) (ps : List TmuxPane)
    → All IsPrintable ps
    → resolve_tmux_target_from_pane_list (printed ps) terminal ≡ (
        if no_bytes (normalize_tty terminal)
        then ([], [])
        else first_pane (normalize_tty terminal) ps)
unfolding resolve_tmux_target_from_pane_list
resolve_tmux_target_from_pane_list-printed terminal ps h =
    rw (pane_of_lines-printed (normalize_tty terminal) ps h) refl
