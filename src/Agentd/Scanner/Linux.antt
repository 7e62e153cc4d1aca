-- ===== src/Agentd/Scanner/Linux.antt =====
-- The scan of /proc (agentd/internal/scanner/scanner_linux.go), and the end of a scan
-- (agentd/internal/scanner/scanner.go, finalizeProcessScan).
--
-- `System` is what the scan reads: the files and links of /proc, the output of each call of
-- `tmux list-panes` that succeeds (the default one first), and the search for session files, which
-- is not modelled. `none` as the result of a search for a tmux session says that the walk up the
-- parents is not over after `rounds` rounds.
pub mod Laws
pub mod Ends
use agnet.Common.{
  ℕ, zero, suc, Bool, true, false, ◌&&◌, ◌||◌, not, Option, none, some, List, [], ◌∷◌,
}
use agnet.Common.{String, leb, ltb, if◌then◌else◌}
use agnet.Common.Text.{Bytes, bytes, ◌=s◌, is_empty, trim_space}
use agnet.Common.Strings.{has_prefix, trim_prefix, contains, split, base}
use agnet.Agentd.Scanner.{
  ProcessInfo, no_bytes, detect_provider, is_claude_subagent_args, normalize_tty,
}
use agnet.Agentd.Scanner.{hermes_session_id_from_args}
use agnet.Agentd.Scanner.Ancestors.{filter_parent_agents}
use agnet.Agentd.Scanner.Pane.{resolve_tmux_target_from_pane_list}

pub record System : Type 0 where
  pub entries : Option (List (Bytes × Bool))
  pub cmdline : ℕ → Option Bytes
  pub cwd : ℕ → Option Bytes
  pub status : ℕ → Option Bytes
  pub exe : ℕ → Option Bytes
  pub environ : ℕ → Option Bytes
  pub fd0 : ℕ → Option Bytes
  pub pane_lists : List Bytes
  pub atoi : Bytes → Option ℕ
  pub claude_session : ℕ → Bytes → Bytes → Bytes × Bytes
  pub codex_session : ℕ → Bytes → Bytes × Bytes
  pub opencode_session : ℕ → Bytes → Bytes × Bytes
  pub rounds : ℕ

abbrev number : Option ℕ → ℕ
number none = 0
number (some n) = n

abbrev pub or_empty : Option Bytes → Bytes
or_empty none = []
or_empty (some s) = s

abbrev pub is_tmux_client : Option Bytes → Bool
is_tmux_client none = false
is_tmux_client (some cmd) = contains cmd (bytes "tmux:") && contains cmd (bytes "client")

abbrev pub has_tmux : List Bytes → Bool
has_tmux [] = false
has_tmux (v ∷ vars) = has_prefix v (bytes "TMUX=") || has_tmux vars

abbrev second : Bytes → List Bytes → Bytes
second sty (p ∷ name ∷ more) = name
second sty _ = sty

abbrev work_dir_of : Option Bytes → Bytes
work_dir_of none = bytes "/"
work_dir_of (some dir) = dir

abbrev pub with_session : (Bytes → ProcessInfo) → Option Bytes → Option (Option ProcessInfo)
with_session info none = none
with_session info (some session) = some (some (info session))

abbrev pub add_found :
    Option (Option ProcessInfo) → Option (List ProcessInfo) → Option (List ProcessInfo)
add_found none rest = none
add_found (some none) rest = rest
add_found (some (some info)) none = none
add_found (some (some info)) (some infos) = some (info ∷ infos)

abbrev with_info : ProcessInfo → Bytes × Bytes → ProcessInfo
with_info proc (id, file) = record proc { session_id = id; session_file = file }

pub data ScanResult : Type 0 where
  scanned : List ProcessInfo → ScanResult
  no_proc : ScanResult

module _ (sys : System) where
  unfoldable pub ppid_of_lines : List Bytes → ℕ
  ppid_of_lines [] = 0
  ppid_of_lines (line ∷ lines) =
      if has_prefix line (bytes "PPid:")
      then number (sys.atoi (trim_space (trim_prefix line (bytes "PPid:"))))
      else ppid_of_lines lines

  unfoldable pub get_ppid : ℕ → ℕ
  get_ppid pid = elim (sys.status pid) [
    | none ↦ 0
    | some content ↦ ppid_of_lines (split content 0x0A)
  ]

  unfoldable pub is_agentd : ℕ → Bool
  is_agentd pid = elim (sys.exe pid) [
    | none ↦ false
    | some target ↦ contains (base target) (bytes "agentd")
  ]

  -- `rest` is the rounds after this one.
  abbrev pub session_above : (ℕ → Option Bytes) → ℕ → Option Bytes
  session_above rest ppid =
      if leb ppid 1
      then some []
      else if is_tmux_client (sys.cmdline ppid)
      then some (bytes "tmux-attached")
      else rest ppid

  unfoldable pub get_tmux_session_name : ℕ → ℕ → Option Bytes
  get_tmux_session_name zero pid = none
  get_tmux_session_name (suc fuel) pid =
      if ltb 1 pid
      then session_above (λ ppid. get_tmux_session_name fuel ppid) (get_ppid pid)
      else some []

  unfoldable pub detect_tmux_session : ℕ → Option Bytes
  detect_tmux_session pid =
      if has_tmux (split (or_empty (sys.environ pid)) 0)
      then get_tmux_session_name sys.rounds pid
      else some []

  unfoldable pub screen_session : List Bytes → Bytes
  screen_session [] = []
  screen_session (v ∷ vars) =
      if has_prefix v (bytes "STY=")
      then second (trim_prefix v (bytes "STY=")) (split (trim_prefix v (bytes "STY=")) b'.')
      else screen_session vars

  unfoldable pub detect_screen_session : ℕ → Bytes
  detect_screen_session pid = screen_session (split (or_empty (sys.environ pid)) 0)

  unfoldable pub get_terminal : ℕ → Bytes
  get_terminal pid = elim (sys.fd0 pid) [ none ↦ [] | some tty ↦ normalize_tty tty ]

  unfoldable pub first_target : Bytes → List Bytes → Bytes × Bytes
  first_target want_tty [] = ([], [])
  first_target want_tty (out ∷ outs) =
      if not (no_bytes (resolve_tmux_target_from_pane_list out want_tty).0)
      then resolve_tmux_target_from_pane_list out want_tty
      else first_target want_tty outs

  unfoldable pub detect_linux_tmux_from_tty : Bytes → Bytes × Bytes
  detect_linux_tmux_from_tty terminal =
      if no_bytes (normalize_tty terminal)
      then ([], [])
      else first_target (normalize_tty terminal) sys.pane_lists

  -- The session: of the pane, of the environment, of screen.
  abbrev pub session_of : ℕ → Bytes → Option Bytes → Option Bytes
  session_of pid pane_session none = none
  session_of pid pane_session (some tmux_session) =
      if not (no_bytes pane_session)
      then some pane_session
      else if not (no_bytes tmux_session)
      then some tmux_session
      else some (detect_screen_session pid)

  -- The tmux session is looked for where the pane gives none.
  abbrev pub looked_for : ℕ → Bytes → Option Bytes
  looked_for pid pane_session = if no_bytes pane_session then detect_tmux_session pid else some []

  abbrev pub process_info : ℕ → Bytes → List Bytes → Bytes → ProcessInfo
  process_info pid cmd args session = record {
    pid = pid;
    ppid = get_ppid pid;
    cmd = cmd;
    args = args;
    work_dir = work_dir_of (sys.cwd pid);
    provider = detect_provider cmd args;
    session = session;
    terminal = get_terminal pid;
    tmux_target = (detect_linux_tmux_from_tty (get_terminal pid)).0;
    session_id = [];
    session_file = [];
  }

  -- The guards of `scanProcess`, in order.
  abbrev pub is_skipped : ℕ → Bytes → List Bytes → Bool
  is_skipped pid cmd args =
      is_empty (detect_provider cmd args)
      || detect_provider cmd args =s "claude" && is_claude_subagent_args args
      || ltb 0 (get_ppid pid) && is_agentd (get_ppid pid)

  unfoldable pub scan_parts : ℕ → List Bytes → Option (Option ProcessInfo)
  scan_parts pid [] = some none
  scan_parts pid (cmd ∷ args) =
      let pane_session = (detect_linux_tmux_from_tty (get_terminal pid)).1 in
      if is_skipped pid cmd args
      then some none
      else with_session (process_info pid cmd args)
          (session_of pid pane_session (looked_for pid pane_session))

  unfoldable pub scan_process : ℕ → Option (Option ProcessInfo)
  scan_process pid = elim (sys.cmdline pid) [
    | none ↦ some none
    | some content ↦ scan_parts pid (split content 0)
  ]

  abbrev pub entry_pid : Bytes × Bool → Option ℕ
  entry_pid (name, dir) = if dir then sys.atoi name else none

  unfoldable pub scan_entries : List (Bytes × Bool) → Option (List ProcessInfo)
  scan_entries [] = some []
  scan_entries (entry ∷ entries) = elim (entry_pid entry) [
    | none ↦ scan_entries entries
    | some pid ↦ add_found (scan_process pid) (scan_entries entries)
  ]

  unfoldable pub with_session_info : ProcessInfo → ProcessInfo
  with_session_info proc =
      if proc.provider =s "claude"
      then with_info proc (sys.claude_session proc.pid proc.work_dir proc.tmux_target)
      else if proc.provider =s "opencode"
      then with_info proc (sys.opencode_session proc.pid proc.work_dir)
      else if proc.provider =s "hermes"
      then record proc { session_id = hermes_session_id_from_args proc.args }
      else if proc.provider =s "codex"
      then with_info proc (sys.codex_session proc.pid proc.work_dir)
      else proc

  abbrev pub all_with_info : List ProcessInfo → List ProcessInfo
  all_with_info [] = []
  all_with_info (proc ∷ procs) = with_session_info proc ∷ all_with_info procs

  unfoldable pub finalize_process_scan : List ProcessInfo → List ProcessInfo
  finalize_process_scan procs = all_with_info (filter_parent_agents procs)

  abbrev pub finished : Option (List ProcessInfo) → Option ScanResult
  finished none = none
  finished (some infos) = some (scanned (finalize_process_scan infos))

  unfoldable pub scan_linux : Option ScanResult
  scan_linux = elim sys.entries [
    | none ↦ some no_proc
    | some entries ↦ finished (scan_entries entries)
  ]
