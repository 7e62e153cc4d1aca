-- ===== src/Agentd/Scanner/Tests.antt =====
-- The theorems on the scanner, at a machine with a few processes.
use agnet.Common.{
  ℕ, ◌+◌, ◌*◌, ◌<◌, ◌≡◌, refl, ◌≢◌, ◌↔◌, true, Option, none, some, List, [], ◌∷◌, ◌++◌,
}
use agnet.Common.{◌==◌, if◌then◌else◌, All, arith, String}
use agnet.Common.Text.{Bytes, bytes, ◌=b◌}
use agnet.Common.Strings.{join, has_prefix, contains, split, base, trim_prefix, cut_prefix}
use agnet.Common.Members.{In}
use agnet.Agentd.Scanner
use agnet.Agentd.Scanner.{
  ProcessInfo, no_bytes, normalize_tty, attach_read_only, attach_mode, attach_mode_tmux,
}
use agnet.Agentd.Scanner.{
  detect_provider, provider_of_base, is_claude_subagent_args, has_print_mode, has_output_format,
  node_provider,
}
use agnet.Agentd.Scanner.Ancestors.{walk, has_ai_agent_ancestor, filter_parent_agents, by_pid}
use agnet.Agentd.Scanner.Ancestors.Laws.{HasAgent, info_in, walk_within}
use agnet.Agentd.Scanner.Ancestors.Kept.{In-filter_parent_agents, has_ai_agent_ancestor_direct}
use agnet.Agentd.Scanner.Pane.{resolve_tmux_target_from_pane_list}
use agnet.Agentd.Scanner.Pane.Laws.{
  TmuxPane, IsPrintable, printed, first_pane, resolve_tmux_target_from_pane_list-printed,
}
use agnet.Agentd.Scanner.Linux.{System, scan_linux, scanned}
use agnet.Agentd.Scanner.Linux.Laws.{IsAgentProcess, scan_linux-IsAgentProcess}
use agnet.Agentd.Scanner.Linux.Ends.{scan_linux_ends}

-- A process with an id, a parent and a provider.
abbrev process : ℕ → ℕ → String → ProcessInfo
process pid ppid provider = record {
  pid = pid;
  ppid = ppid;
  cmd = bytes provider;
  args = [];
  work_dir = bytes "/repo";
  provider = provider;
  session = [];
  terminal = bytes "/dev/pts/3";
  tmux_target = [];
  session_id = [];
  session_file = [];
}

-- An agent, its child, the child's child, another agent, and two that are each other's parents.
abbrev family : List ProcessInfo
family =
    process 100 1 "claude"
    ∷ process 101 100 "claude"
    ∷ process 102 101 "claude"
    ∷ process 200 1 "opencode"
    ∷ process 300 301 ""
    ∷ process 301 300 ""
    ∷ []

keeps_parents :
    filter_parent_agents family
    ≡ process 100 1 "claude"
      ∷ process 200 1 "opencode"
      ∷ process 300 301 ""
      ∷ process 301 300 ""
      ∷ []
unfolding filter_parent_agents has_ai_agent_ancestor walk
keeps_parents = refl

walk_within_example : walk 0 (info_in family) 7 [] 300 ≢ none
walk_within_example = walk_within family 300

In-filter_parent_agents_example :
    In (process 200 1 "opencode") (filter_parent_agents family)
    ↔ (In (process 200 1 "opencode") family × ¬ HasAgent 0 (info_in family) 1)
In-filter_parent_agents_example = In-filter_parent_agents (process 200 1 "opencode") family

-- A claude that runs in a shell of another claude: the shell is in no list of agents.
abbrev scanned_agents : List ProcessInfo
scanned_agents = process 100 1 "claude" ∷ process 140 120 "claude" ∷ []

has_ai_agent_ancestor_direct_example :
    (has_ai_agent_ancestor (process 140 120 "claude") scanned_agents ≡ true)
    ↔ ((0 < 120) × (by_pid scanned_agents 120 ≢ none))
has_ai_agent_ancestor_direct_example =
    has_ai_agent_ancestor_direct (process 140 120 "claude") scanned_agents (refl, (refl, tt))

abbrev left_pane : TmuxPane
left_pane = record { tty = bytes "/dev/pts/3"; session = bytes "work"; target = bytes "work:0.1" }

left_pane-IsPrintable : IsPrintable left_pane
unfolding join
left_pane-IsPrintable = record {
  no_tabs = omega arith;
  no_newlines = omega arith;
  shown = λ e. cc;
  target_shown = λ e. cc;
}

abbrev right_pane : TmuxPane
right_pane = record { tty = bytes "/dev/pts/4"; session = bytes "work"; target = bytes "work:0.2" }

right_pane-IsPrintable : IsPrintable right_pane
unfolding join
right_pane-IsPrintable = record {
  no_tabs = omega arith;
  no_newlines = omega arith;
  shown = λ e. cc;
  target_shown = λ e. cc;
}

resolve_tmux_target_from_pane_list-printed_example :
    resolve_tmux_target_from_pane_list (printed (left_pane ∷ right_pane ∷ [])) (bytes "pts/4") ≡ (
      if no_bytes (normalize_tty (bytes "pts/4"))
      then ([], [])
      else first_pane (normalize_tty (bytes "pts/4")) (left_pane ∷ right_pane ∷ []))
resolve_tmux_target_from_pane_list-printed_example =
    resolve_tmux_target_from_pane_list-printed (bytes "pts/4") (left_pane ∷ right_pane ∷ [])
      (left_pane-IsPrintable, (right_pane-IsPrintable, tt))

abbrev digits : ℕ → Bytes → Option ℕ
digits n [] = some n
digits n (b ∷ s) = if b == b'1' then digits (n * 10 + 1) s else none

-- /proc with one process, 11, whose parent is process 1.
abbrev machine : System
machine = record {
  entries = some ((bytes "11", true) ∷ (bytes "self", true) ∷ []);
  cmdline = λ p. if p == 11 then some (bytes "/usr/bin/claude" ++ (0 ∷ [])) else none;
  cwd = λ p. some (bytes "/repo");
  status = λ p. some (bytes "Name: claude" ++ (0x0A ∷ bytes "PPid: 1"));
  exe = λ p. none;
  environ = λ p. some (bytes "TMUX=/tmp/tmux-0/default,1,0");
  fd0 = λ p. none;
  pane_lists = [];
  atoi = digits 0;
  claude_session = λ p dir target. ([], []);
  codex_session = λ p dir. ([], []);
  opencode_session = λ p dir. ([], []);
  rounds = 3;
}

abbrev claude_11 : ProcessInfo
claude_11 = record {
  pid = 11;
  ppid = 1;
  cmd = bytes "/usr/bin/claude";
  args = [] ∷ [];
  work_dir = bytes "/repo";
  provider = "claude";
  session = [];
  terminal = [];
  tmux_target = [];
  session_id = [];
  session_file = [];
}

machine_scan : scan_linux machine ≡ some (scanned (claude_11 ∷ []))
unfolding scan_linux Scanner.Linux.scan_entries Scanner.Linux.scan_process Scanner.Linux.scan_parts
    Scanner.Linux.get_ppid Scanner.Linux.ppid_of_lines Scanner.Linux.is_agentd
    Scanner.Linux.detect_tmux_session Scanner.Linux.get_tmux_session_name
    Scanner.Linux.detect_screen_session Scanner.Linux.screen_session Scanner.Linux.get_terminal
    Scanner.Linux.detect_linux_tmux_from_tty Scanner.Linux.finalize_process_scan
    Scanner.Linux.with_session_info filter_parent_agents has_ai_agent_ancestor walk detect_provider
    provider_of_base is_claude_subagent_args has_print_mode has_output_format normalize_tty split
    base has_prefix trim_prefix cut_prefix contains ◌=b◌
machine_scan = refl

scan_linux-IsAgentProcess_example : All (IsAgentProcess machine) (claude_11 ∷ [])
scan_linux-IsAgentProcess_example = scan_linux-IsAgentProcess machine (claude_11 ∷ []) machine_scan

abbrev depth : ℕ → ℕ
depth p = if p == 1 then 0 else 1

falls : (p : ℕ) → 1 < p → depth (Scanner.Linux.get_ppid machine p) < depth p
unfolding Scanner.Linux.get_ppid Scanner.Linux.ppid_of_lines split has_prefix trim_prefix cut_prefix
falls p h = ground arith

scan_linux_ends_example : scan_linux machine ≢ none
scan_linux_ends_example = scan_linux_ends machine depth falls (λ p. ground arith)
