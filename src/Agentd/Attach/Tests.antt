-- ===== src/Agentd/Attach/Tests.antt =====
-- The theorem on attaching, at the processes of a scan.
use agnet.Common.{ℕ, ◌≡◌, String, ◌&&◌, not, List, [], ◌∷◌, length, select, if◌then◌else◌}
use agnet.Common.Text.{Bytes, bytes}
use agnet.Agentd.Scanner.{ProcessInfo}
use agnet.Agentd.Attach.{auto_attach_existing}
use agnet.Agentd.Attach.Laws.{
  is_of, is_loose, offered, stored, is_eligible, auto_attach_existing_once,
}

abbrev process : ℕ → String → Bytes → ProcessInfo
process pid provider session_id = record {
  pid = pid;
  ppid = 1;
  cmd = bytes provider;
  args = [];
  work_dir = bytes "/w";
  provider = provider;
  session = [];
  terminal = bytes "/dev/pts/1";
  tmux_target = [];
  session_id = session_id;
  session_file = [];
}

-- Two of one session, one of a session that is stored, and one without a session.
abbrev procs : List ProcessInfo
procs =
    process 11 "claude" (bytes "s1")
    ∷ process 12 "claude" (bytes "s1")
    ∷ process 13 "opencode" (bytes "s2")
    ∷ process 14 "claude" []
    ∷ []

abbrev rows : List (String × Bytes)
rows = ("opencode", bytes "s2") ∷ ("codex", []) ∷ []

auto_attach_existing_once_example :
    ((k : Bytes)
      → length (select (is_of k) (auto_attach_existing rows procs))
        ≡ (if offered k procs && not (stored k rows) then 1 else 0))
    × (select is_loose (auto_attach_existing rows procs)
        ≡ select (λ info. is_eligible info && is_loose info) procs)
auto_attach_existing_once_example = auto_attach_existing_once rows procs
