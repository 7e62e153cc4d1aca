-- ===== src/Agentd/Scanner/Ancestors.antt =====
-- The walk up the parents of a process (agentd/internal/scanner/scanner.go, hasAIAgentAncestor, and
-- scanner_darwin.go, isTrackedAgentCached), and the processes that it leaves.
--
-- Both loops are `walk`: `floor` is the process id at which it stops, and `info` gives the parent
-- of a process in the map and whether the process is an agent.
pub mod Laws
pub mod Kept
use agnet.Common.{ℕ, zero, suc, String, Bool, true, false, ◌&&◌, ◌||◌, not, Option, none, some}
use agnet.Common.{List, [], ◌∷◌, ◌==◌, leb, if◌then◌else◌, length, select, map}
use agnet.Common.Text.{Bytes, bytes, ◌=s◌}
use agnet.Common.Strings.{has_prefix}
use agnet.Agentd.Scanner.{ProcessInfo}

abbrev pub member : ℕ → List ℕ → Bool
member p [] = false
member p (q ∷ qs) = p == q || member p qs

-- What a round does with what the map holds of the process; `rest` is the rounds after it.
abbrev pub visit : (ℕ → Option Bool) → Option (ℕ × Bool) → Option Bool
visit rest none = some false
visit rest (some (ppid, true)) = some true
visit rest (some (ppid, false)) = rest ppid

-- `none` where the fuel ends first.
unfoldable pub walk : ℕ → (ℕ → Option (ℕ × Bool)) → ℕ → List ℕ → ℕ → Option Bool
walk floor info zero seen p = none
walk floor info (suc fuel) seen p =
    if leb p floor || member p seen
    then some false
    else visit (λ ppid. walk floor info fuel (p ∷ seen) ppid) (info p)

-- `m[pid]` of a map that is written once for each process in order.
abbrev pub by_pid : List ProcessInfo → ℕ → Option ProcessInfo
by_pid [] p = none
by_pid (proc ∷ procs) p = elim (by_pid procs p) [
  | some later ↦ some later
  | none ↦ if proc.pid == p then some proc else none
]

abbrev pub is_ai_agent : ProcessInfo → Bool
is_ai_agent p =
    p.provider =s "claude"
    || p.provider =s "opencode"
    || p.provider =s "hermes"
    || p.provider =s "codex"

abbrev pub parent_info : Option ProcessInfo → Option (ℕ × Bool)
parent_info none = none
parent_info (some parent) = some (parent.ppid, is_ai_agent parent)

abbrev answer : Option Bool → Bool
answer none = false
answer (some b) = b

-- One round for each process, and one for the end.
unfoldable pub has_ai_agent_ancestor : ProcessInfo → List ProcessInfo → Bool
has_ai_agent_ancestor proc procs =
    answer (walk 0 (λ p. parent_info (by_pid procs p)) (suc (length procs)) [] proc.ppid)

unfoldable pub filter_parent_agents : List ProcessInfo → List ProcessInfo
filter_parent_agents procs = select (λ proc. not (has_ai_agent_ancestor proc procs)) procs

pub record DarwinProcInfo : Type 0 where
  pub pid : ℕ
  pub ppid : ℕ
  pub comm : Bytes

abbrev pub darwin_by_pid : List DarwinProcInfo → ℕ → Option DarwinProcInfo
darwin_by_pid [] p = none
darwin_by_pid (proc ∷ procs) p = elim (darwin_by_pid procs p) [
  | some later ↦ some later
  | none ↦ if proc.pid == p then some proc else none
]

abbrev pub darwin_info : Option DarwinProcInfo → Option (ℕ × Bool)
darwin_info none = none
darwin_info (some i) = some (
  i.ppid,
  has_prefix i.comm (bytes "claude")
      || has_prefix i.comm (bytes "opencode")
      || has_prefix i.comm (bytes "codex"),
)

unfoldable pub is_tracked_agent_cached : ℕ → List DarwinProcInfo → Bool
is_tracked_agent_cached pid all_procs =
    answer (walk 1 (λ p. darwin_info (darwin_by_pid all_procs p)) (suc (length all_procs)) [] pid)
