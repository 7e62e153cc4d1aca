-- ===== src/Agentd/Attach.antt =====
-- agentd/internal/agent/manager.go: which of the processes that a scan finds are attached
-- (ClassifyAttachCandidate, AutoAttachExisting). `Attach` itself is outside: the model says which
-- processes it is called for.
pub mod Laws
mod Tests
use agnet.Common.{
  ℕ, String, Bool, true, false, ◌&&◌, ◌||◌, not, List, [], ◌∷◌, ◌++◌, ◌==◌, if◌then◌else◌,
}
use agnet.Common.Text.{Bytes, bytes, ◌=s◌, ◌=b◌, is_empty, trim_space, to_lower}
use agnet.Common.Strings.{has_prefix}
use agnet.Agentd.Scanner.{
  ProcessInfo, AttachModes, attach_mode_tmux, attach_mode_watcher, attach_mode,
}

pub data AttachDecision : Type 0 where
  auto display ambiguous skip : AttachDecision

pub record AttachCandidate : Type 0 where
  pub process : ProcessInfo
  pub decision : AttachDecision
  pub reason : String

-- Two arguments in a row are `gateway` and `run`, whatever their case.
unfoldable pub runs_gateway : List Bytes → Bool
runs_gateway [] = false
runs_gateway (a ∷ []) = false
runs_gateway (a ∷ b ∷ args) =
    (to_lower a =b bytes "gateway" && to_lower b =b bytes "run") || runs_gateway (b ∷ args)

unfoldable pub is_hermes_gateway_run_process : ProcessInfo → Bool
is_hermes_gateway_run_process info =
    if not (info.provider =s "hermes") then false else runs_gateway info.args

abbrev is_tmux : AttachModes → Bool
is_tmux attach_mode_tmux = true
is_tmux attach_mode_watcher = false

abbrev is_tty : Bytes → Bool
is_tty terminal =
    if terminal =b []
    then false
    else if terminal =b bytes "/dev/null" || has_prefix terminal (bytes "pipe:")
    then false
    else has_prefix terminal (bytes "/dev/tty") || has_prefix terminal (bytes "/dev/pts/")

unfoldable pub is_hermes_interactive_process : ProcessInfo → Bool
is_hermes_interactive_process info =
    if not (info.provider =s "hermes")
    then false
    else if is_tmux (attach_mode info)
    then true
    else is_tty (trim_space info.terminal)

abbrev candidate : ProcessInfo → AttachDecision → String → AttachCandidate
candidate info d reason = record { process = info; decision = d; reason = reason }

unfoldable pub classify_attach_candidate : ProcessInfo → AttachCandidate
classify_attach_candidate info =
    if info.pid == 0
    then candidate info skip "missing pid"
    else if is_hermes_gateway_run_process info
    then candidate info skip "hermes gateway daemon process"
    else if info.provider =s "hermes"
    then (if not (is_hermes_interactive_process info)
        then candidate info skip "hermes process is not interactive"
        else candidate info auto "interactive hermes process")
    else if not (info.provider =s "claude")
    then candidate info auto "non-claude process"
    else if not (info.session_id =b [])
    then candidate info auto "stable session identity"
    else candidate info display "claude process has no stable session id"

abbrev is_attached : AttachDecision → Bool
is_attached auto = true
is_attached display = true
is_attached _ = false

abbrev pub is_candidate : ProcessInfo → Bool
is_candidate info = is_attached (classify_attach_candidate info).decision

-- `provider + "|" + session`
abbrev pub session_key : String → Bytes → Bytes
session_key provider session = bytes provider ++ (0x7C ∷ session)

abbrev pub key_of : ProcessInfo → Bytes
key_of info = session_key info.provider info.session_id

abbrev pub has_session : ProcessInfo → Bool
has_session info = not (info.session_id =b [])

-- A map from keys to `true`.
abbrev pub holds : Bytes → List Bytes → Bool
holds k [] = false
holds k (j ∷ js) = j =b k || holds k js

-- The keys of the agents in the store, each row its provider and its session; no rows where the store
-- fails.
unfoldable pub existing_sessions : List (String × Bytes) → List Bytes
existing_sessions [] = []
existing_sessions ((provider, session) ∷ rows) =
    let rest = existing_sessions rows in
    if not (session =b []) then session_key provider session ∷ rest else rest

-- The processes for which the loop calls `Attach`, in order.
unfoldable pub attach_each : List Bytes → List Bytes → List ProcessInfo → List ProcessInfo
attach_each existing seen [] = []
attach_each existing seen (info ∷ procs) = elim (is_candidate info) [
  | false ↦ attach_each existing seen procs
  | true ↦ elim (has_session info) [
    | false ↦ info ∷ attach_each existing seen procs
    | true ↦ elim (holds (key_of info) existing || holds (key_of info) seen) [
      | true ↦ attach_each existing seen procs
      | false ↦ info ∷ attach_each existing (key_of info ∷ seen) procs
    ]
  ]
]

unfoldable pub auto_attach_existing : List (String × Bytes) → List ProcessInfo → List ProcessInfo
auto_attach_existing rows procs = attach_each (existing_sessions rows) [] procs
