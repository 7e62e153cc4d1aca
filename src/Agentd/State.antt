-- ===== src/Agentd/State.antt =====
-- agentd/internal/agent/manager.go, DeriveAgentState to deriveSessionControl: the state that clients
-- are shown, from what the agent holds. Whether a process id is alive is a parameter.
pub mod Consistent
use agnet.Common.{
  ℕ, ◌<◌, Bool, true, false, ◌||◌, ◌&&◌, not, Option, none, some, String, ltb, if◌then◌else◌,
}
use agnet.Common.Text.{◌=s◌, is_empty}
use agnet.Agentd.Agent.{Agent, Status, created, idle, working, same_status}

pub data RuntimeState : Type 0 where
  starting stopped crashed live exited : RuntimeState

pub data SessionState : Type 0 where
  active absent resumable broken standby : SessionState

pub data SessionControl : Type 0 where
  attachable read_only managed rebindable unavailable : SessionControl

pub record DerivedAgentState : Type 0 where
  pub runtime_state : RuntimeState
  pub session_state : SessionState
  pub session_state_reason : String
  pub session_control : SessionControl

abbrev pub is_some {ℓ} : {A : Type ℓ} → Option A → Bool
is_some (some a) = true
is_some none = false

abbrev live_or_exited : Bool → RuntimeState
live_or_exited b = if b then live else exited

pub derive_runtime_state : Status → Bool → Bool → Bool → RuntimeState
derive_runtime_state Status.starting p w r = starting
derive_runtime_state Status.stopped p w r = stopped
derive_runtime_state Status.crashed p w r = crashed
derive_runtime_state working p w r = live
derive_runtime_state idle p w r = live_or_exited (p || w || r)
derive_runtime_state created p w r = live_or_exited (p || w || r)

pub derive_session_state : Status → Bool → Bool → String → SessionState × String
derive_session_state working p w sid = (active, "agent is currently producing output")
derive_session_state Status.starting p w sid = (absent, "agent runtime is starting")
derive_session_state Status.stopped p w sid =
    if not (is_empty sid)
    then (resumable, "agent was stopped but session can be resumed")
    else (absent, "agent was stopped and no resumable session is stored")
derive_session_state Status.crashed p w sid =
    if not (is_empty sid)
    then (broken, "agent crashed; resumable session may need rebind")
    else (broken, "agent crashed")
derive_session_state idle p w sid =
    if w
    then (standby, "watcher attached")
    else if p
    then (standby, "runtime is idle")
    else if not (is_empty sid)
    then (resumable, "runtime exited; resume session is available")
    else (absent, "no resumable session is stored")
derive_session_state created p w sid =
    if not (is_empty sid)
    then (resumable, "resume session is available")
    else (absent, "no resumable session is stored")

pub derive_session_control : Bool → Bool → String → Bool → String → SessionControl
derive_session_control p w mode ro sid =
    if mode =s "tmux"
    then attachable
    else if not (is_empty mode)
    then (if ro then read_only else attachable)
    else if p || w
    then managed
    else if not (is_empty sid)
    then rebindable
    else unavailable

-- The test of the process id is made only for an agent with no process and no watcher that has
-- neither stopped nor crashed.
abbrev pub has_running_pid : (ℕ → String → Bool) → Agent → Bool
has_running_pid alive ag =
    not (is_some ag.process)
    && not (is_some ag.watcher)
    && not (same_status ag.status Status.stopped)
    && not (same_status ag.status Status.crashed)
    && ltb 0 ag.pid
    && alive ag.pid ag.provider

pub derive_agent_state : (ℕ → String → Bool) → Agent → String → DerivedAgentState
unfolding derive_runtime_state derive_session_state derive_session_control
derive_agent_state alive ag sid =
    let p = is_some ag.process in
    let w = is_some ag.watcher in
    let (state, reason) = derive_session_state ag.status p w sid in
    record {
      runtime_state = derive_runtime_state ag.status p w (has_running_pid alive ag);
      session_state = state;
      session_state_reason = reason;
      session_control = derive_session_control p w ag.attach_mode ag.attach_read_only sid;
    }
