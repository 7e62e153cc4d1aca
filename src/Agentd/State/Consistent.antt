-- ===== src/Agentd/State/Consistent.antt =====
-- The parts of a derived state never contradict one another.
use agnet.Common.{ℕ, ◌≡◌, ◌≢◌, arith, Bool, true, false, ◌||◌, String}
use agnet.Common.Text.{eq_iff}
use agnet.Agentd.Agent.{Agent, idle, working}
use agnet.Agentd.State.{
  DerivedAgentState, RuntimeState, live, exited, active, resumable, broken, standby, rebindable,
  read_only, derive_agent_state, is_some,
}

-- What the parts of a derived state say of one another and of the agent.
pub record IsConsistent (ag : Agent) (sid : String) (d : DerivedAgentState) : Type 0 where
  pub active_is_live : d.session_state ≡ active → (ag.status ≡ working) × (d.runtime_state ≡ live)
  pub standby_is_live :
      d.session_state ≡ standby
      → (ag.status ≡ idle)
        × (d.runtime_state ≡ live)
        × ((is_some ag.process || is_some ag.watcher) ≡ true)
  pub broken_is_crashed : d.session_state ≡ broken → d.runtime_state ≡ RuntimeState.crashed
  pub crashed_is_broken : d.runtime_state ≡ RuntimeState.crashed → d.session_state ≡ broken
  pub resumable_has_session : d.session_state ≡ resumable → sid ≢ ""
  pub exited_has_nothing :
      d.runtime_state ≡ exited → (is_some ag.process ≡ false) × (is_some ag.watcher ≡ false)
  pub rebindable_has_session :
      d.session_control ≡ rebindable
      → (sid ≢ "")
        × (ag.attach_mode ≡ "")
        × (is_some ag.process ≡ false)
        × (is_some ag.watcher ≡ false)
  pub read_only_is_attached :
      d.session_control ≡ read_only → (ag.attach_read_only ≡ true) × (ag.attach_mode ≢ "tmux")

-- Whatever the agent holds and whether or not its process id is alive, the derived state is
-- consistent.
pub derive_agent_state-IsConsistent :
    (alive : ℕ → String → Bool) (ag : Agent) (sid : String)
    → IsConsistent ag sid (derive_agent_state alive ag sid)
unfolding derive_agent_state
derive_agent_state-IsConsistent alive ag sid =
    ground (arith, eq_iff sid "", eq_iff ag.attach_mode "tmux", eq_iff ag.attach_mode "")
