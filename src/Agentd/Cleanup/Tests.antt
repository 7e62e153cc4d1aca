-- ===== src/Agentd/Cleanup/Tests.antt =====
-- The theorem on the cleanup, at a dead agent and one that waits for its session.
use mathlib.Core.List.{Permᴰ}
use agnet.Common.{
  ℕ, ◌≡◌, refl, ◌↔◌, arith, String, true, false, not, Option, none, some, [], ◌∷◌, ◌==◌, select,
}
use agnet.Common.Members.{In}
use agnet.Common.Text.{eq_iff}
use agnet.Common.Map.{Map}
use agnet.Agentd.Agent.{Agent, Watcher, claude_watcher, working, set_status, set_watcher}
use agnet.Agentd.EventBuf
use agnet.Agentd.Cleanup.{
  Fleet, Running, promote, promote_all, sweep, get_resume_session_id, delete_agent,
  cleanup_dead_agents,
}
use agnet.Agentd.Cleanup.Laws.{gone, dies}
use agnet.Agentd.Cleanup.Left.{after, cleanup_dead_agents_cases}

abbrev agent : String → ℕ → Agent
agent id pid = record {
  id = id;
  name = "agent";
  provider = "claude";
  work_dir = "/repo";
  cmd = "claude";
  args = [];
  pid = pid;
  status = working;
  process = none;
  buf = EventBuf.new 2;
  watcher = none;
  permission_prompt_active = false;
  permission_prompt_resolved = false;
  permission_resolved_at = 0;
  permission_manager = record { pending_requests = [] };
  resume_session_id = "";
  attach_mode = "";
  attach_read_only = false;
  attach_read_only_reason = "";
  tmux_target = "";
  current_permission_mode = "";
  sending_flag = false;
  on_status_change = true;
}

-- The process 11 is gone.
abbrev running : Running
running pid provider = not (pid == 11)

abbrev started : Agent → String → Option Watcher
started ag session = some (claude_watcher 7)

abbrev fleet : Fleet
fleet = record {
  agents = ("a1", agent "a1" 11) ∷ ("a2", agent "a2" 12) ∷ [];
  table =
      record { id = "a1"; resume_session_id = "s1" }
      ∷ record { id = "a2"; resume_session_id = "s1" }
      ∷ [];
  changes = [];
}

-- A range that meets the agents from the last to the first, where there are two.
abbrev ranged : Map Agent → Map Agent
ranged (x ∷ y ∷ []) = y ∷ x ∷ []
ranged m = m

as_it_is : (m : Map Agent) → Permᴰ m m
as_it_is [] = Permᴰ.nil
as_it_is (x ∷ m) = Permᴰ.cons refl (as_it_is m)

range : (m : Map Agent) → Permᴰ m (ranged m)
range [] = Permᴰ.nil
range (x ∷ []) = as_it_is (x ∷ [])
range (x ∷ y ∷ []) = Permᴰ.swap refl refl
range (x ∷ y ∷ z ∷ m) = as_it_is (x ∷ y ∷ z ∷ m)

left :
    (cleanup_dead_agents running started ranged fleet).agents
    ≡ ("a2", record (agent "a2" 12) { watcher = some (claude_watcher 7) }) ∷ []
unfolding cleanup_dead_agents sweep promote_all promote get_resume_session_id delete_agent
    set_status set_watcher
left = refl

cleanup_dead_agents_cases_example :
    ((id : String) (ag' : Agent)
      → In (id, ag') (cleanup_dead_agents running started ranged fleet).agents ↔ (
          (ag : Agent) × In (id, ag) fleet.agents
          × (gone running ag ≡ false)
          × (ag' ≡ after running started fleet ag)))
    × ((cleanup_dead_agents running started ranged fleet).table
        ≡ select (λ row. not (dies running row.id fleet.agents)) fleet.table)
cleanup_dead_agents_cases_example =
    cleanup_dead_agents_cases running started ranged fleet range
      (((λ e. ground (arith, (eq_iff "a2" "a1").1 e)), tt), (tt, tt))
