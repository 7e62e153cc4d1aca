-- ===== src/Agentd/Tests.antt =====
-- The theorems on one agent, its permissions, its derived state, the store and the providers, at
-- concrete values.
use agnet.Common.{arith, inr, ℕ, ◌≤◌, ◌≡◌, ◌≢◌, refl, true, false, none, List, [], ◌∷◌, String}
use agnet.Common.Text.{bytes}
use agnet.Common.Json.{text, end, field}
use agnet.Agentd.EventBuf
use agnet.Agentd.Permission.{
  PermissionRequest, PermissionResponse, PermissionManager, new_permission_manager,
}
use agnet.Agentd.Permission.Laws.{Op, asks, answers, asked, taken, taken-le-asked}
use agnet.Agentd.Agent.{Agent, idle, Outside, Display, shown}
use agnet.Agentd.State.{derive_agent_state}
use agnet.Agentd.State.Consistent.{IsConsistent, derive_agent_state-IsConsistent}
use agnet.Agentd.Store.{Row, Store, save_conversation_event_with_session}
use agnet.Agentd.Store.Laws.{rows_of, save_conversation_event_with_session_lem}

abbrev request : PermissionRequest
request = record {
  request_id = "r1";
  tool_name = "Bash";
  display_name = "Bash";
  title = "";
  description = "";
  input = end;
  permission_suggestions = [];
  tool_use_id = "";
  agent_id = "a1";
  blocked_path = "";
  decision_reason = "";
  ai_validation = none;
  timestamp = 7;
}

abbrev response : PermissionResponse
response = record {
  request_id = "r1";
  behavior = "allow";
  message = "";
  updated_input = end;
  updated_permissions = [];
}

abbrev pending : PermissionManager
pending = record { pending_requests = ("r1", request) ∷ [] }

abbrev ops : List Op
ops = asks 1 request ∷ answers response ∷ answers response ∷ []

taken-le-asked_example : taken "r1" new_permission_manager ops ≤ asked "r1" ops
taken-le-asked_example = taken-le-asked "r1" ops

-- An agent attached to a pane.
abbrev attached : Agent
attached = record {
  id = "a1";
  name = "agent";
  provider = "codex";
  work_dir = "/tmp";
  cmd = "codex";
  args = [];
  pid = 0;
  status = idle;
  process = none;
  buf = EventBuf.new 4;
  watcher = none;
  permission_prompt_active = false;
  permission_prompt_resolved = false;
  permission_resolved_at = 0;
  permission_manager = pending;
  resume_session_id = "s1";
  attach_mode = "tmux";
  attach_read_only = false;
  attach_read_only_reason = "";
  tmux_target = "main:0.0";
  current_permission_mode = "";
  sending_flag = false;
  on_status_change = true;
}

abbrev outside : Outside
outside = record { write = λ p s. none; send_keys = λ target done c. none; rounds = 1000 }

abbrev pane : String
pane = "main:0.0"

abbrev shows_codex : String → Display
shows_codex target = shown (bytes "codex")

derive_agent_state-IsConsistent_example :
    IsConsistent attached "s1" (derive_agent_state (λ pid name. false) attached "s1")
derive_agent_state-IsConsistent_example =
    derive_agent_state-IsConsistent (λ pid name. false) attached "s1"

abbrev row : ℕ → String → Row
row n msg = record {
  agent_id = "a1";
  seq = n;
  body = field "text" (text msg) end;
  created_at = [];
  session_id = "s1";
}

abbrev store : Store
store = record { rows = row 1 "one" ∷ row 2 "two" ∷ []; down = false }

two_ne_one : ◌≢◌ {A = ℕ} 2 1
two_ne_one = omega arith

save_conversation_event_with_session_lem_example :
    let s' =
      (save_conversation_event_with_session store "a1" "s1" 2
        (field "text" (text "new") end)
        []).0 in
    (rows_of "a1" 2 s'.rows ≡ row 2 "new" ∷ [])
    × (rows_of "a1" 1 s'.rows ≡ rows_of "a1" 1 store.rows)
save_conversation_event_with_session_lem_example =
    save_conversation_event_with_session_lem store "a1" "s1" 2 (field "text" (text "new") end) []
      "a1" 1 refl refl (inr two_ne_one)

abbrev open_code : String
open_code = "opencode"

abbrev unattached : String
unattached = ""
