-- ===== src/Agentd/Handler/Tests.antt =====
-- The theorems on the handlers, at a concrete daemon.
use agnet.Common.{
  ◌++◌, ◌==◌, ℕ, zero, suc, ◌≡◌, ◌≢◌, refl, arith, true, false, none, some, [], ◌∷◌, String, select,
  All,
}
use agnet.Common.Text.{bytes, eq_iff, ◌=s◌, ◌=b◌}
use agnet.Common.Json.{text, end, field}
use agnet.Common.Map.{lookup}
use agnet.Agentd.EventBuf.{Event, EventBuffer}
use agnet.Agentd.EventBuf.Order.{IsConsecutive}
use agnet.Agentd.Permission.{PermissionRequest, get_pending_requests}
use agnet.Agentd.Agent.{write_input, Agent, idle, shown}
use agnet.Agentd.Store.{Row}
use agnet.Agentd.Hub.{Env, Hub, type_into, record_conversation_event, append_and_persist_event}
use agnet.Agentd.Handler.{no_resp}
use agnet.Agentd.Handler.Key.{ConversationKeyParams, key_to_bytes, conversation_key}
use agnet.Agentd.Handler.Key.Laws.{conversation_key-hangs, conversation_key-answers}
use agnet.Agentd.Handler.History.{
  ConversationHistoryParams, history, history_events, conversation_history, conversation_clear,
}
use agnet.Agentd.Handler.History.Laws.{seqs, history_events_no_gap, history_events_gap}
use agnet.Agentd.Handler.History.Clear.{history_after_clear, conversation_clear-frame}
use agnet.Agentd.Provider.{SendMode}
use agnet.Agentd.Handler.Send.{
  SendContext, handle_send_tmux, pane_error, tmux_checked, tmux_recorded, type_prompt, then_write,
  tmux_written,
}
use agnet.Agentd.Handler.Send.Laws as SendLaws
use agnet.Agentd.Handler.Send.Frame.{done}
use agnet.Agentd.Handler.Send.Typed.{whole, IsAccepted}
use agnet.Agentd.Handler.Send.Laws.{handle_send_tmux_typed}
use agnet.Agentd.Handler.Terminal.{
  handle_send_pty, pty_ok, pty_recorded, answer_prompt, type_message, watch_prompt, on_write,
  retype,
}
use agnet.Agentd.Handler.Terminal.Laws.{IsLast, handle_send_pty-IsLast}
use agnet.Agentd.Handler.Answer.{
  ConversationPermissionResponseParams, conversation_permission_response,
}
use agnet.Agentd.Handler.Answer.Laws.{Refuses, conversation_permission_response_once}

abbrev event : ℕ → Event
event n = record { seq = n; body = field "text" (text "x") end }

-- After a restart: the events 4 and 5 in the buffer, whose counter was set to 3.
abbrev restarted : EventBuffer
restarted = record {
  cap = 4;
  seq = 5;
  buf = event 4 ∷ event 5 ∷ record { seq = 0; body = end } ∷ record { seq = 0; body = end } ∷ [];
  head = 0;
  count = 2;
}

restarted-IsConsecutive : IsConsecutive restarted
restarted-IsConsecutive zero h = refl
restarted-IsConsecutive (suc zero) h = refl
restarted-IsConsecutive (suc (suc i)) h = absurd (omega arith)

abbrev request : PermissionRequest
request = record {
  request_id = "r1";
  tool_name = "Bash";
  display_name = "Bash";
  title = "";
  description = "";
  input = end;
  permission_suggestions = [];
  tool_use_id = "";
  agent_id = "a1";
  blocked_path = "";
  decision_reason = "";
  ai_validation = none;
  timestamp = 7;
}

abbrev attached : Agent
attached = record {
  id = "a1";
  name = "agent";
  provider = "codex";
  work_dir = "/tmp";
  cmd = "codex";
  args = [];
  pid = 0;
  status = idle;
  process = none;
  buf = restarted;
  watcher = none;
  permission_prompt_active = false;
  permission_prompt_resolved = false;
  permission_resolved_at = 0;
  permission_manager = record { pending_requests = ("r1", request) ∷ [] };
  resume_session_id = "s1";
  attach_mode = "tmux";
  attach_read_only = false;
  attach_read_only_reason = "";
  tmux_target = "main:0.0";
  current_permission_mode = "";
  sending_flag = false;
  on_status_change = true;
}

abbrev row : ℕ → Row
row n = record {
  agent_id = "a1";
  seq = n;
  body = field "text" (text "x") end;
  created_at = [];
  session_id = "s1";
}

abbrev hub : Hub
hub = record {
  node_id = "n1";
  agents = ("a1", attached) ∷ [];
  store = record { rows = row 1 ∷ row 2 ∷ row 3 ∷ row 4 ∷ row 5 ∷ []; down = false };
  broadcasts = [];
  inputs = [];
  controls = [];
  changes = [];
}

abbrev env : Env
env = record {
  now = 1000;
  stamp = [];
  parse_stamp = λ s. 0;
  outside = record { write = λ p s. none; send_keys = λ target done c. none; rounds = 1000 };
  display = λ target. shown (bytes "codex");
}

abbrev press : String → ConversationKeyParams
press k = record { agent_id = "a1"; key = bytes k; repeat = some 3 }

ctrl_c_bytes : key_to_bytes (press "ctrl_c").key ≡ some (0x03 ∷ [])
unfolding key_to_bytes ◌=b◌
ctrl_c_bytes = refl

up_bytes : key_to_bytes (press "up").key ≡ some (0x1B ∷ b'[' ∷ b'A' ∷ [])
unfolding key_to_bytes ◌=b◌
up_bytes = refl

found : lookup "a1" hub.agents ≡ some attached
unfolding lookup
found = refl

main_pane : ◌≢◌ {A = String} "main:0.0" ""
main_pane e = ground (arith, (eq_iff "main:0.0" "").1 e)

conversation_key-hangs_example : (conversation_key env hub (press "ctrl_c")).1 ≡ no_resp
conversation_key-hangs_example =
    conversation_key-hangs env hub (press "ctrl_c") attached (0x03 ∷ []) ctrl_c_bytes refl found
      refl (refl, main_pane, refl) (λ made c. refl)

conversation_key-answers_example : (conversation_key env hub (press "up")).1 ≢ no_resp
conversation_key-answers_example =
    conversation_key-answers env hub (press "up") (0x1B ∷ b'[' ∷ b'A' ∷ []) up_bytes refl
      (omega arith)

-- The cursor 3 is covered by the buffer.
history_events_no_gap_example : seqs (history_events env hub "a1" attached 0 3 200) ≡ 4 ∷ 5 ∷ []
history_events_no_gap_example =
    history_events_no_gap env hub "a1" attached 3 200 restarted-IsConsecutive (omega arith)
      (omega arith) (omega arith)

-- The cursor 1 is older than the buffer: the events 2 and 3, which the store has, are left out.
history_events_gap_example : seqs (history_events env hub "a1" attached 0 1 200) ≡ 4 ∷ 5 ∷ []
history_events_gap_example =
    history_events_gap env hub "a1" attached 1 200 restarted-IsConsecutive (omega arith)
      (omega arith) (omega arith)

abbrev newest : ConversationHistoryParams
newest = record { agent_id = "a1"; cursor = 0; limit = 50; before = 0 }

history_after_clear_example :
    conversation_history env (conversation_clear hub "a1" "n1").0 newest
    ≡ history (record {
      events = [];
      last_seq = 0;
      first_seq = 0;
      permission_requests = get_pending_requests attached.permission_manager;
      session_id = "s1";
    })
history_after_clear_example = history_after_clear env hub "n1" newest attached refl found

b_ne_a : ◌≢◌ {A = String} "b1" "a1"
b_ne_a e = ground (arith, (eq_iff "b1" "a1").1 e)

-- Two agents with an event each in the store.
abbrev both_hub : Hub
both_hub = record hub {
  agents = ("a1", attached) ∷ ("b1", record attached { id = "b1" }) ∷ [];
  store = record { rows = row 1 ∷ record (row 2) { agent_id = "b1" } ∷ []; down = false };
}

conversation_clear-frame_example :
    (lookup "a1" (conversation_clear both_hub "b1" "n1").0.agents ≡ lookup "a1" both_hub.agents)
    × (select (λ (r : Row). r.agent_id =s "a1") (conversation_clear both_hub "b1" "n1").0.store.rows
        ≡ select (λ (r : Row). r.agent_id =s "a1") both_hub.store.rows)
conversation_clear-frame_example = conversation_clear-frame both_hub "b1" "n1" "a1" b_ne_a

abbrev allows : ConversationPermissionResponseParams
allows = record {
  agent_id = "a1";
  request_id = "r1";
  behavior = "allow";
  message = "";
  updated_input = end;
}

conversation_permission_response_once_example :
    let hub' = (conversation_permission_response hub allows).0 in
    Refuses hub' (conversation_permission_response hub' allows)
conversation_permission_response_once_example = conversation_permission_response_once hub allows

abbrev message : SendContext
message = record {
  agent_id = "a1";
  message = "hi";
  raw = false;
  image_files = [];
  image_paths = [];
  ag = attached;
  caps = record {
    name = "codex";
    supports_thinking = true;
    supports_tool_use = true;
    supports_interactive_question = false;
    supports_permission_prompt = false;
    supports_session_switch = true;
    supports_image_attachment = true;
    requires_tmux_foreground_validation = false;
    send_mode = SendMode.tmux;
  };
}

-- An agent with a process, so that every write is accepted.
abbrev terminal : SendContext
terminal = record message { ag = record attached { process = some 1 } }

terminal_ok : (handle_send_pty env hub terminal (λ i. i == 2)).1 ≡ pty_ok
unfolding handle_send_pty pty_recorded answer_prompt type_message watch_prompt on_write retype
    type_into write_input record_conversation_event append_and_persist_event lookup
terminal_ok = refl

handle_send_pty-IsLast_example :
    IsLast env terminal (handle_send_pty env hub terminal (λ i. i == 2)).0
handle_send_pty-IsLast_example = handle_send_pty-IsLast env hub terminal (λ i. i == 2) terminal_ok

typed_ok : (handle_send_tmux env hub terminal).1 ≡ done terminal
unfolding handle_send_tmux pane_error tmux_checked tmux_recorded type_prompt then_write tmux_written
    type_into write_input record_conversation_event append_and_persist_event lookup
typed_ok = refl

handle_send_tmux_typed_example :
    ((handle_send_tmux env hub terminal).0.inputs ≡ whole env terminal ++ [])
    × All IsAccepted (whole env terminal)
handle_send_tmux_typed_example = handle_send_tmux_typed env hub terminal typed_ok
