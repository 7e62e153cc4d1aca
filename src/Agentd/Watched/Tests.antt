-- ===== src/Agentd/Watched/Tests.antt =====
-- The theorem on watched events, at an agent with one event.
use agnet.Common.{◌≡◌, refl, true, false, none, some, [], ◌∷◌}
use agnet.Common.Text.{◌=b◌}
use agnet.Common.Json.{text, num, flag, null, end, field, get, put}
use agnet.Common.Map.{lookup, insert}
use agnet.Agentd.Agent.{Agent, shown, working, set_status, append_event}
use agnet.Agentd.EventBuf
use agnet.Agentd.Hub.{Hub}
use agnet.Agentd.Stream.{Context, Run, status_to}
use agnet.Agentd.Stream.Laws.{buffer_in}
use agnet.Agentd.Watched.{
  ConversationEvent, normalize_watcher_event, watcher_callback, record_event, update, update_to,
}
use agnet.Agentd.Watched.Laws.{Watched, watcher_callback-Watched}

abbrev agent_1 : Agent
agent_1 = record {
  id = "a1";
  name = "agent";
  provider = "claude";
  work_dir = "/repo";
  cmd = "claude";
  args = [];
  pid = 11;
  status = working;
  process = some 1;
  buf = (EventBuf.append (EventBuf.new 2) (field "msg_id" (text "m1") end)).0;
  watcher = none;
  permission_prompt_active = false;
  permission_prompt_resolved = false;
  permission_resolved_at = 0;
  permission_manager = record { pending_requests = [] };
  resume_session_id = "";
  attach_mode = "";
  attach_read_only = false;
  attach_read_only_reason = "";
  tmux_target = "";
  current_permission_mode = "";
  sending_flag = false;
  on_status_change = true;
}

abbrev hub : Hub
hub = record {
  node_id = "n1";
  agents = ("a1", agent_1) ∷ [];
  store = record { rows = []; down = false };
  broadcasts = [];
  inputs = [];
  controls = [];
  changes = [];
}

abbrev context : Context
context = record {
  env = record {
    now = 1000;
    stamp = [];
    parse_stamp = λ s. 0;
    outside = record { write = λ p s. none; send_keys = λ target done c. none; rounds = 10 };
    display = λ target. shown [];
  };
  decoder = record { questions = λ s. none; plan = λ s. none };
  marshal = λ v. [];
  request_value = λ r. null;
  parse_nano = λ s. none;
  parse_plain = λ s. some 5;
  input_summary = λ name input. name;
  result_summary = λ name output. name;
  on_output = true;
  row_updated = λ id sid. true;
  parent_of = λ id. none;
}

-- More of the message `m1`, that the buffer holds.
abbrev more : ConversationEvent
more = record {
  role = "assistant";
  text = "done";
  tool_summary = "";
  status_change = some "idle";
  msg_id = "m1";
  kind = "";
  tool_name = "";
  tool_use_name = "";
  tool_use_id = "";
  tool_use_input = [];
}

abbrev before : Run
before = record { hub = hub; pushes = []; changes = [] }

held : buffer_in before.hub "a1" ≡ some agent_1.buf
unfolding lookup
held = refl

watcher_callback-Watched_example :
    Watched context "a1" "s1" more agent_1.buf before
      (watcher_callback context "a1" "s1" more before)
watcher_callback-Watched_example =
    watcher_callback-Watched context "a1" "s1" more agent_1.buf before held

-- The clients are told the new text of the event with the number 1.
more_pushes :
    (watcher_callback context "a1" "s1" more before).pushes
    ≡ (
      "a1",
      field "_update" (flag true) (
          field "agentId" (text "a1") (
            field "msg_id" (text "m1") (
              field "text"
                (text "done")
                (field "seq" (num 1) (field "sessionId" (text "s1") end))))),
    )
      ∷ []
unfolding ◌=b◌ watcher_callback normalize_watcher_event record_event update update_to status_to
    set_status lookup insert get put append_event EventBuf.update_or_append EventBuf.find_back
    EventBuf.last_event EventBuf.new EventBuf.append EventBuf.push
more_pushes = refl
