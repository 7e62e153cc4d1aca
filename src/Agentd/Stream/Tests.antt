-- ===== src/Agentd/Stream/Tests.antt =====
-- The theorems on stream events, at an agent that has printed nothing yet.
use agnet.Common.{◌≡◌, refl, true, false, none, some, [], ◌∷◌, arith}
use agnet.Common.Json.{num, flag, text, null, get, put, end, field}
use agnet.Common.Map.{lookup, insert}
use agnet.Agentd.Agent.{Agent, shown, working, set_status, append_event}
use agnet.Agentd.EventBuf
use agnet.Agentd.EventBuf.{EventBuffer}
use agnet.Agentd.EventBuf.Inv.{new-IsValid}
use agnet.Agentd.Hub.{Hub}
use agnet.Agentd.Stream.{plain, StreamJsonEvent, Context, emit, emit_to, status_to}
use agnet.Agentd.Stream.Message
use agnet.Agentd.Stream.Dispatch.{dispatch, handle_stream_json_event}
use agnet.Agentd.Stream.Laws.{buffer_in, Recorded}
use agnet.Agentd.Stream.Once.{start}
use agnet.Agentd.Stream.Handled.{handle_stream_json_event-Recorded, handle_stream_json_event_once}

abbrev agent_1 : Agent
agent_1 = record {
  id = "a1";
  name = "agent";
  provider = "claude";
  work_dir = "/repo";
  cmd = "claude";
  args = [];
  pid = 11;
  status = working;
  process = some 1;
  buf = EventBuf.new 2;
  watcher = none;
  permission_prompt_active = false;
  permission_prompt_resolved = false;
  permission_resolved_at = 0;
  permission_manager = record { pending_requests = [] };
  resume_session_id = "";
  attach_mode = "";
  attach_read_only = false;
  attach_read_only_reason = "";
  tmux_target = "";
  current_permission_mode = "";
  sending_flag = false;
  on_status_change = true;
}

abbrev hub : Hub
hub = record {
  node_id = "n1";
  agents = ("a1", agent_1) ∷ [];
  store = record { rows = []; down = false };
  broadcasts = [];
  inputs = [];
  controls = [];
  changes = [];
}

abbrev context : Context
context = record {
  env = record {
    now = 1000;
    stamp = [];
    parse_stamp = λ s. 0;
    outside = record { write = λ p s. none; send_keys = λ target done c. none; rounds = 10 };
    display = λ target. shown [];
  };
  decoder = record { questions = λ s. none; plan = λ s. none };
  marshal = λ v. [];
  request_value = λ r. null;
  parse_nano = λ s. none;
  parse_plain = λ s. some 5;
  input_summary = λ name input. name;
  result_summary = λ name output. name;
  on_output = true;
  row_updated = λ id sid. true;
  parent_of = λ id. none;
}

abbrev typed : StreamJsonEvent
typed = record {
  kind = "user";
  role = "";
  content = plain "stop";
  name = "";
  input = [];
  output = [];
  timestamp = "t";
  raw = end;
}

held : buffer_in hub "a1" ≡ some (EventBuf.new 2)
unfolding lookup
held = refl

handle_stream_json_event-Recorded_example :
    Recorded context "a1"
      (EventBuf.new 2)
      (start hub)
      (handle_stream_json_event context hub "a1" typed)
handle_stream_json_event-Recorded_example =
    handle_stream_json_event-Recorded context hub "a1" (EventBuf.new 2) typed held

handle_stream_json_event_once_example :
    handle_stream_json_event context
      (handle_stream_json_event context hub "a1" typed).hub
      "a1"
      typed
    ≡ start (handle_stream_json_event context hub "a1" typed).hub
handle_stream_json_event_once_example =
    handle_stream_json_event_once context hub "a1" (EventBuf.new 2) typed
      (new-IsValid 2 (omega arith)) held refl refl

-- The message is told to the clients with its number, and the agent is idle.
typed_pushes :
    (handle_stream_json_event context hub "a1" typed).pushes
    ≡ (
      "a1",
      field "role" (text "user") (
          field "text" (text "stop") (
            field "raw"
              (flag false)
              (field "kind" (text "user") (field "timestamp" (num 5) (field "seq" (num 1) end))))),
    )
      ∷ []
unfolding handle_stream_json_event dispatch Message.on_message emit emit_to status_to set_status
    lookup insert get put append_event EventBuf.last_event EventBuf.new EventBuf.append
    EventBuf.push
typed_pushes = refl
