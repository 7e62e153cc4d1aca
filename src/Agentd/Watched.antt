-- ===== src/Agentd/Watched.antt =====
-- agentd/internal/agent/event_normalizer.go and makeWatcherCallback of manager.go: what agentd does with
-- an event that a watcher reads from the file of a session.
--
-- As with the stream, the buffer holds the very map that gets `data["seq"]` afterwards.
pub mod Laws
mod Tests
use agnet.Common.{
  ℕ, String, Bool, true, false, ◌&&◌, not, Option, none, some, List, [], ◌∷◌, if◌then◌else◌,
}
use agnet.Common.Text.{Bytes, bytes, ◌=s◌, ◌=b◌, is_empty, trim_space}
use agnet.Common.Json.{Fields, Value, obj, text, num, flag, end, field, get, put, text_or_empty}
use agnet.Common.Map.{lookup, insert}
use agnet.Agentd.Agent.{Agent, idle, working}
use agnet.Agentd.EventBuf
use agnet.Agentd.Hub.{Hub}
use agnet.Agentd.Store.{save_conversation_event_with_session}
use agnet.Agentd.Interactive.{
  Decoder, Payload, parse_interactive_tool_use, payload_fields, payload_key_for_kind,
}
use agnet.Agentd.Stream.{Context, Run, status_to, emit}
use agnet.Agentd.Stream.Message.{is_repeated}
use agnet.Agentd.Stream.Tool.{keyed}

pub record ConversationEvent : Type 0 where
  pub role : String
  pub text : String
  pub tool_summary : String
  pub status_change : Option String
  pub msg_id : String
  pub kind : String
  pub tool_name : String
  pub tool_use_name : String
  pub tool_use_id : String
  pub tool_use_input : Bytes

-- `if s != "" { data[k] = s }`
abbrev with_text : String → String → Fields → Fields
with_text k s d = if is_empty s then d else put d k (text s)

abbrev with_status : Option String → Fields → Fields
with_status none d = d
with_status (some s) d = put d "statusChange" (text s)

abbrev asks : Decoder → ConversationEvent → Option (String × Payload)
asks dec e =
    if is_empty e.tool_use_name
    then none
    else parse_interactive_tool_use dec e.tool_use_name e.tool_use_id e.tool_use_input

abbrev plain_data : ConversationEvent → String → Fields
plain_data e session_id = with_status e.status_change (
    with_text "sessionId" session_id (
      with_text "msg_id" e.msg_id (
        with_text "toolSummary" e.tool_summary (
          with_text "toolName" e.tool_name (
            with_text "kind" e.kind (
              field "role" (text e.role)
                (field "text" (text e.text) (field "raw" (flag false) end))))))))

abbrev interactive_data : ConversationEvent → String → String → Payload → Fields
interactive_data e session_id kind payload = with_status e.status_change (
    keyed (payload_key_for_kind kind) (payload_fields payload) (
      with_text "sessionId" session_id (
        field "role" (text "assistant") (field "raw" (flag false) (field "kind" (text kind) end)))))

unfoldable pub normalize_watcher_event : Decoder → ConversationEvent → String → Option Fields
normalize_watcher_event dec e session_id = elim (asks dec e) [
  | some (kind, payload) ↦ some (interactive_data e session_id kind payload)
  | none ↦
      if is_empty e.text
        && is_empty e.role
        && is_empty e.kind
        && is_empty e.tool_name
        && is_empty e.tool_summary
      then none
      else some (plain_data e session_id)
]

abbrev pub is_tick : ConversationEvent → Bool
is_tick e =
    trim_space (bytes e.role) =b []
    && trim_space (bytes e.text) =b []
    && is_empty e.tool_use_name
    && is_empty e.kind
    && is_empty e.tool_name

abbrev pub status_changed : String → String → Run → Run
status_changed id s r = if s =s "working" then status_to id working r else status_to id idle r

abbrev pub tick_status : String → Option String → Run → Run
tick_status id none r = r
tick_status id (some s) r = status_changed id s r

abbrev pub event_status : String → ConversationEvent → Option String → Run → Run
event_status id e none r = if not (is_empty e.tool_use_name) then status_to id working r else r
event_status id e (some s) r = status_changed id s r

abbrev pub update_data : String → ConversationEvent → String → ℕ → Fields
update_data id e session_id seq = with_text "sessionId" session_id (
    field "_update" (flag true) (
      field "agentId" (text id)
        (field "msg_id" (text e.msg_id) (field "text" (text e.text) (field "seq" (num seq) end)))))

-- `updateOrAppendEvent`, `data["seq"] = seq`, and the callback.
unfoldable pub update_to :
    Context → String → String → ConversationEvent → Run → Agent → Fields → Run
update_to cx id session_id e r ag d =
    let hub = r.hub in
    let msg = text_or_empty (get d "msg_id") in
    let (_, seq, updated) = EventBuf.update_or_append ag.buf msg d in
    let body = put d "seq" (num seq) in
    let (b, _, _) = EventBuf.update_or_append ag.buf msg body in
    let (s, _) =
      save_conversation_event_with_session hub.store id ag.resume_session_id seq
        (if updated then body else d) cx.env.stamp in
    let told = if updated then update_data id e session_id seq else body in
    record r {
      hub = record hub { agents = insert id (record ag { buf = b }) hub.agents; store = s };
      pushes = if cx.on_output then (id, told) ∷ r.pushes else r.pushes;
    }

unfoldable pub update : Context → String → String → ConversationEvent → Fields → Run → Run
update cx id session_id e d r = elim (lookup id r.hub.agents) [
  | none ↦ r
  | some ag ↦ update_to cx id session_id e r ag d
]

unfoldable pub record_event :
    Context → String → String → ConversationEvent → Option Fields → Run → Run
record_event cx id session_id e none r = r
record_event cx id session_id e (some d) r =
    let r' = event_status id e e.status_change r in
    if is_empty e.msg_id then emit cx id d r' else update cx id session_id e d r'

-- The callback, for an agent whose session is `session_id`.
unfoldable pub watcher_callback : Context → String → String → ConversationEvent → Run → Run
watcher_callback cx id session_id e r =
    if is_tick e
    then tick_status id e.status_change r
    else if e.role =s "user" && is_repeated r.hub id e.text
    then r
    else record_event cx id session_id e (normalize_watcher_event cx.decoder e session_id) r
