-- ===== src/Agentd/Stream.antt =====
-- agentd/internal/agent/manager.go, handleStreamJSONEvent: what agentd does with an event that an agent
-- prints in the stream-json format. Each case of the switch is a function; `Run` gathers what a call
-- changes and whom it tells.
--
-- The buffer holds the very map that is written to afterwards, so the number that `data["seq"] = seq`
-- adds is in the buffered event too, and not in the persisted one.
pub mod Session
pub mod Message
pub mod Tool
pub mod Control
pub mod Dispatch
pub mod Laws
pub mod Recorded
pub mod Once
pub mod Handled
mod Tests
use Prim.Native.String.{◌++◌ as ◌+s◌}
use agnet.Common.{
  ℕ, Bool, true, false, ◌&&◌, ◌||◌, not, Option, none, some, List, [], ◌∷◌, String, if◌then◌else◌,
}
use agnet.Common.Text.{Bytes, ◌=s◌, is_empty}
use agnet.Common.Json.{
  Fields, Value, Items, obj, arr, text, num, flag, null, cons, nil, end, field, get, put,
  text_or_empty,
}
use agnet.Common.Map.{lookup, insert}
use agnet.Agentd.Agent.{
  Agent, Status, idle, working, StatusChange, set_status, append_event,
  set_permission_prompt_active,
}
use agnet.Agentd.EventBuf
use agnet.Agentd.Hub.{Hub, Env, stamped, update_agent, noted}
use agnet.Agentd.Store.{save_conversation_event_with_session}
use agnet.Agentd.Permission.{PermissionRequest, PermissionSuggestion, AiValidationInfo, add_request}
use agnet.Agentd.Interactive.{
  Decoder, Payload, parse_interactive_tool_use, payload_fields, payload_key_for_kind,
}

-- What decoding makes of the content: a string, an array of blocks with their type and text, or
-- neither.
pub data Content : Type 0 where
  plain : String → Content
  blocks : List (String × String) → Content
  malformed : Content

pub record StreamJsonEvent : Type 0 where
  pub kind : String  -- `Type`
  pub role : String
  pub content : Content
  pub name : String
  pub input : Bytes
  pub output : Bytes
  pub timestamp : String
  pub raw : Fields

-- What the handler takes from outside: encoding/json, the reading of times by the two layouts, the
-- summaries of tools, whether a callback is registered, and the update of a row of the table agents,
-- with the parents of sessions.
pub record Context : Type 0 where
  pub env : Env
  pub decoder : Decoder
  pub marshal : Option Value → Bytes
  pub request_value : PermissionRequest → Value
  pub parse_nano : String → Option ℕ
  pub parse_plain : String → Option ℕ
  pub input_summary : String → Bytes → String
  pub result_summary : String → Bytes → String
  pub on_output : Bool
  pub row_updated : String → String → Bool
  pub parent_of : String → Option String

-- The newest entry of each list is first.
pub record Run : Type 0 where
  pub hub : Hub
  pub pushes : List (String × Fields)
  pub changes : List StatusChange

abbrev pub as_obj : Option Value → Option Fields
as_obj (some (obj m)) = some m
as_obj _ = none

abbrev pub get_string : Fields → String → String
get_string m k = text_or_empty (get m k)

-- `ag.setStatus(s)`
unfoldable pub status_to : String → Status → Run → Run
status_to id s r = elim (lookup id r.hub.agents) [
  | none ↦ r
  | some ag ↦
      let (ag', change) = set_status ag s in
      record r { hub = update_agent r.hub id (λ _. ag'); changes = noted change r.changes }
]

-- `appendAndPersistEvent`, `data["seq"] = seq`, and the callback.
unfoldable pub emit_to : Context → String → Run → Agent → Fields → Run
emit_to cx id r ag body =
    let seq = EventBuf.next_seq ag.buf in
    let hub = r.hub in
    let d = put body "seq" (num seq) in
    let (ag', _) = append_event ag d in
    let (s, _) =
      save_conversation_event_with_session hub.store id ag.resume_session_id seq body
        cx.env.stamp in
    record r {
      hub = record hub { agents = insert id ag' hub.agents; store = s };
      pushes = if cx.on_output then (id, d) ∷ r.pushes else r.pushes;
    }

unfoldable pub emit : Context → String → Fields → Run → Run
emit cx id d r = elim (lookup id r.hub.agents) [
  | none ↦ r
  | some ag ↦ emit_to cx id r ag (stamped cx.env.now d)
]

-- The timestamp of the event, where one of the layouts reads it.
abbrev pub timed : Context → String → Fields → Fields
timed cx t d = if is_empty t then d else elim (cx.parse_nano t) [
  | some ms ↦ put d "timestamp" (num ms)
  | none ↦ elim (cx.parse_plain t) [ some ms ↦ put d "timestamp" (num ms) | none ↦ d ]
]
