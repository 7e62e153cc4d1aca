-- ===== src/Agentd/Hub.antt =====
-- The state that the handlers of agentd/internal/ws/handler.go work on, and the steps that they
-- share: agentd/internal/agent/event_manager.go and RecordConversationEvent of manager.go. A request is
-- handled in one step: the handlers hold pointers to agents, so each reads the agent anew here.
use agnet.Common.{ℕ, Bool, Option, none, some, List, ◌∷◌, String, map, if◌then◌else◌}
use agnet.Common.Text.{Bytes}
use agnet.Common.Json.{num, text, flag, Fields, end, field, get, put, text_or_empty}
use agnet.Common.Map.{Map, lookup, insert}
use agnet.Agentd.Agent.{
  Agent, Outside, Display, Route, to_process, to_tmux, refused, InputError, write_input,
  append_event, write_failed, Status, StatusChange, set_status,
}
use agnet.Agentd.EventBuf
use agnet.Agentd.EventBuf.{Event}
use agnet.Agentd.Tmux.{Ending, returned, running, TmuxError}
use agnet.Agentd.Store.{
  Store, EventRecord, Result, ok, err, save_conversation_event_with_session,
  list_conversation_events_since, list_conversation_events_before, list_conversation_events_latest,
}

-- `RPCEvent`, pushed to every client.
pub record Broadcast : Type 0 where
  pub method : String
  pub params : Fields

pub record Hub : Type 0 where
  pub node_id : String
  pub agents : Map Agent
  pub store : Store
  pub broadcasts : List Broadcast  -- newest first
  pub inputs : List (String × Route)  -- every `WriteInput`, newest first
  pub controls : List (ℕ × Fields)  -- every control response sent to a process, newest first
  -- Every call of a status callback by a handler, newest first. A goroutine of its own pushes each as
  -- `agent.status_changed`, beside `broadcasts`.
  pub changes : List StatusChange

-- What the handlers read from outside: the clock in milliseconds, the text of the time that a row
-- is stamped with, and its reading; processes; `tmux display-message`.
pub record Env : Type 0 where
  pub now : ℕ
  pub stamp : Bytes
  pub parse_stamp : Bytes → ℕ  -- `parseEventRowTimestamp`
  pub outside : Outside
  pub display : String → Display

-- Why input was not sent.
pub data SendFailure : Type 0 where
  input_error : InputError → SendFailure
  tmux_error : TmuxError → SendFailure

-- How a call of `WriteInput` ended; `hung` is a call that has not returned.
pub data Wrote : Type 0 where
  wrote : Wrote
  failed : SendFailure → Wrote
  hung : Wrote

abbrev pub ended : Ending → Wrote
ended (returned none) = wrote
ended (returned (some e)) = failed (tmux_error e)
ended running = hung

abbrev pub outcome : Route → Wrote
outcome (to_process p none) = wrote
outcome (to_process p (some e)) = failed (input_error (write_failed e))
outcome (to_tmux target s) = ended s.ending
outcome (refused e) = failed (input_error e)

abbrev pub update_agent : Hub → String → (Agent → Agent) → Hub
update_agent hub id f = elim (lookup id hub.agents) [
  | some ag ↦ record hub { agents = insert id (f ag) hub.agents }
  | none ↦ hub
]

abbrev pub noted : Option StatusChange → List StatusChange → List StatusChange
noted none cs = cs
noted (some c) cs = c ∷ cs

-- `ag.SetStatus(s)` by a handler.
unfoldable pub set_agent_status : Hub → String → Status → Hub
set_agent_status hub id s = elim (lookup id hub.agents) [
  | none ↦ hub
  | some ag ↦
      let (ag', change) = set_status ag s in
      record hub { agents = insert id ag' hub.agents; changes = noted change hub.changes }
]

abbrev pub broadcast : Hub → String → Fields → Hub
broadcast hub method params = record hub {
  broadcasts = record { method = method; params = params } ∷ hub.broadcasts;
}

-- `ag.WriteInput(text)` by a handler.
unfoldable pub type_into : Env → Hub → String → Agent → Bytes → Hub × Wrote
type_into env hub id ag input =
    let r = write_input env.outside ag input in
    (record hub { inputs = (id, r) ∷ hub.inputs }, outcome r)

-- `if _, ok := data["timestamp"]; !ok { data["timestamp"] = … }`
abbrev pub stamped : ℕ → Fields → Fields
stamped now d = elim (get d "timestamp") [ some _ ↦ d | none ↦ put d "timestamp" (num now) ]

-- An error of the store is only logged.
unfoldable pub append_and_persist_event : Env → Hub → String → Agent → Fields → Hub × ℕ
append_and_persist_event env hub id ag d =
    let body = stamped env.now d in
    let (ag', seq) = append_event ag body in
    let (s, _) =
      save_conversation_event_with_session hub.store id ag'.resume_session_id seq body env.stamp in
    (record hub { agents = insert id ag' hub.agents; store = s }, seq)

-- `UpdateOrAppendEvent`: the store's row takes `data` with the number of the updated event in it; an
-- appended one is stored as it is.
unfoldable pub update_or_append_event : Env → Hub → String → Agent → Fields → Hub × ℕ × Bool
update_or_append_event env hub id ag d =
    let (b, seq, updated) = EventBuf.update_or_append ag.buf (text_or_empty (get d "msg_id")) d in
    let body = if updated then put d "seq" (num seq) else d in
    let (s, _) =
      save_conversation_event_with_session hub.store id ag.resume_session_id seq body env.stamp in
    (record hub { agents = insert id (record ag { buf = b }) hub.agents; store = s }, seq, updated)

-- `none`: no agent has the id.
unfoldable pub record_conversation_event : Env → Hub → String → Fields → Hub × Option ℕ
unfolding append_and_persist_event
record_conversation_event env hub id d = elim (lookup id hub.agents) [
  | none ↦ (hub, none)
  | some ag ↦ let (hub', seq) = append_and_persist_event env hub id ag d in (hub', some seq)
]

abbrev pub copy_all : Fields → Fields → Fields
copy_all end into = into
copy_all (field k v rest) into = copy_all rest (put into k v)

-- The event made of a persisted record.
unfoldable pub event_of_record : Env → EventRecord → Event
event_of_record env r = record {
  seq = r.seq;
  body = copy_all r.payload (
      field "role" (text r.role) (
        field "text" (text r.message) (
          field "raw" (flag r.raw) (
            field "kind" (text r.kind)
              (field "timestamp" (num (env.parse_stamp r.created_at)) end)))));
}

abbrev events_of : Env → Result (List EventRecord) → Result (List Event)
events_of env (ok rs) = ok (map (event_of_record env) rs)
events_of env (err e) = err e

unfoldable pub load_persisted_events_since : Env → Hub → String → ℕ → ℕ → Result (List Event)
unfolding list_conversation_events_since event_of_record
load_persisted_events_since env hub id after limit =
    events_of env (list_conversation_events_since hub.store id after limit)

unfoldable pub load_persisted_events_before : Env → Hub → String → ℕ → ℕ → Result (List Event)
unfolding list_conversation_events_before event_of_record
load_persisted_events_before env hub id before limit =
    events_of env (list_conversation_events_before hub.store id before limit)

unfoldable pub load_persisted_events_latest : Env → Hub → String → ℕ → Result (List Event)
unfolding list_conversation_events_latest event_of_record
load_persisted_events_latest env hub id limit =
    events_of env (list_conversation_events_latest hub.store id limit)
