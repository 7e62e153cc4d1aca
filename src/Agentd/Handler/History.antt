-- ===== src/Agentd/Handler/History.antt =====
-- agentd/internal/ws/handler.go, conversationHistory and conversationClear.
pub mod Laws
pub mod Clear
use agnet.Common.{
  ℕ, ◌-◌, Bool, true, false, Option, none, some, List, [], ◌∷◌, ◌++◌, String, ltb, ◌==◌,
  if◌then◌else◌, length, drop, map,
}
use agnet.Common.Text.{is_empty}
use agnet.Common.Json.{Value, num, text, flag, Fields, end, field, get, put}
use agnet.Common.Map.{lookup, insert}
use agnet.Agentd.EventBuf
use agnet.Agentd.EventBuf.{Event}
use agnet.Agentd.Permission.{PermissionRequest, get_pending_requests}
use agnet.Agentd.Store.{Result, ok, err, last_conversation_seq, clear_conversation_events}
use agnet.Agentd.Agent.{Agent, idle, set_status}
use agnet.Agentd.Hub.{
  Env, Hub, broadcast, noted, copy_all, load_persisted_events_since, load_persisted_events_before,
  load_persisted_events_latest,
}
use agnet.Agentd.Handler.{Response, ok_resp, err_resp, server_error, agent_not_found}

-- The integer parts of the request's numbers; 0 where they are not positive.
pub record ConversationHistoryParams : Type 0 where
  pub agent_id : String
  pub cursor : ℕ
  pub limit : ℕ
  pub before : ℕ

-- The answer, before it is written out as JSON.
pub record History : Type 0 where
  pub events : List (ℕ × Fields)  -- each with its `seq`
  pub last_seq : ℕ
  pub first_seq : ℕ
  pub permission_requests : List PermissionRequest
  pub session_id : String

pub data HistoryAnswer : Type 0 where
  history : History → HistoryAnswer
  unknown_agent : HistoryAnswer

-- 200 by default, 1000 at most. The limit of a request is a whole number here.
unfoldable pub history_limit : ℕ → ℕ
history_limit n = let limit = if ltb 0 n then n else 200 in if ltb 1000 limit then 1000 else limit

-- A load that fails leaves `events` nil.
abbrev or_nil : Result (List Event) → List Event
or_nil (ok es) = es
or_nil (err e) = []

abbrev pub is_nil : List Event → Bool
is_nil [] = true
is_nil (e ∷ es) = false

-- Which events are shown: a page before a number; what is newer than a cursor, from the buffer and
-- only if that has none from the store; or the newest ones.
unfoldable pub history_events : Env → Hub → String → Agent → ℕ → ℕ → ℕ → List Event
history_events env hub id ag before after limit =
    let live = EventBuf.since ag.buf 0 in
    let newer = EventBuf.since ag.buf after in
    if ltb 0 before
    then or_nil (load_persisted_events_before env hub id before limit)
    else if ltb 0 after
    then (if is_nil newer
        then or_nil (load_persisted_events_since env hub id after limit)
        else newer)
    else if is_nil live
    then or_nil (load_persisted_events_latest env hub id limit)
    else if ltb limit (length live)
    then drop (length live - limit) live
    else live

unfoldable pub history_last_seq : Hub → String → Agent → ℕ
history_last_seq hub id ag = elim (last_conversation_seq hub.store id) [
  | ok n ↦ if ltb (EventBuf.last_seq ag.buf) n then n else EventBuf.last_seq ag.buf
  | err e ↦ EventBuf.last_seq ag.buf
]

-- An event with its number, and the agent's session if it names none.
pub flatten_event : String → Event → ℕ × Fields
flatten_event session e =
    let flat = copy_all e.body (field "seq" (num e.seq) end) in
    (
      e.seq,
      elim (get flat "sessionId") [
        | some _ ↦ flat
        | none ↦ if is_empty session then flat else put flat "sessionId" (text session)
      ],
    )

abbrev pub first_seq_of : List Event → ℕ
first_seq_of [] = 0
first_seq_of (e ∷ es) = e.seq

unfoldable pub conversation_history : Env → Hub → ConversationHistoryParams → HistoryAnswer
conversation_history env hub p = elim (lookup p.agent_id hub.agents) [
  | none ↦ unknown_agent
  | some ag ↦
      let events = history_events env hub p.agent_id ag p.before p.cursor (history_limit p.limit) in
      history (record {
        events = map (flatten_event ag.resume_session_id) events;
        last_seq = history_last_seq hub p.agent_id ag;
        first_seq = first_seq_of events;
        permission_requests = get_pending_requests ag.permission_manager;
        session_id = ag.resume_session_id;
      })
]

-- `conversationClear`. The status callback's own broadcast is not part of the handler; an error of
-- the store is only logged; `ResetWatcherOffset` acts on the watcher.
unfoldable pub conversation_clear : Hub → String → String → Hub × Response
conversation_clear hub id node_id = elim (lookup id hub.agents) [
  | none ↦ (hub, err_resp server_error agent_not_found)
  | some ag ↦
      let (s, _) = clear_conversation_events hub.store id in
      let (ag', change) = set_status (record ag { buf = EventBuf.reset ag.buf }) idle in
      (
        broadcast
            (record hub {
              agents = insert id ag' hub.agents;
              store = s;
              changes = noted change hub.changes;
            })
            "conversation.cleared"
            (field "nodeId" (text node_id)
              (field "agentId" (text id) (field "sessionId" (text ag'.resume_session_id) end))),
        ok_resp (field "ok" (flag true) end),
      )
]
