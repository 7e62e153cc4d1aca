-- ===== src/Agentd/Handler/History/Clear.antt =====
-- What `conversationClear` leaves of an agent's history.
use agnet.Common.{
  arith, ℕ, ◌≡◌, ◌≢◌, refl, ap, ◌∙◌, Bool, false, ◌&&◌, not, some, List, [], ◌∷◌, String, ltb,
  select, take-nil, Bool-cases, Option-cases, inl, inr,
}
use agnet.Common.Text.{◌=s◌, eq_iff}
use agnet.Common.Map.{lookup, insert, lookup-insert_self, lookup-insert_ne}
use agnet.Agentd.EventBuf.{reset, last_seq}
use agnet.Agentd.EventBuf.Order.{since_empty}
use agnet.Agentd.Permission.{get_pending_requests}
use agnet.Agentd.Store.{
  Row, Store, ok, limit_or, max_seq, clear_conversation_events, last_conversation_seq,
  list_conversation_events_since, list_conversation_events_before, list_conversation_events_latest,
}
use agnet.Agentd.Agent.{Agent, idle, set_status}
use agnet.Agentd.Hub.{
  Env, Hub, load_persisted_events_since, load_persisted_events_before, load_persisted_events_latest,
}
use agnet.Agentd.Handler.History.{
  ConversationHistoryParams, history, history_limit, history_events, history_last_seq,
  conversation_history, conversation_clear,
}

-- The rows that `ClearConversationEvents` leaves.
abbrev kept : String → List Row → List Row
kept agent rows = select (λ r. not (r.agent_id =s agent)) rows

-- A query for rows of the agent finds none of them.
select-kept :
    (agent : String) (p : Row → Bool) (rows : List Row)
    → ((r : Row) → r.agent_id =s agent ≡ false → p r ≡ false)
    → select p (kept agent rows) ≡ []
select-kept agent p [] h = refl
select-kept agent p (r ∷ rows) h = elim (Bool-cases (r.agent_id =s agent)) [
  | inl e ↦ rw e (select-kept agent p rows h)
  | inr e ↦ rw (e, h r e) (select-kept agent p rows h)
]

max_seq-kept : (agent : String) (rows : List Row) → max_seq agent (kept agent rows) ≡ 0
max_seq-kept agent [] = refl
max_seq-kept agent (r ∷ rows) = elim (Bool-cases (r.agent_id =s agent)) [
  | inl e ↦ rw e (max_seq-kept agent rows)
  | inr e ↦ rw (e, e) (max_seq-kept agent rows)
]

-- An agent whose buffer is empty and whose rows are gone.
module _ (env : Env) (hub : Hub) (id : String) (rows : List Row) (up : hub.store.down ≡ false)
    (gone : hub.store.rows ≡ kept id rows) where
  since_none : (after limit : ℕ) → load_persisted_events_since env hub id after limit ≡ ok []
  unfolding load_persisted_events_since list_conversation_events_since
  since_none after limit =
      rw
        (
          up,
          gone,
          select-kept id (λ r. r.agent_id =s id && ltb after r.seq) rows (λ r e. rw e refl),
          take-nil {A = Row} (limit_or limit 5000),
        )
        refl

  before_none : (before limit : ℕ) → load_persisted_events_before env hub id before limit ≡ ok []
  unfolding load_persisted_events_before list_conversation_events_before
  before_none before limit =
      rw
        (
          up,
          gone,
          select-kept id (λ r. r.agent_id =s id && ltb r.seq before) rows (λ r e. rw e refl),
          take-nil {A = Row} (limit_or limit 200),
        )
        refl

  latest_none : (limit : ℕ) → load_persisted_events_latest env hub id limit ≡ ok []
  unfolding load_persisted_events_latest list_conversation_events_latest
  latest_none limit =
      rw
        (
          up,
          gone,
          select-kept id (λ r. r.agent_id =s id) rows (λ r e. e),
          take-nil {A = Row} (limit_or limit 200),
        )
        refl

  last_none : last_conversation_seq hub.store id ≡ ok 0
  unfolding last_conversation_seq
  last_none = rw (up, gone, max_seq-kept id rows) refl

  no_events :
      (ag : Agent) (before after limit : ℕ)
      → ag.buf.count ≡ 0
      → history_events env hub id ag before after limit ≡ []
  unfolding history_events
  no_events ag before after limit e =
      rw
        (
          since_empty ag.buf after e,
          since_empty ag.buf 0 e,
          since_none after limit,
          before_none before limit,
          latest_none limit,
        )
        (ground arith)

-- The agent after a clear.
abbrev cleared : Agent → Agent
cleared ag = (set_status (record ag { buf = reset ag.buf }) idle).0

clear_shape :
    (hub : Hub) (id node_id : String) (ag : Agent)
    → hub.store.down ≡ false
    → lookup id hub.agents ≡ some ag
    → ((conversation_clear hub id node_id).0.agents ≡ insert id (cleared ag) hub.agents)
      × ((conversation_clear hub id node_id).0.store
          ≡ record hub.store { rows = kept id hub.store.rows })
unfolding conversation_clear clear_conversation_events
clear_shape hub id node_id ag up found =
    rw (found, up, conversation_clear, clear_conversation_events) (refl, refl)

history_of_cleared :
    (env : Env) (hub : Hub) (p : ConversationHistoryParams) (ag : Agent) (rows : List Row)
    → hub.store.down ≡ false
    → hub.store.rows ≡ kept p.agent_id rows
    → lookup p.agent_id hub.agents ≡ some ag
    → ag.buf.count ≡ 0
    → ag.buf.seq ≡ 0
    → conversation_history env hub p
      ≡ history (record {
        events = [];
        last_seq = 0;
        first_seq = 0;
        permission_requests = get_pending_requests ag.permission_manager;
        session_id = ag.resume_session_id;
      })
unfolding conversation_history history_last_seq last_seq
history_of_cleared env hub p ag rows up gone found none_held at_zero =
    rw
      (
        found,
        no_events env hub p.agent_id rows up gone ag p.before p.cursor (history_limit p.limit)
            none_held,
        last_none env hub p.agent_id rows up gone,
        at_zero,
        conversation_history,
        history_last_seq,
        last_seq,
      )
      refl

-- After a clear of an agent that exists, while the store answers, every request for the agent's
-- history is answered with no event and with the last number 0, and with the pending permission
-- requests and the session that the agent had.
pub history_after_clear :
    (env : Env) (hub : Hub) (node_id : String) (p : ConversationHistoryParams) (ag : Agent)
    → hub.store.down ≡ false
    → lookup p.agent_id hub.agents ≡ some ag
    → conversation_history env (conversation_clear hub p.agent_id node_id).0 p
      ≡ history (record {
        events = [];
        last_seq = 0;
        first_seq = 0;
        permission_requests = get_pending_requests ag.permission_manager;
        session_id = ag.resume_session_id;
      })
unfolding set_status reset
history_after_clear env hub node_id p ag up found =
    let (agents_eq, store_eq) = clear_shape hub p.agent_id node_id ag up found in
    history_of_cleared env (conversation_clear hub p.agent_id node_id).0 p (cleared ag)
      hub.store.rows (ap (λ (s : Store). s.down) store_eq ∙ up)
      (ap (λ (s : Store). s.rows) store_eq)
      (ap (lookup p.agent_id) agents_eq ∙ lookup-insert_self p.agent_id (cleared ag) hub.agents)
      refl refl

select_other :
    (id other : String) (rows : List Row)
    → id ≢ other
    → select (λ r. r.agent_id =s other) (kept id rows) ≡ select (λ r. r.agent_id =s other) rows
select_other id other [] ne = refl
select_other id other (r ∷ rows) ne =
    ground (arith, eq_iff r.agent_id id, eq_iff r.agent_id other, select_other id other rows ne)

rows_of_other :
    (hub : Hub) (id other : String)
    → id ≢ other
    → select (λ (r : Row). r.agent_id =s other) (clear_conversation_events hub.store id).0.rows
      ≡ select (λ (r : Row). r.agent_id =s other) hub.store.rows
unfolding clear_conversation_events
rows_of_other hub id other ne = elim (Bool-cases hub.store.down) [
  | inl e ↦ rw (e, clear_conversation_events) refl
  | inr e ↦ rw (e, clear_conversation_events) (select_other id other hub.store.rows ne)
]

-- A clear of one agent leaves every other agent and the rows stored for it as they are.
pub conversation_clear-frame :
    (hub : Hub) (id node_id other : String)
    → id ≢ other
    → (lookup other (conversation_clear hub id node_id).0.agents ≡ lookup other hub.agents)
      × (select (λ (r : Row). r.agent_id =s other) (conversation_clear hub id node_id).0.store.rows
          ≡ select (λ (r : Row). r.agent_id =s other) hub.store.rows)
unfolding conversation_clear
conversation_clear-frame hub id node_id other ne = elim (Option-cases (lookup id hub.agents)) [
  | inl e ↦ rw (e, conversation_clear) (refl, refl)
  | inr (ag, e) ↦
      rw (e, conversation_clear)
        (lookup-insert_ne id other (cleared ag) hub.agents ne, rows_of_other hub id other ne)
]
