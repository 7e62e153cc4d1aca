-- ===== src/Agentd/Handler/Answer/Laws.antt =====
-- What the answer to a permission request does, and that it does it once.
use agnet.Common.{
  ℕ, ◌≡◌, refl, ap, ◌∙◌, Bool, true, false, ◌||◌, not, Option, none, some, Bool-cases, Option-cases,
  inl, inr,
}
use agnet.Common.Text.{◌=s◌, is_empty}
use agnet.Common.Json.{Fields}
use agnet.Common.Map.{lookup, insert, lookup-insert_self}
use agnet.Agentd.Permission.{PermissionManager, handle_response}
use agnet.Agentd.Permission.Laws.{handle_response_once}
use agnet.Agentd.Agent.{Agent}
use agnet.Agentd.Hub.{Hub}
use agnet.Agentd.Handler.{
  Code, Problem, Response, err_resp, invalid_params, server_error, request_id_required,
  bad_behavior, agent_not_found, request_not_found,
}
use agnet.Agentd.Handler.Answer.{
  ConversationPermissionResponseParams, response_of, control_resp, send_control, handled,
  conversation_permission_response,
}

-- The handler answered with an error and did nothing.
pub record Refuses (hub : Hub) (result : Hub × Response) : Type 0 where
  pub code : Code
  pub problem : Problem
  pub same : result ≡ (hub, err_resp code problem)

-- The agent with the manager that has handled the response.
abbrev after : Agent → ConversationPermissionResponseParams → Agent
after ag p = record ag {
  permission_manager = (handle_response ag.permission_manager (response_of p)).0;
}

abbrev bad : ConversationPermissionResponseParams → Bool
bad p = not (p.behavior =s "allow" || p.behavior =s "deny")

module _ (hub : Hub) (p : ConversationPermissionResponseParams) where
  no_id : is_empty p.request_id ≡ true → Refuses hub (conversation_permission_response hub p)
  unfolding conversation_permission_response
  no_id e = record {
    code = invalid_params;
    problem = request_id_required;
    same = rw (e, conversation_permission_response) refl;
  }

  bad_case :
      is_empty p.request_id ≡ false
      → bad p ≡ true
      → Refuses hub (conversation_permission_response hub p)
  unfolding conversation_permission_response
  bad_case e b = record {
    code = invalid_params;
    problem = bad_behavior;
    same = rw (e, b, conversation_permission_response) refl;
  }

  no_agent :
      is_empty p.request_id ≡ false
      → bad p ≡ false
      → lookup p.agent_id hub.agents ≡ none
      → Refuses hub (conversation_permission_response hub p)
  unfolding conversation_permission_response
  no_agent e b l = record {
    code = server_error;
    problem = agent_not_found;
    same = rw (e, b, l, conversation_permission_response) refl;
  }

  -- The handler hands the response to the agent's manager.
  reaches :
      (ag : Agent)
      → is_empty p.request_id ≡ false
      → bad p ≡ false
      → lookup p.agent_id hub.agents ≡ some ag
      → conversation_permission_response hub p
        ≡ handled hub p (after ag p) (handle_response ag.permission_manager (response_of p)).1
  unfolding conversation_permission_response
  reaches ag e b l = rw (e, b, l, conversation_permission_response) refl

  not_taken :
      (ag : Agent)
      → is_empty p.request_id ≡ false
      → bad p ≡ false
      → lookup p.agent_id hub.agents ≡ some ag
      → (handle_response ag.permission_manager (response_of p)).1 ≡ false
      → Refuses hub (conversation_permission_response hub p)
  unfolding handled
  not_taken ag e b l n = record {
    code = server_error;
    problem = request_not_found;
    same = reaches ag e b l ∙ ap (handled hub p (after ag p)) n;
  }

-- A refused request is refused again.
again :
    (hub : Hub) (p : ConversationPermissionResponseParams)
    → Refuses hub (conversation_permission_response hub p)
    → let hub' = (conversation_permission_response hub p).0 in
      Refuses hub' (conversation_permission_response hub' p)
again hub p r = rw (ap (λ (q : Hub × Response). q.0) r.same) r

agents-send_control :
    (hub : Hub) (o : Option ℕ) (c : Fields) → (send_control hub o c).agents ≡ hub.agents
agents-send_control hub none c = refl
agents-send_control hub (some n) c = refl

-- Where the manager takes the response the agent keeps the manager that has handled it.
taken_agents :
    (hub : Hub) (p : ConversationPermissionResponseParams) (ag : Agent)
    → lookup p.agent_id (handled hub p ag true).0.agents ≡ some ag
unfolding handled
taken_agents hub p ag =
    ap (lookup p.agent_id) (
      agents-send_control (record hub { agents = insert p.agent_id ag hub.agents }) ag.process
        (control_resp p))
    ∙ lookup-insert_self p.agent_id ag hub.agents

-- Sending the same answer again is refused with an error and changes nothing: no second control
-- response reaches the process and no second event is pushed, whatever the first one did.
pub conversation_permission_response_once :
    (hub : Hub) (p : ConversationPermissionResponseParams)
    → let hub' = (conversation_permission_response hub p).0 in
      Refuses hub' (conversation_permission_response hub' p)
conversation_permission_response_once hub p = elim (Bool-cases (is_empty p.request_id)) [
  | inl e ↦ no_id (conversation_permission_response hub p).0 p e
  | inr e ↦ elim (Bool-cases (bad p)) [
    | inl b ↦ bad_case (conversation_permission_response hub p).0 p e b
    | inr b ↦ elim (Option-cases (lookup p.agent_id hub.agents)) [
      | inl l ↦ again hub p (no_agent hub p e b l)
      | inr (ag, l) ↦ elim (Bool-cases (handle_response ag.permission_manager (response_of p)).1) [
        | inl t ↦
            let shape = reaches hub p ag e b l ∙ ap (handled hub p (after ag p)) t in
            not_taken (conversation_permission_response hub p).0 p (after ag p) e b
              (ap (λ (r : Hub × Response). lookup p.agent_id r.0.agents) shape
                ∙ taken_agents hub p (after ag p))
              (ap (λ (r : PermissionManager × Bool). r.1)
                (handle_response_once ag.permission_manager (response_of p) p.request_id).2)
        | inr t ↦ again hub p (not_taken hub p ag e b l t)
      ]
    ]
  ]
]
