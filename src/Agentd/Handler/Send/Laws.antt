-- ===== src/Agentd/Handler/Send/Laws.antt =====
-- What a message sent to an agent in a tmux pane leaves in the store, with the clients and in the pane.
use agnet.Common.{
  ℕ, ◌≡◌, ◌⊎◌, refl, sym, ap, ◌∙◌, ◌&&◌, not, Option, none, some, List, ◌∷◌, ◌++◌, String, All,
  if◌then◌else◌, Bool-cases, Option-cases, inl, inr,
}
use agnet.Common.Json.{Fields}
use agnet.Common.Map.{lookup}
use agnet.Agentd.Agent.{
  Agent, PaneError, StatusChange, stopped, same_status, set_status, begin_send,
}
use agnet.Agentd.Hub.{
  Env, Hub, update_agent, set_agent_status, noted, record_conversation_event,
  append_and_persist_event,
}
use agnet.Agentd.Handler.{
  Code, Response, err_resp, Problem, server_error, record_user_message, no_image_support,
  not_in_pane,
}
use agnet.Agentd.Handler.Send.{
  SendContext, event_data, build_user_message_broadcast, type_prompt, is_hermes, has_images,
  tmux_recorded, announced, pane_error, tmux_checked, handle_send_tmux,
}
use agnet.Agentd.Handler.Send.Typed.{IsAccepted, whole}
use agnet.Agentd.Handler.Send.Frame.{SameBut, done, type_prompt-Same, begun_or, tmux_written-Same}

-- The status changes when the agent of the message is set to stopped: its callback is called, where
-- there is one and the status was another.
abbrev pub with_stop : Hub → Option Agent → List StatusChange
with_stop hub none = hub.changes
with_stop hub (some ag) =
    if not (same_status ag.status stopped) && ag.on_status_change
    then record { agent_id = ag.id; old_status = ag.status; new_status = stopped } ∷ hub.changes
    else hub.changes

-- The handler answered with an error; nothing was stored or typed, and no message pushed. The status
-- of the agent changed only where the check of its pane failed, to stopped.
pub record Refuses (hub : Hub) (id : String) (result : Hub × Response) : Type 0 where
  pub problem : Problem
  pub answer : result.1 ≡ err_resp server_error problem
  pub store : result.0.store ≡ hub.store
  pub broadcasts : result.0.broadcasts ≡ hub.broadcasts
  pub inputs : result.0.inputs ≡ hub.inputs
  pub changes :
      (result.0.changes ≡ hub.changes)
      ⊎ ((e : PaneError) × (problem ≡ not_in_pane e)
          × (result.0.changes ≡ with_stop hub (lookup id hub.agents)))

-- The message is recorded: it has a number, its event is in the store, one event with that number is
-- pushed to the clients.
pub record Records (env : Env) (hub : Hub) (ctx : SendContext) (result : Hub × Response)
    : Type 0 where
  pub seq : ℕ
  pub recorded : (record_conversation_event env hub ctx.agent_id (event_data ctx)).1 ≡ some seq
  pub stored :
      result.0.store ≡ (record_conversation_event env hub ctx.agent_id (event_data ctx)).0.store
  pub pushed :
      result.0.broadcasts
      ≡ record {
        method = "conversation.message";
        params =
            build_user_message_broadcast env
              (record_conversation_event env hub ctx.agent_id (event_data ctx)).0
              ctx
              seq;
      }
        ∷ hub.broadcasts
  pub changes : result.0.changes ≡ hub.changes

-- A result, with what is typed where the handler answers with success.
abbrev Outcome : Env → Hub → SendContext → Hub × Response → Type 0
Outcome env hub ctx result =
    Refuses hub ctx.agent_id result
    ⊎ (Records env hub ctx result
        × (result.1 ≡ done ctx
            → (result.0.inputs ≡ whole env ctx ++ hub.inputs) × All IsAccepted (whole env ctx)))

-- Recording pushes and types nothing; without an agent it also stores nothing.
record_frame :
    (env : Env) (hub : Hub) (id : String) (d : Fields)
    → let r = record_conversation_event env hub id d in
      (r.0.broadcasts ≡ hub.broadcasts)
      × (r.0.inputs ≡ hub.inputs)
      × (r.0.changes ≡ hub.changes)
      × (r.1 ≡ none → r.0.store ≡ hub.store)
unfolding record_conversation_event append_and_persist_event
record_frame env hub id d = elim (Option-cases (lookup id hub.agents)) [
  | inl e ↦ rw (e, record_conversation_event) (refl, refl, refl, λ n. refl)
  | inr (ag, e) ↦ rw (e, record_conversation_event) (refl, refl, refl, λ n. cc)
]

tmux_recorded-some :
    (env : Env) (hub : Hub) (ctx : SendContext) (seq : ℕ)
    → let r = tmux_recorded env hub ctx (some seq) in
      SameBut r.0 (announced env hub ctx seq)
      × (r.1 ≡ done ctx
          → (r.0.inputs ≡ whole env ctx ++ hub.inputs) × All IsAccepted (whole env ctx))
unfolding tmux_recorded
tmux_recorded-some env hub ctx seq =
    let h = announced env hub ctx seq in
    let begun = (if is_hermes ctx then update_agent h ctx.agent_id begin_send else h) in
    let b = begun_or h ctx in
    let p = type_prompt-Same env begun ctx in
    let w = tmux_written-Same (type_prompt env begun ctx).0 ctx (type_prompt env begun ctx).1 in
    (
      record {
        store = w.0.store ∙ p.0.store ∙ b.0.store;
        broadcasts = w.0.broadcasts ∙ p.0.broadcasts ∙ b.0.broadcasts;
        changes = w.0.changes ∙ p.0.changes ∙ b.0.changes;
      },
      λ e. let t = p.1 (w.2 e) in (w.1 ∙ t.0 ∙ ap (λ xs. whole env ctx ++ xs) b.1, t.1),
    )

module _ (env : Env) (hub : Hub) (ctx : SendContext) where
  abbrev recorded : Hub × Option ℕ
  recorded = record_conversation_event env hub ctx.agent_id (event_data ctx)

  abbrev sent : Hub × Response
  sent = tmux_recorded env recorded.0 ctx recorded.1

  sent_cases : Outcome env hub ctx sent
  unfolding tmux_recorded
  sent_cases = elim (Option-cases recorded.1) [
    | inl e ↦
        let f = record_frame env hub ctx.agent_id (event_data ctx) in
        inl (record {
          problem = record_user_message;
          answer = ap (λ o. (tmux_recorded env recorded.0 ctx o).1) e;
          store = ap (λ o. (tmux_recorded env recorded.0 ctx o).0.store) e ∙ f.3 e;
          broadcasts = ap (λ o. (tmux_recorded env recorded.0 ctx o).0.broadcasts) e ∙ f.0;
          inputs = ap (λ o. (tmux_recorded env recorded.0 ctx o).0.inputs) e ∙ f.1;
          changes = inl (ap (λ o. (tmux_recorded env recorded.0 ctx o).0.changes) e ∙ f.2);
        })
    | inr (n, e) ↦
        let f = record_frame env hub ctx.agent_id (event_data ctx) in
        let r = tmux_recorded-some env recorded.0 ctx n in
        let same = ap (tmux_recorded env recorded.0 ctx) e in
        inr (
          record {
            seq = n;
            recorded = e;
            stored = ap (λ (x : Hub × Response). x.0.store) same ∙ r.0.store;
            pushed =
                ap (λ (x : Hub × Response). x.0.broadcasts) same
                ∙ r.0.broadcasts
                ∙ ap
                    (λ bs.
                      record {
                        method = "conversation.message";
                        params = build_user_message_broadcast env recorded.0 ctx n;
                      }
                      ∷ bs)
                    f.0;
            changes = ap (λ (x : Hub × Response). x.0.changes) same ∙ r.0.changes ∙ f.2;
          },
          λ ok.
              let t = r.1 (sym (ap (λ (x : Hub × Response). x.1) same) ∙ ok) in
              (
                ap (λ (x : Hub × Response). x.0.inputs) same
                    ∙ t.0
                    ∙ ap (λ xs. whole env ctx ++ xs) f.1,
                t.1,
              ),
        )
  ]

-- An agent that is stopped: nothing but the agent and the status changes is written.
stopping :
    (hub : Hub) (id : String)
    → let h = set_agent_status hub id stopped in
      (h.store ≡ hub.store)
      × (h.broadcasts ≡ hub.broadcasts)
      × (h.inputs ≡ hub.inputs)
      × (h.changes ≡ with_stop hub (lookup id hub.agents))
unfolding set_agent_status set_status
stopping hub id = elim (Option-cases (lookup id hub.agents)) [
  | inl e ↦ rw (e, set_agent_status) (refl, refl, refl, refl)
  | inr (ag, e) ↦ rw (e, set_agent_status) (refl, refl, refl, told ag)
]
  where
    told : (ag : Agent) → noted (set_status ag stopped).1 hub.changes ≡ with_stop hub (some ag)
    told ag = elim (Bool-cases (not (same_status ag.status stopped) && ag.on_status_change)) [
      | inl t ↦ rw t refl
      | inr t ↦ rw t refl
    ]

checked_cases :
    (env : Env) (hub : Hub) (ctx : SendContext) (o : Option PaneError)
    → Outcome env hub ctx (tmux_checked env hub ctx o)
unfolding tmux_checked
checked_cases env hub ctx (some x) =
    let u = stopping hub ctx.agent_id in
    inl (record {
      problem = not_in_pane x;
      answer = refl;
      store = u.0;
      broadcasts = u.1;
      inputs = u.2;
      changes = inr (x, refl, u.3);
    })
checked_cases env hub ctx none =
    elim (Bool-cases (has_images ctx.image_files && not ctx.caps.supports_image_attachment)) [
      | inl i ↦ rw i (
          inl (record {
            problem = no_image_support ctx.ag.provider;
            answer = refl;
            store = refl;
            broadcasts = refl;
            inputs = refl;
            changes = inl refl;
          }))
      | inr i ↦ rw i (sent_cases env hub ctx)
    ]

-- If the handler answers with success, then the message has been typed into its agent, in these writes
-- and no others, and each was accepted: what is asked is the message with, but for Hermes, the paths of
-- its images after it, each after a blank where anything is before it; raw it is typed as it is, to
-- Codex followed by a write of the Enter key, and to the others with a newline at its end.
pub handle_send_tmux_typed :
    (env : Env) (hub : Hub) (ctx : SendContext)
    → (handle_send_tmux env hub ctx).1 ≡ done ctx
    → ((handle_send_tmux env hub ctx).0.inputs ≡ whole env ctx ++ hub.inputs)
      × All IsAccepted (whole env ctx)
unfolding handle_send_tmux
handle_send_tmux_typed env hub ctx ok = elim (checked_cases env hub ctx (pane_error env ctx)) [
  | inl r ↦ absurd (not_done (sym r.answer ∙ ok))
  | inr r ↦ r.1 ok
]
  where
    not_done : {c : Code} {p : Problem} → err_resp c p ≡ done ctx → ⊥
    not_done e = cc
