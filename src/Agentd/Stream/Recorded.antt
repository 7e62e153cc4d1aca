-- ===== src/Agentd/Stream/Recorded.antt =====
-- Each case of the switch records at most one event, and gives the output callback that one.
use agnet.Common.{
  ◌≡◌, refl, ◌∙◌, inl, inr, Bool, true, false, ◌&&◌, ◌||◌, not, Option, none, some, String,
  if◌then◌else◌, Bool-cases, Option-cases,
}
use agnet.Common.Text.{◌=s◌, is_empty}
use agnet.Common.Json.{Fields, get, as_text}
use agnet.Common.Map.{lookup}
use agnet.Agentd.Agent.{Agent, Status, working, set_permission_prompt_active}
use agnet.Agentd.EventBuf.{EventBuffer}
use agnet.Agentd.Hub.{Hub, update_agent}
use agnet.Agentd.Stream.{StreamJsonEvent, Context, Run, as_obj, get_string, status_to, emit}
use agnet.Agentd.Stream.Session.{update_resume_session_id, parent_to, on_init, session_to}
use agnet.Agentd.Stream.Message.{on_message}
use agnet.Agentd.Stream.Tool.{
  on_tool_use, on_tool_result, on_result, on_block_start, on_block_delta, on_stream_event,
  emit_delta,
}
use agnet.Agentd.Stream.Control.{
  on_control_request, on_permission_prompt, permission_request, ask_permission,
}
use agnet.Agentd.Stream.Dispatch.{dispatch}
use agnet.Agentd.Stream.Laws.{
  buffer, buffer_in, IsQuiet, Recorded, unchanged_refl, unchanged_trans, then_unchanged,
  after_unchanged, update_agent-same, status_to-IsQuiet, emit-IsSaid, numbered_by,
}

pub holder :
    (o : Option Agent) (b : EventBuffer)
    → buffer o ≡ some b
    → (ag : Agent) × (o ≡ some ag) × (ag.buf ≡ b)
holder none b h = cc
holder (some ag) b h = (ag, refl, cc (h))

module _ (cx : Context) (id : String) (b : EventBuffer) (r : Run)
    (held : buffer_in r.hub id ≡ some b) where
  abbrev Silent : Run → Type 0
  Silent s = IsQuiet cx id b r s

  abbrev Done : Run → Type 0
  Done s = Recorded cx id b r s

  silent : Silent r
  silent = unchanged_refl cx id b r

  then_status : (j : String) (st : Status) (s : Run) → Done s → Done (status_to j st s)
  then_status j st s (inl q) = inl (unchanged_trans cx id b q (status_to-IsQuiet cx id b j st s))
  then_status j st s (inr (d, p)) =
      inr (d, then_unchanged cx id b p (status_to-IsQuiet cx id b j st s))

  status-Done : (j : String) (st : Status) → Done (status_to j st r)
  status-Done j st = inl (status_to-IsQuiet cx id b j st r)

  emit-Done : (d : Fields) (s : Run) → Silent s → Done (emit cx id d s)
  emit-Done d s q =
      let (ag, e, f) = holder (lookup id s.hub.agents) b (q.same_buffers id ∙ held) in
      inr (numbered_by cx id b b d, after_unchanged cx id b q (emit-IsSaid cx id b d s ag e f))

  branch : (t : Bool) (s u : Run) → Done s → Done u → Done (if t then s else u)
  branch true s u p q = p
  branch false s u p q = q

  nothing : Done r
  nothing = inl silent

  on_message-Done : (ev : StreamJsonEvent) → Done (on_message cx id ev r)
  unfolding on_message
  on_message-Done ev = search (branch, then_status, emit-Done, nothing, silent) depth 12

  on_tool_use-Done : (ev : StreamJsonEvent) → Done (on_tool_use cx id ev r)
  unfolding on_tool_use
  on_tool_use-Done ev = emit-Done _ _ (status_to-IsQuiet cx id b id working r)

  on_tool_result-Done : (ev : StreamJsonEvent) → Done (on_tool_result cx id ev r)
  unfolding on_tool_result
  on_tool_result-Done ev = emit-Done _ _ silent

  on_result-Done : (ev : StreamJsonEvent) → Done (on_result cx id ev r)
  unfolding on_result
  on_result-Done ev = search (branch, then_status, emit-Done, nothing, silent) depth 12

  on_block_start-Done : (ev : StreamJsonEvent) → Done (on_block_start cx id ev r)
  unfolding on_block_start
  on_block_start-Done ev = elim (Option-cases (as_obj (get ev.raw "content_block"))) [
    | inl e ↦ rw (e, on_block_start) nothing
    | inr (block, e) ↦
        rw (e, on_block_start) (search (branch, then_status, emit-Done, nothing, silent) depth 12)
  ]

  emit_delta-Done : (more : Fields) (delta : Option Fields) → Done (emit_delta cx id more delta r)
  unfolding emit_delta
  emit_delta-Done more none = nothing
  emit_delta-Done more (some delta) = search (branch, emit-Done, nothing, silent) depth 12

  on_block_delta-Done : (ev : StreamJsonEvent) → Done (on_block_delta cx id ev r)
  unfolding on_block_delta
  on_block_delta-Done ev = emit_delta-Done _ _

  on_stream_event-Done : (ev : StreamJsonEvent) → Done (on_stream_event cx id ev r)
  unfolding on_stream_event
  on_stream_event-Done ev = elim (Option-cases (as_obj (get ev.raw "event"))) [
    | inl e ↦ rw (e, on_stream_event) nothing
    | inr (inner, e) ↦
        rw (e, on_stream_event) (search (branch, status-Done, emit_delta-Done, nothing) depth 12)
  ]

  updated :
      (f : Agent → Agent)
      → ((ag : Agent) → (f ag).buf ≡ ag.buf)
      → Silent (record r { hub = update_agent r.hub id f })
  updated f same = record {
    same_buffers = λ k. update_agent-same cx id b r.hub f id k (λ ag _. same ag);
    same_pushes = refl;
  }

  on_control_request-Done : (ev : StreamJsonEvent) → Done (on_control_request cx id ev r)
  unfolding on_control_request
  on_control_request-Done ev =
      branch (get_string ev.raw "subtype" =s "can_use_tool") _ _
        (emit-Done _ _
          (updated (ask_permission cx.env.now (permission_request ev.raw)) (λ ag. refl)))
        nothing

  on_permission_prompt-Done : Done (on_permission_prompt cx id r)
  unfolding on_permission_prompt set_permission_prompt_active
  on_permission_prompt-Done =
      emit-Done _ _ (updated (λ ag. set_permission_prompt_active cx.env.now ag true) prompt_same)
    where
      prompt_same : (ag : Agent) → (set_permission_prompt_active cx.env.now ag true).buf ≡ ag.buf
      prompt_same ag = refl

  parent_to-same :
      (hub : Hub) (sid : String) (o : Option String) (k : String)
      → buffer_in (parent_to cx hub sid o) k ≡ buffer_in hub k
  parent_to-same hub sid none k = refl
  parent_to-same hub sid (some parent) k =
      elim (Bool-cases (not (is_empty parent) && cx.row_updated parent sid)) [
        | inl e ↦ rw e (update_agent-same cx id b hub (session_to sid) parent k (λ ag _. refl))
        | inr e ↦ rw e refl
      ]

  session-same :
      (hub : Hub) (sid k : String)
      → buffer_in (update_resume_session_id cx hub id sid) k ≡ buffer_in hub k
  unfolding update_resume_session_id
  session-same hub sid k = elim (Option-cases (lookup id hub.agents)) [
    | inl e ↦ rw (e, update_resume_session_id) refl
    | inr (ag, e) ↦
        rw (e, update_resume_session_id)
          (elim (Bool-cases (is_empty sid || not (cx.row_updated id sid))) [
            | inl f ↦ rw f refl
            | inr f ↦ rw f (
                parent_to-same (update_agent hub id (session_to sid)) sid (cx.parent_of id) k
                ∙ update_agent-same cx id b hub (session_to sid) id k (λ a _. refl))
          ])
  ]

  on_init-Done : (ev : StreamJsonEvent) → Done (on_init cx id ev r)
  unfolding on_init
  on_init-Done ev = elim (Option-cases (as_text (get ev.raw "subtype"))) [
    | inl e ↦ rw (e, on_init) nothing
    | inr (subtype, e) ↦
        rw (e, on_init)
          (branch (subtype =s "init" || ev.kind =s "init") _ _
            (inl (record {
              same_buffers = session-same r.hub (get_string ev.raw "session_id");
              same_pushes = refl;
            }))
            nothing)
  ]

  -- Any event of the stream records at most one conversation event: either no buffer changes and the
  -- output callback is not called, or one event is appended to the buffer of the agent and to no other, and the
  -- output callback, where there is one, gets that event with the number that it has in the buffer.
  pub dispatch-Recorded : (ev : StreamJsonEvent) → Recorded cx id b r (dispatch cx id ev r)
  unfolding dispatch
  dispatch-Recorded ev =
      search
        (
          branch, on_init-Done, on_message-Done, on_tool_use-Done, on_tool_result-Done,
          on_result-Done, status-Done, on_block_start-Done, on_block_delta-Done,
          on_stream_event-Done, on_control_request-Done, on_permission_prompt-Done, nothing,
        )
        depth 20
