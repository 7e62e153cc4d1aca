-- ===== src/Agentd/Handler/Terminal/Laws.antt =====
-- A message sent to a terminal is not lost to a permission prompt.
use agnet.Common.{
  ℕ, zero, suc, ◌+◌, ◌≡◌, refl, sym, ap, ◌∙◌, ◌++◌, append-nil, Bool, false, if◌then◌else◌, [],
  Option, none, some, List, ◌∷◌, String, Bool-cases, inl, inr,
}
use agnet.Common.Text.{Bytes, bytes}
use agnet.Agentd.Agent.{Route, write_input, set_permission_prompt_active}
use agnet.Agentd.Hub.{
  Env, Hub, SendFailure, Wrote, wrote, failed, hung, type_into, update_agent, outcome,
  record_conversation_event,
}
use agnet.Agentd.Handler.{
  Response, Problem, resolve_prompt, resolve_prompt_after_send, resend_after_prompt,
}
use agnet.Agentd.Handler.Send.{SendContext, event_data, announced}
use agnet.Agentd.Handler.Terminal.{
  pty_input, resolve_keys, on_write, answer_prompt, pty_ok, retype, watch_prompt, type_message,
  pty_recorded, handle_send_pty, refused_write,
}

-- The message, with a newline unless it is raw.
abbrev pub terminated : SendContext → Bytes
terminated ctx = bytes ctx.message ++ (if ctx.raw then [] else 0x0A ∷ [])

-- The newest write to any agent is the whole message, to the agent of the message, and it has been
-- accepted.
pub record IsLast (env : Env) (ctx : SendContext) (hub : Hub) : Type 0 where
  pub before : List (String × Route)
  pub newest : hub.inputs ≡ (ctx.agent_id, write_input env.outside ctx.ag (terminated ctx)) ∷ before
  pub accepted : outcome (write_input env.outside ctx.ag (terminated ctx)) ≡ wrote

terminated_lem : (ctx : SendContext) → pty_input ctx ≡ terminated ctx
terminated_lem ctx = elim (Bool-cases ctx.raw) [
  | inl e ↦ rw e (sym (append-nil (bytes ctx.message)))
  | inr e ↦ rw e refl
]

typed-IsLast :
    (env : Env) (ctx : SendContext) (h : Hub)
    → (type_into env h ctx.agent_id ctx.ag (pty_input ctx)).1 ≡ wrote
    → IsLast env ctx (type_into env h ctx.agent_id ctx.ag (pty_input ctx)).0
unfolding type_into
typed-IsLast env ctx h w =
    let e = terminated_lem ctx in
    record {
      before = h.inputs;
      newest = ap (λ s. (ctx.agent_id, write_input env.outside ctx.ag s) ∷ h.inputs) e;
      accepted = ap (λ s. outcome (write_input env.outside ctx.ag s)) (sym e) ∙ w;
    }

abbrev EndsWell : Env → SendContext → Hub × Response → Type 0
EndsWell env ctx r = r.1 ≡ pty_ok → IsLast env ctx r.0

on_write-EndsWell :
    (env : Env) (ctx : SendContext) (h : Hub) (w : Wrote) (problem : SendFailure → Problem)
    (go : Hub → Hub × Response)
    → (w ≡ wrote → EndsWell env ctx (go h))
    → EndsWell env ctx (on_write h w problem go)
unfolding on_write
on_write-EndsWell env ctx h wrote problem go g = g refl
on_write-EndsWell env ctx h (failed e) problem go g = λ e. cc
on_write-EndsWell env ctx h hung problem go g = λ e. cc

answer_prompt-EndsWell :
    (env : Env) (ctx : SendContext) (h : Hub) (problem : SendFailure → Problem)
    (go : Hub → Hub × Response)
    → ((h' : Hub) → EndsWell env ctx (go h'))
    → EndsWell env ctx (answer_prompt env h ctx problem go)
unfolding answer_prompt
answer_prompt-EndsWell env ctx h problem go g =
    let t = type_into env h ctx.agent_id ctx.ag resolve_keys in
    let inactive = λ (h : Hub).
      update_agent h ctx.agent_id (λ ag. set_permission_prompt_active env.now ag false) in
    on_write-EndsWell env ctx t.0 t.1 problem (λ h. go (inactive h)) (λ w. g (inactive t.0))

retype-EndsWell : (env : Env) (ctx : SendContext) (h : Hub) → EndsWell env ctx (retype env h ctx)
unfolding retype type_into
retype-EndsWell env ctx h =
    let t = type_into env h ctx.agent_id ctx.ag (pty_input ctx) in
    on_write-EndsWell env ctx t.0 t.1 resend_after_prompt (λ h. (h, pty_ok))
      (λ w e. typed-IsLast env ctx h w)

watch_prompt-EndsWell :
    (env : Env) (ctx : SendContext) (h : Hub) (prompt : ℕ → Bool) (i n : ℕ)
    → IsLast env ctx h
    → EndsWell env ctx (watch_prompt env h ctx prompt i n)
unfolding watch_prompt
watch_prompt-EndsWell env ctx h prompt i zero last = λ e. last
watch_prompt-EndsWell env ctx h prompt i (suc n) last = elim (Bool-cases (prompt i)) [
  | inl e ↦ rw e (
      answer_prompt-EndsWell env ctx h resolve_prompt_after_send (λ h. retype env h ctx)
        (retype-EndsWell env ctx))
  | inr e ↦ rw e (watch_prompt-EndsWell env ctx h prompt (i + 1) n last)
]

type_message-EndsWell :
    (env : Env) (ctx : SendContext) (prompt : ℕ → Bool) (h : Hub)
    → EndsWell env ctx (type_message env h ctx prompt)
unfolding type_message type_into
type_message-EndsWell env ctx prompt h =
    let t = type_into env h ctx.agent_id ctx.ag (pty_input ctx) in
    on_write-EndsWell env ctx t.0 t.1 (refused_write ctx) (λ h. watch_prompt env h ctx prompt 1 8)
      (λ w. watch_prompt-EndsWell env ctx t.0 prompt 1 8 (typed-IsLast env ctx h w))

pty_recorded-EndsWell :
    (env : Env) (ctx : SendContext) (prompt : ℕ → Bool) (h : Hub) (o : Option ℕ)
    → EndsWell env ctx (pty_recorded env h ctx prompt o)
unfolding pty_recorded
pty_recorded-EndsWell env ctx prompt h none = λ e. cc
pty_recorded-EndsWell env ctx prompt h (some n) = elim (Bool-cases (prompt 0)) [
  | inl e ↦ rw e (
      answer_prompt-EndsWell env ctx (announced env h ctx n) resolve_prompt
        (λ h. type_message env h ctx prompt) (type_message-EndsWell env ctx prompt))
  | inr e ↦ rw e (type_message-EndsWell env ctx prompt (announced env h ctx n))
]

-- Whenever permission prompts are shown, before the message is typed or at any look after it: if the
-- handler answers with success, then the last write is the whole message to its agent, with a newline
-- unless it is raw, and that write was accepted; so an answer to a prompt never comes after it.
pub handle_send_pty-IsLast :
    (env : Env) (hub : Hub) (ctx : SendContext) (prompt : ℕ → Bool)
    → (handle_send_pty env hub ctx prompt).1 ≡ pty_ok
    → IsLast env ctx (handle_send_pty env hub ctx prompt).0
unfolding handle_send_pty
handle_send_pty-IsLast env hub ctx prompt =
    pty_recorded-EndsWell env ctx prompt
      (record_conversation_event env hub ctx.agent_id (event_data ctx)).0
      (record_conversation_event env hub ctx.agent_id (event_data ctx)).1
