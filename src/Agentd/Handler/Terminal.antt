-- ===== src/Agentd/Handler/Terminal.antt =====
-- agentd/internal/ws/send_strategy_exec.go, handleSendPTY: a message typed into an agent's terminal.
-- The handler looks nine times whether a permission prompt is shown, which others set meanwhile:
-- `prompt i` is what the look `i` finds. The pauses between the looks are left out.
pub mod Laws
use agnet.Common.{
  ℕ, zero, suc, ◌+◌, Bool, true, false, ◌&&◌, not, Option, none, some, List, [], ◌∷◌, ◌++◌, String,
  if◌then◌else◌,
}
use agnet.Common.Text.{Bytes, bytes, is_empty}
use agnet.Common.Json.{flag, field, end}
use agnet.Agentd.Agent.{set_permission_prompt_active}
use agnet.Agentd.Hub.{
  Env, Hub, SendFailure, Wrote, wrote, failed, hung, type_into, update_agent,
  record_conversation_event,
}
use agnet.Agentd.Handler.{
  Response, ok_resp, err_resp, no_resp, Problem, server_error, record_user_message, resolve_prompt,
  write_to_agent, write_to_read_only_agent, resolve_prompt_after_send, resend_after_prompt,
}
use agnet.Agentd.Handler.Send.{SendContext, event_data, announced}

abbrev pub pty_input : SendContext → Bytes
pty_input ctx = if ctx.raw then bytes ctx.message else bytes ctx.message ++ (0x0A ∷ [])

-- Tab, Enter, Enter.
abbrev pub resolve_keys : Bytes
resolve_keys = 0x09 ∷ 0x0D ∷ 0x0D ∷ []

-- `if err := …; err != nil { return … }` after a write.
unfoldable pub on_write :
    Hub → Wrote → (SendFailure → Problem) → (Hub → Hub × Response) → Hub × Response
on_write hub wrote problem go = go hub
on_write hub (failed e) problem go = (hub, err_resp server_error (problem e))
on_write hub hung problem go = (hub, no_resp)

-- A prompt is answered, and no longer active.
unfoldable pub answer_prompt :
    Env → Hub → SendContext → (SendFailure → Problem) → (Hub → Hub × Response) → Hub × Response
unfolding on_write
answer_prompt env hub ctx problem go =
    let (h, w) = type_into env hub ctx.agent_id ctx.ag resolve_keys in
    on_write h w problem
      (λ h. go (update_agent h ctx.agent_id (λ ag. set_permission_prompt_active env.now ag false)))

abbrev pub pty_ok : Response
pty_ok = ok_resp (field "ok" (flag true) end)

unfoldable pub retype : Env → Hub → SendContext → Hub × Response
unfolding on_write
retype env hub ctx =
    let (h, w) = type_into env hub ctx.agent_id ctx.ag (pty_input ctx) in
    on_write h w resend_after_prompt (λ h. (h, pty_ok))

-- The loop from the look `i`, with `n` rounds left. It ends with the first prompt.
unfoldable pub watch_prompt : Env → Hub → SendContext → (ℕ → Bool) → ℕ → ℕ → Hub × Response
unfolding answer_prompt retype
watch_prompt env hub ctx prompt i zero = (hub, pty_ok)
watch_prompt env hub ctx prompt i (suc n) =
    let rest = watch_prompt env hub ctx prompt (i + 1) n in
    if prompt i
    then answer_prompt env hub ctx resolve_prompt_after_send (λ h. retype env h ctx)
    else rest

abbrev refused_write : SendContext → SendFailure → Problem
refused_write ctx e =
    if ctx.ag.attach_read_only && not (is_empty ctx.ag.attach_read_only_reason)
    then write_to_read_only_agent ctx.ag.attach_read_only_reason
    else write_to_agent e

unfoldable pub type_message : Env → Hub → SendContext → (ℕ → Bool) → Hub × Response
unfolding on_write watch_prompt
type_message env hub ctx prompt =
    let (h, w) = type_into env hub ctx.agent_id ctx.ag (pty_input ctx) in
    on_write h w (refused_write ctx) (λ h. watch_prompt env h ctx prompt 1 8)

unfoldable pub pty_recorded : Env → Hub → SendContext → (ℕ → Bool) → Option ℕ → Hub × Response
unfolding answer_prompt type_message
pty_recorded env hub ctx prompt none = (hub, err_resp server_error record_user_message)
pty_recorded env hub ctx prompt (some seq) =
    let h = announced env hub ctx seq in
    if prompt 0
    then answer_prompt env h ctx resolve_prompt (λ h. type_message env h ctx prompt)
    else type_message env h ctx prompt

unfoldable pub handle_send_pty : Env → Hub → SendContext → (ℕ → Bool) → Hub × Response
unfolding pty_recorded
handle_send_pty env hub ctx prompt =
    let (h, seq) = record_conversation_event env hub ctx.agent_id (event_data ctx) in
    pty_recorded env h ctx prompt seq
