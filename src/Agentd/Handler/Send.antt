-- ===== src/Agentd/Handler/Send.antt =====
-- agentd/internal/ws/send_strategy_exec.go and what it calls of handler.go: a message of the user is
-- recorded, pushed to the clients and typed into the agent. The agent's input route does not change
-- while a message is sent. `fmt.Sprintf` is left out: an error keeps what is put into its text.
pub mod Frame
pub mod Laws
pub mod Typed
use agnet.Common.{
  ℕ, zero, suc, ◌+◌, Bool, true, false, ◌&&◌, not, Option, none, some, List, [], ◌∷◌, ◌++◌, String,
  ltb, ◌==◌, if◌then◌else◌, length,
}
use agnet.Common.Text.{Bytes, bytes, ◌=s◌, is_empty}
use agnet.Common.Json.{Value, text, num, flag, arr, Items, nil, cons, Fields, end, field, put}
use agnet.Agentd.Provider.{Capabilities}
use agnet.Agentd.Agent.{
  Agent, PaneError, stopped, begin_send, end_send, set_permission_prompt_active,
  validate_non_shell_pane,
}
use agnet.Agentd.Hub.{
  Env, Hub, SendFailure, Wrote, wrote, failed, hung, broadcast, type_into, update_agent,
  set_agent_status, record_conversation_event,
}
use agnet.Agentd.Handler.{
  Response, ok_resp, err_resp, no_resp, Problem, server_error, not_in_pane, no_image_support,
  record_user_message, write_to_tmux_agent, resolve_prompt, write_to_agent,
  write_to_read_only_agent, resolve_prompt_after_send, resend_after_prompt,
}

-- `sendContext`
pub record SendContext : Type 0 where
  pub agent_id : String
  pub message : String
  pub raw : Bool
  pub image_files : List String
  pub image_paths : List String
  pub ag : Agent
  pub caps : Capabilities

abbrev items_of : List String → Items
items_of [] = nil
items_of (s ∷ ss) = cons (text s) (items_of ss)

-- `if len(paths) > 0 { data["images"] = paths }`
abbrev with_images : List String → Fields → Fields
with_images [] d = d
with_images (p ∷ ps) d = put d "images" (arr (items_of (p ∷ ps)))

pub event_data : SendContext → Fields
event_data ctx = with_images ctx.image_paths (
    field "role" (text "user") (
      field "text" (text ctx.message)
        (field "raw" (flag false) (field "imageCount" (num (length ctx.image_files)) end))))

pub build_user_message_broadcast : Env → Hub → SendContext → ℕ → Fields
build_user_message_broadcast env hub ctx seq =
    let plain = field "agentId" (text ctx.ag.id) (
      field "nodeId" (text hub.node_id) (
        field "sessionId" (text ctx.ag.resume_session_id) (
          field "role" (text "user") (
            field "text" (text ctx.message) (
              field "imageCount" (num (length ctx.image_files))
                (field "timestamp" (num env.now) end)))))) in
    with_images ctx.image_paths (if ltb 0 seq then put plain "seq" (num seq) else plain)

-- The paths, with a blank between two of them.
abbrev pub joined : List String → Bytes
joined [] = []
joined (p ∷ []) = bytes p
joined (p ∷ q ∷ ps) = bytes p ++ (b' ' ∷ joined (q ∷ ps))

unfoldable pub format_tmux_message_with_images : String → List String → Bytes
format_tmux_message_with_images message [] = bytes message
format_tmux_message_with_images message (p ∷ ps) =
    bytes message ++ (if is_empty message then [] else b' ' ∷ []) ++ joined (p ∷ ps)

-- `strings.TrimSuffix(s, "\n")`
abbrev pub trim_newline : Bytes → Bytes
trim_newline [] = []
trim_newline (b ∷ []) = if b == 0x0A then [] else b ∷ []
trim_newline (b ∷ c ∷ s) = b ∷ trim_newline (c ∷ s)

abbrev is_hermes : SendContext → Bool
is_hermes ctx = ctx.ag.provider =s "hermes"

abbrev has_images : List String → Bool
has_images [] = false
has_images (p ∷ ps) = true

-- The text that is typed, with a line end unless the message is raw.
unfoldable pub tmux_input : SendContext → Bytes
unfolding format_tmux_message_with_images
tmux_input ctx =
    let prompt =
      if not (is_hermes ctx) && has_images ctx.image_paths
      then format_tmux_message_with_images ctx.message ctx.image_paths
      else bytes ctx.message in
    if ctx.raw then prompt else prompt ++ (0x0A ∷ [])

-- A second write, made only where the first returned nil.
unfoldable pub then_write : Hub → Wrote → (Hub → Hub × Wrote) → Hub × Wrote
then_write hub wrote go = go hub
then_write hub (failed e) go = (hub, failed e)
then_write hub hung go = (hub, hung)

-- Codex is typed the text and then the Enter key; the others are typed all at once.
unfoldable pub type_prompt : Env → Hub → SendContext → Hub × Wrote
unfolding tmux_input then_write
type_prompt env hub ctx =
    if ctx.ag.provider =s "codex" && not ctx.raw
    then (let (h, w) = type_into env hub ctx.agent_id ctx.ag (trim_newline (tmux_input ctx)) in
        then_write h w (λ h. type_into env h ctx.agent_id ctx.ag (0x0D ∷ [])))
    else type_into env hub ctx.agent_id ctx.ag (tmux_input ctx)

-- What follows the writes: `EndSend` for Hermes, then the answer.
unfoldable pub tmux_written : Hub → SendContext → Wrote → Hub × Response
tmux_written hub ctx hung = (hub, no_resp)
tmux_written hub ctx (failed e) = (
  if is_hermes ctx then update_agent hub ctx.agent_id end_send else hub,
  err_resp server_error (write_to_tmux_agent e),
)
tmux_written hub ctx wrote = (
  if is_hermes ctx then update_agent hub ctx.agent_id end_send else hub,
  ok_resp (field "id" (text ctx.agent_id) end),
)

-- The message has been recorded with the number `seq`.
abbrev pub announced : Env → Hub → SendContext → ℕ → Hub
announced env hub ctx seq =
    broadcast hub "conversation.message" (build_user_message_broadcast env hub ctx seq)

unfoldable pub tmux_recorded : Env → Hub → SendContext → Option ℕ → Hub × Response
unfolding type_prompt tmux_written
tmux_recorded env hub ctx none = (hub, err_resp server_error record_user_message)
tmux_recorded env hub ctx (some seq) =
    let h = announced env hub ctx seq in
    let begun = if is_hermes ctx then update_agent h ctx.agent_id begin_send else h in
    let (typed, w) = type_prompt env begun ctx in tmux_written typed ctx w

-- What the check of the pane says, where the provider needs it.
unfoldable pub pane_error : Env → SendContext → Option PaneError
pane_error env ctx =
    if ctx.caps.requires_tmux_foreground_validation
    then validate_non_shell_pane env.display ctx.ag.tmux_target
    else none

-- The handler once the pane has been checked.
unfoldable pub tmux_checked : Env → Hub → SendContext → Option PaneError → Hub × Response
unfolding tmux_recorded
tmux_checked env hub ctx (some e) =
    (set_agent_status hub ctx.agent_id stopped, err_resp server_error (not_in_pane e))
tmux_checked env hub ctx none =
    if has_images ctx.image_files && not ctx.caps.supports_image_attachment
    then (hub, err_resp server_error (no_image_support ctx.ag.provider))
    else (let (h, seq) = record_conversation_event env hub ctx.agent_id (event_data ctx) in
        tmux_recorded env h ctx seq)

unfoldable pub handle_send_tmux : Env → Hub → SendContext → Hub × Response
unfolding tmux_checked pane_error
handle_send_tmux env hub ctx = tmux_checked env hub ctx (pane_error env ctx)
