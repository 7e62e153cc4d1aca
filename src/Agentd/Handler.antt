-- ===== src/Agentd/Handler.antt =====
-- agentd/internal/ws/types.go: the answers of the request handlers.
pub mod Key
pub mod History
pub mod Answer
pub mod Send
pub mod Terminal
mod Tests
use agnet.Common.{ℕ, String}
use agnet.Common.Text.{Bytes}
use agnet.Common.Json.{Fields}
use agnet.Agentd.Agent.{PaneError}
use agnet.Agentd.Hub.{SendFailure}

-- The codes of `errResp`: -32602 and -32000.
pub data Code : Type 0 where
  invalid_params server_error : Code

-- The messages of `errResp`, with what is put into them.
pub data Problem : Type 0 where
  message_required key_required request_id_required bad_behavior : Problem
  agent_not_found request_not_found : Problem
  unsupported_key : Bytes → Problem
  write_key_to_agent : SendFailure → Problem
  attached_read_only : String → Problem
  no_image_support : String → Problem
  not_in_pane : PaneError → Problem
  record_user_message : Problem
  write_to_tmux_agent : SendFailure → Problem
  resolve_prompt : SendFailure → Problem
  write_to_agent : SendFailure → Problem
  write_to_read_only_agent : String → Problem
  resolve_prompt_after_send : SendFailure → Problem
  resend_after_prompt : SendFailure → Problem

-- `no_resp`: the handler has not returned.
pub data Response : Type 0 where
  ok_resp : Fields → Response
  err_resp : Code → Problem → Response
  no_resp : Response
