-- ===== src/Agentd/Handler/Answer.antt =====
-- agentd/internal/ws/handler.go, conversationPermissionResponse: the user's answer to a permission
-- request. `json.Marshal` is outside, so a control response is kept as the value that it is given; an
-- error of the write is only logged.
pub mod Laws
use agnet.Common.{
  ℕ, Bool, true, false, ◌||◌, not, Option, none, some, [], ◌∷◌, String, if◌then◌else◌,
}
use agnet.Common.Text.{◌=s◌, is_empty}
use agnet.Common.Json.{Value, null, text, flag, obj, Fields, end, field}
use agnet.Common.Map.{lookup, insert}
use agnet.Agentd.Permission.{PermissionResponse, handle_response}
use agnet.Agentd.Agent.{Agent}
use agnet.Agentd.Hub.{Hub, broadcast}
use agnet.Agentd.Handler.{
  Response, ok_resp, err_resp, invalid_params, server_error, request_id_required, bad_behavior,
  agent_not_found, request_not_found,
}

pub record ConversationPermissionResponseParams : Type 0 where
  pub agent_id : String
  pub request_id : String
  pub behavior : String
  pub message : String
  pub updated_input : Fields

-- The response that the manager is given; `UpdatedPermissions` is left nil.
abbrev pub response_of : ConversationPermissionResponseParams → PermissionResponse
response_of p = record {
  request_id = p.request_id;
  behavior = p.behavior;
  message = p.message;
  updated_input = p.updated_input;
  updated_permissions = [];
}

pub control_resp : ConversationPermissionResponseParams → Fields
control_resp p =
    let response_data =
      if p.behavior =s "allow"
      then field "behavior" (text "allow")
          (field "updatedInput" (obj p.updated_input) (field "updatedPermissions" null end))
      else field "behavior" (text "deny") (field "message" (text p.message) end) in
    field "type" (text "control_response") (
      field "response"
        (obj (
          field "subtype" (text "success")
            (field "request_id" (text p.request_id) (field "response" (obj response_data) end))))
        end)

-- What is sent to the agent's process, if it has one.
abbrev pub send_control : Hub → Option ℕ → Fields → Hub
send_control hub (some n) c = record hub { controls = (n, c) ∷ hub.controls }
send_control hub none c = hub

-- The rest of the handler once the manager has answered.
unfoldable pub handled : Hub → ConversationPermissionResponseParams → Agent → Bool → Hub × Response
handled hub p ag false = (hub, err_resp server_error request_not_found)
handled hub p ag true = (
  broadcast
      (send_control (record hub { agents = insert p.agent_id ag hub.agents }) ag.process
        (control_resp p))
      "permission.resolved"
      (field "agentId" (text p.agent_id)
        (field "requestId" (text p.request_id) (field "behavior" (text p.behavior) end))),
  ok_resp (field "ok" (flag true) end),
)

unfoldable pub conversation_permission_response :
    Hub → ConversationPermissionResponseParams → Hub × Response
unfolding handled
conversation_permission_response hub p =
    if is_empty p.request_id
    then (hub, err_resp invalid_params request_id_required)
    else if not (p.behavior =s "allow" || p.behavior =s "deny")
    then (hub, err_resp invalid_params bad_behavior)
    else elim (lookup p.agent_id hub.agents) [
      | none ↦ (hub, err_resp server_error agent_not_found)
      | some ag ↦
          let (pm, ok) = handle_response ag.permission_manager (response_of p) in
          handled hub p (record ag { permission_manager = pm }) ok
    ]
