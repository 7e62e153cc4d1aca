-- ===== src/Agentd/Permission.antt =====
-- agentd/internal/agent/permission.go: the permission requests that wait for the user's answer.
-- The lock makes each method one step. The clock's reading is an argument.
pub mod Laws
use agnet.Common.{ℕ, Bool, true, false, Option, none, some, List, String, ◌==◌, if◌then◌else◌}
use agnet.Common.Json.{Fields}
use agnet.Common.Map.{Map, lookup, insert, delete, values}

pub record Rule : Type 0 where
  pub tool : String
  pub rule_type : String
  pub rule_content : String

pub record PermissionSuggestion : Type 0 where
  pub kind : String  -- `Type`
  pub mode : String
  pub rules : List Rule
  pub directories : List String
  pub destination : String

pub record AiValidationInfo : Type 0 where
  pub verdict : String
  pub reason : String

pub record PermissionRequest : Type 0 where
  pub request_id : String
  pub tool_name : String
  pub display_name : String
  pub title : String
  pub description : String
  pub input : Fields
  pub permission_suggestions : List PermissionSuggestion
  pub tool_use_id : String
  pub agent_id : String
  pub blocked_path : String
  pub decision_reason : String
  pub ai_validation : Option AiValidationInfo
  pub timestamp : ℕ

pub record PermissionResponse : Type 0 where
  pub request_id : String
  pub behavior : String
  pub message : String
  pub updated_input : Fields
  pub updated_permissions : List PermissionSuggestion

pub record PermissionManager : Type 0 where
  pub pending_requests : Map PermissionRequest

pub new_permission_manager : PermissionManager
new_permission_manager = record { pending_requests = List.[] }

-- `now` is `time.Now().UnixMilli()`. The request is stored by pointer, so the stamp is in it too.
pub add_request : ℕ → PermissionManager → PermissionRequest → PermissionManager
add_request now pm req =
    let stamped = if req.timestamp == 0 then record req { timestamp = now } else req in
    record { pending_requests = insert stamped.request_id stamped pm.pending_requests }

pub get_request : PermissionManager → String → Option PermissionRequest
get_request pm id = lookup id pm.pending_requests

pub remove_request : PermissionManager → String → PermissionManager
remove_request pm id = record { pending_requests = delete id pm.pending_requests }

pub get_pending_requests : PermissionManager → List PermissionRequest
get_pending_requests pm = values pm.pending_requests

pub has_pending_requests : PermissionManager → Bool
has_pending_requests pm = elim pm.pending_requests [ List.[] ↦ false | _ ↦ true ]

unfoldable pub handle_response : PermissionManager → PermissionResponse → PermissionManager × Bool
handle_response pm resp = elim (lookup resp.request_id pm.pending_requests) [
  | some _ ↦ (record { pending_requests = delete resp.request_id pm.pending_requests }, true)
  | none ↦ (pm, false)
]
