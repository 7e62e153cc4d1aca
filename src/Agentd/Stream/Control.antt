-- ===== src/Agentd/Stream/Control.antt =====
-- The cases `control_request` and `permission_prompt` of the switch.
use Prim.Native.String.{◌++◌ as ◌+s◌}
use agnet.Common.{ℕ, true, false, Option, none, some, List, [], ◌∷◌, String, if◌then◌else◌}
use agnet.Common.Text.{◌=s◌}
use agnet.Common.Json.{Fields, Value, Items, obj, arr, text, flag, cons, nil, end, field, get}
use agnet.Agentd.Agent.{Agent, set_permission_prompt_active}
use agnet.Agentd.Hub.{update_agent}
use agnet.Agentd.Permission.{PermissionRequest, PermissionSuggestion, AiValidationInfo, add_request}
use agnet.Agentd.Stream.{StreamJsonEvent, Context, Run, as_obj, get_string, emit}

abbrev pub directories_of : Items → List String
directories_of nil = []
directories_of (cons (text s) more) = s ∷ directories_of more
directories_of (cons _ more) = directories_of more

abbrev pub items_of : Option Value → Items
items_of (some (arr xs)) = xs
items_of _ = nil

abbrev pub suggestion : Fields → PermissionSuggestion
suggestion m = record {
  kind = get_string m "type";
  mode = get_string m "mode";
  rules = [];
  directories = directories_of (items_of (get m "directories"));
  destination = get_string m "destination";
}

abbrev pub suggestions : Items → List PermissionSuggestion
suggestions nil = []
suggestions (cons (obj m) more) = suggestion m ∷ suggestions more
suggestions (cons _ more) = suggestions more

abbrev pub validation : Option Fields → Option AiValidationInfo
validation none = none
validation (some m) =
    some (record { verdict = get_string m "verdict"; reason = get_string m "reason" })

abbrev pub fields_or_nil : Option Fields → Fields
fields_or_nil none = end
fields_or_nil (some m) = m

unfoldable pub permission_request : Fields → PermissionRequest
permission_request raw = record {
  request_id = get_string raw "request_id";
  tool_name = get_string raw "tool_name";
  display_name = get_string raw "display_name";
  title = get_string raw "title";
  description = get_string raw "description";
  input = fields_or_nil (as_obj (get raw "input"));
  permission_suggestions = suggestions (items_of (get raw "permission_suggestions"));
  tool_use_id = get_string raw "tool_use_id";
  agent_id = get_string raw "agent_id";
  blocked_path = get_string raw "blocked_path";
  decision_reason = get_string raw "decision_reason";
  ai_validation = validation (as_obj (get raw "ai_validation"));
  timestamp = 0;
}

-- `AddRequest` stamps the request, which the event holds by pointer.
abbrev pub asked_at : ℕ → PermissionRequest → PermissionRequest
asked_at now req = record req { timestamp = now }

abbrev pub ask_permission : ℕ → PermissionRequest → Agent → Agent
ask_permission now req ag = record ag {
  permission_manager = add_request now ag.permission_manager req;
}

unfoldable pub on_control_request : Context → String → StreamJsonEvent → Run → Run
on_control_request cx id ev r =
    let req = permission_request ev.raw in
    if get_string ev.raw "subtype" =s "can_use_tool"
    then emit cx id
        (field "role" (text "system") (
          field "text" (text ("需要权限确认: " +s req.tool_name)) (
            field "raw" (flag false) (
              field "kind" (text "permission_request")
                (field "permissionRequest" (cx.request_value (asked_at cx.env.now req)) end)))))
        (record r { hub = update_agent r.hub id (ask_permission cx.env.now req) })
    else r

unfoldable pub on_permission_prompt : Context → String → Run → Run
on_permission_prompt cx id r =
    emit cx id
      (field "role" (text "system") (
        field "text" (text "Claude 需要权限确认") (
          field "raw" (flag false) (
            field "kind" (text "permission_prompt") (field "awaitingPermission" (flag true) end)))))
      (record r {
        hub = update_agent r.hub id (λ ag. set_permission_prompt_active cx.env.now ag true);
      })
