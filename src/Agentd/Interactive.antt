-- ===== src/Agentd/Interactive.antt =====
-- agentd/internal/agent/event_kinds.go: the tool calls that ask the user something. Decoding is that of
-- encoding/json, so what it makes of a tool's input is an argument: `none` where it fails.
use agnet.Common.{Bool, Option, none, some, List, [], ◌∷◌, String, if◌then◌else◌}
use agnet.Common.Text.{Bytes, ◌=s◌, ◌=b◌, is_empty}
use agnet.Common.Json.{Fields, Items, obj, arr, text, flag, cons, nil, end, field}

pub record AskUserQuestionOption : Type 0 where
  pub label : String
  pub description : String
  pub preview : String

pub record AskUserQuestion : Type 0 where
  pub question : String
  pub header : String
  pub multi_select : Bool
  pub options : List AskUserQuestionOption

pub record AskUserQuestionPayload : Type 0 where
  pub tool_use_id : String
  pub questions : List AskUserQuestion

pub record ExitPlanModePayload : Type 0 where
  pub tool_use_id : String
  pub plan : String

pub data Payload : Type 0 where
  ask : AskUserQuestionPayload → Payload
  exit_plan : ExitPlanModePayload → Payload

-- What json.Unmarshal makes of a tool's input.
pub record Decoder : Type 0 where
  pub questions : Bytes → Option (List AskUserQuestion)
  pub plan : Bytes → Option String

unfoldable pub payload_key_for_kind : String → String
payload_key_for_kind kind =
    if kind =s "ask_user_question"
    then "askUserQuestion"
    else if kind =s "exit_plan_mode"
    then "exitPlanMode"
    else if kind =s "permission_request"
    then "permissionRequest"
    else ""

abbrev asked : String → Option (List AskUserQuestion) → Option AskUserQuestionPayload
asked id none = none
asked id (some []) = none
asked id (some (q ∷ qs)) = some (record { tool_use_id = id; questions = q ∷ qs })

unfoldable pub parse_ask_user_question : Decoder → String → Bytes → Option AskUserQuestionPayload
parse_ask_user_question dec id raw = if raw =b [] then none else asked id (dec.questions raw)

abbrev planned : String → Option String → Option ExitPlanModePayload
planned id none = none
planned id (some plan) = some (record { tool_use_id = id; plan = plan })

unfoldable pub parse_exit_plan_mode : Decoder → String → Bytes → Option ExitPlanModePayload
parse_exit_plan_mode dec id raw = if raw =b [] then none else planned id (dec.plan raw)

abbrev as_ask : Option AskUserQuestionPayload → Option (String × Payload)
as_ask none = none
as_ask (some p) = some ("ask_user_question", ask p)

abbrev as_plan : Option ExitPlanModePayload → Option (String × Payload)
as_plan none = none
as_plan (some p) = some ("exit_plan_mode", exit_plan p)

-- The kind and the payload; `none` for a tool that asks nothing, or on malformed input.
unfoldable pub parse_interactive_tool_use :
    Decoder → String → String → Bytes → Option (String × Payload)
parse_interactive_tool_use dec name id raw =
    if name =s "AskUserQuestion"
    then as_ask (parse_ask_user_question dec id raw)
    else if name =s "ExitPlanMode"
    then as_plan (parse_exit_plan_mode dec id raw)
    else none

-- The JSON object of a payload, by the tags of its fields; an empty text that has `omitempty` is left out.
abbrev omit_empty : String → String → Fields → Fields
omit_empty k s rest = if is_empty s then rest else field k (text s) rest

abbrev option_items : List AskUserQuestionOption → Items
option_items [] = nil
option_items (o ∷ os) =
    cons
      (obj (
        field "label" (text o.label)
          (omit_empty "description" o.description (omit_empty "preview" o.preview end))))
      (option_items os)

abbrev question_items : List AskUserQuestion → Items
question_items [] = nil
question_items (q ∷ qs) =
    cons
      (obj (
        field "question" (text q.question) (
          omit_empty "header" q.header (
            field "multi_select" (flag q.multi_select)
              (field "options" (arr (option_items q.options)) end)))))
      (question_items qs)

unfoldable pub payload_fields : Payload → Fields
payload_fields (ask p) =
    field "tool_use_id" (text p.tool_use_id)
      (field "questions" (arr (question_items p.questions)) end)
payload_fields (exit_plan p) =
    field "tool_use_id" (text p.tool_use_id) (field "plan" (text p.plan) end)
