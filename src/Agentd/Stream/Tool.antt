-- ===== src/Agentd/Stream/Tool.antt =====
-- The cases of the switch for tool calls, their results, and the answer as it comes.
use Prim.Native.String.{◌++◌ as ◌+s◌}
use agnet.Common.{true, false, Option, none, some, String, if◌then◌else◌}
use agnet.Common.Text.{Bytes, ◌=s◌, is_empty}
use agnet.Common.Json.{Fields, obj, text, flag, end, field, get, put}
use agnet.Agentd.Agent.{idle, working}
use agnet.Agentd.Interactive.{
  Payload, parse_interactive_tool_use, payload_fields, payload_key_for_kind,
}
use agnet.Agentd.Stream.{StreamJsonEvent, Context, Run, as_obj, get_string, status_to, emit, timed}

abbrev pub tool_text : String → String → String
tool_text name summary =
    if is_empty summary then "[" +s (name +s "]") else "[" +s (name +s (": " +s (summary +s "]")))

abbrev pub keyed : String → Fields → Fields → Fields
keyed key payload d = if is_empty key then d else put d key (obj payload)

-- The data of a tool call, which the cases `tool_use` and `content_block_start` share.
abbrev pub tool_data : Context → String → Bytes → Option (String × Payload) → Fields
tool_data cx name input (some (kind, payload)) =
    keyed (payload_key_for_kind kind) (payload_fields payload)
      (field "role" (text "assistant") (field "raw" (flag false) (field "kind" (text kind) end)))
tool_data cx name input none = field "role" (text "assistant") (
    field "text" (text (tool_text name (cx.input_summary name input))) (
      field "raw" (flag false) (field "kind" (text "tool_use") (field "toolName" (text name) end))))

unfoldable pub on_tool_use : Context → String → StreamJsonEvent → Run → Run
on_tool_use cx id ev r =
    let asks = parse_interactive_tool_use cx.decoder ev.name (get_string ev.raw "id") ev.input in
    emit cx id (timed cx ev.timestamp (tool_data cx ev.name ev.input asks)) (status_to id working r)

unfoldable pub on_tool_result : Context → String → StreamJsonEvent → Run → Run
on_tool_result cx id ev r =
    let name = get_string ev.raw "tool_name" in
    emit cx id
      (timed cx ev.timestamp (
        field "role" (text "assistant") (
          field "text" (text (cx.result_summary name ev.output)) (
            field "raw" (flag false) (
              field "kind" (text "tool_result")
                (field "result" (flag true) (field "toolName" (text name) end)))))))
      r

unfoldable pub on_result : Context → String → StreamJsonEvent → Run → Run
on_result cx id ev r =
    let answer = get_string ev.raw "result" in
    status_to id idle (
      if is_empty answer
      then r
      else emit cx id
          (field "role" (text "assistant") (
            field "text" (text answer)
              (field "raw" (flag false) (field "kind" (text "result") end))))
          r)

unfoldable pub on_block_start : Context → String → StreamJsonEvent → Run → Run
on_block_start cx id ev r = elim (as_obj (get ev.raw "content_block")) [
  | none ↦ r
  | some block ↦
      let name = get_string block "name" in
      let input = cx.marshal (get block "input") in
      let asks = parse_interactive_tool_use cx.decoder name (get_string block "id") input in
      if get_string block "type" =s "tool_use"
      then status_to id working (emit cx id (tool_data cx name input asks) r)
      else r
]

abbrev pub delta_text : Fields → String
delta_text delta =
    if is_empty (get_string delta "text")
    then get_string delta "text_delta"
    else get_string delta "text"

-- The text of a delta; `partial` is only in the event of the case `content_block_delta`.
unfoldable pub emit_delta : Context → String → Fields → Option Fields → Run → Run
emit_delta cx id more none r = r
emit_delta cx id more (some delta) r =
    if is_empty (delta_text delta)
    then r
    else emit cx id
        (field "role" (text "assistant") (
          field "text" (text (delta_text delta))
            (field "raw" (flag false) (field "kind" (text "text_delta") more))))
        r

unfoldable pub on_block_delta : Context → String → StreamJsonEvent → Run → Run
on_block_delta cx id ev r =
    emit_delta cx id (field "partial" (flag true) end) (as_obj (get ev.raw "delta")) r

unfoldable pub on_stream_event : Context → String → StreamJsonEvent → Run → Run
on_stream_event cx id ev r = elim (as_obj (get ev.raw "event")) [
  | none ↦ r
  | some inner ↦
      let kind = get_string inner "type" in
      if kind =s "message_start"
      then status_to id working r
      else if kind =s "content_block_delta"
      then emit_delta cx id end (as_obj (get inner "delta")) r
      else if kind =s "message_stop"
      then status_to id idle r
      else r
]
