-- ===== src/Agentd/Stream/Dispatch.antt =====
-- The switch of handleStreamJSONEvent.
use agnet.Common.{◌||◌, [], String, if◌then◌else◌}
use agnet.Common.Text.{◌=s◌}
use agnet.Agentd.Agent.{idle, working}
use agnet.Agentd.Hub.{Hub}
use agnet.Agentd.Stream.{StreamJsonEvent, Context, Run, status_to}
use agnet.Agentd.Stream.Session.{on_init}
use agnet.Agentd.Stream.Message.{on_message}
use agnet.Agentd.Stream.Tool.{
  on_tool_use, on_tool_result, on_result, on_block_start, on_block_delta, on_stream_event,
}
use agnet.Agentd.Stream.Control.{on_control_request, on_permission_prompt}

unfoldable pub dispatch : Context → String → StreamJsonEvent → Run → Run
dispatch cx id ev r =
    if ev.kind =s "init" || ev.kind =s "system"
    then on_init cx id ev r
    else if ev.kind =s "user" || ev.kind =s "assistant"
    then on_message cx id ev r
    else if ev.kind =s "tool_use"
    then on_tool_use cx id ev r
    else if ev.kind =s "tool_result"
    then on_tool_result cx id ev r
    else if ev.kind =s "result"
    then on_result cx id ev r
    else if ev.kind =s "message_start"
    then status_to id working r
    else if ev.kind =s "content_block_start"
    then on_block_start cx id ev r
    else if ev.kind =s "content_block_delta"
    then on_block_delta cx id ev r
    else if ev.kind =s "message_stop"
    then status_to id idle r
    else if ev.kind =s "stream_event"
    then on_stream_event cx id ev r
    else if ev.kind =s "control_request"
    then on_control_request cx id ev r
    else if ev.kind =s "permission_prompt"
    then on_permission_prompt cx id r
    else r

unfoldable pub handle_stream_json_event : Context → Hub → String → StreamJsonEvent → Run
unfolding dispatch
handle_stream_json_event cx hub id ev =
    dispatch cx id ev (record { hub = hub; pushes = []; changes = [] })
