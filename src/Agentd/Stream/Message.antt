-- ===== src/Agentd/Stream/Message.antt =====
-- The cases `user` and `assistant` of the switch.
use Prim.Native.String.{◌++◌ as ◌+s◌}
use agnet.Common.{Bool, false, ◌&&◌, ◌||◌, not, none, some, List, [], ◌∷◌, String, if◌then◌else◌}
use agnet.Common.Text.{◌=s◌, is_empty}
use agnet.Common.Json.{Fields, text, flag, end, field}
use agnet.Common.Map.{lookup}
use agnet.Agentd.Agent.{idle, working}
use agnet.Agentd.EventBuf
use agnet.Agentd.Hub.{Hub}
use agnet.Agentd.Stream.{
  Content, plain, blocks, malformed, StreamJsonEvent, Context, Run, get_string, status_to, emit,
  timed,
}

abbrev pub texts : List (String × String) → String
texts [] = ""
texts ((kind, t) ∷ bs) = (if kind =s "text" then t else "") +s texts bs

abbrev pub any_tool_use : List (String × String) → Bool
any_tool_use [] = false
any_tool_use ((kind, t) ∷ bs) = kind =s "tool_use" || any_tool_use bs

abbrev pub content_text : Content → String
content_text (plain s) = s
content_text (blocks bs) = texts bs
content_text malformed = ""

abbrev pub has_tool_use : Content → Bool
has_tool_use (blocks bs) = any_tool_use bs
has_tool_use _ = false

abbrev pub role_of : StreamJsonEvent → String
role_of ev = if is_empty ev.role then ev.kind else ev.role

-- Whether the newest event in the buffer is a user's with the same text.
abbrev pub is_repeated : Hub → String → String → Bool
is_repeated hub id t = elim (lookup id hub.agents) [
  | none ↦ false
  | some ag ↦
      let last = (EventBuf.last_event ag.buf).body in
      get_string last "role" =s "user" && get_string last "text" =s t
]

abbrev pub message_data : Context → StreamJsonEvent → Fields
message_data cx ev = timed cx ev.timestamp (
    field "role" (text (role_of ev)) (
      field "text" (text (content_text ev.content))
        (field "raw" (flag false) (field "kind" (text (role_of ev)) end))))

abbrev pub after_message : String → String → Run → Run
after_message id kind r =
    if kind =s "user"
    then status_to id idle r
    else if kind =s "assistant"
    then status_to id working r
    else r

unfoldable pub on_message : Context → String → StreamJsonEvent → Run → Run
on_message cx id ev r =
    if is_empty (content_text ev.content) && not (has_tool_use ev.content)
    then r
    else if role_of ev =s "user" && is_repeated r.hub id (content_text ev.content)
    then r
    else after_message id ev.kind (emit cx id (message_data cx ev) r)
