-- ===== src/Agentd/Stream/Session.antt =====
-- The case `init` of the switch, and UpdateResumeSessionID.
use agnet.Common.{◌&&◌, ◌||◌, not, Option, none, some, String, if◌then◌else◌}
use agnet.Common.Text.{◌=s◌, is_empty}
use agnet.Common.Json.{as_text, get}
use agnet.Common.Map.{lookup}
use agnet.Agentd.Agent.{Agent}
use agnet.Agentd.Hub.{Hub, update_agent}
use agnet.Agentd.Stream.{StreamJsonEvent, Context, Run, get_string}

abbrev pub session_to : String → Agent → Agent
session_to sid ag = record ag { resume_session_id = sid }

abbrev pub parent_to : Context → Hub → String → Option String → Hub
parent_to cx hub sid none = hub
parent_to cx hub sid (some parent) =
    if not (is_empty parent) && cx.row_updated parent sid
    then update_agent hub parent (session_to sid)
    else hub

-- An error of the first update of a row ends the call.
unfoldable pub update_resume_session_id : Context → Hub → String → String → Hub
update_resume_session_id cx hub id sid = elim (lookup id hub.agents) [
  | none ↦ hub
  | some _ ↦
      if is_empty sid || not (cx.row_updated id sid)
      then hub
      else parent_to cx (update_agent hub id (session_to sid)) sid (cx.parent_of id)
]

unfoldable pub on_init : Context → String → StreamJsonEvent → Run → Run
on_init cx id ev r = elim (as_text (get ev.raw "subtype")) [
  | some subtype ↦
      if subtype =s "init" || ev.kind =s "init"
      then record r { hub = update_resume_session_id cx r.hub id (get_string ev.raw "session_id") }
      else r
  | none ↦ r
]
