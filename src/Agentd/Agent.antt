-- ===== src/Agentd/Agent.antt =====
-- agentd/internal/agent/agent.go: one agent, its state and the routing of typed input.
-- The lock makes each method one step. A process and a watcher are handles (`Some n`), the clock's
-- reading in milliseconds is an argument, and what runs outside the program is a parameter.
pub mod Laws
use agnet.Common.{
  ℕ, ◌+◌, ◌-◌, ◌<◌, Bool, true, false, ◌||◌, ◌&&◌, not, Option, none, some, List, [], ◌∷◌, String,
  ltb, if◌then◌else◌, suc, length,
}
use agnet.Common.Text.{Bytes, ◌=s◌, ◌=b◌, is_empty, bytes, trim_space, to_lower}
use agnet.Agentd.EventBuf
use agnet.Agentd.EventBuf.{EventBuffer}
use agnet.Agentd.Permission.{PermissionManager, new_permission_manager}
use agnet.Agentd.Tmux.{Reply, Sent, Ending, returned, running, TmuxError, send_tmux_input}
use agnet.Common.Json.{Fields}

pub data Status : Type 0 where
  created starting idle working stopped crashed : Status

pub Status-discrete : Discrete Status
Status-discrete = hlevel

abbrev pub same_status : Status → Status → Bool
same_status created created = true
same_status starting starting = true
same_status idle idle = true
same_status working working = true
same_status stopped stopped = true
same_status crashed crashed = true
same_status _ _ = false

-- The kinds of session watcher that `ResetWatcherOffset` tells apart.
pub data Watcher : Type 0 where
  claude_watcher opencode_db_watcher other_watcher : ℕ → Watcher

pub record Agent : Type 0 where
  pub id : String
  pub name : String
  pub provider : String
  pub work_dir : String
  pub cmd : String
  pub args : List String
  pub pid : ℕ
  pub status : Status
  pub process : Option ℕ
  pub buf : EventBuffer
  pub watcher : Option Watcher
  pub permission_prompt_active : Bool
  pub permission_prompt_resolved : Bool
  pub permission_resolved_at : ℕ
  pub permission_manager : PermissionManager
  pub resume_session_id : String
  pub attach_mode : String
  pub attach_read_only : Bool
  pub attach_read_only_reason : String
  pub tmux_target : String
  pub current_permission_mode : String
  pub sending_flag : Bool
  pub on_status_change : Bool  -- whether a callback is registered

pub new_agent : String → String → String → String → String → List String → Agent
new_agent id name provider work_dir cmd args = record {
  id = id;
  name = name;
  provider = provider;
  work_dir = work_dir;
  cmd = cmd;
  args = args;
  pid = 0;
  status = created;
  process = none;
  buf = EventBuf.new 10000;
  watcher = none;
  permission_prompt_active = false;
  permission_prompt_resolved = false;
  permission_resolved_at = 0;
  permission_manager = new_permission_manager;
  resume_session_id = "";
  attach_mode = "";
  attach_read_only = false;
  attach_read_only_reason = "";
  tmux_target = "";
  current_permission_mode = "";
  sending_flag = false;
  on_status_change = false;
}

-- One call of the status callback.
pub record StatusChange : Type 0 where
  pub agent_id : String
  pub old_status : Status
  pub new_status : Status

unfoldable pub set_status : Agent → Status → Agent × Option StatusChange
set_status a s = (
  record a { status = s },
  if not (same_status a.status s) && a.on_status_change
      then some (record { agent_id = a.id; old_status = a.status; new_status = s })
      else none,
)

pub set_on_status_change : Agent → Agent
set_on_status_change a = record a { on_status_change = true }

pub init_seq : Agent → ℕ → Agent
init_seq a n = record a { buf = EventBuf.init_seq a.buf n }

pub set_resume_session_id : Agent → String → Agent
set_resume_session_id a sid = record a { resume_session_id = sid }

unfoldable pub append_event : Agent → Fields → Agent × ℕ
append_event a d = let (b, n) = EventBuf.append a.buf d in (record a { buf = b }, n)

pub set_process : Agent → Option ℕ → Agent
set_process a p = record a { process = p }

unfoldable pub set_watcher : Agent → Option Watcher → Agent
set_watcher a w = record a { watcher = w }

pub set_attach_input_route : Agent → String → Bool → String → String → Agent
set_attach_input_route a mode read_only reason target = record a {
  attach_mode = mode;
  attach_read_only = read_only;
  attach_read_only_reason = reason;
  tmux_target = target;
}

pub set_current_permission_mode : Agent → String → Agent
set_current_permission_mode a mode = record a { current_permission_mode = mode }

pub begin_send : Agent → Agent
begin_send a = record a { sending_flag = true }

pub end_send : Agent → Agent
end_send a = record a { sending_flag = false }

-- `setPermissionPromptActive`, the unexported one
pub note_permission_prompt : Agent → Bool → Agent
note_permission_prompt a active = record a { permission_prompt_active = active }

-- `SetPermissionPromptActive`
unfoldable pub set_permission_prompt_active : ℕ → Agent → Bool → Agent
set_permission_prompt_active now a active =
    let b = record a { permission_prompt_active = active } in
    if active
    then b
    else record b { permission_prompt_resolved = true; permission_resolved_at = now }

pub is_permission_prompt_resolved : ℕ → Agent → Bool
is_permission_prompt_resolved now a =
    if not a.permission_prompt_resolved then false else ltb (now - a.permission_resolved_at) 10000

-- The watcher that a `ResetOffset` call goes to.
pub reset_watcher_offset : Agent → Option Watcher
reset_watcher_offset a = elim a.watcher [
  | some (claude_watcher n) ↦ some (claude_watcher n)
  | some (opencode_db_watcher n) ↦ some (opencode_db_watcher n)
  | _ ↦ none
]

-- What `kill` stops: the watcher, then the process.
pub kill : Agent → Option Watcher × Option ℕ
kill a = (a.watcher, a.process)

-- Why typed input was not taken.
pub data InputError : Type 0 where
  write_failed : String → InputError
  read_only : String → InputError
  plain_read_only : InputError
  use_original_terminal : InputError
  not_running : InputError

-- Where typed input went.
pub data Route : Type 0 where
  to_process : ℕ → Option String → Route
  to_tmux : String → Sent → Route
  refused : InputError → Route

-- The processes outside: what a write to a handle answers (`none` for success), what `tmux send-keys`
-- answers for a target, and the rounds that `sendTmuxInput` is watched for.
pub record Outside : Type 0 where
  pub write : ℕ → Bytes → Option String
  pub send_keys : String → Reply
  pub rounds : ℕ

unfoldable pub write_input : Outside → Agent → Bytes → Route
write_input o a input = elim process [
  | some p ↦ to_process p (o.write p input)
  | none ↦
      if attach_mode =s "tmux" && not (is_empty tmux_target)
      then (if attach_read_only
          then refused (
              if is_empty attach_read_only_reason
              then plain_read_only
              else read_only attach_read_only_reason)
          else to_tmux tmux_target (send_tmux_input (o.send_keys tmux_target) o.rounds [] input))
      else elim watcher [
        | some w ↦ refused (
            if is_empty attach_read_only_reason
            then use_original_terminal
            else read_only attach_read_only_reason)
        | none ↦ refused not_running
      ]
]
  where
    open a use {
      process, watcher, attach_mode, attach_read_only, attach_read_only_reason, tmux_target,
    }

-- What `tmux display-message` answers.
pub data Display : Type 0 where
  shown : Bytes → Display
  display_failed : String → Display

pub data PaneError : Type 0 where
  empty_target : PaneError
  no_display : String → PaneError
  empty_command : String → PaneError
  fell_back_to_shell : String → Bytes → PaneError

-- `shellPaneCommands`
pub is_shell : Bytes → Bool
unfolding ◌=b◌
is_shell s =
    s =b bytes "bash"
    || s =b bytes "sh"
    || s =b bytes "zsh"
    || s =b bytes "fish"
    || s =b bytes "dash"
    || s =b bytes "ksh"

-- `none` for a pane whose foreground command is no shell.
pub validate_non_shell_pane : (String → Display) → String → Option PaneError
unfolding is_shell
validate_non_shell_pane display target =
    if is_empty target then some empty_target else elim (display target) [
      | display_failed e ↦ some (no_display e)
      | shown text ↦
          let cur = trim_space text in
          if cur =b []
          then some (empty_command target)
          else if is_shell (to_lower cur)
          then some (fell_back_to_shell target cur)
          else none
    ]
