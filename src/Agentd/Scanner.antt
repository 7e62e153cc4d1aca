-- ===== src/Agentd/Scanner.antt =====
-- The search for agents that already run on the machine (agentd/internal/scanner/scanner.go): what a
-- process is an agent of, how input reaches it, and which processes are kept.
pub mod Ancestors
pub mod Pane
pub mod Linux
pub mod Route
mod Tests
use agnet.Common.{ℕ, String, Bool, true, false, ◌&&◌, ◌||◌, not, List, [], ◌∷◌, ◌++◌, if◌then◌else◌}
use agnet.Common.{◌≡◌, none, some}
use agnet.Common.Text.{Bytes, bytes, ◌=s◌, is_empty, ◌=b◌, trim_space, to_lower}
use agnet.Common.Strings.{has_prefix, trim_prefix, contains, base}

pub record ProcessInfo : Type 0 where
  pub pid : ℕ
  pub ppid : ℕ
  pub cmd : Bytes
  pub args : List Bytes
  pub work_dir : Bytes
  pub provider : String
  pub session : Bytes
  pub terminal : Bytes
  pub tmux_target : Bytes
  pub session_id : Bytes
  pub session_file : Bytes

abbrev pub no_bytes : Bytes → Bool
no_bytes s = s =b []

-- The loop over the arguments of a node process.
unfoldable pub node_provider : List Bytes → String
node_provider [] = ""
node_provider (arg ∷ args) =
    if contains (to_lower arg) (bytes "opencode") then "opencode" else node_provider args

-- The loop over the arguments of a python process.
unfoldable pub python_provider : List Bytes → String
python_provider [] = ""
python_provider (arg ∷ args) =
    if contains (to_lower arg) (bytes "hermes")
    then "hermes"
    else if contains (to_lower arg) (bytes "claude")
    then "claude"
    else python_provider args

unfoldable pub provider_of_base : Bytes → List Bytes → String
provider_of_base name args =
    if has_prefix name (bytes "claude")
    then "claude"
    else if has_prefix name (bytes "opencode")
    then "opencode"
    else if has_prefix name (bytes "hermes")
    then "hermes"
    else if has_prefix name (bytes "codex")
    then "codex"
    else if name =b bytes "node" || name =b bytes "nodejs"
    then node_provider args
    else if name =b bytes "python" || name =b bytes "python3"
    then python_provider args
    else ""

unfoldable pub detect_provider : Bytes → List Bytes → String
detect_provider cmd args = provider_of_base (base cmd) args

abbrev device : Bytes → Bytes
device tty =
    if no_bytes tty || tty =b bytes "??"
    then []
    else if has_prefix tty (bytes "/dev/")
    then tty
    else bytes "/dev/" ++ trim_prefix tty (bytes "/dev/")

unfoldable pub normalize_tty : Bytes → Bytes
normalize_tty tty = device (trim_space tty)

-- The two flags that the loop gathers.
unfoldable pub has_print_mode : List Bytes → Bool
has_print_mode [] = false
has_print_mode (arg ∷ args) = arg =b bytes "-p" || has_print_mode args

unfoldable pub has_output_format : List Bytes → Bool
has_output_format [] = false
has_output_format (arg ∷ args) =
    (arg =b bytes "--output-format" || has_prefix arg (bytes "--output-format="))
    || has_output_format args

unfoldable pub is_claude_subagent_args : List Bytes → Bool
is_claude_subagent_args args = has_print_mode args || has_output_format args

pub data AttachModes : Type 0 where
  attach_mode_watcher attach_mode_tmux : AttachModes

unfoldable pub attach_mode : ProcessInfo → AttachModes
attach_mode p = if not (no_bytes p.tmux_target) then attach_mode_tmux else attach_mode_watcher

unfoldable pub attach_read_only_reason : ProcessInfo → String
attach_read_only_reason p =
    if not (no_bytes p.tmux_target)
    then ""
    else if p.provider =s "claude"
    then (if no_bytes p.terminal
        then "no controlling terminal found for Claude process; attach is observe-only"
        else "no safe input route found (tmux pane not detected); use the original terminal to interact")
    else if p.provider =s "opencode"
    then (if not (no_bytes p.session_id) then "" else "no session ID available for OpenCode resume")
    else if p.provider =s "codex"
    then "no safe input route found for codex; use the original terminal to interact"
    else if p.provider =s "hermes"
    then (if no_bytes p.tmux_target
        then "no tmux pane found for hermes process; attach is observe-only (state.db history available)"
        else "")
    else "attached input routing is not supported for this provider"

unfoldable pub attach_read_only : ProcessInfo → Bool
attach_read_only p = not (is_empty (attach_read_only_reason p))

unfoldable pub is_attachable : ProcessInfo → Bool
is_attachable p =
    not (no_bytes p.session) || not (no_bytes p.terminal) || not (no_bytes p.tmux_target)

unfoldable pub hermes_session_id_from_args : List Bytes → Bytes
hermes_session_id_from_args [] = []
hermes_session_id_from_args (arg ∷ []) =
    if arg =b bytes "--session"
    then []
    else if has_prefix arg (bytes "--session=")
    then trim_space (trim_prefix arg (bytes "--session="))
    else []
hermes_session_id_from_args (arg ∷ value ∷ args) =
    if arg =b bytes "--session"
    then trim_space value
    else if has_prefix arg (bytes "--session=")
    then trim_space (trim_prefix arg (bytes "--session="))
    else hermes_session_id_from_args (value ∷ args)
