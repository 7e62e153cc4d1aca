-- ===== src/Agentd/Provider.antt =====
-- agentd/internal/provider/capabilities.go and lifecycle.go: what each provider can do.
-- A provider's name is any text; the two maps are searched by name and have a default.
pub mod Laws
use agnet.Common.{Bool, true, false, Option, none, some, List, [], ◌∷◌, String, if◌then◌else◌}
use agnet.Common.Text.{◌=s◌}
use agnet.Common.Map.{Map, lookup}

pub data SendMode : Type 0 where
  pty tmux resume_cmd http : SendMode

pub record Capabilities : Type 0 where
  pub name : String
  pub supports_thinking : Bool
  pub supports_tool_use : Bool
  pub supports_interactive_question : Bool
  pub supports_permission_prompt : Bool
  pub supports_session_switch : Bool
  pub supports_image_attachment : Bool
  pub requires_tmux_foreground_validation : Bool
  pub send_mode : SendMode

-- A literal with only these fields set.
abbrev none_set : String → SendMode → Capabilities
none_set name mode = record {
  name = name;
  supports_thinking = false;
  supports_tool_use = false;
  supports_interactive_question = false;
  supports_permission_prompt = false;
  supports_session_switch = false;
  supports_image_attachment = false;
  requires_tmux_foreground_validation = false;
  send_mode = mode;
}

abbrev claude_caps : Capabilities
claude_caps = record (none_set "claude" pty) {
  supports_thinking = true;
  supports_tool_use = true;
  supports_interactive_question = true;
  supports_permission_prompt = true;
  supports_session_switch = true;
  supports_image_attachment = true;
}

abbrev codex_caps : Capabilities
codex_caps = record (none_set "codex" tmux) {
  supports_thinking = true;
  supports_tool_use = true;
  supports_session_switch = true;
  supports_image_attachment = true;
  requires_tmux_foreground_validation = true;
}

abbrev opencode_caps : Capabilities
opencode_caps = record (none_set "opencode" resume_cmd) {
  supports_thinking = true;
  supports_tool_use = true;
  supports_interactive_question = true;
  supports_session_switch = true;
}

abbrev hermes_caps : Capabilities
hermes_caps = record (none_set "hermes" tmux) {
  supports_thinking = true;
  supports_session_switch = true;
  requires_tmux_foreground_validation = true;
}

abbrev default_capabilities : Map Capabilities
default_capabilities =
    ("claude", claude_caps)
    ∷ ("codex", codex_caps)
    ∷ ("opencode", opencode_caps)
    ∷ ("hermes", hermes_caps)
    ∷ []

abbrev value_or {ℓ} : {A : Type ℓ} → Option A → A → A
value_or (some a) d = a
value_or none d = d

pub capabilities_for : String → Capabilities
unfolding lookup
capabilities_for name =
    value_or (lookup name default_capabilities)
      (record (none_set name pty) { supports_image_attachment = true })

pub record SessionLifecyclePolicy : Type 0 where
  pub clear_persisted_events : Bool
  pub reset_event_buffer : Bool
  pub reload_history : Bool
  pub emit_cleared_event : Bool
  pub emit_cleared_session_id : Bool

-- The two policies that the map's four entries have.
abbrev plain_policy : SessionLifecyclePolicy
plain_policy = record {
  clear_persisted_events = true;
  reset_event_buffer = true;
  reload_history = false;
  emit_cleared_event = true;
  emit_cleared_session_id = false;
}

abbrev reload_policy : SessionLifecyclePolicy
reload_policy = record plain_policy { reload_history = true; emit_cleared_session_id = true }

abbrev default_session_lifecycle : Map SessionLifecyclePolicy
default_session_lifecycle =
    ("claude", plain_policy)
    ∷ ("codex", plain_policy)
    ∷ ("opencode", reload_policy)
    ∷ ("hermes", reload_policy)
    ∷ []

pub session_lifecycle_policy_for : String → SessionLifecyclePolicy
unfolding lookup
session_lifecycle_policy_for name = value_or (lookup name default_session_lifecycle) plain_policy

-- agentd/internal/ws/send_strategy.go
pub data SendPath : Type 0 where
  tmux claude_pipe claude_init resume_cmd pty : SendPath

abbrev pub is_resume_cmd : SendMode → Bool
is_resume_cmd SendMode.resume_cmd = true
is_resume_cmd _ = false

pub decide_send_path : String → String → Bool → Capabilities → SendPath
decide_send_path provider attach_mode has_process caps =
    if attach_mode =s "tmux"
    then SendPath.tmux
    else if provider =s "claude"
    then (if has_process then claude_pipe else claude_init)
    else if is_resume_cmd caps.send_mode
    then SendPath.resume_cmd
    else SendPath.pty
