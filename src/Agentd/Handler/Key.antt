-- ===== src/Agentd/Handler/Key.antt =====
-- agentd/internal/ws/handler.go, keyToBytes and conversationKey: a key pressed by the user.
pub mod Laws
use agnet.Common.{
  ℕ, zero, suc, ◌+◌, Bool, true, false, Option, none, some, List, [], ◌∷◌, ◌++◌, String, ltb,
  if◌then◌else◌,
}
use agnet.Common.Text.{Bytes, bytes, ◌=b◌, to_lower}
use agnet.Common.Json.{flag, field, end}
use agnet.Common.Map.{lookup}
use agnet.Agentd.Agent.{Agent, set_permission_prompt_active}
use agnet.Agentd.Hub.{Env, Hub, Wrote, wrote, failed, hung, type_into, update_agent}
use agnet.Agentd.Handler.{
  Response, ok_resp, err_resp, no_resp, invalid_params, server_error, key_required, unsupported_key,
  agent_not_found, write_key_to_agent,
}

pub record ConversationKeyParams : Type 0 where
  pub agent_id : String
  pub key : Bytes
  pub repeat : Option ℕ  -- `int(p.Repeat)` where `p.Repeat > 0`

unfoldable pub key_to_bytes : Bytes → Option Bytes
unfolding ◌=b◌
key_to_bytes key =
    if k =b bytes "up"
    then some (0x1B ∷ b'[' ∷ b'A' ∷ [])
    else if k =b bytes "down"
    then some (0x1B ∷ b'[' ∷ b'B' ∷ [])
    else if k =b bytes "right"
    then some (0x1B ∷ b'[' ∷ b'C' ∷ [])
    else if k =b bytes "left"
    then some (0x1B ∷ b'[' ∷ b'D' ∷ [])
    else if k =b bytes "enter"
    then some (0x0D ∷ [])
    else if k =b bytes "esc"
    then some (0x1B ∷ [])
    else if k =b bytes "tab"
    then some (0x09 ∷ [])
    else if k =b bytes "backspace"
    then some (0x7F ∷ [])
    else if k =b bytes "ctrl_c"
    then some (0x03 ∷ [])
    else if k =b bytes "ctrl_d"
    then some (0x04 ∷ [])
    else if k =b bytes "ctrl_z"
    then some (0x1A ∷ [])
    else if k =b bytes "ctrl_a"
    then some (0x01 ∷ [])
    else if k =b bytes "ctrl_e"
    then some (0x05 ∷ [])
    else none
  where
    k : Bytes
    k = to_lower key

-- How often the key is sent: between 1 and 32.
pub key_repeat : Option ℕ → ℕ
key_repeat none = 1
key_repeat (some n) = if ltb n 1 then 1 else if ltb 32 n then 32 else n

-- `strings.Repeat`
abbrev pub repeated : Bytes → ℕ → Bytes
repeated s zero = []
repeated s (suc n) = s ++ repeated s n

-- What the handler does once the key has been written.
pub key_written : Env → Hub → ConversationKeyParams → Wrote → Hub × Response
unfolding ◌=b◌
key_written env hub p hung = (hub, no_resp)
key_written env hub p (failed e) = (hub, err_resp server_error (write_key_to_agent e))
key_written env hub p wrote = (
  if to_lower p.key =b bytes "enter"
      then update_agent hub p.agent_id (λ ag. set_permission_prompt_active env.now ag false)
      else hub,
  ok_resp (field "ok" (flag true) end),
)

pub conversation_key : Env → Hub → ConversationKeyParams → Hub × Response
conversation_key env hub p =
    if p.key =b [] then (hub, err_resp invalid_params key_required) else elim (key_to_bytes p.key) [
      | none ↦ (hub, err_resp invalid_params (unsupported_key p.key))
      | some seq ↦ elim (lookup p.agent_id hub.agents) [
        | none ↦ (hub, err_resp server_error agent_not_found)
        | some ag ↦
            let (hub', w) = type_into env hub p.agent_id ag (repeated seq (key_repeat p.repeat)) in
            key_written env hub' p w
      ]
    ]
