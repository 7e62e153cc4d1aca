-- ===== src/Gateway/Manager.antt =====
-- agentgw/internal/node/manager.go: the coordinator of the registry, the tunnels and the proxies.
--
-- `Net` is what the network answers: the tunnel and the dialling of the attempt with a number, how the
-- restart command ends, and whether the file of nodes is saved. The callbacks of one node run one
-- after the other here; what two goroutines do to a node at the same time is not modelled.
pub mod Connect
pub mod Restart
pub mod Saved
mod Tests
use agnet.Common.{
  ℕ, zero, suc, ◌+◌, String, Bool, true, false, not, Option, none, some, List, [], ◌∷◌,
  if◌then◌else◌,
}
use agnet.Common.Json.{Fields, Value, obj, text, end, field}
use agnet.Common.Map.{Map, insert}
use agnet.Gateway.{
  Node, Status, connecting, deploying, error, disconnected, connected, set_status, is_local,
}
use agnet.Gateway.Registry
use agnet.Gateway.Registry.{Registry, NodeEntry, RegistryError, new_registry, to_entries}
use agnet.Gateway.Link.{
  Link, Act, Config, Opened, Dialed, Url, LinkError, Result, ok, err, close_tunnel, close_proxy,
  connect_tunnel, connect_proxy, handle_disconnect,
}

pub record Net : Type 0 where
  pub found : String
  pub opener : ℕ → Config → Opened
  pub dial : ℕ → Url → Dialed
  pub restarted : Option String  -- the error of `restartFn` or `restartRemoteNode`
  pub saved : Option String  -- the error of `Save`
  pub ranged : Map Node → Map Node  -- the nodes in the order in which `ToEntries` meets them

abbrev pub status_of : Status → Link → Link
status_of s l = record l { node = set_status l.node s }

-- A proxy that fails closes the tunnel.
abbrev pub undone : Link × Option LinkError → Link × Option LinkError
undone (l, none) = (l, none)
undone (l, some e) = (close_tunnel l, some e)

-- The end of `Connect`, where there is a URL.
unfoldable pub connect_url : Link → Dialed → Link × Option LinkError
connect_url l d = undone (connect_proxy l d)

abbrev pub with_url : (Url → Dialed) → Link × Result → Link × Option LinkError
with_url dial (l, ok url) = connect_url l (dial url)
with_url dial (l, err e) = (l, some e)

-- `Connect`, the attempt with number `i`, on a node that is found.
unfoldable pub connect_link : Net → ℕ → Link → Link × Option LinkError
connect_link net i l =
    with_url (net.dial i) (
      connect_tunnel net.found (net.opener i) (status_of connecting (close_tunnel (close_proxy l))))

-- The loop of `ConnectAll` and `Restart`: up to `left` attempts, the first with number `i`.
unfoldable pub attempts : Net → ℕ → ℕ → Link → Link × Option LinkError → Link × Option LinkError
attempts net i zero l last = last
attempts net i (suc left) l last = elim (connect_link net i l).1 [
  | none ↦ connect_link net i l
  | some e ↦ attempts net (i + 1) left (connect_link net i l).0 (connect_link net i l)
]

-- The loop with its first attempt, and up to `more` after it.
unfoldable pub first_attempts : Net → ℕ → Link → Link × Option LinkError
first_attempts net more l = elim (connect_link net 0 l).1 [
  | none ↦ connect_link net 0 l
  | some e ↦ attempts net 1 more (connect_link net 0 l).0 (connect_link net 0 l)
]

pub data RestartError : Type 0 where
  restart_failed : String → RestartError
  reconnect : LinkError → RestartError

-- After ten attempts the node is in the status `error`.
abbrev pub restart_ended : Link × Option LinkError → Link × Option RestartError
restart_ended (l, none) = (l, none)
restart_ended (l, some e) = (status_of error l, some (reconnect e))

-- The node as it is when the restart command is sent.
unfoldable pub cut_off : Link → Link
cut_off l = close_tunnel (close_proxy (if is_local l.node then l else status_of deploying l))

-- What follows the restart command, which ends with an error or without.
unfoldable pub after_restart : Net → Option String → Link → Link × Option RestartError
after_restart net (some e) l = (status_of error l, some (restart_failed e))
after_restart net none l = restart_ended (first_attempts net 9 l)

unfoldable pub restart_link : Net → Link → Link × Option RestartError
restart_link net l = after_restart net net.restarted (cut_off l)

abbrev pub is_idle : Status → Bool
is_idle disconnected = true
is_idle error = true
is_idle _ = false

-- What `ConnectAll` does to one node: up to three attempts.
unfoldable pub connect_all_link : Net → Link → Link
connect_all_link net l = if is_idle l.node.status then (first_attempts net 2 l).0 else l

-- One round of the health check for one node.
unfoldable pub health_check_link : Net → Link → Link
health_check_link net l = if is_idle l.node.status then (connect_link net 0 l).0 else l

pub record Manager : Type 0 where
  pub registry : Registry
  pub acts : List Act
  pub file : List NodeEntry
  pub pushed : List (String × Fields)

pub data ManagerError : Type 0 where
  registry_error : RegistryError → ManagerError
  node_not_found : String → ManagerError
  link_error : LinkError → ManagerError
  restart_error : RestartError → ManagerError
  save_error : String → ManagerError

-- `m.store.Save(m.registry.ToEntries())`
unfoldable pub save : Net → Manager → Manager × Option ManagerError
save net m = elim net.saved [
  | none ↦ (record m { file = to_entries net.ranged m.registry }, none)
  | some e ↦ (m, some (save_error e))
]

unfoldable pub add : Net → String → Manager → NodeEntry → (Manager × Option ManagerError) × String
add net uuid m entry =
    let (r, id) = Registry.add uuid m.registry entry in
    let (m', e) = save net (record m { registry = r }) in ((m', e), id)

unfoldable pub rename : Net → Manager → String → String → Manager × Option ManagerError
rename net m id name =
    let (r, failed) = Registry.rename m.registry id name in
    elim failed [
      | some e ↦ (m, some (registry_error e))
      | none ↦ save net (record m { registry = r })
    ]

-- A node is a pointer: what is done to it shows in the registry.
unfoldable pub keep : Manager → String → Link → Manager
keep m id l =
    let r = m.registry in
    record m { registry = record r { nodes = insert id l.node r.nodes }; acts = l.acts }

abbrev pub link_of : Manager → Node → Link
link_of m n = record { node = n; acts = m.acts }

unfoldable pub disconnect_node : Manager → String → Manager
disconnect_node m id = elim (Registry.get m.registry id) [
  | none ↦ m
  | some n ↦ keep m id (close_tunnel (close_proxy (link_of m n)))
]

unfoldable pub remove : Net → Manager → String → Manager × Option ManagerError
remove net m id =
    let cut = disconnect_node m id in
    let (r, failed) = Registry.remove cut.registry id in
    elim failed [
      | some e ↦ (cut, some (registry_error e))
      | none ↦ save net (record cut { registry = r })
    ]

abbrev link_failed : Option LinkError → Option ManagerError
link_failed none = none
link_failed (some e) = some (link_error e)

unfoldable pub connect : Net → Manager → String → Manager × Option ManagerError
connect net m id = elim (Registry.get m.registry id) [
  | none ↦ (m, some (node_not_found id))
  | some n ↦ let (l, failed) = connect_link net 0 (link_of m n) in (keep m id l, link_failed failed)
]

abbrev restart_failure : Option RestartError → Option ManagerError
restart_failure none = none
restart_failure (some e) = some (restart_error e)

unfoldable pub restart : Net → Manager → String → Manager × Option ManagerError
restart net m id = elim (Registry.get m.registry id) [
  | none ↦ (m, some (node_not_found id))
  | some n ↦
      let (l, failed) = restart_link net (link_of m n) in (keep m id l, restart_failure failed)
]

abbrev status_event : String → Fields
status_event id = field "jsonrpc" (text "2.0") (
    field "method" (text "node.status_changed") (
      field "params" (obj (field "nodeId" (text id) (field "status" (text "disconnected") end)))
        end))

-- The proxy of a node is lost: `handleDisconnect` of the proxy manager, and then the callback that
-- `NewManager` registers.
unfoldable pub handle_proxy_disconnect : Manager → String → ℕ → Manager
handle_proxy_disconnect m id p = elim (Registry.get m.registry id) [
  | none ↦ m
  | some n ↦
      let (l, told) = handle_disconnect (link_of m n) p in
      if told
      then (let kept = keep m id (close_tunnel l) in
          record kept { pushed = (id, status_event id) ∷ kept.pushed })
      else keep m id l
]
