-- ===== src/Gateway/Link.antt =====
-- agentgw/internal/node/tunnel_manager.go and proxy_manager.go: the tunnel and the proxy of a node.
-- `tunnel.New`, `LocalPort` and `proxy.NewWithReconnect` are outside: what a call answers is an
-- argument. `acts` records what the managers open and close, newest first.
pub mod Laws
use agnet.Common.{
  ℕ, String, Bool, true, false, ◌||◌, Option, none, some, List, [], ◌∷◌, ◌==◌, if◌then◌else◌,
}
use agnet.Common.Text.{is_empty}
use agnet.Gateway.{
  Node, Status, connected, disconnected, error, set_status, set_proxy, set_tunnel, is_local,
}

pub data Act : Type 0 where
  tunnel_opened tunnel_closed proxy_opened proxy_closed proxy_lost : ℕ → Act

pub record Link : Type 0 where
  pub node : Node
  pub acts : List Act

-- `tunnel.Config`, the fields that are set.
pub record Config : Type 0 where
  pub ssh_host : String
  pub ssh_port : ℕ
  pub remote_host : String
  pub remote_port : ℕ
  pub ssh_key_path : String
  pub ssh_alias : String

pub data Port : Type 0 where
  port : ℕ → Port
  no_port : String → Port

-- What `tm.open` answers, and then `LocalPort`.
pub data Opened : Type 0 where
  opened : ℕ → Port → Opened
  open_failed : String → Opened

-- `ws://host:port/ws`; the empty text of `HealthCheck` is `no_url`.
pub data Url : Type 0 where
  ws : String → ℕ → Url
  no_url : Url

pub data LinkError : Type 0 where
  ssh_tunnel local_port ws_proxy : String → LinkError

pub data Result : Type 0 where
  ok : Url → Result
  err : LinkError → Result

-- `tm.Disconnect`, which `Connect` does first.
unfoldable pub close_tunnel : Link → Link
unfolding set_tunnel
close_tunnel l = elim l.node.tunnel [
  | some t ↦ record { node = set_tunnel l.node none; acts = tunnel_closed t ∷ l.acts }
  | none ↦ l
]

-- `found` is the key that `resolveSSHKeyPath` finds among the files when the node names none.
unfoldable pub config_of : String → Node → Config
config_of found n = record {
  ssh_host = n.host;
  ssh_port = n.ssh_port;
  remote_host = "127.0.0.1";
  remote_port = n.agentd_port;
  ssh_key_path =
      if is_empty n.ssh_alias
      then (if is_empty n.ssh_key_path then found else n.ssh_key_path)
      else n.ssh_key_path;
  ssh_alias = n.ssh_alias;
}

unfoldable pub open_remote : Link → Opened → Link × Result
unfolding set_status set_tunnel
open_remote l (open_failed e) = (record l { node = set_status l.node error }, err (ssh_tunnel e))
open_remote l (opened t (no_port e)) = (
  record { node = set_status l.node error; acts = tunnel_closed t ∷ tunnel_opened t ∷ l.acts },
  err (local_port e),
)
open_remote l (opened t (port p)) = (
  record { node = set_tunnel l.node (some t); acts = tunnel_opened t ∷ l.acts },
  ok (ws "127.0.0.1" p),
)

unfoldable pub connect_tunnel : String → (Config → Opened) → Link → Link × Result
unfolding close_tunnel open_remote
connect_tunnel found opener l =
    let l' = close_tunnel l in
    if is_local l'.node
    then (l', ok (ws l'.node.host l'.node.agentd_port))
    else open_remote l' (opener (config_of found l'.node))

abbrev pub is_down : Status → Bool
is_down error = true
is_down disconnected = true
is_down _ = false

unfoldable pub health_check : String → (Config → Opened) → Link → Link × Result
unfolding connect_tunnel
health_check found opener l =
    if is_down l.node.status then connect_tunnel found opener l else (l, ok no_url)

-- `pm.Disconnect`, which `Connect` does first.
unfoldable pub close_proxy : Link → Link
unfolding set_proxy
close_proxy l = elim l.node.proxy [
  | some p ↦ record { node = set_proxy l.node none; acts = proxy_closed p ∷ l.acts }
  | none ↦ l
]

-- What `proxy.NewWithReconnect` answers.
pub data Dialed : Type 0 where
  dialed : ℕ → Dialed
  dial_failed : String → Dialed

unfoldable pub connect_proxy : Link → Dialed → Link × Option LinkError
unfolding close_proxy set_status set_proxy
connect_proxy l (dial_failed e) =
    let l' = close_proxy l in (record l' { node = set_status l'.node error }, some (ws_proxy e))
connect_proxy l (dialed p) =
    let l' = close_proxy l in
    (
      record {
        node = set_status (set_proxy l'.node (some p)) connected;
        acts = proxy_opened p ∷ l'.acts;
      },
      none,
    )

abbrev pub is_current : Option ℕ → ℕ → Bool
is_current none p = false
is_current (some q) p = q == p

-- `handleDisconnect`; the Boolean tells whether `onDisconnect` is called.
unfoldable pub handle_disconnect : Link → ℕ → Link × Bool
unfolding close_tunnel
handle_disconnect l p =
    let n = l.node in
    if is_current n.proxy p
    then (let l' = close_tunnel (record l { acts = proxy_lost p ∷ l.acts }) in
        (record l' { node = record l'.node { proxy = none; status = disconnected } }, true))
    else (l, false)
