-- ===== src/Gateway.antt =====
-- agentgw/internal/node/node.go: a remote node that the gateway manages. The lock makes each method
-- one step. A proxy and a tunnel are handles, equal when the pointers are.
pub mod Registry
pub mod Link
pub mod Sanitize
pub mod Shell
pub mod Manager
mod Tests
use agnet.Common.{
  ℕ, String, Bool, true, false, ◌||◌, not, Option, none, some, ◌++◌, List, if◌then◌else◌,
}
use agnet.Common.Text.{Bytes, bytes, ◌=s◌, is_empty}

pub data Status : Type 0 where
  disconnected connecting connected deploying error : Status

pub record Node : Type 0 where
  pub id : String
  pub name : String
  pub host : String
  pub ssh_port : ℕ
  pub agentd_port : ℕ
  pub token : String
  pub ssh_key_path : String
  pub ssh_alias : String
  pub status : Status
  pub proxy : Option ℕ
  pub tunnel : Option ℕ

unfoldable pub set_status : Node → Status → Node
set_status n s = record n { status = s }

unfoldable pub set_proxy : Node → Option ℕ → Node
set_proxy n p = record n { proxy = p }

unfoldable pub set_tunnel : Node → Option ℕ → Node
set_tunnel n t = record n { tunnel = t }

unfoldable pub is_local : Node → Bool
is_local n = n.host =s "localhost" || n.host =s "127.0.0.1" || n.host =s "::1"

pub display_location : Node → Bytes
display_location n =
    if is_local n
    then bytes "localhost"
    else if not (is_empty n.ssh_alias)
    then bytes n.ssh_alias ++ bytes " (" ++ bytes n.host ++ bytes ")"
    else bytes n.host
