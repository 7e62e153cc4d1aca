-- ===== src/Gateway/Registry.antt =====
-- agentgw/internal/node/registry.go and the entries of nodecfg/nodecfg.go: the nodes in memory and
-- what is persisted of them. A new UUID is an argument.
pub mod Range
pub mod Laws
use agnet.Common.{ℕ, suc, ◌+◌, String, Option, none, some, List, [], ◌∷◌, map, if◌then◌else◌}
use agnet.Common.Text.{is_empty}
use agnet.Common.Map.{Map, lookup, insert, delete, values}
use agnet.Gateway.{Node, disconnected}

pub record NodeEntry : Type 0 where
  pub id : String
  pub name : String
  pub host : String
  pub ssh_port : ℕ
  pub agentd_port : ℕ
  pub ssh_key_path : String
  pub token : String
  pub ssh_alias : String

pub record Registry : Type 0 where
  pub nodes : Map Node

pub new_registry : Registry
new_registry = record { nodes = [] }

abbrev pub with_id : String → NodeEntry → NodeEntry
with_id uuid e = if is_empty e.id then record e { id = uuid } else e

abbrev pub node_of : NodeEntry → Node
node_of e = record {
  id = e.id;
  name = e.name;
  host = e.host;
  ssh_port = e.ssh_port;
  agentd_port = e.agentd_port;
  token = e.token;
  ssh_key_path = e.ssh_key_path;
  ssh_alias = e.ssh_alias;
  status = disconnected;
  proxy = none;
  tunnel = none;
}

abbrev pub entry_of : Node → NodeEntry
entry_of n = record {
  id = n.id;
  name = n.name;
  host = n.host;
  ssh_port = n.ssh_port;
  agentd_port = n.agentd_port;
  ssh_key_path = n.ssh_key_path;
  token = n.token;
  ssh_alias = n.ssh_alias;
}

pub add : String → Registry → NodeEntry → Registry × String
add uuid r entry =
    let n = node_of (with_id uuid entry) in (record { nodes = insert n.id n r.nodes }, n.id)

-- `uuid i` is the value made for the i-th entry.
pub load_all_from : (ℕ → String) → ℕ → Registry → List NodeEntry → Registry
load_all_from uuid i r [] = r
load_all_from uuid i r (entry ∷ entries) =
    let e = with_id (uuid i) entry in
    load_all_from uuid (i + 1) (record { nodes = insert e.id (node_of e) r.nodes }) entries

pub load_all : (ℕ → String) → Registry → List NodeEntry → Registry
load_all uuid r entries = load_all_from uuid 0 r entries

unfoldable pub get : Registry → String → Option Node
get r id = lookup id r.nodes

-- `ranged` gives the nodes in the order in which the range over the map meets them.
pub list : (Map Node → Map Node) → Registry → List Node
list ranged r = values (ranged r.nodes)

pub data RegistryError : Type 0 where
  not_found : String → RegistryError

pub rename : Registry → String → String → Registry × Option RegistryError
rename r id name = elim (lookup id r.nodes) [
  | none ↦ (r, some (not_found id))
  | some n ↦ (record { nodes = insert id (record n { name = name }) r.nodes }, none)
]

pub remove : Registry → String → Registry × Option RegistryError
remove r id = elim (lookup id r.nodes) [
  | none ↦ (r, some (not_found id))
  | some n ↦ (record { nodes = delete id r.nodes }, none)
]

-- `ranged` is as for `list`.
unfoldable pub to_entries : (Map Node → Map Node) → Registry → List NodeEntry
to_entries ranged r = map entry_of (values (ranged r.nodes))
