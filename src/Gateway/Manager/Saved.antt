-- ===== src/Gateway/Manager/Saved.antt =====
-- That the file of nodes holds what the registry holds.
use mathlib.Core.Path.{subst}
use mathlib.Core.List.{Permᴰ}
use agnet.Common.{
  ℕ, ◌≡◌, refl, sym, ap, ◌∙◌, inl, inr, String, none, some, List, [], ◌∷◌, map, Bool-cases,
  Option-cases, All,
}
use agnet.Common.Text.{◌=s◌}
use agnet.Common.Map.{Map, lookup, insert, values}
use agnet.Gateway.{Node}
use agnet.Gateway.Registry
use agnet.Gateway.Registry.{Registry, NodeEntry, to_entries, entry_of}
use agnet.Gateway.Link.{Link, handle_disconnect, is_current, proxy_lost}
use agnet.Common.Members.{IsRange}
use agnet.Gateway.Registry.Range.{entries-perm}
use agnet.Gateway.Manager.{
  Net, Manager, save, add, rename, remove, connect, restart, keep, link_of, disconnect_node,
  handle_proxy_disconnect,
}
use agnet.Gateway.Manager.Connect.{entry-close_tunnel, entry-close_proxy, connect_link-Tried}
use agnet.Gateway.Manager.Restart.{Tried-entry, entry-restart_link}

-- What is to be kept of a node: all but the state of its connection.
abbrev pub settings : Node → NodeEntry
settings n = record {
  id = n.id;
  name = n.name;
  host = n.host;
  ssh_port = n.ssh_port;
  agentd_port = n.agentd_port;
  ssh_key_path = n.ssh_key_path;
  token = n.token;
  ssh_alias = n.ssh_alias;
}

-- The file holds the settings of each node of the registry, once, in some order.
abbrev pub IsSaved : Manager → Type 0
IsSaved m = Permᴰ (map settings (values m.registry.nodes)) m.file

-- The write succeeds, and the range meets each node once.
abbrev pub CanSave : Net → Type 0
CanSave net = (net.saved ≡ none) × IsRange net.ranged

settings-insert :
    (nodes : Map Node) (id : String) (n n' : Node)
    → lookup id nodes ≡ some n
    → settings n' ≡ settings n
    → map settings (values (insert id n' nodes)) ≡ map settings (values nodes)
unfolding lookup insert
settings-insert [] id n n' h e = cc
settings-insert ((k, w) ∷ rest) id n n' h e = elim (Bool-cases (k =s id)) [
  | inl q ↦ rw q (ap (λ x. x ∷ map settings (values rest)) (e ∙ ap settings (found (rw q at h))))
  | inr q ↦ rw q (ap (◌∷◌ (settings w)) (settings-insert rest id n n' (rw q at h) e))
]
  where
    found : some w ≡ some n → n ≡ w
    found f = cc (f)

keep-IsSaved :
    (m : Manager) (id : String) (n : Node) (l : Link)
    → Registry.get m.registry id ≡ some n
    → settings l.node ≡ settings n
    → IsSaved m
    → IsSaved (keep m id l)
unfolding keep Registry.get
keep-IsSaved m id n l h e s =
    subst (λ es. Permᴰ es m.file) (sym (settings-insert m.registry.nodes id n l.node h e)) s

save-IsSaved : (net : Net) (m : Manager) → CanSave net → IsSaved (save net m).0
unfolding save to_entries
save-IsSaved net m (h, range) = rw (h, save) (entries-perm (range m.registry.nodes))

add-IsSaved :
    (net : Net) (uuid : String) (m : Manager) (entry : NodeEntry)
    → CanSave net
    → IsSaved (add net uuid m entry).0.0
unfolding add
add-IsSaved net uuid m entry h = save-IsSaved net _ h

rename-IsSaved :
    (net : Net) (m : Manager) (id name : String)
    → CanSave net
    → IsSaved m
    → IsSaved (rename net m id name).0
unfolding rename
rename-IsSaved net m id name h s = elim (Option-cases (Registry.rename m.registry id name).1) [
  | inl e ↦ rw (e, rename) (save-IsSaved net _ h)
  | inr (f, e) ↦ rw (e, rename) s
]

disconnect_node-IsSaved : (m : Manager) (id : String) → IsSaved m → IsSaved (disconnect_node m id)
unfolding disconnect_node
disconnect_node-IsSaved m id s = elim (Option-cases (Registry.get m.registry id)) [
  | inl e ↦ rw (e, disconnect_node) s
  | inr (n, e) ↦
      rw (e, disconnect_node)
        (keep-IsSaved m id n _ e (entry-close_tunnel _ ∙ entry-close_proxy _) s)
]

remove-IsSaved :
    (net : Net) (m : Manager) (id : String) → CanSave net → IsSaved m → IsSaved (remove net m id).0
unfolding remove
remove-IsSaved net m id h s =
    elim (Option-cases (Registry.remove (disconnect_node m id).registry id).1) [
      | inl e ↦ rw (e, remove) (save-IsSaved net _ h)
      | inr (f, e) ↦ rw (e, remove) (disconnect_node-IsSaved m id s)
    ]

connect-IsSaved : (net : Net) (m : Manager) (id : String) → IsSaved m → IsSaved (connect net m id).0
unfolding connect
connect-IsSaved net m id s = elim (Option-cases (Registry.get m.registry id)) [
  | inl e ↦ rw (e, connect) s
  | inr (n, e) ↦
      rw (e, connect)
        (keep-IsSaved m id n _ e (Tried-entry net _ _ _ (connect_link-Tried net 0 (link_of m n))) s)
]

restart-IsSaved : (net : Net) (m : Manager) (id : String) → IsSaved m → IsSaved (restart net m id).0
unfolding restart
restart-IsSaved net m id s = elim (Option-cases (Registry.get m.registry id)) [
  | inl e ↦ rw (e, restart) s
  | inr (n, e) ↦ rw (e, restart) (keep-IsSaved m id n _ e (entry-restart_link net (link_of m n)) s)
]

entry-handle_disconnect :
    (l : Link) (p : ℕ) → entry_of (handle_disconnect l p).0.node ≡ entry_of l.node
unfolding handle_disconnect
entry-handle_disconnect l p = elim (Bool-cases (is_current l.node.proxy p)) [
  | inl e ↦ rw e (entry-close_tunnel (record l { acts = proxy_lost p ∷ l.acts }))
  | inr e ↦ rw e refl
]

lost-IsSaved :
    (m : Manager) (id : String) (p : ℕ) → IsSaved m → IsSaved (handle_proxy_disconnect m id p)
unfolding handle_proxy_disconnect
lost-IsSaved m id p s = elim (Option-cases (Registry.get m.registry id)) [
  | inl e ↦ rw (e, handle_proxy_disconnect) s
  | inr (n, e) ↦
      rw (e, handle_proxy_disconnect)
        (elim (Bool-cases (handle_disconnect (link_of m n) p).1) [
          | inl t ↦ rw t (
              keep-IsSaved m id n _ e
                (entry-close_tunnel (handle_disconnect (link_of m n) p).0
                  ∙ entry-handle_disconnect (link_of m n) p)
                s)
          | inr t ↦ rw t (keep-IsSaved m id n _ e (entry-handle_disconnect (link_of m n) p) s)
        ])
]

-- The calls of the manager, each with what the network and the disk answer, and the loss of a proxy.
pub data Op : Type 0 where
  adds : Net → String → NodeEntry → Op
  renames : Net → String → String → Op
  removes connects restarts : Net → String → Op
  loses : String → ℕ → Op

unfoldable pub apply : Manager → Op → Manager
apply m (adds net uuid entry) = (add net uuid m entry).0.0
apply m (renames net id name) = (rename net m id name).0
apply m (removes net id) = (remove net m id).0
apply m (connects net id) = (connect net m id).0
apply m (restarts net id) = (restart net m id).0
apply m (loses id p) = handle_proxy_disconnect m id p

unfoldable pub run : Manager → List Op → Manager
unfolding apply
run m [] = m
run m (op ∷ ops) = run (apply m op) ops

-- The file can be written, where the call writes it.
abbrev pub IsWritten : Op → Type 0
IsWritten (adds net uuid entry) = CanSave net
IsWritten (renames net id name) = CanSave net
IsWritten (removes net id) = CanSave net
IsWritten (connects net id) = Unit {0}
IsWritten (restarts net id) = Unit {0}
IsWritten (loses id p) = Unit {0}

apply-IsSaved : (m : Manager) (op : Op) → IsWritten op → IsSaved m → IsSaved (apply m op)
unfolding apply
apply-IsSaved m (adds net uuid entry) w s = add-IsSaved net uuid m entry w
apply-IsSaved m (renames net id name) w s = rename-IsSaved net m id name w s
apply-IsSaved m (removes net id) w s = remove-IsSaved net m id w s
apply-IsSaved m (connects net id) w s = connect-IsSaved net m id s
apply-IsSaved m (restarts net id) w s = restart-IsSaved net m id s
apply-IsSaved m (loses id p) w s = lost-IsSaved m id p s

-- However nodes are added, renamed, removed, connected and restarted, whatever the network answers, and
-- whichever proxies are lost: as long as the file can be written, it holds the settings of each node
-- of the registry, all but the state of its connection, and no other, each once, whatever the order
-- in which a save meets the nodes.
pub run-IsSaved :
    (m : Manager) (ops : List Op) → All IsWritten ops → IsSaved m → IsSaved (run m ops)
unfolding run
run-IsSaved m [] w s = s
run-IsSaved m (op ∷ ops) (w, ws) s = run-IsSaved (apply m op) ops ws (apply-IsSaved m op w s)
