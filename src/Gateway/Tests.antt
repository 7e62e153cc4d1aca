-- ===== src/Gateway/Tests.antt =====
-- The theorems on the gateway's nodes, at a concrete node.
use agnet.Common.{◌≡◌, refl, none, List, [], ◌∷◌}
use mathlib.Core.List.{Permᴰ}
use agnet.Common.Map.{Map}
use agnet.Gateway.{Node, disconnected}
use agnet.Common.Members.{IsRange}
use agnet.Gateway.Registry.{NodeEntry, new_registry, load_all, to_entries, get}
use agnet.Gateway.Registry.Laws as RegistryLaws
use agnet.Gateway.Registry.Laws.{restored, adds, renames, removes, load_all-to_entries}
use agnet.Gateway.Link.{Link, Config, Opened, opened, port, dialed}
use agnet.Gateway.Link.Laws as LinkLaws
use agnet.Gateway.Link.Laws.{
  IsBalanced, connects_tunnel, connects_proxy, disconnected_of, disconnects_tunnel, run-IsBalanced,
}

abbrev entry : NodeEntry
entry = record {
  id = "n1";
  name = "box";
  host = "10.0.0.2";
  ssh_port = 22;
  agentd_port = 7373;
  ssh_key_path = "";
  token = "t";
  ssh_alias = "box";
}

abbrev changes : List RegistryLaws.Op
changes =
    adds "u1" refl entry
    ∷ adds "u2" refl (record entry { id = "" })
    ∷ renames "n1" "big box"
    ∷ removes "n2"
    ∷ []

-- The nodes are met with the first two exchanged.
abbrev exchanged : Map Node → Map Node
exchanged [] = []
exchanged (x ∷ []) = x ∷ []
exchanged (x ∷ y ∷ m) = y ∷ x ∷ m

exchanged-IsRange : IsRange exchanged
exchanged-IsRange [] = Permᴰ.nil
exchanged-IsRange (x ∷ []) = Permᴰ.cons refl Permᴰ.nil
exchanged-IsRange (x ∷ y ∷ m) = Permᴰ.swap refl refl

load_all-to_entries_example :
    get
      (load_all
        (λ i. "u3")
        new_registry
        (to_entries exchanged (RegistryLaws.run new_registry changes)))
      "n1"
    ≡ restored (get (RegistryLaws.run new_registry changes) "n1")
load_all-to_entries_example =
    load_all-to_entries (λ i. "u3") exchanged changes "n1" exchanged-IsRange

abbrev idle_link : Link
idle_link = record {
  node = record {
    id = "n1";
    name = "box";
    host = "10.0.0.2";
    ssh_port = 22;
    agentd_port = 7373;
    token = "t";
    ssh_key_path = "";
    ssh_alias = "box";
    status = disconnected;
    proxy = none;
    tunnel = none;
  };
  acts = [];
}

idle_link-IsBalanced : IsBalanced idle_link
idle_link-IsBalanced = record { tunnels = refl; proxies = refl }

abbrev opens : Config → Opened
opens c = opened 5 (port 40000)

abbrev calls : List LinkLaws.Op
calls =
    connects_tunnel "" opens
    ∷ connects_proxy (dialed 9)
    ∷ connects_tunnel "" opens
    ∷ disconnected_of 9
    ∷ disconnects_tunnel
    ∷ []

run-IsBalanced_example : IsBalanced (LinkLaws.run idle_link calls)
run-IsBalanced_example = run-IsBalanced calls idle_link idle_link-IsBalanced
