-- ===== src/Gateway/Manager/Tests.antt =====
-- The theorems on the manager, at a node that the network answers late.
use agnet.Common.{ℕ, refl, none, List, [], ◌∷◌, ltb, if◌then◌else◌}
use mathlib.Core.List.{Permᴰ}
use agnet.Common.Map.{Map}
use agnet.Gateway.{Node, error}
use agnet.Gateway.Registry.{NodeEntry}
use agnet.Gateway.Link.{Link, opened, port, Dialed, dialed, dial_failed}
use agnet.Gateway.Link.Laws.{IsBalanced}
use agnet.Gateway.Manager.{Net, Manager, connect_link, restart_link}
use agnet.Gateway.Manager.Connect.{answers, Tried, connect_link_cases}
use agnet.Gateway.Manager.Restart.{Restarted, restart_link_cases}
use agnet.Gateway.Manager.Saved.{
  CanSave, Op, adds, renames, removes, connects, restarts, loses, IsSaved, run, run-IsSaved,
}

abbrev dialed_from : ℕ → ℕ → Dialed
dialed_from first i = if ltb i first then dial_failed "refused" else dialed i

abbrev net : Net
net = record {
  found = "";
  opener = λ i c. opened i (port 40000);
  dial = λ i url. dialed_from 2 i;
  restarted = none;
  saved = none;
  ranged = λ m. m;
}

abbrev link : Link
link = record {
  node = record {
    id = "n1";
    name = "box";
    host = "10.0.0.2";
    ssh_port = 22;
    agentd_port = 7373;
    token = "t";
    ssh_key_path = "";
    ssh_alias = "box";
    status = error;
    proxy = none;
    tunnel = none;
  };
  acts = [];
}

link-IsBalanced : IsBalanced link
link-IsBalanced = record { tunnels = refl; proxies = refl }

connect_link_cases_example :
    Tried (answers net 0 link.node) link (connect_link net 0 link)
    × IsBalanced (connect_link net 0 link).0
connect_link_cases_example = connect_link_cases net 0 link link-IsBalanced

restart_link_cases_example :
    Restarted net net.restarted link (restart_link net link) × IsBalanced (restart_link net link).0
restart_link_cases_example = restart_link_cases net link link-IsBalanced

abbrev manager : Manager
manager = record { registry = record { nodes = [] }; acts = []; file = []; pushed = [] }

abbrev entry : NodeEntry
entry = record {
  id = "n1";
  name = "box";
  host = "10.0.0.2";
  ssh_port = 22;
  agentd_port = 7373;
  ssh_key_path = "";
  token = "t";
  ssh_alias = "box";
}

abbrev calls : List Op
calls =
    adds net "u1" entry
    ∷ connects net "n1"
    ∷ renames net "n1" "big box"
    ∷ restarts net "n1"
    ∷ loses "n1" 2
    ∷ removes net "n2"
    ∷ []

manager-IsSaved : IsSaved manager
manager-IsSaved = Permᴰ.nil

as_it_is : (m : Map Node) → Permᴰ m m
as_it_is [] = Permᴰ.nil
as_it_is (x ∷ m) = Permᴰ.cons refl (as_it_is m)

net-CanSave : CanSave net
net-CanSave = (refl, as_it_is)

run-IsSaved_example : IsSaved (run manager calls)
run-IsSaved_example =
    run-IsSaved manager calls (net-CanSave, (tt, (net-CanSave, (tt, (tt, (net-CanSave, tt))))))
      manager-IsSaved
