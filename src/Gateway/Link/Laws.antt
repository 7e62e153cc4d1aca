-- ===== src/Gateway/Link/Laws.antt =====
-- A node never has a tunnel or a proxy open that it does not hold.
use agnet.Common.{
  ℕ, String, ◌≡◌, refl, sym, ap, ◌∙◌, arith, true, Option, none, some, List, [], ◌∷◌, ◌==◌,
  if◌then◌else◌, Bool-cases, Option-cases, inl, inr,
}
use agnet.Gateway.{set_status, set_tunnel, set_proxy, is_local}
use agnet.Gateway.Link.{
  Act, tunnel_opened, tunnel_closed, proxy_opened, proxy_closed, proxy_lost, Link, Config, Opened,
  opened, open_failed, port, no_port, Dialed, dialed, dial_failed, close_tunnel, connect_tunnel,
  config_of, open_remote, health_check, close_proxy, connect_proxy, handle_disconnect, is_down,
  is_current,
}

abbrev without : ℕ → List ℕ → List ℕ
without x [] = []
without x (y ∷ ys) = let rest = without x ys in if y == x then ys else y ∷ rest

-- The tunnels that have been opened and not closed.
abbrev pub open_tunnels : List Act → List ℕ
open_tunnels [] = []
open_tunnels (tunnel_opened t ∷ acts) = t ∷ open_tunnels acts
open_tunnels (tunnel_closed t ∷ acts) = without t (open_tunnels acts)
open_tunnels (_ ∷ acts) = open_tunnels acts

-- The proxies that have been opened and neither closed nor lost.
abbrev pub open_proxies : List Act → List ℕ
open_proxies [] = []
open_proxies (proxy_opened p ∷ acts) = p ∷ open_proxies acts
open_proxies (proxy_closed p ∷ acts) = without p (open_proxies acts)
open_proxies (proxy_lost p ∷ acts) = without p (open_proxies acts)
open_proxies (_ ∷ acts) = open_proxies acts

abbrev pub held : Option ℕ → List ℕ
held none = []
held (some t) = t ∷ []

pub record IsBalanced (l : Link) : Type 0 where
  pub tunnels : open_tunnels l.acts ≡ held l.node.tunnel
  pub proxies : open_proxies l.acts ≡ held l.node.proxy

-- The calls of the two managers.
pub data Op : Type 0 where
  connects_tunnel checks_health : String → (Config → Opened) → Op
  disconnects_tunnel disconnects_proxy : Op
  connects_proxy : Dialed → Op
  disconnected_of : ℕ → Op

pub run : Link → List Op → Link
run l [] = l
run l (connects_tunnel found opener ∷ ops) = run (connect_tunnel found opener l).0 ops
run l (checks_health found opener ∷ ops) = run (health_check found opener l).0 ops
run l (disconnects_tunnel ∷ ops) = run (close_tunnel l) ops
run l (disconnects_proxy ∷ ops) = run (close_proxy l) ops
run l (connects_proxy d ∷ ops) = run (connect_proxy l d).0 ops
run l (disconnected_of p ∷ ops) = run (handle_disconnect l p).0 ops

without_only : (n : ℕ) → without n (n ∷ []) ≡ []
without_only n = ground arith

open_tunnels-close_tunnel :
    (l : Link) → open_tunnels l.acts ≡ held l.node.tunnel → open_tunnels (close_tunnel l).acts ≡ []
unfolding close_tunnel set_tunnel
open_tunnels-close_tunnel l b = elim (Option-cases l.node.tunnel) [
  | inl e ↦ rw e (b ∙ ap held e)
  | inr (t, e) ↦ rw e (ap (without t) (b ∙ ap held e) ∙ without_only t)
]

open_proxies-close_tunnel : (l : Link) → open_proxies (close_tunnel l).acts ≡ open_proxies l.acts
unfolding close_tunnel set_tunnel
open_proxies-close_tunnel l = elim (Option-cases l.node.tunnel) [
  | inl e ↦ rw e refl
  | inr (t, e) ↦ rw e refl
]

pub proxy-close_tunnel : (l : Link) → (close_tunnel l).node.proxy ≡ l.node.proxy
unfolding close_tunnel set_tunnel
proxy-close_tunnel l = elim (Option-cases l.node.tunnel) [
  | inl e ↦ rw e refl
  | inr (t, e) ↦ rw e refl
]

pub tunnel-close_tunnel : (l : Link) → (close_tunnel l).node.tunnel ≡ none
unfolding close_tunnel set_tunnel
tunnel-close_tunnel l = elim (Option-cases l.node.tunnel) [
  | inl e ↦ rw e refl
  | inr (t, e) ↦ rw e refl
]

pub close_tunnel-IsBalanced : (l : Link) → IsBalanced l → IsBalanced (close_tunnel l)
close_tunnel-IsBalanced l b = record {
  tunnels = open_tunnels-close_tunnel l b.tunnels ∙ sym (ap held (tunnel-close_tunnel l));
  proxies = open_proxies-close_tunnel l ∙ b.proxies ∙ sym (ap held (proxy-close_tunnel l));
}

pub proxy-close_proxy : (l : Link) → (close_proxy l).node.proxy ≡ none
unfolding close_proxy set_proxy
proxy-close_proxy l = elim (Option-cases l.node.proxy) [
  | inl e ↦ rw e refl
  | inr (p, e) ↦ rw e refl
]

open_tunnels-close_proxy :
    (l : Link)
    → open_tunnels l.acts ≡ held l.node.tunnel
    → open_tunnels (close_proxy l).acts ≡ held (close_proxy l).node.tunnel
unfolding close_proxy set_proxy
open_tunnels-close_proxy l b = elim (Option-cases l.node.proxy) [
  | inl e ↦ rw e b
  | inr (p, e) ↦ rw e b
]

open_proxies-close_proxy :
    (l : Link) → open_proxies l.acts ≡ held l.node.proxy → open_proxies (close_proxy l).acts ≡ []
unfolding close_proxy set_proxy
open_proxies-close_proxy l b = elim (Option-cases l.node.proxy) [
  | inl e ↦ rw e (b ∙ ap held e)
  | inr (p, e) ↦ rw e (ap (without p) (b ∙ ap held e) ∙ without_only p)
]

pub close_proxy-IsBalanced : (l : Link) → IsBalanced l → IsBalanced (close_proxy l)
close_proxy-IsBalanced l b = record {
  tunnels = open_tunnels-close_proxy l b.tunnels;
  proxies = open_proxies-close_proxy l b.proxies ∙ sym (ap held (proxy-close_proxy l));
}

open_remote-IsBalanced :
    (l : Link) (o : Opened) → l.node.tunnel ≡ none → IsBalanced l → IsBalanced (open_remote l o).0
unfolding open_remote set_status set_tunnel
open_remote-IsBalanced l (open_failed e) free b = record {
  tunnels = b.tunnels;
  proxies = b.proxies;
}
open_remote-IsBalanced l (opened t (no_port e)) free b = record {
  tunnels = ground (arith, b.tunnels);
  proxies = b.proxies;
}
open_remote-IsBalanced l (opened t (port p)) free b = record {
  tunnels = ap (◌∷◌ t) (b.tunnels ∙ ap held free);
  proxies = b.proxies;
}

pub connect_tunnel-IsBalanced :
    (found : String) (opener : Config → Opened) (l : Link)
    → IsBalanced l
    → IsBalanced (connect_tunnel found opener l).0
unfolding connect_tunnel
connect_tunnel-IsBalanced found opener l b = elim (Bool-cases (is_local (close_tunnel l).node)) [
  | inl e ↦ rw e (close_tunnel-IsBalanced l b)
  | inr e ↦ rw e (
      open_remote-IsBalanced (close_tunnel l) (opener (config_of found (close_tunnel l).node))
        (tunnel-close_tunnel l) (close_tunnel-IsBalanced l b))
]

pub connect_proxy-IsBalanced :
    (l : Link) (d : Dialed) → IsBalanced l → IsBalanced (connect_proxy l d).0
unfolding connect_proxy set_status set_proxy
connect_proxy-IsBalanced l (dial_failed e) b =
    let b' = close_proxy-IsBalanced l b in record { tunnels = b'.tunnels; proxies = b'.proxies }
connect_proxy-IsBalanced l (dialed p) b =
    let b' = close_proxy-IsBalanced l b in
    record {
      tunnels = b'.tunnels;
      proxies = ap (◌∷◌ p) (b'.proxies ∙ ap held (proxy-close_proxy l));
    }

health_check-IsBalanced :
    (found : String) (opener : Config → Opened) (l : Link)
    → IsBalanced l
    → IsBalanced (health_check found opener l).0
unfolding health_check
health_check-IsBalanced found opener l b = elim (Bool-cases (is_down l.node.status)) [
  | inl e ↦ rw e (connect_tunnel-IsBalanced found opener l b)
  | inr e ↦ rw e b
]

is_current_lem : (o : Option ℕ) (p : ℕ) → is_current o p ≡ true → o ≡ some p
is_current_lem none p e = absurd (ground arith)
is_current_lem (some q) p e = ap some (ground arith)

handle_disconnect-IsBalanced :
    (l : Link) (p : ℕ) → IsBalanced l → IsBalanced (handle_disconnect l p).0
unfolding handle_disconnect
handle_disconnect-IsBalanced l p b = elim (Bool-cases (is_current l.node.proxy p)) [
  | inl e ↦
      let lost = record l { acts = proxy_lost p ∷ l.acts } in
      rw e (record {
        tunnels =
            open_tunnels-close_tunnel lost b.tunnels ∙ sym (ap held (tunnel-close_tunnel lost));
        proxies =
            open_proxies-close_tunnel lost
            ∙ ap (without p) (b.proxies ∙ ap held (is_current_lem l.node.proxy p e))
            ∙ without_only p;
      })
  | inr e ↦ rw e b
]

-- From a node that holds just what is open, however the two managers are called and whatever the
-- network answers: the tunnels that are open are the one that the node holds, or none if it holds
-- none, and so are the proxies.
pub run-IsBalanced : (ops : List Op) (l : Link) → IsBalanced l → IsBalanced (run l ops)
unfolding run
run-IsBalanced [] l b = b
run-IsBalanced (connects_tunnel found opener ∷ ops) l b =
    run-IsBalanced ops (connect_tunnel found opener l).0
      (connect_tunnel-IsBalanced found opener l b)
run-IsBalanced (checks_health found opener ∷ ops) l b =
    run-IsBalanced ops (health_check found opener l).0 (health_check-IsBalanced found opener l b)
run-IsBalanced (disconnects_tunnel ∷ ops) l b =
    run-IsBalanced ops (close_tunnel l) (close_tunnel-IsBalanced l b)
run-IsBalanced (disconnects_proxy ∷ ops) l b =
    run-IsBalanced ops (close_proxy l) (close_proxy-IsBalanced l b)
run-IsBalanced (connects_proxy d ∷ ops) l b =
    run-IsBalanced ops (connect_proxy l d).0 (connect_proxy-IsBalanced l d b)
run-IsBalanced (disconnected_of p ∷ ops) l b =
    run-IsBalanced ops (handle_disconnect l p).0 (handle_disconnect-IsBalanced l p b)
