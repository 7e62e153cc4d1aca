-- ===== src/Gateway/Manager/Connect.antt =====
-- When Connect succeeds, and how it leaves the node.
use mathlib.Core.Path.{subst}
use agnet.Common.{
  ℕ, ◌≡◌, refl, sym, ap, ◌∙◌, ◌⊎◌, inl, inr, Bool, true, false, Option, none, some, if◌then◌else◌,
  Bool-cases, Option-cases,
}
use agnet.Gateway.{Node, connected, error, connecting, set_status, set_proxy, set_tunnel, is_local}
use agnet.Gateway.Registry.{entry_of, node_of}
use agnet.Gateway.Link.{
  Link, Opened, opened, open_failed, port, no_port, Dialed, dialed, dial_failed, ws, LinkError,
  Result, ok, err, close_tunnel, close_proxy, connect_tunnel, connect_proxy, open_remote, config_of,
}
use agnet.Gateway.Link.Laws.{
  IsBalanced, proxy-close_tunnel, tunnel-close_tunnel, proxy-close_proxy, close_tunnel-IsBalanced,
  close_proxy-IsBalanced, connect_tunnel-IsBalanced, connect_proxy-IsBalanced,
}
use agnet.Gateway.Manager.{Net, undone, connect_url, with_url, connect_link, status_of}

-- The network answers the attempt `i` to connect to a node: the tunnel opens with a local port, where
-- the node is not the machine itself, and the dialling of the URL succeeds.
abbrev pub dials : Dialed → Bool
dials (dialed p) = true
dials (dial_failed e) = false

abbrev pub goes_through : Net → ℕ → Opened → Bool
goes_through net i (opened t (port p)) = dials (net.dial i (ws "127.0.0.1" p))
goes_through net i _ = false

pub answers : Net → ℕ → Node → Bool
answers net i n =
    if is_local n
    then dials (net.dial i (ws n.host n.agentd_port))
    else goes_through net i (net.opener i (config_of net.found n))

pub record IsUp (l l' : Link) : Type 0 where
  pub same_entry : entry_of l'.node ≡ entry_of l.node
  pub status_up : l'.node.status ≡ connected
  pub proxy_up : (p : ℕ) × (l'.node.proxy ≡ some p)

pub record IsDown (l l' : Link) : Type 0 where
  pub same_entry : entry_of l'.node ≡ entry_of l.node
  pub status_down : l'.node.status ≡ error
  pub no_proxy : l'.node.proxy ≡ none
  pub no_tunnel : l'.node.tunnel ≡ none

abbrev pub Tried : Bool → Link → Link × Option LinkError → Type 0
Tried answer l r =
    ((answer ≡ true) × (r.1 ≡ none) × IsUp l r.0)
    ⊎ ((answer ≡ false) × ((e : LinkError) × (r.1 ≡ some e)) × IsDown l r.0)

pub entry-close_tunnel : (l : Link) → entry_of (close_tunnel l).node ≡ entry_of l.node
unfolding close_tunnel set_tunnel
entry-close_tunnel l = elim (Option-cases l.node.tunnel) [
  | inl e ↦ rw (e, close_tunnel) refl
  | inr (t, e) ↦ rw (e, close_tunnel) refl
]

pub entry-close_proxy : (l : Link) → entry_of (close_proxy l).node ≡ entry_of l.node
unfolding close_proxy set_proxy
entry-close_proxy l = elim (Option-cases l.node.proxy) [
  | inl e ↦ rw (e, close_proxy) refl
  | inr (t, e) ↦ rw (e, close_proxy) refl
]

status-close_tunnel : (l : Link) → (close_tunnel l).node.status ≡ l.node.status
unfolding close_tunnel set_tunnel
status-close_tunnel l = elim (Option-cases l.node.tunnel) [
  | inl e ↦ rw (e, close_tunnel) refl
  | inr (t, e) ↦ rw (e, close_tunnel) refl
]

connect_url-Tried : (l : Link) (d : Dialed) → Tried (dials d) l (connect_url l d)
unfolding connect_url connect_proxy set_status set_proxy
connect_url-Tried l (dialed p) = inl (
  refl,
  refl,
  record { same_entry = entry-close_proxy l; status_up = refl; proxy_up = (p, refl) },
)
connect_url-Tried l (dial_failed e) = inr (
  refl,
  (_, refl),
  record {
    same_entry = entry-close_tunnel _ ∙ entry-close_proxy l;
    status_down = status-close_tunnel _;
    no_proxy = proxy-close_tunnel _ ∙ proxy-close_proxy l;
    no_tunnel = tunnel-close_tunnel _;
  },
)

answers_by_entry :
    (net : Net) (i : ℕ) (n : Node) → answers net i n ≡ answers net i (node_of (entry_of n))
unfolding answers is_local config_of
answers_by_entry net i n = refl

pub answers_same :
    (net : Net) (i : ℕ) (n n' : Node)
    → entry_of n' ≡ entry_of n
    → answers net i n' ≡ answers net i n
answers_same net i n n' e =
    answers_by_entry net i n'
    ∙ ap (λ a. answers net i (node_of a)) e
    ∙ sym (answers_by_entry net i n)

pub Tried-same_entry :
    (b : Bool) (l m : Link) (r : Link × Option LinkError)
    → entry_of m.node ≡ entry_of l.node
    → Tried b m r
    → Tried b l r
Tried-same_entry b l m r e (inl (t, n, u)) =
    inl (
      t,
      n,
      record { same_entry = u.same_entry ∙ e; status_up = u.status_up; proxy_up = u.proxy_up },
    )
Tried-same_entry b l m r e (inr (t, n, u)) = inr (
  t,
  n,
  record {
    same_entry = u.same_entry ∙ e;
    status_down = u.status_down;
    no_proxy = u.no_proxy;
    no_tunnel = u.no_tunnel;
  },
)

module _ (net : Net) (i : ℕ) where
  open_remote-Tried :
      (l : Link) (o : Opened)
      → l.node.proxy ≡ none
      → l.node.tunnel ≡ none
      → Tried (goes_through net i o) l (with_url (net.dial i) (open_remote l o))
  unfolding open_remote set_status set_tunnel
  open_remote-Tried l (open_failed e) p t = inr (
    refl,
    (_, refl),
    record { same_entry = refl; status_down = refl; no_proxy = p; no_tunnel = t },
  )
  open_remote-Tried l (opened n (no_port e)) p t = inr (
    refl,
    (_, refl),
    record { same_entry = refl; status_down = refl; no_proxy = p; no_tunnel = t },
  )
  open_remote-Tried l (opened n (port q)) p t =
      Tried-same_entry _ l _ _ refl (connect_url-Tried _ (net.dial i (ws "127.0.0.1" q)))

  connect_tunnel-Tried :
      (l : Link)
      → l.node.proxy ≡ none
      → Tried
          (answers net i l.node)
          l
          (with_url (net.dial i) (connect_tunnel net.found (net.opener i) l))
  unfolding connect_tunnel answers
  connect_tunnel-Tried l p =
      let c = close_tunnel l in
      let e = entry-close_tunnel l in
      rw (sym (answers_same net i l.node c.node e)) (
        Tried-same_entry _ l c _ e (elim (Bool-cases (is_local c.node)) [
          | inl f ↦ rw f (connect_url-Tried c _)
          | inr f ↦ rw f (
              open_remote-Tried c (net.opener i (config_of net.found c.node))
                (proxy-close_tunnel l ∙ p) (tunnel-close_tunnel l))
        ]))

  -- An attempt to connect a node succeeds exactly if the network answers it. Then the node is connected
  -- and holds a proxy; if not, its status is `error` and it holds neither proxy nor tunnel.
  pub connect_link-Tried : (l : Link) → Tried (answers net i l.node) l (connect_link net i l)
  unfolding connect_link set_status
  connect_link-Tried l =
      let c = close_tunnel (close_proxy l) in
      let e = entry-close_tunnel (close_proxy l) ∙ entry-close_proxy l in
      subst (λ b. Tried b l (connect_link net i l))
        (answers_same net i l.node (set_status c.node connecting) e)
        (Tried-same_entry _ l (status_of connecting c) _ e (
          connect_tunnel-Tried (status_of connecting c)
            (proxy-close_tunnel (close_proxy l) ∙ proxy-close_proxy l)))

  undone-IsBalanced : (r : Link × Option LinkError) → IsBalanced r.0 → IsBalanced (undone r).0
  undone-IsBalanced (l, none) b = b
  undone-IsBalanced (l, some e) b = close_tunnel-IsBalanced l b

  with_url-IsBalanced :
      (r : Link × Result) → IsBalanced r.0 → IsBalanced (with_url (net.dial i) r).0
  unfolding connect_url
  with_url-IsBalanced (l, err e) b = b
  with_url-IsBalanced (l, ok url) b =
      undone-IsBalanced _ (connect_proxy-IsBalanced l (net.dial i url) b)

  -- An attempt to connect leaves open just what the node holds.
  pub connect_link-IsBalanced : (l : Link) → IsBalanced l → IsBalanced (connect_link net i l).0
  unfolding connect_link set_status
  connect_link-IsBalanced l b =
      let c = close_tunnel-IsBalanced (close_proxy l) (close_proxy-IsBalanced l b) in
      with_url-IsBalanced _ (
        connect_tunnel-IsBalanced net.found (net.opener i)
          (status_of connecting (close_tunnel (close_proxy l)))
          (record { tunnels = c.tunnels; proxies = c.proxies }))

-- An attempt to connect a node succeeds exactly if the network answers it. Then the node is connected
-- and holds a proxy; if not, its status is `error` and it holds neither proxy nor tunnel. Either way
-- the tunnels and proxies that are open are those that the node holds.
pub connect_link_cases :
    (net : Net) (i : ℕ) (l : Link)
    → IsBalanced l
    → Tried (answers net i l.node) l (connect_link net i l) × IsBalanced (connect_link net i l).0
connect_link_cases net i l b = (connect_link-Tried net i l, connect_link-IsBalanced net i l b)
