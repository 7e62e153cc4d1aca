-- ===== src/Gateway/Manager/Restart.antt =====
-- When a restart succeeds, and how it leaves the node.
use mathlib.Core.Path.{subst}
use agnet.Common.{
  ap₂, ℕ, zero, suc, ◌+◌, ◌≡◌, refl, sym, ◌∙◌, ◌≢◌, ◌⊎◌, inl, inr, String, Bool, true, false, ◌||◌,
  Option, none, some, if◌then◌else◌, Bool-cases, Option-cases,
}
use agnet.Gateway.{Node, deploying, set_status, is_local}
use agnet.Gateway.Registry.{entry_of}
use agnet.Gateway.Link.{Link, LinkError}
use agnet.Gateway.Link.Laws.{
  IsBalanced, proxy-close_tunnel, tunnel-close_tunnel, proxy-close_proxy, close_tunnel-IsBalanced,
  close_proxy-IsBalanced,
}
use agnet.Gateway.Manager.{
  Net, connect_link, attempts, after_restart, restart_link, restart_ended, first_attempts, cut_off,
  RestartError, status_of,
}
use agnet.Gateway.Manager.Connect.{
  answers, answers_same, IsUp, IsDown, Tried, Tried-same_entry, connect_link-Tried,
  connect_link-IsBalanced, entry-close_tunnel, entry-close_proxy,
}

-- One of the attempts from `i` on, `left` of them, is answered.
abbrev pub answered : Net → ℕ → ℕ → Node → Bool
answered net i zero n = false
answered net i (suc left) n = answers net i n || answered net (i + 1) left n

module _ (net : Net) where
  pub Tried-entry :
      (b : Bool) (l : Link) (r : Link × Option LinkError)
      → Tried b l r
      → entry_of r.0.node ≡ entry_of l.node
  Tried-entry b l r (inl (t, n, u)) = u.same_entry
  Tried-entry b l r (inr (t, n, u)) = u.same_entry

  attempts-Tried :
      (left i : ℕ) (k l : Link) (last : Link × Option LinkError)
      → Tried false k last
      → entry_of l.node ≡ entry_of k.node
      → Tried (answered net i left k.node) k (attempts net i left l last)
  unfolding attempts
  attempts-Tried zero i k l last t e = t
  attempts-Tried (suc left) i k l last t e =
      next (connect_link-Tried net i l)
        (λ (m : Link) (r : Link × Option LinkError). attempts-Tried left (i + 1) k m r)
    where
      next :
          Tried (answers net i l.node) l (connect_link net i l)
          → ((m : Link) (r : Link × Option LinkError)
              → Tried false k r
              → entry_of m.node ≡ entry_of k.node
              → Tried (answered net (i + 1) left k.node) k (attempts net (i + 1) left m r))
          → Tried (answered net i (suc left) k.node) k (attempts net i (suc left) l last)
      next (inl (a, n, u)) ih =
          rw (n, attempts)
            (rw (sym (answers_same net i k.node l.node e) ∙ a)
              (Tried-same_entry true k l _ e (inl (refl, n, u))))
      next (inr (a, (f, n), u)) ih =
          rw (n, attempts)
            (rw (sym (answers_same net i k.node l.node e) ∙ a)
              (ih _ _ (Tried-same_entry false k l _ e (inr (refl, (f, n), u))) (u.same_entry ∙ e)))

  attempts-IsBalanced :
      (left i : ℕ) (l : Link) (last : Link × Option LinkError)
      → IsBalanced l
      → IsBalanced last.0
      → IsBalanced (attempts net i left l last).0
  unfolding attempts
  attempts-IsBalanced zero i l last b c = c
  attempts-IsBalanced (suc left) i l last b c =
      let d = connect_link-IsBalanced net i l b in
      elim (Option-cases (connect_link net i l).1) [
        | inl n ↦ rw (n, attempts) d
        | inr (f, n) ↦
            rw (n, attempts)
              (attempts-IsBalanced left (i + 1) (connect_link net i l).0 (connect_link net i l) d d)
      ]

  first_attempts-Tried :
      (more : ℕ) (l : Link)
      → Tried (answers net 0 l.node || answered net 1 more l.node) l (first_attempts net more l)
  unfolding first_attempts
  first_attempts-Tried more l = first (connect_link-Tried net 0 l)
    where
      first :
          Tried (answers net 0 l.node) l (connect_link net 0 l)
          → Tried (answers net 0 l.node || answered net 1 more l.node) l (first_attempts net more l)
      first (inl (a, n, u)) = rw (n, first_attempts) (rw a (inl (refl, n, u)))
      first (inr (a, (f, n), u)) =
          rw (n, first_attempts)
            (rw a (attempts-Tried more 1 l _ _ (inr (refl, (f, n), u)) u.same_entry))

  first_attempts-IsBalanced :
      (more : ℕ) (l : Link) → IsBalanced l → IsBalanced (first_attempts net more l).0
  unfolding first_attempts
  first_attempts-IsBalanced more l b =
      let d = connect_link-IsBalanced net 0 l b in
      elim (Option-cases (connect_link net 0 l).1) [
        | inl n ↦ rw (n, first_attempts) d
        | inr (f, n) ↦ rw (n, first_attempts) (attempts-IsBalanced more 1 _ _ d d)
      ]

  begun : Link → Link
  begun l = if is_local l.node then l else status_of deploying l

  entry-cut_off : (l : Link) → entry_of (cut_off l).node ≡ entry_of l.node
  unfolding cut_off set_status
  entry-cut_off l =
      entry-close_tunnel _
      ∙ entry-close_proxy _
      ∙ (elim (Bool-cases (is_local l.node)) [ inl e ↦ rw e refl | inr e ↦ rw e refl ])

  cut_off-IsBalanced : (l : Link) → IsBalanced l → IsBalanced (cut_off l)
  unfolding cut_off set_status
  cut_off-IsBalanced l b = close_tunnel-IsBalanced _ (
      close_proxy-IsBalanced _ (elim (Bool-cases (is_local l.node)) [
        | inl e ↦ rw e b
        | inr e ↦ rw e (record { tunnels = b.tunnels; proxies = b.proxies })
      ]))

  -- The two ends of a restart whose command ends with `o`.
  abbrev pub Restarted : Option String → Link → Link × Option RestartError → Type 0
  Restarted o l r =
      ((o ≡ none) × (answered net 0 10 l.node ≡ true) × (r.1 ≡ none) × IsUp l r.0)
      ⊎ (((o ≢ none) ⊎ (answered net 0 10 l.node ≡ false))
          × ((e : RestartError) × (r.1 ≡ some e))
          × IsDown l r.0)

  nothing_held : (l : Link) → ((cut_off l).node.proxy ≡ none) × ((cut_off l).node.tunnel ≡ none)
  unfolding cut_off
  nothing_held l = (proxy-close_tunnel _ ∙ proxy-close_proxy _, tunnel-close_tunnel _)

  answered_same :
      (left i : ℕ) (n n' : Node)
      → entry_of n' ≡ entry_of n
      → answered net i left n' ≡ answered net i left n
  answered_same zero i n n' e = refl
  answered_same (suc left) i n n' e =
      ap₂ ◌||◌ (answers_same net i n n' e) (answered_same left (i + 1) n n' e)

  -- What the end of the attempts makes of the whole.
  ended :
      (l : Link) (b : Bool) (r : Link × Option LinkError)
      → Tried b l r
      → ((◌≡◌ {A = Option String} none none)
          × (b ≡ true)
          × ((restart_ended r).1 ≡ none)
          × IsUp l (restart_ended r).0)
        ⊎ (((◌≢◌ {A = Option String} none none) ⊎ (b ≡ false))
            × ((e : RestartError) × ((restart_ended r).1 ≡ some e))
            × IsDown l (restart_ended r).0)
  unfolding set_status
  ended l b (m, none) (inl (t, n, u)) = inl (refl, t, refl, u)
  ended l b (m, some e) (inl (t, n, u)) = cc
  ended l b (m, none) (inr (t, (e, n), u)) = cc
  ended l b (m, some f) (inr (t, (e, n), u)) = inr (
    inr t,
    (_, refl),
    record {
      same_entry = u.same_entry;
      status_down = refl;
      no_proxy = u.no_proxy;
      no_tunnel = u.no_tunnel;
    },
  )

  ended-IsBalanced : (r : Link × Option LinkError) → IsBalanced r.0 → IsBalanced (restart_ended r).0
  unfolding set_status
  ended-IsBalanced (l, none) b = b
  ended-IsBalanced (l, some e) b = record { tunnels = b.tunnels; proxies = b.proxies }

  after_restart-Restarted :
      (o : Option String) (l : Link) → Restarted o l (after_restart net o (cut_off l))
  unfolding after_restart set_status
  after_restart-Restarted (some e) l = inr (
    inl (λ n. cc),
    (_, refl),
    record {
      same_entry = entry-cut_off l;
      status_down = refl;
      no_proxy = (nothing_held l).0;
      no_tunnel = (nothing_held l).1;
    },
  )
  after_restart-Restarted none l =
      ended l (answered net 0 10 l.node) (first_attempts net 9 (cut_off l)) (
        Tried-same_entry (answered net 0 10 l.node) l (cut_off l) _ (entry-cut_off l) (
          subst (λ b. Tried b (cut_off l) (first_attempts net 9 (cut_off l)))
            (answered_same 10 0 l.node (cut_off l).node (entry-cut_off l))
            (first_attempts-Tried 9 (cut_off l))))

  after_restart-IsBalanced :
      (o : Option String) (l : Link) → IsBalanced l → IsBalanced (after_restart net o l).0
  unfolding after_restart set_status
  after_restart-IsBalanced (some e) l b = record { tunnels = b.tunnels; proxies = b.proxies }
  after_restart-IsBalanced none l b = ended-IsBalanced _ (first_attempts-IsBalanced 9 l b)

pub entry-restart_link :
    (net : Net) (l : Link) → entry_of (restart_link net l).0.node ≡ entry_of l.node
unfolding restart_link
entry-restart_link net l = same (after_restart-Restarted net net.restarted l)
  where
    same :
        Restarted net net.restarted l (restart_link net l)
        → entry_of (restart_link net l).0.node ≡ entry_of l.node
    same (inl (h, a, n, u)) = u.same_entry
    same (inr (h, f, u)) = u.same_entry

-- A restart of a node succeeds exactly if the restart command does and the network answers one of the
-- ten attempts to connect. Then the node is connected and holds a proxy; if not, its status is `error`
-- and it holds neither proxy nor tunnel. Either way what is open is what the node holds.
pub restart_link_cases :
    (net : Net) (l : Link)
    → IsBalanced l
    → Restarted net net.restarted l (restart_link net l) × IsBalanced (restart_link net l).0
unfolding restart_link
restart_link_cases net l b = (
  after_restart-Restarted net net.restarted l,
  after_restart-IsBalanced net net.restarted (cut_off l) (cut_off-IsBalanced net l b),
)
