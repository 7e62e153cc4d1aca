-- ===== src/Agentd/Cleanup/Left.antt =====
-- What is left after a cleanup, whatever the order of the range over the agents.
use mathlib.Core.Path.{subst}
use mathlib.Core.List.{Permᴰ}
use agnet.Common.{
  arith, ◌≡◌, refl, sym, ap, ap₂, ◌∙◌, ◌≢◌, ◌↔◌, inl, inr, String, Bool, true, false, ◌&&◌, ◌||◌,
  not, Option, List, [], ◌∷◌, if◌then◌else◌, Bool-cases, select,
}
use agnet.Common.Members.{
  IsRange, In, In-select, select-In, any-perm, In-perm, All-perm, All-In, perm_back,
}
use agnet.Common.Text.{◌=s◌, eq_iff}
use agnet.Common.Map.{Map}
use agnet.Agentd.Agent.{Agent, Watcher}
use agnet.Agentd.Cleanup.{AgentRecord, Fleet, Running, sweep, promote_in, cleanup_dead_agents}
use agnet.Agentd.Cleanup.Laws.{
  gone, waits, given, first_session, stored_session, some_is, dies, frees, alive, settled,
  promote_all-settled,
}
use agnet.Agentd.Cleanup.Sweep.{NoneHas, Distinct, differs, sweep-frees, sweep-alive, sweep_table}

-- An agent that runs without a watcher, and whose stored session a dead agent had, takes the watcher
-- that starts for that session, if one does.
abbrev pub after : Running → (Agent → String → Option Watcher) → Fleet → Agent → Agent
after running started fl ag =
    if waits running ag && frees running fl.table (stored_session fl.table ag.id) fl.agents
    then given ag (started ag (stored_session fl.table ag.id))
    else ag

cons-Distinct :
    (x : String × Agent) {l l' : Map Agent}
    → Permᴰ l l'
    → (Distinct l → Distinct l')
    → Distinct (x ∷ l)
    → Distinct (x ∷ l')
cons-Distinct (k, ag) p ih (h, hs) = (All-perm (λ (e : String × Agent). e.1.id ≢ ag.id) p h, ih hs)

swap-Distinct : (x y : String × Agent) (l : Map Agent) → Distinct (x ∷ y ∷ l) → Distinct (y ∷ x ∷ l)
swap-Distinct (k, ag) (j, w) l ((ne, h), (hw, hs)) = ((λ e. ne (sym e), hw), (h, hs))

perm-Distinct : {l l' : Map Agent} → Permᴰ l l' → Distinct l → Distinct l'
perm-Distinct Permᴰ.nil d = d
perm-Distinct (Permᴰ.cons {a} {b} {l₁} {l₂} e p) d =
    subst (λ y. Distinct (y ∷ l₂)) e (cons-Distinct a p (perm-Distinct p) d)
perm-Distinct (Permᴰ.swap {a} {b} {a'} {b'} {l} e f) d =
    subst (λ y. Distinct (y ∷ b' ∷ l)) f
      (subst (λ y. Distinct (b ∷ y ∷ l)) e (swap-Distinct a b l d))
perm-Distinct (Permᴰ.trans p q) d = perm-Distinct q (perm-Distinct p d)

module _ (running : Running) where
  dies_none : (x : String) (m : Map Agent) → NoneHas x m → dies running x m ≡ false
  dies_none x [] h = refl
  dies_none x ((k, ag) ∷ m) (h, hs) =
      rw (differs x ag.id (λ e. h (sym e)), dies_none x m hs) (with_false (gone running ag))
    where
      with_false : (b : Bool) → (b && false || false) ≡ false
      with_false true = refl
      with_false false = refl

  -- A living agent keeps its row.
  dies-alive :
      (k : String) (ag : Agent) (m : Map Agent)
      → In (k, ag) m
      → Distinct m
      → gone running ag ≡ false
      → dies running ag.id m ≡ false
  dies-alive k ag [] h d g = absurd h
  dies-alive k ag ((j, w) ∷ m) (inl q) (h, hs) g =
      let same = ap (λ (e : String × Agent). e.1) q in
      subst (λ (a : Agent). dies running a.id ((j, w) ∷ m) ≡ false) (sym same)
        (rw (ap (gone running) (sym same) ∙ g) (dies_none w.id m h))
  dies-alive k ag ((j, w) ∷ m) (inr r) (h, hs) g =
      let ne = All-In (λ (e : String × Agent). e.1.id ≢ w.id) (k, ag) m h r in
      rw (differs ag.id w.id ne, dies-alive k ag m r hs g) (with_false (gone running w))
    where
      with_false : (b : Bool) → (b && false || false) ≡ false
      with_false true = refl
      with_false false = refl

  kept_rows :
      (y : String) (m : Map Agent) (table : List AgentRecord)
      → dies running y m ≡ false
      → select (λ row. row.id =s y) (select (λ row. not (dies running row.id m)) table)
        ≡ select (λ row. row.id =s y) table
  kept_rows y m [] h = refl
  kept_rows y m (row ∷ rows) h = elim (Bool-cases (row.id =s y)) [
    | inl e ↦
        let lives = ap (λ x. dies running x m) ((eq_iff row.id y).0 e) ∙ h in
        rw (lives, e) (ap (◌∷◌ row) (kept_rows y m rows h))
    | inr e ↦ elim (Bool-cases (dies running row.id m)) [
      | inl f ↦ rw (f, e) (kept_rows y m rows h)
      | inr f ↦ rw (f, e) (kept_rows y m rows h)
    ]
  ]

In-promote_in :
    (f : Agent → Agent) (id : String) (ag' : Agent) (m : Map Agent)
    → In (id, ag') (promote_in f m) ↔ ((ag : Agent) × In (id, ag) m × (ag' ≡ f ag))
In-promote_in f id ag' m = (into m, from m)
  where
    into :
        (m : Map Agent)
        → In (id, ag') (promote_in f m)
        → (ag : Agent) × In (id, ag) m × (ag' ≡ f ag)
    into [] h = absurd h
    into ((k, w) ∷ m) (inl q) =
        (w, inl (ap (λ (e : String × Agent). (e.0, w)) q), ap (λ (e : String × Agent). e.1) q)
    into ((k, w) ∷ m) (inr r) = let (ag, i, e) = into m r in (ag, inr i, e)

    from :
        (m : Map Agent)
        → (ag : Agent) × In (id, ag) m × (ag' ≡ f ag)
        → In (id, ag') (promote_in f m)
    from [] (ag, h, e) = absurd h
    from ((k, w) ∷ m) (ag, inl q, e) = inl (
        ap₂ (λ (x : String) (a : Agent). (x, a)) (ap (λ (p : String × Agent). p.0) q)
          (e ∙ ap (λ (p : String × Agent). f p.1) q))
    from ((k, w) ∷ m) (ag, inr r, e) = inr (from m (ag, r, e))

module _ (running : Running) (started : Agent → String → Option Watcher)
    (ranged : Map Agent → Map Agent) (fl : Fleet) (range : IsRange ranged)
    (distinct : Distinct fl.agents) where
  abbrev swept : Fleet × List String
  swept = sweep running (ranged fl.agents) fl.table

  abbrev result : Fleet
  result = cleanup_dead_agents running started ranged fl

  kept_session :
      (id : String) (ag : Agent)
      → In (id, ag) (ranged fl.agents)
      → gone running ag ≡ false
      → stored_session swept.0.table ag.id ≡ stored_session fl.table ag.id
  kept_session id ag i g =
      let d = perm-Distinct (range fl.agents) distinct in
      ap (λ t. stored_session t ag.id) (sweep_table running (ranged fl.agents) fl.table)
      ∙ ap first_session (
          kept_rows running ag.id (ranged fl.agents) fl.table
            (dies-alive running id ag (ranged fl.agents) i d g))

  freed_sessions : (s : String) → some_is s swept.1 ≡ frees running fl.table s fl.agents
  freed_sessions s =
      sweep-frees running s (ranged fl.agents) fl.table (perm-Distinct (range fl.agents) distinct)
      ∙ sym (any-perm _ (range fl.agents))

  settled-after :
      (id : String) (ag : Agent)
      → In (id, ag) (ranged fl.agents)
      → gone running ag ≡ false
      → settled running started swept.0.table swept.1 ag ≡ after running started fl ag
  settled-after id ag i g =
      let kept = kept_session id ag i g in
      ap₂ (λ (s : String) (b : Bool). if waits running ag && b then given ag (started ag s) else ag)
        kept (ap (λ s. some_is s swept.1) kept ∙ freed_sessions (stored_session fl.table ag.id))

  result_agents :
      result.agents
      ≡ promote_in
          (settled running started swept.0.table swept.1)
          (alive running (ranged fl.agents))
  unfolding cleanup_dead_agents
  result_agents =
      promote_all-settled running started swept.0.table swept.1 swept.0.agents
      ∙ ap (promote_in (settled running started swept.0.table swept.1))
          (sweep-alive running (ranged fl.agents) fl.table)

  result_table : result.table ≡ select (λ row. not (dies running row.id fl.agents)) fl.table
  unfolding cleanup_dead_agents
  result_table =
      sweep_table running (ranged fl.agents) fl.table
      ∙ ap (λ (f : AgentRecord → Bool). select f fl.table)
          (λ i row.
            not (
              any-perm (λ e. gone running e.1 && row.id =s e.1.id) (perm_back (range fl.agents)) i))

  alive_lem : (ag : Agent) → not (gone running ag) ≡ true → gone running ag ≡ false
  alive_lem ag h = ground (arith, h)

  -- CleanupDeadAgents keeps an agent exactly where its process is not gone, and deletes exactly
  -- the rows of the agents whose process is gone, in whatever order the range meets the agents,
  -- where no two agents have the same id. An agent that is kept is as before, save one that runs,
  -- that nothing watches and whose session, by the table before, was that of an agent that is
  -- gone: it takes the watcher that starts for the session, if one does.
  pub cleanup_dead_agents_cases :
      ((id : String) (ag' : Agent)
        → In (id, ag') result.agents ↔ (
            (ag : Agent) × In (id, ag) fl.agents
            × (gone running ag ≡ false)
            × (ag' ≡ after running started fl ag)))
      × (result.table ≡ select (λ row. not (dies running row.id fl.agents)) fl.table)
  cleanup_dead_agents_cases = (λ id ag'. (into id ag', from id ag'), result_table)
    where
      into :
          (id : String) (ag' : Agent)
          → In (id, ag') result.agents
          → (ag : Agent) × In (id, ag) fl.agents
            × (gone running ag ≡ false)
            × (ag' ≡ after running started fl ag)
      into id ag' h =
          let (ag, i, e) = (In-promote_in _ id ag' _).0 (subst (In (id, ag')) result_agents h) in
          let (j, g) = In-select _ (id, ag) (ranged fl.agents) i in
          let lives = alive_lem ag g in
          (
            ag,
            In-perm (id, ag) (perm_back (range fl.agents)) j,
            lives,
            e ∙ settled-after id ag j lives,
          )

      from :
          (id : String) (ag' : Agent)
          → (ag : Agent) × In (id, ag) fl.agents
            × (gone running ag ≡ false)
            × (ag' ≡ after running started fl ag)
          → In (id, ag') result.agents
      from id ag' (ag, i, g, e) =
          let j = In-perm (id, ag) (range fl.agents) i in
          let left =
            select-In (λ w. not (gone running w.1)) (id, ag) (ranged fl.agents) j (ap not g) in
          subst (In (id, ag')) (sym result_agents)
            ((In-promote_in _ id ag' _).1 (ag, left, e ∙ sym (settled-after id ag j g)))
