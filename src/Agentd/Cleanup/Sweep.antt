-- ===== src/Agentd/Cleanup/Sweep.antt =====
-- The first loop of CleanupDeadAgents as a filter of the agents and of the rows.
use agnet.Common.{
  ◌≡◌, refl, sym, ap, ◌∙◌, inl, inr, arith, String, Bool, false, ◌&&◌, ◌||◌, not, List, [], ◌∷◌,
  if◌then◌else◌, Bool-cases, select, ap₂, ◌≢◌, All,
}
use agnet.Common.Text.{◌=s◌, eq_iff, is_empty}
use agnet.Common.Map.{Map}
use agnet.Agentd.Agent.{Agent}
use agnet.Agentd.Cleanup.{AgentRecord, Running, delete_agent, sweep}
use agnet.Agentd.Cleanup.Laws.{
  gone, first_session, stored_session, some_is, dies, frees, alive, gone_lem, stored_session_lem,
}

-- No agent of these has the id.
abbrev pub NoneHas : String → Map Agent → Type 0
NoneHas id agents = All (λ (e : String × Agent). e.1.id ≢ id) agents

-- No two agents have the same id.
abbrev pub Distinct : Map Agent → Type 0
Distinct [] = Unit
Distinct ((k, ag) ∷ agents) = NoneHas ag.id agents × Distinct agents

pub differs : (a b : String) → a ≢ b → (a =s b) ≡ false
differs a b ne = elim (Bool-cases (a =s b)) [ inl e ↦ absurd (ne ((eq_iff a b).0 e)) | inr e ↦ e ]

-- A deleted row takes no other agent's session with it.
session-delete_agent :
    (x y : String) (table : List AgentRecord)
    → y ≢ x
    → select (λ row. row.id =s y) (delete_agent table x) ≡ select (λ row. row.id =s y) table
unfolding delete_agent
session-delete_agent x y [] ne = refl
session-delete_agent x y (row ∷ rows) ne = elim (Bool-cases (row.id =s x)) [
  | inl e ↦
      rw (e, differs row.id y (λ p. ne (sym p ∙ (eq_iff row.id x).0 e)))
        (session-delete_agent x y rows ne)
  | inr e ↦ rw e (elim (Bool-cases (row.id =s y)) [
    | inl f ↦ rw f (ap (◌∷◌ row) (session-delete_agent x y rows ne))
    | inr f ↦ rw f (session-delete_agent x y rows ne)
  ])
]

module _ (running : Running) where
  frees-delete_agent :
      (x s : String) (agents : Map Agent) (table : List AgentRecord)
      → NoneHas x agents
      → frees running (delete_agent table x) s agents ≡ frees running table s agents
  frees-delete_agent x s [] table h = refl
  frees-delete_agent x s ((k, ag) ∷ agents) table (h, hs) =
      let same = ap first_session (session-delete_agent x ag.id table h) in
      ap₂ ◌||◌ (ap (λ t. gone running ag && not (is_empty t) && s =s t) same)
        (frees-delete_agent x s agents table hs)

  pub sweep-frees :
      (s : String) (agents : Map Agent) (table : List AgentRecord)
      → Distinct agents
      → some_is s (sweep running agents table).1 ≡ frees running table s agents
  unfolding sweep
  sweep-frees s [] table d = refl
  sweep-frees s ((k, ag) ∷ agents) table (h, hs) = elim (Bool-cases (gone running ag)) [
    | inl d ↦
        let ih =
          sweep-frees s agents (delete_agent table ag.id) hs
          ∙ frees-delete_agent ag.id s agents table h in
        rw (d, gone_lem running ag ∙ d, stored_session_lem table ag.id, sweep) (joined ag.id _ _ ih)
    | inr d ↦ rw (d, gone_lem running ag ∙ d, sweep) (sweep-frees s agents table hs)
  ]
    where
      joined :
          (id : String) (ts : List String) (b : Bool)
          → some_is s ts ≡ b
          → some_is s
              (if is_empty (stored_session table id) then ts else stored_session table id ∷ ts)
            ≡ (not (is_empty (stored_session table id)) && s =s stored_session table id || b)
      joined id ts b h = elim (Bool-cases (is_empty (stored_session table id))) [
        | inl e ↦ rw e h
        | inr e ↦ rw e (ap (λ c. s =s stored_session table id || c) h)
      ]

  pub sweep-alive :
      (agents : Map Agent) (table : List AgentRecord)
      → (sweep running agents table).0.agents ≡ alive running agents
  unfolding sweep
  sweep-alive [] table = refl
  sweep-alive ((id, ag) ∷ agents) table = elim (Bool-cases (gone running ag)) [
    | inl d ↦ rw (d, gone_lem running ag ∙ d, sweep) (sweep-alive agents (delete_agent table ag.id))
    | inr d ↦ rw (d, gone_lem running ag ∙ d, sweep) (ap (◌∷◌ (id, ag)) (sweep-alive agents table))
  ]

  select-delete_agent :
      (id : String) (agents : Map Agent) (table : List AgentRecord)
      → select (λ row. not (dies running row.id agents)) (delete_agent table id)
        ≡ select (λ row. not (row.id =s id || dies running row.id agents)) table
  unfolding delete_agent
  select-delete_agent id agents [] = refl
  select-delete_agent id agents (row ∷ rows) = ground (arith, select-delete_agent id agents rows)

  select-all :
      (table : List AgentRecord) → table ≡ select (λ row. not (dies running row.id [])) table
  select-all [] = refl
  select-all (row ∷ rows) = ap (◌∷◌ row) (select-all rows)

  pub sweep_table :
      (agents : Map Agent) (table : List AgentRecord)
      → (sweep running agents table).0.table
        ≡ select (λ row. not (dies running row.id agents)) table
  unfolding sweep
  sweep_table [] table = select-all table
  sweep_table ((id, ag) ∷ agents) table = elim (Bool-cases (gone running ag)) [
    | inl d ↦
        rw (d, gone_lem running ag ∙ d, sweep)
          (sweep_table agents (delete_agent table ag.id) ∙ select-delete_agent ag.id agents table)
    | inr d ↦ rw (d, gone_lem running ag ∙ d, sweep) (sweep_table agents table)
  ]
