-- ===== src/Agentd/Cleanup/Laws.antt =====
-- The words for what CleanupDeadAgents leaves, and its second loop as a change of every agent.
use agnet.Common.{
  ◌≡◌, refl, sym, ap, ◌∙◌, inl, inr, arith, String, Bool, true, false, ◌&&◌, ◌||◌, not, Option,
  none, some, List, [], ◌∷◌, if◌then◌else◌, Bool-cases, select, ◌==◌,
}
use agnet.Common.Members.{any}
use agnet.Common.Text.{◌=s◌, eq_iff, is_empty}
use agnet.Common.Map.{Map}
use agnet.Agentd.Agent.{Agent, Watcher, set_watcher}
use agnet.Agentd.Cleanup.{
  AgentRecord, Running, get_resume_session_id, is_dead, has_watcher, promote, promote_in,
  promote_all,
}

-- Whether an agent's process is gone. An agent without a process id has none to lose.
abbrev pub gone : Running → Agent → Bool
gone running ag = if ag.pid == 0 then false else not (running ag.pid ag.provider)

abbrev pub unwatched : Option Watcher → Bool
unwatched none = true
unwatched (some w) = false

-- An agent that runs and that nothing watches.
abbrev pub waits : Running → Agent → Bool
waits running ag = unwatched ag.watcher && (not (ag.pid == 0) && running ag.pid ag.provider)

abbrev pub given : Agent → Option Watcher → Agent
given ag none = ag
given ag (some w) = set_watcher ag (some w)

abbrev pub first_session : List AgentRecord → String
first_session [] = ""
first_session (row ∷ rows) = row.resume_session_id

-- The session of the first row that has the id; empty where none has.
abbrev pub stored_session : List AgentRecord → String → String
stored_session table id = first_session (select (λ row. row.id =s id) table)

abbrev pub some_is : String → List String → Bool
some_is s [] = false
some_is s (t ∷ ts) = s =s t || some_is s ts

-- Some agent with the id is gone.
abbrev pub dies : Running → String → Map Agent → Bool
dies running id agents = any (λ e. gone running e.1 && id =s e.1.id) agents

-- Some agent with the session, which is not empty, is gone.
abbrev pub frees : Running → List AgentRecord → String → Map Agent → Bool
frees running table s agents =
    any
      (λ e.
        gone running e.1
        && not (is_empty (stored_session table e.1.id))
        && s =s stored_session table e.1.id)
      agents

abbrev pub alive : Running → Map Agent → Map Agent
alive running agents = select (λ e. not (gone running e.1)) agents

pub gone_lem : (running : Running) (ag : Agent) → is_dead running ag ≡ gone running ag
gone_lem running ag = ground arith

unwatched_lem : (o : Option Watcher) → not (has_watcher o) ≡ unwatched o
unwatched_lem none = refl
unwatched_lem (some w) = refl

pub stored_session_lem :
    (table : List AgentRecord) (id : String)
    → get_resume_session_id table id ≡ stored_session table id
unfolding get_resume_session_id
stored_session_lem [] id = refl
stored_session_lem (row ∷ rows) id = elim (Bool-cases (row.id =s id)) [
  | inl e ↦ rw e refl
  | inr e ↦ rw e (stored_session_lem rows id)
]

module _ (running : Running) (started : Agent → String → Option Watcher)
    (table : List AgentRecord) where
  abbrev session_of : Agent → String
  session_of ag = stored_session table ag.id

  -- An agent that waits takes the watcher of its session, where the session is one of these.
  abbrev pub settled : List String → Agent → Agent
  settled sessions ag =
      if waits running ag && some_is (stored_session table ag.id) sessions
      then given ag (started ag (stored_session table ag.id))
      else ag

  promote-waits :
      (s : String) (ag : Agent)
      → promote running started table s ag
        ≡ (if waits running ag && session_of ag =s s then given ag (started ag s) else ag)
  unfolding promote
  promote-waits s ag = ground (arith, unwatched_lem ag.watcher, stored_session_lem table ag.id)

  settled-given :
      (sessions : List String) (ag : Agent) (o : Option Watcher)
      → started ag (session_of ag) ≡ o
      → settled sessions (given ag o) ≡ given ag o
  unfolding set_watcher
  settled-given sessions ag (some w) e = refl
  settled-given sessions ag none e =
      elim (Bool-cases (waits running ag && some_is (session_of ag) sessions)) [
        | inl b ↦ rw b (rw e refl)
        | inr b ↦ rw b refl
      ]

  settled-promote :
      (s : String) (sessions : List String) (ag : Agent)
      → settled sessions (promote running started table s ag) ≡ settled (s ∷ sessions) ag
  settled-promote s sessions ag = elim (Bool-cases (waits running ag && session_of ag =s s)) [
    | inr c ↦
        let kept : promote running started table s ag ≡ ag = promote-waits s ag ∙ unless c in
        ap (settled sessions) kept ∙ later c
    | inl c ↦
        ap (settled sessions) (promote-waits s ag ∙ taken c)
        ∙ settled-given sessions ag (started ag (session_of ag)) refl
        ∙ sym (full c)
  ]
    where
      unless :
          (waits running ag && session_of ag =s s) ≡ false
          → (if waits running ag && session_of ag =s s then given ag (started ag s) else ag) ≡ ag
      unless c = rw c refl

      later :
          (waits running ag && session_of ag =s s) ≡ false
          → settled sessions ag ≡ settled (s ∷ sessions) ag
      later c = ground arith

      same : (waits running ag && session_of ag =s s) ≡ true → session_of ag ≡ s
      same c = (eq_iff (session_of ag) s).0 (ground (arith, c))

      taken :
          (waits running ag && session_of ag =s s) ≡ true
          → (if waits running ag && session_of ag =s s then given ag (started ag s) else ag)
            ≡ given ag (started ag (session_of ag))
      taken c = rw c (ap (λ x. given ag (started ag x)) (sym (same c)))

      full :
          (waits running ag && session_of ag =s s) ≡ true
          → settled (s ∷ sessions) ag ≡ given ag (started ag (session_of ag))
      full c = ground (arith, c)

  promote_in_both :
      (f g h : Agent → Agent) (agents : Map Agent)
      → ((ag : Agent) → f (g ag) ≡ h ag)
      → promote_in f (promote_in g agents) ≡ promote_in h agents
  promote_in_both f g h [] e = refl
  promote_in_both f g h ((id, ag) ∷ agents) e = rw (e ag) (rw (promote_in_both f g h agents e) refl)

  promote_in_same : (agents : Map Agent) → agents ≡ promote_in (settled []) agents
  promote_in_same [] = refl
  promote_in_same ((id, ag) ∷ agents) = ground (arith, promote_in_same agents)

  pub promote_all-settled :
      (sessions : List String) (agents : Map Agent)
      → promote_all running started table sessions agents ≡ promote_in (settled sessions) agents
  unfolding promote_all
  promote_all-settled [] agents = promote_in_same agents
  promote_all-settled (s ∷ sessions) agents =
      promote_all-settled sessions _ ∙ promote_in_both _ _ _ agents (settled-promote s sessions)
