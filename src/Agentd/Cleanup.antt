-- ===== src/Agentd/Cleanup.antt =====
-- agentd/internal/agent/manager.go, CleanupDeadAgents: agents whose process is gone are removed, and
-- agents without a watcher that have a freed session get one. Whether a process runs and what
-- starting a watcher gives are arguments. A loop over a map that deletes the key it is at is a
-- filter of the entries, in the order `ranged` in which the range meets them; the second loop
-- changes each agent without regard to the others, so its order is left out. The store answers:
-- what happens where it fails is not modelled. A removed agent is dropped, its process with it;
-- `changes` is what the callbacks of the agents are told.
pub mod Laws
pub mod Sweep
pub mod Left
mod Tests
use agnet.Common.{
  ℕ, String, Bool, true, false, ◌&&◌, ◌||◌, not, Option, none, some, List, [], ◌∷◌, ltb,
  if◌then◌else◌,
}
use agnet.Common.Text.{◌=s◌, is_empty}
use agnet.Common.Map.{Map}
use agnet.Agentd.Agent.{Agent, Watcher, StatusChange, stopped, set_status, set_watcher}
use agnet.Agentd.Hub.{noted}

-- A row of the table agents, the columns that are read here.
pub record AgentRecord : Type 0 where
  pub id : String
  pub resume_session_id : String

pub record Fleet : Type 0 where
  pub agents : Map Agent
  pub table : List AgentRecord
  pub changes : List StatusChange

-- `processRunning`
abbrev pub Running : Type 0
Running = ℕ → String → Bool

unfoldable pub get_resume_session_id : List AgentRecord → String → String
get_resume_session_id [] id = ""
get_resume_session_id (row ∷ rows) id =
    if row.id =s id then row.resume_session_id else get_resume_session_id rows id

-- `DELETE FROM agents WHERE id = ?`
unfoldable pub delete_agent : List AgentRecord → String → List AgentRecord
delete_agent [] id = []
delete_agent (row ∷ rows) id =
    let rest = delete_agent rows id in if row.id =s id then rest else row ∷ rest

abbrev pub is_dead : Running → Agent → Bool
is_dead running ag = ltb 0 ag.pid && not (running ag.pid ag.provider)

abbrev freed : String → List String → List String
freed session sessions = if is_empty session then sessions else session ∷ sessions

-- The first loop, which gives the sessions that are freed too.
unfoldable pub sweep : Running → Map Agent → List AgentRecord → Fleet × List String
sweep running [] table = (record { agents = []; table = table; changes = [] }, [])
sweep running ((id, ag) ∷ agents) table = elim (is_dead running ag) [
  | true ↦
      let (fl, sessions) = sweep running agents (delete_agent table ag.id) in
      (
        record fl { changes = noted (set_status ag stopped).1 fl.changes },
        freed (get_resume_session_id table ag.id) sessions,
      )
  | false ↦
      let (fl, sessions) = sweep running agents table in
      (record fl { agents = (id, ag) ∷ fl.agents }, sessions)
]

abbrev has_watcher : Option Watcher → Bool
has_watcher none = false
has_watcher (some w) = true

-- `w.Start()` fails where `started` is `none`.
unfoldable pub promote :
    Running → (Agent → String → Option Watcher) → List AgentRecord → String → Agent → Agent
promote running started table session ag =
    if has_watcher ag.watcher || not (ltb 0 ag.pid)
    then ag
    else if not (get_resume_session_id table ag.id =s session)
    then ag
    else if not (running ag.pid ag.provider)
    then ag
    else elim (started ag session) [ none ↦ ag | some w ↦ set_watcher ag (some w) ]

abbrev pub promote_in : (Agent → Agent) → Map Agent → Map Agent
promote_in f [] = []
promote_in f ((id, ag) ∷ agents) = (id, f ag) ∷ promote_in f agents

-- The second loop.
unfoldable pub promote_all :
    Running
    → (Agent → String → Option Watcher)
    → List AgentRecord
    → List String
    → Map Agent
    → Map Agent
promote_all running started table [] agents = agents
promote_all running started table (session ∷ sessions) agents =
    promote_all running started table sessions
      (promote_in (promote running started table session) agents)

unfoldable pub cleanup_dead_agents :
    Running → (Agent → String → Option Watcher) → (Map Agent → Map Agent) → Fleet → Fleet
cleanup_dead_agents running started ranged fl =
    let (swept, sessions) = sweep running (ranged fl.agents) fl.table in
    record swept { agents = promote_all running started swept.table sessions swept.agents }
