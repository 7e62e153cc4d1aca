-- ===== src/Agentd/Scanner/Ancestors/Kept.antt =====
-- Which processes `filterParentAgents` keeps (agentd/internal/scanner/scanner.go).
use mathlib.Core.Path.{subst}
use agnet.Common.{ℕ, ◌<◌, ◌≡◌, refl, ap, ◌∙◌, ◌≢◌, ◌↔◌, inl, inr, true, not}
use agnet.Common.{none, some, List, [], ◌∷◌, All, if◌then◌else◌, Bool-cases, Option-cases, ◌==◌}
use agnet.Common.Members.{In, In-select, select-In}
use agnet.Agentd.Scanner.{ProcessInfo}
use agnet.Agentd.Scanner.Ancestors.{
  has_ai_agent_ancestor, filter_parent_agents, is_ai_agent, by_pid, parent_info,
}
use agnet.Agentd.Scanner.Ancestors.Laws.{
  HasAgent, here, above, HasAgent-above, info_in, has_ai_agent_ancestor_iff,
}

-- The filter keeps exactly the processes of the list with no agent above them, where "above" follows
-- the parents through the list.
pub In-filter_parent_agents :
    (proc : ProcessInfo) (procs : List ProcessInfo)
    → In proc (filter_parent_agents procs)
      ↔ (In proc procs × ¬ HasAgent 0 (info_in procs) proc.ppid)
unfolding filter_parent_agents
In-filter_parent_agents proc procs =
    let found = has_ai_agent_ancestor_iff proc procs in
    (
      (λ h.
          let (a, b) = In-select (λ p. not (has_ai_agent_ancestor p procs)) proc procs h in
          (a, λ g. cc (b, found.1 g))),
      (λ h.
          select-In (λ p. not (has_ai_agent_ancestor p procs)) proc procs h.0
            (elim (Bool-cases (has_ai_agent_ancestor proc procs)) [
              | inl e ↦ absurd (h.1 (found.0 e))
              | inr e ↦ rw e refl
            ])),
    )

by_pid_All :
    (P : ProcessInfo → Type 0) (procs : List ProcessInfo) (p : ℕ) (parent : ProcessInfo)
    → All P procs
    → by_pid procs p ≡ some parent
    → P parent
by_pid_All P [] p parent h e = cc
by_pid_All P (proc ∷ procs) p parent (h, hs) e = elim (Option-cases (by_pid procs p)) [
  | inl n ↦ first (rw n at e)
  | inr (later, m) ↦ by_pid_All P procs p parent hs (m ∙ (rw m at e))
]
  where
    first : (if proc.pid == p then some proc else none) ≡ some parent → P parent
    first f = elim (Bool-cases (proc.pid == p)) [
      | inl q ↦ (let same : proc ≡ parent = cc (f, q) in subst P same h)
      | inr q ↦ cc (f, q)
    ]

no_info :
    (procs : List ProcessInfo) (p : ℕ) → by_pid procs p ≡ none → HasAgent 0 (info_in procs) p → ⊥
no_info procs p n (here ppid lt e) = cc (n, e)
no_info procs p n (above ppid agent lt e r) = cc (n, e)

-- In a list of agents alone, as a scan makes it, the walk is over after one step: a process counts as
-- one with an agent above it exactly where its own parent is in the list.
pub has_ai_agent_ancestor_direct :
    (proc : ProcessInfo) (procs : List ProcessInfo)
    → All (λ p. is_ai_agent p ≡ true) procs
    → (has_ai_agent_ancestor proc procs ≡ true)
      ↔ ((0 < proc.ppid) × (by_pid procs proc.ppid ≢ none))
has_ai_agent_ancestor_direct proc procs h =
    let found = has_ai_agent_ancestor_iff proc procs in
    (
      (λ t. (HasAgent-above _ _ (found.0 t), (λ n. no_info procs proc.ppid n (found.0 t)))),
      (λ t. found.1 (elim (Option-cases (by_pid procs proc.ppid)) [
        | inl n ↦ absurd (t.1 n)
        | inr (parent, e) ↦ here parent.ppid t.0 (
            ap parent_info e
            ∙ ap (λ b. some (parent.ppid, b))
                (by_pid_All (λ p. is_ai_agent p ≡ true) procs proc.ppid parent h e))
      ])),
    )
