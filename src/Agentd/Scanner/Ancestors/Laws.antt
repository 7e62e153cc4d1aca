-- ===== src/Agentd/Scanner/Ancestors/Laws.antt =====
-- The walk ends, finds an agent exactly where there is one, and so decides which processes stay.
use mathlib.Core.Path.{subst}
use agnet.Common.{ℕ, zero, suc, ◌<◌, ◌≤◌, ◌≡◌, refl, ap, ◌∙◌, ◌≢◌, ◌↔◌, inl, inr, arith}
use agnet.Common.{Bool, true, false, ◌||◌, Option, none, some, List, [], ◌∷◌, ◌==◌, leb}
use agnet.Common.{if◌then◌else◌, length, Bool-cases, Option-cases, ==_iff}
use agnet.Agentd.Scanner.{ProcessInfo}
use agnet.Agentd.Scanner.Ancestors.{walk, visit, member, by_pid, parent_info, has_ai_agent_ancestor}

member-cons :
    (q p : ℕ) (seen : List ℕ)
    → member p seen ≡ true
    → member q (p ∷ seen) ≡ true
    → member q seen ≡ true
member-cons q p seen m h = elim (Bool-cases (q == p)) [
  | inl e ↦ ap (λ a. member a seen) ((==_iff q p).0 e) ∙ m
  | inr e ↦ ground (arith, h, e)
]

leb_of : (p floor : ℕ) (b : Bool) → (leb p floor || b) ≡ true → b ≡ false → p ≤ floor
leb_of p floor b h e = ground (arith, h, e)

-- How many of the keys are not yet seen.
abbrev fresh : List ℕ → List ℕ → ℕ
fresh seen [] = 0
fresh seen (k ∷ ks) = if member k seen then fresh seen ks else suc (fresh seen ks)

fresh-cons-le : (p : ℕ) (seen ks : List ℕ) → fresh (p ∷ seen) ks ≤ fresh seen ks
fresh-cons-le p seen [] = omega arith
fresh-cons-le p seen (k ∷ ks) = ground (arith, fresh-cons-le p seen ks)

fresh-cons-lt :
    (p : ℕ) (seen ks : List ℕ)
    → member p ks ≡ true
    → member p seen ≡ false
    → fresh (p ∷ seen) ks < fresh seen ks
fresh-cons-lt p seen [] h n = cc
fresh-cons-lt p seen (k ∷ ks) h n = elim (Bool-cases (p == k)) [
  | inl e ↦ ground (arith, e, fresh-cons-le p seen ks)
  | inr e ↦ ground (arith, e, fresh-cons-lt p seen ks)
]

fresh-nil : (ks : List ℕ) → fresh [] ks ≡ length ks
fresh-nil [] = refl
fresh-nil (k ∷ ks) = ap suc (fresh-nil ks)

module _ (floor : ℕ) (info : ℕ → Option (ℕ × Bool)) where
  -- The walk from `p` comes to an agent, `p` itself or a process above it.
  pub data HasAgent : ℕ → Type 0 where
    here : {p : ℕ} (ppid : ℕ) → floor < p → info p ≡ some (ppid, true) → HasAgent p
    above :
        {p : ℕ} (ppid : ℕ) (agent : Bool)
        → floor < p
        → info p ≡ some (ppid, agent)
        → HasAgent ppid
        → HasAgent p

  visit-some :
      (rest : ℕ → Option Bool) (o : Option (ℕ × Bool))
      → ((i : ℕ × Bool) → o ≡ some i → rest i.0 ≢ none)
      → visit rest o ≢ none
  visit-some rest none h q = cc
  visit-some rest (some (ppid, true)) h q = cc
  visit-some rest (some (ppid, false)) h q = h (ppid, false) refl q

  walk_ends :
      (keys : List ℕ)
      → ((p : ℕ) (i : ℕ × Bool) → info p ≡ some i → member p keys ≡ true)
      → (fuel : ℕ) (seen : List ℕ) (p : ℕ) → fresh seen keys < fuel
      → walk floor info fuel seen p ≢ none
  unfolding walk
  walk_ends keys cover zero seen p h = absurd (omega arith)
  walk_ends keys cover (suc fuel) seen p h = elim (Bool-cases (leb p floor || member p seen)) [
    | inl e ↦ rw e (λ q. cc)
    | inr e ↦ rw e (
        visit-some (λ ppid. walk floor info fuel (p ∷ seen) ppid) (info p)
          (λ i f.
            walk_ends keys cover fuel (p ∷ seen) i.0
              (omega (arith, fresh-cons-lt p seen keys (cover p i f) (ground (arith, e))))))
  ]

  visit-true :
      (rest : ℕ → Option Bool) (p : ℕ) (o : Option (ℕ × Bool))
      → info p ≡ o
      → floor < p
      → visit rest o ≡ some true
      → ((ppid : ℕ) → rest ppid ≡ some true → HasAgent ppid)
      → HasAgent p
  visit-true rest p none e lt h ih = cc
  visit-true rest p (some (ppid, true)) e lt h ih = here ppid lt e
  visit-true rest p (some (ppid, false)) e lt h ih = above ppid false lt e (ih ppid h)

  walk_sound :
      (fuel : ℕ) (seen : List ℕ) (p : ℕ) → walk floor info fuel seen p ≡ some true → HasAgent p
  unfolding walk
  walk_sound zero seen p h = cc
  walk_sound (suc fuel) seen p h = elim (Bool-cases (leb p floor || member p seen)) [
    | inl e ↦ absurd (ground (arith, h, e))
    | inr e ↦
        visit-true (λ ppid. walk floor info fuel (p ∷ seen) ppid) p (info p) refl
          (ground (arith, e)) (rw e at h) (λ ppid q. walk_sound fuel (p ∷ seen) ppid q)
  ]

  same_parent : {p q r : ℕ} {a b : Bool} → info p ≡ some (q, a) → info p ≡ some (r, b) → q ≡ r
  same_parent {p} {q} {r} e f = cc (e, f)

  -- Every process in `s` is no agent, and its parent is in `t`.
  abbrev Closed : List ℕ → List ℕ → Type 0
  Closed s t =
      (q : ℕ)
      → member q s ≡ true
      → (ppid : ℕ) × (info q ≡ some (ppid, false)) × (member ppid t ≡ true)

  Closed-HasAgent : (s : List ℕ) → Closed s s → {p : ℕ} → HasAgent p → member p s ≡ true → ⊥
  Closed-HasAgent s c {p} (here ppid lt e) m = let (q, f, g) = c p m in cc (e, f)
  Closed-HasAgent s c {p} (above ppid agent lt e r) m =
      let (q, f, g) = c p m in Closed-HasAgent s c r (ap (λ a. member a s) (same_parent e f) ∙ g)

  HasAgent-parent : {p : ℕ} (ppid : ℕ) → info p ≡ some (ppid, false) → HasAgent p → HasAgent ppid
  HasAgent-parent ppid e (here q lt f) = cc (e, f)
  HasAgent-parent ppid e (above q agent lt f r) = subst HasAgent (same_parent f e) r

  Closed-seen :
      (seen : List ℕ) (p ppid : ℕ)
      → Closed seen (p ∷ seen)
      → info p ≡ some (ppid, false)
      → Closed (p ∷ seen) (ppid ∷ (p ∷ seen))
  Closed-seen seen p ppid c e q m = elim (Bool-cases (q == p)) [
    | inl h ↦ (ppid, ap info ((==_iff q p).0 h) ∙ e, ground arith)
    | inr h ↦ (let (a, f, g) = c q (ground (arith, m, h)) in (a, f, ground (arith, g)))
  ]

  visit-false :
      (rest : ℕ → Option Bool) (p : ℕ) (o : Option (ℕ × Bool))
      → info p ≡ o
      → visit rest o ≡ some false
      → ((ppid : ℕ) → info p ≡ some (ppid, false) → rest ppid ≡ some false → HasAgent ppid → ⊥)
      → HasAgent p
      → ⊥
  visit-false rest p none e h ih (here q lt f) = cc (e, f)
  visit-false rest p none e h ih (above q b lt f r) = cc (e, f)
  visit-false rest p (some (ppid, true)) e h ih a = cc
  visit-false rest p (some (ppid, false)) e h ih a = ih ppid e h (HasAgent-parent ppid e a)

  pub HasAgent-above : {p : ℕ} → HasAgent p → floor < p
  HasAgent-above (here q lt f) = lt
  HasAgent-above (above q b lt f r) = lt

  walk_complete :
      (fuel : ℕ) (seen : List ℕ) (p : ℕ)
      → Closed seen (p ∷ seen)
      → walk floor info fuel seen p ≡ some false
      → HasAgent p
      → ⊥
  unfolding walk
  walk_complete zero seen p c h a = cc
  walk_complete (suc fuel) seen p c h a = elim (Bool-cases (leb p floor || member p seen)) [
    | inl e ↦ elim (Bool-cases (member p seen)) [
      | inl m ↦
          Closed-HasAgent seen (λ q n. let (b, f, g) = c q n in (b, f, (member-cons b p seen m g)))
            a m
      | inr m ↦ absurd (omega (arith, HasAgent-above a, leb_of p floor (member p seen) e m))
    ]
    | inr e ↦
        visit-false (λ ppid. walk floor info fuel (p ∷ seen) ppid) p (info p) refl (rw e at h)
          (λ ppid f k. walk_complete fuel (p ∷ seen) ppid (Closed-seen seen p ppid c f) k) a
  ]

abbrev pids : List ProcessInfo → List ℕ
pids [] = []
pids (proc ∷ procs) = proc.pid ∷ pids procs

length-pids : (procs : List ProcessInfo) → length (pids procs) ≡ length procs
length-pids [] = refl
length-pids (proc ∷ procs) = ap suc (length-pids procs)

-- What the map holds of a process.
abbrev pub info_in : List ProcessInfo → ℕ → Option (ℕ × Bool)
info_in procs p = parent_info (by_pid procs p)

by_pid-member :
    (procs : List ProcessInfo) (p : ℕ) (i : ℕ × Bool)
    → info_in procs p ≡ some i
    → member p (pids procs) ≡ true
by_pid-member [] p i h = cc
by_pid-member (proc ∷ procs) p i h = ground (arith, h, by_pid-member procs p i)

-- Whatever the parents in a list of processes are, also where they form a circle, the walk up from a
-- process ends within one round for each process of the list and one more.
pub walk_within :
    (procs : List ProcessInfo) (p : ℕ) → walk 0 (info_in procs) (suc (length procs)) [] p ≢ none
walk_within procs p =
    walk_ends 0 (info_in procs) (pids procs) (by_pid-member procs) (suc (length procs)) [] p
      (omega (arith, fresh-nil (pids procs), length-pids procs))

nothing_seen : (procs : List ProcessInfo) (p : ℕ) → Closed 0 (info_in procs) [] (p ∷ [])
nothing_seen procs p q m = cc

-- `hasAIAgentAncestor` reports an ancestor exactly where the parents of the process, followed
-- through the list from the parent on, come to an agent.
pub has_ai_agent_ancestor_iff :
    (proc : ProcessInfo) (procs : List ProcessInfo)
    → (has_ai_agent_ancestor proc procs ≡ true) ↔ HasAgent 0 (info_in procs) proc.ppid
unfolding has_ai_agent_ancestor
has_ai_agent_ancestor_iff proc procs =
    elim (Option-cases (walk 0 (info_in procs) (suc (length procs)) [] proc.ppid)) [
      | inl e ↦ absurd (walk_within procs proc.ppid e)
      | inr (true, e) ↦ ((λ _. walk_sound 0 (info_in procs) _ [] proc.ppid e), (λ _. rw e refl))
      | inr (false, e) ↦ (
        (λ h. cc (h, e)),
        (λ a.
            absurd
              (walk_complete 0 (info_in procs) _ [] proc.ppid (nothing_seen procs proc.ppid) e a)),
      )
    ]
