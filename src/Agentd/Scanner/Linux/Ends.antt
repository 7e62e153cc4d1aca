-- ===== src/Agentd/Scanner/Linux/Ends.antt =====
-- That the scan of /proc ends.
use agnet.Common.{ℕ, zero, suc, ◌<◌, refl, ◌≢◌, inl, inr, arith, Bool}
use agnet.Common.{Option, none, some, List, [], ◌∷◌, leb, ltb, Bool-cases, Option-cases, ltb→lt}
use agnet.Common.Text.{Bytes}
use agnet.Common.Strings.{split}
use agnet.Agentd.Scanner.{ProcessInfo, no_bytes}
use agnet.Agentd.Scanner.Linux.{
  System, get_ppid, is_skipped, scan_parts, scan_process, scan_entries, scan_linux, with_session,
  finished, add_found, get_tmux_session_name, session_above, detect_tmux_session, has_tmux,
  session_of, looked_for, entry_pid, or_empty, is_tmux_client,
}

module _ (sys : System) (depth : ℕ → ℕ) (falls : (p : ℕ) → 1 < p → depth (get_ppid sys p) < depth p)
    (deep : (p : ℕ) → depth p < sys.rounds) where
  session_above-some :
      (rest : ℕ → Option Bytes) (p : ℕ) → (rest p ≢ none) → session_above sys rest p ≢ none
  session_above-some rest p h = elim (Bool-cases (leb p 1)) [
    | inl e ↦ rw e (λ q. cc)
    | inr e ↦ rw e (elim (Bool-cases (is_tmux_client (sys.cmdline p))) [
      | inl f ↦ rw f (λ q. cc)
      | inr f ↦ rw f h
    ])
  ]

  name_ends : (fuel p : ℕ) → depth p < fuel → get_tmux_session_name sys fuel p ≢ none
  unfolding get_tmux_session_name
  name_ends zero p h = absurd (omega arith)
  name_ends (suc fuel) p h = elim (Bool-cases (ltb 1 p)) [
    | inr e ↦ rw e (λ q. cc)
    | inl e ↦ rw e (
        session_above-some (λ ppid. get_tmux_session_name sys fuel ppid) (get_ppid sys p)
          (name_ends fuel (get_ppid sys p) (omega (arith, falls p (ltb→lt 1 p e)))))
  ]

  detect_ends : (p : ℕ) → detect_tmux_session sys p ≢ none
  unfolding detect_tmux_session
  detect_ends p = elim (Bool-cases (has_tmux (split (or_empty (sys.environ p)) 0))) [
    | inl e ↦ rw e (name_ends sys.rounds p (deep p))
    | inr e ↦ rw e (λ q. cc)
  ]

  looked_for_ends : (p : ℕ) (s : Bytes) → looked_for sys p s ≢ none
  looked_for_ends p s = elim (Bool-cases (no_bytes s)) [
    | inl e ↦ rw e (detect_ends p)
    | inr e ↦ rw e (λ q. cc)
  ]

  session_of_ends : (p : ℕ) (s : Bytes) (o : Option Bytes) → o ≢ none → session_of sys p s o ≢ none
  session_of_ends p s none h = λ _. h refl
  session_of_ends p s (some t) h = elim (Bool-cases (no_bytes s)) [
    | inr e ↦ rw e (λ q. cc)
    | inl e ↦
        rw e (elim (Bool-cases (no_bytes t)) [ inr f ↦ rw f (λ q. cc) | inl f ↦ rw f (λ q. cc) ])
  ]

  with_session_ends :
      (f : Bytes → ProcessInfo) (o : Option Bytes) → o ≢ none → with_session f o ≢ none
  with_session_ends f none h = λ _. h refl
  with_session_ends f (some s) h = λ q. cc

  scan_parts_ends : (p : ℕ) (parts : List Bytes) → scan_parts sys p parts ≢ none
  unfolding scan_parts
  scan_parts_ends p [] = λ q. cc
  scan_parts_ends p (cmd ∷ args) = elim (Bool-cases (is_skipped sys p cmd args)) [
    | inl e ↦ rw e (λ q. cc)
    | inr e ↦ rw e (with_session_ends _ _ (session_of_ends p _ _ (looked_for_ends p _)))
  ]

  scan_process_ends : (p : ℕ) → scan_process sys p ≢ none
  unfolding scan_process
  scan_process_ends p = elim (Option-cases (sys.cmdline p)) [
    | inl e ↦ rw (e, scan_process) (λ q. cc)
    | inr (content, e) ↦ rw (e, scan_process) (scan_parts_ends p (split content 0))
  ]

  add_found_ends :
      (o : Option (Option ProcessInfo)) (rest : Option (List ProcessInfo))
      → o ≢ none
      → rest ≢ none
      → add_found o rest ≢ none
  add_found_ends none rest h k = λ _. h refl
  add_found_ends (some none) rest h k = k
  add_found_ends (some (some p)) none h k = λ _. k refl
  add_found_ends (some (some p)) (some ps) h k = λ q. cc

  scan_entries_ends : (entries : List (Bytes × Bool)) → scan_entries sys entries ≢ none
  unfolding scan_entries
  scan_entries_ends [] = λ q. cc
  scan_entries_ends (entry ∷ entries) = elim (Option-cases (entry_pid sys entry)) [
    | inl e ↦ rw (e, scan_entries) (scan_entries_ends entries)
    | inr (p, e) ↦
        rw (e, scan_entries)
          (add_found_ends (scan_process sys p) (scan_entries sys entries) (scan_process_ends p)
            (scan_entries_ends entries))
  ]

  finished_ends : (o : Option (List ProcessInfo)) → o ≢ none → finished sys o ≢ none
  finished_ends none h = λ _. h refl
  finished_ends (some ps) h = λ q. cc

  -- Where the parents of the processes form no circle, as a depth that falls from a process to its
  -- parent shows, and there are more rounds than processes are deep, the scan of /proc ends.
  pub scan_linux_ends : scan_linux sys ≢ none
  unfolding scan_linux
  scan_linux_ends = elim (Option-cases sys.entries) [
    | inl e ↦ rw (e, scan_linux) (λ q. cc)
    | inr (entries, e) ↦
        rw (e, scan_linux) (finished_ends (scan_entries sys entries) (scan_entries_ends entries))
  ]
