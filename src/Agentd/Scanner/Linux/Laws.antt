-- ===== src/Agentd/Scanner/Linux/Laws.antt =====
-- What a scan reports, and that it ends.
use mathlib.Core.Path.{subst}
use agnet.Common.{
  ℕ, ◌<◌, ◌≡◌, ◌≢◌, refl, sym, ◌∙◌, inl, inr, Bool, true, false, ◌&&◌, ◌||◌, ltb, lt→ltb,
}
use agnet.Common.{not, Option, none, some, List, [], ◌∷◌, All, select}
use agnet.Common.{Bool-cases, Option-cases}
use agnet.Common.Text.{Bytes, bytes, ◌=s◌, ◌=b◌, =b_iff, eq_iff, is_empty}
use agnet.Common.Strings.{split, has_prefix, contains, base}
use agnet.Agentd.Scanner.{
  ProcessInfo, detect_provider, is_claude_subagent_args, has_print_mode, has_output_format,
}
use agnet.Agentd.Scanner.Ancestors.{filter_parent_agents, has_ai_agent_ancestor}
use agnet.Agentd.Scanner.Linux.{
  System, get_ppid, is_agentd, is_skipped, scan_parts, scan_process, scan_entries, scan_linux,
  with_session, with_session_info, finalize_process_scan, all_with_info, finished, add_found,
  scanned, process_info, entry_pid,
}

-- An argument that makes no run of a subagent.
abbrev pub IsPlain : Bytes → Type 0
IsPlain arg =
    (arg ≢ bytes "-p")
    × (arg ≢ bytes "--output-format")
    × (has_prefix arg (bytes "--output-format=") ≡ false)

or_left : (a b : Bool) → (a || b) ≡ false → a ≡ false
or_left true b h = h
or_left false b h = refl

or_right : (a b : Bool) → (a || b) ≡ false → b ≡ false
or_right true b h = cc
or_right false b h = h

differs : (s t : Bytes) → (s =b t) ≡ false → s ≢ t
differs s t h e = cc ((=b_iff s t).1 e, h)

IsPlain-args :
    (args : List Bytes)
    → has_print_mode args ≡ false
    → has_output_format args ≡ false
    → All IsPlain args
unfolding has_print_mode has_output_format
IsPlain-args [] h k = tt
IsPlain-args (arg ∷ args) h k =
    let k' =
      or_left (arg =b bytes "--output-format" || has_prefix arg (bytes "--output-format="))
        (has_output_format args) k in
    (
      (
        differs arg (bytes "-p") (or_left (arg =b bytes "-p") (has_print_mode args) h),
        differs arg (bytes "--output-format") (or_left (arg =b bytes "--output-format") _ k'),
        or_right (arg =b bytes "--output-format") _ k',
      ),
      IsPlain-args args (or_right (arg =b bytes "-p") (has_print_mode args) h) (
          or_right (arg =b bytes "--output-format" || has_prefix arg (bytes "--output-format="))
            (has_output_format args) k),
    )

module _ (sys : System) where
  -- The process is one of an agent that is its own: the provider is the one that its command line
  -- shows, it is no run of a claude subagent, and its parent is the one that the system shows and not
  -- agentd.
  pub record IsAgentProcess (p : ProcessInfo) : Type 0 where
    pub known : p.provider ≡ detect_provider p.cmd p.args
    pub provided : p.provider ≢ ""
    pub no_subagent : p.provider ≡ "claude" → All IsPlain p.args
    pub parent : p.ppid ≡ get_ppid sys p.pid
    pub not_managed :
        0 < p.ppid
        → (exe : Bytes) → sys.exe p.ppid ≡ some exe
        → contains (base exe) (bytes "agentd") ≡ false

  no_agentd :
      (pid : ℕ)
      → (ltb 0 pid && is_agentd sys pid) ≡ false
      → 0 < pid
      → (exe : Bytes) → sys.exe pid ≡ some exe
      → contains (base exe) (bytes "agentd") ≡ false
  unfolding is_agentd
  no_agentd pid h lt exe e =
      let shows : is_agentd sys pid ≡ contains (base exe) (bytes "agentd") =
        rw (e, is_agentd) refl in
      sym shows ∙ and_false (ltb 0 pid) (is_agentd sys pid) (lt→ltb 0 pid lt) h
    where
      and_false : (a b : Bool) → a ≡ true → (a && b) ≡ false → b ≡ false
      and_false true b t h = h
      and_false false b t h = cc

  taken-IsAgentProcess :
      (pid : ℕ) (cmd : Bytes) (args : List Bytes) (session : Bytes)
      → is_skipped sys pid cmd args ≡ false
      → IsAgentProcess (process_info sys pid cmd args session)
  unfolding is_claude_subagent_args
  taken-IsAgentProcess pid cmd args session h =
      let provider = detect_provider cmd args in
      let sub = provider =s "claude" && (has_print_mode args || has_output_format args) in
      let managed = ltb 0 (get_ppid sys pid) && is_agentd sys (get_ppid sys pid) in
      let own = or_left (is_empty provider || sub) managed h in
      record {
        known = refl;
        provided = λ e. cc ((eq_iff provider "").1 e, or_left (is_empty provider) sub own);
        no_subagent = λ e.
            let no_flags : (has_print_mode args || has_output_format args) ≡ false =
              shown (provider =s "claude") _ ((eq_iff provider "claude").1 e)
                (or_right (is_empty provider) sub own) in
            IsPlain-args args (or_left (has_print_mode args) _ no_flags)
              (or_right (has_print_mode args) _ no_flags);
        parent = refl;
        not_managed = no_agentd (get_ppid sys pid) (or_right (is_empty provider || sub) managed h);
      }
    where
      shown : (a b : Bool) → a ≡ true → (a && b) ≡ false → b ≡ false
      shown true b t h = h
      shown false b t h = cc

  abbrev Good : Option (Option ProcessInfo) → Type 0
  Good none = Unit {0}
  Good (some none) = Unit {0}
  Good (some (some p)) = IsAgentProcess p

  abbrev AllGood : Option (List ProcessInfo) → Type 0
  AllGood none = Unit {0}
  AllGood (some ps) = All IsAgentProcess ps

  with_session-Good :
      (pid : ℕ) (cmd : Bytes) (args : List Bytes) (o : Option Bytes)
      → is_skipped sys pid cmd args ≡ false
      → Good (with_session (process_info sys pid cmd args) o)
  with_session-Good pid cmd args none h = tt
  with_session-Good pid cmd args (some s) h = taken-IsAgentProcess pid cmd args s h

  scan_parts-Good : (pid : ℕ) (parts : List Bytes) → Good (scan_parts sys pid parts)
  unfolding scan_parts
  scan_parts-Good pid [] = tt
  scan_parts-Good pid (cmd ∷ args) = elim (Bool-cases (is_skipped sys pid cmd args)) [
    | inl e ↦ rw e tt
    | inr e ↦ rw e (with_session-Good pid cmd args _ e)
  ]

  scan_process-Good : (pid : ℕ) → Good (scan_process sys pid)
  unfolding scan_process
  scan_process-Good pid = elim (Option-cases (sys.cmdline pid)) [
    | inl e ↦ rw (e, scan_process) tt
    | inr (content, e) ↦ rw (e, scan_process) (scan_parts-Good pid (split content 0))
  ]

  add_found-AllGood :
      (o : Option (Option ProcessInfo)) (rest : Option (List ProcessInfo))
      → Good o
      → AllGood rest
      → AllGood (add_found o rest)
  add_found-AllGood none rest g h = tt
  add_found-AllGood (some none) rest g h = h
  add_found-AllGood (some (some p)) none g h = tt
  add_found-AllGood (some (some p)) (some ps) g h = (g, h)

  scan_entries-AllGood : (entries : List (Bytes × Bool)) → AllGood (scan_entries sys entries)
  unfolding scan_entries
  scan_entries-AllGood [] = tt
  scan_entries-AllGood (entry ∷ entries) = elim (Option-cases (entry_pid sys entry)) [
    | inl e ↦ rw (e, scan_entries) (scan_entries-AllGood entries)
    | inr (pid, e) ↦
        rw (e, scan_entries)
          (add_found-AllGood (scan_process sys pid) (scan_entries sys entries)
            (scan_process-Good pid) (scan_entries-AllGood entries))
  ]

  kept-IsAgentProcess :
      (keep : ProcessInfo → Bool) (ps : List ProcessInfo)
      → All IsAgentProcess ps
      → All IsAgentProcess (select keep ps)
  kept-IsAgentProcess keep [] h = h
  kept-IsAgentProcess keep (p ∷ ps) (h, hs) = elim (Bool-cases (keep p)) [
    | inl e ↦ rw e (h, kept-IsAgentProcess keep ps hs)
    | inr e ↦ rw e (kept-IsAgentProcess keep ps hs)
  ]

  with_session_info-IsAgentProcess :
      (p : ProcessInfo) → IsAgentProcess p → IsAgentProcess (with_session_info sys p)
  unfolding with_session_info
  with_session_info-IsAgentProcess p h = elim (Bool-cases (p.provider =s "claude")) [
    | inl e ↦ rw e (same_process _ _)
    | inr e ↦ rw e (elim (Bool-cases (p.provider =s "opencode")) [
      | inl f ↦ rw f (same_process _ _)
      | inr f ↦ rw f (elim (Bool-cases (p.provider =s "hermes")) [
        | inl g ↦ rw g (same_process _ _)
        | inr g ↦ rw g (elim (Bool-cases (p.provider =s "codex")) [
          | inl k ↦ rw k (same_process _ _)
          | inr k ↦ rw k h
        ])
      ])
    ])
  ]
    where
      same_process :
          (id file : Bytes) → IsAgentProcess (record p { session_id = id; session_file = file })
      same_process id file = record {
        known = h.known;
        provided = h.provided;
        no_subagent = h.no_subagent;
        parent = h.parent;
        not_managed = h.not_managed;
      }

  all_with_info-IsAgentProcess :
      (ps : List ProcessInfo) → All IsAgentProcess ps → All IsAgentProcess (all_with_info sys ps)
  all_with_info-IsAgentProcess [] h = h
  all_with_info-IsAgentProcess (p ∷ ps) (h, hs) =
      (with_session_info-IsAgentProcess p h, all_with_info-IsAgentProcess ps hs)

  finished_sound :
      (o : Option (List ProcessInfo)) (ps : List ProcessInfo)
      → AllGood o
      → finished sys o ≡ some (scanned ps)
      → All IsAgentProcess ps
  unfolding finalize_process_scan filter_parent_agents
  finished_sound none ps g h = cc
  finished_sound (some found) ps g h =
      let e : finalize_process_scan sys found ≡ ps = cc (h) in
      subst (λ qs. All IsAgentProcess qs) e
        (all_with_info-IsAgentProcess (filter_parent_agents found)
          (kept-IsAgentProcess (λ p. not (has_ai_agent_ancestor p found)) found g))

  -- Every process that a scan of /proc reports is an agent of its own: its provider is the one that its
  -- command line shows and is not empty, it is not a run of a claude subagent, its parent is the one
  -- that its status shows, and the file that this parent runs, where it can be read, is not agentd.
  pub scan_linux-IsAgentProcess :
      (ps : List ProcessInfo) → scan_linux sys ≡ some (scanned ps) → All IsAgentProcess ps
  unfolding scan_linux
  scan_linux-IsAgentProcess ps h = elim (Option-cases sys.entries) [
    | inl e ↦ cc (rw (e, scan_linux) at h)
    | inr (entries, e) ↦
        finished_sound (scan_entries sys entries) ps (scan_entries-AllGood entries)
          (rw (e, scan_linux) at h)
  ]
