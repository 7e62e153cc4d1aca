-- ===== src/Agentd/Attach/Laws.antt =====
-- A session is attached once.
use agnet.Common.{
  ℕ, ◌≡◌, refl, sym, ap, ◌∙◌, inl, inr, arith, String, Bool, true, false, ◌&&◌, ◌||◌, not, List, [],
  ◌∷◌, ◌++◌, ◌==◌, if◌then◌else◌, Bool-cases, select, length,
}
use agnet.Common.Text.{Bytes, bytes, ◌=b◌, ◌=s◌, =b_iff}
use agnet.Agentd.Scanner.{ProcessInfo}
use agnet.Agentd.Attach.{
  is_candidate, has_session, classify_attach_candidate, is_hermes_gateway_run_process,
  is_hermes_interactive_process, key_of, holds, existing_sessions, attach_each,
  auto_attach_existing,
}

-- The name of a session: its provider, a bar, and its id.
abbrev pub label : String → Bytes → Bytes
label provider session = bytes provider ++ (b'|' ∷ session)

abbrev pub is_of : Bytes → ProcessInfo → Bool
is_of k info = not (info.session_id =b []) && label info.provider info.session_id =b k

abbrev pub is_loose : ProcessInfo → Bool
is_loose info = not (not (info.session_id =b []))

-- The process has an id, and if it is one of hermes, it is interactive and runs no gateway.
abbrev pub is_eligible : ProcessInfo → Bool
is_eligible info =
    not (info.pid == 0)
    && (not (info.provider =s "hermes")
        || (is_hermes_interactive_process info && not (is_hermes_gateway_run_process info)))

-- Some eligible process has the session.
abbrev pub offered : Bytes → List ProcessInfo → Bool
offered k [] = false
offered k (info ∷ procs) = (is_eligible info && is_of k info) || offered k procs

-- Some stored agent has the session.
abbrev pub stored : Bytes → List (String × Bytes) → Bool
stored k [] = false
stored k ((provider, session) ∷ rows) =
    (not (session =b []) && label provider session =b k) || stored k rows

holds-existing_sessions :
    (k : Bytes) (rows : List (String × Bytes)) → holds k (existing_sessions rows) ≡ stored k rows
unfolding existing_sessions
holds-existing_sessions k [] = refl
holds-existing_sessions k ((provider, session) ∷ rows) =
    ground (arith, holds-existing_sessions k rows)

is_candidate_lem : (info : ProcessInfo) → is_candidate info ≡ is_eligible info
unfolding classify_attach_candidate is_hermes_gateway_run_process
is_candidate_lem info = ground arith

-- Whether the session is tracked already.
abbrev tracked : Bytes → List Bytes → List Bytes → Bool
tracked k existing seen = holds k existing || holds k seen

module _ (k : Bytes) (existing : List Bytes) where
  abbrev count : List ProcessInfo → ℕ
  count procs = length (select (is_of k) procs)

  abbrev Once : List Bytes → List ProcessInfo → List ProcessInfo → Type 0
  Once seen procs given =
      count given ≡ (if offered k procs && not (tracked k existing seen) then 1 else 0)

  tracked_same :
      (seen : List Bytes) (info : ProcessInfo) (b : Bool)
      → (key_of info =b k) ≡ true
      → tracked (key_of info) existing seen ≡ b
      → tracked k existing seen ≡ b
  tracked_same seen info b q t =
      ap (λ j. tracked j existing seen) (sym ((=b_iff (key_of info) k).0 q)) ∙ t

  -- A candidate with a session that is not tracked is given to `Attach`.
  given_once :
      (seen : List Bytes) (info : ProcessInfo) (procs : List ProcessInfo)
      → is_eligible info ≡ true
      → has_session info ≡ true
      → tracked (key_of info) existing seen ≡ false
      → Once (key_of info ∷ seen) procs (attach_each existing (key_of info ∷ seen) procs)
      → Once seen (info ∷ procs) (info ∷ attach_each existing (key_of info ∷ seen) procs)
  given_once seen info procs c h t ih = elim (Bool-cases (key_of info =b k)) [
    | inl q ↦ let u = tracked_same seen info false q t in grind arith
    | inr q ↦ grind arith
  ]

  -- One that is tracked is not.
  passed_once :
      (seen : List Bytes) (info : ProcessInfo) (procs : List ProcessInfo)
      → is_eligible info ≡ true
      → has_session info ≡ true
      → tracked (key_of info) existing seen ≡ true
      → Once seen procs (attach_each existing seen procs)
      → Once seen (info ∷ procs) (attach_each existing seen procs)
  passed_once seen info procs c h t ih = elim (Bool-cases (key_of info =b k)) [
    | inl q ↦ let u = tracked_same seen info true q t in rw (u, c, h, q) (grind arith)
    | inr q ↦ rw (c, h, q) ih
  ]

  step :
      (seen : List Bytes) (info : ProcessInfo) (procs given : List ProcessInfo)
      → attach_each existing seen (info ∷ procs) ≡ given
      → Once seen (info ∷ procs) given
      → Once seen (info ∷ procs) (attach_each existing seen (info ∷ procs))
  step seen info procs given e o = ap count e ∙ o

  attach_each-once :
      (seen : List Bytes) (procs : List ProcessInfo)
      → Once seen procs (attach_each existing seen procs)
  unfolding attach_each
  attach_each-once seen [] = refl
  attach_each-once seen (info ∷ procs) = elim (Bool-cases (is_eligible info)) [
    | inr c ↦ rw (c, is_candidate_lem info ∙ c, attach_each) (attach_each-once seen procs)
    | inl c ↦ elim (Bool-cases (has_session info)) [
      | inr h ↦
          rw (c, is_candidate_lem info ∙ c, h, attach_each) (rw h (attach_each-once seen procs))
      | inl h ↦ elim (Bool-cases (tracked (key_of info) existing seen)) [
        | inl t ↦
            step seen info procs (attach_each existing seen procs)
              (rw (is_candidate_lem info ∙ c, h, t, attach_each) refl)
              (passed_once seen info procs c h t (attach_each-once seen procs))
        | inr t ↦
            step seen info procs (info ∷ attach_each existing (key_of info ∷ seen) procs)
              (rw (is_candidate_lem info ∙ c, h, t, attach_each) refl)
              (given_once seen info procs c h t (attach_each-once (key_of info ∷ seen) procs))
      ]
    ]
  ]

attach_each-loose :
    (existing seen : List Bytes) (procs : List ProcessInfo)
    → select is_loose (attach_each existing seen procs)
      ≡ select (λ info. is_eligible info && is_loose info) procs
unfolding attach_each
attach_each-loose existing seen [] = refl
attach_each-loose existing seen (info ∷ procs) = elim (Bool-cases (is_eligible info)) [
  | inr c ↦ rw (c, is_candidate_lem info ∙ c, attach_each) (attach_each-loose existing seen procs)
  | inl c ↦ elim (Bool-cases (has_session info)) [
    | inr h ↦
        rw (c, is_candidate_lem info ∙ c, h, attach_each)
          (rw h (ap (◌∷◌ info) (attach_each-loose existing seen procs)))
    | inl h ↦ elim (Bool-cases (tracked (key_of info) existing seen)) [
      | inl t ↦
          rw (c, is_candidate_lem info ∙ c, h, t, attach_each)
            (attach_each-loose existing seen procs)
      | inr t ↦
          rw (c, is_candidate_lem info ∙ c, h, t, attach_each)
            (rw h (attach_each-loose existing (key_of info ∷ seen) procs))
    ]
  ]
]

-- A process can be attached if it has an id and is no gateway daemon of hermes and no hermes process
-- without a terminal. Of the processes that a scan finds, `Attach` is called for exactly one of each
-- session that such a process has and no stored agent does, and for none of any other session; and for
-- every such process without a session, in the order of the scan.
pub auto_attach_existing_once :
    (rows : List (String × Bytes)) (procs : List ProcessInfo)
    → ((k : Bytes)
        → length (select (is_of k) (auto_attach_existing rows procs))
          ≡ (if offered k procs && not (stored k rows) then 1 else 0))
      × (select is_loose (auto_attach_existing rows procs)
          ≡ select (λ info. is_eligible info && is_loose info) procs)
unfolding auto_attach_existing
auto_attach_existing_once rows procs = (
  (λ k. grind (
    arith,
    attach_each-once k (existing_sessions rows) [] procs,
    holds-existing_sessions k rows,
  )),
  attach_each-loose (existing_sessions rows) [] procs,
)
