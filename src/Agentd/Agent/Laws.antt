-- ===== src/Agentd/Agent/Laws.antt =====
-- Where an agent's input goes, and what its setters promise.
use agnet.Common.{
  ℕ, ◌≡◌, ◌≢◌, ◌↔◌, ◌⊎◌, refl, arith, true, false, ◌&&◌, not, Option, none, some, [], String, inl,
  inr, Bool-cases, Option-cases, if◌then◌else◌,
}
use agnet.Common.Text.{Bytes, is_empty, eq_iff, ◌=s◌, =b_iff, trim_space, to_lower}
use agnet.Agentd.Tmux.{send_tmux_input}
use agnet.Agentd.Agent.{
  Agent, Status, set_status, same_status, Outside, Route, to_process, to_tmux, refused, InputError,
  write_input, plain_read_only, use_original_terminal, not_running, Display, shown, display_failed,
  is_shell, validate_non_shell_pane, read_only,
}

-- The agent has a tmux pane that takes input.
abbrev pub TakesTmux : Agent → Type 0
TakesTmux a = (a.attach_mode ≡ "tmux") × (a.tmux_target ≢ "") × (a.attach_read_only ≡ false)

-- The reason given to a sender whose input is refused.
abbrev refusal : Agent → InputError
refusal a =
    if a.attach_mode =s "tmux" && not (is_empty a.tmux_target)
    then (if is_empty a.attach_read_only_reason
        then plain_read_only
        else read_only a.attach_read_only_reason)
    else elim a.watcher [
      | some w ↦
          if is_empty a.attach_read_only_reason
          then use_original_terminal
          else read_only a.attach_read_only_reason
      | none ↦ not_running
    ]

takes_or_not : (a : Agent) → TakesTmux a ⊎ (¬ TakesTmux a)
takes_or_not a = elim (Bool-cases (a.attach_mode =s "tmux")) [
  | inl m ↦ elim (Bool-cases (is_empty a.tmux_target)) [
    | inl e ↦ inr (λ t. t.1 ((eq_iff a.tmux_target "").0 e))
    | inr e ↦ elim (Bool-cases a.attach_read_only) [
      | inl r ↦ inr (λ t. ground (arith, t.2))
      | inr r ↦
          inl ((eq_iff a.attach_mode "tmux").0 m, (λ q. ground (arith, eq_iff a.tmux_target "")), r)
    ]
  ]
  | inr m ↦ inr (λ t. ground (arith, t.0, eq_iff a.attach_mode "tmux"))
]

pub write_input-tmux :
    (o : Outside) (a : Agent) (input : Bytes)
    → a.process ≡ none
    → TakesTmux a
    → write_input o a input
      ≡ to_tmux a.tmux_target (send_tmux_input (o.send_keys a.tmux_target) o.rounds [] input)
unfolding write_input
write_input-tmux o a input h t =
    ground (arith, eq_iff a.attach_mode "tmux", eq_iff a.tmux_target "")

-- Input goes to the agent's process if there is one; else, for a writable tmux attachment with a
-- target, through `sendTmuxInput` to that target; else it is refused. No other route exists.
pub write_input_route :
    (o : Outside) (a : Agent) (input : Bytes)
    → ((p : ℕ) × (a.process ≡ some p) × (write_input o a input ≡ to_process p (o.write p input)))
      ⊎ ((a.process ≡ none)
          × TakesTmux a
          × (write_input o a input
              ≡ to_tmux a.tmux_target
                  (send_tmux_input (o.send_keys a.tmux_target) o.rounds [] input)))
      ⊎ ((a.process ≡ none)
          × (¬ TakesTmux a)
          × ((e : InputError) × (write_input o a input ≡ refused e)))
unfolding write_input
write_input_route o a input = elim (Option-cases a.process) [
  | inr (p, h) ↦ inl (p, h, rw (h, write_input))
  | inl h ↦ elim (takes_or_not a) [
    | inl t ↦ inr (inl (h, t, write_input-tmux o a input h t))
    | inr f ↦ inr (
        inr (
          h,
          f,
          (refusal a, ground (arith, f, eq_iff a.attach_mode "tmux", eq_iff a.tmux_target "")),
        ))
  ]
]

same_status_iff : (s t : Status) → (same_status s t ≡ true) ↔ (s ≡ t)
same_status_iff s t = ((λ h. ground arith), (λ h. ground arith))

-- The agent takes the new status. The callback is called exactly if one is registered and the status
-- changes, and then with the agent's id, the old and the new status.
pub set_status-notifies :
    (a : Agent) (s : Status)
    → ((set_status a s).0.status ≡ s)
      × ((((set_status a s).1 ≡ none) × ((a.status ≡ s) ⊎ (a.on_status_change ≡ false)))
          ⊎ (((set_status a s).1
                ≡ some (record { agent_id = a.id; old_status = a.status; new_status = s }))
              × (a.status ≢ s)
              × (a.on_status_change ≡ true)))
unfolding set_status
set_status-notifies a s = elim (Bool-cases (same_status a.status s)) [
  | inl e ↦ (refl, inl (ground arith, inl ((same_status_iff a.status s).0 e)))
  | inr e ↦ elim (Bool-cases a.on_status_change) [
    | inl o ↦ (refl, inr (ground arith, (λ q. ground (arith, (same_status_iff a.status s).1 q)), o))
    | inr o ↦ (refl, inl (ground arith, inr o))
  ]
]

-- A pane passes exactly when its target is not empty and `tmux` shows a foreground command that is
-- not blank and, in lower case, not one of the known shells.
pub validate_non_shell_pane_lem :
    (display : String → Display) (target : String)
    → validate_non_shell_pane display target ≡ none ↔ (
        (target ≢ "")
        × ((text : Bytes) × (display target ≡ shown text)
            × (trim_space text ≢ [])
            × (is_shell (to_lower (trim_space text)) ≡ false)))
unfolding validate_non_shell_pane
validate_non_shell_pane_lem display target = (accepts, λ h. passes h.0 h.1.0 h.1.1 h.1.2 h.1.3)
  where
    accepts :
        validate_non_shell_pane display target ≡ none
        → (target ≢ "")
          × ((text : Bytes) × (display target ≡ shown text)
              × (trim_space text ≢ [])
              × (is_shell (to_lower (trim_space text)) ≡ false))
    accepts h = ((λ e. ground (arith, eq_iff target "")), shown_text (display target) refl)
      where
        shown_text :
            (d : Display)
            → display target ≡ d
            → (text : Bytes) × (display target ≡ shown text)
              × (trim_space text ≢ [])
              × (is_shell (to_lower (trim_space text)) ≡ false)
        shown_text (display_failed e) eq = absurd (ground (arith, eq_iff target ""))
        shown_text (shown text) eq = (
          text,
          eq,
          (λ blank. ground (arith, =b_iff (trim_space text) [], eq_iff target "")),
          ground (arith, eq_iff target ""),
        )

    passes :
        target ≢ ""
        → (text : Bytes) → display target ≡ shown text
        → trim_space text ≢ []
        → is_shell (to_lower (trim_space text)) ≡ false
        → validate_non_shell_pane display target ≡ none
    passes ne text e blank sh = ground (arith, eq_iff target "", =b_iff (trim_space text) [])

-- The routes that there are, for a proof about any of them.
pub write_input_elim {ℓ} :
    (P : Route → Type ℓ) (o : Outside) (a : Agent) (input : Bytes)
    → ((p : ℕ) (r : Option String) → P (to_process p r))
    → P (to_tmux a.tmux_target (send_tmux_input (o.send_keys a.tmux_target) o.rounds [] input))
    → ((e : InputError) → P (refused e))
    → P (write_input o a input)
unfolding write_input
write_input_elim P o a input pp pt pr = elim (Option-cases a.process) [
  | inr (p, e) ↦ rw (e, write_input) (pp p (o.write p input))
  | inl e ↦ elim (Bool-cases (a.attach_mode =s "tmux" && not (is_empty a.tmux_target))) [
    | inl tmux ↦ elim (Bool-cases a.attach_read_only) [
      | inl ro ↦ rw (e, tmux, ro, write_input) (pr _)
      | inr rw_ok ↦ rw (e, tmux, rw_ok, write_input) pt
    ]
    | inr other ↦ elim (Option-cases a.watcher) [
      | inl w ↦ rw (e, other, w, write_input) (pr _)
      | inr (w, has) ↦ rw (e, other, has, write_input) (pr _)
    ]
  ]
]
