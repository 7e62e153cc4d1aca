-- ===== src/Agentd/Provider/Laws.antt =====
-- Which way a message is sent, for every provider.
use agnet.Common.{◌≡◌, ◌≢◌, ◌↔◌, sym, ◌∙◌, arith, Bool, true, false, String, Bool-cases, inl, inr}
use agnet.Common.Text.{◌=s◌, eq_iff}
use agnet.Common.Map.{lookup}
use agnet.Agentd.Provider.{
  SendPath, claude_pipe, claude_init, capabilities_for, decide_send_path, is_resume_cmd,
}

claude_ne_opencode : ◌≢◌ {A = String} "claude" "opencode"
claude_ne_opencode e = ground (arith, (eq_iff "claude" "opencode").1 e)

codex_ne_opencode : ◌≢◌ {A = String} "codex" "opencode"
codex_ne_opencode e = ground (arith, (eq_iff "codex" "opencode").1 e)

hermes_ne_opencode : ◌≢◌ {A = String} "hermes" "opencode"
hermes_ne_opencode e = ground (arith, (eq_iff "hermes" "opencode").1 e)

-- Among all names "opencode" alone is sent to by a resume command.
capabilities_for-resume_cmd :
    (name : String) → is_resume_cmd (capabilities_for name).send_mode ≡ (name =s "opencode")
unfolding capabilities_for lookup
capabilities_for-resume_cmd name = elim (Bool-cases ("claude" =s name)) [
  | inl c ↦ rw c (other (λ e. claude_ne_opencode ((eq_iff "claude" name).0 c ∙ e)))
  | inr c ↦ elim (Bool-cases ("codex" =s name)) [
    | inl x ↦ rw (c, x) (other (λ e. codex_ne_opencode ((eq_iff "codex" name).0 x ∙ e)))
    | inr x ↦ elim (Bool-cases ("opencode" =s name)) [
      | inl o ↦ rw (c, x, o) (ground (arith, eq_iff "opencode" name, eq_iff name "opencode"))
      | inr o ↦ elim (Bool-cases ("hermes" =s name)) [
        | inl h ↦ rw (c, x, o, h) (other (λ e. hermes_ne_opencode ((eq_iff "hermes" name).0 h ∙ e)))
        | inr h ↦ rw (c, x, o, h) (other (λ e. ground (arith, eq_iff "opencode" name)))
      ]
    ]
  ]
]
  where
    other : name ≢ "opencode" → false ≡ (name =s "opencode")
    other ne = ground (arith, eq_iff name "opencode")

-- With the capabilities that the program gives a provider, and for every name and attach mode:
-- tmux is taken by exactly the agents that are attached to it; a resume command by exactly the
-- other agents of "opencode"; a pipe by those of "claude" that have a process, a fresh start by
-- those that have none; and a terminal by all that are left.
pub decide_send_path_lem :
    (name mode : String) (has_process : Bool)
    → let path = decide_send_path name mode has_process (capabilities_for name) in
      ((path ≡ SendPath.tmux) ↔ (mode ≡ "tmux"))
      × ((path ≡ SendPath.resume_cmd) ↔ ((mode ≢ "tmux") × (name ≡ "opencode")))
      × ((path ≡ claude_pipe) ↔ ((mode ≢ "tmux") × (name ≡ "claude") × (has_process ≡ true)))
      × ((path ≡ claude_init) ↔ ((mode ≢ "tmux") × (name ≡ "claude") × (has_process ≡ false)))
      × ((path ≡ SendPath.pty) ↔ ((mode ≢ "tmux") × (name ≢ "claude") × (name ≢ "opencode")))
unfolding decide_send_path
decide_send_path_lem name mode has_process =
    let disjoint : name ≡ "claude" → name ≢ "opencode" = λ p q. claude_ne_opencode (sym p ∙ q) in
    ground (
      arith,
      disjoint,
      capabilities_for-resume_cmd name,
      eq_iff mode "tmux",
      eq_iff name "claude",
      eq_iff name "opencode",
    )
