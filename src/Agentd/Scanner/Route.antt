-- ===== src/Agentd/Scanner/Route.antt =====
-- When the attached process takes input (agentd/internal/scanner/scanner.go, AttachReadOnly).
use agnet.Common.{
  ◌≡◌, refl, sym, ◌∙◌, ◌≢◌, ◌↔◌, ◌⊎◌, inl, inr, String, true, false, [], arith, Bool-cases,
}
use agnet.Common.Text.{Bytes, ◌=s◌, =b_iff, eq_iff}
use agnet.Agentd.Scanner.{
  ProcessInfo, attach_read_only, attach_read_only_reason, no_bytes, attach_mode, attach_mode_tmux,
}

not_claude : (s : String) → (s =s "opencode") ≡ true → (s =s "claude") ≡ false
not_claude s o = elim (Bool-cases (s =s "claude")) [
  | inl c ↦
      absurd (opencode_is_not_claude (sym ((eq_iff s "opencode").0 o) ∙ (eq_iff s "claude").0 c))
  | inr c ↦ c
]
  where
    opencode_is_not_claude : ◌≢◌ {A = String} "opencode" "claude"
    opencode_is_not_claude e = ground (arith, (eq_iff "opencode" "claude").1 e)

module _ (p : ProcessInfo) (no_pane : no_bytes p.tmux_target ≡ true) where
  read_only_opencode :
      (p.provider =s "opencode") ≡ true → attach_read_only p ≡ no_bytes p.session_id
  unfolding attach_read_only attach_read_only_reason
  read_only_opencode o =
      rw (no_pane, not_claude p.provider o, o)
        (elim (Bool-cases (no_bytes p.session_id)) [ inl e ↦ rw e refl | inr e ↦ rw e refl ])

  read_only_other : (p.provider =s "opencode") ≡ false → attach_read_only p ≡ true
  unfolding attach_read_only attach_read_only_reason
  read_only_other o =
      rw (no_pane, o)
        (elim (Bool-cases (p.provider =s "claude")) [
          | inl c ↦
              rw c
                (elim (Bool-cases (no_bytes p.terminal)) [ inl t ↦ rw t refl | inr t ↦ rw t refl ])
          | inr c ↦ rw c (elim (Bool-cases (p.provider =s "codex")) [
            | inl x ↦ rw x refl
            | inr x ↦ rw x (elim (Bool-cases (p.provider =s "hermes")) [
              | inl y ↦ rw y refl
              | inr y ↦ rw y refl
            ])
          ])
        ])

not_read_only : (p : ProcessInfo) → no_bytes p.tmux_target ≡ false → attach_read_only p ≡ false
unfolding attach_read_only attach_read_only_reason
not_read_only p t = rw t refl

no_bytes_iff : (s : Bytes) → (no_bytes s ≡ false) ↔ (s ≢ [])
no_bytes_iff s = (
  (λ h e. cc (h, (=b_iff s []).1 e)),
  (λ h. elim (Bool-cases (no_bytes s)) [ inl e ↦ absurd (h ((=b_iff s []).0 e)) | inr e ↦ e ]),
)

mode_iff : (p : ProcessInfo) → (attach_mode p ≡ attach_mode_tmux) ↔ (p.tmux_target ≢ [])
unfolding attach_mode
mode_iff p = elim (Bool-cases (no_bytes p.tmux_target)) [
  | inl t ↦ rw t ((λ h. cc), (λ n. absurd (n ((=b_iff p.tmux_target []).0 t))))
  | inr t ↦ rw t ((λ _. (no_bytes_iff p.tmux_target).0 t), (λ _. refl))
]

-- A process is attached with input, and not to look on only, exactly if its pane is known or it is an
-- opencode process of a known session; and the mode is `tmux` exactly if its pane is known.
pub attach_read_only_iff :
    (p : ProcessInfo)
    → ((attach_read_only p ≡ false)
        ↔ ((p.tmux_target ≢ []) ⊎ ((p.provider ≡ "opencode") × (p.session_id ≢ []))))
      × ((attach_mode p ≡ attach_mode_tmux) ↔ (p.tmux_target ≢ []))
attach_read_only_iff p = (
  elim (Bool-cases (no_bytes p.tmux_target)) [
    | inr t ↦ ((λ _. inl ((no_bytes_iff p.tmux_target).0 t)), (λ _. not_read_only p t))
    | inl t ↦ elim (Bool-cases (p.provider =s "opencode")) [
      | inl o ↦ (
        (λ h. inr (
          (eq_iff p.provider "opencode").0 o,
          (no_bytes_iff p.session_id).0 (sym (read_only_opencode p t o) ∙ h),
        )),
        (λ h. read_only_opencode p t o ∙ (no_bytes_iff p.session_id).1 (session_known t h)),
      )
      | inr o ↦ ((λ h. cc (h, read_only_other p t o)), (λ h. absurd (not_opencode t o h)))
    ]
  ],
  mode_iff p,
)
  where
    session_known :
        no_bytes p.tmux_target ≡ true
        → (p.tmux_target ≢ []) ⊎ ((p.provider ≡ "opencode") × (p.session_id ≢ []))
        → p.session_id ≢ []
    session_known t (inl n) = absurd (n ((=b_iff p.tmux_target []).0 t))
    session_known t (inr (o, n)) = n

    not_opencode :
        no_bytes p.tmux_target ≡ true
        → (p.provider =s "opencode") ≡ false
        → (p.tmux_target ≢ []) ⊎ ((p.provider ≡ "opencode") × (p.session_id ≢ []))
        → ⊥
    not_opencode t o (inl n) = absurd (n ((=b_iff p.tmux_target []).0 t))
    not_opencode t o (inr (e, n)) = cc (o, (eq_iff p.provider "opencode").1 e)
