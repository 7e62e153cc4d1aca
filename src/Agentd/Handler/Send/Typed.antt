-- ===== src/Agentd/Handler/Send/Typed.antt =====
-- What handleSendTmux is to type for a message.
use agnet.Common.{
  ◌≡◌, refl, ap, ◌∙◌, Bool, true, false, ◌&&◌, not, List, [], ◌∷◌, ◌++◌, append_assoc, String,
  if◌then◌else◌, Bool-cases, inl, inr, All, arith,
}
use mathlib.Core.Path.{subst}
use agnet.Common.Text.{Bytes, bytes, ◌=s◌, is_empty, eq_iff}
use agnet.Agentd.Agent.{Route, write_input}
use agnet.Agentd.Hub.{Env, outcome, wrote}
use agnet.Agentd.Handler.Send.{
  SendContext, joined, format_tmux_message_with_images, tmux_input, trim_newline, is_hermes,
  has_images,
}

abbrev line_of : List String → Bytes
line_of [] = []
line_of (w ∷ []) = bytes w
line_of (w ∷ v ∷ ws) = bytes w ++ (b' ' ∷ line_of (v ∷ ws))

abbrev unless_empty : String → List String → List String
unless_empty w ws = if is_empty w then ws else w ∷ ws

-- What the agent is asked: the message, and, but for Hermes, the paths of its images, with a blank
-- between any two of these and no blank alone.
abbrev pub sentence : SendContext → Bytes
sentence ctx =
    if ctx.ag.provider =s "hermes"
    then bytes ctx.message
    else line_of (unless_empty ctx.message ctx.image_paths)

abbrev pub written : Env → SendContext → Bytes → String × Route
written env ctx s = (ctx.agent_id, write_input env.outside ctx.ag s)

-- The writes that make up the whole message, newest first: to Codex the sentence and then the Enter
-- key, to the others the sentence with its newline, and a raw sentence alone.
abbrev pub whole : Env → SendContext → List (String × Route)
whole env ctx =
    if ctx.raw
    then written env ctx (sentence ctx) ∷ []
    else if ctx.ag.provider =s "codex"
    then written env ctx (0x0D ∷ []) ∷ written env ctx (sentence ctx) ∷ []
    else written env ctx (sentence ctx ++ (0x0A ∷ [])) ∷ []

-- The agent took the write.
abbrev pub IsAccepted : String × Route → Type 0
IsAccepted (id, route) = outcome route ≡ wrote

joined_lem : (ws : List String) → joined ws ≡ line_of ws
joined_lem [] = refl
joined_lem (w ∷ []) = refl
joined_lem (w ∷ v ∷ ws) = ap (λ s. bytes w ++ (b' ' ∷ s)) (joined_lem (v ∷ ws))

bytes-empty : (s : String) → is_empty s ≡ true → bytes s ≡ []
bytes-empty s e = ap bytes ((eq_iff s "").0 e)

format_lem :
    (message : String) (ps : List String)
    → format_tmux_message_with_images message ps ≡ line_of (unless_empty message ps)
unfolding format_tmux_message_with_images
format_lem message [] = elim (Bool-cases (is_empty message)) [
  | inl e ↦ rw (e, bytes-empty message e) refl
  | inr e ↦ rw e refl
]
format_lem message (p ∷ ps) = elim (Bool-cases (is_empty message)) [
  | inl e ↦ rw (e, bytes-empty message e) (joined_lem (p ∷ ps))
  | inr e ↦ rw e (
      append_assoc (bytes message) (b' ' ∷ []) (joined (p ∷ ps))
      ∙ ap (λ s. bytes message ++ (b' ' ∷ s)) (joined_lem (p ∷ ps)))
]

-- The text that the code puts together.
abbrev prompt : SendContext → Bytes
prompt ctx =
    if not (is_hermes ctx) && has_images ctx.image_paths
    then format_tmux_message_with_images ctx.message ctx.image_paths
    else bytes ctx.message

with_paths :
    (message : String) (ps : List String)
    → (if has_images ps then format_tmux_message_with_images message ps else bytes message)
      ≡ line_of (unless_empty message ps)
unfolding format_tmux_message_with_images
with_paths message [] = format_lem message []
with_paths message (p ∷ ps) = format_lem message (p ∷ ps)

prompt_lem : (ctx : SendContext) → prompt ctx ≡ sentence ctx
prompt_lem ctx = elim (Bool-cases (is_hermes ctx)) [
  | inl e ↦ rw e refl
  | inr e ↦ rw e (with_paths ctx.message ctx.image_paths)
]

trim_newline_lem : (s : Bytes) → trim_newline (s ++ (0x0A ∷ [])) ≡ s
trim_newline_lem [] = refl
trim_newline_lem (b ∷ []) = refl
trim_newline_lem (b ∷ c ∷ s) = ap (◌∷◌ b) (trim_newline_lem (c ∷ s))

input_lem :
    (ctx : SendContext)
    → tmux_input ctx ≡ (if ctx.raw then sentence ctx else sentence ctx ++ (0x0A ∷ []))
unfolding tmux_input
input_lem ctx = ap (λ s. if ctx.raw then s else s ++ (0x0A ∷ [])) (prompt_lem ctx)

and_left : (a b : Bool) → (a && b) ≡ true → a ≡ true
and_left true b h = refl
and_left false b h = h

not_raw : (r c : Bool) → (c && not r) ≡ true → r ≡ false
not_raw r c h = ground arith

not_codex : (r c : Bool) → r ≡ false → (c && not r) ≡ false → c ≡ false
not_codex r c e h = ground arith

unless_raw :
    (ctx : SendContext)
    → ctx.raw ≡ false
    → (if ctx.raw then sentence ctx else sentence ctx ++ (0x0A ∷ [])) ≡ sentence ctx ++ (0x0A ∷ [])
unless_raw ctx r = rw r refl

pub whole_codex :
    (env : Env) (ctx : SendContext)
    → (ctx.ag.provider =s "codex" && not ctx.raw) ≡ true
    → written env ctx (0x0D ∷ []) ∷ written env ctx (trim_newline (tmux_input ctx)) ∷ []
      ≡ whole env ctx
whole_codex env ctx e =
    let codex = and_left (ctx.ag.provider =s "codex") (not ctx.raw) e in
    let wrapped = not_raw ctx.raw (ctx.ag.provider =s "codex") e in
    let text : trim_newline (tmux_input ctx) ≡ sentence ctx =
      ap trim_newline (input_lem ctx ∙ unless_raw ctx wrapped) ∙ trim_newline_lem (sentence ctx) in
    ap (λ s. written env ctx (0x0D ∷ []) ∷ written env ctx s ∷ []) text ∙ rw (wrapped, codex) refl

pub whole_other :
    (env : Env) (ctx : SendContext)
    → (ctx.ag.provider =s "codex" && not ctx.raw) ≡ false
    → written env ctx (tmux_input ctx) ∷ [] ≡ whole env ctx
whole_other env ctx e =
    ap (λ s. written env ctx s ∷ []) (input_lem ctx) ∙ elim (Bool-cases ctx.raw) [
      | inl r ↦ rw r refl
      | inr r ↦ rw (r, not_codex ctx.raw (ctx.ag.provider =s "codex") r e) refl
    ]

pub as_whole :
    (env : Env) (ctx : SendContext) (ws before : List (String × Route))
    {now : List (String × Route)}
    → ws ≡ whole env ctx
    → now ≡ ws ++ before
    → All IsAccepted ws
    → (now ≡ whole env ctx ++ before) × All IsAccepted (whole env ctx)
as_whole env ctx ws before e n a = (n ∙ ap (λ xs. xs ++ before) e, subst (All IsAccepted) e a)
