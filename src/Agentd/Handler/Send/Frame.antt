-- ===== src/Agentd/Handler/Send/Frame.antt =====
-- What the writes of `handleSendTmux` change, and what they leave as it is.
use agnet.Common.{
  ◌≡◌, refl, ◌&&◌, not, [], ◌∷◌, ◌++◌, String, All, if◌then◌else◌, Bool-cases, Option-cases, inl,
  inr,
}
use agnet.Common.Text.{Bytes, ◌=s◌}
use agnet.Common.Json.{text, field, end}
use agnet.Common.Map.{lookup}
use agnet.Agentd.Agent.{Agent, begin_send, end_send}
use agnet.Agentd.Hub.{Env, Hub, Wrote, wrote, failed, hung, type_into, update_agent}
use agnet.Agentd.Handler.{Response, ok_resp}
use agnet.Agentd.Handler.Send.Typed.{IsAccepted, written, whole, whole_codex, whole_other, as_whole}
use agnet.Agentd.Handler.Send.{
  SendContext, tmux_input, trim_newline, then_write, type_prompt, is_hermes, tmux_written,
}

-- What stays as it is while an agent is typed into or updated.
pub record SameBut (h hub : Hub) : Type 0 where
  pub store : h.store ≡ hub.store
  pub broadcasts : h.broadcasts ≡ hub.broadcasts
  pub changes : h.changes ≡ hub.changes

same_but : (hub : Hub) → SameBut hub hub
same_but hub = record { store = refl; broadcasts = refl; changes = refl }

pub update_agent-Same :
    (hub : Hub) (id : String) (f : Agent → Agent)
    → SameBut (update_agent hub id f) hub × ((update_agent hub id f).inputs ≡ hub.inputs)
update_agent-Same hub id f = elim (Option-cases (lookup id hub.agents)) [
  | inl e ↦ rw (e, update_agent) (same_but hub, refl)
  | inr (ag, e) ↦
      rw (e, update_agent) (record { store = refl; broadcasts = refl; changes = refl }, refl)
]

then_write-Same :
    (env : Env) (h : Hub) (ctx : SendContext) (w : Wrote) (s : Bytes)
    → let r = then_write h w (λ h. type_into env h ctx.agent_id ctx.ag s) in
      SameBut r.0 h
      × (r.1 ≡ wrote
          → (r.0.inputs ≡ written env ctx s ∷ h.inputs)
            × (w ≡ wrote)
            × IsAccepted (written env ctx s))
unfolding then_write type_into
then_write-Same env h ctx wrote s =
    (record { store = refl; broadcasts = refl; changes = refl }, λ e. (refl, refl, e))
then_write-Same env h ctx (failed x) s =
    (record { store = refl; broadcasts = refl; changes = refl }, λ e. cc)
then_write-Same env h ctx hung s =
    (record { store = refl; broadcasts = refl; changes = refl }, λ e. cc)

pub type_prompt-Same :
    (env : Env) (hub : Hub) (ctx : SendContext)
    → SameBut (type_prompt env hub ctx).0 hub
      × ((type_prompt env hub ctx).1 ≡ wrote
          → ((type_prompt env hub ctx).0.inputs ≡ whole env ctx ++ hub.inputs)
            × All IsAccepted (whole env ctx))
unfolding type_prompt type_into
type_prompt-Same env hub ctx = elim (Bool-cases (ctx.ag.provider =s "codex" && not ctx.raw)) [
  | inl e ↦
      let text = trim_newline (tmux_input ctx) in
      let first = type_into env hub ctx.agent_id ctx.ag text in
      let t = then_write-Same env first.0 ctx first.1 (0x0D ∷ []) in
      rw e (
        record { store = t.0.store; broadcasts = t.0.broadcasts; changes = t.0.changes },
        λ w.
            let u = t.1 w in
            as_whole env ctx (written env ctx (0x0D ∷ []) ∷ written env ctx text ∷ []) hub.inputs
              (whole_codex env ctx e) u.0 (u.2, (u.1, tt)),
      )
  | inr e ↦ rw e (
    record { store = refl; broadcasts = refl; changes = refl },
    λ w.
        as_whole env ctx (written env ctx (tmux_input ctx) ∷ []) hub.inputs (whole_other env ctx e)
          refl (w, tt),
  )
]

abbrev pub done : SendContext → Response
done ctx = ok_resp (field "id" (text ctx.agent_id) end)

ended_or :
    (hub : Hub) (ctx : SendContext)
    → let h = (if is_hermes ctx then update_agent hub ctx.agent_id end_send else hub) in
      SameBut h hub × (h.inputs ≡ hub.inputs)
ended_or hub ctx = elim (Bool-cases (is_hermes ctx)) [
  | inl e ↦ rw e (update_agent-Same hub ctx.agent_id end_send)
  | inr e ↦ rw e (same_but hub, refl)
]

pub begun_or :
    (hub : Hub) (ctx : SendContext)
    → let h = (if is_hermes ctx then update_agent hub ctx.agent_id begin_send else hub) in
      SameBut h hub × (h.inputs ≡ hub.inputs)
begun_or hub ctx = elim (Bool-cases (is_hermes ctx)) [
  | inl e ↦ rw e (update_agent-Same hub ctx.agent_id begin_send)
  | inr e ↦ rw e (same_but hub, refl)
]

pub tmux_written-Same :
    (hub : Hub) (ctx : SendContext) (w : Wrote)
    → SameBut (tmux_written hub ctx w).0 hub
      × ((tmux_written hub ctx w).0.inputs ≡ hub.inputs)
      × ((tmux_written hub ctx w).1 ≡ done ctx → w ≡ wrote)
unfolding tmux_written
tmux_written-Same hub ctx wrote = ((ended_or hub ctx).0, (ended_or hub ctx).1, λ e. refl)
tmux_written-Same hub ctx (failed x) = ((ended_or hub ctx).0, (ended_or hub ctx).1, λ e. cc)
tmux_written-Same hub ctx hung = (same_but hub, refl, λ e. cc)
