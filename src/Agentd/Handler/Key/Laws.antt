-- ===== src/Agentd/Handler/Key/Laws.antt =====
-- Which key presses come back to the client.
use agnet.Common.{
  ℕ, zero, suc, ◌*◌, ◌≤◌, ◌<◌, ◌≡◌, ◌≢◌, refl, ap, ◌∙◌, arith, Bool, true, false, Option, none,
  some, List, [], ◌∷◌, String, length, length-append, map, inl, inr, Option-cases,
}
use agnet.Common.Text.{Bytes, ◌=b◌}
use agnet.Common.Map.{lookup}
use agnet.Agentd.Tmux.{Call, Reply, Ending, returned, running}
use agnet.Agentd.Tmux.Pieces.{any, is_stuck, as_typed}
use agnet.Agentd.Tmux.Literal.{Delivered}
use agnet.Agentd.Tmux.Input.{any-append, send_tmux_input_from, send_tmux_input_hangs}
use agnet.Agentd.Agent.{Agent, to_process}
use agnet.Agentd.Agent.Laws.{TakesTmux, write_input-tmux, write_input_elim}
use agnet.Agentd.Hub.{Env, Hub, Wrote, wrote, failed, hung, ended, outcome, type_into}
use agnet.Agentd.Handler.{no_resp}
use agnet.Agentd.Handler.Key.{
  ConversationKeyParams, key_to_bytes, key_repeat, repeated, key_written, conversation_key,
}

-- A key is sent between 1 and 32 times, whatever the request says.
pub key_repeat_bounds : (r : Option ℕ) → (1 ≤ key_repeat r) × (key_repeat r ≤ 32)
unfolding key_repeat
key_repeat_bounds none = omega arith
key_repeat_bounds (some n) = ground arith

any-repeated :
    (p : ℕ → Bool) (s : Bytes) (n : ℕ) → any p s ≡ true → any p (repeated s (suc n)) ≡ true
any-repeated p s n h = ground (arith, any-append p s (repeated s n))

none-repeated : (p : ℕ → Bool) (s : Bytes) (n : ℕ) → any p s ≡ false → any p (repeated s n) ≡ false
none-repeated p s zero h = refl
none-repeated p s (suc n) h = ground (arith, any-append p s (repeated s n), none-repeated p s n h)

length-repeated : (s : Bytes) (n : ℕ) → length (repeated s n) ≡ n * length s
length-repeated s zero = omega arith
length-repeated s (suc n) = grind (arith, length-append s (repeated s n), length-repeated s n)

key_to_bytes_size : (key : Bytes) {s : Bytes} → key_to_bytes key ≡ some s → length s ≤ 3
unfolding key_to_bytes
key_to_bytes_size key h = ground arith

any-key_repeat :
    (p : ℕ → Bool) (s : Bytes) (r : Option ℕ)
    → any p s ≡ true
    → any p (repeated s (key_repeat r)) ≡ true
any-key_repeat p s r h = go (key_repeat r) (key_repeat_bounds r).0
  where
    go : (n : ℕ) → 1 ≤ n → any p (repeated s n) ≡ true
    go zero le = absurd (omega arith)
    go (suc n) le = any-repeated p s n h

-- The handler's answer is that of the write.
key_written-hung :
    (env : Env) (hub : Hub) (p : ConversationKeyParams) (w : Wrote)
    → w ≡ hung
    → (key_written env hub p w).1 ≡ no_resp
unfolding key_written
key_written-hung env hub p w e = rw e

key_written-answers :
    (env : Env) (hub : Hub) (p : ConversationKeyParams) (w : Wrote)
    → w ≢ hung
    → (key_written env hub p w).1 ≢ no_resp
unfolding key_written
key_written-answers env hub p wrote ne = λ e. cc
key_written-answers env hub p (failed e) ne = λ e'. cc
key_written-answers env hub p hung ne = absurd (ne refl)

key_to_bytes-ne : (key seq : Bytes) → key_to_bytes key ≡ some seq → (key =b []) ≡ false
unfolding key_to_bytes
key_to_bytes-ne [] seq h = cc
key_to_bytes-ne (b ∷ key) seq h = refl

-- What the handler does with a known key of a known agent.
conversation_key_sent :
    (env : Env) (hub : Hub) (p : ConversationKeyParams) (ag : Agent) (seq : Bytes)
    → key_to_bytes p.key ≡ some seq
    → lookup p.agent_id hub.agents ≡ some ag
    → let (hub', w) = type_into env hub p.agent_id ag (repeated seq (key_repeat p.repeat)) in
      conversation_key env hub p ≡ key_written env hub' p w
unfolding conversation_key
conversation_key_sent env hub p ag seq k found =
    rw (key_to_bytes-ne p.key seq k, k, found, conversation_key)

type_into-hung :
    (env : Env) (hub : Hub) (id : String) (ag : Agent) (input : Bytes)
    → any is_stuck input ≡ true
    → ag.process ≡ none
    → TakesTmux ag
    → ((made : List Call) (c : Call) → env.outside.send_keys ag.tmux_target made c ≡ none)
    → (type_into env hub id ag input).1 ≡ hung
unfolding type_into
type_into-hung env hub id ag input stuck idle takes works =
    ap outcome (write_input-tmux env.outside ag input idle takes)
    ∙ ap ended (
        send_tmux_input_hangs (env.outside.send_keys ag.tmux_target) env.outside.rounds [] input
          works stuck)

-- A key with a control byte that no case of `sendTmuxInput` names, pressed for an agent that has no
-- process and a tmux pane that takes input, while `tmux` accepts every call: the handler does not
-- answer, however many rounds the loop is watched for.
pub conversation_key-hangs :
    (env : Env) (hub : Hub) (p : ConversationKeyParams) (ag : Agent) (seq : Bytes)
    → key_to_bytes p.key ≡ some seq
    → any is_stuck seq ≡ true
    → lookup p.agent_id hub.agents ≡ some ag
    → ag.process ≡ none
    → TakesTmux ag
    → ((made : List Call) (c : Call) → env.outside.send_keys ag.tmux_target made c ≡ none)
    → (conversation_key env hub p).1 ≡ no_resp
conversation_key-hangs env hub p ag seq k stuck found idle takes works =
    let input = repeated seq (key_repeat p.repeat) in
    rw (conversation_key_sent env hub p ag seq k found) (
      key_written-hung env (type_into env hub p.agent_id ag input).0 p
        (type_into env hub p.agent_id ag input).1
        (type_into-hung env hub p.agent_id ag input (any-key_repeat is_stuck seq p.repeat stuck)
          idle takes works))

Delivered-ends :
    (reply : Reply) (want : Bytes) (calls : List Call) (e : Ending)
    → Delivered reply want calls e
    → ended e ≢ hung
Delivered-ends reply want calls (returned none) d = λ h. cc
Delivered-ends reply want calls (returned (some e)) d = λ h. cc
Delivered-ends reply want calls running d = absurd d

type_into-ends :
    (env : Env) (hub : Hub) (id : String) (ag : Agent) (input : Bytes)
    → any is_stuck input ≡ false
    → length input < env.outside.rounds
    → (type_into env hub id ag input).1 ≢ hung
unfolding type_into
type_into-ends env hub id ag input ok long =
    write_input_elim (λ r. outcome r ≢ hung) env.outside ag input process_ends
      (Delivered-ends (env.outside.send_keys ag.tmux_target) (map as_typed input) _ _ (
        send_tmux_input_from (env.outside.send_keys ag.tmux_target) env.outside.rounds [] input
          (map as_typed input) long ok refl tt))
      (λ e h. cc)
  where
    process_ends : (p : ℕ) (r : Option String) → outcome (to_process p r) ≢ hung
    process_ends p none = λ h. cc
    process_ends p (some e) = λ h. cc

-- A key with no such byte: the loop being watched for more than 96 rounds, the handler answers,
-- whatever the agent is and whatever `tmux` replies.
pub conversation_key-answers :
    (env : Env) (hub : Hub) (p : ConversationKeyParams) (seq : Bytes)
    → key_to_bytes p.key ≡ some seq
    → any is_stuck seq ≡ false
    → 96 < env.outside.rounds
    → (conversation_key env hub p).1 ≢ no_resp
unfolding conversation_key
conversation_key-answers env hub p seq k ok long =
    elim (Option-cases (lookup p.agent_id hub.agents)) [
      | inl missing ↦ rw (key_to_bytes-ne p.key seq k, k, missing, conversation_key) (λ h. cc)
      | inr (ag, found) ↦
          let input = repeated seq (key_repeat p.repeat) in
          rw (conversation_key_sent env hub p ag seq k found) (
            key_written-answers env (type_into env hub p.agent_id ag input).0 p
              (type_into env hub p.agent_id ag input).1
              (type_into-ends env hub p.agent_id ag input
                (none-repeated is_stuck seq (key_repeat p.repeat) ok)
                (grind (
                  arith,
                  length-repeated seq (key_repeat p.repeat),
                  key_to_bytes_size p.key k,
                  key_repeat_bounds p.repeat,
                ))))
    ]
