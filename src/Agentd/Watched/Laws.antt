-- ===== src/Agentd/Watched/Laws.antt =====
-- What one event of a watcher does to the numbered history and to the clients.
use mathlib.Core.Path.{subst}
use agnet.Common.{
  ℕ, ◌≡◌, ◌≢◌, refl, sym, ap, ◌∙◌, ◌⊎◌, inl, inr, Bool, true, false, not, Option, none, some, ◌∷◌,
  String, if◌then◌else◌, Bool-cases,
}
use agnet.Common.Text.{◌=s◌, is_empty}
use agnet.Common.Json.{Fields, num, get, put, text_or_empty, get-put_self}
use agnet.Common.Map.{lookup, lookup-insert_self, lookup-insert_ne}
use agnet.Agentd.Agent.{Agent}
use agnet.Agentd.EventBuf
use agnet.Agentd.EventBuf.{EventBuffer, slot, replaced, push, next_seq}
use agnet.Agentd.EventBuf.Inv.{append_number}
use agnet.Agentd.EventBuf.Update.{IsNewest, with_slot, update_or_append_place}
use agnet.Agentd.Stream.{Context, Run, emit}
use agnet.Agentd.Stream.Laws.{
  buffer, buffer_in, IsQuiet, Recorded, unchanged_refl, unchanged_trans, after_unchanged,
  status_to-IsQuiet, emit-IsSaid, numbered_by,
}
use agnet.Agentd.Stream.Recorded.{holder}
use agnet.Agentd.Watched.{
  status_changed, tick_status, event_status, ConversationEvent, normalize_watcher_event,
  update_data, update_to, update, record_event, watcher_callback,
}

-- The newest event with the message's id, at the place `i`, takes the payload `d` and keeps its number;
-- no other event and no other buffer changes, and the callback gets the new text with that number.
pub record IsRewritten (cx : Context) (id session_id : String) (e : ConversationEvent)
    (b : EventBuffer) (d : Fields) (r r' : Run) : Type 0 where
  pub place : ℕ
  pub newest : IsNewest b (text_or_empty (get d "msg_id")) b.count place
  pub own :
      buffer_in r'.hub id
      ≡ some (with_slot b place (replaced (slot b place) (put d "seq" (num (slot b place).seq))))
  pub others : (k : String) → k ≢ id → buffer_in r'.hub k ≡ buffer_in r.hub k
  pub pushed : r'.pushes ≡ (
      if cx.on_output
      then (id, update_data id e session_id (slot b place).seq) ∷ r.pushes
      else r.pushes)

abbrev pub Watched :
    Context → String → String → ConversationEvent → EventBuffer → Run → Run → Type 0
Watched cx id session_id e b r r' =
    Recorded cx id b r r'
    ⊎ ((d : Fields) × (normalize_watcher_event cx.decoder e session_id ≡ some d)
        × IsRewritten cx id session_id e b d r r')

module _ (cx : Context) (id session_id : String) (e : ConversationEvent) where
  abbrev Kept : EventBuffer → Fields → Run → Run → Type 0
  Kept b d r r' = Recorded cx id b r r' ⊎ IsRewritten cx id session_id e b d r r'

  update_to_cases :
      (d : Fields) (r : Run) (ag : Agent) → Kept ag.buf d r (update_to cx id session_id e r ag d)
  unfolding update_to EventBuf.append
  update_to_cases d r ag = elim (update_or_append_place ag.buf (text_or_empty (get d "msg_id"))) [
    | inl all ↦
        let body = put d "seq" (num (push ag.buf d).1) in
        rw (all d) (
          rw (all body) (
            inl (
              inr (
                body,
                record {
                  own = ap buffer (
                      lookup-insert_self id (record ag { buf = (push ag.buf body).0 })
                        r.hub.agents);
                  others = λ k ne. ap buffer (
                      lookup-insert_ne id k (record ag { buf = (push ag.buf body).0 }) r.hub.agents
                        (λ q. ne (sym q)));
                  numbered =
                      get-put_self d "seq" (num (push ag.buf d).1)
                      ∙ ap (λ n. some (num n))
                          (append_number ag.buf d ∙ sym (append_number ag.buf body));
                  pushed = refl;
                },
              ))))
    | inr (i, new, all) ↦
        let body = put d "seq" (num (slot ag.buf i).seq) in
        let kept = with_slot ag.buf i (replaced (slot ag.buf i) body) in
        rw (all d) (
          rw (all body) (
            inr (record {
              place = i;
              newest = new;
              own = ap buffer (lookup-insert_self id (record ag { buf = kept }) r.hub.agents);
              others = λ k ne.
                  ap buffer (
                    lookup-insert_ne id k (record ag { buf = kept }) r.hub.agents
                      (λ q. ne (sym q)));
              pushed = refl;
            })))
  ]

  module _ (b : EventBuffer) where
    update-Kept :
        (d : Fields) (r : Run)
        → buffer_in r.hub id ≡ some b
        → Kept b d r (update cx id session_id e d r)
    unfolding update
    update-Kept d r held =
        let (ag, q, f) = holder (lookup id r.hub.agents) b held in
        rw (q, update)
          (subst (λ c. Kept c d r (update_to cx id session_id e r ag d)) f (update_to_cases d r ag))

    Kept-after : (d : Fields) (r s t : Run) → IsQuiet cx id b r s → Kept b d s t → Kept b d r t
    Kept-after d r s t q (inl (inl p)) = inl (inl (unchanged_trans cx id b q p))
    Kept-after d r s t q (inl (inr (x, p))) = inl (inr (x, after_unchanged cx id b q p))
    Kept-after d r s t q (inr p) = inr (record {
      place = p.place;
      newest = p.newest;
      own = p.own;
      others = λ k ne. p.others k ne ∙ q.same_buffers k;
      pushed =
          p.pushed
          ∙ ap
              (λ l.
                if cx.on_output
                then (id, update_data id e session_id (slot b p.place).seq) ∷ l
                else l)
              q.same_pushes;
    })

    emit-Kept : (d : Fields) (r : Run) → buffer_in r.hub id ≡ some b → Kept b d r (emit cx id d r)
    emit-Kept d r held =
        let (ag, q, f) = holder (lookup id r.hub.agents) b held in
        inl (inr (numbered_by cx id b b d, emit-IsSaid cx id b d r ag q f))

    status_changed-IsQuiet : (s : String) (r : Run) → IsQuiet cx id b r (status_changed id s r)
    status_changed-IsQuiet s r = elim (Bool-cases (s =s "working")) [
      | inl q ↦ rw q (status_to-IsQuiet cx id b id _ r)
      | inr q ↦ rw q (status_to-IsQuiet cx id b id _ r)
    ]

    tick_status-IsQuiet : (o : Option String) (r : Run) → IsQuiet cx id b r (tick_status id o r)
    tick_status-IsQuiet none r = unchanged_refl cx id b r
    tick_status-IsQuiet (some s) r = status_changed-IsQuiet s r

    event_status-IsQuiet : (o : Option String) (r : Run) → IsQuiet cx id b r (event_status id e o r)
    event_status-IsQuiet none r = elim (Bool-cases (not (is_empty e.tool_use_name))) [
      | inl q ↦ rw q (status_to-IsQuiet cx id b id _ r)
      | inr q ↦ rw q (unchanged_refl cx id b r)
    ]
    event_status-IsQuiet (some s) r = status_changed-IsQuiet s r

    record_event-Watched :
        (o : Option Fields) (r : Run)
        → normalize_watcher_event cx.decoder e session_id ≡ o
        → buffer_in r.hub id ≡ some b
        → Watched cx id session_id e b r (record_event cx id session_id e o r)
    unfolding record_event
    record_event-Watched none r n held = inl (inl (unchanged_refl cx id b r))
    record_event-Watched (some d) r n held =
        let q = event_status-IsQuiet e.status_change r in
        let s = event_status id e e.status_change r in
        let still : buffer_in s.hub id ≡ some b = q.same_buffers id ∙ held in
        tied (
          Kept-after d r s _ q (elim (Bool-cases (is_empty e.msg_id)) [
            | inl m ↦ rw m (emit-Kept d s still)
            | inr m ↦ rw m (update-Kept d s still)
          ]))
      where
        tied : {t : Run} → Kept b d r t → Watched cx id session_id e b r t
        tied (inl p) = inl p
        tied (inr p) = inr (d, n, p)

-- An event that a watcher reads, for an agent that is known, does one of three things. No buffer
-- changes and the output callback is not called. Or one event is appended to the agent's buffer, and
-- the output callback, where there is one, gets it with the number it has there. Or, where the event's
-- payload has the id of an event that is held, the newest such event takes the payload and keeps its
-- number, and the output callback gets the new text with that number. No other buffer changes. Of the
-- status callback nothing is said.
pub watcher_callback-Watched :
    (cx : Context) (id session_id : String) (e : ConversationEvent) (b : EventBuffer) (r : Run)
    → buffer_in r.hub id ≡ some b
    → Watched cx id session_id e b r (watcher_callback cx id session_id e r)
unfolding watcher_callback
watcher_callback-Watched cx id session_id e b r held =
    chosen _ _ _ (inl (inl (tick_status-IsQuiet cx id session_id e b e.status_change r))) (
      chosen _ _ _ (inl (inl (unchanged_refl cx id b r)))
        (record_event-Watched cx id session_id e b _ r refl held))
  where
    chosen :
        (t : Bool) (p q : Run)
        → Watched cx id session_id e b r p
        → Watched cx id session_id e b r q
        → Watched cx id session_id e b r (if t then p else q)
    chosen true p q u v = u
    chosen false p q u v = v
