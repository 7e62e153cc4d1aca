-- ===== src/Agentd/Stream/Laws.antt =====
-- What one event of the stream does to the numbered history and to the clients.
use agnet.Common.{
  ◌≡◌, refl, sym, ap, ◌∙◌, ◌≢◌, ◌⊎◌, inl, inr, Option, none, some, ◌∷◌, String, if◌then◌else◌,
  Bool-cases, Option-cases,
}
use agnet.Common.Text.{◌=s◌, eq_iff}
use agnet.Common.Json.{Fields, num, get, put, get-put_self}
use agnet.Common.Map.{Map, lookup, insert, lookup-insert, lookup-insert_self, lookup-insert_ne}
use agnet.Agentd.Agent.{Agent, Status, set_status, append_event}
use agnet.Agentd.EventBuf
use agnet.Agentd.EventBuf.{EventBuffer}
use agnet.Agentd.EventBuf.Inv.{append_number}
use agnet.Agentd.Hub.{Hub, stamped, update_agent}
use agnet.Agentd.Stream.{Context, Run, status_to, emit, emit_to}

abbrev pub buffer : Option Agent → Option EventBuffer
buffer none = none
buffer (some ag) = some ag.buf

abbrev pub buffer_in : Hub → String → Option EventBuffer
buffer_in hub k = buffer (lookup k hub.agents)

module _ (cx : Context) (id : String) (b : EventBuffer) where
  -- Nothing is appended and the output callback is not called; a status may change.
  pub record IsQuiet (r r' : Run) : Type 0 where
    pub same_buffers : (k : String) → buffer_in r'.hub k ≡ buffer_in r.hub k
    pub same_pushes : r'.pushes ≡ r.pushes

  -- One event is appended to the buffer of the agent, no other buffer changes, and the callback gets
  -- that very event, which holds the number it has in the buffer.
  pub record IsSaid (r r' : Run) (d : Fields) : Type 0 where
    pub own : buffer_in r'.hub id ≡ some (EventBuf.append b d).0
    pub others : (k : String) → k ≢ id → buffer_in r'.hub k ≡ buffer_in r.hub k
    pub numbered : get d "seq" ≡ some (num (EventBuf.append b d).1)
    pub pushed : r'.pushes ≡ (if cx.on_output then (id, d) ∷ r.pushes else r.pushes)

  abbrev pub Recorded : Run → Run → Type 0
  Recorded r r' = IsQuiet r r' ⊎ ((d : Fields) × IsSaid r r' d)

  pub unchanged_refl : (r : Run) → IsQuiet r r
  unchanged_refl r = record { same_buffers = λ k. refl; same_pushes = refl }

  pub unchanged_trans : {r s t : Run} → IsQuiet r s → IsQuiet s t → IsQuiet r t
  unchanged_trans p q = record {
    same_buffers = λ k. q.same_buffers k ∙ p.same_buffers k;
    same_pushes = q.same_pushes ∙ p.same_pushes;
  }

  pub then_unchanged : {r s t : Run} {d : Fields} → IsSaid r s d → IsQuiet s t → IsSaid r t d
  then_unchanged p q = record {
    own = q.same_buffers id ∙ p.own;
    others = λ k ne. q.same_buffers k ∙ p.others k ne;
    numbered = p.numbered;
    pushed = q.same_pushes ∙ p.pushed;
  }

  pub after_unchanged : {r s t : Run} {d : Fields} → IsQuiet r s → IsSaid s t d → IsSaid r t d
  after_unchanged {d = d} p q = record {
    own = q.own;
    others = λ k ne. q.others k ne ∙ p.same_buffers k;
    numbered = q.numbered;
    pushed = q.pushed ∙ ap (λ l. if cx.on_output then (id, d) ∷ l else l) p.same_pushes;
  }

  same_after_insert :
      (agents : Map Agent) (ag ag' : Agent) (k j : String)
      → lookup j agents ≡ some ag
      → ag'.buf ≡ ag.buf
      → buffer (lookup k (insert j ag' agents)) ≡ buffer (lookup k agents)
  same_after_insert agents ag ag' k j e same = elim (Bool-cases (j =s k)) [
    | inl q ↦
        ap buffer (lookup-insert j k ag' agents)
        ∙ rw q (
            ap some same ∙ sym (ap buffer (ap (λ i. lookup i agents) (sym ((eq_iff j k).0 q)) ∙ e)))
    | inr q ↦ ap buffer (lookup-insert j k ag' agents) ∙ rw q refl
  ]

  pub update_agent-same :
      (hub : Hub) (f : Agent → Agent) (j k : String)
      → ((ag : Agent) → lookup j hub.agents ≡ some ag → (f ag).buf ≡ ag.buf)
      → buffer_in (update_agent hub j f) k ≡ buffer_in hub k
  update_agent-same hub f j k same = elim (Option-cases (lookup j hub.agents)) [
    | inl e ↦ rw (e, update_agent) refl
    | inr (ag, e) ↦ rw (e, update_agent) (same_after_insert hub.agents ag (f ag) k j e (same ag e))
  ]

  pub status_to-IsQuiet : (j : String) (s : Status) (r : Run) → IsQuiet r (status_to j s r)
  unfolding status_to set_status
  status_to-IsQuiet j s r = elim (Option-cases (lookup j r.hub.agents)) [
    | inl e ↦ rw (e, status_to) (unchanged_refl r)
    | inr (ag, e) ↦
        rw (e, status_to)
          (record {
            same_buffers = λ k.
                update_agent-same r.hub (λ _. (set_status ag s).0) j k
                  (λ a e2. let q : ag ≡ a = cc (e, e2) in ap (λ (x : Agent). x.buf) q);
            same_pushes = refl;
          })
  ]

  abbrev pub numbered_by : EventBuffer → Fields → Fields
  numbered_by c d = put (stamped cx.env.now d) "seq" (num (EventBuf.next_seq c))

  abbrev appended : Fields → Agent → Agent
  appended d ag = record ag { buf = (EventBuf.append ag.buf (numbered_by ag.buf d)).0 }

  pub emit-IsSaid :
      (d : Fields) (r : Run) (ag : Agent)
      → lookup id r.hub.agents ≡ some ag
      → ag.buf ≡ b
      → IsSaid r (emit cx id d r) (numbered_by b d)
  unfolding emit emit_to append_event
  emit-IsSaid d r ag e f =
      rw (e, emit)
        (record {
          own =
              ap buffer (lookup-insert_self id (appended d ag) r.hub.agents)
              ∙ ap (λ c. some (EventBuf.append c (numbered_by c d)).0) f;
          others = λ k ne.
              ap buffer (lookup-insert_ne id k (appended d ag) r.hub.agents (λ q. ne (sym q)));
          numbered =
              get-put_self (stamped cx.env.now d) "seq" (num (EventBuf.next_seq b))
              ∙ ap (λ n. some (num n)) (sym (append_number b (numbered_by b d)));
          pushed = ap (λ c. if cx.on_output then (id, numbered_by c d) ∷ r.pushes else r.pushes) f;
        })
