-- ===== src/Agentd/Handler/History/Laws.antt =====
-- What a client that reads the history is promised.
use agnet.Common.{
  ℕ, zero, suc, ◌+◌, ◌-◌, ◌≤◌, ◌<◌, ◌≡◌, refl, ap, arith, false, List, [], ◌∷◌, String, length, map,
  gather, lt→ltb,
}
use agnet.Agentd.EventBuf.{Event, since}
use agnet.Agentd.EventBuf.Order.{IsConsecutive, since_no_gap, since_all}
use agnet.Agentd.Agent.{Agent}
use agnet.Agentd.Hub.{Env, Hub}
use agnet.Agentd.Handler.History.{is_nil, history_limit, history_events}

pub history_limit_bounds : (n : ℕ) → (1 ≤ history_limit n) × (history_limit n ≤ 1000)
unfolding history_limit
history_limit_bounds n = ground arith

-- The numbers of the events shown.
abbrev pub seqs : List Event → List ℕ
seqs = map (λ e. e.seq)

is_nil_of_seqs :
    (es : List Event) (m n : ℕ) → seqs es ≡ gather (λ k. k) m (suc n) → is_nil es ≡ false
is_nil_of_seqs [] m n e = absurd (omega (arith, ap length e))
is_nil_of_seqs (x ∷ es) m n e = refl

-- What a cursor is answered with while the buffer has something newer.
newer_shown :
    (env : Env) (hub : Hub) (id : String) (ag : Agent) (after limit m n : ℕ)
    → 0 < after
    → 0 < n
    → seqs (since ag.buf after) ≡ gather (λ k. k) m n
    → seqs (history_events env hub id ag 0 after limit) ≡ gather (λ k. k) m n
unfolding history_events
newer_shown env hub id ag after limit m zero pos some_held e = absurd (omega arith)
newer_shown env hub id ag after limit m (suc n) pos some_held e =
    rw (lt→ltb 0 after pos, is_nil_of_seqs (since ag.buf after) m n e) e

-- Where the events held are numbered consecutively, a client that polls with a cursor which is not 0,
-- is below the counter and is not older than those events is shown exactly the events after it, in
-- order, whatever the store holds and whatever the limit is.
pub history_events_no_gap :
    (env : Env) (hub : Hub) (id : String) (ag : Agent) (after limit : ℕ)
    → IsConsecutive ag.buf
    → 0 < after
    → after < ag.buf.seq
    → ag.buf.seq ≤ after + ag.buf.count
    → seqs (history_events env hub id ag 0 after limit)
      ≡ gather (λ k. k) (after + 1) (ag.buf.seq - after)
history_events_no_gap env hub id ag after limit c pos lt fresh =
    newer_shown env hub id ag after limit (after + 1) (ag.buf.seq - after) pos (omega arith)
      (since_no_gap ag.buf after c fresh (omega arith))

-- Where the events held are numbered consecutively and there is one, a client whose cursor is not 0
-- and is older than the number before the oldest of them is shown the events held and no other,
-- whatever the store holds: the events between the cursor and the oldest one held are left out.
pub history_events_gap :
    (env : Env) (hub : Hub) (id : String) (ag : Agent) (after limit : ℕ)
    → IsConsecutive ag.buf
    → 0 < after
    → 0 < ag.buf.count
    → after + ag.buf.count < ag.buf.seq
    → seqs (history_events env hub id ag 0 after limit)
      ≡ gather (λ k. k) (ag.buf.seq + 1 - ag.buf.count) ag.buf.count
history_events_gap env hub id ag after limit c pos some_held old =
    newer_shown env hub id ag after limit (ag.buf.seq + 1 - ag.buf.count) ag.buf.count pos some_held
      (since_all ag.buf after c (omega arith))
