-- ===== src/Agentd/EventBuf/Tests.antt =====
-- Runs of the event buffer, and its theorems at concrete buffers.
use agnet.Common.{String, ◌⊎◌, ℕ, zero, suc, ◌≡◌, refl, arith, true, [], ◌∷◌, map, set}
use agnet.Common.Json.{text, Fields, end, field, get}
use agnet.Agentd.EventBuf.{
  Event, EventBuffer, new, push, append, since, update_or_append, reset, next_event, slot,
  find_back, replaced,
}
use agnet.Agentd.EventBuf.Inv.{IsValid}
use agnet.Agentd.EventBuf.Refine.{contents, bounded_snoc, push_refines}
use agnet.Agentd.EventBuf.Update.{AppendsWhere, IsNewest, update_or_append_cases}
use agnet.Agentd.EventBuf.Order.{
  IsConsecutive, since_no_gap, appends, resets, Reach, here, step, Sound, Reach-Sound,
}

abbrev event : ℕ → String → Event
event n msg = record { seq = n; body = field "msg_id" (text msg) end }

-- A buffer of two places that has wrapped round: it holds the events 2 and 3.
abbrev wrapped : EventBuffer
wrapped = record { cap = 2; seq = 3; buf = event 3 "c" ∷ event 2 "b" ∷ []; head = 1; count = 2 }

wrapped-IsValid : IsValid wrapped
wrapped-IsValid = record {
  cap_pos = omega arith;
  storage = refl;
  head_in = omega arith;
  count_in = omega arith;
}

wrapped-IsConsecutive : IsConsecutive wrapped
wrapped-IsConsecutive zero h = refl
wrapped-IsConsecutive (suc zero) h = refl
wrapped-IsConsecutive (suc (suc i)) h = absurd (omega arith)

abbrev body : Fields
body = field "msg_id" (text "b") end

push_wraps : contents (push wrapped body).0 ≡ event 3 "c" ∷ event 4 "b" ∷ []
unfolding push
push_wraps = refl

update_hits : (update_or_append wrapped "b" end).1 ≡ 2
unfolding update_or_append find_back get
update_hits = refl

push_refines_example :
    contents (push wrapped body).0 ≡ bounded_snoc 2 (contents wrapped) (next_event wrapped body)
push_refines_example = push_refines wrapped body wrapped-IsValid

update_or_append_cases_example :
    AppendsWhere wrapped "b" end
    ⊎ ((i : ℕ) × IsNewest wrapped "b" 2 i
        × (let (eb', n, updated) = update_or_append wrapped "b" end in
            (updated ≡ true)
            × (n ≡ (slot wrapped i).seq)
            × (eb'.seq ≡ 3)
            × (contents eb' ≡ set (contents wrapped) i (replaced (slot wrapped i) end))))
update_or_append_cases_example = update_or_append_cases wrapped "b" end wrapped-IsValid

since_no_gap_example : map (λ e. e.seq) (since wrapped 1) ≡ 2 ∷ 3 ∷ []
since_no_gap_example = since_no_gap wrapped 1 wrapped-IsConsecutive (omega arith) (omega arith)

-- Two appends, an update of an unknown id, a reset and one more append.
abbrev first : EventBuffer
first = (append (new 2) body).0

first_reach : Reach (new 2) first
unfolding new
first_reach = step here (appends body (omega arith))

reset_reach : Reach (new 2) (reset first)
reset_reach = step first_reach resets

Reach-Sound_example : Sound (append (reset first) body).0
unfolding reset
Reach-Sound_example = Reach-Sound 2 (omega arith) (step reset_reach (appends body (omega arith)))
