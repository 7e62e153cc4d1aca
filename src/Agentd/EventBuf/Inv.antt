-- ===== src/Agentd/EventBuf/Inv.antt =====
-- The representation invariant of the event buffer: no index out of range.
use agnet.Common.{
  ℕ, ◌+◌, ◌-◌, ◌%◌, ◌≤◌, ◌<◌, ◌≡◌, arith, none, length, length-set, length-replicate, String,
  if◌then◌else◌, Option-cases, inl, inr, ltb, Bool-cases, refl,
}
use agnet.Common.Text.{is_empty}
use agnet.Common.Json.{Fields}
use agnet.Agentd.EventBuf.{
  EventBuffer, new, append, next_seq, index, slot, next_event, push, zero_event, replaced,
  find_back, update_or_append,
}

pub record IsValid (eb : EventBuffer) : Type 0 where
  pub cap_pos : 0 < eb.cap
  pub storage : length eb.buf ≡ eb.cap
  pub head_in : eb.head < eb.cap
  pub count_in : eb.count ≤ eb.cap

pub new-IsValid : (cap : ℕ) → 0 < cap → IsValid (new cap)
unfolding new
new-IsValid cap h = omega (arith, length-replicate cap zero_event)

pub push-IsValid : (eb : EventBuffer) (d : Fields) → IsValid eb → IsValid (push eb d).0
unfolding push
push-IsValid eb d v = ground (
  arith,
  length-set eb.buf (index eb eb.count) (next_event eb d),
  length-set eb.buf eb.head (next_event eb d),
)

pub cap-push : (eb : EventBuffer) (d : Fields) → (push eb d).0.cap ≡ eb.cap
unfolding push
cap-push eb d = ground arith

-- Every index that the methods compute lies inside the storage.
pub in_bounds :
    (eb : EventBuffer) (i : ℕ)
    → IsValid eb
    → (index eb i < length eb.buf)
      × (eb.head < length eb.buf)
      × ((eb.head + eb.count - 1) % eb.cap < length eb.buf)
in_bounds eb i v = omega arith

pub update_or_append-IsValid :
    (eb : EventBuffer) (msg : String) (d : Fields)
    → IsValid eb
    → IsValid (update_or_append eb msg d).0
unfolding update_or_append
update_or_append-IsValid eb msg d v =
    elim (Option-cases (if is_empty msg then none else find_back eb msg eb.count)) [
      | inl e ↦ rw (e, update_or_append) (push-IsValid eb d v)
      | inr (i, e) ↦
          rw (e, update_or_append)
            (omega (arith, length-set eb.buf (index eb i) (replaced (slot eb i) d)))
    ]

-- The number that an append reports is the next one of the counter.
pub append_number : (eb : EventBuffer) (d : Fields) → (append eb d).1 ≡ next_seq eb
unfolding append push
append_number eb d = elim (Bool-cases (ltb eb.count eb.cap)) [
  | inl e ↦ rw e refl
  | inr e ↦ rw e refl
]
