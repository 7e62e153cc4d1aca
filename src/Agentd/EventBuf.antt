-- ===== src/Agentd/EventBuf.antt =====
-- agentd/internal/eventbuf/eventbuf.go: the capped circular buffer of conversation events.
-- A method that mutates the receiver returns the new buffer beside its result. The mutex makes each
-- method one step. `uint64` sums keep their wrap.
pub mod Inv
pub mod Refine
pub mod Update
pub mod Order
mod Tests
use agnet.Common.{
  ℕ, zero, suc, ◌+◌, ◌-◌, ◌%◌, ◌^◌, String, Bool, true, false, Option, none, some, List, [], ◌∷◌,
  ltb, ◌==◌, if◌then◌else◌, get_or, set, replicate,
}
use agnet.Common.Text.{◌=s◌, is_empty}
use agnet.Common.Json.{Value, num, Fields, end, get, put, text_or_empty}

pub record Event : Type 0 where
  pub seq : ℕ
  pub body : Fields  -- `Data`

-- `Event{}`: the nil map reads as the empty one.
abbrev pub zero_event : Event
zero_event = record { seq = 0; body = end }

pub record EventBuffer : Type 0 where
  pub cap : ℕ
  pub seq : ℕ
  pub buf : List Event
  pub head : ℕ
  pub count : ℕ

unfoldable pub new : ℕ → EventBuffer
new cap = record { cap = cap; seq = 0; buf = replicate cap zero_event; head = 0; count = 0 }

-- `eb.seq++`
abbrev pub next_seq : EventBuffer → ℕ
next_seq eb = (eb.seq + 1) % 2 ^ 64

-- The index of the event `i` places after the oldest.
abbrev pub index : EventBuffer → ℕ → ℕ
index eb i = (eb.head + i) % eb.cap

-- The event that the next append stores.
abbrev pub next_event : EventBuffer → Fields → Event
next_event eb d = record { seq = next_seq eb; body = d }

-- The body of `Append`, which `UpdateOrAppend` repeats: write past the newest event while there is
-- room, else overwrite the oldest.
unfoldable pub push : EventBuffer → Fields → EventBuffer × ℕ
push eb d =
    if ltb count cap
    then (
      record eb {
        seq = next_seq eb;
        buf = set buf (index eb count) (next_event eb d);
        count = count + 1;
      },
      next_seq eb,
    )
    else (
      record eb {
        seq = next_seq eb;
        buf = set buf head (next_event eb d);
        head = (head + 1) % cap;
      },
      next_seq eb,
    )
  where
    open eb use {cap, buf, head, count}

unfoldable pub append : EventBuffer → Fields → EventBuffer × ℕ
append eb d = push eb d

-- The event `i` places after the oldest.
abbrev pub slot : EventBuffer → ℕ → Event
slot eb i = get_or eb.buf (index eb i) zero_event

-- The loop of `Since` from `i`, with `n` rounds left.
pub since_from : EventBuffer → ℕ → ℕ → ℕ → List Event
since_from eb after i zero = []
since_from eb after i (suc n) =
    let e = slot eb i in
    let rest = since_from eb after (i + 1) n in if ltb after e.seq then e ∷ rest else rest

unfoldable pub since : EventBuffer → ℕ → List Event
since eb after = since_from eb after 0 eb.count

unfoldable pub last_seq : EventBuffer → ℕ
last_seq eb = eb.seq

unfoldable pub last_event : EventBuffer → Event
last_event eb =
    if eb.count == 0
    then zero_event
    else get_or eb.buf ((eb.head + eb.count - 1) % eb.cap) zero_event

pub init_seq : EventBuffer → ℕ → EventBuffer
init_seq eb n = record eb { seq = n }

unfoldable pub reset : EventBuffer → EventBuffer
reset eb = record eb { seq = 0; head = 0; count = 0 }

abbrev pub msg_id_of : Event → String
msg_id_of e = text_or_empty (get e.body "msg_id")

-- The backward scan: `i + 1` rounds are left, the next one at place `i`.
unfoldable pub find_back : EventBuffer → String → ℕ → Option ℕ
find_back eb msg zero = none
find_back eb msg (suc i) =
    let rest = find_back eb msg i in if msg_id_of (slot eb i) =s msg then some i else rest

-- `eb.buf[idx].Data = data; eb.buf[idx].Data["seq"] = eb.buf[idx].Seq`
abbrev pub replaced : Event → Fields → Event
replaced e d = record { seq = e.seq; body = put d "seq" (num e.seq) }

unfoldable pub update_or_append : EventBuffer → String → Fields → EventBuffer × ℕ × Bool
update_or_append eb msg d = elim (if is_empty msg then none else find_back eb msg eb.count) [
  | some i ↦
      let e = slot eb i in (record eb { buf = set eb.buf (index eb i) (replaced e d) }, e.seq, true)
  | none ↦ let (eb', n) = push eb d in (eb', n, false)
]
