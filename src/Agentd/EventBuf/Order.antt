-- ===== src/Agentd/EventBuf/Order.antt =====
-- Sequence numbers: what a client that polls with `Since` is promised.
use agnet.Common.{
  ℕ, zero, suc, ◌+◌, ◌-◌, ◌^◌, ◌≤◌, ◌<◌, ◌≡◌, refl, ap, ap₂, ◌∙◌, arith, String, List, [], ◌∷◌, map,
  ltb, inl, inr, gather, select, lt→ltb, ge→ltb,
}
use native.Mathlib.Decide.{dec_lt}
use agnet.Common.Json.{Fields}
use agnet.Agentd.EventBuf.{
  Event, EventBuffer, new, slot, next_event, push, append, since, since_from, init_seq, reset,
  update_or_append, replaced,
}
use agnet.Agentd.EventBuf.Inv.{IsValid, new-IsValid, push-IsValid, update_or_append-IsValid}
use agnet.Agentd.EventBuf.Update.{update_or_append_shape, seq-with_slot}
use agnet.Agentd.EventBuf.Refine.{
  since_refines, slot-push_room_old, slot-push_room_new, slot-push_full_old, slot-push_full_new,
  count-push_room, count-push_full,
}

-- The events held carry the last `count` sequence numbers handed out, in order.
abbrev pub IsConsecutive : EventBuffer → Type 0
IsConsecutive eb = (i : ℕ) → i < eb.count → (slot eb i).seq + eb.count ≡ eb.seq + suc i

pub IsConsecutive-of_empty : (eb : EventBuffer) → eb.count ≡ 0 → IsConsecutive eb
IsConsecutive-of_empty eb e i h = absurd (omega arith)

seq-push : (eb : EventBuffer) (d : Fields) → eb.seq + 1 < 2 ^ 64 → (push eb d).0.seq ≡ eb.seq + 1
unfolding push
seq-push eb d h = ground arith

module _ (eb : EventBuffer) (d : Fields) (v : IsValid eb) (small : eb.seq + 1 < 2 ^ 64) where
  next_seq_lem : (next_event eb d).seq ≡ eb.seq + 1
  next_seq_lem = omega arith

  room_case : IsConsecutive eb → eb.count < eb.cap → IsConsecutive (push eb d).0
  room_case c room i hi = elim (dec_lt i eb.count) [
    | yes p ↦ omega (
      arith,
      c i p,
      ap (λ (e : Event). e.seq) (slot-push_room_old eb d v i room p),
      count-push_room eb d v room,
      seq-push eb d small,
    )
    | no p ↦
        let last : i ≡ eb.count = omega (arith, count-push_room eb d v room) in
        omega (
          arith,
          ap (λ k. (slot (push eb d).0 k).seq) last,
          ap (λ (e : Event). e.seq) (slot-push_room_new eb d v room),
          next_seq_lem,
          count-push_room eb d v room,
          seq-push eb d small,
        )
  ]

  full_case : IsConsecutive eb → eb.cap ≤ eb.count → IsConsecutive (push eb d).0
  full_case c full i hi = elim (dec_lt (i + 1) eb.cap) [
    | yes p ↦ omega (
      arith,
      v,
      c (i + 1) (omega (arith, v)),
      ap (λ (e : Event). e.seq) (slot-push_full_old eb d v i full p),
      count-push_full eb d v full,
      seq-push eb d small,
    )
    | no p ↦ omega (
      arith,
      v,
      ap (λ (e : Event). e.seq)
          (slot-push_full_new eb d v i full (omega (arith, v, count-push_full eb d v full))),
      next_seq_lem,
      count-push_full eb d v full,
      seq-push eb d small,
    )
  ]

  -- An append keeps the sequence numbers of the events held consecutive, up to the counter.
  pub push-IsConsecutive : IsConsecutive eb → IsConsecutive (push eb d).0
  push-IsConsecutive c = elim (dec_lt eb.count eb.cap) [
    | yes p ↦ room_case c p
    | no p ↦ full_case c (omega arith)
  ]

module _ (f : ℕ → Event) (after base : ℕ) where
  abbrev Counts : ℕ → ℕ → Type 0
  Counts i n = (k : ℕ) → i ≤ k → k < i + n → (f k).seq ≡ base + k

  abbrev chosen : List Event → List ℕ
  chosen xs = map (λ e. e.seq) (select (λ e. ltb after e.seq) xs)

  chosen_all :
      (i n m : ℕ)
      → Counts i n
      → after < m
      → base + i ≡ m
      → chosen (gather f i n) ≡ gather (λ k. k) m n
  chosen_all i zero m c lt e = refl
  chosen_all i (suc n) m c lt e =
      rw (lt→ltb after (f i).seq (omega (arith, c i (omega arith) (omega arith)))) (
        ap₂ ◌∷◌ (omega (arith, c i (omega arith) (omega arith))) (
          chosen_all (i + 1) n (m + 1) (λ k lo hi. c k (omega arith) (omega arith)) (omega arith)
            (omega arith)))

  -- From consecutive numbers those above `after` are selected, one by one.
  chosen_above :
      (i n : ℕ)
      → Counts i n
      → base + i ≤ after + 1
      → after + 1 ≤ base + i + n
      → chosen (gather f i n) ≡ gather (λ k. k) (after + 1) (base + i + n - (after + 1))
  chosen_above i zero c lo hi =
      let none_left : 0 ≡ base + i + 0 - (after + 1) = omega arith in
      ap (gather (λ k. k) (after + 1)) none_left
  chosen_above i (suc n) c lo hi = elim (dec_lt after (base + i)) [
    | yes p ↦
        let all_left : suc n ≡ base + i + suc n - (after + 1) = omega arith in
        chosen_all i (suc n) (after + 1) c (omega arith) (omega arith)
        ∙ ap (gather (λ k. k) (after + 1)) all_left
    | no p ↦
        let skip_one : base + (i + 1) + n - (after + 1) ≡ base + i + suc n - (after + 1) =
          omega arith in
        rw (ge→ltb after (f i).seq (omega (arith, c i (omega arith) (omega arith)))) (
          chosen_above (i + 1) n (λ k lo hi. c k (omega arith) (omega arith)) (omega arith)
            (omega arith))
        ∙ ap (gather (λ k. k) (after + 1)) skip_one
  ]

-- Where the events held are numbered consecutively, a client whose cursor is neither beyond the
-- counter nor older than those events gets every later event, once each and in order: the numbers
-- cursor + 1, …, seq.
pub since_no_gap :
    (eb : EventBuffer) (after : ℕ)
    → IsConsecutive eb
    → eb.seq ≤ after + eb.count
    → after ≤ eb.seq
    → map (λ e. e.seq) (since eb after) ≡ gather (λ k. k) (after + 1) (eb.seq - after)
since_no_gap eb after c fresh le =
    ap (map (λ e. e.seq)) (since_refines eb after)
    ∙ chosen_above (slot eb) after (eb.seq + 1 - eb.count) 0 eb.count
        (λ k lo hi. omega (arith, c k (omega arith), c 0 (omega arith))) (omega arith)
        (full_range (dec_lt 0 eb.count))
    ∙ ap (gather (λ k. k) (after + 1)) (left (dec_lt 0 eb.count))
  where
    full_range : Dec (0 < eb.count) → after + 1 ≤ eb.seq + 1 - eb.count + 0 + eb.count
    full_range (yes p) = omega (arith, c 0 p)
    full_range (no p) = omega arith

    left : Dec (0 < eb.count) → eb.seq + 1 - eb.count + 0 + eb.count - (after + 1) ≡ eb.seq - after
    left (yes p) = omega (arith, c 0 p)
    left (no p) = omega arith

pub since_empty : (eb : EventBuffer) (after : ℕ) → eb.count ≡ 0 → since eb after ≡ []
unfolding since since_from
since_empty eb after e = rw e refl

-- A client whose cursor is older than every event held gets all that is held.
pub since_all :
    (eb : EventBuffer) (after : ℕ)
    → IsConsecutive eb
    → after + eb.count < eb.seq + 1
    → map (λ e. e.seq) (since eb after) ≡ gather (λ k. k) (eb.seq + 1 - eb.count) eb.count
since_all eb after c old =
    ap (map (λ e. e.seq)) (since_refines eb after)
    ∙ chosen_all (slot eb) after (eb.seq + 1 - eb.count) 0 eb.count (eb.seq + 1 - eb.count)
        (λ k lo hi. omega (arith, c k (omega arith), c 0 (omega arith))) (omega arith) (omega arith)

-- The operations that change a buffer, as its owner calls them: the counter is set only while the
-- buffer is empty, and does not wrap.
pub data Step : EventBuffer → EventBuffer → Type 0 where
  appends : {eb : EventBuffer} (d : Fields) → eb.seq + 1 < 2 ^ 64 → Step eb (append eb d).0
  updates :
      {eb : EventBuffer} (msg : String) (d : Fields)
      → eb.seq + 1 < 2 ^ 64
      → Step eb (update_or_append eb msg d).0
  seeds : {eb : EventBuffer} (n : ℕ) → eb.count ≡ 0 → Step eb (init_seq eb n)
  resets : {eb : EventBuffer} → Step eb (reset eb)

pub data Reach (s : EventBuffer) : EventBuffer → Type 0 where
  here : Reach s s
  step : {t u : EventBuffer} → Reach s t → Step t u → Reach s u

pub record Sound (eb : EventBuffer) : Type 0 where
  pub valid : IsValid eb
  pub consecutive : IsConsecutive eb

update-Sound :
    (eb : EventBuffer) (msg : String) (d : Fields)
    → eb.seq + 1 < 2 ^ 64
    → Sound eb
    → Sound (update_or_append eb msg d).0
update-Sound eb msg d small s = elim (update_or_append_shape eb msg d) [
  | inl (e, _) ↦ rw e (record {
    valid = push-IsValid eb d s.valid;
    consecutive = push-IsConsecutive eb d s.valid small s.consecutive;
  })
  | inr (i, (e, ne, new)) ↦ record {
    valid = update_or_append-IsValid eb msg d s.valid;
    consecutive = rw e (λ k hk. omega (
      arith,
      s.consecutive k hk,
      seq-with_slot eb i (replaced (slot eb i) d) s.valid new.below refl k (omega (arith, s.valid)),
    ));
  }
]

Step-Sound : {eb eb' : EventBuffer} → Step eb eb' → Sound eb → Sound eb'
unfolding append reset init_seq
Step-Sound (appends {eb} d small) s = record {
  valid = push-IsValid eb d s.valid;
  consecutive = push-IsConsecutive eb d s.valid small s.consecutive;
}
Step-Sound (updates {eb} msg d small) s = update-Sound eb msg d small s
Step-Sound (seeds {eb} n e) s = record {
  valid = omega (arith, s.valid);
  consecutive = λ i h. absurd (omega arith);
}
Step-Sound (resets {eb}) s = record {
  valid = omega (arith, s.valid);
  consecutive = λ i h. absurd (omega arith);
}

-- However a buffer of positive capacity is appended to, updated, reset and, while it is empty, seeded
-- with a counter, as long as the counter does not wrap: its indices stay in range and the events that
-- it holds carry the last numbers handed out, in order and without a gap.
pub Reach-Sound : (n : ℕ) {eb : EventBuffer} → 0 < n → Reach (new n) eb → Sound eb
unfolding new
Reach-Sound n h here = record {
  valid = unfold new in new-IsValid n h;
  consecutive = λ i lt. absurd (omega arith);
}
Reach-Sound n h (step r st) = Step-Sound st (Reach-Sound n h r)
