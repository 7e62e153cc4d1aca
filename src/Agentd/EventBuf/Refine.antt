-- ===== src/Agentd/EventBuf/Refine.antt =====
-- The circular buffer seen as the list of its events, oldest first.
use native.Mathlib.Nat.{mod-add-mod, mod-eq_of_lt, mod-eq-sub-mod}
use native.Mathlib.Decide.{dec_lt}
use mathlib.Core.Path.{◌≡⟨◌⟩◌, ◌∎}
use agnet.Common.{
  ℕ, zero, suc, ◌+◌, ◌-◌, ◌%◌, ◌≤◌, ◌<◌, ◌≡◌, ◌≢◌, refl, sym, ap, ap₂, ◌∙◌, arith, List, [], ◌∷◌,
  ◌++◌, false, ltb, ◌==◌, lt→ltb, ge→ltb, if◌then◌else◌, length, length-gather, get_or,
  get_or-set_self, get_or-set_ne, Bool-cases, inl, inr, drop, select, gather, gather_ext,
  gather_snoc, gather_shift,
}
use agnet.Common.Json.{Fields}
use agnet.Agentd.EventBuf.{
  Event, EventBuffer, append, index, slot, next_event, push, since_from, since, last_event,
  zero_event,
}
use agnet.Agentd.EventBuf.Inv.{IsValid}

abbrev pub contents : EventBuffer → List Event
contents eb = gather (slot eb) 0 eb.count

pub length-contents : (eb : EventBuffer) → length (contents eb) ≡ eb.count
length-contents eb = length-gather (slot eb) 0 eb.count

-- Fewer than `cap` steps round the storage do not come back to the start.
mod_add_ne : (cap h k : ℕ) → h < cap → 0 < k → k < cap → (h + k) % cap ≢ h
mod_add_ne cap h k hh pos hk = elim (dec_lt (h + k) cap) [
  | yes p ↦ omega (arith, mod-eq_of_lt p)
  | no p ↦ omega (
    arith,
    mod-eq-sub-mod {n = h + k} {m = cap} (omega arith),
    mod-eq_of_lt {n = h + k - cap} {m = cap} (omega arith),
  )
]

-- Different places below the capacity have different indices.
pub index_ne :
    (eb : EventBuffer) (i j : ℕ) → IsValid eb → i < j → j < eb.cap → index eb i ≢ index eb j
index_ne eb i j v lt hj e =
    mod_add_ne eb.cap (index eb i) (j - i) (omega (arith, v)) (omega arith) (omega arith)
      (shift ∙ sym e)
  where
    shift : (index eb i + (j - i)) % eb.cap ≡ index eb j
    shift = rw mod-add-mod (ap (λ k. k % eb.cap) (omega arith))

module _ (eb : EventBuffer) (d : Fields) (v : IsValid eb) where
  pub slot-push_room_old :
      (i : ℕ) → eb.count < eb.cap → i < eb.count → slot (push eb d).0 i ≡ slot eb i
  unfolding push
  slot-push_room_old i room hi = rw (lt→ltb eb.count eb.cap room) (
      get_or-set_ne eb.buf (index eb eb.count) (index eb i) (next_event eb d) zero_event
        (λ e. index_ne eb i eb.count v hi room (sym e)))

  pub slot-push_room_new : eb.count < eb.cap → slot (push eb d).0 eb.count ≡ next_event eb d
  unfolding push
  slot-push_room_new room =
      rw (lt→ltb eb.count eb.cap room)
        (get_or-set_self eb.buf (index eb eb.count) (next_event eb d) zero_event (omega (arith, v)))

  pub count-push_room : eb.count < eb.cap → (push eb d).0.count ≡ suc eb.count
  unfolding push
  count-push_room room = rw (lt→ltb eb.count eb.cap room) (omega arith)

  -- While there is room, an append adds the new event at the end.
  pub contents-push_room :
      eb.count < eb.cap → contents (push eb d).0 ≡ contents eb ++ (next_event eb d ∷ [])
  contents-push_room room =
      contents (push eb d).0
      ≡⟨ ap (gather (slot (push eb d).0) 0) (count-push_room room) ⟩
        gather (slot (push eb d).0) 0 (suc eb.count)
      ≡⟨ gather_snoc (slot (push eb d).0) 0 eb.count ⟩
        gather (slot (push eb d).0) 0 eb.count ++ (slot (push eb d).0 (0 + eb.count) ∷ [])
      ≡⟨ ap₂ (λ xs e. xs ++ (e ∷ []))
          (gather_ext (slot (push eb d).0) (slot eb) 0 eb.count
            (λ k _ hi. slot-push_room_old k room (omega arith)))
          (ap (slot (push eb d).0) (omega arith) ∙ slot-push_room_new room) ⟩
        contents eb ++ (next_event eb d ∷ []) ∎

  index_step : (i : ℕ) → ((eb.head + 1) % eb.cap + i) % eb.cap ≡ index eb (i + 1)
  index_step i = rw mod-add-mod (ap (λ k. k % eb.cap) (omega arith))

  index_zero : index eb 0 ≡ eb.head
  index_zero = ap (λ k. k % eb.cap) (omega arith) ∙ mod-eq_of_lt v.head_in

  pub slot-push_full_old :
      (i : ℕ) → eb.cap ≤ eb.count → i + 1 < eb.cap → slot (push eb d).0 i ≡ slot eb (i + 1)
  unfolding push
  slot-push_full_old i full hi =
      rw (ge→ltb eb.count eb.cap full, index_step i)
        (get_or-set_ne eb.buf eb.head (index eb (i + 1)) (next_event eb d) zero_event
          (λ e. index_ne eb 0 (i + 1) v (omega arith) hi (index_zero ∙ e)))

  index_wrap : (i : ℕ) → i + 1 ≡ eb.cap → index eb (i + 1) ≡ eb.head
  index_wrap i e =
      ap (λ k. (eb.head + k) % eb.cap) e
      ∙ mod-eq-sub-mod {n = eb.head + eb.cap} {m = eb.cap} (omega arith)
      ∙ mod-eq_of_lt {n = eb.head + eb.cap - eb.cap} {m = eb.cap} (omega (arith, v))
      ∙ omega arith

  pub slot-push_full_new :
      (i : ℕ) → eb.cap ≤ eb.count → i + 1 ≡ eb.cap → slot (push eb d).0 i ≡ next_event eb d
  unfolding push
  slot-push_full_new i full e =
      rw (ge→ltb eb.count eb.cap full, index_step i, index_wrap i e)
        (get_or-set_self eb.buf eb.head (next_event eb d) zero_event (omega (arith, v)))

  pub count-push_full : eb.cap ≤ eb.count → (push eb d).0.count ≡ eb.count
  unfolding push
  count-push_full full = rw (ge→ltb eb.count eb.cap full)

  -- A full buffer drops its oldest event and adds the new one at the end.
  pub contents-push_full :
      (n : ℕ)
      → eb.count ≡ suc n
      → eb.cap ≤ eb.count
      → contents (push eb d).0 ≡ drop 1 (contents eb) ++ (next_event eb d ∷ [])
  contents-push_full n e full =
      contents eb'
      ≡⟨ ap (gather (slot eb') 0) (count-push_full full ∙ e) ⟩ gather (slot eb') 0 (suc n)
      ≡⟨ gather_snoc (slot eb') 0 n ⟩ gather (slot eb') 0 n ++ (slot eb' (0 + n) ∷ [])
      ≡⟨ ap₂ (λ xs x. xs ++ (x ∷ []))
          (gather_ext (slot eb') (λ k. slot eb (k + 1)) 0 n
              (λ k _ hi. slot-push_full_old k full (omega (arith, v)))
            ∙ gather_shift (slot eb) 0 n)
          (slot-push_full_new (0 + n) full (omega (arith, v))) ⟩
        gather (slot eb) 1 n ++ (next_event eb d ∷ [])
      ≡⟨ ap (λ m. drop 1 (gather (slot eb) 0 m) ++ (next_event eb d ∷ [])) (sym e) ⟩
        drop 1 (contents eb) ++ (next_event eb d ∷ []) ∎
    where
      eb' : EventBuffer
      eb' = (push eb d).0

-- What an append does to the list of events: at capacity the oldest goes, and the new one comes last.
abbrev pub bounded_snoc : ℕ → List Event → Event → List Event
bounded_snoc cap xs e = if ltb (length xs) cap then xs ++ (e ∷ []) else drop 1 xs ++ (e ∷ [])

-- On a valid buffer an append makes of the list of events held what `bounded_snoc` says: the new
-- event comes last, and the oldest goes if as many events are held as the capacity allows.
pub push_refines :
    (eb : EventBuffer) (d : Fields)
    → IsValid eb
    → contents (push eb d).0 ≡ bounded_snoc eb.cap (contents eb) (next_event eb d)
push_refines eb d v = elim (dec_lt eb.count eb.cap) [
  | yes p ↦ rw (length-contents eb, lt→ltb eb.count eb.cap p) (contents-push_room eb d v p)
  | no p ↦
      rw (length-contents eb, ge→ltb eb.count eb.cap (omega arith))
        (contents-push_full eb d v (eb.count - 1) (omega (arith, v)) (omega arith))
]

-- The loop of `Since` selects by sequence number, in order.
since_from-select :
    (eb : EventBuffer) (after i n : ℕ)
    → since_from eb after i n ≡ select (λ e. ltb after e.seq) (gather (slot eb) i n)
unfolding since_from
since_from-select eb after i zero = refl
since_from-select eb after i (suc n) =
    ap (λ rest. if ltb after (slot eb i).seq then slot eb i ∷ rest else rest)
      (since_from-select eb after (i + 1) n)

-- `Since` returns the events held whose number is above the cursor, oldest first.
pub since_refines :
    (eb : EventBuffer) (after : ℕ) → since eb after ≡ select (λ e. ltb after e.seq) (contents eb)
unfolding since
since_refines eb after = since_from-select eb after 0 eb.count

-- The last item of a list, or the zero event.
abbrev pub last_or_zero : List Event → Event
last_or_zero [] = zero_event
last_or_zero (x ∷ []) = x
last_or_zero (x ∷ y ∷ xs) = last_or_zero (y ∷ xs)

last_or_zero-snoc : (xs : List Event) (e : Event) → last_or_zero (xs ++ (e ∷ [])) ≡ e
last_or_zero-snoc [] e = refl
last_or_zero-snoc (x ∷ []) e = refl
last_or_zero-snoc (x ∷ y ∷ xs) e = last_or_zero-snoc (y ∷ xs) e

not_zero : (n : ℕ) → (suc n == 0) ≡ false
not_zero n = ground arith

last_event_at :
    (eb : EventBuffer) (n : ℕ)
    → (if n == 0 then zero_event else get_or eb.buf ((eb.head + n - 1) % eb.cap) zero_event)
      ≡ last_or_zero (gather (slot eb) 0 n)
last_event_at eb zero = refl
last_event_at eb (suc n) =
    rw (not_zero n) (ap (λ k. get_or eb.buf (k % eb.cap) zero_event) (omega arith))
    ∙ sym (
        ap last_or_zero (gather_snoc (slot eb) 0 n)
        ∙ last_or_zero-snoc (gather (slot eb) 0 n) (slot eb (0 + n)))

-- `LastEvent` is the newest event held, and the zero event for an empty buffer.
pub last_event_refines : (eb : EventBuffer) → last_event eb ≡ last_or_zero (contents eb)
unfolding last_event
last_event_refines eb = last_event_at eb eb.count

-- The newest event after an append is the one appended.
pub last_event-append :
    (eb : EventBuffer) (d : Fields) → IsValid eb → last_event (append eb d).0 ≡ next_event eb d
unfolding append
last_event-append eb d v =
    last_event_refines (push eb d).0
    ∙ ap last_or_zero (push_refines eb d v)
    ∙ (elim (Bool-cases (ltb (length (contents eb)) eb.cap)) [
      | inl e ↦ rw e (last_or_zero-snoc (contents eb) (next_event eb d))
      | inr e ↦ rw e (last_or_zero-snoc (drop 1 (contents eb)) (next_event eb d))
    ])
