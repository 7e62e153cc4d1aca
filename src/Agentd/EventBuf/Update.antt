-- ===== src/Agentd/EventBuf/Update.antt =====
-- `UpdateOrAppend`: which event it rewrites, and what it leaves alone.
use native.Mathlib.Decide.{dec_lt, ℕ_discrete}
use agnet.Common.{
  ℕ, zero, suc, ◌≤◌, ◌<◌, ◌≡◌, ◌≢◌, refl, sym, ap, ◌∙◌, arith, String, true, false, Option, none,
  some, if◌then◌else◌, Bool-cases, ◌⊎◌, inl, inr, set, get_or-set_self, get_or-set_ne, gather-set,
}
use agnet.Common.Text.{◌=s◌, is_empty, eq_iff}
use agnet.Common.Json.{Fields}
use agnet.Agentd.EventBuf.{
  Event, EventBuffer, index, slot, push, msg_id_of, find_back, replaced, update_or_append,
  zero_event,
}
use agnet.Agentd.EventBuf.Inv.{IsValid}
use agnet.Agentd.EventBuf.Refine.{contents, index_ne}

-- No event at the places from `i` up to `n` has the id `msg`.
abbrev pub NoneFrom : EventBuffer → String → ℕ → ℕ → Type 0
NoneFrom eb msg i n = (j : ℕ) → i ≤ j → j < n → msg_id_of (slot eb j) ≢ msg

-- Place `i` holds the newest event with the id `msg` among the first `n`.
pub record IsNewest (eb : EventBuffer) (msg : String) (n i : ℕ) : Type 0 where
  pub below : i < n
  pub matches : msg_id_of (slot eb i) ≡ msg
  pub later : NoneFrom eb msg (suc i) n

pub find_back_cases :
    (eb : EventBuffer) (msg : String) (n : ℕ)
    → ((find_back eb msg n ≡ none) × NoneFrom eb msg 0 n)
      ⊎ ((i : ℕ) × (find_back eb msg n ≡ some i) × IsNewest eb msg n i)
unfolding find_back
find_back_cases eb msg zero = inl (refl, λ j lo hi. absurd (omega arith))
find_back_cases eb msg (suc n) = elim (Bool-cases (msg_id_of (slot eb n) =s msg)) [
  | inl hit ↦ inr (
    n,
    rw hit,
    record {
      below = omega arith;
      matches = (eq_iff (msg_id_of (slot eb n)) msg).0 hit;
      later = λ j lo hi. absurd (omega arith);
    },
  )
  | inr miss ↦ elim (find_back_cases eb msg n) [
    | inl (e, h) ↦ inl (rw miss e, extend miss 0 h)
    | inr (i, e, new) ↦ inr (
      i,
      rw miss e,
      record {
        below = omega (arith, new);
        matches = new.matches;
        later = extend miss (suc i) new.later;
      },
    )
  ]
]
  where
    extend :
        (msg_id_of (slot eb n) =s msg) ≡ false
        → (i : ℕ) → NoneFrom eb msg i n
        → NoneFrom eb msg i (suc n)
    extend miss i h j lo hi e = elim (dec_lt j n) [
      | yes p ↦ h j lo p e
      | no p ↦
          let same : j ≡ n = omega arith in
          let hit : msg_id_of (slot eb n) ≡ msg = rw (← same) e in
          cc ((eq_iff (msg_id_of (slot eb n)) msg).1 hit)
    ]

-- The buffer with the event at place `i` written.
abbrev pub with_slot : EventBuffer → ℕ → Event → EventBuffer
with_slot eb i e = record eb { buf = set eb.buf (index eb i) e }

module _ (eb : EventBuffer) (i : ℕ) (e : Event) (v : IsValid eb) (hi : i < eb.count) where
  pub slot-with_slot_self : slot (with_slot eb i e) i ≡ e
  slot-with_slot_self = get_or-set_self eb.buf (index eb i) e zero_event (omega (arith, v))

  apart : (k : ℕ) → k < eb.cap → k ≢ i → index eb i ≢ index eb k
  apart k hk ne = elim (dec_lt k i) [
    | yes p ↦ λ same. index_ne eb k i v p (omega (arith, v)) (sym same)
    | no p ↦ index_ne eb i k v (omega arith) hk
  ]

  pub slot-with_slot_ne : (k : ℕ) → k < eb.cap → k ≢ i → slot (with_slot eb i e) k ≡ slot eb k
  slot-with_slot_ne k hk ne =
      get_or-set_ne eb.buf (index eb i) (index eb k) e zero_event (apart k hk ne)

  -- Writing at place `i` rewrites that item of the contents and no other.
  pub contents-with_slot : contents (with_slot eb i e) ≡ set (contents eb) i e
  contents-with_slot =
      gather-set (slot eb) (slot (with_slot eb i e)) 0 eb.count i e hi
        (ap (slot (with_slot eb i e)) (omega arith) ∙ slot-with_slot_self)
        (λ k lo lt ne. slot-with_slot_ne k (omega (arith, v)) (λ same. ne (omega arith)))

  -- An event that keeps the number of the one it replaces leaves all numbers as they were.
  pub seq-with_slot :
      e.seq ≡ (slot eb i).seq
      → (k : ℕ) → k < eb.cap
      → (slot (with_slot eb i e) k).seq ≡ (slot eb k).seq
  seq-with_slot keep k hk = elim (ℕ_discrete k i) [
    | yes p ↦ rw p (ap (λ (x : Event). x.seq) slot-with_slot_self ∙ keep)
    | no p ↦ ap (λ (x : Event). x.seq) (slot-with_slot_ne k hk p)
  ]

module _ (eb : EventBuffer) (msg : String) (d : Fields) where
  abbrev pub AppendsWhere : Type 0
  AppendsWhere =
      (update_or_append eb msg d ≡ ((push eb d).0, (push eb d).1, false))
      × ((msg ≡ "") ⊎ NoneFrom eb msg 0 eb.count)

  abbrev pub UpdatesWhere : ℕ → Type 0
  UpdatesWhere i =
      (update_or_append eb msg d ≡ (with_slot eb i (replaced (slot eb i) d), (slot eb i).seq, true))
      × (msg ≢ "")
      × IsNewest eb msg eb.count i

  skipped : is_empty msg ≡ true → (if is_empty msg then none else find_back eb msg eb.count) ≡ none
  skipped e = rw e

  searched :
      (o : Option ℕ)
      → is_empty msg ≡ false
      → find_back eb msg eb.count ≡ o
      → (if is_empty msg then none else find_back eb msg eb.count) ≡ o
  searched o e f = rw e f

  pub update_or_append_shape : AppendsWhere ⊎ ((i : ℕ) × UpdatesWhere i)
  unfolding update_or_append
  update_or_append_shape = elim (Bool-cases (is_empty msg)) [
    | inl e ↦ inl (rw (skipped e, update_or_append), inl ((eq_iff msg "").0 e))
    | inr e ↦ elim (find_back_cases eb msg eb.count) [
      | inl (f, none_has) ↦ inl (rw (searched none e f, update_or_append), inr none_has)
      | inr (i, f, new) ↦ inr (
        i,
        (rw (searched (some i) e f, update_or_append), (λ same. cc ((eq_iff msg "").1 same)), new),
      )
    ]
  ]

-- On a valid buffer `UpdateOrAppend` either appends, exactly as `Append` does, and then the id was
-- empty or no event held has it; or it rewrites the payload of the newest event with that id, keeps
-- that event's sequence number and returns it, and leaves every other event and the counter as they
-- were.
pub update_or_append_cases :
    (eb : EventBuffer) (msg : String) (d : Fields)
    → IsValid eb
    → AppendsWhere eb msg d
      ⊎ ((i : ℕ) × IsNewest eb msg eb.count i
          × (let (eb', n, updated) = update_or_append eb msg d in
              (updated ≡ true)
              × (n ≡ (slot eb i).seq)
              × (eb'.seq ≡ eb.seq)
              × (contents eb' ≡ set (contents eb) i (replaced (slot eb i) d))))
update_or_append_cases eb msg d v = elim (update_or_append_shape eb msg d) [
  | inl a ↦ inl a
  | inr (i, u) ↦ inr (
    i,
    u.2,
    (rw u.0, rw u.0, rw u.0, rw u.0 (contents-with_slot eb i (replaced (slot eb i) d) v u.2.below)),
  )
]

-- Whether an event is appended or which one is rewritten depends on the id only.
pub update_or_append_place :
    (eb : EventBuffer) (msg : String)
    → ((d : Fields) → update_or_append eb msg d ≡ ((push eb d).0, (push eb d).1, false))
      ⊎ ((i : ℕ) × IsNewest eb msg eb.count i
          × ((d : Fields)
              → update_or_append eb msg d
                ≡ (with_slot eb i (replaced (slot eb i) d), (slot eb i).seq, true)))
unfolding update_or_append
update_or_append_place eb msg = elim (Bool-cases (is_empty msg)) [
  | inl e ↦ inl (λ d. rw (skipped eb msg d e, update_or_append) refl)
  | inr e ↦ elim (find_back_cases eb msg eb.count) [
    | inl (f, none_has) ↦ inl (λ d. rw (searched eb msg d none e f, update_or_append) refl)
    | inr (i, f, new) ↦
        inr (i, new, λ d. rw (searched eb msg d (some i) e f, update_or_append) refl)
  ]
]
