-- ===== src/Agentd/Stream/Once.antt =====
-- A user's message that comes twice in a row is recorded once.
use agnet.Common.{
  ℕ, ◌≡◌, refl, ap, ◌∙◌, ◌≢◌, inl, inr, arith, Bool, true, false, ◌&&◌, not, some, [], String,
  Bool-cases, Option-cases,
}
use agnet.Common.Text.{◌=s◌, is_empty, eq_iff}
use agnet.Common.Json.{Fields, Value, text, num, flag, end, field, get, put, get-put, text_or_empty}
use agnet.Common.Map.{lookup}
use agnet.Agentd.Agent.{idle, working}
use agnet.Agentd.EventBuf
use agnet.Agentd.EventBuf.{EventBuffer}
use agnet.Agentd.EventBuf.Inv.{IsValid}
use agnet.Agentd.EventBuf.Refine.{last_event-append}
use agnet.Agentd.Hub.{Hub, stamped}
use agnet.Agentd.Stream.{StreamJsonEvent, Context, Run, get_string, emit, timed}
use agnet.Agentd.Stream.Message.{
  on_message, content_text, has_tool_use, role_of, is_repeated, message_data, after_message,
}
use agnet.Agentd.Stream.Laws.{
  buffer_in, IsQuiet, IsSaid, unchanged_refl, then_unchanged, status_to-IsQuiet, emit-IsSaid,
  numbered_by,
}
use agnet.Agentd.Stream.Recorded.{holder}

get-put_ne : (m : Fields) (k j : String) (v : Value) → k ≢ j → get (put m k v) j ≡ get m j
get-put_ne m k j v ne = ground (arith, get-put m k j v, eq_iff k j)

get-stamped :
    (now : ℕ) (d : Fields) (k : String)
    → ◌≢◌ {A = String} "timestamp" k
    → get (stamped now d) k ≡ get d k
get-stamped now d k ne = elim (Option-cases (get d "timestamp")) [
  | inl e ↦ rw (e, stamped) (get-put_ne d "timestamp" k (num now) ne)
  | inr (v, e) ↦ rw (e, stamped) refl
]

get-timed :
    (cx : Context) (t : String) (d : Fields) (k : String)
    → ◌≢◌ {A = String} "timestamp" k
    → get (timed cx t d) k ≡ get d k
get-timed cx t d k ne = elim (Bool-cases (is_empty t)) [
  | inl e ↦ rw e refl
  | inr e ↦ rw e (elim (Option-cases (cx.parse_nano t)) [
    | inr (ms, f) ↦ rw f (get-put_ne d "timestamp" k (num ms) ne)
    | inl f ↦ rw f (elim (Option-cases (cx.parse_plain t)) [
      | inr (ms, g) ↦ rw g (get-put_ne d "timestamp" k (num ms) ne)
      | inl g ↦ rw g refl
    ])
  ])
]

abbrev repeats : EventBuffer → String → Bool
repeats c t =
    get_string (EventBuf.last_event c).body "role" =s "user"
    && get_string (EventBuf.last_event c).body "text" =s t

is_repeated-buffer :
    (hub : Hub) (id t : String) (c : EventBuffer)
    → buffer_in hub id ≡ some c
    → is_repeated hub id t ≡ repeats c t
is_repeated-buffer hub id t c h =
    let (ag, e, f) = holder (lookup id hub.agents) c h in
    rw (e, is_repeated) (ap (λ a. repeats a t) f)

and_right : (a b : Bool) → (a && b) ≡ true → b ≡ true
and_right true b h = h
and_right false b h = cc

and_both : (a b : Bool) → a ≡ true → b ≡ true → (a && b) ≡ true
and_both a b h k = rw (h, k) refl

both : (x y t : String) → x ≡ "user" → y ≡ t → (x =s "user" && y =s t) ≡ true
both x y t e f = rw ((eq_iff x "user").1 e, (eq_iff y t).1 f) refl

abbrev pub start : Hub → Run
start hub = record { hub = hub; pushes = []; changes = [] }

module _ (cx : Context) (id : String) (ev : StreamJsonEvent) (b : EventBuffer) (valid : IsValid b)
    (by_user : role_of ev ≡ "user") where
  abbrev event : Fields
  event = numbered_by cx id b b (message_data cx ev)

  kept_field :
      (k : String)
      → ◌≢◌ {A = String} "timestamp" k
      → ◌≢◌ {A = String} "seq" k
      → get event k
        ≡ get
            (field "role" (text (role_of ev)) (
              field "text"
                (text (content_text ev.content))
                (field "raw" (flag false) (field "kind" (text (role_of ev)) end))))
            k
  kept_field k ne nf =
      get-put_ne (stamped cx.env.now (message_data cx ev)) "seq" k (num (EventBuf.next_seq b)) nf
      ∙ get-stamped cx.env.now (message_data cx ev) k ne
      ∙ get-timed cx ev.timestamp _ k ne

  event_role : get_string event "role" ≡ "user"
  unfolding get
  event_role =
      ap text_or_empty (
        kept_field "role" (λ e. ground (arith, (eq_iff "timestamp" "role").1 e))
          (λ e. ground (arith, (eq_iff "seq" "role").1 e)))
      ∙ by_user

  event_text : get_string event "text" ≡ content_text ev.content
  unfolding get
  event_text = ap text_or_empty (
      kept_field "text" (λ e. ground (arith, (eq_iff "timestamp" "text").1 e))
        (λ e. ground (arith, (eq_iff "seq" "text").1 e)))

  repeats-append : repeats (EventBuf.append b event).0 (content_text ev.content) ≡ true
  repeats-append =
      let e = ap (λ (x : EventBuf.Event). x.body) (last_event-append b event valid) in
      both (get_string (EventBuf.last_event (EventBuf.append b event).0).body "role")
        (get_string (EventBuf.last_event (EventBuf.append b event).0).body "text")
        (content_text ev.content) (ap (λ m. get_string m "role") e ∙ event_role)
        (ap (λ m. get_string m "text") e ∙ event_text)

  emitted :
      (r : Run)
      → buffer_in r.hub id ≡ some b
      → IsSaid cx id b r (emit cx id (message_data cx ev) r) event
  emitted r h =
      let (ag, e, f) = holder (lookup id r.hub.agents) b h in
      emit-IsSaid cx id b (message_data cx ev) r ag e f

  after_message-IsQuiet : (r : Run) → IsQuiet cx id b r (after_message id ev.kind r)
  after_message-IsQuiet r = elim (Bool-cases (ev.kind =s "user")) [
    | inl e ↦ rw e (status_to-IsQuiet cx id b id idle r)
    | inr e ↦ rw e (elim (Bool-cases (ev.kind =s "assistant")) [
      | inl f ↦ rw f (status_to-IsQuiet cx id b id working r)
      | inr f ↦ rw f (unchanged_refl cx id b r)
    ])
  ]

  repeated_now :
      (r : Run)
      → buffer_in r.hub id ≡ some b
      → is_repeated
          (after_message id ev.kind (emit cx id (message_data cx ev) r)).hub
          id
          (content_text ev.content)
        ≡ true
  repeated_now r h =
      is_repeated-buffer (after_message id ev.kind (emit cx id (message_data cx ev) r)).hub id
        (content_text ev.content) (EventBuf.append b event).0
        (then_unchanged cx id b (emitted r h)
          (after_message-IsQuiet (emit cx id (message_data cx ev) r))).own
      ∙ repeats-append

  -- The three ends of the case: no text, a repeated text, and a recorded message.
  message_ends :
      (hub : Hub)
      → buffer_in hub id ≡ some b
      → (P : Run → Type 0)
      → (is_empty (content_text ev.content) && not (has_tool_use ev.content) ≡ true → P (start hub))
      → (is_repeated hub id (content_text ev.content) ≡ true → P (start hub))
      → (is_repeated
              (after_message id ev.kind (emit cx id (message_data cx ev) (start hub))).hub
              id
              (content_text ev.content)
            ≡ true
          → P (after_message id ev.kind (emit cx id (message_data cx ev) (start hub))))
      → P (on_message cx id ev (start hub))
  unfolding on_message
  message_ends hub h P none_said said new =
      elim (Bool-cases (is_empty (content_text ev.content) && not (has_tool_use ev.content))) [
        | inl e ↦ rw e (none_said e)
        | inr e ↦
            rw e
              (elim (Bool-cases
                (role_of ev =s "user" && is_repeated hub id (content_text ev.content))) [
                  | inl f ↦ rw f (
                      said (
                        and_right (role_of ev =s "user")
                          (is_repeated hub id (content_text ev.content)) f))
                  | inr f ↦ rw f (new (repeated_now (start hub) h))
                ])
      ]

  skipped :
      (hub : Hub)
      → is_repeated hub id (content_text ev.content) ≡ true
      → on_message cx id ev (start hub) ≡ start hub
  unfolding on_message
  skipped hub e =
      elim (Bool-cases (is_empty (content_text ev.content) && not (has_tool_use ev.content))) [
        | inl f ↦ rw f refl
        | inr f ↦
            rw
              (
                f,
                and_both (role_of ev =s "user") (is_repeated hub id (content_text ev.content))
                    ((eq_iff (role_of ev) "user").1 by_user) e,
              )
              refl
      ]

  textless :
      (hub : Hub)
      → (is_empty (content_text ev.content) && not (has_tool_use ev.content)) ≡ true
      → on_message cx id ev (start hub) ≡ start hub
  unfolding on_message
  textless hub e = rw e refl

  -- A user's message that the stream brings again, with nothing recorded in between, changes nothing the
  -- second time: no event is recorded and no callback is called.
  pub on_message_once :
      (hub : Hub)
      → buffer_in hub id ≡ some b
      → on_message cx id ev (start (on_message cx id ev (start hub)).hub)
        ≡ start (on_message cx id ev (start hub)).hub
  on_message_once hub h =
      message_ends hub h (λ r. on_message cx id ev (start r.hub) ≡ start r.hub) (textless hub)
        (skipped hub)
        (skipped (after_message id ev.kind (emit cx id (message_data cx ev) (start hub))).hub)
