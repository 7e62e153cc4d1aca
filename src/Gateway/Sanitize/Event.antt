-- ===== src/Gateway/Sanitize/Event.antt =====
-- What of an event `sanitizeEventInPlace` rewrites (agentgw/internal/ws/sanitize.go).
use agnet.Common.{◌≡◌, refl, sym, ap, ◌∙◌, inl, inr, ◌≢◌, ◌&&◌, Option, none, some, String, arith}
use agnet.Common.{if◌then◌else◌, Bool-cases, Option-cases}
use mathlib.Core.Path.{subst}
use agnet.Common.Text.{Bytes, bytes, ◌=s◌, eq_iff}
use agnet.Common.Json.{
  Fields, Value, obj, arr, text, num, flag, null, get, put, as_text, get-put, get-put_self,
}
use agnet.Gateway.Sanitize.{
  sanitize_status_line, sanitize_event_in_place, sanitized_text_event, sanitize_params,
  sanitize_text,
}

-- The entry of the event's params.
abbrev pub entry : Option Value → String → Option Value
entry (some (obj params)) k = get params k
entry _ k = none

abbrev pub param : Fields → String → Option Value
param ev k = entry (get ev "params") k

-- A text is sanitized, any other value is kept.
abbrev pub sanitized_value : (Bytes → String) → Option Value → Option Value
sanitized_value of_bytes (some (text s)) = some (text (of_bytes (sanitize_status_line (bytes s))))
sanitized_value of_bytes v = v

kept_value :
    (of_bytes : Bytes → String) (v : Option Value)
    → as_text v ≡ none
    → sanitized_value of_bytes v ≡ v
kept_value of_bytes none h = refl
kept_value of_bytes (some (text s)) h = cc
kept_value of_bytes (some (obj _)) h = refl
kept_value of_bytes (some (arr _)) h = refl
kept_value of_bytes (some (num _)) h = refl
kept_value of_bytes (some (flag _)) h = refl
kept_value of_bytes (some null) h = refl

text_value : (v : Option Value) (line : String) → as_text v ≡ some line → v ≡ some (text line)
text_value (some (text s)) line h = cc
text_value none line h = cc
text_value (some (obj _)) line h = cc
text_value (some (arr _)) line h = cc
text_value (some (num _)) line h = cc
text_value (some (flag _)) line h = cc
text_value (some null) line h = cc

param-put :
    (ev params : Fields) (k : String) → param (put ev "params" (obj params)) k ≡ get params k
param-put ev params k = rw (get-put_self ev "params" (obj params)) refl

module _ (of_bytes : Bytes → String) (ev : Fields) where
  abbrev rewritten : String → Value
  rewritten line = text (of_bytes (sanitize_status_line (bytes line)))

  get-sanitize_params :
      (o : Option Value) (k : String)
      → k ≢ "params"
      → get (sanitize_params of_bytes ev o) k ≡ get ev k
  unfolding sanitize_params sanitize_text
  get-sanitize_params (some (obj params)) k ne = elim (Option-cases (as_text (get params "text"))) [
    | inl e ↦ rw (e, sanitize_text) refl
    | inr (line, e) ↦
        rw (e, sanitize_text)
          (ground (
            arith,
            eq_iff "params" k,
            get-put ev "params" k (obj (put params "text" (rewritten line))),
          ))
  ]
  get-sanitize_params none k ne = refl
  get-sanitize_params (some (arr _)) k ne = refl
  get-sanitize_params (some (text _)) k ne = refl
  get-sanitize_params (some (num _)) k ne = refl
  get-sanitize_params (some (flag _)) k ne = refl
  get-sanitize_params (some null) k ne = refl

  -- All of the event but its params is kept.
  pub get-sanitize_event :
      (k : String) → k ≢ "params" → get (sanitize_event_in_place of_bytes ev) k ≡ get ev k
  unfolding sanitize_event_in_place
  get-sanitize_event k ne = elim (Bool-cases (sanitized_text_event (as_text (get ev "method")))) [
    | inl e ↦ rw e (get-sanitize_params (get ev "params") k ne)
    | inr e ↦ rw e refl
  ]

  unwritten :
      (params : Fields) (k : String)
      → as_text (get params "text") ≡ none
      → get params k
        ≡ (if k =s "text" then sanitized_value of_bytes (get params k) else get params k)
  unwritten params k e = elim (Bool-cases (k =s "text")) [
    | inl q ↦ rw q (
        subst (λ j. get params j ≡ sanitized_value of_bytes (get params j))
          (sym ((eq_iff k "text").0 q)) (sym (kept_value of_bytes (get params "text") e)))
    | inr q ↦ rw q refl
  ]

  written :
      (params : Fields) (k line : String)
      → as_text (get params "text") ≡ some line
      → get (put params "text" (rewritten line)) k
        ≡ (if k =s "text" then sanitized_value of_bytes (get params k) else get params k)
  written params k line e = elim (Bool-cases (k =s "text")) [
    | inl q ↦ rw q (
        subst
          (λ j.
            get (put params "text" (rewritten line)) j ≡ sanitized_value of_bytes (get params j))
          (sym ((eq_iff k "text").0 q))
          (get-put_self params "text" (rewritten line)
            ∙ ap (sanitized_value of_bytes) (sym (text_value (get params "text") line e))))
    | inr q ↦
        rw q (
          ground
            (arith, get-put params "text" k (rewritten line), eq_iff k "text", eq_iff "text" k))
  ]

  param-sanitize_params :
      (o : Option Value) (k : String)
      → get ev "params" ≡ o
      → param (sanitize_params of_bytes ev o) k
        ≡ (if k =s "text" then sanitized_value of_bytes (entry o k) else entry o k)
  unfolding sanitize_params sanitize_text
  param-sanitize_params (some (obj params)) k h =
      elim (Option-cases (as_text (get params "text"))) [
        | inl e ↦ rw (e, sanitize_text) (rw h (unwritten params k e))
        | inr (line, e) ↦
            rw (e, sanitize_text)
              (param-put ev (put params "text" (rewritten line)) k ∙ written params k line e)
      ]
  param-sanitize_params none k h = rw h (ground arith)
  param-sanitize_params (some (arr _)) k h = rw h (ground arith)
  param-sanitize_params (some (text _)) k h = rw h (ground arith)
  param-sanitize_params (some (num _)) k h = rw h (ground arith)
  param-sanitize_params (some (flag _)) k h = rw h (ground arith)
  param-sanitize_params (some null) k h = rw h (ground arith)

  -- Of the params of any event only `text` changes, only where the method is one of the two of
  -- `sanitizedTextEvents`, and only if it is a string: it becomes the sanitized line.
  pub param-sanitize_event :
      (k : String)
      → param (sanitize_event_in_place of_bytes ev) k ≡ (
          if sanitized_text_event (as_text (get ev "method")) && k =s "text"
          then sanitized_value of_bytes (param ev k)
          else param ev k)
  unfolding sanitize_event_in_place
  param-sanitize_event k = elim (Bool-cases (sanitized_text_event (as_text (get ev "method")))) [
    | inl e ↦ rw e (param-sanitize_params (get ev "params") k refl)
    | inr e ↦ rw e refl
  ]
