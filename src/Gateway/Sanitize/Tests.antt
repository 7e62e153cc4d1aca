-- ===== src/Gateway/Sanitize/Tests.antt =====
-- The theorems on sanitized lines, at lines that a terminal shows.
use agnet.Common.{◌≡◌, refl, ◌&&◌, if◌then◌else◌, String, All}
use agnet.Common.Text.{Bytes, bytes, ◌=s◌}
use agnet.Common.Utf8.{decode, decode_from, next_rune}
use agnet.Common.Json.{Fields, obj, text, end, field, get, as_text}
use agnet.Gateway.Sanitize.{
  status_line_replacement, append_rune, sanitize_rune, sanitize_runes, sanitize_status_line,
  sanitize_event_in_place, sanitized_text_event,
}
use agnet.Gateway.Sanitize.Laws.{
  IsShowable, displayed, decode-sanitize_status_line, sanitize_status_line_idempotent,
}
use agnet.Gateway.Sanitize.Event.{param, sanitized_value, param-sanitize_event}

-- A frame, a carriage return sign, the mark of a subtree, and a sign that the fonts have.
abbrev line : Bytes
line = bytes "│ ok ↵ ⎿ 中 →"

sanitize_line : sanitize_status_line line ≡ bytes "| ok <CR> L 中 ->"
unfolding sanitize_status_line sanitize_runes sanitize_rune status_line_replacement append_rune
    decode decode_from next_rune
sanitize_line = refl

decode-sanitize_status_line_example :
    (decode (sanitize_status_line line) ≡ displayed (decode line))
    × All IsShowable (decode (sanitize_status_line line))
decode-sanitize_status_line_example = decode-sanitize_status_line line

sanitize_status_line_idempotent_example :
    sanitize_status_line (sanitize_status_line line) ≡ sanitize_status_line line
sanitize_status_line_idempotent_example = sanitize_status_line_idempotent line

abbrev event : Fields
event =
    field "method" (text "conversation.message")
      (field "params" (obj (field "agentId" (text "a1") (field "text" (text "│ ok") end))) end)

abbrev blank : Bytes → String
blank s = "-"

param-sanitize_event_example : param (sanitize_event_in_place blank event) "text" ≡ (
    if sanitized_text_event (as_text (get event "method")) && "text" =s "text"
    then sanitized_value blank (param event "text")
    else param event "text")
param-sanitize_event_example = param-sanitize_event blank event "text"
