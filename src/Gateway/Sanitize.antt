-- ===== src/Gateway/Sanitize.antt =====
-- Status lines on their way to the application (agentgw/internal/ws/sanitize.go): the characters
-- that its fonts lack are replaced.
--
-- A Go string is its bytes. `of_bytes` is the conversion of bytes to the text of a JSON value.
pub mod Laws
pub mod Event
mod Tests
use agnet.Common.{
  ℕ, ◌+◌, ◌/◌, ◌%◌, Bool, true, false, ◌&&◌, ◌||◌, Option, none, some, List, [], ◌∷◌,
}
use agnet.Common.{◌++◌, String, ltb, leb, ◌==◌, if◌then◌else◌}
use agnet.Common.Text.{Bytes, bytes, ◌=s◌}
use agnet.Common.Json.{Fields, Value, obj, text, get, put, as_text}
use agnet.Common.Utf8.{decode}

abbrev one_of : List ℕ → ℕ → Bool
one_of [] r = false
one_of (x ∷ xs) r = r == x || one_of xs r

unfoldable pub status_line_replacement : ℕ → Option String
status_line_replacement r =
    if one_of (0x2500 ∷ 0x2501 ∷ 0x2504 ∷ 0x2505 ∷ 0x2508 ∷ 0x2509 ∷ 0x254C ∷ 0x254D ∷ []) r
    then some "-"
    else if one_of (0x2502 ∷ 0x2503 ∷ 0x2506 ∷ 0x2507 ∷ 0x250A ∷ 0x250B ∷ 0x254E ∷ 0x254F ∷ []) r
    then some "|"
    else if leb 0x250C r && leb r 0x254B
    then some "+"
    else if leb 0x256D r && leb r 0x2573
    then some "+"
    else if one_of (0x2550 ∷ 0x2552 ∷ 0x2555 ∷ 0x2558 ∷ 0x255B ∷ 0x2564 ∷ 0x2567 ∷ []) r
    then some "="
    else if one_of (0x2551 ∷ 0x2553 ∷ 0x2556 ∷ 0x2559 ∷ 0x255C ∷ 0x2565 ∷ 0x2568 ∷ []) r
    then some "|"
    else if one_of
        (0x2554 ∷ 0x2557 ∷ 0x255A ∷ 0x255D ∷ 0x2560 ∷ 0x2563 ∷ 0x2566 ∷ 0x2569 ∷ 0x256A ∷ 0x256B
          ∷ 0x256C ∷ [])
        r
    then some "+"
    else if r == 0x21B5
    then some "<CR>"
    else if r == 0x23BF
    then some "L"
    else if r == 0x23FA
    then some "●"
    else if r == 0x2190
    then some "<-"
    else if r == 0x2191
    then some "^"
    else if r == 0x2192
    then some "->"
    else if r == 0x2193
    then some "v"
    else if r == 0x2612
    then some "[X]"
    else none

unfoldable pub append_rune : Bytes → ℕ → Bytes
append_rune b r =
    if ltb r 0x80
    then b ++ (r ∷ [])
    else if ltb r 0x800
    then b ++ ((0xC0 + r / 64) ∷ (0x80 + r % 64) ∷ [])
    else if ltb r 0x10000
    then (if leb 0xD800 r && leb r 0xDFFF
        then b ++ (0xEF ∷ 0xBF ∷ 0xBD ∷ [])
        else b ++ ((0xE0 + r / 4096) ∷ (0x80 + r / 64 % 64) ∷ (0x80 + r % 64) ∷ []))
    else if ltb 0x10FFFF r
    then b ++ (0xEF ∷ 0xBF ∷ 0xBD ∷ [])
    else b
      ++ ((0xF0 + r / 262144)
          ∷ (0x80 + r / 4096 % 64)
          ∷ (0x80 + r / 64 % 64)
          ∷ (0x80 + r % 64)
          ∷ [])

-- The loop that looks for a byte that is not ASCII.
abbrev pub all_ascii : Bytes → Bool
all_ascii [] = true
all_ascii (c ∷ s) = ltb c 0x80 && all_ascii s

-- One round of the loop over the runes: `b` is what has been built.
unfoldable pub sanitize_rune : Bytes → ℕ → Bytes
sanitize_rune b r = elim (status_line_replacement r) [
  | some rep ↦ b ++ bytes rep
  | none ↦ append_rune b r
]

unfoldable pub sanitize_runes : Bytes → List ℕ → Bytes
sanitize_runes b [] = b
sanitize_runes b (r ∷ rs) = sanitize_runes (sanitize_rune b r) rs

unfoldable pub sanitize_status_line : Bytes → Bytes
sanitize_status_line [] = []
sanitize_status_line s = if all_ascii s then s else sanitize_runes [] (decode s)

-- Membership in `sanitizedTextEvents`; a method that is no string is the empty one.
unfoldable pub sanitized_text_event : Option String → Bool
sanitized_text_event none = false
sanitized_text_event (some method) =
    method =s "conversation.message" || method =s "conversation.message_update"

-- `params["text"] = …` also shows in the event, which holds the same map.
unfoldable pub sanitize_text : (Bytes → String) → Fields → Fields → Option String → Fields
sanitize_text of_bytes ev params none = ev
sanitize_text of_bytes ev params (some line) =
    put ev "params" (obj (put params "text" (text (of_bytes (sanitize_status_line (bytes line))))))

unfoldable pub sanitize_params : (Bytes → String) → Fields → Option Value → Fields
sanitize_params of_bytes ev (some (obj params)) =
    sanitize_text of_bytes ev params (as_text (get params "text"))
sanitize_params of_bytes ev _ = ev

unfoldable pub sanitize_event_in_place : (Bytes → String) → Fields → Fields
sanitize_event_in_place of_bytes ev =
    if sanitized_text_event (as_text (get ev "method"))
    then sanitize_params of_bytes ev (get ev "params")
    else ev
