-- ===== src/Agentd/Tmux.antt =====
-- agentd/internal/agent/agent.go, sendTmuxInput to ValidateNonShellPane: text typed into a tmux pane.
-- `tmux` itself is a parameter: `reply done c` is what the command answers to the call `c` after the
-- calls `done`, newest first: `none` for success, else its trimmed output and the error's text.
pub mod Pieces
pub mod Literal
pub mod Input
pub mod Calls
mod Tests
use agnet.Common.{
  ℕ, zero, suc, ◌+◌, Bool, true, false, ◌||◌, ◌&&◌, Option, none, some, List, [], ◌∷◌, String, ltb,
  ◌==◌, if◌then◌else◌, length, take, drop,
}
use agnet.Common.Text.{Bytes, ◌=s◌, is_empty}

-- The key names that `send-keys` is called with.
pub data Key : Type 0 where
  up down right left enter tab b_space escape : Key

-- `tmux send-keys -t target K` and `tmux send-keys -t target -l text`.
pub data Call : Type 0 where
  key : Key → Call
  literal : Bytes → Call

pub data TmuxError : Type 0 where
  send_keys_failed : String → TmuxError

abbrev pub Reply : Type 0
Reply = List Call → Call → Option (String × String)

-- How a loop ended: it returned (with `none` for a nil error), or its fuel ran out.
pub data Ending : Type 0 where
  returned : Option TmuxError → Ending
  running : Ending

-- The calls made so far, newest first, and how the function ended.
pub record Sent : Type 0 where
  pub calls : List Call
  pub ending : Ending

-- The error made of a failed call: the command's output, or the error where that is empty.
abbrev pub failure : String × String → TmuxError
failure (out, err) = send_keys_failed (if is_empty out then err else out)

abbrev pub starts_with : Bytes → Bytes → Bool
starts_with [] s = true
starts_with (b ∷ bs) [] = false
starts_with (b ∷ bs) (c ∷ s) = c == b && starts_with bs s

-- The bytes at which the default case ends its chunk.
abbrev pub is_control : ℕ → Bool
is_control b = ltb b 0x20 || b == 0x7F || b == 0x1B

-- The `for` loop of the default case: the place of the first control byte, or the length.
pub next_control : Bytes → ℕ
next_control [] = 0
next_control (b ∷ s) = let rest = suc (next_control s) in if is_control b then 0 else rest

-- One round of the loop: a key and the bytes that it stands for, or a chunk of `n` bytes.
pub data Piece : Type 0 where
  press : Key → ℕ → Piece
  paste : ℕ → Piece

abbrev pub piece_size : Piece → ℕ
piece_size (press k n) = n
piece_size (paste n) = n

-- The `switch` on what is left, in its order.
pub next_piece : Bytes → Piece
next_piece s =
    if starts_with (0x1B ∷ b'[' ∷ b'A' ∷ []) s
    then press up 3
    else if starts_with (0x1B ∷ b'[' ∷ b'B' ∷ []) s
    then press down 3
    else if starts_with (0x1B ∷ b'[' ∷ b'C' ∷ []) s
    then press right 3
    else if starts_with (0x1B ∷ b'[' ∷ b'D' ∷ []) s
    then press left 3
    else if starts_with (0x0D ∷ []) s
    then press enter 1
    else if starts_with (0x0A ∷ []) s
    then press enter 1
    else if starts_with (0x09 ∷ []) s
    then press tab 1
    else if starts_with (0x7F ∷ []) s
    then press b_space 1
    else if starts_with (0x1B ∷ []) s
    then press escape 1
    else paste (next_control s)

-- `tmuxSendKeysMaxChunk`
abbrev pub max_chunk : ℕ
max_chunk = 1024

-- `if err != nil { return … }` after the call `c`: go on from the calls now made, or return.
abbrev pub attempt : Option (String × String) → List Call → Call → (List Call → Sent) → Sent
attempt none done c go_on = go_on (c ∷ done)
attempt (some answer) done c go_on = record {
  calls = c ∷ done;
  ending = returned (some (failure answer));
}

abbrev pub return_nil : List Call → Sent
return_nil done = record { calls = done; ending = returned none }

-- Go on where a call returned nil, else end as it did.
abbrev pub go_on_from : List Call → Ending → (List Call → Sent) → Sent
go_on_from done (returned none) go_on = go_on done
go_on_from done e go_on = record { calls = done; ending = e }

abbrev pub and_then : Sent → (List Call → Sent) → Sent
and_then s go_on = go_on_from s.calls s.ending go_on

module _ (reply : Reply) where
  pub send_tmux_key : List Call → Key → Sent
  send_tmux_key done k = attempt (reply done (key k)) done (key k) return_nil

  -- One round sends at most `max_chunk` bytes. The fuel bounds the rounds.
  pub send_literal_loop : ℕ → List Call → Bytes → Sent
  send_literal_loop zero done s = record { calls = done; ending = running }
  send_literal_loop (suc fuel) done [] = return_nil done
  send_literal_loop (suc fuel) done (b ∷ s) =
      let chunk = literal (take max_chunk (b ∷ s)) in
      attempt (reply done chunk) done chunk
        (λ made. send_literal_loop fuel made (drop max_chunk (b ∷ s)))

  -- Each round takes a byte at least.
  pub send_tmux_literal : List Call → Bytes → Sent
  unfolding send_literal_loop
  send_tmux_literal done s = send_literal_loop (suc (length s)) done s

  -- What one round of `sendTmuxInput` sends; an empty chunk is not sent.
  pub send_piece : List Call → Piece → Bytes → Sent
  unfolding send_tmux_key send_tmux_literal
  send_piece done (press k n) s = send_tmux_key done k
  send_piece done (paste zero) s = return_nil done
  send_piece done (paste (suc n)) s = send_tmux_literal done (take (suc n) s)

  -- `sendTmuxInput`. The loop of the source has no bound: `running` says that it is still going.
  pub send_tmux_input : ℕ → List Call → Bytes → Sent
  unfolding send_piece
  send_tmux_input zero done s = record { calls = done; ending = running }
  send_tmux_input (suc fuel) done [] = return_nil done
  send_tmux_input (suc fuel) done (b ∷ s) =
      let p = next_piece (b ∷ s) in
      and_then (send_piece done p (b ∷ s))
        (λ made. send_tmux_input fuel made (drop (piece_size p) (b ∷ s)))
