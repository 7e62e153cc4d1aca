-- ===== src/Agentd/Tmux/Calls.antt =====
-- What every `tmux send-keys -l` call of `sendTmuxInput` carries.
use agnet.Common.{
  ℕ, zero, suc, ◌≡◌, refl, sym, ap, ◌∙◌, arith, Bool, false, Option, none, some, List, [], ◌∷◌,
  String, length, take, drop, take-append-drop, length-take, All, Bool-cases, inl, inr,
}
use agnet.Common.Text.{Bytes}
use agnet.Agentd.Tmux.{
  Call, key, literal, Reply, Sent, Ending, returned, running, Piece, press, paste, next_piece,
  piece_size, attempt, return_nil, go_on_from, is_control, max_chunk, send_literal_loop, send_piece,
  send_tmux_input,
}
use agnet.Agentd.Tmux.Pieces.{any, is_stuck, next_piece-Takes, next_piece_stuck}
use agnet.Agentd.Tmux.Literal.{IsPlainCall}
use agnet.Agentd.Tmux.Input.{any-append}

abbrev pub ArePlain : List Call → Type 0
ArePlain = All IsPlainCall

any_parts :
    (p : ℕ → Bool) (n : ℕ) (s : Bytes)
    → any p s ≡ false
    → (any p (take n s) ≡ false) × (any p (drop n s) ≡ false)
any_parts p n s h =
    ground (arith, any-append p (take n s) (drop n s), ap (any p) (take-append-drop n s))

attempt-ArePlain :
    (o : Option (String × String)) (done : List Call) (c : Call) (go_on : List Call → Sent)
    → IsPlainCall c
    → ArePlain done
    → (ArePlain (c ∷ done) → ArePlain (go_on (c ∷ done)).calls)
    → ArePlain (attempt o done c go_on).calls
attempt-ArePlain none done c go_on pc h next = next (pc, h)
attempt-ArePlain (some answer) done c go_on pc h next = (pc, h)

go_on_from-ArePlain :
    (done : List Call) (e : Ending) (go_on : List Call → Sent)
    → ArePlain done
    → ArePlain (go_on done).calls
    → ArePlain (go_on_from done e go_on).calls
go_on_from-ArePlain done (returned none) go_on h next = next
go_on_from-ArePlain done (returned (some e)) go_on h next = h
go_on_from-ArePlain done running go_on h next = h

module _ (reply : Reply) where
  send_literal_loop-ArePlain :
      (fuel : ℕ) (done : List Call) (s : Bytes)
      → any is_control s ≡ false
      → ArePlain done
      → ArePlain (send_literal_loop reply fuel done s).calls
  unfolding send_literal_loop
  send_literal_loop-ArePlain zero done s p h = h
  send_literal_loop-ArePlain (suc fuel) done [] p h = h
  send_literal_loop-ArePlain (suc fuel) done (b ∷ s) p h =
      let chunk = literal (take max_chunk (b ∷ s)) in
      attempt-ArePlain (reply done chunk) done chunk
        (λ made. send_literal_loop reply fuel made (drop max_chunk (b ∷ s)))
        (
          omega (arith, length-take max_chunk (b ∷ s)),
          omega (arith, length-take max_chunk (b ∷ s)),
          (any_parts is_control max_chunk (b ∷ s) p).0,
        )
        h
        (send_literal_loop-ArePlain fuel (chunk ∷ done) (drop max_chunk (b ∷ s))
          (any_parts is_control max_chunk (b ∷ s) p).1)

  send_piece-ArePlain :
      (done : List Call) (p : Piece) (s : Bytes)
      → ((n : ℕ) → p ≡ paste n → any is_control (take n s) ≡ false)
      → ArePlain done
      → ArePlain (send_piece reply done p s).calls
  unfolding send_piece
  send_piece-ArePlain done (press k n) s p h =
      attempt-ArePlain (reply done (key k)) done (key k) return_nil tt h (λ h'. h')
  send_piece-ArePlain done (paste zero) s p h = h
  send_piece-ArePlain done (paste (suc n)) s p h =
      send_literal_loop-ArePlain (suc (length (take (suc n) s))) done (take (suc n) s)
        (p (suc n) refl) h

  chunk_plain :
      (b n : ℕ) (s : Bytes) → next_piece (b ∷ s) ≡ paste n → any is_control (take n (b ∷ s)) ≡ false
  chunk_plain b n s e = elim (Bool-cases (is_stuck b)) [
    | inl stuck ↦
        let empty : 0 ≡ n = ap piece_size (sym (next_piece_stuck b s stuck) ∙ e) in
        rw (← empty) refl
    | inr moves ↦ (next_piece-Takes b s moves).plain n e
  ]

  -- Whatever the text and whatever `tmux` replies, and however long the loop runs after calls of this
  -- kind: every literal call made carries at least one byte, at most `max_chunk` bytes, and no control
  -- byte.
  pub send_tmux_input-ArePlain :
      (fuel : ℕ) (done : List Call) (s : Bytes)
      → ArePlain done
      → ArePlain (send_tmux_input reply fuel done s).calls
  unfolding send_tmux_input
  send_tmux_input-ArePlain zero done s h = h
  send_tmux_input-ArePlain (suc fuel) done [] h = h
  send_tmux_input-ArePlain (suc fuel) done (b ∷ s) h =
      let p = next_piece (b ∷ s) in
      let made = send_piece-ArePlain done p (b ∷ s) (λ n e. chunk_plain b n s e) h in
      go_on_from-ArePlain (send_piece reply done p (b ∷ s)).calls
        (send_piece reply done p (b ∷ s)).ending
        (λ sent. send_tmux_input reply fuel sent (drop (piece_size p) (b ∷ s))) made
        (send_tmux_input-ArePlain fuel (send_piece reply done p (b ∷ s)).calls
          (drop (piece_size p) (b ∷ s)) made)
