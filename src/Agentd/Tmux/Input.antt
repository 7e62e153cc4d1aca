-- ===== src/Agentd/Tmux/Input.antt =====
-- `sendTmuxInput`: when it returns, and what has then been typed.
use agnet.Common.{
  ℕ, zero, suc, ◌<◌, ◌≡◌, refl, sym, ap, ◌∙◌, arith, Bool, true, false, ◌||◌, none, some, List, [],
  ◌∷◌, ◌++◌, map, append_assoc, append-nil, length, take, drop, take-append-drop, length-drop,
  Bool-cases, inl, inr,
}
use mathlib.Core.List.{map-append}
use agnet.Common.Text.{Bytes}
use agnet.Agentd.Tmux.{
  Call, Reply, Sent, Ending, returned, running, Piece, press, paste, next_piece, piece_size,
  go_on_from, send_piece, send_tmux_input,
}
use agnet.Agentd.Tmux.Pieces.{
  any, is_stuck, as_typed, piece_bytes, Takes, next_piece-Takes, next_piece_stuck,
}
use agnet.Agentd.Tmux.Literal.{
  typed, Accepted, Delivered, Delivers, send_tmux_key-Delivers, send_tmux_literal-Delivers,
}

pub any-append : (p : ℕ → Bool) (s t : Bytes) → any p (s ++ t) ≡ (any p s || any p t)
any-append p [] t = refl
any-append p (b ∷ s) t = ground (arith, any-append p s t)

-- What `take` leaves, `drop` has.
any-drop :
    (p : ℕ → Bool) (n : ℕ) (s : Bytes) → any p (take n s) ≡ false → any p (drop n s) ≡ any p s
any-drop p n s h =
    ground (arith, any-append p (take n s) (drop n s), ap (any p) (take-append-drop n s))

module _ (reply : Reply) where
  send_piece-Delivers :
      (done : List Call) (p : Piece) (s : Bytes)
      → 0 < piece_size p
      → Accepted reply done
      → Delivers reply (typed done ++ piece_bytes p s) (send_piece reply done p s)
  unfolding send_piece
  send_piece-Delivers done (press k n) s h acc = send_tmux_key-Delivers reply done k acc
  send_piece-Delivers done (paste zero) s h acc = absurd (omega arith)
  send_piece-Delivers done (paste (suc n)) s h acc =
      send_tmux_literal-Delivers reply done (take (suc n) s) acc

  -- A call that returned nil goes on; one that failed has already typed a prefix.
  go_on_from-Delivers :
      (done : List Call) (e : Ending) (now rest want : Bytes) (go_on : List Call → Sent)
      → now ++ rest ≡ want
      → Delivered reply now done e
      → (Accepted reply done → typed done ≡ now → Delivers reply want (go_on done))
      → Delivers reply want (go_on_from done e go_on)
  go_on_from-Delivers done (returned none) now rest want go_on eq (acc, t) next = next acc t
  go_on_from-Delivers done (returned (some e)) now rest want go_on eq
        (c, earlier, answer, left, made, acc, refused, why, t) next =
      (
        c,
        earlier,
        answer,
        left ++ rest,
        made,
        acc,
        refused,
        why,
        sym (append_assoc (typed earlier) left rest) ∙ ap (λ x. x ++ rest) t ∙ eq,
      )
  go_on_from-Delivers done running now rest want go_on eq bad next = absurd bad

  split_text :
      (n : ℕ) (s : Bytes) → map as_typed (take n s) ++ map as_typed (drop n s) ≡ map as_typed s
  split_text n s =
      sym (map-append as_typed (take n s) (drop n s)) ∙ ap (map as_typed) (take-append-drop n s)

  pub send_tmux_input_from :
      (fuel : ℕ) (done : List Call) (s want : Bytes)
      → length s < fuel
      → any is_stuck s ≡ false
      → typed done ++ map as_typed s ≡ want
      → Accepted reply done
      → Delivers reply want (send_tmux_input reply fuel done s)
  unfolding send_tmux_input
  send_tmux_input_from zero done s want h ok t acc = absurd (omega arith)
  send_tmux_input_from (suc fuel) done [] want h ok t acc = (acc, sym (append-nil (typed done)) ∙ t)
  send_tmux_input_from (suc fuel) done (b ∷ s) want h ok t acc =
      go_on_from-Delivers (send_piece reply done p (b ∷ s)).calls
        (send_piece reply done p (b ∷ s)).ending (typed done ++ piece_bytes p (b ∷ s))
        (map as_typed (drop n (b ∷ s))) want
        (λ made. send_tmux_input reply fuel made (drop n (b ∷ s))) whole
        (send_piece-Delivers done p (b ∷ s) takes.some_bytes acc)
        (λ acc' now.
          send_tmux_input_from fuel (send_piece reply done p (b ∷ s)).calls (drop n (b ∷ s)) want
            (omega (arith, length-drop n (b ∷ s), takes))
            (any-drop is_stuck n (b ∷ s) takes.unstuck ∙ ok)
            (ap (λ x. x ++ map as_typed (drop n (b ∷ s))) now ∙ whole) acc')
    where
      p : Piece
      p = next_piece (b ∷ s)

      n : ℕ
      n = piece_size p

      takes : Takes p (b ∷ s)
      takes = next_piece-Takes b s (ground arith)

      whole : (typed done ++ piece_bytes p (b ∷ s)) ++ map as_typed (drop n (b ∷ s)) ≡ want
      whole =
          append_assoc (typed done) (piece_bytes p (b ∷ s)) (map as_typed (drop n (b ∷ s)))
          ∙ ap (λ x. typed done ++ (x ++ map as_typed (drop n (b ∷ s)))) (sym takes.typed)
          ∙ ap (◌++◌ (typed done)) (split_text n (b ∷ s))
          ∙ t

-- A text with no stuck byte: with a round for every byte `sendTmuxInput` returns. If it returns nil,
-- every call was accepted and together they type the text, newlines as carriage returns; if it
-- returns an error, that is the answer to the last call, no call followed it, and the calls before
-- it typed a prefix.
pub send_tmux_input-Delivers :
    (reply : Reply) (s : Bytes)
    → any is_stuck s ≡ false
    → Delivers reply (map as_typed s) (send_tmux_input reply (suc (length s)) [] s)
send_tmux_input-Delivers reply s h =
    send_tmux_input_from reply (suc (length s)) [] s (map as_typed s) (omega arith) h refl tt

-- A piece whose calls are all accepted is delivered.
Delivered-accepting :
    (reply : Reply) (want : Bytes) (calls : List Call) (e : Ending)
    → ((done : List Call) (c : Call) → reply done c ≡ none)
    → Delivered reply want calls e
    → e ≡ returned none
Delivered-accepting reply want calls (returned none) h d = refl
Delivered-accepting reply want calls (returned (some e)) h
      (c, earlier, answer, left, made, acc, refused, why, t) =
    cc (h earlier c)
Delivered-accepting reply want calls running h d = absurd d

all_Accepted :
    (reply : Reply)
    → ((made : List Call) (c : Call) → reply made c ≡ none)
    → (done : List Call) → Accepted reply done
all_Accepted reply h [] = tt
all_Accepted reply h (c ∷ done) = (h done c, all_Accepted reply h done)

piece_accepted :
    (reply : Reply) (done : List Call) (p : Piece) (s : Bytes)
    → ((made : List Call) (c : Call) → reply made c ≡ none)
    → 0 < piece_size p
    → (send_piece reply done p s).ending ≡ returned none
piece_accepted reply done p s h pos =
    Delivered-accepting reply (typed done ++ piece_bytes p s) (send_piece reply done p s).calls
      (send_piece reply done p s).ending h
      (send_piece-Delivers reply done p s pos (all_Accepted reply h done))

-- If every call succeeds and the text has a control byte that no case handles, then `sendTmuxInput`
-- never returns: no number of rounds ends it.
pub send_tmux_input_hangs :
    (reply : Reply) (fuel : ℕ) (done : List Call) (s : Bytes)
    → ((made : List Call) (c : Call) → reply made c ≡ none)
    → any is_stuck s ≡ true
    → (send_tmux_input reply fuel done s).ending ≡ running
unfolding send_tmux_input send_piece
send_tmux_input_hangs reply zero done s h stuck = refl
send_tmux_input_hangs reply (suc fuel) done [] h stuck = cc
send_tmux_input_hangs reply (suc fuel) done (b ∷ s) h stuck = elim (Bool-cases (is_stuck b)) [
  | inl e ↦ rw (next_piece_stuck b s e) (send_tmux_input_hangs reply fuel done (b ∷ s) h stuck)
  | inr e ↦
      let p = next_piece (b ∷ s) in
      let takes : Takes p (b ∷ s) = next_piece-Takes b s e in
      rw (piece_accepted reply done p (b ∷ s) h takes.some_bytes) (
        send_tmux_input_hangs reply fuel (send_piece reply done p (b ∷ s)).calls
          (drop (piece_size p) (b ∷ s)) h
          (any-drop is_stuck (piece_size p) (b ∷ s) takes.unstuck ∙ stuck))
]
