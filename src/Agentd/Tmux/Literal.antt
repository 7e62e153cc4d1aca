-- ===== src/Agentd/Tmux/Literal.antt =====
-- `sendTmuxLiteral`: the text goes out in chunks, in order.
use agnet.Common.{
  String, ℕ, zero, suc, ◌≤◌, ◌<◌, ◌≡◌, refl, sym, ap, ◌∙◌, arith, false, Option, none, some, List,
  [], ◌∷◌, ◌++◌, append_assoc, append-nil, length, take, drop, take-append-drop, length-drop,
}
use agnet.Common.Text.{Bytes}
use agnet.Agentd.Tmux.{
  Key, Call, key, literal, Reply, Sent, Ending, returned, running, is_control, max_chunk,
  send_literal_loop, send_tmux_literal, send_tmux_key, failure, attempt, return_nil,
}
use agnet.Agentd.Tmux.Pieces.{any, key_bytes}

-- What the calls type into the pane. The newest call stands first.
abbrev pub typed : List Call → Bytes
typed [] = []
typed (key k ∷ done) = typed done ++ key_bytes k
typed (literal s ∷ done) = typed done ++ s

-- A literal call carries between 1 and `max_chunk` bytes, none of them a control byte.
abbrev pub IsPlainCall : Call → Type 0
IsPlainCall (key k) = Unit
IsPlainCall (literal s) = (0 < length s) × (length s ≤ max_chunk) × (any is_control s ≡ false)

-- No call after a failure: only the newest call may have failed.
abbrev pub Accepted : Reply → List Call → Type 0
Accepted reply [] = Unit
Accepted reply (c ∷ done) = (reply done c ≡ none) × Accepted reply done

-- What the calls, newest first, amount to when the function ended so and the text asked for was
-- `want`. Success: every call was accepted and together they type `want`. Failure: the newest call
-- was refused, its answer is the error, and the accepted calls before it type a prefix of `want`.
abbrev pub Delivered : Reply → Bytes → List Call → Ending → Type 0
Delivered reply want calls (returned none) = Accepted reply calls × (typed calls ≡ want)
Delivered reply want calls (returned (some e)) =
    (c : Call) × (earlier : List Call) × (answer : String × String) × (rest : Bytes) × (calls
      ≡ c ∷ earlier)
    × Accepted reply earlier
    × (reply earlier c ≡ some answer)
    × (e ≡ failure answer)
    × (typed earlier ++ rest ≡ want)
Delivered reply want calls running = ⊥

abbrev pub Delivers : Reply → Bytes → Sent → Type 0
Delivers reply want s = Delivered reply want s.calls s.ending

module _ (reply : Reply) (want : Bytes) where
  -- A call tried after accepted ones: it is refused, or the rest of the loop has to deliver.
  pub attempt-Delivers :
      (o : Option (String × String)) (done : List Call) (c : Call) (go_on : List Call → Sent)
      → reply done c ≡ o
      → Accepted reply done
      → (rest : Bytes) → typed done ++ rest ≡ want
      → (Accepted reply (c ∷ done) → Delivers reply want (go_on (c ∷ done)))
      → Delivers reply want (attempt o done c go_on)
  attempt-Delivers none done c go_on e acc rest t next = next (e, acc)
  attempt-Delivers (some answer) done c go_on e acc rest t next =
      (c, done, answer, rest, refl, acc, e, refl, t)

module _ (reply : Reply) where
  pub send_tmux_key-Delivers :
      (done : List Call) (k : Key)
      → Accepted reply done
      → Delivers reply (typed done ++ key_bytes k) (send_tmux_key reply done k)
  unfolding send_tmux_key
  send_tmux_key-Delivers done k acc =
      attempt-Delivers reply (typed done ++ key_bytes k) (reply done (key k)) done (key k)
        return_nil refl acc (key_bytes k) refl (λ acc'. (acc', refl))

  chunk_then_rest :
      (done : List Call) (s : Bytes)
      → typed (literal (take max_chunk s) ∷ done) ++ drop max_chunk s ≡ typed done ++ s
  chunk_then_rest done s =
      append_assoc (typed done) (take max_chunk s) (drop max_chunk s)
      ∙ ap (◌++◌ (typed done)) (take-append-drop max_chunk s)

  -- With fuel for every byte the loop returns, and delivers the text.
  pub send_literal_loop-Delivers :
      (fuel : ℕ) (done : List Call) (s want : Bytes)
      → length s < fuel
      → typed done ++ s ≡ want
      → Accepted reply done
      → Delivers reply want (send_literal_loop reply fuel done s)
  unfolding send_literal_loop
  send_literal_loop-Delivers zero done s want h t acc = absurd (omega arith)
  send_literal_loop-Delivers (suc fuel) done [] want h t acc =
      (acc, sym (append-nil (typed done)) ∙ t)
  send_literal_loop-Delivers (suc fuel) done (b ∷ s) want h t acc =
      let chunk = literal (take max_chunk (b ∷ s)) in
      attempt-Delivers reply want (reply done chunk) done chunk
        (λ made. send_literal_loop reply fuel made (drop max_chunk (b ∷ s))) refl acc (b ∷ s) t
        (send_literal_loop-Delivers fuel (chunk ∷ done) (drop max_chunk (b ∷ s)) want
          (omega (arith, length-drop max_chunk (b ∷ s))) (chunk_then_rest done (b ∷ s) ∙ t))

  pub send_tmux_literal-Delivers :
      (done : List Call) (s : Bytes)
      → Accepted reply done
      → Delivers reply (typed done ++ s) (send_tmux_literal reply done s)
  unfolding send_tmux_literal
  send_tmux_literal-Delivers done s acc =
      send_literal_loop-Delivers (suc (length s)) done s (typed done ++ s) (omega arith) refl acc
