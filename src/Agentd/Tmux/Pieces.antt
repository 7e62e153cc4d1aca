-- ===== src/Agentd/Tmux/Pieces.antt =====
-- What one round of `sendTmuxInput` takes off the front of the text.
use agnet.Common.{
  ℕ, ◌≤◌, ◌<◌, ◌≡◌, refl, sym, ap, arith, Bool, true, false, ◌||◌, ◌&&◌, not, [], ◌∷◌, map, ◌==◌,
  if◌then◌else◌, length, take, inl, inr, ◌⊎◌, Bool-cases,
}
use agnet.Common.Text.{Bytes}
use agnet.Agentd.Tmux.{
  Key, up, down, right, left, enter, tab, b_space, escape, is_control, next_control, Piece, press,
  paste, next_piece, piece_size,
}

-- A control byte that no case of the `switch` names.
abbrev pub is_stuck : ℕ → Bool
is_stuck b = is_control b && not (b == 0x0D || b == 0x0A || b == 0x09 || b == 0x7F || b == 0x1B)

abbrev pub any : (ℕ → Bool) → Bytes → Bool
any p [] = false
any p (b ∷ s) = p b || any p s

-- The bytes that a pane's program reads for a key; both line ends are typed as Enter.
abbrev pub key_bytes : Key → Bytes
key_bytes up = 0x1B ∷ b'[' ∷ b'A' ∷ []
key_bytes down = 0x1B ∷ b'[' ∷ b'B' ∷ []
key_bytes right = 0x1B ∷ b'[' ∷ b'C' ∷ []
key_bytes left = 0x1B ∷ b'[' ∷ b'D' ∷ []
key_bytes enter = 0x0D ∷ []
key_bytes tab = 0x09 ∷ []
key_bytes b_space = 0x7F ∷ []
key_bytes escape = 0x1B ∷ []

-- A newline reaches the pane as a carriage return.
abbrev pub as_typed : ℕ → ℕ
as_typed b = if b == 0x0A then 0x0D else b

abbrev pub piece_bytes : Piece → Bytes → Bytes
piece_bytes (press k n) s = key_bytes k
piece_bytes (paste n) s = take n s

-- What a round that gets somewhere takes: `n` bytes, none of them stuck, that are typed as they are.
pub record Takes (p : Piece) (s : Bytes) : Type 0 where
  pub some_bytes : 0 < piece_size p
  pub in_text : piece_size p ≤ length s
  pub typed : map as_typed (take (piece_size p) s) ≡ piece_bytes p s
  pub unstuck : any is_stuck (take (piece_size p) s) ≡ false
  pub plain : (n : ℕ) → p ≡ paste n → any is_control (take n s) ≡ false

next_control-le : (s : Bytes) → next_control s ≤ length s
unfolding next_control
next_control-le [] = omega arith
next_control-le (b ∷ s) = ground (arith, next_control-le s)

plain_before_control : (s : Bytes) → any is_control (take (next_control s) s) ≡ false
unfolding next_control
plain_before_control [] = refl
plain_before_control (b ∷ s) = elim (Bool-cases (is_control b)) [
  | inl h ↦ rw h
  | inr h ↦ rw h (rw h (plain_before_control s))
]

pub next_piece_stuck : (b : ℕ) (s : Bytes) → is_stuck b ≡ true → next_piece (b ∷ s) ≡ paste 0
unfolding next_piece next_control
next_piece_stuck b s h = ground arith

next_piece-paste :
    (b : ℕ) (s : Bytes) → is_control b ≡ false → next_piece (b ∷ s) ≡ paste (next_control (b ∷ s))
unfolding next_piece
next_piece-paste b s h = ground arith

plain-typed : (s : Bytes) → any is_control s ≡ false → map as_typed s ≡ s
plain-typed [] h = refl
plain-typed (b ∷ s) h = ground (arith, plain-typed s)

plain-unstuck : (s : Bytes) → any is_control s ≡ false → any is_stuck s ≡ false
plain-unstuck [] h = refl
plain-unstuck (b ∷ s) h = ground (arith, plain-unstuck s)

next_control-pos : (b : ℕ) (s : Bytes) → is_control b ≡ false → 0 < next_control (b ∷ s)
unfolding next_control
next_control-pos b s h = rw h (omega arith)

Takes-paste :
    (b : ℕ) (s : Bytes) → is_control b ≡ false → Takes (paste (next_control (b ∷ s))) (b ∷ s)
Takes-paste b s h = record {
  some_bytes = next_control-pos b s h;
  in_text = next_control-le (b ∷ s);
  typed = plain-typed (take (next_control (b ∷ s)) (b ∷ s)) chunk_plain;
  unstuck = plain-unstuck (take (next_control (b ∷ s)) (b ∷ s)) chunk_plain;
  plain = λ n e. rw (← paste_size e) chunk_plain;
}
  where
    chunk_plain : any is_control (take (next_control (b ∷ s)) (b ∷ s)) ≡ false
    chunk_plain = plain_before_control (b ∷ s)

    paste_size : {m n : ℕ} → paste m ≡ paste n → m ≡ n
    paste_size e = ap piece_size e

-- A key of one byte.
Takes-press :
    (k : Key) (b : ℕ) (s : Bytes)
    → key_bytes k ≡ as_typed b ∷ []
    → is_stuck b ≡ false
    → Takes (press k 1) (b ∷ s)
Takes-press k b s e h = record {
  some_bytes = omega arith;
  in_text = omega arith;
  typed = sym e;
  unstuck = rw h;
  plain = λ n e. cc;
}

Takes-arrow :
    (k : Key) (s : Bytes) → next_piece (0x1B ∷ s) ≡ press k 3 → Takes (press k 3) (0x1B ∷ s)
unfolding next_piece
Takes-arrow k [] e = ground arith
Takes-arrow k (c ∷ []) e = ground arith
Takes-arrow k (c ∷ d ∷ s) e = record {
  some_bytes = omega arith;
  in_text = omega arith;
  typed = ground arith;
  unstuck = ground arith;
  plain = λ n e. cc;
}

escape_cases :
    (s : Bytes)
    → (next_piece (0x1B ∷ s) ≡ press escape 1) ⊎ ((k : Key) × (next_piece (0x1B ∷ s) ≡ press k 3))
unfolding next_piece
escape_cases [] = inl (ground arith)
escape_cases (c ∷ []) = inl (ground arith)
escape_cases (c ∷ d ∷ s) = elim (Bool-cases (c == b'[')) [
  | inr no_bracket ↦ inl (ground arith)
  | inl bracket ↦ elim (Bool-cases (d == b'A')) [
    | inl a ↦ inr (up, ground arith)
    | inr not_a ↦ elim (Bool-cases (d == b'B')) [
      | inl b ↦ inr (down, ground arith)
      | inr not_b ↦ elim (Bool-cases (d == b'C')) [
        | inl e ↦ inr (right, ground arith)
        | inr not_c ↦ elim (Bool-cases (d == b'D')) [
          | inl f ↦ inr (left, ground arith)
          | inr not_d ↦ inl (ground arith)
        ]
      ]
    ]
  ]
]

Takes-escape : (s : Bytes) → Takes (next_piece (0x1B ∷ s)) (0x1B ∷ s)
Takes-escape s = elim (escape_cases s) [
  | inl e ↦ rw e (Takes-press escape 0x1B s refl refl)
  | inr (k, e) ↦ rw e (Takes-arrow k s e)
]

handled_cases :
    (b : ℕ)
    → is_stuck b ≡ false
    → (is_control b ≡ false) ⊎ (b ≡ 0x0D) ⊎ (b ≡ 0x0A) ⊎ (b ≡ 0x09) ⊎ (b ≡ 0x7F) ⊎ (b ≡ 0x1B)
handled_cases b h = ground arith

next_piece-single :
    (b : ℕ) (s : Bytes)
    → ((b ≡ 0x0D) → next_piece (b ∷ s) ≡ press enter 1)
      × ((b ≡ 0x0A) → next_piece (b ∷ s) ≡ press enter 1)
      × ((b ≡ 0x09) → next_piece (b ∷ s) ≡ press tab 1)
      × ((b ≡ 0x7F) → next_piece (b ∷ s) ≡ press b_space 1)
unfolding next_piece
next_piece-single b s =
    ((λ e. ground arith), (λ e. ground arith), (λ e. ground arith), (λ e. ground arith))

-- A round that does not meet a stuck byte takes one byte at least.
pub next_piece-Takes : (b : ℕ) (s : Bytes) → is_stuck b ≡ false → Takes (next_piece (b ∷ s)) (b ∷ s)
next_piece-Takes b s h = elim (handled_cases b h) [
  | inl plain ↦ rw (next_piece-paste b s plain) (Takes-paste b s plain)
  | inr (inl e) ↦ rw ((next_piece-single b s).0 e) (Takes-press enter b s (rw e) h)
  | inr (inr (inl e)) ↦ rw ((next_piece-single b s).1 e) (Takes-press enter b s (rw e) h)
  | inr (inr (inr (inl e))) ↦ rw ((next_piece-single b s).2 e) (Takes-press tab b s (rw e) h)
  | inr (inr (inr (inr (inl e)))) ↦
      rw ((next_piece-single b s).3 e) (Takes-press b_space b s (rw e) h)
  | inr (inr (inr (inr (inr e)))) ↦ rw e (Takes-escape s)
]
