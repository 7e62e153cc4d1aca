-- ===== src/Agentd/Store/Laws.antt =====
-- What the table of conversation events holds after a statement.
use agnet.Common.{
  inl, inr, ℕ, ◌≡◌, ◌≢◌, ◌⊎◌, refl, ap, ◌∙◌, arith, Bool, false, not, List, [], ◌∷◌, ◌++◌,
  append-nil, String, select,
}
use agnet.Common.Text.{Bytes, eq_iff, eq_refl, is_empty}
use agnet.Common.Json.{Fields}
use agnet.Agentd.Store.{Row, Store, has_key, replace_row, save_conversation_event_with_session}

-- The rows with a key.
abbrev pub rows_of : String → ℕ → List Row → List Row
rows_of agent seq rows = select (has_key agent seq) rows

select-append :
    (p : Row → Bool) (xs ys : List Row) → select p (xs ++ ys) ≡ select p xs ++ select p ys
select-append p [] ys = refl
select-append p (x ∷ xs) ys = ground (arith, select-append p xs ys)

removed_here :
    (agent : String) (seq : ℕ) (rows : List Row)
    → rows_of agent seq (select (λ x. not (has_key agent seq x)) rows) ≡ []
removed_here agent seq [] = refl
removed_here agent seq (r ∷ rows) = ground (arith, removed_here agent seq rows)

kept_elsewhere :
    (row : Row) (b : String) (k : ℕ) (rows : List Row)
    → has_key b k row ≡ false
    → rows_of b k (select (λ x. not (has_key row.agent_id row.seq x)) rows) ≡ rows_of b k rows
kept_elsewhere row b k [] ne = refl
kept_elsewhere row b k (r ∷ rows) ne = ground (
  arith,
  kept_elsewhere row b k rows ne,
  eq_iff r.agent_id row.agent_id,
  eq_iff r.agent_id b,
  eq_iff row.agent_id b,
)

rows_of-replace_row_self :
    (row : Row) (rows : List Row) → rows_of row.agent_id row.seq (replace_row row rows) ≡ row ∷ []
rows_of-replace_row_self row rows =
    select-append (has_key row.agent_id row.seq)
      (select (λ x. not (has_key row.agent_id row.seq x)) rows) (row ∷ [])
    ∙ ap (λ xs. xs ++ rows_of row.agent_id row.seq (row ∷ []))
        (removed_here row.agent_id row.seq rows)
    ∙ ground (arith, eq_refl row.agent_id)

rows_of-replace_row_ne :
    (row : Row) (b : String) (k : ℕ) (rows : List Row)
    → has_key b k row ≡ false
    → rows_of b k (replace_row row rows) ≡ rows_of b k rows
rows_of-replace_row_ne row b k rows ne =
    select-append (has_key b k) (select (λ x. not (has_key row.agent_id row.seq x)) rows) (row ∷ [])
    ∙ ap (λ xs. xs ++ rows_of b k (row ∷ [])) (kept_elsewhere row b k rows ne)
    ∙ rw ne (append-nil (rows_of b k rows))

rows-save :
    (s : Store) (agent session : String) (seq : ℕ) (d : Fields) (now : Bytes)
    → is_empty agent ≡ false
    → s.down ≡ false
    → (save_conversation_event_with_session s agent session seq d now).0.rows
      ≡ replace_row
          (record { agent_id = agent; seq = seq; body = d; created_at = now; session_id = session })
          s.rows
unfolding save_conversation_event_with_session
rows-save s agent session seq d now named up =
    rw (named, up, save_conversation_event_with_session) refl

-- A save that names an agent, while the store answers, leaves exactly one row under the event's key,
-- the one saved, and the rows under any other key as they were.
pub save_conversation_event_with_session_lem :
    (s : Store) (agent session : String) (seq : ℕ) (d : Fields) (now : Bytes) (other : String)
    (k : ℕ)
    → is_empty agent ≡ false
    → s.down ≡ false
    → (agent ≢ other) ⊎ (seq ≢ k)
    → let s' = (save_conversation_event_with_session s agent session seq d now).0 in
      (rows_of agent seq s'.rows
        ≡ record { agent_id = agent; seq = seq; body = d; created_at = now; session_id = session }
          ∷ [])
      × (rows_of other k s'.rows ≡ rows_of other k s.rows)
save_conversation_event_with_session_lem s agent session seq d now other k named up ne = (
  ap (rows_of agent seq) (rows-save s agent session seq d now named up)
      ∙ rows_of-replace_row_self row s.rows,
  ap (rows_of other k) (rows-save s agent session seq d now named up)
      ∙ rows_of-replace_row_ne row other k s.rows (other_key ne),
)
  where
    row : Row
    row = record { agent_id = agent; seq = seq; body = d; created_at = now; session_id = session }

    other_key : (agent ≢ other) ⊎ (seq ≢ k) → has_key other k row ≡ false
    other_key (inl n) = ground (arith, n, eq_iff agent other)
    other_key (inr n) = ground (arith, n)
