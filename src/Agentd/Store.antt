-- ===== src/Agentd/Store.antt =====
-- agentd/internal/store/store.go: the table of conversation events. SQLite is outside: a table is the
-- list of its rows, a statement does to them what its SQL says, and `down` makes every statement
-- answer with an error. `created_at` is the text that the column holds, as bytes.
pub mod Laws
use agnet.Common.{
  ℕ, suc, Bool, true, false, ◌&&◌, ◌||◌, not, Option, none, some, List, [], ◌∷◌, ◌++◌, String, ltb,
  leb, ◌==◌, if◌then◌else◌, select, take, sort_by, reversed, map,
}
use agnet.Common.Text.{Bytes, ◌=s◌, is_empty}
use agnet.Common.Json.{Value, text, flag, num, Fields, end, field, get, put, text_or_empty}

-- A row of `conversation_events`; its key is `(agent_id, seq)`.
pub record Row : Type 0 where
  pub agent_id : String
  pub seq : ℕ
  pub body : Fields  -- `data_json`, decoded
  pub created_at : Bytes
  pub session_id : String

pub record Store : Type 0 where
  pub rows : List Row
  pub down : Bool

pub data StoreError : Type 0 where
  agent_id_required database_error : StoreError

pub data Result {ℓ} (A : Type ℓ) : Type ℓ where
  ok : A → Result A
  err : StoreError → Result A

abbrev pub has_key : String → ℕ → Row → Bool
has_key agent seq r = r.agent_id =s agent && r.seq == seq

-- `INSERT OR REPLACE`
abbrev pub replace_row : Row → List Row → List Row
replace_row r rows = select (λ x. not (has_key r.agent_id r.seq x)) rows ++ (r ∷ [])

unfoldable pub save_conversation_event_with_session :
    Store → String → String → ℕ → Fields → Bytes → Store × Option StoreError
save_conversation_event_with_session s agent session seq d now =
    if is_empty agent
    then (s, some agent_id_required)
    else if s.down
    then (s, some database_error)
    else (record s { rows = replace_row row s.rows }, none)
  where
    row : Row
    row = record { agent_id = agent; seq = seq; body = d; created_at = now; session_id = session }

-- `ConversationEventRecord`
pub record EventRecord : Type 0 where
  pub agent_id : String
  pub seq : ℕ
  pub role : String
  pub message : String  -- `Text`
  pub raw : Bool
  pub kind : String
  pub created_at : Bytes
  pub payload : Fields

abbrev flag_or_false : Option Value → Bool
flag_or_false (some (flag b)) = b
flag_or_false _ = false

abbrev copy_field : Fields → String → Fields → Fields
copy_field d key out = elim (get d key) [ some v ↦ put out key v | none ↦ out ]

unfoldable pub extract_payload_fields : Fields → Fields
extract_payload_fields d =
    copy_field d "permissionRequest"
      (copy_field d "exitPlanMode" (copy_field d "askUserQuestion" end))

-- The body of the loop over the rows.
unfoldable pub to_record : Row → EventRecord
unfolding extract_payload_fields
to_record r = record {
  agent_id = r.agent_id;
  seq = r.seq;
  role = text_or_empty (get r.body "role");
  message = text_or_empty (get r.body "text");
  raw = flag_or_false (get r.body "raw");
  kind = text_or_empty (get r.body "kind");
  created_at = r.created_at;
  payload = extract_payload_fields r.body;
}

abbrev pub by_seq : Row → Row → Bool
by_seq x y = leb x.seq y.seq

abbrev pub by_seq_desc : Row → Row → Bool
by_seq_desc x y = leb y.seq x.seq

-- The comparison of TEXT columns, byte by byte.
abbrev pub text_le : Bytes → Bytes → Bool
text_le [] t = true
text_le (b ∷ s) [] = false
text_le (b ∷ s) (c ∷ t) = ltb b c || (b == c && text_le s t)

abbrev pub by_created_desc : Row → Row → Bool
by_created_desc x y = text_le y.created_at x.created_at

abbrev pub limit_or : ℕ → ℕ → ℕ
limit_or limit d = if limit == 0 then d else limit

-- The rows that a query with `ORDER BY le LIMIT n` and the condition `p` answers with.
abbrev pub query : (Row → Bool) → (Row → Row → Bool) → ℕ → List Row → List EventRecord
query p le n rows = map to_record (take n (sort_by le (select p rows)))

-- A limit below 1 stands for the default.
unfoldable pub list_conversation_events_since : Store → String → ℕ → ℕ → Result (List EventRecord)
unfolding to_record
list_conversation_events_since s agent after limit =
    if s.down
    then err database_error
    else ok
        (query (λ r. r.agent_id =s agent && ltb after r.seq) by_seq (limit_or limit 5000) s.rows)

unfoldable pub list_conversation_events_before : Store → String → ℕ → ℕ → Result (List EventRecord)
unfolding to_record
list_conversation_events_before s agent before limit =
    if s.down
    then err database_error
    else ok (
        reversed (
          query (λ r. r.agent_id =s agent && ltb r.seq before) by_seq_desc (limit_or limit 200)
            s.rows))

unfoldable pub list_conversation_events_latest : Store → String → ℕ → Result (List EventRecord)
unfolding to_record
list_conversation_events_latest s agent limit =
    if s.down
    then err database_error
    else ok
        (reversed (query (λ r. r.agent_id =s agent) by_created_desc (limit_or limit 200) s.rows))

-- `MAX(seq)` over the agent's rows, 0 if there is none.
abbrev pub max_seq : String → List Row → ℕ
max_seq agent [] = 0
max_seq agent (r ∷ rows) =
    let rest = max_seq agent rows in
    if r.agent_id =s agent then (if ltb rest r.seq then r.seq else rest) else rest

unfoldable pub last_conversation_seq : Store → String → Result ℕ
last_conversation_seq s agent = if s.down then err database_error else ok (max_seq agent s.rows)

unfoldable pub clear_conversation_events : Store → String → Store × Option StoreError
clear_conversation_events s agent =
    if s.down
    then (s, some database_error)
    else (record s { rows = select (λ r. not (r.agent_id =s agent)) s.rows }, none)

unfoldable pub clear_conversation_events_before :
    Store → String → String → Store × Option StoreError
clear_conversation_events_before s agent session =
    if is_empty session then (s, none) else if s.down then (s, some database_error) else (
      record s {
        rows = select (λ r. not (r.agent_id =s agent && not (r.session_id =s session))) s.rows;
      },
      none,
    )
