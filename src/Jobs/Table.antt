-- ===== src/Jobs/Table.antt =====
-- The two tables of crates/llmbase-core/src/jobs.rs, and the SQL statements over them as functions.
-- Statuses are kept as values where the table has their text; the column `updated_at` and the
-- times of events are left out, since no statement reads them.
use Prim.Native.String.{compare}
use Prim.Native.Nat.{Ordering}
use llmbase.Prelude.{
  ltb, nat_eqb, if◌then◌else◌, ◌==◌, string_PartialEq, ℕ, ◌+◌, String, Bool, true, false, ◌&&◌,
  ◌||◌, Option, none, some, List, [], ◌∷◌, ◌++◌,
}
use llmbase.Json.{Value}

pub data JobStatus : Type 0 where
  queued running succeeded failed partial cancelled interrupted : JobStatus

pub record Row : Type 0 where
  pub library_id : String
  pub id : String
  pub operation : String
  pub args : Value
  pub status : JobStatus
  pub attempts : ℕ
  pub max_attempts : ℕ
  pub available_at : ℕ
  pub lease_token : Option String
  pub lease_until : Option ℕ
  pub worker_id : Option String
  pub result : Option Value
  pub error : Option String
  pub created_at : ℕ

-- An event's payload as the values that its JSON text is made of.
pub data Payload : Type 0 where
  empty : Payload
  lease_expired : Payload
  lease_taken : String → ℕ → Payload
  finished : Option Value → Option String → Payload
  requeued : ℕ → Payload

pub record Event : Type 0 where
  pub sequence : ℕ
  pub library_id : String
  pub job_id : String
  pub event : String
  pub payload : Payload

pub record Ledger : Type 0 where
  pub rows : List Row
  pub events : List Event
  pub next_sequence : ℕ

abbrev pub empty_ledger : Ledger
empty_ledger = record { rows = []; events = []; next_sequence = 1 }

-- INSERT INTO job_events
abbrev pub add_event : String → String → String → Payload → Ledger → Ledger
add_event library id event payload db = record db {
  events =
      db.events
      ++ (record {
        sequence = db.next_sequence;
        library_id = library;
        job_id = id;
        event = event;
        payload = payload;
      })
        ∷ [];
  next_sequence = db.next_sequence + 1;
}

-- UPDATE jobs SET (what `f` does) WHERE `p`
unfoldable pub update_where : (Row → Bool) → (Row → Row) → List Row → List Row
update_where p f [] = []
update_where p f (r ∷ rs) = (if p r then f r else r) ∷ update_where p f rs

-- The number of rows that such a statement reports as changed.
unfoldable pub count_where : (Row → Bool) → List Row → ℕ
count_where p [] = 0
count_where p (r ∷ rs) = (if p r then 1 else 0) + count_where p rs

-- SELECT .. WHERE `p`, the first row of at most one
unfoldable pub find_where : (Row → Bool) → List Row → Option Row
find_where p [] = none
find_where p (r ∷ rs) = if p r then some r else find_where p rs

abbrev text_before : String → String → Bool
text_before s t = elim (compare s t) [ Ordering.lt ↦ true | _ ↦ false ]

-- ORDER BY available_at, created_at, id
unfoldable pub before : Row → Row → Bool
before r s =
    ltb r.available_at s.available_at
    || (nat_eqb r.available_at s.available_at
        && (ltb r.created_at s.created_at
            || (nat_eqb r.created_at s.created_at && text_before r.id s.id)))

abbrev pub earlier : Row → Option Row → Row
earlier r none = r
earlier r (some s) = if before s r then s else r

-- SELECT .. WHERE `p` ORDER BY .. LIMIT 1
unfoldable pub least_where : (Row → Bool) → List Row → Option Row
unfolding before
least_where p [] = none
least_where p (r ∷ rs) = let rest = least_where p rs in if p r then some (earlier r rest) else rest

-- WHERE library_id=?1 AND id=?2
abbrev pub is_row : String → String → Row → Bool
is_row library id r = r.library_id == library && r.id == id

-- The primary key `id` is taken.
unfoldable pub has_id : String → List Row → Bool
has_id id [] = false
has_id id (r ∷ rs) = r.id == id || has_id id rs

-- status='running'
abbrev pub is_running : JobStatus → Bool
is_running running = true
is_running _ = false

abbrev pub is_queued : JobStatus → Bool
is_queued queued = true
is_queued _ = false
