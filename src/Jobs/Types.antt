-- ===== src/Jobs/Types.antt =====
-- Types and reads of crates/llmbase-core/src/jobs.rs. An operation takes the environment and the
-- library's id, and returns its result and the ledger that it leaves. A transaction that is not
-- committed leaves the ledger as it was. Times are sums of seconds below 2^63, which do not wrap.
use Prim.Native.String.{len}
use llmbase.Prelude.{
  ltb, if◌then◌else◌, within, ◌==◌, string_PartialEq, ℕ, String, Bool, not, ◌||◌, Option, none,
  some, [], ◌∷◌, ◌++◌,
}
use llmbase.Json.{Value}
use llmbase.Errors.{invalid, not_found, conflict, sql, json, Result, ok, err, ◌>>=◌, reject_if}
use llmbase.Jobs.Table.{JobStatus, queued, Row, Ledger, find_where, is_row, has_id}

-- What an operation takes from outside: the clock in seconds (`none`: before the epoch), the UUIDs
-- that it draws, the time stamp that a new row gets, and serde_json's reader of its own texts:
-- what `from_str` makes of the text that `to_string` has printed for a value, which is an error
-- (`none`) where the value nests deeper than its reader goes.
pub record Env : Type 0 where
  pub clock : Option ℕ
  pub id : String
  pub token : String
  pub stamp : ℕ
  pub reread : Value → Option Value

pub record Job : Type 0 where
  pub library_id : String
  pub id : String
  pub operation : String
  pub args : Value
  pub status : JobStatus
  pub attempts : ℕ
  pub max_attempts : ℕ
  pub available_at : ℕ
  pub lease_until : Option ℕ
  pub result : Option Value
  pub error : Option String

pub record JobLease : Type 0 where
  pub job : Job
  pub token : String

pub data JobOutcome : Type 0 where
  completed : Value → JobOutcome
  partly : Option Value → Option String → JobOutcome
  failing : Option Value → Option String → JobOutcome
  cancelling : Option Value → Option String → JobOutcome

abbrev pub Reply : Type 0 → Type 0
Reply A = Result A × Ledger

-- `?` on a check that comes before any write: an error leaves the ledger as it is.
abbrev pub checked : {A B : Type 0} → Result A → Ledger → (A → Reply B) → Reply B
checked (ok a) db k = k a
checked (err e) db k = (err e, db)

unfoldable pub now : Env → Result ℕ
now env = elim env.clock [ some t ↦ ok t | none ↦ err (conflict "system clock precedes epoch") ]

unfoldable pub validate_lease : ℕ → Result (Unit {0})
validate_lease seconds =
    reject_if (not (within 1 3600 seconds)) (invalid "lease must be 1..3600 seconds")

-- `serde_json::from_str(&args)?`, of the text of a stored value
unfoldable pub from_str : Env → Value → Result Value
from_str env v = elim (env.reread v) [ some x ↦ ok x | none ↦ err json ]

-- `result.map(|s| serde_json::from_str(&s)).transpose()?`
unfoldable pub from_result : Env → Option Value → Result (Option Value)
unfolding from_str
from_result env none = ok none
from_result env (some v) = from_str env v >>= λ x. ok (some x)

abbrev pub as_job : Row → Value → Option Value → Job
as_job r args result = record {
  library_id = r.library_id;
  id = r.id;
  operation = r.operation;
  args = args;
  status = r.status;
  attempts = r.attempts;
  max_attempts = r.max_attempts;
  available_at = r.available_at;
  lease_until = r.lease_until;
  result = result;
  error = r.error;
}

-- A row that a query has returned, as a job.
unfoldable pub read_row : Env → Row → Result Job
unfolding from_str from_result
read_row env r =
    from_str env r.args >>= λ args. from_result env r.result >>= λ result. ok (as_job r args result)

unfoldable pub job : Env → String → String → Ledger → Result Job
unfolding read_row
job env library id db = elim (find_where (is_row library id) db.rows) [
  | some r ↦ read_row env r
  | none ↦ err (not_found "job")
]

abbrev pub bad_text : String → Bool
bad_text s = s == "" || ltb 128 (len s)

abbrev pub new_row : Env → String → String → Value → ℕ → ℕ → Row
new_row env library operation args max_attempts available_at = record {
  library_id = library;
  id = env.id;
  operation = operation;
  args = args;
  status = queued;
  attempts = 0;
  max_attempts = max_attempts;
  available_at = available_at;
  lease_token = none;
  lease_until = none;
  worker_id = none;
  result = none;
  error = none;
  created_at = env.stamp;
}

-- INSERT INTO jobs, which the primary key may refuse
abbrev pub insert : Row → Ledger → Result Ledger
insert row db =
    if has_id row.id db.rows then err sql else ok (record db { rows = db.rows ++ row ∷ [] })

abbrev pub lease_of : Result Job → String → Result JobLease
lease_of found token = do j ← found; ok (record { job = j; token = token })
