-- ===== src/Jobs/Settle.antt =====
-- The operations of crates/llmbase-core/src/jobs.rs on a row that is there: heartbeat, finish,
-- cancel and retry.
use Prim.Native.Nat.{min}
use llmbase.Prelude.{
  ltb, nat_eqb, if◌then◌else◌, is_some, some_and, ◌==◌, string_PartialEq, ℕ, ◌+◌, ◌-◌, ◌^◌, min,
  String, Bool, true, false, not, ◌&&◌, ◌||◌, Option, none, some, List, [], ◌∷◌,
}
use llmbase.Json.{Value, is_null}
use llmbase.Errors.{cancelled, Error, invalid, conflict, Result, ok, err, ◌>>=◌, ◌>>◌, reject_if}
use llmbase.Jobs.Table.{
  JobStatus, queued, running, succeeded, failed, partial, cancelled, interrupted, Row, empty,
  finished, requeued, Event, Ledger, add_event, update_where, count_where, find_where, is_row,
  is_running, is_queued,
}
use llmbase.Jobs.Types.{
  Env, Job, JobLease, JobOutcome, completed, partly, failing, cancelling, Reply, checked, now,
  validate_lease, job,
}

-- WHERE .. AND lease_token=?3 AND status='running' AND lease_until>?5
unfoldable pub holds_lease : String → JobLease → ℕ → Row → Bool
holds_lease library lease time r =
    is_row library lease.job.id r
    && some_and r.lease_token (λ t. t == lease.token)
    && is_running r.status
    && some_and r.lease_until (λ t. ltb time t)

abbrev pub lease_lost : Error
lease_lost = conflict "job lease expired, cancelled or replaced"

abbrev pub extend : ℕ → Row → Row
extend until r = record r { lease_until = some until }

-- One statement outside a transaction: its effect stays whatever it counts.
unfoldable pub heartbeat_job : Env → String → JobLease → ℕ → Ledger → Reply (Unit {0})
unfolding now validate_lease
heartbeat_job env library lease seconds db = checked (validate_lease seconds) db λ _.
    checked (now env) db λ time.
      let held = holds_lease library lease time in
      (
        reject_if (not (nat_eqb (count_where held db.rows) 1)) lease_lost,
        record db { rows = update_where held (extend (time + seconds)) db.rows },
      )

abbrev pub is_terminal : JobStatus → Bool
is_terminal queued = false
is_terminal running = false
is_terminal interrupted = false
is_terminal _ = true

abbrev pub is_succeeded : JobStatus → Bool
is_succeeded succeeded = true
is_succeeded _ = false

-- `matches!(result.as_ref(), None | Some(Value::Null))`
abbrev pub lacks_result : Option Value → Bool
lacks_result none = true
lacks_result (some v) = is_null v

abbrev pub status_name : JobStatus → String
status_name queued = "queued"
status_name running = "running"
status_name succeeded = "succeeded"
status_name failed = "failed"
status_name partial = "partial"
status_name cancelled = "cancelled"
status_name interrupted = "interrupted"

abbrev pub finish_event : JobStatus → String
finish_event succeeded = "ok"
finish_event status = status_name status

abbrev pub settle : JobStatus → Option Value → Option String → Row → Row
settle status result error r = record r {
  status = status;
  result = result;
  error = error;
  lease_token = none;
  lease_until = none;
}

-- The three checks of `finish_job` before its transaction.
unfoldable pub valid_finish : JobStatus → Option Value → Option String → Result (Unit {0})
valid_finish status result error =
    reject_if (not (is_terminal status)) (invalid "invalid terminal job status")
    >> (reject_if (is_succeeded status && is_some error)
          (invalid "successful job cannot have an error")
        >> reject_if (is_succeeded status && lacks_result result)
            (invalid "successful job requires an explicit non-null result"))

unfoldable pub finish_job :
    Env → String → JobLease → JobStatus → Option Value → Option String → Ledger → Reply Job
unfolding now valid_finish
finish_job env library lease status result error db =
    checked (valid_finish status result error) db λ _. checked (now env) db λ time.
      let held = holds_lease library lease time in
      checked (reject_if (not (nat_eqb (count_where held db.rows) 1)) lease_lost) db λ _.
        let settled =
          add_event library lease.job.id (finish_event status) (finished result error)
            (record db { rows = update_where held (settle status result error) db.rows }) in
        (job env library lease.job.id settled, settled)

unfoldable pub finish_job_outcome : Env → String → JobLease → JobOutcome → Ledger → Reply Job
unfolding finish_job
finish_job_outcome env library lease (completed result) db =
    finish_job env library lease succeeded (some result) none db
finish_job_outcome env library lease (partly result error) db =
    finish_job env library lease partial result error db
finish_job_outcome env library lease (failing result error) db =
    finish_job env library lease failed result error db
finish_job_outcome env library lease (cancelling result error) db =
    finish_job env library lease cancelled result error db

-- status IN ('queued','running')
unfoldable pub is_cancellable : String → String → Row → Bool
is_cancellable library id r = is_row library id r && (is_queued r.status || is_running r.status)

abbrev pub cancel_row : Row → Row
cancel_row r = record r { status = cancelled; lease_token = none; lease_until = none }

abbrev pub not_cancellable : Error
not_cancellable = conflict "job is missing or already terminal"

unfoldable pub cancel_job : Env → String → String → Ledger → Reply Job
cancel_job env library id db =
    checked
      (reject_if (not (nat_eqb (count_where (is_cancellable library id) db.rows) 1))
        not_cancellable)
      db
      λ _.
        let ended =
          add_event library id "cancelled" empty
            (record db { rows = update_where (is_cancellable library id) cancel_row db.rows }) in
        (job env library id ended, ended)

-- status IN ('failed','partial','interrupted')
abbrev pub may_retry : JobStatus → Bool
may_retry failed = true
may_retry partial = true
may_retry interrupted = true
may_retry _ = false

unfoldable pub is_retryable : String → String → Row → Bool
is_retryable library id r =
    is_row library id r && may_retry r.status && ltb r.attempts r.max_attempts

abbrev pub u64_max : ℕ
u64_max = 2 ^ 64 - 1

-- `2u64.saturating_pow(attempts.saturating_sub(1)).min(300)`
unfoldable pub retry_backoff : ℕ → ℕ
retry_backoff attempts = min (min (2 ^ (attempts - 1)) u64_max) 300

abbrev pub requeue : ℕ → Row → Row
requeue at r = record r { status = queued; available_at = at }

-- The update names the row by its primary key alone, which the query has just read.
unfoldable pub retry_found : Env → String → String → Row → Ledger → Reply Job
unfolding now
retry_found env library id r db = checked (now env) db λ time.
    let backoff = retry_backoff r.attempts in
    let again =
      add_event library id "queued" (requeued backoff) (record db {
        rows = update_where (is_row library id) (requeue (time + backoff)) db.rows;
      }) in
    (job env library id again, again)

unfoldable pub retry_job : Env → String → String → Ledger → Reply Job
unfolding retry_found
retry_job env library id db = elim (find_where (is_retryable library id) db.rows) [
  | none ↦ (err (conflict "job cannot retry or retry budget exhausted"), db)
  | some r ↦ retry_found env library id r db
]

-- `job_events`: the events of one job, in order
abbrev pub events_of_job : String → String → List Event → List Event
events_of_job library id [] = []
events_of_job library id (e ∷ es) =
    let rest = events_of_job library id es in
    if e.library_id == library && e.job_id == id then e ∷ rest else rest

unfoldable pub job_events : Env → String → String → Ledger → Result (List Event)
unfolding job
job_events env library id db =
    job env library id db >>= λ _. ok (events_of_job library id db.events)
