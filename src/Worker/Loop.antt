-- ===== src/Worker/Loop.antt =====
-- `Application::run_job` of crates/llmbase-core/src/worker.rs over the job ledger, which other workers and
-- callers change between its steps.
use Prim.Native.String.{len}
use llmbase.Jobs.Calls.{Request as Called, after_all}
use llmbase.Errors.{
  cancelled as model_cancelled, Error, invalid, model, Result, ok, err, ◌>>◌, reject_if,
}
use llmbase.Jobs.Table.{JobStatus, cancelled, Ledger}
use llmbase.Prelude.{
  string_PartialEq, ltb, if◌then◌else◌, ◌==◌, String, Bool, true, false, ◌||◌, Option, none, some,
  List, [], ◌∷◌,
}
use llmbase.Json.{Value, object, end}
use llmbase.Access.{Principal, Application, authorize}
use llmbase.Jobs.Types.{Env, Job, JobLease, Reply, checked, job}
use llmbase.Jobs.Claim.{claim_job, claim_job_by_id}
use llmbase.Jobs.Settle.{heartbeat_job, finish_job_outcome}
use llmbase.Access.Extensions.{library_config}
use llmbase.Worker.{handler_outcome, respect_cancellation}

-- The calls of others since the last step and, where the step reads the job first, between that and the
-- step's own call; and what the clock gives.
pub record Turn : Type 0 where
  pub others : List Called
  pub between : List Called
  pub env : Env

-- How the loop over heartbeats ends: with the handler's result, after the worker was told to stop or not, and
-- with the token cancelled or not when it is inspected again.
pub record Finish : Type 0 where
  pub turn : Turn
  pub result : Result Value
  pub stopped : Bool
  pub token_cancelled : Bool

pub record WorkerSelection : Type 0 where
  pub worker_id : String
  pub job_id : Option String

-- What the worker meets: a token that is cancelled at its two checks, a ledger that opens, the turn of the
-- claim, those of the heartbeats, and the end.
pub record Course : Type 0 where
  pub cancelled_at_start : Bool
  pub cancelled_in_task : Bool
  pub opened : Result (Unit {0})
  pub claiming : Turn
  pub beats : List Turn
  pub finish : Finish

abbrev pub is_cancelled : JobStatus → Bool
is_cancelled cancelled = true
is_cancelled _ = false

abbrev pub is_bad_id : Option String → Bool
is_bad_id none = false
is_bad_id (some id) = id == "" || ltb 128 (len id)

abbrev pub stopping : Error
stopping = model model_cancelled

module _ (library : String) (lease : JobLease) where
  -- `ledger.job(&lease.job.id)?` and the test for a cancelled job
  abbrev pub unless_cancelled : Ledger → Result Job → Reply (Option Job) → Reply (Option Job)
  unless_cancelled db (err e) next = (err e, db)
  unless_cancelled db (ok current) next =
      if is_cancelled current.status then (ok (some current), db) else next

  abbrev pub finished_job : Reply Job → Reply (Option Job)
  finished_job (ok done, db) = (ok (some done), db)
  finished_job (err e, db) = (err e, db)

  -- What follows the loop.
  unfoldable pub finish_work : Finish → Ledger → Reply (Option Job)
  unfolding job handler_outcome respect_cancellation finish_job_outcome
  finish_work finish db =
      let current = after_all finish.turn.others db in
      unless_cancelled current (job finish.turn.env library lease.job.id current) (
        finished_job (
          finish_job_outcome finish.turn.env library lease
            (respect_cancellation (handler_outcome lease.job.operation finish.result)
              (finish.stopped || finish.token_cancelled))
            (after_all finish.turn.between current)))

  abbrev pub beaten : Reply (Unit {0}) → (Ledger → Reply (Option Job)) → Reply (Option Job)
  beaten (ok u, db) next = next db
  beaten (err e, db) next = (err e, db)

  -- The loop: a heartbeat at each turn, then the end.
  unfoldable pub run_loop : List Turn → Finish → Ledger → Reply (Option Job)
  unfolding finish_work heartbeat_job
  run_loop [] finish db = finish_work finish db
  run_loop (turn ∷ turns) finish db =
      let current = after_all turn.others db in
      unless_cancelled current (job turn.env library lease.job.id current) (
        beaten (heartbeat_job turn.env library lease 60 (after_all turn.between current))
          (run_loop turns finish))

abbrev pub as_option : Reply JobLease → Reply (Option JobLease)
as_option (ok lease, db) = (ok (some lease), db)
as_option (err e, db) = (err e, db)

abbrev pub claim_selected : Env → String → String → Option String → Ledger → Reply (Option JobLease)
claim_selected env library worker none db = claim_job env library worker 60 db
claim_selected env library worker (some id) db =
    as_option (claim_job_by_id env library id worker 60 db)

abbrev pub claimed : Env → String → WorkerSelection → Ledger → Reply (Option JobLease)
claimed env library selection db =
    claim_selected env library selection.worker_id selection.job_id db

abbrev pub with_lease :
    Reply (Option JobLease) → (JobLease → Ledger → Reply (Option Job)) → Reply (Option Job)
with_lease (ok (some lease), db) next = next lease db
with_lease (ok none, db) next = (ok none, db)
with_lease (err e, db) next = (err e, db)

-- The checks before the ledger is touched.
unfoldable pub ready :
    Application → Principal → String → WorkerSelection → Course → Result (Unit {0})
unfolding authorize
ready app principal library selection course =
    authorize app principal
      record { library_id = library; operation = "job_run_one"; args = object end }
    >> (reject_if course.cancelled_at_start stopping
        >> (library_config app library
            >> (reject_if (is_bad_id selection.job_id) (invalid "invalid job selection")
                >> (reject_if course.cancelled_in_task stopping >> course.opened))))

-- `Application::run_job`; a job's library is the one whose ledger was opened.
unfoldable pub run_job :
    Application → Principal → String → WorkerSelection → Course → Ledger → Reply (Option Job)
unfolding ready claim_job claim_job_by_id run_loop
run_job app principal library selection course db =
    checked (ready app principal library selection course) db λ u.
      with_lease
        (claimed course.claiming.env library selection (after_all course.claiming.others db))
        λ lease. run_loop library lease course.beats course.finish
