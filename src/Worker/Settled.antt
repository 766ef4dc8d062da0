-- ===== src/Worker/Settled.antt =====
-- What a run of `run_job` of crates/llmbase-core/src/worker.rs does to the ledger and returns.
use mathlib.Core.Path.{subst}
use llmbase.Prelude.{
  if◌then◌else◌, String, ◌≡◌, refl, sym, ap, ◌∙◌, Bool, true, false, ◌||◌, Option, none, some, List,
  [], ◌∷◌, arith,
}
use llmbase.Errors.{Error, Result, ok, err}
use llmbase.Access.{Principal, Application}
use llmbase.Jobs.Table.{JobStatus, Ledger}
use llmbase.Jobs.Types.{Env, Job, JobLease, JobOutcome, Reply, checked, job}
use llmbase.Jobs.Claim.{claim_job_by_id}
use llmbase.Jobs.Settle.{heartbeat_job, is_terminal, finish_job_outcome}
use llmbase.Jobs.Distinct.{Distinct}
use llmbase.Jobs.Calls.{claim_any, claim_id, heartbeat, finish_with, after, after_all}
use llmbase.Worker.{handler_outcome, respect_cancellation}
use llmbase.Worker.Loop.{
  Turn, Finish, WorkerSelection, Course, is_cancelled, unless_cancelled, finished_job, finish_work,
  beaten, run_loop, as_option, claim_selected, claimed, with_lease, ready, run_job,
}
use llmbase.Worker.History.{
  IsAfter, calls, IsAfter-trans, one_call, no_call, IsAfter-Distinct, Settles,
  finish_job_outcome-terminal,
}

failed_run : (db later : Ledger) (e : Error) → IsAfter db later → Settles db (err e, later)
failed_run db later e h = (h, λ done k. cc k)

module _ (library : String) (lease : JobLease) where
  unless_cancelled-Settles :
      (db current : Ledger) (r : Result Job) (next : Reply (Option Job))
      → IsAfter db current
      → Settles db next
      → Settles db (unless_cancelled library lease current r next)
  unless_cancelled-Settles db current (err e) next h k = failed_run db current e h
  unless_cancelled-Settles db current (ok j) next h k = go (is_cancelled j.status) refl
    where
      terminal : (s : JobStatus) → is_cancelled s ≡ true → is_terminal s ≡ true
      terminal s e = ground arith

      some_same : (a b : Job) → Result.ok (some a) ≡ ok (some b) → a ≡ b
      some_same a b e = cc e

      go :
          (b : Bool)
          → is_cancelled j.status ≡ b
          → Settles db (if b then (ok (some j), current) else next)
      go true e = (
        h,
        λ done f. ap (λ x. is_terminal x.status) (sym (some_same j done f)) ∙ terminal j.status e,
      )
      go false e = k

  finished_job-Settles :
      (db : Ledger) (r : Reply Job)
      → IsAfter db r.1
      → ((done : Job) → r.0 ≡ ok done → is_terminal done.status ≡ true)
      → Settles db (finished_job library lease r)
  finished_job-Settles db (ok done, later) h k = (h, λ j e. k j (cc e))
  finished_job-Settles db (err e, later) h k = failed_run db later e h

  finish_work-Settles :
      (finish : Finish) (db start : Ledger)
      → Distinct start.rows
      → IsAfter start db
      → Settles start (finish_work library lease finish db)
  unfolding finish_work after
  finish_work-Settles finish db start d h =
      unless_cancelled-Settles start current (job finish.turn.env library lease.job.id current) _
        here
        (finished_job-Settles start
          (finish_job_outcome finish.turn.env library lease outcome next_db)
          (IsAfter-trans start next_db _ there
            (one_call finish.turn.env library (finish_with lease outcome) next_db))
          λ done e.
            finish_job_outcome-terminal finish.turn.env library lease outcome next_db done
              (IsAfter-Distinct start next_db d there) e)
    where
      current : Ledger
      current = after_all finish.turn.others db

      here : IsAfter start current
      here = IsAfter-trans start db current h (calls finish.turn.others refl)

      next_db : Ledger
      next_db = after_all finish.turn.between current

      there : IsAfter start next_db
      there = IsAfter-trans start current next_db here (calls finish.turn.between refl)

      outcome : JobOutcome
      outcome =
          respect_cancellation (handler_outcome lease.job.operation finish.result)
            (finish.stopped || finish.token_cancelled)

  beaten-Settles :
      (db : Ledger) (r : Reply (Unit {0})) (next : Ledger → Reply (Option Job))
      → IsAfter db r.1
      → ((later : Ledger) → IsAfter db later → Settles db (next later))
      → Settles db (beaten library lease r next)
  beaten-Settles db (ok u, later) next h k = k later h
  beaten-Settles db (err e, later) next h k = failed_run db later e h

  run_loop-Settles :
      (turns : List Turn) (finish : Finish) (db start : Ledger)
      → Distinct start.rows
      → IsAfter start db
      → Settles start (run_loop library lease turns finish db)
  unfolding run_loop after
  run_loop-Settles [] finish db start d h = finish_work-Settles finish db start d h
  run_loop-Settles (turn ∷ turns) finish db start d h =
      unless_cancelled-Settles start current (job turn.env library lease.job.id current) _ here (
        beaten-Settles start (heartbeat_job turn.env library lease 60 next_db) _
          (IsAfter-trans start next_db _ there
            (one_call turn.env library (heartbeat lease 60) next_db))
          λ later k. run_loop-Settles turns finish later start d k)
    where
      current : Ledger
      current = after_all turn.others db

      here : IsAfter start current
      here = IsAfter-trans start db current h (calls turn.others refl)

      next_db : Ledger
      next_db = after_all turn.between current

      there : IsAfter start next_db
      there = IsAfter-trans start current next_db here (calls turn.between refl)

with_lease-Settles :
    (db : Ledger) (r : Reply (Option JobLease)) (next : JobLease → Ledger → Reply (Option Job))
    → IsAfter db r.1
    → ((lease : JobLease) (later : Ledger) → IsAfter db later → Settles db (next lease later))
    → Settles db (with_lease r next)
with_lease-Settles db (ok (some lease), later) next h k = k lease later h
with_lease-Settles db (ok none, later) next h k = (h, λ done e. cc e)
with_lease-Settles db (err e, later) next h k = failed_run db later e h

claimed-IsAfter :
    (env : Env) (library : String) (selection : WorkerSelection) (db : Ledger)
    → IsAfter db (claimed env library selection db).1
unfolding after
claimed-IsAfter env library selection db = go selection.job_id
  where
    same_ledger : (r : Reply JobLease) → (as_option r).1 ≡ r.1
    same_ledger (ok lease, later) = refl
    same_ledger (err e, later) = refl

    go :
        (wanted : Option String)
        → IsAfter db (claim_selected env library selection.worker_id wanted db).1
    go none = one_call env library (claim_any selection.worker_id 60) db
    go (some id) =
        subst (IsAfter db)
          (sym (same_ledger (claim_job_by_id env library id selection.worker_id 60 db)))
          (one_call env library (claim_id id selection.worker_id 60) db)

-- On a table with distinct ids a run of the worker, whatever others call between its steps, its clock, its
-- handler and the cancellations, changes the ledger by calls of the ledger's operations alone, and a job that
-- it returns has succeeded, failed, been cancelled or is partial: none is left running.
pub run_job-Settles :
    (app : Application) (principal : Principal) (library : String) (selection : WorkerSelection)
    (course : Course) (db : Ledger)
    → Distinct db.rows
    → Settles db (run_job app principal library selection course db)
unfolding run_job
run_job-Settles app principal library selection course db d =
    go (ready app principal library selection course)
  where
    current : Ledger
    current = after_all course.claiming.others db

    go :
        (r : Result (Unit {0}))
        → Settles db (
            checked r db λ u.
              with_lease
                (claimed course.claiming.env library selection current)
                λ lease. run_loop library lease course.beats course.finish)
    go (err e) = failed_run db db e (no_call db)
    go (ok u) =
        with_lease-Settles db (claimed course.claiming.env library selection current) _
          (IsAfter-trans db current _ (calls course.claiming.others refl)
            (claimed-IsAfter course.claiming.env library selection current))
          λ lease later h. run_loop-Settles library lease course.beats course.finish later db d h
