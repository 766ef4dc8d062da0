-- ===== src/Jobs/Calls.antt =====
-- Every call of crates/llmbase-core/src/jobs.rs that writes to the job table, in any order and with
-- any clock, as one type; and what a sequence of them does to the table.
use llmbase.Errors.{cancelled, ok, err}
use llmbase.Prelude.{All, ℕ, String, ◌≡◌, refl, Option, none, some, List, [], ◌∷◌}
use llmbase.Json.{Value}
use llmbase.Jobs.Table.{JobStatus, succeeded, failed, partial, cancelled, Row, Ledger}
use llmbase.Jobs.Types.{Env, JobLease, JobOutcome, completed, partly, failing, cancelling, Reply}
use llmbase.Jobs.Enqueue.{enqueue_job, enqueue_running_job}
use llmbase.Jobs.Claim.{claim_job_inner, claim_job, or_conflict, claim_job_by_id}
use llmbase.Jobs.Settle.{heartbeat_job, finish_job, finish_job_outcome, cancel_job, retry_job}
use llmbase.Jobs.Distinct.{Distinct}
use llmbase.Jobs.Step.{
  Step, Evolves, Evolves-same, All-Evolves, Evolves-weaken, Evolves-trans, Follows, Follows-refl,
  Follows-Step, Follows-trans,
}
use llmbase.Jobs.Evolves.{
  IsNew, Reaches, enqueue_job-Reaches, enqueue_running_job-Reaches, heartbeat_job-Reaches,
  finish_job-Reaches, cancel_job-Reaches,
}
use llmbase.Jobs.Retries.{retry_job-Reaches}
use llmbase.Jobs.Claims.{claim_job_inner-Reaches}

pub data Call : Type 0 where
  enqueue : String → Value → ℕ → Call
  enqueue_running : String → Value → ℕ → String → ℕ → Call
  claim_any : String → ℕ → Call
  claim_id : String → String → ℕ → Call
  heartbeat : JobLease → ℕ → Call
  finish_with : JobLease → JobOutcome → Call
  finish_as : JobLease → JobStatus → Option Value → Option String → Call
  cancel_id : String → Call
  retry_id : String → Call

-- The ledger that a call leaves, whatever it returns.
unfoldable pub after : Env → String → Call → Ledger → Ledger
after env library (enqueue operation args budget) db =
    (enqueue_job env library operation args budget db).1
after env library (enqueue_running operation args budget worker seconds) db =
    (enqueue_running_job env library operation args budget worker seconds db).1
after env library (claim_any worker seconds) db = (claim_job env library worker seconds db).1
after env library (claim_id id worker seconds) db =
    (claim_job_by_id env library id worker seconds db).1
after env library (heartbeat lease seconds) db = (heartbeat_job env library lease seconds db).1
after env library (finish_with lease outcome) db =
    (finish_job_outcome env library lease outcome db).1
after env library (finish_as lease status result error) db =
    (finish_job env library lease status result error db).1
after env library (cancel_id id) db = (cancel_job env library id db).1
after env library (retry_id id) db = (retry_job env library id db).1

-- A call of one library, with the environment that it meets.
pub record Request : Type 0 where
  pub env : Env
  pub library : String
  pub call : Call

unfoldable pub after_all : List Request → Ledger → Ledger
unfolding after
after_all [] db = db
after_all (c ∷ cs) db = after_all cs (after c.env c.library c.call db)

or_conflict-ledger : (r : Reply (Option JobLease)) → (or_conflict r).1 ≡ r.1
or_conflict-ledger (ok (some lease), db) = refl
or_conflict-ledger (ok none, db) = refl
or_conflict-ledger (err e, db) = refl

pub after-Reaches :
    (env : Env) (library : String) (call : Call) (db : Ledger)
    → Distinct db.rows
    → Reaches db.rows (after env library call db)
unfolding after claim_job claim_job_by_id finish_job_outcome
after-Reaches env library (enqueue operation args budget) db d =
    enqueue_job-Reaches env library operation args budget db d
after-Reaches env library (enqueue_running operation args budget worker seconds) db d =
    enqueue_running_job-Reaches env library operation args budget worker seconds db d
after-Reaches env library (claim_any worker seconds) db d =
    claim_job_inner-Reaches env library none worker seconds db d
after-Reaches env library (claim_id id worker seconds) db d =
    rw (or_conflict-ledger (claim_job_inner env library (some id) worker seconds db))
      (claim_job_inner-Reaches env library (some id) worker seconds db d)
after-Reaches env library (heartbeat lease seconds) db d =
    heartbeat_job-Reaches env library lease seconds db d
after-Reaches env library (finish_with lease (completed result)) db d =
    finish_job-Reaches env library lease succeeded (some result) none db d
after-Reaches env library (finish_with lease (partly result error)) db d =
    finish_job-Reaches env library lease partial result error db d
after-Reaches env library (finish_with lease (failing result error)) db d =
    finish_job-Reaches env library lease failed result error db d
after-Reaches env library (finish_with lease (cancelling result error)) db d =
    finish_job-Reaches env library lease cancelled result error db d
after-Reaches env library (finish_as lease status result error) db d =
    finish_job-Reaches env library lease status result error db d
after-Reaches env library (cancel_id id) db d = cancel_job-Reaches env library id db d
after-Reaches env library (retry_id id) db d = retry_job-Reaches env library id db d

-- Whatever new rows have and steps keep holds of every row after any calls.
pub after_all-All :
    (P : Row → Type 0)
    → ((x y : Row) → Step x y → P x → P y)
    → ((x : Row) → IsNew x → P x)
    → (calls : List Request) (db : Ledger) → Distinct db.rows
    → All P db.rows
    → All P (after_all calls db).rows
unfolding after_all
after_all-All P keep new [] db d h = h
after_all-All P keep new (c ∷ cs) db d h =
    let next = after c.env c.library c.call db in
    let (e, d') = after-Reaches c.env c.library c.call db d in
    after_all-All P keep new cs next d' (All-Evolves Step IsNew P keep new db.rows next.rows e h)

-- On a table with distinct ids, no sequence of calls, whatever the clock, the drawn ids and the arguments, and in whatever library each
-- is made, removes a row of the job table, gives a job another id, library, operation, arguments or
-- budget, lowers its count of attempts, or changes a row that has succeeded or been cancelled; and the
-- ids of the rows stay distinct. New rows come behind the old ones.
pub after_all-Evolves :
    (calls : List Request) (db : Ledger)
    → Distinct db.rows
    → Evolves Follows (λ _. Unit {0}) db.rows (after_all calls db).rows
      × Distinct (after_all calls db).rows
unfolding after_all
after_all-Evolves [] db d = (Evolves-same Follows _ Follows-refl db.rows, d)
after_all-Evolves (c ∷ cs) db d =
    let next = after c.env c.library c.call db in
    let (e, d') = after-Reaches c.env c.library c.call db d in
    let (rest, d'') = after_all-Evolves cs next d' in
    (
      Evolves-trans Follows Follows Follows (λ _. Unit) Follows-trans (λ _ _ _ n. n) db.rows
          next.rows _ (Evolves-weaken Step Follows IsNew Follows-Step db.rows next.rows e) rest,
      d'',
    )
