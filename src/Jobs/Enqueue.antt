-- ===== src/Jobs/Enqueue.antt =====
-- `enqueue_job` and `enqueue_running_job` of crates/llmbase-core/src/jobs.rs.
use llmbase.Prelude.{within, ℕ, ◌+◌, String, Bool, not, ◌||◌, some}
use llmbase.Json.{Value, is_object}
use llmbase.Errors.{Error, invalid, reject_if}
use llmbase.Jobs.Table.{running, Row, empty, lease_taken, Ledger, add_event}
use llmbase.Jobs.Credentials.{reject_credentials}
use llmbase.Jobs.Types.{
  Env, Job, JobLease, Reply, checked, now, validate_lease, job, bad_text, new_row, insert, lease_of,
}

abbrev pub bad_job : String → Value → ℕ → Bool
bad_job operation args max_attempts =
    bad_text operation || not (is_object args) || not (within 1 20 max_attempts)

abbrev pub job_refused : Error
job_refused = invalid "invalid job operation, args or retry budget"

unfoldable pub enqueue_job : Env → String → String → Value → ℕ → Ledger → Reply Job
unfolding now
enqueue_job env library operation args max_attempts db =
    checked (reject_if (bad_job operation args max_attempts) job_refused) db λ _.
      checked (reject_credentials args) db λ _. checked (now env) db λ time.
        checked (insert (new_row env library operation args max_attempts time) db) db λ inserted.
          let queued_db = add_event library env.id "queued" empty inserted in
          (job env library env.id queued_db, queued_db)

abbrev pub running_refused : Error
running_refused = invalid "invalid running job parameters"

abbrev pub running_row : Env → String → String → Value → ℕ → String → ℕ → ℕ → Row
running_row env library operation args max_attempts worker time seconds =
    record (new_row env library operation args max_attempts time) {
      status = running;
      attempts = 1;
      lease_token = some env.token;
      lease_until = some (time + seconds);
      worker_id = some worker;
    }

unfoldable pub enqueue_running_job :
    Env → String → String → Value → ℕ → String → ℕ → Ledger → Reply JobLease
unfolding now validate_lease
enqueue_running_job env library operation args max_attempts worker seconds db =
    checked (reject_if (bad_job operation args max_attempts || bad_text worker) running_refused) db
      λ _. checked (validate_lease seconds) db λ _. checked (reject_credentials args) db λ _.
        checked (now env) db λ time.
          checked
            (insert (running_row env library operation args max_attempts worker time seconds) db) db
            λ inserted.
              let queued_db = add_event library env.id "queued" empty inserted in
              let start_db =
                add_event library env.id "start" (lease_taken worker (time + seconds)) queued_db in
              (lease_of (job env library env.id start_db) env.token, start_db)
