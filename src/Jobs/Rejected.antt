-- ===== src/Jobs/Rejected.antt =====
-- The calls of crates/llmbase-core/src/jobs.rs that are refused.
use llmbase.Prelude.{String, Bool, true, false, Option, none, some}
use llmbase.Errors.{cancelled, Error, Result, ok, err}
use llmbase.Jobs.Table.{cancelled, Ledger}
use llmbase.Jobs.Types.{Env}
use llmbase.Jobs.Enqueue.{enqueue_job, enqueue_running_job}
use llmbase.Jobs.Claim.{claim_job, claim_job_by_id}
use llmbase.Jobs.Settle.{heartbeat_job, finish_job, finish_job_outcome, cancel_job, retry_job}
use llmbase.Jobs.Distinct.{Distinct}
use llmbase.Jobs.Calls.{
  Call, enqueue, enqueue_running, claim_any, claim_id, heartbeat, finish_with, finish_as, cancel_id,
  retry_id,
}

abbrev pub error_of : {A : Type 0} → Result A → Option Error
error_of (ok a) = none
error_of (err e) = some e

-- The error that a call returns.
unfoldable pub failure : Env → String → Call → Ledger → Option Error
failure env library (enqueue operation args budget) db =
    error_of (enqueue_job env library operation args budget db).0
failure env library (enqueue_running operation args budget worker seconds) db =
    error_of (enqueue_running_job env library operation args budget worker seconds db).0
failure env library (claim_any worker seconds) db =
    error_of (claim_job env library worker seconds db).0
failure env library (claim_id id worker seconds) db =
    error_of (claim_job_by_id env library id worker seconds db).0
failure env library (heartbeat lease seconds) db =
    error_of (heartbeat_job env library lease seconds db).0
failure env library (finish_with lease outcome) db =
    error_of (finish_job_outcome env library lease outcome db).0
failure env library (finish_as lease status result error) db =
    error_of (finish_job env library lease status result error db).0
failure env library (cancel_id id) db = error_of (cancel_job env library id db).0
failure env library (retry_id id) db = error_of (retry_job env library id db).0

-- A claim of one named job: its refusal keeps the leases that it has ended.
abbrev pub names_job : Call → Bool
names_job (claim_id id worker seconds) = true
names_job _ = false
