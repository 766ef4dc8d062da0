-- ===== src/Jobs/Tests.antt =====
-- The theorems on crates/llmbase-core/src/jobs.rs at concrete tables.
use llmbase.Jobs.Order.{IsFirst}
use llmbase.Errors.{ok}
use mathlib.Core.Bool.{false≢true}
use llmbase.Prelude.{
  All, str_eq_iff, ℕ, ◌+◌, ◌≤◌, String, ◌≡◌, refl, ◌≢◌, ◌↔◌, ◌⊎◌, true, false, Option, none, some,
  List, [], ◌∷◌,
}
use llmbase.Json.{string}
use llmbase.Jobs.Table.{
  JobStatus, succeeded, failed, Row, Ledger, empty_ledger, update_where, count_where, find_where,
  least_where, is_row, has_id,
}
use llmbase.Jobs.Credentials.{credential_key, reject_credentials}
use llmbase.Jobs.Types.{Env, completed, validate_lease, from_str, from_result, read_row, job}
use llmbase.Jobs.Claim.{
  is_expired, interrupt_expired, is_claimable, leased, claim_job_inner, claim_job, claim_job_by_id,
}
use llmbase.Jobs.Settle.{
  holds_lease, heartbeat_job, finish_job_outcome, is_retryable, retry_backoff, retry_job,
}
use llmbase.Jobs.Enqueue.{enqueue_job}
use llmbase.Jobs.Distinct.{Distinct, In}
use llmbase.Jobs.Step.{Evolves, Follows}
use llmbase.Jobs.Samples.{at, lint_args, lint_lease, queued_row, queued_db, queued_db-Distinct}
use llmbase.Jobs.Calls.{
  Call, enqueue, claim_any, claim_id, heartbeat, finish_with, retry_id, Request, after_all,
  after_all-Evolves,
}
use llmbase.Jobs.Soundness.{IsSound, after_all-IsSound}
use llmbase.Jobs.Fencing.{Refused}
use llmbase.Jobs.Handout.{handed, claim_job_inner-IsFirst}
use llmbase.Jobs.Stale.{claim_job_inner-fences}
use llmbase.Jobs.Clean.{keys_of, spells_credential, reject_credentials-Clean}
use llmbase.Jobs.Backoff.{wait, waiting, retry_job-waits}

abbrev request : Env → Call → Request
request env call = record { env = env; library = "notes"; call = call }

-- A job that is enqueued, claimed, left to expire, retried, claimed again and finished.
abbrev lint_day : List Request
lint_day =
    request (at 100 "j1" "") (enqueue "lint" lint_args 3)
    ∷ request (at 101 "" "t1") (claim_any "w1" 60)
    ∷ request (at 200 "" "t2") (claim_any "w2" 60)
    ∷ request (at 201 "" "") (retry_id "j1")
    ∷ request (at 203 "" "t3") (claim_id "j1" "w2" 60)
    ∷ request (at 204 "" "") (heartbeat (lint_lease "t1" 1 161) 60)
    ∷ request (at 205 "" "") (finish_with (lint_lease "t3" 2 263) (completed (string "done")))
    ∷ []

abbrev status_of : List Row → List JobStatus
status_of [] = []
status_of (r ∷ rs) = r.status ∷ status_of rs

lint_day-succeeds : status_of (after_all lint_day empty_ledger).rows ≡ succeeded ∷ []
unfolding after_all finish_job_outcome count_where heartbeat_job update_where claim_job_by_id
    least_where retry_job find_where claim_job enqueue_job reject_credentials credential_key has_id
    is_expired is_claimable is_retryable retry_backoff job read_row from_str from_result holds_lease
lint_day-succeeds = refl

after_all-IsSound_example : All IsSound (after_all lint_day empty_ledger).rows
after_all-IsSound_example = after_all-IsSound lint_day

after_all-Evolves_example :
    Evolves Follows (λ _. Unit {0}) queued_db.rows (after_all lint_day queued_db).rows
    × Distinct (after_all lint_day queued_db).rows
after_all-Evolves_example = after_all-Evolves lint_day queued_db queued_db-Distinct

sixty : validate_lease 60 ≡ ok tt
unfolding validate_lease
sixty = refl

claim_job_inner-IsFirst_example :
    (All
        (λ x. is_claimable "notes" 101 none x ≡ false)
        (interrupt_expired "notes" 101 queued_db).rows
      × (claim_job_inner (at 101 "" "t1") "notes" none "w1" 60 queued_db
          ≡ (ok none, interrupt_expired "notes" 101 queued_db)))
    ⊎ ((r : Row) × In r (interrupt_expired "notes" 101 queued_db).rows
        × (is_claimable "notes" 101 none r ≡ true)
        × IsFirst (is_claimable "notes" 101 none) r (interrupt_expired "notes" 101 queued_db).rows
        × ((claim_job_inner (at 101 "" "t1") "notes" none "w1" 60 queued_db).0
            ≡ leased (read_row (at 101 "" "t1") (handed "w1" "t1" 161 r)) "t1")
        × ((claim_job_inner (at 101 "" "t1") "notes" none "w1" 60 queued_db).1.rows
            ≡ update_where
                (is_row "notes" r.id)
                (handed "w1" "t1" 161)
                (interrupt_expired "notes" 101 queued_db).rows))
claim_job_inner-IsFirst_example =
    claim_job_inner-IsFirst (at 101 "" "t1") "notes" none "w1" 60 101 queued_db queued_db-Distinct
      sixty refl refl

lint_claimed :
    (claim_job_inner (at 101 "" "t2") "notes" none "w1" 60 queued_db).0
    ≡ ok (some (lint_lease "t2" 1 161))
unfolding claim_job_inner is_expired is_claimable update_where find_where least_where
    interrupt_expired job read_row from_str from_result
lint_claimed = refl

other_token : (lint_lease "t1" 1 161).token ≢ (lint_lease "t2" 1 161).token
other_token e = false≢true ((str_eq_iff "t1" "t2").1 e)

claim_job_inner-fences_example :
    Refused
      (claim_job_inner (at 101 "" "t2") "notes" none "w1" 60 queued_db).1
      "notes"
      (lint_lease "t1" 1 161)
claim_job_inner-fences_example =
    claim_job_inner-fences (at 101 "" "t2") "notes" none "w1" 60 queued_db (lint_lease "t2" 1 161)
      (lint_lease "t1" 1 161) queued_db-Distinct lint_claimed refl other_token

reject_credentials-Clean_example :
    (reject_credentials lint_args ≡ ok tt)
    ↔ All (λ key. spells_credential key ≡ false) (keys_of lint_args)
reject_credentials-Clean_example = reject_credentials-Clean lint_args

abbrev failed_row : Row
failed_row = record queued_row { status = failed; attempts = 3; max_attempts = 5 }

abbrev failed_db : Ledger
failed_db = record empty_ledger { rows = failed_row ∷ [] }

failed_db-Distinct : Distinct failed_db.rows
unfolding has_id
failed_db-Distinct = (refl, tt)

failed_found : find_where (is_retryable "notes" "j1") failed_db.rows ≡ some failed_row
unfolding find_where is_retryable
failed_found = refl

retry_job-waits_example :
    ((retry_job (at 300 "" "") "notes" "j1" failed_db).0
      ≡ read_row (at 300 "" "") (waiting (300 + wait 3) failed_row))
    × ((retry_job (at 300 "" "") "notes" "j1" failed_db).1.rows
        ≡ update_where (is_row "notes" "j1") (waiting (300 + wait 3)) failed_db.rows)
    × ((later : ℕ) (wanted : Option String)
        → is_claimable "notes" later wanted (waiting (300 + wait 3) failed_row) ≡ true
        → 300 + wait 3 ≤ later)
retry_job-waits_example =
    retry_job-waits (at 300 "" "") "notes" "j1" failed_row 300 failed_db failed_db-Distinct refl
      failed_found
