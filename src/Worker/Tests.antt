-- ===== src/Worker/Tests.antt =====
-- The theorems on crates/llmbase-core/src/worker.rs at concrete results.
use llmbase.Worker.Successes.{success_texts, among}
use llmbase.Errors.{ok, is_ok}
use llmbase.Prelude.{◌≡◌, refl, ◌↔◌, true, false, none, [], ◌∷◌}
use llmbase.Json.{Value, string, object, end, field, is_null, get_str}
use llmbase.Jobs.Types.{completed}
use llmbase.Jobs.Claim.{is_expired, is_claimable}
use llmbase.Jobs.Settle.{holds_lease}
use llmbase.Jobs.Samples.{at, queued_db, queued_db-Distinct}
use llmbase.Worker.{handler_outcome}
use llmbase.Access.{local, Application}
use llmbase.Jobs.Table.{update_where, count_where, find_where, least_where}
use llmbase.Jobs.Calls.{after_all}
use llmbase.Worker.Loop.{WorkerSelection, Course, run_job}
use llmbase.Worker.Settled.{run_job-Settles}
use llmbase.Worker.History.{Settles}
use llmbase.Worker.Outcomes.{handler_outcome-completed, Settled}

abbrev report : Value
report = object (field "status" (string "no_changes") end)

handler_outcome-completed_example :
    (handler_outcome "entities_generate" (ok report) ≡ completed report) ↔ (
      (ok report ≡ ok report)
      × (is_null report ≡ false)
      × (among (success_texts "entities_generate") (get_str report "status") ≡ true))
handler_outcome-completed_example = handler_outcome-completed "entities_generate" (ok report) report

abbrev sample_app : Application
sample_app = record { libraries = "notes" ∷ []; extensions = [] }

abbrev any_job : WorkerSelection
any_job = record { worker_id = "w1"; job_id = none }

-- The job is claimed at 101, has its lease extended at 110 and is done at 120.
abbrev sample_course : Course
sample_course = record {
  cancelled_at_start = false;
  cancelled_in_task = false;
  opened = ok tt;
  claiming = record { others = []; between = []; env = at 101 "" "t1" };
  beats = record { others = []; between = []; env = at 110 "" "" } ∷ [];
  finish = record {
    turn = record { others = []; between = []; env = at 120 "" "" };
    result = ok report;
    stopped = false;
    token_cancelled = false;
  };
}

sample_run_ok :
    is_ok (run_job sample_app (local "notes") "notes" any_job sample_course queued_db).0 ≡ true
unfolding run_job least_where after_all is_expired update_where is_claimable find_where count_where
    holds_lease
sample_run_ok = refl

run_job-Settles_example :
    Settles queued_db (run_job sample_app (local "notes") "notes" any_job sample_course queued_db)
run_job-Settles_example =
    run_job-Settles sample_app (local "notes") "notes" any_job sample_course queued_db
      queued_db-Distinct
