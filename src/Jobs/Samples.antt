-- ===== src/Jobs/Samples.antt =====
-- Sample tables and leases for the tests of the job ledger and the worker.
use llmbase.Prelude.{ℕ, String, refl, true, none, some, [], ◌∷◌}
use llmbase.Json.{Value, bool, object, end, field}
use llmbase.Jobs.Table.{running, Row, Ledger, empty_ledger, has_id}
use llmbase.Jobs.Types.{Env, JobLease, new_row}
use llmbase.Jobs.Claim.{take_lease}
use llmbase.Jobs.Distinct.{Distinct}

abbrev pub at : ℕ → String → String → Env
at time id token = record { clock = some time; id = id; token = token; stamp = time; reread = some }

abbrev pub lint_args : Value
lint_args = object (field "dry_run" (bool true) end)

abbrev pub lint_lease : String → ℕ → ℕ → JobLease
lint_lease token attempts until = record {
  job = record {
    library_id = "notes";
    id = "j1";
    operation = "lint";
    args = lint_args;
    status = running;
    attempts = attempts;
    max_attempts = 3;
    available_at = 100;
    lease_until = some until;
    result = none;
    error = none;
  };
  token = token;
}

abbrev pub queued_row : Row
queued_row = new_row (at 100 "j1" "") "notes" "lint" lint_args 3 100

abbrev pub queued_db : Ledger
queued_db = record empty_ledger { rows = queued_row ∷ [] }

abbrev pub running_db : Ledger
running_db = record empty_ledger { rows = take_lease "w1" "t1" 161 queued_row ∷ [] }

pub queued_db-Distinct : Distinct queued_db.rows
unfolding has_id
queued_db-Distinct = (refl, tt)

pub running_db-Distinct : Distinct running_db.rows
unfolding has_id
running_db-Distinct = (refl, tt)
