-- ===== src/Worker.antt =====
-- crates/llmbase-core/src/worker.rs: what a handler's result becomes as the outcome of a job.
pub mod Loop
mod History
mod Settled
mod Outcomes
mod Successes
mod Tests
use llmbase.Prelude.{
  if◌then◌else◌, ◌==◌, one_of, String, Bool, true, not, ◌&&◌, ◌||◌, Option, none, some, [], ◌∷◌,
  string_PartialEq,
}
use llmbase.Json.{Value, is_null, get_str}
use llmbase.Errors.{
  cancelled, Error, invalid, not_found, conflict, scope, busy, capability, visibility_limit,
  visibility_config, io, sql, json, yaml, model, Result, ok, err,
}
use llmbase.Jobs.Types.{JobOutcome, completed, partly, failing, cancelling}

abbrev pub cancelled_text : String
cancelled_text = "operation cancelled; committed effects are retained"

abbrev pub invalid_outcome : JobOutcome
invalid_outcome = failing none (some "handler returned a missing or invalid outcome")

unfoldable pub safe_error : Error → String
safe_error scope = "library or capability denied"
safe_error (invalid m) = "invalid operation arguments or data"
safe_error json = "invalid operation arguments or data"
safe_error yaml = "invalid operation arguments or data"
safe_error (not_found m) = "resource not found"
safe_error (conflict m) = "resource conflicts with current state"
safe_error busy = "another writer is active; explicit retry is available"
safe_error (capability c) = "required operation capability is unavailable"
safe_error (visibility_limit r l o) = "configured visibility snapshot limit exceeded"
safe_error (visibility_config m) = "invalid visibility snapshot configuration"
safe_error io = "storage operation failed"
safe_error sql = "storage operation failed"
safe_error (model e) = "model operation failed"

-- The operations whose result has a status that is the job's.
unfoldable pub reports_status : String → Bool
reports_status operation = one_of operation (
    "compile" ∷ "legacy_compile" ∷ "plugin_ingest" ∷ "maintenance_repair" ∷ "taxonomy_generate"
    ∷ "xici_generate" ∷ "entities_generate" ∷ "lint_fix" ∷ "web_write_wiki_clean" ∷ [])

-- The texts under "status" that the operation may report for success.
unfoldable pub is_success : String → String → Bool
is_success operation status =
    status == "succeeded"
    || (status == "ok" && operation == "web_write_wiki_clean")
    || (status == "no_changes" && one_of operation ("legacy_compile" ∷ "entities_generate" ∷ []))
    || (status == "disabled" && operation == "entities_generate")

unfoldable pub reported : String → Value → Option String → JobOutcome
unfolding is_success
reported operation value none = invalid_outcome
reported operation value (some status) =
    if is_success operation status
    then completed value
    else if status == "partial"
    then partly (some value) (some "operation partially completed; inspect retained result")
    else if status == "failed"
    then failing (some value) (some "operation reported failure; inspect retained result")
    else if status == "cancelled"
    then cancelling (some value) (some cancelled_text)
    else invalid_outcome

unfoldable pub handler_outcome : String → Result Value → JobOutcome
unfolding safe_error reports_status reported
handler_outcome operation (err (model cancelled)) = cancelling none (some cancelled_text)
handler_outcome operation (err e) = failing none (some (safe_error e))
handler_outcome operation (ok value) =
    if is_null value
    then invalid_outcome
    else if not (reports_status operation)
    then completed value
    else reported operation value (get_str value "status")

unfoldable pub respect_cancellation : JobOutcome → Bool → JobOutcome
respect_cancellation (completed result) true =
    partly (some result)
      (some "cancelled after operation accepted; inspect result for committed effects")
respect_cancellation other cancelled_token = other
