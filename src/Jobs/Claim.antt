-- ===== src/Jobs/Claim.antt =====
-- `claim_job`, `claim_job_by_id` and `claim_job_inner` of crates/llmbase-core/src/jobs.rs.
use llmbase.Prelude.{
  ltb, leb, if◌then◌else◌, some_and, ◌==◌, string_PartialEq, ℕ, ◌+◌, String, Bool, true, ◌&&◌,
  Option, none, some, List, [], ◌∷◌,
}
use llmbase.Errors.{Error, invalid, conflict, Result, ok, err, ◌>>=◌, reject_if}
use llmbase.Jobs.Table.{
  running, interrupted, Row, lease_expired, lease_taken, Ledger, add_event, update_where,
  least_where, is_row, is_running, is_queued,
}
use llmbase.Jobs.Types.{
  Env, Job, JobLease, Reply, checked, now, validate_lease, job, bad_text, lease_of,
}

-- status='running' AND lease_until<=now
unfoldable pub is_expired : String → ℕ → Row → Bool
is_expired library time r =
    r.library_id == library && is_running r.status && some_and r.lease_until (λ t. leb t time)

abbrev pub interrupt : Row → Row
interrupt r = record r {
  status = interrupted;
  lease_token = none;
  lease_until = none;
  error = some "lease expired";
}

-- One event for each row that is about to be interrupted.
unfoldable pub interrupt_events : String → ℕ → List Row → Ledger → Ledger
interrupt_events library time [] db = db
interrupt_events library time (r ∷ rs) db = interrupt_events library time rs (
    if is_expired library time r then add_event library r.id "interrupted" lease_expired db else db)

-- The source selects the ids of the expired rows, and updates each by its primary key.
unfoldable pub interrupt_expired : String → ℕ → Ledger → Ledger
unfolding interrupt_events
interrupt_expired library time db =
    interrupt_events library time db.rows
      (record db { rows = update_where (is_expired library time) interrupt db.rows })

-- The rows that a worker may claim.
unfoldable pub is_claimable : String → ℕ → Option String → Row → Bool
is_claimable library time wanted r =
    r.library_id == library
    && is_queued r.status
    && leb r.available_at time
    && ltb r.attempts r.max_attempts
    && elim wanted [ none ↦ true | some id ↦ r.id == id ]

abbrev pub take_lease : String → String → ℕ → Row → Row
take_lease worker token until r = record r {
  status = running;
  attempts = r.attempts + 1;
  worker_id = some worker;
  lease_token = some token;
  lease_until = some until;
  error = none;
}

unfoldable pub start_row : Env → String → String → ℕ → String → Ledger → Ledger
start_row env library worker until id db =
    add_event library id "start" (lease_taken worker until) (record db {
      rows = update_where (is_row library id) (take_lease worker env.token until) db.rows;
    })

abbrev pub leased : Result Job → String → Result (Option JobLease)
leased found token = do lease ← lease_of found token; ok (some lease)

unfoldable pub claim_ready :
    Env → String → Option String → String → ℕ → ℕ → Ledger → Reply (Option JobLease)
unfolding start_row
claim_ready env library wanted worker seconds time db =
    elim (least_where (is_claimable library time wanted) db.rows) [
      | none ↦ (ok none, db)
      | some r ↦
          let started = start_row env library worker (time + seconds) r.id db in
          (leased (job env library r.id started) env.token, started)
    ]

abbrev pub no_worker : Error
no_worker = invalid "worker ID required"

unfoldable pub claim_job_inner :
    Env → String → Option String → String → ℕ → Ledger → Reply (Option JobLease)
unfolding now validate_lease claim_ready interrupt_expired
claim_job_inner env library wanted worker seconds db = checked (validate_lease seconds) db λ _.
    checked (reject_if (bad_text worker) no_worker) db λ _.
      checked (now env) db λ time.
        claim_ready env library wanted worker seconds time (interrupt_expired library time db)

unfoldable pub claim_job : Env → String → String → ℕ → Ledger → Reply (Option JobLease)
unfolding claim_job_inner
claim_job env library worker seconds db = claim_job_inner env library none worker seconds db

abbrev pub or_conflict : Reply (Option JobLease) → Reply JobLease
or_conflict (ok (some lease), db) = (ok lease, db)
or_conflict (ok none, db) = (err (conflict "requested job is not available to claim"), db)
or_conflict (err e, db) = (err e, db)

unfoldable pub claim_job_by_id : Env → String → String → String → ℕ → Ledger → Reply JobLease
unfolding claim_job_inner
claim_job_by_id env library id worker seconds db =
    or_conflict (claim_job_inner env library (some id) worker seconds db)
