-- ===== src/Jobs/Rollback.antt =====
-- Errors of crates/llmbase-core/src/jobs.rs and what they leave.
use llmbase.Jobs.Readback.{Undone, checked-Undone, insert-job, reads, reads-lease}
use llmbase.Prelude.{
  ltb, &&-eq-true, Option-cases, ◌==◌, string_PartialEq, str_eq_iff, ℕ, ◌+◌, String, ◌≡◌, refl, inl,
  inr, Bool, true, ◌&&◌, ◌||◌, Option,
}
use llmbase.Json.{Value}
use llmbase.Errors.{reject_if}
use llmbase.Jobs.Table.{
  JobStatus, Row, Ledger, update_where, find_where, is_row, is_running, is_queued,
}
use llmbase.Jobs.Credentials.{reject_credentials}
use llmbase.Jobs.Types.{
  Env, JobLease, now, validate_lease, read_row, job, bad_text, new_row, insert,
}
use llmbase.Jobs.Enqueue.{
  bad_job, job_refused, enqueue_job, running_refused, running_row, enqueue_running_job,
}
use llmbase.Jobs.Settle.{
  holds_lease, extend, heartbeat_job, settle, valid_finish, finish_job, is_cancellable, cancel_row,
  cancel_job, may_retry, is_retryable, retry_backoff, requeue, retry_found, retry_job,
}
use llmbase.Jobs.Distinct.{Distinct, In, In-find_where}
use llmbase.Jobs.Lookup.{Holder, count_where-none, update_where-none, count_where-one, find-update}
use llmbase.Jobs.Fencing.{holds-id}

pub enqueue_job-Undone :
    (env : Env) (library operation : String) (args : Value) (budget : ℕ) (db : Ledger)
    → Undone env db (enqueue_job env library operation args budget db)
unfolding enqueue_job job
enqueue_job-Undone env library operation args budget db =
    checked-Undone env (reject_if (bad_job operation args budget) job_refused) db _ λ _ _.
      checked-Undone env (reject_credentials args) db _ λ _ _.
        checked-Undone env (now env) db _ λ time _.
          let row = new_row env library operation args budget time in
          checked-Undone env (insert row db) db _ λ inserted fresh.
            reads env _ row db _ (insert-job env row db inserted library fresh refl)

read_back :
    (env : Env) (p : Row → Bool) (f : Row → Row) (library id : String) (r : Row) (db : Ledger)
    → ((x : Row) → (f x).id ≡ x.id)
    → ((x : Row) → (f x).library_id ≡ x.library_id)
    → Distinct db.rows
    → In r db.rows
    → p r ≡ true
    → is_row library id r ≡ true
    → job env library id (record db { rows = update_where p f db.rows }) ≡ read_row env (f r)
unfolding job
read_back env p f library id r db ids libs d m hit row =
    rw (job, find-update p f library id r db.rows ids libs d m hit row)

pub enqueue_running_job-Undone :
    (env : Env) (library operation : String) (args : Value) (budget : ℕ) (worker : String)
    (seconds : ℕ) (db : Ledger)
    → Undone env db (enqueue_running_job env library operation args budget worker seconds db)
unfolding enqueue_running_job job
enqueue_running_job-Undone env library operation args budget worker seconds db =
    checked-Undone env
      (reject_if (bad_job operation args budget || bad_text worker) running_refused) db _
      λ _ _. checked-Undone env (validate_lease seconds) db _ λ _ _.
        checked-Undone env (reject_credentials args) db _ λ _ _.
          checked-Undone env (now env) db _ λ time _.
            let row = running_row env library operation args budget worker time seconds in
            checked-Undone env (insert row db) db _ λ inserted fresh.
              reads-lease env _ row env.token db _
                (insert-job env row db inserted library fresh refl)

pub heartbeat_job-Undone :
    (env : Env) (library : String) (lease : JobLease) (seconds : ℕ) (db : Ledger)
    → Distinct db.rows
    → Undone env db (heartbeat_job env library lease seconds db)
unfolding heartbeat_job
heartbeat_job-Undone env library lease seconds db d =
    checked-Undone env (validate_lease seconds) db _ λ _ _.
      checked-Undone env (now env) db _ λ time _.
        let held = holds_lease library lease time in
        let write = extend (time + seconds) in
        elim (Holder held db.rows) [
          | inl gone ↦ λ _ _. inl (rw (update_where-none held write db.rows gone))
          | inr (r, m, hit) ↦
              rw
                (count_where-one held lease.job.id r db.rows
                  (λ x h. (holds-id library lease time x h).1) d m hit)
                (λ e failed. cc failed)
        ]

pub finish_job-Undone :
    (env : Env) (library : String) (lease : JobLease) (status : JobStatus) (result : Option Value)
    (error : Option String) (db : Ledger)
    → Distinct db.rows
    → Undone env db (finish_job env library lease status result error db)
unfolding finish_job job
finish_job-Undone env library lease status result error db d =
    checked-Undone env (valid_finish status result error) db _ λ _ _.
      checked-Undone env (now env) db _ λ time _.
        let held = holds_lease library lease time in
        elim (Holder held db.rows) [
          | inl gone ↦ rw (count_where-none held db.rows gone) (λ _ _. inl refl)
          | inr (r, m, hit) ↦
              let (row, _) = holds-id library lease time r hit in
              rw
                (count_where-one held lease.job.id r db.rows
                  (λ x h. (holds-id library lease time x h).1) d m hit)
                (reads env _ (settle status result error r) db _ (
                  read_back env held (settle status result error) library lease.job.id r db
                    (λ x. refl) (λ x. refl) d m hit row))
        ]

cancellable-id :
    (library id : String) (x : Row)
    → is_cancellable library id x ≡ true
    → (is_row library id x ≡ true) × (x.id ≡ id)
unfolding is_cancellable
cancellable-id library id x h =
    let (row, _) = &&-eq-true (is_row library id x) (is_queued x.status || is_running x.status) h in
    (row, (str_eq_iff x.id id).0 (&&-eq-true (x.library_id == library) (x.id == id) row).1)

pub cancel_job-Undone :
    (env : Env) (library id : String) (db : Ledger)
    → Distinct db.rows
    → Undone env db (cancel_job env library id db)
unfolding cancel_job job
cancel_job-Undone env library id db d =
    let may = is_cancellable library id in
    elim (Holder may db.rows) [
      | inl gone ↦ rw (count_where-none may db.rows gone) (λ _ _. inl refl)
      | inr (r, m, hit) ↦
          let (row, _) = cancellable-id library id r hit in
          rw (count_where-one may id r db.rows (λ x h. (cancellable-id library id x h).1) d m hit) (
            reads env _ (cancel_row r) db _
              (read_back env may cancel_row library id r db (λ x. refl) (λ x. refl) d m hit row))
    ]

retry_found-Undone :
    (env : Env) (library id : String) (r : Row) (db : Ledger)
    → Distinct db.rows
    → In r db.rows
    → is_row library id r ≡ true
    → Undone env db (retry_found env library id r db)
unfolding retry_found job
retry_found-Undone env library id r db d m row = checked-Undone env (now env) db _ λ time _.
    let write = requeue (time + retry_backoff r.attempts) in
    reads env _ (write r) db _
      (read_back env (is_row library id) write library id r db (λ x. refl) (λ x. refl) d m row row)

pub retry_job-Undone :
    (env : Env) (library id : String) (db : Ledger)
    → Distinct db.rows
    → Undone env db (retry_job env library id db)
unfolding retry_job is_retryable
retry_job-Undone env library id db d =
    elim (Option-cases (find_where (is_retryable library id) db.rows)) [
      | inl none_found ↦ rw (retry_job, none_found) (λ _ _. inl refl)
      | inr (r, found) ↦
          let (m, hit) = In-find_where (is_retryable library id) db.rows r found in
          let (left, _) =
            &&-eq-true (is_row library id r && may_retry r.status) (ltb r.attempts r.max_attempts)
              hit in
          let (row, _) = &&-eq-true (is_row library id r) (may_retry r.status) left in
          rw (retry_job, found) (retry_found-Undone env library id r db d m row)
    ]
