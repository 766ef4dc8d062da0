-- ===== src/Jobs/Retries.antt =====
-- A retry of crates/llmbase-core/src/jobs.rs as a step of the table.
use llmbase.Prelude.{
  ltb, ltb→lt, &&-eq-true, Option-cases, ◌==◌, str_eq_iff, ◌+◌, ◌<◌, String, ◌≡◌, refl, inl, inr,
  true, ◌&&◌, some, string_PartialEq,
}
use llmbase.Jobs.Table.{Row, Ledger, find_where, is_row}
use llmbase.Jobs.Types.{Env, now}
use llmbase.Jobs.Settle.{may_retry, is_retryable, retry_backoff, requeue, retry_found, retry_job}
use llmbase.Jobs.Distinct.{Distinct, In-find_where}
use llmbase.Jobs.Step.{Step, retry}
use llmbase.Jobs.Evolves.{Reaches-update, Reaches, Reaches-same, checked_elim, update_found}

retryable_row :
    (library id : String) (r : Row)
    → is_retryable library id r ≡ true
    → (r.id ≡ id) × (may_retry r.status ≡ true) × (r.attempts < r.max_attempts)
unfolding is_retryable
retryable_row library id r h =
    let (left, room) =
      &&-eq-true (is_row library id r && may_retry r.status) (ltb r.attempts r.max_attempts) h in
    let (row, may) = &&-eq-true (is_row library id r) (may_retry r.status) left in
    (
      (str_eq_iff r.id id).0 (&&-eq-true (r.library_id == library) (r.id == id) row).1,
      may,
      ltb→lt r.attempts r.max_attempts room,
    )

retry_found-Reaches :
    (env : Env) (library id : String) (db : Ledger) (r : Row)
    → Distinct db.rows
    → find_where (is_retryable library id) db.rows ≡ some r
    → Reaches db.rows (retry_found env library id r db).1
unfolding retry_found
retry_found-Reaches env library id db r d found =
    let (m, hit) = In-find_where (is_retryable library id) db.rows r found in
    let (same, may, room) = retryable_row library id r hit in
    checked_elim (Reaches db.rows) (now env) db _ (Reaches-same db d) λ time _.
      let at = time + retry_backoff r.attempts in
      Reaches-update (is_row library id) (requeue at) db.rows (λ x. refl)
        (update_found Step library id (requeue at) r db.rows d m same (retry at may room refl)) d

pub retry_job-Reaches :
    (env : Env) (library id : String) (db : Ledger)
    → Distinct db.rows
    → Reaches db.rows (retry_job env library id db).1
unfolding retry_job
retry_job-Reaches env library id db d =
    elim (Option-cases (find_where (is_retryable library id) db.rows)) [
      | inl none_found ↦ rw (none_found, retry_job) (Reaches-same db d)
      | inr (r, found) ↦ rw (found, retry_job) (retry_found-Reaches env library id db r d found)
    ]
