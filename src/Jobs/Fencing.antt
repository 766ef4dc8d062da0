-- ===== src/Jobs/Fencing.antt =====
-- Fencing: what a lease of crates/llmbase-core/src/jobs.rs still may do to its job.
use llmbase.Prelude.{
  &&-eq-true, All, ◌==◌, string_PartialEq, str_eq_iff, ℕ, ◌+◌, String, ◌≡◌, refl, ◌⊎◌, inl, inr,
  Bool, true, false, ◌&&◌, Option, some, arith,
}
use llmbase.Json.{Value}
use llmbase.Errors.{Result, ok, err, is_ok}
use llmbase.Jobs.Table.{JobStatus, Row, Ledger, update_where, count_where, is_row}
use llmbase.Jobs.Types.{Env, JobLease, Reply, checked, now, validate_lease, read_row, job}
use llmbase.Jobs.Settle.{
  holds_lease, lease_lost, extend, heartbeat_job, settle, valid_finish, finish_job,
}
use llmbase.Jobs.Distinct.{Distinct, In}
use llmbase.Jobs.Lookup.{Holder, count_where-none, update_where-none, count_where-one, find-update}

pub holds-id :
    (library : String) (lease : JobLease) (time : ℕ) (x : Row)
    → holds_lease library lease time x ≡ true
    → (is_row library lease.job.id x ≡ true) × (x.id ≡ lease.job.id)
unfolding holds_lease
holds-id library lease time x h =
    let row = first (is_row library lease.job.id x) _ _ _ h in
    (row, (str_eq_iff x.id lease.job.id).0 (&&-eq-true (x.library_id == library) _ row).1)
  where
    first : (a b c d : Bool) → (a && b && c && d) ≡ true → a ≡ true
    first a b c d h = ground arith

pub finish_job-Holder :
    (env : Env) (library : String) (lease : JobLease) (status : JobStatus) (result : Option Value)
    (error : Option String) (time : ℕ) (db : Ledger)
    → Distinct db.rows
    → env.clock ≡ some time
    → valid_finish status result error ≡ ok tt
    → ((r : Row) × In r db.rows
        × (holds_lease library lease time r ≡ true)
        × ((finish_job env library lease status result error db).0
            ≡ read_row env (settle status result error r))
        × ((finish_job env library lease status result error db).1.rows
            ≡ update_where (holds_lease library lease time) (settle status result error) db.rows))
      ⊎ (All (λ r. holds_lease library lease time r ≡ false) db.rows
          × (finish_job env library lease status result error db ≡ (err lease_lost, db)))
unfolding finish_job now job
finish_job-Holder env library lease status result error time db d clock valid =
    let held = holds_lease library lease time in
    elim (Holder held db.rows) [
      | inl gone ↦ inr (gone, rw (valid, clock, count_where-none held db.rows gone))
      | inr (r, m, hit) ↦
          let (row, _) = holds-id library lease time r hit in
          let one : count_where held db.rows ≡ 1 =
            count_where-one held lease.job.id r db.rows (λ x h. (holds-id library lease time x h).1)
              d m hit in
          let read =
            find-update held (settle status result error) library lease.job.id r db.rows (λ x. refl)
              (λ x. refl) d m hit row in
          inl (r, m, hit, rw (valid, clock, one, job, read), rw (valid, clock, one))
    ]

-- A heartbeat or a finish under a lease that no row holds changes nothing and is refused.
pub Refused : Ledger → String → JobLease → Type 0
Refused db library old =
    ((env : Env) (seconds : ℕ)
      → ((heartbeat_job env library old seconds db).1 ≡ db)
        × (is_ok (heartbeat_job env library old seconds db).0 ≡ false))
    × ((env : Env) (status : JobStatus) (result : Option Value) (error : Option String)
        → ((finish_job env library old status result error db).1 ≡ db)
          × (is_ok (finish_job env library old status result error db).0 ≡ false))

-- A check that fails.
checked_refused :
    {A B : Type 0} (r : Result A) (db : Ledger) (k : A → Reply B)
    → ((a : A) → ((k a).1 ≡ db) × (is_ok (k a).0 ≡ false))
    → ((checked r db k).1 ≡ db) × (is_ok (checked r db k).0 ≡ false)
checked_refused (ok a) db k h = h a
checked_refused (err e) db k h = (refl, refl)

pub unheld-Refused :
    (db : Ledger) (library : String) (old : JobLease)
    → ((time : ℕ) → All (λ x. holds_lease library old time x ≡ false) db.rows)
    → Refused db library old
unfolding Refused heartbeat_job finish_job
unheld-Refused db library old gone = (
  λ env seconds. checked_refused (validate_lease seconds) db _ λ _.
      checked_refused (now env) db _ λ time.
        rw
          (
            count_where-none (holds_lease library old time) db.rows (gone time),
            update_where-none (holds_lease library old time) (extend (time + seconds)) db.rows
                (gone time),
          )
          (refl, refl),
  λ env status result error. checked_refused (valid_finish status result error) db _ λ _.
      checked_refused (now env) db _ λ time.
        rw (count_where-none (holds_lease library old time) db.rows (gone time)) (refl, refl),
)
