-- ===== src/Jobs/Backoff.antt =====
-- What a retry in crates/llmbase-core/src/jobs.rs makes of a job, and how long the job waits then.
use mathlib.Core.Path.{fun_ext}
use llmbase.Prelude.{
  ltb, leb, if◌then◌else◌, leb→le, Bool-cases, ◌==◌, string_PartialEq, ℕ, zero, suc, ◌+◌, ◌-◌, ◌^◌,
  ◌≤◌, min, String, ◌≡◌, refl, ap, ◌∙◌, inl, inr, Bool, true, false, ◌&&◌, Option, none, some,
  arith,
}
use llmbase.Errors.{Result, ok}
use llmbase.Jobs.Table.{queued, Row, requeued, Ledger, add_event, update_where, find_where, is_row}
use llmbase.Jobs.Types.{Env, checked, now, read_row, job}
use llmbase.Jobs.Claim.{is_claimable}
use llmbase.Jobs.Settle.{is_retryable, u64_max, retry_backoff, requeue, retry_found, retry_job}
use llmbase.Jobs.Distinct.{Distinct, In, In-find_where}
use llmbase.Jobs.Handout.{now_reads}
use llmbase.Jobs.Lookup.{find-update}

min_left : (a b : ℕ) → a ≤ b → min a b ≡ a
min_left a b h = ground arith

min_right : (a b : ℕ) → b ≤ a → min a b ≡ b
min_right a b h = ground arith

power_grows : (n : ℕ) → 1 ≤ 2 ^ n
power_grows zero = omega arith
power_grows (suc n) = omega (arith, power_grows n)

power_le : (k n : ℕ) → k ≤ n → 2 ^ k ≤ 2 ^ n
power_le zero n h = power_grows n
power_le (suc k) zero h = omega (arith, h)
power_le (suc k) (suc n) h = omega (arith, power_le k n (omega (arith, h)))

-- The seconds that a job waits after its n-th attempt.
abbrev pub wait : ℕ → ℕ
wait n = if leb n 9 then 2 ^ (n - 1) else 300

retry_backoff-wait : (n : ℕ) → retry_backoff n ≡ wait n
unfolding retry_backoff
retry_backoff-wait n = elim (Bool-cases (leb n 9)) [
  | inl few ↦
      let h = leb→le n 9 few in
      let small = power_le (n - 1) 8 (omega (arith, h)) in
      rw few (
        ap (λ k. min k 300) (min_left (2 ^ (n - 1)) u64_max (omega (arith, small)))
        ∙ min_left (2 ^ (n - 1)) 300 (omega (arith, small)))
  | inr many ↦
      let big = power_le 9 (n - 1) (many_le n many) in
      rw many (min_right (min (2 ^ (n - 1)) u64_max) 300 (ground (arith, big)))
]
  where
    many_le : (k : ℕ) → leb k 9 ≡ false → 9 ≤ k - 1
    many_le k h = ground arith

-- A row that waits to be tried again.
unfoldable pub waiting : ℕ → Row → Row
waiting until r = record {
  library_id = r.library_id;
  id = r.id;
  operation = r.operation;
  args = r.args;
  status = queued;
  attempts = r.attempts;
  max_attempts = r.max_attempts;
  available_at = until;
  lease_token = r.lease_token;
  lease_until = r.lease_until;
  worker_id = r.worker_id;
  result = r.result;
  error = r.error;
  created_at = r.created_at;
}

requeue-waiting : (until : ℕ) (r : Row) → requeue until r ≡ waiting until r
unfolding waiting
requeue-waiting until r = refl

retryable_row :
    (library id : String) (r : Row) → is_retryable library id r ≡ true → is_row library id r ≡ true
unfolding is_retryable
retryable_row library id r h = first (is_row library id r) _ _ h
  where
    first : (a b c : Bool) → (a && b && c) ≡ true → a ≡ true
    first a b c k = ground arith

claimed_later :
    (library : String) (until time : ℕ) (wanted : Option String) (r : Row)
    → is_claimable library time wanted (waiting until r) ≡ true
    → until ≤ time
unfolding is_claimable waiting
claimed_later library until time wanted r h = leb→le until time (
    third (r.library_id == library) true (leb until time) (ltb r.attempts r.max_attempts)
      (elim wanted [ none ↦ true | some id ↦ r.id == id ]) h)
  where
    third : (a b c d e : Bool) → (a && b && c && d && e) ≡ true → c ≡ true
    third a b c d e k = ground arith

-- Retrying a job, with a clock that reads `time`, on a table with distinct ids, where the query finds the job's
-- row, failed, partial or interrupted with attempts left: that row alone becomes queued, available from
-- `time` plus its wait, and what is returned is what is read of it. The wait is 2^(n-1) seconds after n
-- attempts for n up to 9 (a second for n = 0), and 300 seconds from the tenth on. No claim takes the row
-- sooner.
pub retry_job-waits :
    (env : Env) (library id : String) (r : Row) (time : ℕ) (db : Ledger)
    → Distinct db.rows
    → env.clock ≡ some time
    → find_where (is_retryable library id) db.rows ≡ some r
    → ((retry_job env library id db).0 ≡ read_row env (waiting (time + wait r.attempts) r))
      × ((retry_job env library id db).1.rows
          ≡ update_where (is_row library id) (waiting (time + wait r.attempts)) db.rows)
      × ((later : ℕ) (wanted : Option String)
          → is_claimable library later wanted (waiting (time + wait r.attempts) r) ≡ true
          → time + wait r.attempts ≤ later)
unfolding retry_job retry_found job
retry_job-waits env library id r time db d clock found = (
  ap (λ x. x.0) start ∙ rw (job, read) refl ∙ ap (read_row env) row_same,
  ap (λ x. x.1.rows) start
      ∙ ap (λ f. update_where (is_row library id) f db.rows) (fun_ext write_same),
  λ later wanted h. claimed_later library (time + wait r.attempts) later wanted r h,
)
  where
    until : ℕ
    until = time + retry_backoff r.attempts

    again : Ledger
    again =
        add_event library id "queued" (requeued (retry_backoff r.attempts))
          (record db { rows = update_where (is_row library id) (requeue until) db.rows })

    start : retry_job env library id db ≡ (job env library id again, again)
    start = rw (retry_job, found) (passed_clock (now env) (now_reads env time clock))
      where
        passed_clock :
            (t : Result ℕ)
            → t ≡ ok time
            → checked t db (λ time.
              let backoff = retry_backoff r.attempts in
              let again = add_event library id "queued" (requeued backoff) (record db {
                rows = update_where (is_row library id) (requeue (time + backoff)) db.rows;
              }) in
              (job env library id again, again))
              ≡ (job env library id again, again)
        passed_clock t e = rw e refl

    row : In r db.rows × (is_row library id r ≡ true)
    row =
        let (m, hit) = In-find_where (is_retryable library id) db.rows r found in
        (m, retryable_row library id r hit)

    read :
        find_where (is_row library id) (update_where (is_row library id) (requeue until) db.rows)
        ≡ some (requeue until r)
    read =
        find-update (is_row library id) (requeue until) library id r db.rows (λ x. refl) (λ x. refl)
          d row.0 row.1 row.1

    write_same : (x : Row) → requeue until x ≡ waiting (time + wait r.attempts) x
    write_same x =
        ap (λ n. requeue (time + n) x) (retry_backoff-wait r.attempts)
        ∙ requeue-waiting (time + wait r.attempts) x

    row_same : requeue until r ≡ waiting (time + wait r.attempts) r
    row_same = write_same r
