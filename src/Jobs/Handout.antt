-- ===== src/Jobs/Handout.antt =====
-- What `claim_job_inner` of crates/llmbase-core/src/jobs.rs hands out.
use llmbase.Jobs.Order.{IsFirst, none_match, least_where-IsFirst}
use mathlib.Core.Path.{fun_ext}
use llmbase.Errors.{Result, ok, reject_if}
use llmbase.Prelude.{
  Option-cases, All, str_eq_iff, ℕ, suc, ◌+◌, String, ◌≡◌, refl, ap, ◌∙◌, ◌⊎◌, inl, inr, true,
  false, Option, none, some, arith,
}
use llmbase.Jobs.Table.{running, Row, Ledger, update_where, least_where, is_row}
use llmbase.Jobs.Claim.{
  interrupt_expired, is_claimable, take_lease, start_row, leased, claim_ready, no_worker,
  claim_job_inner,
}
use llmbase.Jobs.Lookup.{find-update}
use llmbase.Jobs.Types.{Env, Reply, checked, now, validate_lease, read_row, job, bad_text}
use llmbase.Jobs.Claims.{interrupt_expired-Touched, claimable_row}
use llmbase.Jobs.Distinct.{Distinct, In, In-least_where}

claimable_key :
    (library : String) (time : ℕ) (wanted : Option String) (r : Row)
    → is_claimable library time wanted r ≡ true
    → is_row library r.id r ≡ true
claimable_key library time wanted r h =
    let (owner, _, _) = claimable_row library time wanted r h in
    rw ((str_eq_iff r.library_id library).1 owner, (str_eq_iff r.id r.id).1 refl)

-- A row that has just been handed out: it runs for the worker, with one attempt more, under the token until
-- the given time, and has no error.
unfoldable pub handed : String → String → ℕ → Row → Row
handed worker token until r = record {
  library_id = r.library_id;
  id = r.id;
  operation = r.operation;
  args = r.args;
  status = running;
  attempts = suc r.attempts;
  max_attempts = r.max_attempts;
  available_at = r.available_at;
  lease_token = some token;
  lease_until = some until;
  worker_id = some worker;
  result = r.result;
  error = none;
  created_at = r.created_at;
}

take_lease-handed :
    (worker token : String) (until : ℕ) (r : Row)
    → take_lease worker token until r ≡ handed worker token until r
unfolding handed
take_lease-handed worker token until r =
    ap (λ n. record (take_lease worker token until r) { attempts = n }) (omega arith)

-- What a claim returns and leaves, once its expired leases are out of the way.
pub claim_ready-least :
    (env : Env) (library : String) (wanted : Option String) (worker : String) (seconds time : ℕ)
    (db : Ledger) (r : Row)
    → Distinct db.rows
    → least_where (is_claimable library time wanted) db.rows ≡ some r
    → claim_ready env library wanted worker seconds time db ≡ (
      leased (read_row env (take_lease worker env.token (time + seconds) r)) env.token,
      start_row env library worker (time + seconds) r.id db,
    )
unfolding claim_ready start_row job
claim_ready-least env library wanted worker seconds time db r d found =
    let (m, hit) = In-least_where (is_claimable library time wanted) db.rows r found in
    let key = claimable_key library time wanted r hit in
    let read =
      find-update (is_row library r.id) (take_lease worker env.token (time + seconds)) library r.id
        r db.rows (λ x. refl) (λ x. refl) d m key key in
    rw (claim_ready, found, job, read)

start_row-rows :
    (env : Env) (library worker i : String) (until : ℕ) (db : Ledger)
    → (start_row env library worker until i db).rows
      ≡ update_where (is_row library i) (handed worker env.token until) db.rows
unfolding start_row
start_row-rows env library worker i until db =
    ap (λ f. update_where (is_row library i) f db.rows)
      (fun_ext (take_lease-handed worker env.token until))

-- The checks of a claim, all passed.
after_checks :
    {A : Type 0} (v w : Result (Unit {0})) (t : Result ℕ) (time : ℕ) (db : Ledger) (k : ℕ → Reply A)
    → v ≡ ok tt
    → w ≡ ok tt
    → t ≡ ok time
    → checked v db (λ _. checked w db (λ _. checked t db k)) ≡ k time
after_checks v w t time db k p q r = rw (p, q, r) refl

pub now_reads : (env : Env) (time : ℕ) → env.clock ≡ some time → now env ≡ ok time
unfolding now
now_reads env time clock = rw clock refl

-- A claim that passes its checks, with a clock that reads `time`, on a table with distinct ids, first
-- interrupts the expired leases of the library. Then either no row may be claimed, and it returns none
-- and changes nothing more. Or there is a row that may be claimed and that comes no later than any other such
-- row by available time and creation time: that row alone becomes running for this worker, with one attempt
-- more, no error, and the fresh token until `time` plus the lease's seconds; and what is returned is the
-- lease of that row with that token, or the error of reading its stored texts back.
pub claim_job_inner-IsFirst :
    (env : Env) (library : String) (wanted : Option String) (worker : String) (seconds time : ℕ)
    (db : Ledger)
    → Distinct db.rows
    → validate_lease seconds ≡ ok tt
    → bad_text worker ≡ false
    → env.clock ≡ some time
    → (All
          (λ x. is_claimable library time wanted x ≡ false)
          (interrupt_expired library time db).rows
        × (claim_job_inner env library wanted worker seconds db
            ≡ (ok none, interrupt_expired library time db)))
      ⊎ ((r : Row) × In r (interrupt_expired library time db).rows
          × (is_claimable library time wanted r ≡ true)
          × IsFirst (is_claimable library time wanted) r (interrupt_expired library time db).rows
          × ((claim_job_inner env library wanted worker seconds db).0
              ≡ leased (read_row env (handed worker env.token (time + seconds) r)) env.token)
          × ((claim_job_inner env library wanted worker seconds db).1.rows
              ≡ update_where
                  (is_row library r.id)
                  (handed worker env.token (time + seconds))
                  (interrupt_expired library time db).rows))
unfolding claim_job_inner
claim_job_inner-IsFirst env library wanted worker seconds time db d lease name clock =
    let swept = interrupt_expired library time db in
    let may = is_claimable library time wanted in
    let (_, d') = interrupt_expired-Touched library time db d in
    let start : claim_job_inner env library wanted worker seconds db
        ≡ claim_ready env library wanted worker seconds time swept =
      after_checks (validate_lease seconds) (reject_if (bad_text worker) no_worker) (now env) time
        db _ lease (ap (λ b. reject_if b no_worker) name) (now_reads env time clock) in
    elim (Option-cases (least_where may swept.rows)) [
      | inl empty_table ↦
          inl (none_match may swept.rows empty_table, start ∙ rw (claim_ready, empty_table) refl)
      | inr (r, found) ↦
          let (m, hit) = In-least_where may swept.rows r found in
          let reply = claim_ready-least env library wanted worker seconds time swept r d' found in
          inr (
            r,
            m,
            hit,
            least_where-IsFirst may swept.rows r found,
            ap (λ x. x.0) (start ∙ reply)
                ∙ ap (λ x. leased (read_row env x) env.token)
                    (take_lease-handed worker env.token (time + seconds) r),
            ap (λ x. x.1.rows) (start ∙ reply)
                ∙ start_row-rows env library worker r.id (time + seconds) swept,
          )
    ]
