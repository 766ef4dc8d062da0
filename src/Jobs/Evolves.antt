-- ===== src/Jobs/Evolves.antt =====
-- Every call of crates/llmbase-core/src/jobs.rs moves the table by the steps of Jobs/Step, and keeps
-- its primary key.
use mathlib.Core.Path.{subst}
use llmbase.Jobs.Enqueue.{
  bad_job, job_refused, enqueue_job, running_refused, running_row, enqueue_running_job,
}
use llmbase.Jobs.Settle.{
  holds_lease, lease_lost, extend, heartbeat_job, settle, valid_finish, finish_job, is_cancellable,
  cancel_row, not_cancellable, cancel_job,
}
use llmbase.Prelude.{
  ltb, nat_eqb, within, some_and, Bool-cases, &&-eq-true, All, ◌==◌, string_PartialEq, ℕ, ◌+◌,
  String, ◌≡◌, refl, sym, ap, ◌∙◌, ◌⊎◌, inl, inr, Bool, true, false, not, ◌&&◌, ◌||◌, Option, List,
  [], ◌∷◌, ◌++◌, arith,
}
use llmbase.Json.{Value, is_object}
use llmbase.Errors.{Error, Result, ok, err, reject_if}
use llmbase.Jobs.Table.{
  JobStatus, queued, running, Row, Ledger, update_where, count_where, is_row, has_id, is_running,
  is_queued,
}
use llmbase.Jobs.Types.{
  Env, JobLease, Reply, checked, now, validate_lease, bad_text, new_row, insert,
}
use llmbase.Jobs.Credentials.{reject_credentials}
use llmbase.Jobs.Distinct.{Distinct, In, Distinct-only, Distinct-update, Distinct-append}
use llmbase.Jobs.Step.{
  Step, idle, renew, finish, cancel, Evolves, Evolves-same, Evolves-append, Evolves-update,
  All-every,
}

-- The rows that the two forms of enqueueing insert.
pub data IsNew (r : Row) : Type 0 where
  to_queue :
      (env : Env) (library operation : String) (args : Value) (budget at : ℕ)
      → within 1 20 budget ≡ true
      → reject_credentials args ≡ ok tt
      → r ≡ new_row env library operation args budget at
      → IsNew r
  to_run :
      (env : Env) (library operation : String) (args : Value) (budget : ℕ) (worker : String)
      (time seconds : ℕ)
      → within 1 20 budget ≡ true
      → reject_credentials args ≡ ok tt
      → r ≡ running_row env library operation args budget worker time seconds
      → IsNew r

-- A ledger whose rows have distinct ids, reached from one with the rows `rs`.
abbrev pub Reaches : List Row → Ledger → Type 0
Reaches rs db = Evolves Step IsNew rs db.rows × Distinct db.rows

abbrev idle_step : (r : Row) → Step r r
idle_step r = idle refl

pub Reaches-same : (db : Ledger) → Distinct db.rows → Reaches db.rows db
Reaches-same db d = (Evolves-same Step IsNew idle_step db.rows, d)

-- An update by a step on the rows that it touches.
pub Reaches-update :
    (p : Row → Bool) (f : Row → Row) (rs : List Row)
    → ((x : Row) → (f x).id ≡ x.id)
    → All (λ x. p x ≡ true → Step x (f x)) rs
    → Distinct rs
    → Evolves Step IsNew rs (update_where p f rs) × Distinct (update_where p f rs)
Reaches-update p f rs keeps h d =
    (Evolves-update Step IsNew p f rs idle_step h, Distinct-update p f rs keeps d)

pub Reaches-insert :
    (r : Row) (db inserted : Ledger)
    → insert r db ≡ ok inserted
    → IsNew r
    → Distinct db.rows
    → Reaches db.rows inserted
Reaches-insert r db inserted e n d = elim (Bool-cases (has_id r.id db.rows)) [
  | inl taken ↦ cc (rw (taken, insert) at e)
  | inr free ↦
      let same : inserted ≡ record db { rows = db.rows ++ r ∷ [] } = cc (rw (free, insert) at e) in
      subst (Reaches db.rows) (sym same)
        (Evolves-append Step IsNew idle_step db.rows r n, Distinct-append db.rows r free d)
]

pub is_running-eq : (s : JobStatus) → is_running s ≡ true → s ≡ running
is_running-eq s h = ground arith

-- What a statement's WHERE says of the row's status.
pub held_running :
    (library : String) (lease : JobLease) (time : ℕ) (r : Row)
    → holds_lease library lease time r ≡ true
    → r.status ≡ running
unfolding holds_lease
held_running library lease time r h = is_running-eq r.status (
    third (is_row library lease.job.id r) (some_and r.lease_token (λ t. t == lease.token))
      (is_running r.status) (some_and r.lease_until (λ t. ltb time t)) h)
  where
    third : (a b c d : Bool) → (a && b && c && d) ≡ true → c ≡ true
    third a b c d h = ground arith

-- What `checked` returns satisfies whatever the start and every continuation satisfy.
pub checked_elim :
    {A B : Type 0} (P : Ledger → Type 0) (r : Result A) (db : Ledger) (k : A → Reply B)
    → P db
    → ((a : A) → r ≡ ok a → P (k a).1)
    → P (checked r db k).1
checked_elim P (ok a) db k start next = next a refl
checked_elim P (err e) db k start next = start

reject_if-eq-ok : (b : Bool) (e : Error) → reject_if b e ≡ ok tt → b ≡ false
reject_if-eq-ok b e h = ground arith

budget_of : (op args c : Bool) (e : Error) → reject_if (op || args || not c) e ≡ ok tt → c ≡ true
budget_of op args c e h = ground arith

running_budget_of :
    (op args c worker : Bool) (e : Error)
    → reject_if ((op || args || not c) || worker) e ≡ ok tt
    → c ≡ true
running_budget_of op args c worker e h = ground arith

pub enqueue_job-Reaches :
    (env : Env) (library operation : String) (args : Value) (budget : ℕ) (db : Ledger)
    → Distinct db.rows
    → Reaches db.rows (enqueue_job env library operation args budget db).1
unfolding enqueue_job
enqueue_job-Reaches env library operation args budget db d =
    let start = Reaches-same db d in
    let P = Reaches db.rows in
    checked_elim P (reject_if (bad_job operation args budget) job_refused) db _ start λ _ valid.
      checked_elim P (reject_credentials args) db _ start λ _ clean.
        checked_elim P (now env) db _ start λ time _.
          checked_elim P (insert (new_row env library operation args budget time) db) db _ start
            λ inserted fresh.
              Reaches-insert (new_row env library operation args budget time) db inserted fresh
                (to_queue env library operation args budget time
                  (budget_of (bad_text operation) (not (is_object args)) (within 1 20 budget)
                    job_refused valid)
                  clean refl)
                d

pub enqueue_running_job-Reaches :
    (env : Env) (library operation : String) (args : Value) (budget : ℕ) (worker : String)
    (seconds : ℕ) (db : Ledger)
    → Distinct db.rows
    → Reaches db.rows (enqueue_running_job env library operation args budget worker seconds db).1
unfolding enqueue_running_job
enqueue_running_job-Reaches env library operation args budget worker seconds db d =
    let start = Reaches-same db d in
    let P = Reaches db.rows in
    let row = λ (time : ℕ). running_row env library operation args budget worker time seconds in
    checked_elim P (reject_if (bad_job operation args budget || bad_text worker) running_refused) db
      _ start
      λ _ valid. checked_elim P (validate_lease seconds) db _ start λ _ _.
        checked_elim P (reject_credentials args) db _ start λ _ clean.
          checked_elim P (now env) db _ start λ time _.
            checked_elim P (insert (row time) db) db _ start λ inserted fresh.
              Reaches-insert (row time) db inserted fresh
                (to_run env library operation args budget worker time seconds
                  (running_budget_of (bad_text operation) (not (is_object args))
                    (within 1 20 budget) (bad_text worker) running_refused valid)
                  clean refl)
                d

pub heartbeat_job-Reaches :
    (env : Env) (library : String) (lease : JobLease) (seconds : ℕ) (db : Ledger)
    → Distinct db.rows
    → Reaches db.rows (heartbeat_job env library lease seconds db).1
unfolding heartbeat_job
heartbeat_job-Reaches env library lease seconds db d =
    let start = Reaches-same db d in
    let P = Reaches db.rows in
    checked_elim P (validate_lease seconds) db _ start λ _ _.
      checked_elim P (now env) db _ start λ time _.
        Reaches-update (holds_lease library lease time) (extend (time + seconds)) db.rows
          (λ x. refl)
          (All-every
            (λ x held. renew (time + seconds) (held_running library lease time x held) refl)
            db.rows)
          d

pub finish_job-Reaches :
    (env : Env) (library : String) (lease : JobLease) (status : JobStatus) (result : Option Value)
    (error : Option String) (db : Ledger)
    → Distinct db.rows
    → Reaches db.rows (finish_job env library lease status result error db).1
unfolding finish_job
finish_job-Reaches env library lease status result error db d =
    let start = Reaches-same db d in
    let P = Reaches db.rows in
    checked_elim P (valid_finish status result error) db _ start λ _ valid.
      checked_elim P (now env) db _ start λ time _.
        let held = holds_lease library lease time in
        checked_elim P (reject_if (not (nat_eqb (count_where held db.rows) 1)) lease_lost) db _
          start
          λ _ _.
            Reaches-update held (settle status result error) db.rows (λ x. refl)
              (All-every
                (λ x h. finish status result error (held_running library lease time x h) valid refl)
                db.rows)
              d

cancellable_status :
    (library id : String) (r : Row)
    → is_cancellable library id r ≡ true
    → (r.status ≡ queued) ⊎ (r.status ≡ running)
unfolding is_cancellable
cancellable_status library id r h = of_status r.status (&&-eq-true (is_row library id r) _ h).1
  where
    of_status :
        (s : JobStatus) → (is_queued s || is_running s) ≡ true → (s ≡ queued) ⊎ (s ≡ running)
    of_status s h = ground arith

pub cancel_job-Reaches :
    (env : Env) (library id : String) (db : Ledger)
    → Distinct db.rows
    → Reaches db.rows (cancel_job env library id db).1
unfolding cancel_job
cancel_job-Reaches env library id db d =
    checked_elim (Reaches db.rows)
      (reject_if (not (nat_eqb (count_where (is_cancellable library id) db.rows) 1))
        not_cancellable)
      db _ (Reaches-same db d)
      λ _ _.
        Reaches-update (is_cancellable library id) cancel_row db.rows (λ x. refl)
          (All-every (λ x h. cancel (cancellable_status library id x h) refl) db.rows) d

-- An update by primary key, of a row that a query has found, is a step where the query says so.
pub update_found :
    (R : Row → Row → Type 0) (library id : String) (f : Row → Row) (r : Row) (rs : List Row)
    → Distinct rs
    → In r rs
    → r.id ≡ id
    → R r (f r)
    → All (λ x. is_row library id x ≡ true → R x (f x)) rs
update_found R library id f r rs d m same step = All-zip rs (Distinct-only r rs d m)
  where
    All-zip :
        (xs : List Row)
        → All (λ x. (x.id == r.id) ≡ true → x ≡ r) xs
        → All (λ x. is_row library id x ≡ true → R x (f x)) xs
    All-zip [] h = tt
    All-zip (x ∷ xs) h = (
      λ hit.
          let (_, this) = &&-eq-true (x.library_id == library) (x.id == id) hit in
          subst (λ y. R y (f y)) (sym (h.0 (ap (λ i. x.id == i) same ∙ this))) step,
      All-zip xs h.1,
    )
