-- ===== src/Worker/History.antt =====
-- Ledgers that calls of its operations lead to, for crates/llmbase-core/src/worker.rs.
use mathlib.Core.Path.{subst}
use llmbase.Prelude.{
  ℕ, String, ◌≡◌, refl, sym, ap, ◌∙◌, inl, inr, true, Option, none, some, List, [], ◌∷◌, ◌++◌,
}
use llmbase.Json.{Value}
use llmbase.Errors.{cancelled, Error, Result, ok, err}
use llmbase.Jobs.Lookup.{read_row-same}
use llmbase.Jobs.Table.{JobStatus, succeeded, failed, partial, cancelled, Ledger}
use llmbase.Jobs.Types.{
  Env, Job, JobLease, JobOutcome, completed, partly, failing, cancelling, Reply, now,
}
use llmbase.Jobs.Settle.{lease_lost, is_terminal, valid_finish, finish_job, finish_job_outcome}
use llmbase.Jobs.Distinct.{Distinct}
use llmbase.Jobs.Fencing.{finish_job-Holder}
use llmbase.Jobs.Calls.{Call, after, Request, after_all, after_all-Evolves}

-- Some calls of the ledger's operations lead from the one to the other.
pub data IsAfter (db later : Ledger) : Type 0 where
  calls : (cs : List Request) → later ≡ after_all cs db → IsAfter db later

after_all-append :
    (xs ys : List Request) (db : Ledger) → after_all (xs ++ ys) db ≡ after_all ys (after_all xs db)
unfolding after_all
after_all-append [] ys db = refl
after_all-append (x ∷ xs) ys db = after_all-append xs ys (after x.env x.library x.call db)

pub IsAfter-trans : (a b c : Ledger) → IsAfter a b → IsAfter b c → IsAfter a c
IsAfter-trans a b c (calls xs h) (calls ys k) =
    calls (xs ++ ys) (k ∙ ap (after_all ys) h ∙ sym (after_all-append xs ys a))

pub one_call :
    (env : Env) (library : String) (call : Call) (db : Ledger)
    → IsAfter db (after env library call db)
unfolding after_all
one_call env library call db =
    calls (record { env = env; library = library; call = call } ∷ []) refl

pub no_call : (db : Ledger) → IsAfter db db
unfolding after_all
no_call db = calls [] refl

pub IsAfter-Distinct : (a b : Ledger) → Distinct a.rows → IsAfter a b → Distinct b.rows
IsAfter-Distinct a b d (calls cs h) =
    subst (λ x. Distinct x.rows) (sym h) (after_all-Evolves cs a d).1

-- A run leaves a ledger that calls of its operations lead to, and a job that it returns is at an end.
abbrev pub Settles : Ledger → Reply (Option Job) → Type 0
Settles db r =
    IsAfter db r.1 × ((done : Job) → r.0 ≡ ok (some done) → is_terminal done.status ≡ true)

same_job : (a b : Job) → Result.ok a ≡ ok b → a ≡ b
same_job a b h = cc h

no_error : {A : Type 0} (a : Job) (e : Error) → Result.ok a ≡ err e → A
no_error a e h = absurd (cc h)

finish_job-status :
    (env : Env) (library : String) (lease : JobLease) (status : JobStatus) (result : Option Value)
    (error : Option String) (db : Ledger) (done : Job)
    → Distinct db.rows
    → (finish_job env library lease status result error db).0 ≡ ok done
    → done.status ≡ status
unfolding finish_job now
finish_job-status env library lease status result error db done d h = go _ refl env.clock refl
  where
    go :
        (v : Result (Unit {0}))
        → valid_finish status result error ≡ v
        → (clock : Option ℕ) → env.clock ≡ clock
        → done.status ≡ status
    go (err e) bad clock c = cc (rw bad at h)
    go (ok u) good none c = cc (rw (good, c) at h)
    go (ok u) good (some time) c =
        elim (finish_job-Holder env library lease status result error time db d c good) [
          | inl (r, _, _, reply, _) ↦ (read_row-same env _ done (sym reply ∙ h)).1
          | inr (_, refused) ↦ no_error done lease_lost (sym h ∙ ap (λ x. x.0) refused)
        ]

pub finish_job_outcome-terminal :
    (env : Env) (library : String) (lease : JobLease) (outcome : JobOutcome) (db : Ledger)
    (done : Job)
    → Distinct db.rows
    → (finish_job_outcome env library lease outcome db).0 ≡ ok done
    → is_terminal done.status ≡ true
unfolding finish_job_outcome
finish_job_outcome-terminal env library lease (completed v) db done d h =
    ap is_terminal (finish_job-status env library lease succeeded (some v) none db done d h)
finish_job_outcome-terminal env library lease (partly v e) db done d h =
    ap is_terminal (finish_job-status env library lease partial v e db done d h)
finish_job_outcome-terminal env library lease (failing v e) db done d h =
    ap is_terminal (finish_job-status env library lease failed v e db done d h)
finish_job_outcome-terminal env library lease (cancelling v e) db done d h =
    ap is_terminal (finish_job-status env library lease cancelled v e db done d h)
