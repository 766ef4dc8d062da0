-- ===== src/Jobs/Stale.antt =====
-- Leases of crates/llmbase-core/src/jobs.rs that a later claim has made stale.
use mathlib.Core.Path.{subst}
use llmbase.Prelude.{
  if◌then◌else◌, Bool-cases, All, ◌==◌, string_PartialEq, str_eq_iff, ℕ, ◌+◌, String, ◌≡◌, refl,
  sym, ap, ◌∙◌, ◌≢◌, inl, inr, Bool, false, ◌&&◌, Option, none, some, List, [], ◌∷◌, arith,
}
use llmbase.Errors.{Error, conflict, Result, ok, err, reject_if}
use llmbase.Jobs.Table.{Row, Ledger, update_where, is_row}
use llmbase.Jobs.Settle.{holds_lease}
use llmbase.Jobs.Lookup.{read_row-same}
use llmbase.Jobs.Types.{Env, Job, JobLease, Reply, checked, now, validate_lease, read_row, bad_text}
use llmbase.Jobs.Claim.{leased, no_worker, claim_job_inner}
use llmbase.Jobs.Distinct.{Distinct}
use llmbase.Jobs.Handout.{handed, claim_job_inner-IsFirst}
use llmbase.Jobs.Fencing.{Refused, unheld-Refused}

-- A lease with another token is not held by a row that has just been handed out.
handed_row-fenced :
    (library worker token i : String) (until time : ℕ) (old : JobLease) (x : Row)
    → old.job.id ≡ i
    → (token == old.token) ≡ false
    → holds_lease library old time (if is_row library i x then handed worker token until x else x)
      ≡ false
unfolding holds_lease handed
handed_row-fenced library worker token i until time old x same other =
    elim (Bool-cases (is_row library i x)) [
      | inl hit ↦ rw (hit, other) (absorbed _ _ _)
      | inr miss ↦ rw (miss, same, miss) refl
    ]
  where
    absorbed : (a b c : Bool) → (a && false && b && c) ≡ false
    absorbed a b c = ground arith

handed-fenced :
    (library worker token i : String) (until time : ℕ) (old : JobLease) (rs : List Row)
    → old.job.id ≡ i
    → (token == old.token) ≡ false
    → All
        (λ x. holds_lease library old time x ≡ false)
        (update_where (is_row library i) (handed worker token until) rs)
unfolding update_where
handed-fenced library worker token i until time old [] same other = tt
handed-fenced library worker token i until time old (x ∷ xs) same other = (
  handed_row-fenced library worker token i until time old x same other,
  handed-fenced library worker token i until time old xs same other,
)

checked_ok :
    {A B : Type 0} (r : Result A) (db : Ledger) (k : A → Reply B) {b : B}
    → (checked r db k).0 ≡ ok b
    → (a : A) × (r ≡ ok a) × ((k a).0 ≡ ok b)
checked_ok (ok a) db k h = (a, refl, h)
checked_ok (err e) db k h = cc h

reject_passed : (b : Bool) (e : Error) → reject_if b e ≡ ok tt → b ≡ false
reject_passed b e h = ground arith

-- A claim that returns a result has passed its checks.
claim_checks :
    (env : Env) (library : String) (wanted : Option String) (worker : String) (seconds : ℕ)
    (db : Ledger) (found : Option JobLease)
    → (claim_job_inner env library wanted worker seconds db).0 ≡ ok found
    → (time : ℕ) × (bad_text worker ≡ false)
      × (validate_lease seconds ≡ ok tt)
      × (env.clock ≡ some time)
unfolding claim_job_inner now
claim_checks env library wanted worker seconds db found h =
    let (_, lease, h1) = checked_ok (validate_lease seconds) db _ h in
    let (_, name, h2) = checked_ok (reject_if (bad_text worker) no_worker) db _ h1 in
    let (time, clock, _) = checked_ok (now env) db _ h2 in
    (time, reject_passed (bad_text worker) no_worker name, lease, read env.clock time clock)
  where
    read :
        (c : Option ℕ) (t : ℕ)
        → (elim c [ some u ↦ ok u | none ↦ err (conflict "system clock precedes epoch") ]) ≡ ok t
        → c ≡ some t
    read none t e = cc e
    read (some u) t e = cc e

-- When a claim on a table with distinct ids has handed out a lease, every lease of the same job with another token is worthless:
-- whatever the clock and the arguments, a heartbeat and a finish under it are refused and leave the
-- ledger as it is.
pub claim_job_inner-fences :
    (env : Env) (library : String) (wanted : Option String) (worker : String) (seconds : ℕ)
    (db : Ledger) (lease old : JobLease)
    → Distinct db.rows
    → (claim_job_inner env library wanted worker seconds db).0 ≡ ok (some lease)
    → old.job.id ≡ lease.job.id
    → old.token ≢ lease.token
    → Refused (claim_job_inner env library wanted worker seconds db).1 library old
claim_job_inner-fences env library wanted worker seconds db lease old d claimed same other =
    let (time, name, until, clock) =
      claim_checks env library wanted worker seconds db (some lease) claimed in
    elim (claim_job_inner-IsFirst env library wanted worker seconds time db d until name clock) [
      | inl (_, reply) ↦ cc (sym (ap (λ (x : Reply (Option JobLease)). x.0) reply) ∙ claimed)
      | inr (r, _, _, _, reply, rows) ↦
          let (id, token) =
            leased_ok (read_row env (handed worker env.token (time + seconds) r)) env.token lease
              (handed worker env.token (time + seconds) r) refl (sym reply ∙ claimed) in
          let named : old.job.id ≡ r.id = same ∙ unfold handed in id in
          unheld-Refused _ library old λ at.
            subst (All (λ x. holds_lease library old at x ≡ false)) (sym rows) (
              handed-fenced library worker env.token r.id (time + seconds) at old _ named
                (differs env.token old.token (λ e. other (sym e ∙ sym token))))
    ]
  where
    lease_of_ok :
        {a b : JobLease} → Path (Result (Option JobLease)) (ok (some a)) (ok (some b)) → a ≡ b
    lease_of_ok e = cc e

    leased_ok :
        (m : Result Job) (token : String) (found : JobLease) (r : Row)
        → read_row env r ≡ m
        → leased m token ≡ ok (some found)
        → (found.job.id ≡ r.id) × (found.token ≡ token)
    leased_ok (ok j) token found r e k = (
      ap (λ (l : JobLease). l.job.id) (sym (lease_of_ok k)) ∙ (read_row-same env r j e).0,
      ap (λ (l : JobLease). l.token) (sym (lease_of_ok k)),
    )
    leased_ok (err f) token found r e k = cc k

    differs : (s t : String) → s ≢ t → (s == t) ≡ false
    differs s t h = elim (Bool-cases (s == t)) [
      | inl e ↦ absurd (h ((str_eq_iff s t).0 e))
      | inr e ↦ e
    ]
