-- ===== src/Jobs/Soundness.antt =====
-- The invariant of a row of the table of crates/llmbase-core/src/jobs.rs.
use mathlib.Core.Path.{subst}
use llmbase.Prelude.{
  within, is_some, All, ℕ, ◌≤◌, String, ◌≡◌, refl, sym, ap, ◌∙◌, true, false, Option, none, List,
  arith, Bool, not, ◌&&◌, some,
}
use llmbase.Json.{Value}
use llmbase.Errors.{Error, ok, reject_if, ◌>>◌}
use llmbase.Jobs.Table.{JobStatus, Row, empty_ledger, is_running}
use llmbase.Jobs.Credentials.{reject_credentials}
use llmbase.Jobs.Settle.{is_succeeded, lacks_result, valid_finish, may_retry, is_terminal}
use llmbase.Jobs.Step.{Step, idle, claim, expire, renew, finish, cancel, retry}
use llmbase.Jobs.Evolves.{IsNew, to_queue, to_run}
use llmbase.Jobs.Calls.{Request, after_all, after_all-All}

pub record IsSound (r : Row) : Type 0 where
  pub leased : is_some r.lease_token ≡ is_running r.status
  pub timed : is_some r.lease_until ≡ is_running r.status
  pub budget : within 1 20 r.max_attempts ≡ true
  pub bounded : r.attempts ≤ r.max_attempts
  pub answered : is_succeeded r.status ≡ true → (lacks_result r.result ≡ false) × (r.error ≡ none)
  pub clean : reject_credentials r.args ≡ ok tt

-- A row that has not succeeded owes no result.
owes_nothing : {A : Type 0} (s : JobStatus) → is_succeeded s ≡ false → is_succeeded s ≡ true → A
owes_nothing s e h = cc (sym e ∙ h)

three_checks :
    (a b c : Bool) (e e' e'' : Error)
    → (reject_if a e >> (reject_if b e' >> reject_if c e'')) ≡ ok tt
    → (a ≡ false) × (b ≡ false) × (c ≡ false)
three_checks a b c e e' e'' h = ground arith

finished_status :
    (status : JobStatus) (result : Option Value) (error : Option String)
    → valid_finish status result error ≡ ok tt
    → (is_running status ≡ false)
      × (is_succeeded status ≡ true → (lacks_result result ≡ false) × (error ≡ none))
unfolding valid_finish
finished_status status result error v =
    let (terminal, no_error, has_result) =
      three_checks (not (is_terminal status)) (is_succeeded status && is_some error)
        (is_succeeded status && lacks_result result) _ _ _ v in
    (
      at_rest status terminal,
      λ f. (
        second (is_succeeded status) (lacks_result result) f has_result,
        no_value error (second (is_succeeded status) (is_some error) f no_error),
      ),
    )
  where
    at_rest : (s : JobStatus) → not (is_terminal s) ≡ false → is_running s ≡ false
    at_rest s h = ground arith

    second : (a b : Bool) → a ≡ true → (a && b) ≡ false → b ≡ false
    second a b h k = ground arith

    no_value : (o : Option String) → is_some o ≡ false → o ≡ none
    no_value none h = refl
    no_value (some x) h = cc h

IsSound-Step : (r s : Row) → Step r s → IsSound r → IsSound s
IsSound-Step r s (idle e) h = subst IsSound (sym e) h
IsSound-Step r s (claim w t u q b e) h = subst IsSound (sym e) (record {
  leased = refl;
  timed = refl;
  budget = h.budget;
  bounded = omega (arith, b);
  answered = λ f. cc f;
  clean = h.clean;
})
IsSound-Step r s (expire q e) h = subst IsSound (sym e) (record {
  leased = refl;
  timed = refl;
  budget = h.budget;
  bounded = h.bounded;
  answered = λ f. cc f;
  clean = h.clean;
})
IsSound-Step r s (renew u q e) h = subst IsSound (sym e) (record {
  leased = h.leased;
  timed = sym (ap is_running q);
  budget = h.budget;
  bounded = h.bounded;
  answered = h.answered;
  clean = h.clean;
})
IsSound-Step r s (finish st res er q v e) h =
    let (idle_status, owed) = finished_status st res er v in
    subst IsSound (sym e) (record {
      leased = sym idle_status;
      timed = sym idle_status;
      budget = h.budget;
      bounded = h.bounded;
      answered = owed;
      clean = h.clean;
    })
IsSound-Step r s (cancel q e) h = subst IsSound (sym e) (record {
  leased = refl;
  timed = refl;
  budget = h.budget;
  bounded = h.bounded;
  answered = λ f. cc f;
  clean = h.clean;
})
IsSound-Step r s (retry at q b e) h =
    let idle_status = resting r.status q in
    subst IsSound (sym e) (record {
      leased = h.leased ∙ idle_status;
      timed = h.timed ∙ idle_status;
      budget = h.budget;
      bounded = h.bounded;
      answered = λ f. cc f;
      clean = h.clean;
    })
  where
    resting : (s : JobStatus) → may_retry s ≡ true → is_running s ≡ false
    resting s h = ground arith

IsSound-IsNew : (r : Row) → IsNew r → IsSound r
IsSound-IsNew r (to_queue env library operation args budget at w c e) =
    subst IsSound (sym e) (record {
      leased = refl;
      timed = refl;
      budget = w;
      bounded = omega arith;
      answered = λ f. cc f;
      clean = c;
    })
IsSound-IsNew r (to_run env library operation args budget worker time seconds w c e) =
    subst IsSound (sym e) (record {
      leased = refl;
      timed = refl;
      budget = w;
      bounded = positive budget w;
      answered = λ f. cc f;
      clean = c;
    })
  where
    positive : (n : ℕ) → within 1 20 n ≡ true → 1 ≤ n
    positive n h = ground arith

-- After any calls on the empty ledger, in whatever libraries, order and environments: a row of the job
-- table has a lease token and a lease deadline if and only if it is running; its budget is 1..20 and
-- its attempts stay within it; if it has succeeded it has a result that is not null and no error; and
-- its arguments have passed the search for credentials.
pub after_all-IsSound : (calls : List Request) → All IsSound (after_all calls empty_ledger).rows
after_all-IsSound calls = after_all-All IsSound IsSound-Step IsSound-IsNew calls empty_ledger tt tt
