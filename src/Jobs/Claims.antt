-- ===== src/Jobs/Claims.antt =====
-- A claim of crates/llmbase-core/src/jobs.rs as steps of the table: the leases that ran out first, and
-- then the row that is taken.
use mathlib.Core.Path.{subst}
use llmbase.Errors.{reject_if}
use llmbase.Prelude.{
  ltb, leb, if◌then◌else◌, some_and, ltb→lt, &&-eq-true, Option-cases, ◌==◌, str_eq_iff, ℕ, ◌+◌,
  ◌<◌, String, ◌≡◌, refl, sym, ap, ◌∙◌, ◌⊎◌, inl, inr, Bool, true, false, ◌&&◌, Option, none, some,
  List, [], ◌∷◌, arith, string_PartialEq,
}
use llmbase.Jobs.Table.{
  JobStatus, queued, running, Row, lease_expired, Ledger, add_event, least_where, is_row,
  is_running, is_queued,
}
use llmbase.Jobs.Types.{Env, now, validate_lease, bad_text}
use llmbase.Jobs.Claim.{
  is_expired, interrupt, interrupt_events, interrupt_expired, is_claimable, take_lease, start_row,
  claim_ready, no_worker, claim_job_inner,
}
use llmbase.Jobs.Distinct.{Distinct, In, Distinct-update, In-least_where}
use llmbase.Jobs.Step.{
  Step, idle, claim, expire, Evolves, Evolves-same, Evolves-update, All-every, Evolves-trans,
  Evolves-grows,
}
use llmbase.Jobs.Evolves.{IsNew, Reaches, Reaches-same, checked_elim, update_found, is_running-eq}

-- The first half of a claim.
expired_status :
    (library : String) (time : ℕ) (r : Row) → is_expired library time r ≡ true → r.status ≡ running
unfolding is_expired
expired_status library time r h =
    let (left, _) =
      &&-eq-true (r.library_id == library && is_running r.status)
        (some_and r.lease_until (λ t. leb t time)) h in
    let (_, status) = &&-eq-true (r.library_id == library) (is_running r.status) left in
    is_running-eq r.status status

rows-interrupt_events :
    (library : String) (time : ℕ) (rs : List Row) (db : Ledger)
    → (interrupt_events library time rs db).rows ≡ db.rows
unfolding interrupt_events
rows-interrupt_events library time [] db = refl
rows-interrupt_events library time (r ∷ rs) db =
    rows-interrupt_events library time rs _ ∙ one (is_expired library time r)
  where
    one :
        (b : Bool)
        → (if b then add_event library r.id "interrupted" lease_expired db else db).rows ≡ db.rows
    one true = refl
    one false = refl

-- A claim adds no row.
abbrev NoRow : Row → Type 0
NoRow _ = ⊥

abbrev Touched : Row → Row → Type 0
Touched r s = (s ≡ r) ⊎ ((r.status ≡ running) × (s ≡ interrupt r))

pub interrupt_expired-Touched :
    (library : String) (time : ℕ) (db : Ledger)
    → Distinct db.rows
    → Evolves Touched NoRow db.rows (interrupt_expired library time db).rows
      × Distinct (interrupt_expired library time db).rows
unfolding interrupt_expired
interrupt_expired-Touched library time db d = rw rows-interrupt_events (
  Evolves-update Touched NoRow (is_expired library time) interrupt db.rows (λ x. inl refl)
      (All-every (λ x h. inr (expired_status library time x h, refl)) db.rows),
  Distinct-update (is_expired library time) interrupt db.rows (λ x. refl) d,
)

is_queued-eq : (s : JobStatus) → is_queued s ≡ true → s ≡ queued
is_queued-eq s h = ground arith

pub claimable_row :
    (library : String) (time : ℕ) (wanted : Option String) (r : Row)
    → is_claimable library time wanted r ≡ true
    → (r.library_id ≡ library) × (r.status ≡ queued) × (r.attempts < r.max_attempts)
unfolding is_claimable
claimable_row library time wanted r h =
    let (left, _) =
      &&-eq-true
        (r.library_id == library
          && is_queued r.status
          && leb r.available_at time
          && ltb r.attempts r.max_attempts)
        (elim wanted [ none ↦ true | some id ↦ r.id == id ]) h in
    let (left', room) =
      &&-eq-true (r.library_id == library && is_queued r.status && leb r.available_at time)
        (ltb r.attempts r.max_attempts) left in
    let (left'', _) =
      &&-eq-true (r.library_id == library && is_queued r.status) (leb r.available_at time) left' in
    let (owner, status) = &&-eq-true (r.library_id == library) (is_queued r.status) left'' in
    (
      (str_eq_iff r.library_id library).0 owner,
      is_queued-eq r.status status,
      ltb→lt r.attempts r.max_attempts room,
    )

abbrev Taken : Row → Row → Type 0
Taken r s =
    (s ≡ r)
    ⊎ ((worker token : String) × (until : ℕ) × (r.status ≡ queued)
        × (r.attempts < r.max_attempts)
        × (s ≡ take_lease worker token until r))

start_row-Taken :
    (env : Env) (library worker : String) (until : ℕ) (db : Ledger) (r : Row)
    → Distinct db.rows
    → In r db.rows
    → r.status ≡ queued
    → r.attempts < r.max_attempts
    → Evolves Taken NoRow db.rows (start_row env library worker until r.id db).rows
      × Distinct (start_row env library worker until r.id db).rows
unfolding start_row
start_row-Taken env library worker until db r d m status room =
    let f = take_lease worker env.token until in
    (
      Evolves-update Taken NoRow (is_row library r.id) f db.rows (λ x. inl refl)
          (update_found Taken library r.id f r db.rows d m refl
            (inr (worker, env.token, until, status, room, refl))),
      Distinct-update (is_row library r.id) f db.rows (λ x. refl) d,
    )

claim_ready-Taken :
    (env : Env) (library : String) (wanted : Option String) (worker : String) (seconds time : ℕ)
    (db : Ledger)
    → Distinct db.rows
    → Evolves Taken NoRow db.rows (claim_ready env library wanted worker seconds time db).1.rows
      × Distinct (claim_ready env library wanted worker seconds time db).1.rows
unfolding claim_ready
claim_ready-Taken env library wanted worker seconds time db d =
    elim (Option-cases (least_where (is_claimable library time wanted) db.rows)) [
      | inl none_ready ↦
          rw (none_ready, claim_ready) (Evolves-same Taken NoRow (λ x. inl refl) db.rows, d)
      | inr (r, found) ↦
          let (m, hit) = In-least_where (is_claimable library time wanted) db.rows r found in
          let (_, status, room) = claimable_row library time wanted r hit in
          rw (found, claim_ready)
            (start_row-Taken env library worker (time + seconds) db r d m status room)
    ]

-- A row that has just been interrupted is not queued, so that no row is moved twice.
Step-Taken : (x y z : Row) → Touched x y → Taken y z → Step x z
Step-Taken x y z (inl e) (inl g) = idle (g ∙ e)
Step-Taken x y z (inr (s, e)) (inl g) = expire s (g ∙ e)
Step-Taken x y z (inl e) (inr (w, t, u, s, b, g)) =
    claim w t u (ap (λ (r : Row). r.status) (sym e) ∙ s)
      (subst (λ (r : Row). r.attempts < r.max_attempts) e b) (g ∙ ap (take_lease w t u) e)
Step-Taken x y z (inr (_, e)) (inr (w, t, u, s, b, g)) = cc (sym (ap (λ (r : Row). r.status) e) ∙ s)

pub claim_job_inner-Reaches :
    (env : Env) (library : String) (wanted : Option String) (worker : String) (seconds : ℕ)
    (db : Ledger)
    → Distinct db.rows
    → Reaches db.rows (claim_job_inner env library wanted worker seconds db).1
unfolding claim_job_inner
claim_job_inner-Reaches env library wanted worker seconds db d =
    let start = Reaches-same db d in
    let P = Reaches db.rows in
    checked_elim P (validate_lease seconds) db _ start λ _ _.
      checked_elim P (reject_if (bad_text worker) no_worker) db _ start λ _ _.
        checked_elim P (now env) db _ start λ time _.
          let (touched, d') = interrupt_expired-Touched library time db d in
          let (taken, d'') =
            claim_ready-Taken env library wanted worker seconds time
              (interrupt_expired library time db) d' in
          (
            Evolves-grows Step IsNew _ _ (
                Evolves-trans Touched Taken Step NoRow Step-Taken (λ _ _ _ n. n) _ _ _ touched
                  taken),
            d'',
          )
