-- ===== src/Worker/Outcomes.antt =====
-- What the outcomes of crates/llmbase-core/src/worker.rs are worth to the job ledger.
use llmbase.Worker.Successes.{success_texts, among, coded-among}
use mathlib.Core.Path.{subst}
use mathlib.Core.Option.{some-injective}
use llmbase.Prelude.{
  if◌then◌else◌, some_and, Bool-cases, ◌==◌, string_PartialEq, ℕ, String, ◌≡◌, refl, sym, ap, ◌∙◌,
  ◌↔◌, ◌⊎◌, inl, inr, Bool, true, false, not, ◌||◌, Option, none, some, arith,
}
use llmbase.Json.{Value, is_null, get_str}
use llmbase.Errors.{cancelled, Result, ok, err}
use llmbase.Jobs.Types.{
  Env, Job, JobLease, JobOutcome, completed, partly, failing, cancelling, Reply, read_row,
}
use llmbase.Jobs.Table.{JobStatus, cancelled, Row, Ledger, update_where}
use llmbase.Jobs.Settle.{holds_lease, is_terminal, settle}
use llmbase.Jobs.Distinct.{Distinct}
use llmbase.Worker.{
  cancelled_text, invalid_outcome, reports_status, is_success, reported, handler_outcome,
}

-- An outcome that the ledger takes: a success has a result.
abbrev pub Acceptable : JobOutcome → Type 0
Acceptable (completed v) = is_null v ≡ false
Acceptable (partly r e) = Unit
Acceptable (failing r e) = Unit
Acceptable (cancelling r e) = Unit

-- When the code takes the handler's result for a success.
abbrev Succeeds : String → Value → Type 0
Succeeds operation v =
    (reports_status operation ≡ false)
    ⊎ ((s : String) × (get_str v "status" ≡ some s) × (is_success operation s ≡ true))

-- What a completed outcome says of the handler's result.
abbrev Justified : String → Result Value → JobOutcome → Type 0
Justified operation r (completed v) = (r ≡ ok v) × (is_null v ≡ false) × Succeeds operation v
Justified operation r (partly result e) = Unit
Justified operation r (failing result e) = Unit
Justified operation r (cancelling result e) = Unit

reported-Justified :
    (operation : String) (v : Value) (s : Option String)
    → get_str v "status" ≡ s
    → is_null v ≡ false
    → Justified operation (ok v) (reported operation v s)
unfolding reported
reported-Justified operation v none e h = tt
reported-Justified operation v (some s) e h = elim (Bool-cases (is_success operation s)) [
  | inl good ↦ rw good (refl, h, inr (s, e, good))
  | inr other ↦ rw other (rest (s == "partial") (s == "failed") (s == "cancelled"))
]
  where
    rest :
        (a b c : Bool)
        → Justified operation (ok v) (
            if a
            then partly (some v) (some "operation partially completed; inspect retained result")
            else if b
            then failing (some v) (some "operation reported failure; inspect retained result")
            else if c
            then cancelling (some v) (some cancelled_text)
            else invalid_outcome)
    rest true b c = tt
    rest false true c = tt
    rest false false true = tt
    rest false false false = tt

handler_outcome-Justified :
    (operation : String) (r : Result Value) → Justified operation r (handler_outcome operation r)
unfolding handler_outcome
handler_outcome-Justified operation (err e) = ground arith
handler_outcome-Justified operation (ok v) = elim (Bool-cases (is_null v)) [
  | inl null_value ↦ rw null_value tt
  | inr value ↦ elim (Bool-cases (reports_status operation)) [
    | inl reports ↦
        rw (value, reports) (reported-Justified operation v (get_str v "status") refl value)
    | inr silent ↦ rw (value, silent) (refl, value, inl silent)
  ]
]

handler_outcome-Succeeds :
    (operation : String) (r : Result Value) (v : Value)
    → (handler_outcome operation r ≡ completed v)
      ↔ ((r ≡ ok v) × (is_null v ≡ false) × Succeeds operation v)
unfolding handler_outcome reported
handler_outcome-Succeeds operation r v =
    ((λ e. subst (Justified operation r) e (handler_outcome-Justified operation r)), back)
  where
    back :
        (r ≡ ok v) × (is_null v ≡ false) × Succeeds operation v
        → handler_outcome operation r ≡ completed v
    back (e, value, inl silent) = rw (e, value, silent)
    back (e, value, inr (s, status, good)) = elim (Bool-cases (reports_status operation)) [
      | inl reports ↦ rw (e, value, reports, status, good)
      | inr silent ↦ rw (e, value, silent)
    ]

coded_iff :
    (b : Bool) (o : Option String) (p : String → Bool)
    → ((b ≡ false) ⊎ ((s : String) × (o ≡ some s) × (p s ≡ true)))
      ↔ ((not b || some_and o p) ≡ true)
coded_iff false o p = ((λ _. refl), λ _. inl refl)
coded_iff true none p = ((λ h. elim h [ inl e ↦ cc e | inr (_, e, _) ↦ cc e ]), λ h. cc h)
coded_iff true (some s) p = (
  (λ h. elim h [ inl e ↦ cc e | inr (t, e, k) ↦ ap p (some-injective s t e) ∙ k ]),
  λ h. inr (s, refl, h),
)

-- The worker takes a job for completed, with a result, if and only if the handler returned that result, it
-- is not null, and its "status" text is one of those that mean success for this operation: "succeeded" for
-- the operations that report a status, "no_changes" besides for `legacy_compile` and `entities_generate`,
-- "disabled" for the latter alone, "ok" for `web_write_wiki_clean` alone; any result will do for an
-- operation that reports none.
pub handler_outcome-completed :
    (operation : String) (r : Result Value) (v : Value)
    → (handler_outcome operation r ≡ completed v) ↔ (
        (r ≡ ok v)
        × (is_null v ≡ false)
        × (among (success_texts operation) (get_str v "status") ≡ true))
handler_outcome-completed operation r v =
    let code = handler_outcome-Succeeds operation r v in
    let tests = coded_iff (reports_status operation) (get_str v "status") (is_success operation) in
    let same = coded-among operation (get_str v "status") in
    (
      (λ h. let (e, value, good) = code.0 h in (e, value, sym same ∙ tests.0 good)),
      λ (e, value, good). code.1 (e, value, tests.1 (same ∙ good)),
    )

-- The job of the lease is settled under a status that ends it, in its row alone, and what is returned is what
-- is read of that row.
abbrev pub Settled : Env → String → JobLease → ℕ → Row → Ledger → Reply Job → Type 0
Settled env library lease time row db reply =
    (status : JobStatus) × (result : Option Value) × (error : Option String) × (is_terminal status
      ≡ true)
    × (reply.0 ≡ read_row env (settle status result error row))
    × (reply.1.rows
        ≡ update_where (holds_lease library lease time) (settle status result error) db.rows)
