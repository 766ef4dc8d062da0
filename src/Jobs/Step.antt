-- ===== src/Jobs/Step.antt =====
-- What one call may do to one row of the table of crates/llmbase-core/src/jobs.rs: the job's state
-- machine as a relation.
use mathlib.Core.Bool.{false≢true}
use mathlib.Core.Path.{subst}
use llmbase.Prelude.{
  if◌then◌else◌, All, ℕ, ◌≤◌, ◌<◌, String, ◌≡◌, refl, sym, ap, ◌∙◌, ◌⊎◌, inl, inr, Bool, true,
  false, Option, List, [], ◌∷◌, ◌++◌, arith,
}
use llmbase.Json.{Value}
use llmbase.Errors.{cancelled, ok}
use llmbase.Jobs.Table.{JobStatus, queued, running, succeeded, cancelled, Row, update_where}
use llmbase.Jobs.Claim.{interrupt, take_lease}
use llmbase.Jobs.Settle.{extend, settle, valid_finish, cancel_row, may_retry, requeue}

pub data Step (r s : Row) : Type 0 where
  idle : s ≡ r → Step r s
  claim :
      (worker token : String) (until : ℕ)
      → r.status ≡ queued
      → r.attempts < r.max_attempts
      → s ≡ take_lease worker token until r
      → Step r s
  expire : r.status ≡ running → s ≡ interrupt r → Step r s
  renew : (until : ℕ) → r.status ≡ running → s ≡ extend until r → Step r s
  finish :
      (status : JobStatus) (result : Option Value) (error : Option String)
      → r.status ≡ running
      → valid_finish status result error ≡ ok tt
      → s ≡ settle status result error r
      → Step r s
  cancel : (r.status ≡ queued) ⊎ (r.status ≡ running) → s ≡ cancel_row r → Step r s
  retry :
      (at : ℕ)
      → may_retry r.status ≡ true
      → r.attempts < r.max_attempts
      → s ≡ requeue at r
      → Step r s

-- `s` extends `r` row by row, with each row related to the one that it was, and new rows behind.
abbrev pub Evolves : (Row → Row → Type 0) → (Row → Type 0) → List Row → List Row → Type 0
Evolves R New [] rest = All New rest
Evolves R New (x ∷ xs) [] = ⊥
Evolves R New (x ∷ xs) (y ∷ ys) = R x y × Evolves R New xs ys

module _ (R : Row → Row → Type 0) (New : Row → Type 0) where
  pub Evolves-same : ((x : Row) → R x x) → (rs : List Row) → Evolves R New rs rs
  Evolves-same same [] = tt
  Evolves-same same (x ∷ xs) = (same x, Evolves-same same xs)

  pub Evolves-append :
      ((x : Row) → R x x) → (rs : List Row) (r : Row) → New r → Evolves R New rs (rs ++ r ∷ [])
  Evolves-append same [] r n = (n, tt)
  Evolves-append same (x ∷ xs) r n = (same x, Evolves-append same xs r n)

  pub Evolves-update :
      (p : Row → Bool) (f : Row → Row) (rs : List Row)
      → ((x : Row) → R x x)
      → All (λ x. p x ≡ true → R x (f x)) rs
      → Evolves R New rs (update_where p f rs)
  unfolding update_where
  Evolves-update p f [] same h = tt
  Evolves-update p f (x ∷ xs) same h = (one (p x) refl, Evolves-update p f xs same h.1)
    where
      one : (b : Bool) → p x ≡ b → R x (if b then f x else x)
      one true e = h.0 e
      one false e = same x

pub All-every {ℓ} : {P : Row → Type ℓ} → ((x : Row) → P x) → (rs : List Row) → All P rs
All-every f [] = tt
All-every f (x ∷ xs) = (f x, All-every f xs)

-- A predicate that new rows have and that steps keep holds of the whole table.
pub All-Evolves :
    (R : Row → Row → Type 0) (New P : Row → Type 0)
    → ((x y : Row) → R x y → P x → P y)
    → ((x : Row) → New x → P x)
    → (rs ss : List Row) → Evolves R New rs ss
    → All P rs
    → All P ss
All-Evolves R New P keep new [] [] e h = tt
All-Evolves R New P keep new [] (y ∷ ys) e h =
    (new y e.0, All-Evolves R New P keep new [] ys e.1 tt)
All-Evolves R New P keep new (x ∷ xs) [] e h = absurd e
All-Evolves R New P keep new (x ∷ xs) (y ∷ ys) e h =
    (keep x y e.0 h.0, All-Evolves R New P keep new xs ys e.1 h.1)

pub Evolves-weaken :
    (R S : Row → Row → Type 0) (New : Row → Type 0)
    → ((x y : Row) → R x y → S x y)
    → (rs ss : List Row) → Evolves R New rs ss
    → Evolves S (λ _. Unit {0}) rs ss
Evolves-weaken R S New f [] [] e = tt
Evolves-weaken R S New f [] (y ∷ ys) e = (tt, Evolves-weaken R S New f [] ys e.1)
Evolves-weaken R S New f (x ∷ xs) [] e = e
Evolves-weaken R S New f (x ∷ xs) (y ∷ ys) e = (f x y e.0, Evolves-weaken R S New f xs ys e.1)

pub Evolves-grows :
    (R : Row → Row → Type 0) (New : Row → Type 0) (rs ss : List Row)
    → Evolves R (λ _. ⊥) rs ss
    → Evolves R New rs ss
Evolves-grows R New [] [] e = tt
Evolves-grows R New [] (y ∷ ys) e = absurd e.0
Evolves-grows R New (x ∷ xs) [] e = e
Evolves-grows R New (x ∷ xs) (y ∷ ys) e = (e.0, Evolves-grows R New xs ys e.1)

pub Evolves-trans :
    (R S T : Row → Row → Type 0) (New : Row → Type 0)
    → ((x y z : Row) → R x y → S y z → T x z)
    → ((x y : Row) → S x y → New x → New y)
    → (rs ss ts : List Row) → Evolves R New rs ss
    → Evolves S New ss ts
    → Evolves T New rs ts
Evolves-trans R S T New f new [] ss ts e g = All-Evolves S New New new (λ x n. n) ss ts g e
Evolves-trans R S T New f new (x ∷ xs) [] ts e g = absurd e
Evolves-trans R S T New f new (x ∷ xs) (y ∷ ys) [] e g = absurd g
Evolves-trans R S T New f new (x ∷ xs) (y ∷ ys) (z ∷ zs) e g =
    (f x y z e.0 g.0, Evolves-trans R S T New f new xs ys zs e.1 g.1)

-- A row that no call changes any more.
abbrev pub is_final : JobStatus → Bool
is_final succeeded = true
is_final cancelled = true
is_final _ = false

-- What every step keeps: who the job is, its budget, and all of it once it is final.
pub record Follows (r s : Row) : Type 0 where
  pub same_id : s.id ≡ r.id
  pub same_library : s.library_id ≡ r.library_id
  pub same_operation : s.operation ≡ r.operation
  pub same_args : s.args ≡ r.args
  pub same_budget : s.max_attempts ≡ r.max_attempts
  pub attempts_grow : r.attempts ≤ s.attempts
  pub stays_final : is_final r.status ≡ true → s ≡ r

Follows-eq : (r s t : Row) → s ≡ t → Follows r t → Follows r s
Follows-eq r s t e h = subst (Follows r) (sym e) h

pub Follows-refl : (r : Row) → Follows r r
Follows-refl r = record {
  same_id = refl;
  same_library = refl;
  same_operation = refl;
  same_args = refl;
  same_budget = refl;
  attempts_grow = omega arith;
  stays_final = λ _. refl;
}

-- A step from a status that is not final, to a row of the same job.
Follows-open :
    (r s : Row)
    → (s.id ≡ r.id)
      × (s.library_id ≡ r.library_id)
      × (s.operation ≡ r.operation)
      × (s.args ≡ r.args)
      × (s.max_attempts ≡ r.max_attempts)
    → r.attempts ≤ s.attempts
    → is_final r.status ≡ false
    → Follows r s
Follows-open r s (i, l, o, a, m) grow open_status = record {
  same_id = i;
  same_library = l;
  same_operation = o;
  same_args = a;
  same_budget = m;
  attempts_grow = grow;
  stays_final = λ f. absurd (false≢true (sym open_status ∙ f));
}

pub Follows-Step : (r s : Row) → Step r s → Follows r s
Follows-Step r s (idle e) = Follows-eq r s r e (Follows-refl r)
Follows-Step r s (claim w t u q b e) = Follows-eq r s (take_lease w t u r) e (
    Follows-open r (take_lease w t u r) (refl, refl, refl, refl, refl) (omega arith)
      (ap is_final q))
Follows-Step r s (expire q e) =
    Follows-eq r s (interrupt r) e
      (Follows-open r (interrupt r) (refl, refl, refl, refl, refl) (omega arith) (ap is_final q))
Follows-Step r s (renew u q e) =
    Follows-eq r s (extend u r) e
      (Follows-open r (extend u r) (refl, refl, refl, refl, refl) (omega arith) (ap is_final q))
Follows-Step r s (finish st res er q v e) = Follows-eq r s (settle st res er r) e (
    Follows-open r (settle st res er r) (refl, refl, refl, refl, refl) (omega arith)
      (ap is_final q))
Follows-Step r s (cancel (inl q) e) =
    Follows-eq r s (cancel_row r) e
      (Follows-open r (cancel_row r) (refl, refl, refl, refl, refl) (omega arith) (ap is_final q))
Follows-Step r s (cancel (inr q) e) =
    Follows-eq r s (cancel_row r) e
      (Follows-open r (cancel_row r) (refl, refl, refl, refl, refl) (omega arith) (ap is_final q))
Follows-Step r s (retry at q b e) =
    Follows-eq r s (requeue at r) e
      (Follows-open r (requeue at r) (refl, refl, refl, refl, refl) (omega arith) (ground arith))

pub Follows-trans : (r s t : Row) → Follows r s → Follows s t → Follows r t
Follows-trans r s t h k = record {
  same_id = k.same_id ∙ h.same_id;
  same_library = k.same_library ∙ h.same_library;
  same_operation = k.same_operation ∙ h.same_operation;
  same_args = k.same_args ∙ h.same_args;
  same_budget = k.same_budget ∙ h.same_budget;
  attempts_grow = omega (arith, h.attempts_grow, k.attempts_grow);
  stays_final = λ f.
      let same = h.stays_final f in
      k.stays_final (ap (λ (x : Row). is_final x.status) same ∙ f) ∙ same;
}
