-- ===== src/Access/Opening.antt =====
-- `open_operation_library` of crates/llmbase-core/src/application.rs: the opening of a library that another
-- writer may hold for a moment.
use llmbase.Errors.{cancelled, busy, model, Result, ok, err}
use mathlib.Core.Path.{subst}
use llmbase.Prelude.{
  nat_eqb, nat_eqb_iff, ℕ, zero, suc, ◌+◌, ◌≤◌, ◌<◌, ◌≡◌, refl, ◌∙◌, ap, Bool, true, false, Option,
  none, some, arith, if◌then◌else◌, ◌⊎◌, inl, inr, Bool-cases,
}

abbrev pub is_busy : {A : Type 0} → Result A → Bool
is_busy (err busy) = true
is_busy (err e) = false
is_busy (ok a) = false

-- What each attempt meets: a token that is cancelled, and what `Library::open` gives.
module _ {A : Type 0} (is_cancelled : ℕ → Bool) (opens : ℕ → Result A) where
  -- The loop, with so many attempts left; `none` is the panic behind it, and the number is that of the pauses.
  unfoldable pub open_attempts : ℕ → ℕ → Option (Result A) × ℕ
  open_attempts zero attempt = (none, attempt)
  open_attempts (suc zero) attempt =
      (some (if is_cancelled attempt then err (model cancelled) else opens attempt), attempt)
  open_attempts (suc (suc left)) attempt =
      let again = open_attempts (suc left) (suc attempt) in
      if is_cancelled attempt
      then (some (err (model cancelled)), attempt)
      else if is_busy (opens attempt)
      then again
      else (some (opens attempt), attempt)

  unfoldable pub open_operation_library : Option (Result A) × ℕ
  unfolding open_attempts
  open_operation_library = open_attempts 100 0

  -- The run has come to its end at this attempt.
  pub data EndsAt (from limit k : ℕ) : Option (Result A) → Type 0 where
    stopped :
        from ≤ k
        → k < limit
        → is_cancelled k ≡ true
        → EndsAt from limit k (some (err (model cancelled)))
    opened :
        from ≤ k
        → k < limit
        → is_cancelled k ≡ false
        → (is_busy (opens k) ≡ false) ⊎ (suc k ≡ limit)
        → EndsAt from limit k (some (opens k))

  -- The attempts before it were not cancelled and found the library busy.
  abbrev pub Waited : ℕ → ℕ → Type 0
  Waited from k = (j : ℕ) → from ≤ j → j < k → (is_cancelled j ≡ false) × (is_busy (opens j) ≡ true)

  earlier :
      (from limit k : ℕ) (o : Option (Result A))
      → EndsAt (suc from) limit k o
      → EndsAt from limit k o
  earlier from limit k o (stopped low high c) = stopped (omega (arith, low)) high c
  earlier from limit k o (opened low high c last) = opened (omega (arith, low)) high c last

  open_attempts-EndsAt :
      (left from : ℕ)
      → EndsAt from
          (from + suc left)
          (open_attempts (suc left) from).1
          (open_attempts (suc left) from).0
        × Waited from (open_attempts (suc left) from).1
  unfolding open_attempts
  open_attempts-EndsAt zero from =
      (last (is_cancelled from) refl, λ j low high. absurd (omega (arith, low, high)))
    where
      last :
          (c : Bool)
          → is_cancelled from ≡ c
          → EndsAt from (from + 1) from (some (if c then err (model cancelled) else opens from))
      last true e = stopped (omega arith) (omega arith) e
      last false e = opened (omega arith) (omega arith) e (inr (omega arith))
  open_attempts-EndsAt (suc left) from =
      go (is_cancelled from) (is_busy (opens from)) refl refl (open_attempts-EndsAt left (suc from))
    where
      ran : Option (Result A) × ℕ
      ran = open_attempts (suc left) (suc from)

      Ends : Option (Result A) × ℕ → Type 0
      Ends m = EndsAt from (from + suc (suc left)) m.1 m.0 × Waited from m.1

      none_before : Waited from from
      none_before j low high = absurd (omega (arith, low, high))

      chosen : Bool → Bool → Option (Result A) × ℕ
      chosen c b =
          if c
          then (some (err (model cancelled)), from)
          else if b
          then ran
          else (some (opens from), from)

      go :
          (c b : Bool)
          → is_cancelled from ≡ c
          → is_busy (opens from) ≡ b
          → EndsAt (suc from) (suc from + suc left) ran.1 ran.0 × Waited (suc from) ran.1
          → Ends (chosen c b)
      go true b e f later = (stopped (omega arith) (omega arith) e, none_before)
      go false false e f later = (opened (omega arith) (omega arith) e (inl f), none_before)
      go false true e f (ends, waited) = (
        earlier from (from + suc (suc left)) ran.1 ran.0
            (subst (λ l. EndsAt (suc from) l ran.1 ran.0) (omega arith) ends),
        longer,
      )
        where
          above : (j : ℕ) → from ≤ j → nat_eqb j from ≡ false → suc from ≤ j
          above j low other = ground arith

          longer : Waited from ran.1
          longer j low high = elim (Bool-cases (nat_eqb j from)) [
            | inl here ↦
                let same = (nat_eqb_iff j from).0 here in
                (ap is_cancelled same ∙ e, ap (λ k. is_busy (opens k)) same ∙ f)
            | inr other ↦ waited j (above j low other) high
          ]

-- The opening of a library ends within 100 attempts, never behind its loop: at an attempt where the token is
-- cancelled, with that error, or at one whose answer is not that the library is busy or that is the last,
-- with that answer. At every attempt before, the token was not cancelled and the library was busy.
pub open_operation_library-EndsAt :
    {A : Type 0} (is_cancelled : ℕ → Bool) (opens : ℕ → Result A)
    → EndsAt is_cancelled opens 0 100
        (open_operation_library is_cancelled opens).1
        (open_operation_library is_cancelled opens).0
      × Waited is_cancelled opens 0 (open_operation_library is_cancelled opens).1
unfolding open_operation_library
open_operation_library-EndsAt is_cancelled opens = open_attempts-EndsAt is_cancelled opens 99 0
