-- ===== src/Jobs/Order.antt =====
-- The order in which rows are handed out by crates/llmbase-core/src/jobs.rs.
use mathlib.Core.Bool.{false≢true}
use mathlib.Core.Option.{some-injective}
use mathlib.Core.Path.{subst}
use llmbase.Prelude.{
  ltb, nat_eqb, Bool-cases, Option-cases, All, ℕ, ◌≤◌, ◌<◌, ◌≡◌, refl, sym, ◌∙◌, ◌⊎◌, inl, inr,
  Bool, true, false, ◌&&◌, ◌||◌, none, some, List, [], ◌∷◌, arith,
}
use llmbase.Jobs.Table.{Row, before, earlier, least_where}

-- ORDER BY available_at, created_at: the first of the two rows comes no later.
abbrev pub NoLater : Row → Row → Type 0
NoLater r s =
    (r.available_at < s.available_at)
    ⊎ ((r.available_at ≡ s.available_at) × (r.created_at ≤ s.created_at))

NoLater-before : (r s : Row) → before r s ≡ true → NoLater r s
unfolding before
NoLater-before r s h = of_true r.available_at s.available_at r.created_at s.created_at _ h
  where
    of_true :
        (a b c d : ℕ) (t : Bool)
        → (ltb a b || (nat_eqb a b && (ltb c d || (nat_eqb c d && t)))) ≡ true
        → (a < b) ⊎ ((a ≡ b) × (c ≤ d))
    of_true a b c d t h = ground arith

NoLater-after : (r s : Row) → before r s ≡ false → NoLater s r
unfolding before
NoLater-after r s h = of_false r.available_at s.available_at r.created_at s.created_at _ h
  where
    of_false :
        (a b c d : ℕ) (t : Bool)
        → (ltb a b || (nat_eqb a b && (ltb c d || (nat_eqb c d && t)))) ≡ false
        → (b < a) ⊎ ((b ≡ a) × (d ≤ c))
    of_false a b c d t h = ground arith

NoLater-trans : (r s t : Row) → NoLater r s → NoLater s t → NoLater r t
NoLater-trans r s t h k =
    numbers r.available_at s.available_at t.available_at r.created_at s.created_at t.created_at h k
  where
    numbers :
        (a b c x y z : ℕ)
        → (a < b) ⊎ ((a ≡ b) × (x ≤ y))
        → (b < c) ⊎ ((b ≡ c) × (y ≤ z))
        → (a < c) ⊎ ((a ≡ c) × (x ≤ z))
    numbers a b c x y z h k = ground arith

NoLater-refl : (r : Row) → NoLater r r
NoLater-refl r = inr (refl, omega arith)

-- Every row that meets the condition comes no sooner than this one.
unfoldable pub IsFirst : (Row → Bool) → Row → List Row → Type 0
IsFirst p r rs = All (λ x. p x ≡ true → NoLater r x) rs

IsFirst-later :
    (p : Row → Bool) (r s : Row) (rs : List Row) → NoLater r s → IsFirst p s rs → IsFirst p r rs
unfolding IsFirst
IsFirst-later p r s [] h k = tt
IsFirst-later p r s (x ∷ xs) h k =
    ((λ hit. NoLater-trans r s x h (k.0 hit)), IsFirst-later p r s xs h k.1)

pub none_match :
    (p : Row → Bool) (rs : List Row) → least_where p rs ≡ none → All (λ x. p x ≡ false) rs
unfolding least_where
none_match p [] h = tt
none_match p (x ∷ xs) h = elim (Bool-cases (p x)) [
  | inl hit ↦ cc (rw hit at h)
  | inr miss ↦ (miss, none_match p xs (rw miss at h))
]

vacuous : (p : Row → Bool) (r : Row) (rs : List Row) → All (λ x. p x ≡ false) rs → IsFirst p r rs
unfolding IsFirst
vacuous p r [] h = tt
vacuous p r (x ∷ xs) h = ((λ hit. absurd (false≢true (sym h.0 ∙ hit))), vacuous p r xs h.1)

pub least_where-IsFirst :
    (p : Row → Bool) (rs : List Row) (r : Row) → least_where p rs ≡ some r → IsFirst p r rs
unfolding least_where IsFirst
least_where-IsFirst p [] r h = tt
least_where-IsFirst p (x ∷ xs) r h = elim (Bool-cases (p x)) [
  | inr miss ↦
      ((λ hit. absurd (false≢true (sym miss ∙ hit))), least_where-IsFirst p xs r (rw miss at h))
  | inl hit ↦ first_of (least_where-IsFirst p xs) (some-injective _ _ (rw hit at h))
]
  where
    first_of :
        ((s : Row) → least_where p xs ≡ some s → IsFirst p s xs)
        → earlier x (least_where p xs) ≡ r
        → (p x ≡ true → NoLater r x) × IsFirst p r xs
    first_of rest e = elim (Option-cases (least_where p xs)) [
      | inl empty_rest ↦
          let same : x ≡ r = rw empty_rest at e in
          (
            (λ _. subst (λ y. NoLater y x) same (NoLater-refl x)),
            vacuous p r xs (none_match p xs empty_rest),
          )
      | inr (s, found) ↦
          let first = rest s found in
          elim (Bool-cases (before s x)) [
            | inl sooner ↦
                let same : s ≡ r = rw (found, sooner) at e in
                (
                  (λ _. subst (λ y. NoLater y x) same (NoLater-before s x sooner)),
                  subst (λ y. IsFirst p y xs) same first,
                )
            | inr later ↦
                let same : x ≡ r = rw (found, later) at e in
                (
                  (λ _. subst (λ y. NoLater y x) same (NoLater-refl x)),
                  subst (λ y. IsFirst p y xs) same
                      (IsFirst-later p x s xs (NoLater-after s x later) first),
                )
          ]
    ]
