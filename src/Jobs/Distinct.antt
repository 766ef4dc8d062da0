-- ===== src/Jobs/Distinct.antt =====
-- The primary key of the table of crates/llmbase-core/src/jobs.rs: no two rows have one id.
use mathlib.Core.Bool.{false≢true}
use mathlib.Core.Option.{some-injective}
use mathlib.Core.Path.{subst}
use llmbase.Prelude.{
  if◌then◌else◌, Bool-cases, ||-eq-false, All, ◌==◌, string_PartialEq, str_eq_iff, String, ◌≡◌,
  refl, sym, ap, ◌∙◌, ◌⊎◌, inl, inr, Bool, true, false, ◌||◌, Option, none, some, List, [], ◌∷◌,
  ◌++◌,
}
use llmbase.Jobs.Table.{Row, update_where, find_where, before, earlier, least_where, has_id}

-- No row of the list has the id of one before it.
abbrev pub Distinct : List Row → Type 0
Distinct [] = Unit
Distinct (r ∷ rs) = (has_id r.id rs ≡ false) × Distinct rs

abbrev pub In : Row → List Row → Type 0
In r [] = ⊥
In r (x ∷ xs) = (x ≡ r) ⊎ In r xs

id_same : (s : String) → (s == s) ≡ true
id_same s = (str_eq_iff s s).1 refl

pub In-has_id : (r : Row) (rs : List Row) → In r rs → has_id r.id rs ≡ true
unfolding has_id
In-has_id r [] h = absurd h
In-has_id r (x ∷ xs) (inl e) = rw (ap (λ (y : Row). y.id) e, id_same r.id)
In-has_id r (x ∷ xs) (inr m) = rw (In-has_id r xs m) (||-true (x.id == r.id))
  where
    ||-true : (b : Bool) → (b || true) ≡ true
    ||-true true = refl
    ||-true false = refl

none-has_id : (i : String) (rs : List Row) → has_id i rs ≡ false → All (λ x. (x.id == i) ≡ false) rs
unfolding has_id
none-has_id i [] h = tt
none-has_id i (x ∷ xs) h =
    let (this, others) = ||-eq-false (x.id == i) (has_id i xs) h in (this, none-has_id i xs others)

All-map {ℓ κ} :
    {P : Row → Type ℓ} {Q : Row → Type κ} (rs : List Row)
    → ((x : Row) → P x → Q x)
    → All P rs
    → All Q rs
All-map [] f h = tt
All-map (x ∷ xs) f h = (f x h.0, All-map xs f h.1)

-- A row of a table with distinct ids is the only one that has its id.
pub Distinct-only :
    (r : Row) (rs : List Row) → Distinct rs → In r rs → All (λ x. (x.id == r.id) ≡ true → x ≡ r) rs
Distinct-only r [] d m = tt
Distinct-only r (x ∷ xs) d (inl e) = (
  λ _. e,
  All-map xs (λ y differs same. absurd (false≢true (sym differs ∙ same)))
      (none-has_id r.id xs (rw (ap (λ (y : Row). y.id) e) at d.0)),
)
Distinct-only r (x ∷ xs) d (inr m) = (
  λ same. absurd (
      false≢true
        (sym d.0 ∙ ap (λ i. has_id i xs) ((str_eq_iff x.id r.id).0 same) ∙ In-has_id r xs m)),
  Distinct-only r xs d.1 m,
)

-- An update that keeps the ids keeps them distinct.
has_id-update :
    (p : Row → Bool) (f : Row → Row) (i : String) (rs : List Row)
    → ((x : Row) → (f x).id ≡ x.id)
    → has_id i (update_where p f rs) ≡ has_id i rs
unfolding has_id update_where
has_id-update p f i [] keeps = refl
has_id-update p f i (x ∷ xs) keeps = elim (Bool-cases (p x)) [
  | inl hit ↦ rw (hit, keeps x, has_id-update p f i xs keeps)
  | inr miss ↦ rw (miss, has_id-update p f i xs keeps)
]

update_one-id :
    (b : Bool) (f : Row → Row) (x : Row)
    → ((y : Row) → (f y).id ≡ y.id)
    → (if b then f x else x).id ≡ x.id
update_one-id true f x keeps = keeps x
update_one-id false f x keeps = refl

pub Distinct-update :
    (p : Row → Bool) (f : Row → Row) (rs : List Row)
    → ((x : Row) → (f x).id ≡ x.id)
    → Distinct rs
    → Distinct (update_where p f rs)
unfolding update_where
Distinct-update p f [] keeps d = tt
Distinct-update p f (x ∷ xs) keeps d = (
  has_id-update p f _ xs keeps ∙ ap (λ i. has_id i xs) (update_one-id (p x) f x keeps) ∙ d.0,
  Distinct-update p f xs keeps d.1,
)

has_id-append :
    (i : String) (rs : List Row) (r : Row)
    → has_id i rs ≡ false
    → (r.id == i) ≡ false
    → has_id i (rs ++ r ∷ []) ≡ false
unfolding has_id
has_id-append i [] r h e = rw e
has_id-append i (x ∷ xs) r h e =
    let (this, others) = ||-eq-false (x.id == i) (has_id i xs) h in
    rw (this, has_id-append i xs r others e)

differs_sym : (s t : String) → (s == t) ≡ false → (t == s) ≡ false
differs_sym s t h = elim (Bool-cases (t == s)) [
  | inr differs ↦ differs
  | inl same ↦ absurd (false≢true (sym h ∙ (str_eq_iff s t).1 (sym ((str_eq_iff t s).0 same))))
]

pub Distinct-append :
    (rs : List Row) (r : Row) → has_id r.id rs ≡ false → Distinct rs → Distinct (rs ++ r ∷ [])
unfolding has_id
Distinct-append [] r h d = (refl, tt)
Distinct-append (x ∷ xs) r h d =
    let (this, others) = ||-eq-false (x.id == r.id) (has_id r.id xs) h in
    (has_id-append x.id xs r d.0 (differs_sym x.id r.id this), Distinct-append xs r others d.1)

-- A row that a query finds is in the table and meets the query.
In-earlier :
    (p : Row → Bool) (x : Row) (xs : List Row) (o : Option Row) (r : Row)
    → p x ≡ true
    → ((s : Row) → o ≡ some s → In s xs × (p s ≡ true))
    → earlier x o ≡ r
    → In r (x ∷ xs) × (p r ≡ true)
In-earlier p x xs none r hit rest e = (inl e, ap p (sym e) ∙ hit)
In-earlier p x xs (some s) r hit rest e = elim (Bool-cases (before s x)) [
  | inl sooner ↦
      let same : s ≡ r = sym (rw sooner) ∙ e in
      let (m, h) = rest s refl in (inr (subst (λ y. In y xs) same m), ap p (sym same) ∙ h)
  | inr later ↦ let same : x ≡ r = sym (rw later) ∙ e in (inl same, ap p (sym same) ∙ hit)
]

pub In-least_where :
    (p : Row → Bool) (rs : List Row) (r : Row) → least_where p rs ≡ some r → In r rs × (p r ≡ true)
unfolding least_where
In-least_where p [] r h = cc
In-least_where p (x ∷ xs) r h = elim (Bool-cases (p x)) [
  | inl hit ↦
      In-earlier p x xs (least_where p xs) r hit (In-least_where p xs)
        (some-injective _ _ (rw hit at h))
  | inr miss ↦ let (m, q) = In-least_where p xs r (rw miss at h) in (inr m, q)
]

pub In-find_where :
    (p : Row → Bool) (rs : List Row) (r : Row) → find_where p rs ≡ some r → In r rs × (p r ≡ true)
unfolding find_where
In-find_where p [] r h = cc
In-find_where p (x ∷ xs) r h = elim (Bool-cases (p x)) [
  | inl hit ↦
      let same : x ≡ r = some-injective _ _ (rw hit at h) in (inl same, ap p (sym same) ∙ hit)
  | inr miss ↦ let (m, q) = In-find_where p xs r (rw miss at h) in (inr m, q)
]
