-- ===== src/Jobs/Lookup.antt =====
-- What the statements over the tables of crates/llmbase-core/src/jobs.rs find, count and change.
use mathlib.Core.Bool.{false≢true}
use mathlib.Core.Path.{subst}
use llmbase.Prelude.{
  if◌then◌else◌, Bool-cases, &&-eq-true, ||-eq-false, All, ◌==◌, string_PartialEq, str_eq_iff,
  String, ◌≡◌, refl, sym, ap, ◌∙◌, ◌⊎◌, inl, inr, Bool, true, false, ◌&&◌, Option, some, List, [],
  ◌∷◌, ◌++◌, arith,
}
use llmbase.Json.{Value}
use llmbase.Errors.{Result, ok, err, ◌>>=◌}
use llmbase.Jobs.Types.{Env, Job, from_str, from_result, as_job, read_row}
use llmbase.Jobs.Table.{Row, update_where, count_where, find_where, is_row, has_id}
use llmbase.Jobs.Distinct.{Distinct, In, In-has_id, Distinct-only}

pub Distinct-tail_only :
    (r : Row) (rs : List Row) → Distinct rs → (x : Row) → In x rs → In r rs → x.id ≡ r.id → x ≡ r
Distinct-tail_only r rs d x n m e =
    All-In (λ y. (y.id == r.id) ≡ true → y ≡ r) rs (Distinct-only r rs d m) x n
      ((str_eq_iff x.id r.id).1 e)
  where
    All-In : (P : Row → Type 0) (ys : List Row) → All P ys → (y : Row) → In y ys → P y
    All-In P [] h y m = absurd m
    All-In P (z ∷ zs) h y (inl e) = subst P e h.0
    All-In P (z ∷ zs) h y (inr m) = All-In P zs h.1 y m

-- Nothing meets the condition, or some row does.
pub Holder :
    (p : Row → Bool) (rs : List Row)
    → All (λ x. p x ≡ false) rs ⊎ ((r : Row) × In r rs × (p r ≡ true))
Holder p [] = inl tt
Holder p (x ∷ xs) = elim (Bool-cases (p x)) [
  | inl hit ↦ inr (x, inl refl, hit)
  | inr miss ↦ elim (Holder p xs) [
    | inl none_hit ↦ inl (miss, none_hit)
    | inr (r, m, hit) ↦ inr (r, inr m, hit)
  ]
]

pub count_where-none :
    (p : Row → Bool) (rs : List Row) → All (λ x. p x ≡ false) rs → count_where p rs ≡ 0
unfolding count_where
count_where-none p [] h = refl
count_where-none p (x ∷ xs) h = rw (h.0, count_where-none p xs h.1)

pub update_where-none :
    (p : Row → Bool) (f : Row → Row) (rs : List Row)
    → All (λ x. p x ≡ false) rs
    → update_where p f rs ≡ rs
unfolding update_where
update_where-none p f [] h = refl
update_where-none p f (x ∷ xs) h = rw (h.0, update_where-none p f xs h.1)

-- A condition that names a row's id is met by no other row.
Names : (Row → Bool) → String → Type 0
Names p i = (x : Row) → p x ≡ true → x.id ≡ i

others_miss :
    (p : Row → Bool) (i : String) (xs : List Row)
    → Names p i
    → has_id i xs ≡ false
    → All (λ x. p x ≡ false) xs
unfolding Names has_id
others_miss p i [] names h = tt
others_miss p i (x ∷ xs) names h =
    let (this, others) = ||-eq-false (x.id == i) (has_id i xs) h in
    (
      elim (Bool-cases (p x)) [
        | inr miss ↦ miss
        | inl hit ↦ absurd (false≢true (sym this ∙ (str_eq_iff x.id i).1 (names x hit)))
      ],
      others_miss p i xs names others,
    )

pub count_where-one :
    (p : Row → Bool) (i : String) (r : Row) (rs : List Row)
    → ((x : Row) → p x ≡ true → x.id ≡ i)
    → Distinct rs
    → In r rs
    → p r ≡ true
    → count_where p rs ≡ 1
unfolding count_where Names
count_where-one p i r [] names d m hit = absurd m
count_where-one p i r (x ∷ xs) names d (inl e) hit =
    let this : p x ≡ true = ap p e ∙ hit in
    let free : has_id i xs ≡ false = ap (λ j. has_id j xs) (sym (names x this)) ∙ d.0 in
    rw (this, count_where-none p xs (others_miss p i xs names free))
count_where-one p i r (x ∷ xs) names d (inr m) hit = elim (Bool-cases (p x)) [
  | inr miss ↦ rw (miss, count_where-one p i r xs names d.1 m hit)
  | inl this ↦ absurd (
      false≢true
        (sym d.0 ∙ ap (λ j. has_id j xs) (names x this ∙ sym (names r hit)) ∙ In-has_id r xs m))
]

-- Reading by primary key what an update has changed.
pub find-update :
    (p : Row → Bool) (f : Row → Row) (library i : String) (r : Row) (rs : List Row)
    → ((x : Row) → (f x).id ≡ x.id)
    → ((x : Row) → (f x).library_id ≡ x.library_id)
    → Distinct rs
    → In r rs
    → p r ≡ true
    → is_row library i r ≡ true
    → find_where (is_row library i) (update_where p f rs) ≡ some (f r)
unfolding find_where update_where
find-update p f library i r [] ids libs d m hit row = absurd m
find-update p f library i r (x ∷ xs) ids libs d (inl e) hit row = rw (e, hit, ids r, libs r, row)
find-update p f library i r (x ∷ xs) ids libs d (inr m) hit row =
    rw (other, find-update p f library i r xs ids libs d.1 m hit row)
  where
    id_of : is_row library i r ≡ true → r.id ≡ i
    id_of h = (str_eq_iff r.id i).0 (&&-eq-true (r.library_id == library) (r.id == i) h).1

    differs : (x.id == i) ≡ false
    differs = elim (Bool-cases (x.id == i)) [
      | inr distinct ↦ distinct
      | inl same ↦ absurd (
          false≢true (
            sym d.0
            ∙ ap (λ j. has_id j xs) ((str_eq_iff x.id i).0 same ∙ sym (id_of row))
            ∙ In-has_id r xs m))
    ]

    kept : (b : Bool) → (if b then f x else x).id ≡ x.id
    kept true = ids x
    kept false = refl

    no_row : (a b : Bool) → b ≡ false → (a && b) ≡ false
    no_row a b h = ground arith

    other : is_row library i (if p x then f x else x) ≡ false
    other =
        no_row ((if p x then f x else x).library_id == library) _
          (ap (λ j. j == i) (kept (p x)) ∙ differs)

-- A row that is inserted under a free id is what its key reads.
pub find-inserted :
    (library : String) (r : Row) (rs : List Row)
    → r.library_id ≡ library
    → has_id r.id rs ≡ false
    → find_where (is_row library r.id) (rs ++ r ∷ []) ≡ some r
unfolding find_where has_id
find-inserted library r [] e free =
    rw ((str_eq_iff r.library_id library).1 e, (str_eq_iff r.id r.id).1 refl)
find-inserted library r (x ∷ xs) e free =
    let (this, others) = ||-eq-false (x.id == r.id) (has_id r.id xs) free in
    rw (this, no_row (x.library_id == library), find-inserted library r xs e others)
  where
    no_row : (a : Bool) → (a && false) ≡ false
    no_row a = ground arith

-- What is read of a row has its key and its status.
pub read_row-same :
    (env : Env) (r : Row) (j : Job) → read_row env r ≡ ok j → (j.id ≡ r.id) × (j.status ≡ r.status)
unfolding read_row
read_row-same env r j h = go (from_str env r.args) (from_result env r.result) h
  where
    same : (a b : Job) → Path (Result Job) (ok a) (ok b) → a ≡ b
    same a b e = cc e

    go :
        (m : Result Value) (k : Result (Option Value))
        → (m >>= λ args. k >>= λ result. ok (as_job r args result)) ≡ ok j
        → (j.id ≡ r.id) × (j.status ≡ r.status)
    go (ok x) (ok y) k =
        let e = same _ j k in (ap (λ (x : Job). x.id) (sym e), ap (λ (x : Job). x.status) (sym e))
    go (ok x) (err f) k = cc k
    go (err f) other k = cc k
