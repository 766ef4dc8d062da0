-- ===== src/Jobs/Readback.antt =====
-- Reading back what crates/llmbase-core/src/jobs.rs has just written, and how that fails.
use llmbase.Prelude.{
  Bool-cases, Option-cases, string_PartialEq, String, ◌≡◌, refl, sym, ◌∙◌, ◌⊎◌, inl, inr, Option,
  none, some, [], ◌∷◌, ◌++◌,
}
use llmbase.Json.{Value}
use llmbase.Errors.{Error, json, Result, ok, err, ◌>>=◌}
use llmbase.Jobs.Table.{Row, Ledger, has_id}
use llmbase.Jobs.Types.{
  Env, Job, Reply, checked, from_str, from_result, as_job, read_row, job, insert, lease_of,
}
use llmbase.Jobs.Lookup.{find-inserted}

-- The error of a stored text that cannot be read back.
abbrev pub Unread : Env → Error → Type 0
Unread env e = (e ≡ json) × ((v : Value) × (env.reread v ≡ none))

-- An error comes with the ledger as it was, unless it is that of a text that cannot be read back.
abbrev pub Undone : {A : Type 0} → Env → Ledger → Reply A → Type 0
Undone env db reply = (e : Error) → reply.0 ≡ err e → (reply.1 ≡ db) ⊎ Unread env e

pub checked-Undone :
    {A B : Type 0} (env : Env) (r : Result A) (db : Ledger) (k : A → Reply B)
    → ((a : A) → r ≡ ok a → Undone env db (k a))
    → Undone env db (checked r db k)
checked-Undone env (ok a) db k h = h a refl
checked-Undone env (err e) db k h = λ _ _. inl refl

-- A row that was inserted can be read back.
pub insert-job :
    (env : Env) (r : Row) (db inserted : Ledger) (library : String)
    → insert r db ≡ ok inserted
    → r.library_id ≡ library
    → job env library r.id inserted ≡ read_row env r
unfolding job
insert-job env r db inserted library e same = elim (Bool-cases (has_id r.id db.rows)) [
  | inl taken ↦ cc (rw (taken, insert) at e)
  | inr free ↦
      let equal : inserted ≡ record db { rows = db.rows ++ r ∷ [] } = cc (rw (free, insert) at e) in
      rw (equal, job, find-inserted library r db.rows same free)
]

-- A row that is read fails for a text alone.
from_str-Unread : (env : Env) (v : Value) (e : Error) → from_str env v ≡ err e → Unread env e
unfolding from_str
from_str-Unread env v e h = elim (Option-cases (env.reread v)) [
  | inl unread ↦ (cc (rw (unread, from_str) at h), (v, unread))
  | inr (x, reads) ↦ cc (rw (reads, from_str) at h)
]

from_result-Unread :
    (env : Env) (v : Option Value) (e : Error) → from_result env v ≡ err e → Unread env e
unfolding from_result
from_result-Unread env none e h = cc h
from_result-Unread env (some v) e h = go (from_str env v) refl h
  where
    go : (m : Result Value) → from_str env v ≡ m → (m >>= λ x. ok (some x)) ≡ err e → Unread env e
    go (ok x) f k = cc k
    go (err f) same k = from_str-Unread env v e (same ∙ cc k)

read_row-Unread : (env : Env) (r : Row) (e : Error) → read_row env r ≡ err e → Unread env e
unfolding read_row
read_row-Unread env r e h = go (from_str env r.args) (from_result env r.result) refl refl h
  where
    go :
        (m : Result Value) (k : Result (Option Value))
        → from_str env r.args ≡ m
        → from_result env r.result ≡ k
        → (m >>= λ args. k >>= λ result. ok (as_job r args result)) ≡ err e
        → Unread env e
    go (ok x) (ok y) f g k = cc k
    go (ok x) (err f) _ same k = from_result-Unread env r.result e (same ∙ cc k)
    go (err f) other same _ k = from_str-Unread env r.args e (same ∙ cc k)

pub reads :
    (env : Env) (m : Result Job) (r : Row) (db db' : Ledger)
    → m ≡ read_row env r
    → Undone env db (m, db')
reads env m r db db' e = λ failure failed. inr (read_row-Unread env r failure (sym e ∙ failed))

pub reads-lease :
    (env : Env) (m : Result Job) (r : Row) (token : String) (db db' : Ledger)
    → m ≡ read_row env r
    → Undone env db (lease_of m token, db')
reads-lease env (ok j) r token db db' e = λ failure failed. cc failed
reads-lease env (err f) r token db db' e =
    λ failure failed. inr (read_row-Unread env r failure (sym e ∙ cc failed))
