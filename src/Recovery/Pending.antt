-- ===== src/Recovery/Pending.antt =====
-- How many intents the operations of crates/llmbase-core/src/recovery.rs leave pending.
use mathlib.Core.Path.{subst}
use llmbase.Prelude.{
  if◌then◌else◌, Bool-cases, &&-eq-true, all, ◌==◌, string_PartialEq, str_eq_iff, one_of, String,
  ◌≡◌, refl, ap, ◌∙◌, inl, inr, Bool, true, false, ◌||◌, List, [], ◌∷◌, ◌++◌, map, append_assoc,
  arith,
}
use llmbase.Paths.{later}
use llmbase.Recovery.{Intent}
use llmbase.Recovery.Intents.{IntentRow, pending_intents, mark_intent, mark_intents}

-- The intents without those of one id.
abbrev drop_id : String → List Intent → List Intent
drop_id id [] = []
drop_id id (i ∷ is) = let rest = drop_id id is in if i.id == id then rest else i ∷ rest

abbrev drop_ids : List Intent → List Intent → List Intent
drop_ids [] js = js
drop_ids (i ∷ is) js = drop_ids is (drop_id i.id js)

mark_intent-drop :
    (id : String) (rows : List IntentRow)
    → pending_intents (mark_intent id rows) ≡ drop_id id (pending_intents rows)
unfolding mark_intent pending_intents
mark_intent-drop id [] = refl
mark_intent-drop id (r ∷ rs) = elim (Bool-cases (r.intent.id == id)) [
  | inl same ↦ rw same (dropped r.applied same (mark_intent-drop id rs))
  | inr other ↦ rw other (kept r.applied other (mark_intent-drop id rs))
]
  where
    before : Bool → List Intent
    before b = if b then pending_intents rs else r.intent ∷ pending_intents rs

    Later : Type 0
    Later = pending_intents (mark_intent id rs) ≡ drop_id id (pending_intents rs)

    dropped :
        (b : Bool)
        → (r.intent.id == id) ≡ true
        → Later
        → pending_intents (mark_intent id rs) ≡ drop_id id (before b)
    dropped true h later = later
    dropped false h later = rw h later

    kept :
        (b : Bool)
        → (r.intent.id == id) ≡ false
        → Later
        → (if b
            then pending_intents (mark_intent id rs)
            else r.intent ∷ pending_intents (mark_intent id rs))
          ≡ drop_id id (before b)
    kept true h later = later
    kept false h later = rw h (ap (◌∷◌ r.intent) later)

mark_intents-drop :
    (is : List Intent) (rows : List IntentRow)
    → pending_intents (mark_intents is rows) ≡ drop_ids is (pending_intents rows)
unfolding mark_intents
mark_intents-drop [] rows = refl
mark_intents-drop (i ∷ is) rows =
    mark_intents-drop is (mark_intent i.id rows) ∙ ap (drop_ids is) (mark_intent-drop i.id rows)

drop_ids-nil : (is : List Intent) → drop_ids is [] ≡ []
drop_ids-nil [] = refl
drop_ids-nil (i ∷ is) = drop_ids-nil is

-- Their ids.
abbrev ids : List Intent → List String
ids is = map (λ i. i.id) is

drop_ids-cons :
    (is : List Intent) (j : Intent) (js : List Intent)
    → drop_ids is (j ∷ js) ≡ (if one_of j.id (ids is) then drop_ids is js else j ∷ drop_ids is js)
drop_ids-cons [] j js = refl
drop_ids-cons (i ∷ is) j js = elim (Bool-cases (j.id == i.id)) [
  | inl same ↦ rw same
  | inr other ↦ rw other (drop_ids-cons is j (drop_id i.id js))
]

-- The intents of a part of the list are dropped by the whole.
drop_ids-all :
    (is js : List Intent) → all (λ j. one_of j.id (ids is)) js ≡ true → drop_ids is js ≡ []
drop_ids-all is [] h = drop_ids-nil is
drop_ids-all is (j ∷ js) h =
    let (here, later) = &&-eq-true (one_of j.id (ids is)) (all (λ k. one_of k.id (ids is)) js) h in
    drop_ids-cons is j js ∙ rw here (drop_ids-all is js later)

contains_itself : (is more : List Intent) → all (λ j. one_of j.id (ids (more ++ is))) is ≡ true
contains_itself [] more = refl
contains_itself (i ∷ is) more = rw (
  here more,
  subst (λ ks. all (λ j. one_of j.id (ids ks)) is ≡ true) (append_assoc more (i ∷ []) is)
      (contains_itself is (more ++ i ∷ [])),
)
  where
    here : (ks : List Intent) → one_of i.id (ids (ks ++ i ∷ is)) ≡ true
    here [] = rw ((str_eq_iff i.id i.id).1 refl)
    here (k ∷ ks) = rw (here ks) (always (i.id == k.id))
      where
        always : (b : Bool) → (b || true) ≡ true
        always b = ground arith

pub mark_intents-none :
    (rows : List IntentRow) → pending_intents (mark_intents (pending_intents rows) rows) ≡ []
mark_intents-none rows =
    mark_intents-drop (pending_intents rows) rows
    ∙ drop_ids-all (pending_intents rows) (pending_intents rows)
        (contains_itself (pending_intents rows) [])

pub pending_intents-append :
    (rows : List IntentRow) (i : Intent)
    → pending_intents (rows ++ record { intent = i; applied = false } ∷ [])
      ≡ pending_intents rows ++ i ∷ []
unfolding pending_intents
pending_intents-append [] i = refl
pending_intents-append (r ∷ rs) i = go r.applied (pending_intents-append rs i)
  where
    go :
        (b : Bool)
        → pending_intents (rs ++ record { intent = i; applied = false } ∷ [])
          ≡ pending_intents rs ++ i ∷ []
        → (if b
            then pending_intents (rs ++ record { intent = i; applied = false } ∷ [])
            else r.intent ∷ pending_intents (rs ++ record { intent = i; applied = false } ∷ []))
          ≡ (if b then pending_intents rs else r.intent ∷ pending_intents rs) ++ i ∷ []
    go true h = h
    go false h = ap (◌∷◌ r.intent) h
