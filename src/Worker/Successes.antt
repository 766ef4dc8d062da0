-- ===== src/Worker/Successes.antt =====
-- Which results crates/llmbase-core/src/worker.rs takes for a success, operation by operation.
use mathlib.Core.Path.{subst}
use llmbase.Prelude.{
  if◌then◌else◌, some_and, Bool-cases, ◌==◌, string_PartialEq, str_eq_iff, one_of, String, ◌≡◌,
  refl, sym, inl, inr, Bool, true, false, not, ◌&&◌, ◌||◌, Option, none, some, List, [], ◌∷◌, arith,
}
use llmbase.Worker.{reports_status, is_success}

-- The texts under "status" that mean success, operation by operation; `none`: any result will do.
unfoldable pub success_texts : String → Option (List String)
success_texts operation =
    if operation == "legacy_compile"
    then some ("succeeded" ∷ "no_changes" ∷ [])
    else if operation == "entities_generate"
    then some ("succeeded" ∷ "no_changes" ∷ "disabled" ∷ [])
    else if operation == "web_write_wiki_clean"
    then some ("succeeded" ∷ "ok" ∷ [])
    else if one_of operation (
        "compile" ∷ "plugin_ingest" ∷ "maintenance_repair" ∷ "taxonomy_generate" ∷ "xici_generate"
        ∷ "lint_fix" ∷ [])
    then some ("succeeded" ∷ [])
    else none

abbrev pub among : Option (List String) → Option String → Bool
among none status = true
among (some texts) status = some_and status (λ s. one_of s texts)

abbrev pub coded : String → Option String → Bool
coded operation status = not (reports_status operation) || some_and status (is_success operation)

-- The two tests of the code, against the table of texts.
pub coded-among :
    (operation : String) (status : Option String)
    → coded operation status ≡ among (success_texts operation) status
unfolding reports_status is_success success_texts
coded-among operation status = elim (Bool-cases (operation == "legacy_compile")) [
  | inl e ↦ subst Same (sym ((str_eq_iff operation "legacy_compile").0 e)) (legacy status)
  | inr l ↦ elim (Bool-cases (operation == "entities_generate")) [
    | inl e ↦ subst Same (sym ((str_eq_iff operation "entities_generate").0 e)) (entities status)
    | inr e ↦ elim (Bool-cases (operation == "web_write_wiki_clean")) [
      | inl w ↦ subst Same (sym ((str_eq_iff operation "web_write_wiki_clean").0 w)) (clean status)
      | inr w ↦
          others (operation == "compile") (operation == "legacy_compile")
            (operation == "plugin_ingest") (operation == "maintenance_repair")
            (operation == "taxonomy_generate") (operation == "xici_generate")
            (operation == "entities_generate") (operation == "lint_fix")
            (operation == "web_write_wiki_clean") status l e w
    ]
  ]
]
  where
    Same : String → Type 0
    Same o = coded o status ≡ among (success_texts o) status

    legacy :
        (o : Option String) → coded "legacy_compile" o ≡ among (success_texts "legacy_compile") o
    legacy none = refl
    legacy (some s) = ground arith

    entities :
        (o : Option String)
        → coded "entities_generate" o ≡ among (success_texts "entities_generate") o
    entities none = refl
    entities (some s) = ground arith

    clean :
        (o : Option String)
        → coded "web_write_wiki_clean" o ≡ among (success_texts "web_write_wiki_clean") o
    clean none = refl
    clean (some s) = ground arith

    others :
        (a l b c d x e f w : Bool) (o : Option String)
        → l ≡ false
        → e ≡ false
        → w ≡ false
        → (not (a || (l || (b || (c || (d || (x || (e || (f || (w || false)))))))))
            || some_and o (λ s.
              s == "succeeded"
              || (s == "ok" && w)
              || (s == "no_changes" && (l || (e || false)))
              || (s == "disabled" && e)))
          ≡ among
              (if l
                then some ("succeeded" ∷ "no_changes" ∷ [])
                else if e
                then some ("succeeded" ∷ "no_changes" ∷ "disabled" ∷ [])
                else if w
                then some ("succeeded" ∷ "ok" ∷ [])
                else if a || (b || (c || (d || (x || (f || false)))))
                then some ("succeeded" ∷ [])
                else none)
              o
    others a false b c d x false f false none p q r = ground arith
    others a false b c d x false f false (some s) p q r = ground arith
    others a true b c d x e f w o p q r = cc p
    others a false b c d x true f w o p q r = cc q
    others a false b c d x false f true o p q r = cc r
