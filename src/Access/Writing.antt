-- ===== src/Access/Writing.antt =====
-- What an operation that writes, calls a model or shows what is private asks of its caller in
-- crates/llmbase-core/src/application.rs.
use llmbase.Access.Effects.{
  changing, confined, repair_mode, files_back, changes, shows_private, changing_checked,
  confined_checked, held_by, uses_model, model_using, model_checked,
}
use mathlib.Core.Path.{subst}
use llmbase.Errors.{model, Result, ok, bind_ok, passed}
use llmbase.Prelude.{
  if◌then◌else◌, some_and, unwrap_or, Bool-cases, &&-eq-true, ◌==◌, string_PartialEq, str_eq_iff,
  one_of, String, ◌≡◌, refl, sym, ap, ◌∙◌, ◌⊎◌, inl, inr, Bool, true, false, not, ◌&&◌, ◌||◌,
  Option, none, some, [], ◌∷◌, arith,
}
use llmbase.Json.{Value, get_str}
use llmbase.Access.Operations.{Capability, write, model, Capabilities, contains, arm_of}
use llmbase.Access.{
  is_set, required_capability, ingest_guard, repair_guard, merge_guard, reading_guard,
  bad_query_mode, query_write_guard, guards, authorize_builtin,
}

-- The guards, one by one.
guards_pass :
    (cs : Capabilities) (operation : String) (args : Value)
    → authorize_builtin cs operation args ≡ ok tt
    → (repair_guard cs operation args ≡ false)
      × (query_write_guard cs operation args ≡ false)
      × ((c : Capability) × (required_capability operation args ≡ ok c) × (contains cs c ≡ true))
unfolding authorize_builtin guards
guards_pass cs operation args h =
    let (c, required, h1) = bind_ok (required_capability operation args) _ tt h in
    let (held, h2) = passed (not (contains cs c)) _ _ tt h1 in
    let (_, h3) = passed (ingest_guard cs operation args) _ _ tt h2 in
    let (repair, h4) = passed (repair_guard cs operation args) _ _ tt h3 in
    let (_, h5) = passed (merge_guard cs operation args) _ _ tt h4 in
    let (_, h6) = passed (reading_guard cs operation args) _ _ tt h5 in
    let (_, h7) = passed (bad_query_mode cs operation args) _ _ tt h6 in
    let (query, _) = passed (query_write_guard cs operation args) _ _ tt h7 in
    (repair, query, (c, required, negated (contains cs c) held))
  where
    negated : (b : Bool) → not b ≡ false → b ≡ true
    negated b k = ground arith

-- A repair whose mode is not "deep_lint" needs the capability to write.
repair_write :
    (args : Value) (c : Capability)
    → (repair_mode args == "deep_lint") ≡ false
    → required_capability "maintenance_repair" args ≡ ok c
    → c ≡ write
unfolding required_capability arm_of
repair_write args c mode required =
    go (some_and (get_str args "mode") (λ m. m == "deep_lint")) (shallow (get_str args "mode") mode)
      required
  where
    shallow :
        (m : Option String)
        → (unwrap_or m "auto_fix" == "deep_lint") ≡ false
        → some_and m (λ x. x == "deep_lint") ≡ false
    shallow none h = refl
    shallow (some x) h = h

    same : {a b : Capability} → Path (Result Capability) (ok a) (ok b) → b ≡ a
    same e = cc e

    go :
        (b : Bool)
        → b ≡ false
        → Path (Result Capability) (if b then ok model else ok write) (ok c)
        → c ≡ write
    go true h e = cc h
    go false h e = same e

one_of_three : (a b c : Bool) → (a || b || c) ≡ true → (a ≡ true) ⊎ (b ≡ true) ⊎ (c ≡ true)
one_of_three a b c h = ground arith

module _ (cs : Capabilities) (operation : String) (args : Value) where
  held_to_change :
      authorize_builtin cs operation args ≡ ok tt
      → changes operation args ≡ true
      → cs.may_write ≡ true
  unfolding changes query_write_guard
  held_to_change h does =
      let (_, query, (c, required, held)) = guards_pass cs operation args h in
      elim (one_of_three (one_of operation changing)
        (operation == "maintenance_repair" && not (repair_mode args == "deep_lint"))
        (operation == "legacy_query" && files_back args) does) [
          | inl listed ↦
              held_by cs.may_write cs args operation changing
                (changing_checked cs.may_read cs.may_write cs.may_model cs.may_private args) h
                listed
          | inr (inl repairs) ↦
              let (named, mode) =
                &&-eq-true (operation == "maintenance_repair")
                  (not (repair_mode args == "deep_lint")) repairs in
              let is_write = repair_write args c (negated (repair_mode args == "deep_lint") mode) (
                subst (λ o. required_capability o args ≡ ok c)
                  ((str_eq_iff operation "maintenance_repair").0 named) required) in
              sym (ap (contains cs) is_write) ∙ held
          | inr (inr files) ↦
              by_query (operation == "legacy_query") (is_set args "file_back")
                (is_set args "promote") cs.may_write cs.may_private query files
        ]
    where
      negated : (b : Bool) → not b ≡ true → b ≡ false
      negated b k = ground arith

      by_query :
          (a f p w v : Bool)
          → (a && (f || (p || false)) && (not w || not v)) ≡ false
          → (a && (f || p)) ≡ true
          → w ≡ true
      by_query a f p w v g k = ground arith

  held_to_call :
      authorize_builtin cs operation args ≡ ok tt
      → uses_model operation args ≡ true
      → cs.may_model ≡ true
  unfolding uses_model repair_guard
  held_to_call h does =
      let (repair, _, _) = guards_pass cs operation args h in
      elim (Bool-cases (one_of operation model_using)) [
        | inl listed ↦
            held_by cs.may_model cs args operation model_using
              (model_checked cs.may_read cs.may_write cs.may_model cs.may_private args) h listed
        | inr other ↦
            by_repair (one_of operation model_using) (operation == "maintenance_repair")
              (repair_mode args == "clean") (repair_mode args == "heal_slugs") cs.may_read
              cs.may_model (is_set args "private_inputs") cs.may_private repair other does
      ]
    where
      by_repair :
          (l a c s r m i v : Bool)
          → (a && (not r || (not (c || (s || false)) && not m) || (i && not v))) ≡ false
          → l ≡ false
          → (l || (a && not c && not s)) ≡ true
          → m ≡ true
      by_repair l a c s r m i v g o k = ground arith

  held_to_show :
      authorize_builtin cs operation args ≡ ok tt
      → shows_private operation args ≡ true
      → cs.may_private ≡ true
  unfolding shows_private repair_guard query_write_guard
  held_to_show h does =
      let (repair, query, _) = guards_pass cs operation args h in
      elim (one_of_three (one_of operation confined)
        (operation == "maintenance_repair" && is_set args "private_inputs")
        (operation == "legacy_query" && files_back args) does) [
          | inl listed ↦
              held_by cs.may_private cs args operation confined
                (confined_checked cs.may_read cs.may_write cs.may_model cs.may_private args) h
                listed
          | inr (inl repairs) ↦
              by_repair (operation == "maintenance_repair") (is_set args "private_inputs")
                (one_of (repair_mode args) ("clean" ∷ "heal_slugs" ∷ [])) cs.may_read cs.may_model
                cs.may_private repair repairs
          | inr (inr files) ↦
              by_query (operation == "legacy_query") (is_set args "file_back")
                (is_set args "promote") cs.may_write cs.may_private query files
        ]
    where
      by_repair :
          (a i c r m v : Bool)
          → (a && (not r || (not c && not m) || (i && not v))) ≡ false
          → (a && i) ≡ true
          → v ≡ true
      by_repair a i c r m v g k = ground arith

      by_query :
          (a f p w v : Bool)
          → (a && (f || (p || false)) && (not w || not v)) ≡ false
          → (a && (f || p)) ≡ true
          → v ≡ true
      by_query a f p w v g k = ground arith

  -- A caller who is authorized for a built-in operation with its arguments has the capability to write if it
  -- changes the library: it is listed as one that does, or a repair whose mode, "auto_fix" by default, is not
  -- "deep_lint", or a query whose answer is filed back or promoted. The caller has the capability to call
  -- models if it calls one: it is listed so, or a repair whose mode is neither "clean" nor "heal_slugs". And
  -- the caller has the capability to see what is private if it is listed as one about jobs, drafts, ingestion
  -- or whole libraries, or is a repair with private inputs, or such a query.
  pub authorize_builtin-held :
      authorize_builtin cs operation args ≡ ok tt
      → (changes operation args ≡ true → cs.may_write ≡ true)
        × (uses_model operation args ≡ true → cs.may_model ≡ true)
        × (shows_private operation args ≡ true → cs.may_private ≡ true)
  authorize_builtin-held h = (held_to_change h, held_to_call h, held_to_show h)
