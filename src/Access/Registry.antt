-- ===== src/Access/Registry.antt =====
-- What registering extensions of crates/llmbase-core/src/extensions.rs leaves as it was.
use llmbase.Errors.{Result, ok, bind_ok, passed}
use mathlib.Core.Path.{subst}
use mathlib.Core.Bool.{false≢true}
use llmbase.Prelude.{
  is_some, Bool-cases, is_empty, all, All, ◌==◌, string_PartialEq, str_eq_iff, one_of, String, ◌≡◌,
  refl, sym, ap, ◌∙◌, inl, inr, Bool, true, false, not, ◌||◌, none, List, [], ◌∷◌, ◌++◌, arith,
}
use llmbase.Utf8.{split}
use llmbase.Json.{Value}
use llmbase.Access.{Principal, Request, Extension, Application, find_extension, authorize}
use llmbase.Access.Operations.{Capability, arms, arm_of}
use llmbase.Access.Reading.{one_of-all, one_of-left, one_of-right}
use llmbase.Access.Extensions.{
  ExtensionSpec, valid_name, distinct, distinct_capabilities, validate_ids, is_object_schema, typed,
  new_application, check_libraries, register, register_all, with_extensions,
}

-- `Extension::typed` has made it.
pub data IsTyped (e : Extension) : Type 0 where
  made : (spec : ExtensionSpec) (input output : Value) → typed spec input output ≡ ok e → IsTyped e

ok_injective : {A : Type 0} (a b : A) → Result.ok a ≡ ok b → a ≡ b
ok_injective a b h = cc h

is_positive : (b : Bool) → not b ≡ false → b ≡ true
is_positive b h = ground arith

typed-valid_name : (e : Extension) → IsTyped e → valid_name e.name ≡ true
unfolding typed
typed-valid_name e (made spec input output h) =
    let (_, h1) = passed _ _ _ e h in
    let (named, h2) = passed (not (valid_name spec.name)) _ _ e h1 in
    let (_, h3) = passed _ _ _ e h2 in
    let (_, _, h4) = bind_ok (validate_ids spec.libraries) _ e h3 in
    let (_, h5) =
      passed
        (is_empty spec.required_capabilities
          || not (distinct_capabilities spec.required_capabilities))
        _ _ e h4 in
    let (_, h6) = passed (not (is_object_schema input) || not (is_object_schema output)) _ _ e h5 in
    ap (λ x. valid_name x.name) (sym (ok_injective _ e h6))
    ∙ is_positive (valid_name spec.name) named

-- The names in all the arms.
abbrev engine_names : List (List String × Capability) → List String
engine_names [] = []
engine_names ((names, c) ∷ rest) = names ++ engine_names rest

arm_of-listed :
    (a : String) (table : List (List String × Capability))
    → is_some (arm_of a table) ≡ true
    → one_of a (engine_names table) ≡ true
unfolding arm_of
arm_of-listed a [] h = cc h
arm_of-listed a ((names, c) ∷ rest) h = elim (Bool-cases (one_of a names)) [
  | inl here ↦ one_of-left a names (engine_names rest) here
  | inr other ↦ one_of-right a names (engine_names rest) (arm_of-listed a rest (rw other at h))
]

unfoldable invalid_name : String → Bool
unfolding valid_name
invalid_name name = not (valid_name name)

engine_names_invalid : all invalid_name (engine_names arms) ≡ true
unfolding invalid_name split
engine_names_invalid = refl

builtin_invalid : (a : String) → is_some (arm_of a arms) ≡ true → valid_name a ≡ false
unfolding invalid_name
builtin_invalid a h =
    false_of (valid_name a)
      (one_of-all invalid_name a (engine_names arms) engine_names_invalid (arm_of-listed a arms h))
  where
    false_of : (b : Bool) → not b ≡ true → b ≡ false
    false_of b k = ground arith

not_found :
    (a : String) (es : List Extension)
    → All IsTyped es
    → valid_name a ≡ false
    → find_extension a es ≡ none
unfolding find_extension
not_found a [] h k = refl
not_found a (e ∷ es) (t, h) k = elim (Bool-cases (e.name == a)) [
  | inl same ↦ absurd (
      false≢true
        (sym k ∙ ap valid_name (sym ((str_eq_iff e.name a).0 same)) ∙ typed-valid_name e t))
  | inr other ↦ rw (other, not_found a es h k)
]

module _ (read_profile : String → Result (Unit {0})) where
  register-Typed :
      (app next : Application) (e : Extension)
      → register read_profile app e ≡ ok next
      → (next.libraries ≡ app.libraries) × (next.extensions ≡ e ∷ app.extensions)
  unfolding register
  register-Typed app next e h =
      let (_, _, h1) = bind_ok (check_libraries read_profile app e.libraries) _ next h in
      let (_, h2) = passed _ _ _ next h1 in
      let same = sym (ok_injective _ next h2) in
      (ap (λ x. x.libraries) same, ap (λ x. x.extensions) same)

  register_all-Typed :
      (es : List Extension) (app last : Application)
      → All IsTyped es
      → All IsTyped app.extensions
      → register_all read_profile app es ≡ ok last
      → (last.libraries ≡ app.libraries) × All IsTyped last.extensions
  unfolding register_all
  register_all-Typed [] app last h k e =
      let same = sym (ok_injective app last e) in
      (ap (λ x. x.libraries) same, subst (λ x. All IsTyped x.extensions) (sym same) k)
  register_all-Typed (x ∷ es) app last (t, h) k e =
      let (next, now, rest) = bind_ok (register read_profile app x) _ last e in
      let (libraries, extensions) = register-Typed app next x now in
      let (l, es_typed) =
        register_all-Typed es next last h (subst (All IsTyped) (sym extensions) (t, k)) rest in
      (l ∙ libraries, es_typed)

-- Registering extensions that `typed` has made leaves the authorization of every operation of the engine as
-- it is without extensions: an extension cannot take the name of such an operation.
pub with_extensions-keeps :
    (read_profile : String → Result (Unit {0})) (configs : List String)
    (extensions : List Extension) (app : Application) (principal : Principal) (request : Request)
    → All IsTyped extensions
    → with_extensions read_profile configs extensions ≡ ok app
    → is_some (arm_of request.operation arms) ≡ true
    → authorize app principal request
      ≡ authorize record { libraries = configs; extensions = [] } principal request
unfolding with_extensions authorize new_application
with_extensions-keeps read_profile configs extensions app principal request typed_all h builtin =
    let (fresh, started, rest) = bind_ok (new_application configs) _ app h in
    let (libraries, all_typed) =
      register_all-Typed read_profile extensions fresh app typed_all (typed_of fresh started)
        rest in
    rw (
      libraries,
      libraries_of fresh started,
      not_found request.operation app.extensions all_typed
          (builtin_invalid request.operation builtin),
    )
  where
    fresh_is :
        (fresh : Application)
        → new_application configs ≡ ok fresh
        → record { libraries = configs; extensions = [] } ≡ fresh
    fresh_is fresh e =
        let (_, e1) = passed (not (distinct configs)) _ _ fresh e in
        let (_, e2) = passed (is_empty configs) _ _ fresh e1 in ok_injective _ fresh e2

    libraries_of :
        (fresh : Application) → new_application configs ≡ ok fresh → fresh.libraries ≡ configs
    libraries_of fresh e = ap (λ x. x.libraries) (sym (fresh_is fresh e))

    typed_of :
        (fresh : Application) → new_application configs ≡ ok fresh → All IsTyped fresh.extensions
    typed_of fresh e = subst (λ x. All IsTyped x.extensions) (fresh_is fresh e) tt
