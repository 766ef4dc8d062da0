-- ===== src/Access.antt =====
-- `Application::authorize` of crates/llmbase-core/src/application.rs and the extensions' share of it in
-- crates/llmbase-core/src/extensions.rs: who may call which operation on which library.
pub mod Operations
mod Reading
mod Writing
mod Monotone
pub mod Extensions
mod Registry
mod Confined
mod Opening
mod Effects
mod Tests
use llmbase.Prelude.{
  if◌then◌else◌, is_some, some_and, unwrap_or, any, all, ◌==◌, string_PartialEq, concat, codes,
  one_of, String, Bool, true, false, not, ◌&&◌, ◌||◌, Option, none, some, List, [], ◌∷◌, ◌++◌,
}
use llmbase.Json.{Value, get, is_object, get_str, is_true}
use llmbase.Errors.{
  Error, invalid, scope, capability, model, Result, ok, err, ◌>>=◌, ◌>>◌, reject_if,
}
use llmbase.Utf8.{strip_prefix}
use llmbase.Access.Operations.{
  Capability, model, Capabilities, contains, only_read, arms, arm_of, ingests, merges,
  writing_merges, reading_calls, private_web,
}

pub record Principal : Type 0 where
  pub id : String
  pub libraries : List String
  pub capabilities : Capabilities

-- `Principal::local` and `Principal::public`
abbrev pub local : String → Principal
local library = record {
  id = "local";
  libraries = library ∷ [];
  capabilities = record { may_read = true; may_write = true; may_model = true; may_private = true };
}

abbrev pub public : String → Principal
public library = record { id = "public"; libraries = library ∷ []; capabilities = only_read }

pub record Request : Type 0 where
  pub library_id : String
  pub operation : String
  pub args : Value

pub record Extension : Type 0 where
  pub name : String
  pub libraries : List String
  pub required_capabilities : List Capability

-- The libraries that are configured and the registered extensions, with distinct names.
pub record Application : Type 0 where
  pub libraries : List String
  pub extensions : List Extension

unfoldable pub find_extension : String → List Extension → Option Extension
find_extension name [] = none
find_extension name (e ∷ es) =
    let later = find_extension name es in if e.name == name then some e else later

-- `Extension::authorize`
unfoldable pub extension_authorize : Extension → Principal → String → Result (Unit {0})
extension_authorize extension principal library =
    reject_if
      (not (one_of library extension.libraries)
        || not (all (contains principal.capabilities) extension.required_capabilities))
      scope

abbrev pub starts_with : String → String → Bool
starts_with text prefix = is_some (strip_prefix (codes prefix) (codes text))

-- `args.get(key) == Some(&json!(true))`
abbrev pub is_set : Value → String → Bool
is_set args key = some_and (get args key) is_true

abbrev pub capability_of : String → Option Capability → Result Capability
capability_of operation (some c) = ok c
capability_of operation none =
    err (capability (concat "unknown or unimplemented operation: " operation))

unfoldable pub required_capability : String → Value → Result Capability
unfolding arm_of
required_capability operation args =
    if operation == "maintenance_repair" && some_and (get_str args "mode") (λ m. m == "deep_lint")
    then ok model
    else capability_of operation (arm_of operation arms)

module _ (cs : Capabilities) (operation : String) (args : Value) where
  unfoldable pub ingest_guard : Bool
  ingest_guard = one_of operation ingests && (not cs.may_read || not cs.may_private)

  unfoldable pub repair_guard : Bool
  repair_guard =
      let mode = unwrap_or (get_str args "mode") "auto_fix" in
      operation == "maintenance_repair"
      && (not cs.may_read
          || (not (one_of mode ("clean" ∷ "heal_slugs" ∷ [])) && not cs.may_model)
          || (is_set args "private_inputs" && not cs.may_private))

  unfoldable pub merge_guard : Bool
  merge_guard =
      one_of operation merges
      && (not cs.may_read
          || not cs.may_private
          || (one_of operation writing_merges && not cs.may_write))

  unfoldable pub reading_guard : Bool
  reading_guard = one_of operation reading_calls && not cs.may_read

  unfoldable pub bad_query_mode : Bool
  bad_query_mode =
      operation == "legacy_query"
      && not (one_of (unwrap_or (get_str args "mode") "basic") ("basic" ∷ "deep" ∷ []))

  unfoldable pub query_write_guard : Bool
  query_write_guard =
      operation == "legacy_query"
      && any (is_set args) ("file_back" ∷ "promote" ∷ [])
      && (not cs.may_write || not cs.may_private)

  unfoldable pub web_write_guard : Bool
  web_write_guard = starts_with operation "web_write_" && not cs.may_read

  unfoldable pub job_guard : Bool
  job_guard = starts_with operation "job_" && not cs.may_private

  unfoldable pub compat_guard : Bool
  compat_guard =
      (starts_with operation "compat_search"
        || starts_with operation "compat_kb_"
        || starts_with operation "compat_compile_"
        || starts_with operation "compat_pipeline_"
        || one_of operation private_web)
      && not cs.may_private

  -- What follows the table, in the source's order.
  unfoldable pub guards : Result (Unit {0})
  unfolding ingest_guard repair_guard merge_guard reading_guard bad_query_mode query_write_guard
      web_write_guard job_guard compat_guard
  guards =
      reject_if ingest_guard scope
      >> (reject_if repair_guard scope
          >> (reject_if merge_guard scope
              >> (reject_if reading_guard scope
                  >> (reject_if bad_query_mode (invalid "legacy query mode must be basic or deep")
                      >> (reject_if query_write_guard scope
                          >> (reject_if web_write_guard scope
                              >> (reject_if job_guard scope >> reject_if compat_guard scope)))))))

  -- The operations of the engine itself.
  unfoldable pub authorize_builtin : Result (Unit {0})
  unfolding guards required_capability
  authorize_builtin =
      required_capability operation args >>= λ c. reject_if (not (contains cs c)) scope >> guards

-- `Application::authorize`
unfoldable pub authorize : Application → Principal → Request → Result (Unit {0})
unfolding authorize_builtin find_extension extension_authorize
authorize app principal request =
    reject_if
      (not (one_of request.library_id principal.libraries)
        || not (one_of request.library_id app.libraries))
      scope
    >> (reject_if (not (is_object request.args)) (invalid "operation arguments must be an object")
        >> elim (find_extension request.operation app.extensions) [
          | some extension ↦ extension_authorize extension principal request.library_id
          | none ↦ authorize_builtin principal.capabilities request.operation request.args
        ])
