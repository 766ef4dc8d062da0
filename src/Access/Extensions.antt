-- ===== src/Access/Extensions.antt =====
-- The registry of extensions and what their handlers may call: crates/llmbase-core/src/extensions.rs, and
-- `Application::new` of crates/llmbase-core/src/application.rs.
use Prim.Native.String.{len}
use llmbase.Prelude.{
  leb, within, is_some, some_and, is_empty, any, all, ◌==◌, nat_PartialEq, string_PartialEq,
  bytes_PartialEq, codes, one_of, ℕ, String, Bool, true, false, not, ◌&&◌, ◌||◌, none, some, List,
  [], ◌∷◌,
}
use llmbase.Utf8.{split}
use llmbase.Json.{Value, get_str}
use llmbase.Errors.{
  invalid, conflict, scope, capability, model, Result, ok, err, ◌>>=◌, ◌>>◌, reject_if,
}
use llmbase.Paths.{validate_id}
use llmbase.Access.{Principal, Request, Extension, Application, find_extension, authorize}
use llmbase.Access.Operations.{Capability, read, write, model, private, Capabilities}

pub record ExtensionSpec : Type 0 where
  pub name : String
  pub contract_version : ℕ
  pub libraries : List String
  pub required_capabilities : List Capability

abbrev lowercase : ℕ → Bool
lowercase c = within b'a' b'z' c

abbrev segment_char : ℕ → Bool
segment_char c = lowercase c || within b'0' b'9' c || c == b'_' || c == b'-'

abbrev valid_segment : List ℕ → Bool
valid_segment [] = false
valid_segment (c ∷ cs) = lowercase c && all segment_char (c ∷ cs)

abbrev reserved_head : List (List ℕ) → Bool
reserved_head [] = false
reserved_head (segment ∷ rest) = one_of segment (codes "llmbase" ∷ codes "core" ∷ [])

abbrev two_segments : List (List ℕ) → Bool
two_segments (a ∷ b ∷ rest) = true
two_segments _ = false

unfoldable pub valid_name : String → Bool
unfolding split
valid_name name =
    let segments = split b'.' (codes name) in
    leb (len name) 64
    && two_segments segments
    && not (reserved_head segments)
    && all valid_segment segments

abbrev pub distinct : List String → Bool
distinct [] = true
distinct (x ∷ xs) = not (one_of x xs) && distinct xs

abbrev pub same_capability : Capability → Capability → Bool
same_capability read read = true
same_capability write write = true
same_capability model model = true
same_capability private private = true
same_capability _ _ = false

abbrev pub includes : List Capability → Capability → Bool
includes needed c = any (same_capability c) needed

abbrev pub distinct_capabilities : List Capability → Bool
distinct_capabilities [] = true
distinct_capabilities (c ∷ cs) = not (includes cs c) && distinct_capabilities cs

abbrev pub validate_ids : List String → Result (Unit {0})
validate_ids [] = ok tt
validate_ids (id ∷ ids) = validate_id id >> validate_ids ids

abbrev pub is_object_schema : Value → Bool
is_object_schema schema = some_and (get_str schema "type") (λ t. t == "object")

-- `Extension::typed`, with the schemas that the crate schemars makes of the two types.
unfoldable pub typed : ExtensionSpec → Value → Value → Result Extension
unfolding valid_name
typed spec input_schema output_schema =
    reject_if (not (spec.contract_version == 1)) (invalid "unsupported extension contract version")
    >> (reject_if (not (valid_name spec.name))
          (invalid "extension name must be a non-reserved lowercase namespace.name (max 64 bytes)")
        >> (reject_if (is_empty spec.libraries || not (distinct spec.libraries))
              (invalid "extension needs distinct explicit library IDs")
            >> (validate_ids spec.libraries
                >> (reject_if
                      (is_empty spec.required_capabilities
                        || not (distinct_capabilities spec.required_capabilities))
                      (invalid "extension needs distinct required capabilities")
                    >> (reject_if
                          (not (is_object_schema input_schema)
                            || not (is_object_schema output_schema))
                          (invalid "extension input and output schemas must be objects")
                        >> ok record {
                          name = spec.name;
                          libraries = spec.libraries;
                          required_capabilities = spec.required_capabilities;
                        })))))

-- `Application::new`, on the ids of the configurations
unfoldable pub new_application : List String → Result Application
new_application configs =
    reject_if (not (distinct configs)) (conflict "duplicate library configuration")
    >> (reject_if (is_empty configs) (invalid "at least one library is required")
        >> ok record { libraries = configs; extensions = [] })

abbrev pub library_config : Application → String → Result (Unit {0})
library_config app id = reject_if (not (one_of id app.libraries)) scope

-- `read_profile` is `LanguageProfile::from_config` on a library's settings.
module _ (read_profile : String → Result (Unit {0})) where
  abbrev pub check_libraries : Application → List String → Result (Unit {0})
  check_libraries app [] = ok tt
  check_libraries app (id ∷ ids) =
      library_config app id >> (read_profile id >> check_libraries app ids)

  unfoldable pub register : Application → Extension → Result Application
  unfolding find_extension
  register app extension =
      check_libraries app extension.libraries
      >> (reject_if (is_some (find_extension extension.name app.extensions))
            (conflict "duplicate extension operation")
          >> ok record app { extensions = extension ∷ app.extensions })

  unfoldable pub register_all : Application → List Extension → Result Application
  unfolding register
  register_all app [] = ok app
  register_all app (extension ∷ rest) = register app extension >>= λ next. register_all next rest

  unfoldable pub with_extensions : List String → List Extension → Result Application
  unfolding new_application register_all
  with_extensions configs extensions =
      new_application configs >>= λ app. register_all app extensions

abbrev pub capabilities_of : List Capability → Capabilities
capabilities_of needed = record {
  may_read = includes needed read;
  may_write = includes needed write;
  may_model = includes needed model;
  may_private = includes needed private;
}

pub record ExtensionContext : Type 0 where
  pub library_id : String
  pub principal : Principal

-- The context in which `execute_extension` calls a handler, for a request that is
-- authorized and not cancelled. Its principal gets only the library of the request and the capabilities that the
-- extension declares.
unfoldable pub context_of : Application → Principal → Request → Result ExtensionContext
unfolding authorize
context_of app principal request =
    authorize app principal request >> elim (find_extension request.operation app.extensions) [
      | none ↦ err (capability "not a registered extension")
      | some extension ↦ ok record {
        library_id = request.library_id;
        principal = record {
          id = principal.id;
          libraries = request.library_id ∷ [];
          capabilities = capabilities_of extension.required_capabilities;
        };
      }
    ]

abbrev pub exposed : List String
exposed =
    "get" ∷ "list" ∷ "search" ∷ "evidence" ∷ "doctor" ∷ "kb_stats" ∷ "index" ∷ "source_write"
    ∷ "source_delete" ∷ "source_rename" ∷ []

-- `ExtensionContext::execute` up to the call of the service, when it is not cancelled.
unfoldable pub context_execute : Application → ExtensionContext → String → Value → Result Request
unfolding authorize
context_execute app context operation args =
    let request : Request = record {
      library_id = context.library_id;
      operation = operation;
      args = args;
    } in
    reject_if (not (one_of operation exposed))
      (capability "service is not exposed to v1 extensions")
    >> (authorize app context.principal request >> ok request)
