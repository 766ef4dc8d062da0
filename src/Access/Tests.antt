-- ===== src/Access/Tests.antt =====
-- The theorems on crates/llmbase-core/src/application.rs at concrete requests.
use llmbase.Access.Effects.{changes, shows_private, uses_model}
use llmbase.Access.Opening.{EndsAt, Waited, open_operation_library, open_operation_library-EndsAt}
use llmbase.Access.Extensions.{
  ExtensionSpec, valid_name, typed, with_extensions, ExtensionContext, context_of, exposed,
  context_execute,
}
use llmbase.Access.Registry.{IsTyped, made, with_extensions-keeps}
use llmbase.Access.Confined.{context_execute-Confined}
use llmbase.Paths.{validate_id}
use llmbase.Utf8.{split}
use llmbase.Prelude.{
  string_PartialEq, one_of, ℕ, zero, suc, String, ◌≡◌, refl, ◌↔◌, Bool, true, false, some, [], ◌∷◌,
}
use llmbase.Json.{Value, string, object, end, field, is_object}
use llmbase.Errors.{busy, Result, ok, err}
use llmbase.Access.{
  local, public, Request, Extension, Application, find_extension, authorize_builtin, authorize,
}
use llmbase.Access.Operations.{write, Capabilities, only_read, arm_of}
use llmbase.Access.Reading.{public_operations, public-reads}
use llmbase.Access.Writing.{authorize_builtin-held}
use llmbase.Access.Monotone.{Extends, authorize_mono}

abbrev sample_app : Application
sample_app = record {
  libraries = "notes" ∷ [];
  extensions =
      record { name = "wiki.reindex"; libraries = "notes" ∷ []; required_capabilities = write ∷ [] }
      ∷ [];
}

abbrev get_request : Request
get_request = record { library_id = "notes"; operation = "get"; args = object end }

public-reads_example : (authorize sample_app (public "notes") get_request ≡ ok tt) ↔ (
    (get_request.library_id ≡ "notes")
    × (one_of get_request.library_id sample_app.libraries ≡ true)
    × (is_object get_request.args ≡ true)
    × (one_of get_request.operation public_operations ≡ true))
unfolding find_extension
public-reads_example = public-reads sample_app "notes" get_request refl

abbrev all_capabilities : Capabilities
all_capabilities = (local "notes").capabilities

-- A repair with no mode, which mends the library.
authorize_builtin-held_example :
    (changes "maintenance_repair" (object end) ≡ true → all_capabilities.may_write ≡ true)
    × (uses_model "maintenance_repair" (object end) ≡ true → all_capabilities.may_model ≡ true)
    × (shows_private "maintenance_repair" (object end) ≡ true → all_capabilities.may_private ≡ true)
unfolding authorize_builtin
authorize_builtin-held_example =
    authorize_builtin-held all_capabilities "maintenance_repair" (object end) refl

plain_repair_changes : changes "maintenance_repair" (object end) ≡ true
unfolding changes
plain_repair_changes = refl

local-Extends : Extends only_read all_capabilities
local-Extends = record {
  reads = λ h. h;
  writes = λ h. refl;
  models = λ h. refl;
  privates = λ h. refl;
}

authorize_mono_example : authorize sample_app (local "notes") get_request ≡ ok tt
unfolding authorize
authorize_mono_example =
    authorize_mono sample_app (public "notes") (local "notes") get_request local-Extends
      (λ library h. h) refl

abbrev reindex_spec : ExtensionSpec
reindex_spec = record {
  name = "wiki.reindex";
  contract_version = 1;
  libraries = "notes" ∷ [];
  required_capabilities = write ∷ [];
}

abbrev object_schema : Value
object_schema = object (field "type" (string "object") end)

abbrev reindex : Extension
reindex = record {
  name = "wiki.reindex";
  libraries = "notes" ∷ [];
  required_capabilities = write ∷ [];
}

abbrev any_profile : String → Result (Unit {0})
any_profile library = ok tt

reindex-IsTyped : IsTyped reindex
unfolding typed valid_name validate_id split
reindex-IsTyped = made reindex_spec object_schema object_schema refl

with_extensions-keeps_example :
    authorize sample_app (public "notes") get_request
    ≡ authorize record { libraries = "notes" ∷ []; extensions = [] } (public "notes") get_request
unfolding with_extensions arm_of
with_extensions-keeps_example =
    with_extensions-keeps any_profile ("notes" ∷ []) (reindex ∷ []) sample_app (public "notes")
      get_request (reindex-IsTyped, tt) refl refl

abbrev reindex_request : Request
reindex_request = record { library_id = "notes"; operation = "wiki.reindex"; args = object end }

abbrev index_request : Request
index_request = record { library_id = "notes"; operation = "index"; args = object end }

abbrev reindex_context : ExtensionContext
reindex_context = record {
  library_id = "notes";
  principal = record {
    id = "local";
    libraries = "notes" ∷ [];
    capabilities = record {
      may_read = false;
      may_write = true;
      may_model = false;
      may_private = false;
    };
  };
}

context_execute-Confined_example :
    (one_of index_request.operation exposed ≡ true)
    × (index_request.library_id ≡ reindex_request.library_id)
    × (authorize sample_app (local "notes") index_request ≡ ok tt)
unfolding context_of context_execute
context_execute-Confined_example =
    context_execute-Confined sample_app (local "notes") reindex_context reindex_request
      index_request "index" (object end) refl refl

-- Another writer is there at the first two attempts.
abbrev busy_twice : ℕ → Result (Unit {0})
busy_twice zero = err busy
busy_twice (suc zero) = err busy
busy_twice (suc (suc n)) = ok tt

abbrev never_cancelled : ℕ → Bool
never_cancelled attempt = false

open_operation_library-EndsAt_example :
    EndsAt never_cancelled busy_twice 0 100 2 (some (ok tt)) × Waited never_cancelled busy_twice 0 2
unfolding open_operation_library
open_operation_library-EndsAt_example = open_operation_library-EndsAt never_cancelled busy_twice
