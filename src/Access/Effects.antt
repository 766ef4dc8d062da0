-- ===== src/Access/Effects.antt =====
-- What the operations in crates/llmbase-core/src/application.rs do: which of them write, call a model or show
-- what is private.
use llmbase.Errors.{ok, is_ok}
use llmbase.Prelude.{
  unwrap_or, all, ◌==◌, string_PartialEq, one_of, String, ◌≡◌, refl, ap, Bool, true, false, not,
  ◌&&◌, ◌||◌, List, [], ◌∷◌, arith,
}
use llmbase.Json.{Value, get_str}
use llmbase.Access.Operations.{Capabilities}
use llmbase.Access.{is_set, authorize_builtin}
use llmbase.Access.Reading.{one_of-all, is_admitted}

-- The operations that change what a library stores, whatever their arguments.
abbrev pub changing : List String
changing =
    "web_write_article_delete" ∷ "web_write_wiki_clean" ∷ "web_write_taxonomy_update"
    ∷ "web_write_trail_save" ∷ "web_write_trail_delete" ∷ "index" ∷ "kb_index" ∷ "source_write"
    ∷ "source_delete" ∷ "source_rename" ∷ "job_enqueue" ∷ "job_cancel" ∷ "job_retry" ∷ "draft_apply"
    ∷ "answer_save" ∷ "taxonomy_set" ∷ "relation_add" ∷ "relation_remove" ∷ "rebuild_metadata"
    ∷ "lint_fix" ∷ "job_run_one" ∷ "compat_compile_write" ∷ "compat_compile_mark"
    ∷ "compat_compile_reset" ∷ "compat_compile_rebuild" ∷ "compat_compile_backlinks"
    ∷ "compat_pipeline_append" ∷ "compat_pipeline_cache_put" ∷ "compat_pipeline_cache_clear"
    ∷ "compat_kb_raw_write" ∷ "ingest_text" ∷ "ingest_url" ∷ "ingest_existing" ∷ "ingest_asset"
    ∷ "compile" ∷ "answer_promote" ∷ "vector_build" ∷ "plugin_ingest" ∷ "taxonomy_generate"
    ∷ "xici_generate" ∷ "entities_generate" ∷ "legacy_compile" ∷ []

abbrev pub model_using : List String
model_using =
    "compile" ∷ "answer_promote" ∷ "vector_build" ∷ "ask" ∷ "plugin_ingest" ∷ "taxonomy_generate"
    ∷ "xici_generate" ∷ "entities_generate" ∷ "legacy_query" ∷ "legacy_compile"
    ∷ "transcription_ask" ∷ []

-- The operations on jobs, on drafts and on whole libraries as they are.
abbrev pub confined : List String
confined =
    "job_enqueue" ∷ "job_cancel" ∷ "job_retry" ∷ "job_run_one" ∷ "job_get" ∷ "job_list"
    ∷ "job_events" ∷ "draft_get" ∷ "draft_apply" ∷ "compile" ∷ "answer_promote" ∷ "vector_build"
    ∷ "plugin_ingest" ∷ "taxonomy_generate" ∷ "xici_generate" ∷ "entities_generate"
    ∷ "legacy_compile" ∷ "ingest_text" ∷ "ingest_url" ∷ "ingest_existing" ∷ "ingest_asset"
    ∷ "web_worker_status" ∷ "web_write_trail_save" ∷ "web_write_trail_delete" ∷ "compat_search"
    ∷ "compat_search_documents" ∷ "compat_kb_raw_write" ∷ "compat_kb_get" ∷ "compat_kb_list"
    ∷ "compat_kb_sections" ∷ "compat_kb_stats" ∷ "compat_kb_raw_list" ∷ "compat_kb_health"
    ∷ "compat_kb_visibility" ∷ "compat_kb_raw_hash" ∷ "compat_kb_trails" ∷ "compat_compile_write"
    ∷ "compat_compile_mark" ∷ "compat_compile_reset" ∷ "compat_compile_rebuild"
    ∷ "compat_compile_backlinks" ∷ "compat_compile_find" ∷ "compat_compile_existing"
    ∷ "compat_compile_read_raw" ∷ "compat_compile_load_index" ∷ "compat_compile_sources"
    ∷ "compat_pipeline_append" ∷ "compat_pipeline_cache_put" ∷ "compat_pipeline_cache_clear"
    ∷ "compat_pipeline_events" ∷ "compat_pipeline_tail" ∷ "compat_pipeline_state"
    ∷ "compat_pipeline_cache_get" ∷ []

-- `maintenance_repair` mends the library but for its mode "deep_lint", and without a mode it mends all; the
-- modes "clean" and "heal_slugs" alone call no model.
abbrev pub repair_mode : Value → String
repair_mode args = unwrap_or (get_str args "mode") "auto_fix"

-- A query that files its answer back, or promotes it to an article.
abbrev pub files_back : Value → Bool
files_back args = is_set args "file_back" || is_set args "promote"

-- What the operation does with these arguments: change the library, call a model, show what is private.
unfoldable pub changes : String → Value → Bool
changes operation args =
    one_of operation changing
    || (operation == "maintenance_repair" && not (repair_mode args == "deep_lint"))
    || (operation == "legacy_query" && files_back args)

unfoldable pub uses_model : String → Value → Bool
uses_model operation args =
    one_of operation model_using
    || (operation == "maintenance_repair"
        && not (repair_mode args == "clean")
        && not (repair_mode args == "heal_slugs"))

unfoldable pub shows_private : String → Value → Bool
shows_private operation args =
    one_of operation confined
    || (operation == "maintenance_repair" && is_set args "private_inputs")
    || (operation == "legacy_query" && files_back args)

abbrev held_or_refused : Bool → Capabilities → Value → String → Bool
held_or_refused held cs args operation = held || not (is_admitted cs args operation)

abbrev caps : Bool → Bool → Bool → Bool → Capabilities
caps r w m v = record { may_read = r; may_write = w; may_model = m; may_private = v }

-- Each list is run through for every set of capabilities.
pub changing_checked :
    (r w m v : Bool) (args : Value) → all (held_or_refused w (caps r w m v) args) changing ≡ true
unfolding is_admitted authorize_builtin
changing_checked r true m v args = refl
changing_checked true false true true args = refl
changing_checked true false true false args = refl
changing_checked true false false true args = refl
changing_checked true false false false args = refl
changing_checked false false true true args = refl
changing_checked false false true false args = refl
changing_checked false false false true args = refl
changing_checked false false false false args = refl

pub model_checked :
    (r w m v : Bool) (args : Value) → all (held_or_refused m (caps r w m v) args) model_using ≡ true
unfolding is_admitted authorize_builtin
model_checked r w true v args = refl
model_checked r w false v args = refl

pub confined_checked :
    (r w m v : Bool) (args : Value) → all (held_or_refused v (caps r w m v) args) confined ≡ true
unfolding is_admitted authorize_builtin
confined_checked r w m true args = refl
confined_checked true true true false args = refl
confined_checked true true false false args = refl
confined_checked true false true false args = refl
confined_checked true false false false args = refl
confined_checked false true true false args = refl
confined_checked false true false false args = refl
confined_checked false false true false args = refl
confined_checked false false false false args = refl

pub held_by :
    (held : Bool) (cs : Capabilities) (args : Value) (operation : String) (names : List String)
    → all (held_or_refused held cs args) names ≡ true
    → authorize_builtin cs operation args ≡ ok tt
    → one_of operation names ≡ true
    → held ≡ true
unfolding is_admitted
held_by held cs args operation names checked h listed =
    left held (is_admitted cs args operation)
      (one_of-all (held_or_refused held cs args) operation names checked listed) (ap is_ok h)
  where
    left : (a b : Bool) → (a || not b) ≡ true → b ≡ true → a ≡ true
    left a b e k = ground arith
