-- ===== src/Access/Operations.antt =====
-- The table of capabilities in `Application::authorize` of crates/llmbase-core/src/application.rs, arm by
-- arm.
use llmbase.Prelude.{
  Bool, true, false, String, Option, none, some, List, [], ◌∷◌, one_of, string_PartialEq,
  if◌then◌else◌,
}

pub data Capability : Type 0 where
  read write model private : Capability

-- A set of capabilities.
pub record Capabilities : Type 0 where
  pub may_read : Bool
  pub may_write : Bool
  pub may_model : Bool
  pub may_private : Bool

abbrev pub contains : Capabilities → Capability → Bool
contains cs read = cs.may_read
contains cs write = cs.may_write
contains cs model = cs.may_model
contains cs private = cs.may_private

abbrev pub only_read : Capabilities
only_read = record { may_read = true; may_write = false; may_model = false; may_private = false }

abbrev pub web_writes : List String
web_writes =
    "web_write_article_delete" ∷ "web_write_wiki_clean" ∷ "web_write_taxonomy_update"
    ∷ "web_write_trail_save" ∷ "web_write_trail_delete" ∷ []

abbrev pub library_writes : List String
library_writes =
    "index" ∷ "kb_index" ∷ "source_write" ∷ "source_delete" ∷ "source_rename" ∷ "job_enqueue"
    ∷ "job_cancel" ∷ "job_retry" ∷ "draft_apply" ∷ "answer_save" ∷ "taxonomy_set" ∷ "relation_add"
    ∷ "relation_remove" ∷ "maintenance_repair" ∷ []

abbrev pub compat_writes : List String
compat_writes =
    "rebuild_metadata" ∷ "lint_fix" ∷ "job_run_one" ∷ "compat_compile_write" ∷ "compat_compile_mark"
    ∷ "compat_compile_reset" ∷ "compat_compile_rebuild" ∷ "compat_compile_backlinks"
    ∷ "compat_pipeline_append" ∷ "compat_pipeline_cache_put" ∷ "compat_pipeline_cache_clear" ∷ []

abbrev pub model_calls : List String
model_calls =
    "compile" ∷ "answer_promote" ∷ "vector_build" ∷ "ask" ∷ "plugin_ingest" ∷ "taxonomy_generate"
    ∷ "xici_generate" ∷ "entities_generate" ∷ "legacy_query" ∷ "legacy_compile" ∷ []

abbrev pub transcription_calls : List String
transcription_calls = "transcription_ask" ∷ []

abbrev pub transcription_reads : List String
transcription_reads = "transcription_prepare" ∷ []

abbrev pub ingest_writes : List String
ingest_writes =
    "compat_kb_raw_write" ∷ "ingest_text" ∷ "ingest_url" ∷ "ingest_existing" ∷ "ingest_asset" ∷ []

abbrev pub job_reads : List String
job_reads = "job_get" ∷ "job_list" ∷ "job_events" ∷ []

abbrev pub compat_and_web_reads : List String
compat_and_web_reads =
    "compat_compile_find" ∷ "compat_compile_existing" ∷ "compat_compile_read_raw"
    ∷ "compat_compile_load_index" ∷ "compat_compile_sources" ∷ "compat_pipeline_events"
    ∷ "compat_pipeline_tail" ∷ "compat_pipeline_state" ∷ "compat_pipeline_cache_get" ∷ "web_config"
    ∷ "web_articles" ∷ "web_article" ∷ "web_aliases" ∷ "web_collections" ∷ "web_sources"
    ∷ "web_source" ∷ "web_stats" ∷ "web_health" ∷ "web_wiki_export" ∷ "web_taxonomy" ∷ "web_xici"
    ∷ "web_entities" ∷ "web_export_article" ∷ "web_export_tag" ∷ "web_export_graph" ∷ "web_trails"
    ∷ "web_worker_status" ∷ "web_search" ∷ "web_lint" ∷ []

abbrev pub web_catalog_reads : List String
web_catalog_reads = "web_tones" ∷ "web_refs_plugins" ∷ []

abbrev pub library_reads : List String
library_reads =
    "compat_search" ∷ "compat_kb_get" ∷ "compat_kb_list" ∷ "compat_kb_sections" ∷ "compat_kb_stats"
    ∷ "compat_kb_raw_list" ∷ "compat_kb_health" ∷ "compat_kb_visibility" ∷ "compat_kb_raw_hash"
    ∷ "compat_kb_trails" ∷ "compat_search_documents" ∷ "kb_search" ∷ "kb_search_raw" ∷ "search"
    ∷ "kb_get" ∷ "get" ∷ "kb_list" ∷ "list" ∷ "kb_stats" ∷ "evidence" ∷ "draft_get" ∷ "answer_get"
    ∷ "hybrid_search" ∷ "aliases" ∷ "backlinks" ∷ "backlinks_compat" ∷ "graph" ∷ "taxonomy"
    ∷ "entities" ∷ "doctor" ∷ []

abbrev pub export_reads : List String
export_reads = "export_article" ∷ "export_tag" ∷ "export_graph" ∷ "lint" ∷ "xici" ∷ []

abbrev pub arms : List (List String × Capability)
arms =
    (web_writes, write)
    ∷ (library_writes, write)
    ∷ (compat_writes, write)
    ∷ (model_calls, model)
    ∷ (transcription_calls, model)
    ∷ (transcription_reads, read)
    ∷ (ingest_writes, write)
    ∷ (job_reads, private)
    ∷ (compat_and_web_reads, read)
    ∷ (web_catalog_reads, read)
    ∷ (library_reads, read)
    ∷ (export_reads, read)
    ∷ []

-- The first arm that has the name.
unfoldable pub arm_of : String → List (List String × Capability) → Option Capability
arm_of operation [] = none
arm_of operation ((names, capability) ∷ rest) =
    let later = arm_of operation rest in if one_of operation names then some capability else later

abbrev pub ingests : List String
ingests = "ingest_text" ∷ "ingest_url" ∷ "ingest_existing" ∷ "ingest_asset" ∷ []

-- Operations that consider existing articles, private ones included.
abbrev pub merges : List String
merges =
    "compile" ∷ "answer_promote" ∷ "vector_build" ∷ "draft_get" ∷ "draft_apply" ∷ "plugin_ingest"
    ∷ "taxonomy_generate" ∷ "xici_generate" ∷ "entities_generate" ∷ "legacy_compile" ∷ []

abbrev pub writing_merges : List String
writing_merges =
    "compile" ∷ "answer_promote" ∷ "vector_build" ∷ "plugin_ingest" ∷ "taxonomy_generate"
    ∷ "xici_generate" ∷ "entities_generate" ∷ "legacy_compile" ∷ []

abbrev pub reading_calls : List String
reading_calls =
    "ask" ∷ "transcription_ask" ∷ "legacy_query" ∷ "answer_save" ∷ "taxonomy_set" ∷ "relation_add"
    ∷ "relation_remove" ∷ "lint_fix" ∷ []

abbrev pub private_web : List String
private_web = "web_worker_status" ∷ "web_write_trail_save" ∷ "web_write_trail_delete" ∷ []
