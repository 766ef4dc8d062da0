-- ===== src/Recovery/Operations.antt =====
-- The operations of crates/llmbase-core/src/recovery.rs that record intents.
use mathlib.Core.List.{reverse}
use llmbase.Utf8.{strip_prefix}
use llmbase.Prelude.{
  ltb, if◌then◌else◌, is_some, length, ◌==◌, nat_PartialEq, string_PartialEq, codes, ℕ, String,
  Bool, true, false, not, ◌&&◌, ◌||◌, Option, none, some, List, [], ◌∷◌,
}
use llmbase.Errors.{invalid, conflict, Result, ok, err, ◌>>=◌, ◌>>◌, reject_if}
use llmbase.Paths.{Roots, scoped_path}
use llmbase.Recovery.{Disk, Intent}
use llmbase.Recovery.Replay.{reads, check_expected, locate}
use llmbase.Recovery.Intents.{Store, Stored, ◌>=◌, record_intent, sync_locked, recover_locked}

-- What the operations read of a `Source`.
pub record Source : Type 0 where
  pub kind : String
  pub rel_path : String
  pub revision : ℕ
  pub content_hash : String
  pub deleted : Bool
  pub content : List ℕ

pub record SourceGuard : Type 0 where
  pub source_id : String
  pub revision : ℕ
  pub content_hash : String

-- `unchanged` and the id of the intent, if one was recorded
pub record AssetWrite : Type 0 where
  pub path : String
  pub content_hash : String
  pub unchanged : Bool
  pub intent_id : Option String

-- `?` on a step that leaves the store as it is
abbrev pub checked :
    {Index A B : Type 0} → Result A → Store Index → (A → Stored Index B) → Stored Index B
checked (err e) s next = (err e, s)
checked (ok a) s next = next a

abbrev pub ends_with_original : String → Bool
ends_with_original relative =
    is_some (strip_prefix (reverse (codes ".original")) (reverse (codes relative)))

abbrev pub same_input : Source → SourceGuard → Bool
same_input source guard = not (
    source.deleted
    || not (source.revision == guard.revision)
    || not (source.content_hash == guard.content_hash))

abbrev pub guards_of : Option (List SourceGuard) → List SourceGuard
guards_of none = []
guards_of (some guards) = guards

-- `get` is `Library::get(id, None, true)`, `parse` is `Document::parse`, `lock` what acquiring the writer's
-- lock gives, and `uuid` the id that is drawn.
module _ {Index Report : Type 0} (hash : List ℕ → String) (is_link : List ℕ → Bool) (roots : Roots)
    (none_done : Report) (sync : Disk → Index → Result Report × Index)
    (get : Index → String → Result Source) (parse : List ℕ → Result (Unit {0}))
    (lock : Result (Unit {0})) (uuid : String) where
  abbrev pub recover : Store Index → Stored Index Report
  recover = recover_locked hash is_link roots none_done sync

  abbrev pub find : String → String → Result (List ℕ)
  find = locate hash is_link roots

  -- The intent is recorded, then replayed.
  unfoldable pub perform : Intent → Store Index → Stored Index Report
  unfolding record_intent recover_locked
  perform i s = record_intent i s >= λ u s1. recover s1

  -- The first steps of every operation.
  abbrev pub locked : {A : Type 0} → Store Index → (Store Index → Stored Index A) → Stored Index A
  locked s next = checked lock s λ u. recover s >= λ report s1. next s1

  unfoldable pub write_raw_asset :
      String → List ℕ → Option String → Store Index → Stored Index AssetWrite
  unfolding perform scoped_path check_expected
  write_raw_asset relative bytes expected s =
      checked
        (reject_if (not (ends_with_original relative) || ltb 33554432 (length bytes))
            (invalid "opaque originals require .original and at most32 MiB")
          >> scoped_path is_link roots.raw relative)
        s
        λ path. locked s λ s1.
          if reads (s1.world.disk path) bytes
          then (
            ok record {
              path = relative;
              content_hash = hash bytes;
              unchanged = true;
              intent_id = none;
            },
            s1,
          )
          else checked (check_expected hash s1.world.disk path expected) s1 λ u.
            perform
              record {
                id = uuid;
                kind = "raw";
                relative = relative;
                operation = "write_asset";
                expected = expected;
                content = some bytes;
                destination = none;
              }
              s1
            >= λ report s2. (
              ok record {
                path = relative;
                content_hash = hash bytes;
                unchanged = false;
                intent_id = some uuid;
              },
              s2,
            )

  unfoldable pub check_guards : List SourceGuard → Store Index → Result (Unit {0})
  unfolding check_expected
  check_guards [] s = ok tt
  check_guards (guard ∷ guards) s = get s.index guard.source_id >>= λ source.
      reject_if (not (same_input source guard))
        (conflict "input source changed after draft creation")
      >> (find source.kind source.rel_path >>= λ path.
          check_expected hash s.world.disk path (some guard.content_hash) >> check_guards guards s)

  unfoldable pub write_source_checked :
      String
      → String
      → List ℕ
      → Option String
      → Option (List SourceGuard)
      → Store Index
      → Stored Index Report
  unfolding perform check_guards check_expected sync_locked
  write_source_checked kind relative bytes expected guards s = checked (parse bytes) s λ u.
      locked s λ s1. checked (check_guards (guards_of guards) s1) s1 λ v.
        checked (find kind relative) s1 λ path.
          if is_some guards && reads (s1.world.disk path) bytes
          then sync_locked hash is_link roots none_done sync s1
          else checked (check_expected hash s1.world.disk path expected) s1 λ w.
            perform
              record {
                id = uuid;
                kind = kind;
                relative = relative;
                operation = "write";
                expected = expected;
                content = some bytes;
                destination = none;
              }
              s1

  unfoldable pub delete_source : String → String → Store Index → Stored Index Report
  unfolding perform check_expected
  delete_source source_id expected_hash s = locked s λ s1.
      checked (get s1.index source_id) s1 λ source.
        checked
          (reject_if source.deleted (conflict "source already deleted")
            >> (reject_if (not (source.content_hash == expected_hash))
                  (conflict "source revision changed")
                >> find source.kind source.rel_path))
          s1
          λ path. checked (check_expected hash s1.world.disk path (some expected_hash)) s1 λ v.
            perform
              record {
                id = uuid;
                kind = source.kind;
                relative = source.rel_path;
                operation = "delete";
                expected = some expected_hash;
                content = none;
                destination = none;
              }
              s1

  unfoldable pub rename_source : String → String → String → Store Index → Stored Index Report
  unfolding perform check_expected
  rename_source source_id destination expected_hash s = locked s λ s1.
      checked (get s1.index source_id) s1 λ source.
        checked
          (reject_if (source.deleted || not (source.content_hash == expected_hash))
              (conflict "source revision changed")
            >> find source.kind source.rel_path)
          s1
          λ path. checked (find source.kind destination) s1 λ dest.
            checked
              (check_expected hash s1.world.disk path (some expected_hash)
                >> check_expected hash s1.world.disk dest none)
              s1
              λ v.
                perform
                  record {
                    id = uuid;
                    kind = source.kind;
                    relative = source.rel_path;
                    operation = "rename";
                    expected = some expected_hash;
                    content = some source.content;
                    destination = some destination;
                  }
                  s1
