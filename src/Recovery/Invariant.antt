-- ===== src/Recovery/Invariant.antt =====
-- The table of write intents of crates/llmbase-core/src/recovery.rs under its operations.
use llmbase.Prelude.{ℕ, String, Bool, Option, List}
use llmbase.Errors.{Result}
use llmbase.Paths.{Roots}
use llmbase.Recovery.{Disk}
use llmbase.Recovery.Intents.{Store}
use llmbase.Recovery.Operations.{
  Source, SourceGuard, write_raw_asset, write_source_checked, delete_source, rename_source,
}
use llmbase.Recovery.OneIntent.{
  LeavesOne, write_raw_asset-LeavesOne, write_source_checked-LeavesOne, delete_source-LeavesOne,
  rename_source-LeavesOne,
}
use llmbase.Recovery.Settled.{AtMostOne}

-- Where at most one intent is pending, each of the four operations leaves none if it succeeds, and at most one
-- if it fails or the file system or the database fails under it at any point.
pub operations-LeaveOne :
    {Index Report : Type 0} (hash : List ℕ → String) (is_link : List ℕ → Bool) (roots : Roots)
    (none_done : Report) (sync : Disk → Index → Result Report × Index)
    (get : Index → String → Result Source) (parse : List ℕ → Result (Unit {0}))
    (lock : Result (Unit {0})) (uuid kind relative : String) (bytes : List ℕ)
    (expected : Option String) (guards : Option (List SourceGuard))
    (source_id destination expected_hash : String) (s : Store Index)
    → AtMostOne s
    → LeavesOne (
        write_raw_asset hash is_link roots none_done sync get parse lock uuid relative bytes
          expected s)
      × LeavesOne (
          write_source_checked hash is_link roots none_done sync get parse lock uuid kind relative
            bytes expected guards s)
      × LeavesOne (
          delete_source hash is_link roots none_done sync get parse lock uuid source_id
            expected_hash s)
      × LeavesOne (
          rename_source hash is_link roots none_done sync get parse lock uuid source_id destination
            expected_hash s)
operations-LeaveOne hash is_link roots none_done sync get parse lock uuid kind relative bytes
      expected guards source_id destination expected_hash s few =
    (
      write_raw_asset-LeavesOne hash is_link roots none_done sync get parse lock uuid relative bytes
          expected s few,
      write_source_checked-LeavesOne hash is_link roots none_done sync get parse lock uuid kind
          relative bytes expected guards s few,
      delete_source-LeavesOne hash is_link roots none_done sync get parse lock uuid source_id
          expected_hash s few,
      rename_source-LeavesOne hash is_link roots none_done sync get parse lock uuid source_id
          destination expected_hash s few,
    )
