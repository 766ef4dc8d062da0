-- ===== src/Recovery/Tests.antt =====
-- The theorems on crates/llmbase-core/src/recovery.rs at a concrete intent.
use llmbase.Recovery.Intents.{Store, pending_intents, recover_locked}
use llmbase.Recovery.Operations.{
  Source, perform, write_raw_asset, write_source_checked, delete_source, rename_source,
}
use llmbase.Recovery.OneIntent.{LeavesOne}
use llmbase.Recovery.Invariant.{operations-LeaveOne}
use llmbase.Recovery.Atomic.{restarted}
use llmbase.Recovery.Restart.{Recovered, perform-Atomic}
use mathlib.Core.Bool.{false≢true}
use llmbase.Errors.{not_found, sql, Result, ok, err}
use llmbase.Prelude.{
  bytes_eqb_iff, ℕ, String, ◌≡◌, refl, ◌≢◌, ◌⊎◌, Bool, false, none, some, List, [], ◌∷◌, arith,
}
use llmbase.Paths.{Roots, root_for, scoped_path}
use llmbase.Recovery.{absent, file, Disk, put, Intent}
use llmbase.Recovery.Replay.{check_entry, replay_one}
use llmbase.Recovery.Crash.{Resumes}
use llmbase.Recovery.Journal.{
  JournalIntent, Shelf, JournalRoots, journal_root, destination, recover_journal_locked,
}
use llmbase.Recovery.Edits.{Edited, recover_journal_locked-Edited}
use llmbase.Recovery.Journaled.{Acknowledged, journal_one-completes}
use llmbase.Recovery.Resume.{Accepted, renaming, replay_one-Resumes}

-- A text that tells the sample's contents apart.
abbrev length_hash : List ℕ → String
length_hash [] = "empty"
length_hash (b ∷ bs) = "full"

abbrev none_reserved : List ℕ → Result Bool
none_reserved _ = ok false

abbrev lock_free : List ℕ → Result (Unit {0})
lock_free _ = ok tt

abbrev no_links : List ℕ → Bool
no_links _ = false

abbrev sample_roots : Roots
sample_roots = record { raw = b'r' ∷ []; concepts = b'c' ∷ []; outputs = b'o' ∷ [] }

abbrev old_path : List ℕ
old_path = b'r' ∷ b'/' ∷ b'a' ∷ []

abbrev new_path : List ℕ
new_path = b'r' ∷ b'/' ∷ b'b' ∷ []

abbrev sample_disk : Disk
sample_disk = put old_path (file (7 ∷ [])) (λ _. absent)

abbrev rename_intent : Intent
rename_intent = record {
  id = "i1";
  kind = "raw";
  relative = "a";
  operation = "rename";
  expected = some "full";
  content = some (7 ∷ []);
  destination = some "b";
}

paths_differ : old_path ≢ new_path
paths_differ e = false≢true ((bytes_eqb_iff old_path new_path).1 e)

rename_intent-Accepted :
    Accepted length_hash no_links sample_roots sample_disk rename_intent
      (put old_path absent (put new_path (file (7 ∷ [])) sample_disk))
unfolding root_for scoped_path check_entry
rename_intent-Accepted =
    renaming old_path new_path (7 ∷ []) (7 ∷ []) "b" refl refl refl refl refl paths_differ refl refl
      refl

replay_one-Resumes_example :
    Resumes
      (replay_one length_hash no_links sample_roots rename_intent)
      sample_disk
      1
      2
      (put old_path absent (put new_path (file (7 ∷ [])) sample_disk))
replay_one-Resumes_example =
    replay_one-Resumes length_hash no_links sample_roots rename_intent sample_disk
      (put old_path absent (put new_path (file (7 ∷ [])) sample_disk)) 1 0 rename_intent-Accepted

abbrev journal_intent : JournalIntent
journal_intent = record {
  id = "w1";
  root = "raw";
  relative = "a";
  before = some (7 ∷ []);
  after = 8 ∷ 9 ∷ [];
}

abbrev journal_shelf : Shelf
journal_shelf = record {
  world = record { disk = sample_disk; left = 2 };
  rows = record { intent = journal_intent; applied = false } ∷ [];
}

abbrev journal_roots : JournalRoots
journal_roots = record { sources = sample_roots; meta = b'm' ∷ [] }

recover_journal_locked-Edited_example :
    Edited no_links none_reserved lock_free journal_roots old_path
      (journal_intent ∷ [])
      (sample_disk old_path)
      ((recover_journal_locked no_links none_reserved lock_free journal_roots
          journal_shelf).1.world.disk
        old_path)
recover_journal_locked-Edited_example =
    recover_journal_locked-Edited no_links none_reserved lock_free journal_roots journal_shelf
      old_path

journal_destination :
    destination no_links none_reserved lock_free journal_roots journal_intent ≡ ok old_path
unfolding journal_root scoped_path
journal_destination = refl

journal_one-completes_example :
    Acknowledged no_links none_reserved lock_free journal_roots journal_intent old_path sample_disk
      journal_shelf.rows 1 0
journal_one-completes_example =
    journal_one-completes no_links none_reserved lock_free journal_roots journal_intent old_path
      sample_disk journal_shelf.rows 1 0 journal_destination refl

abbrev no_index : Disk → Unit {0} → Result (Unit {0}) × Unit {0}
no_index disk index = (ok tt, tt)

abbrev no_source : Unit {0} → String → Result Source
no_source index id = err (not_found id)

abbrev any_document : List ℕ → Result (Unit {0})
any_document bytes = ok tt

abbrev sample_store : Store (Unit {0})
sample_store = record { world = record { disk = sample_disk; left = 2 }; rows = []; index = tt }

operations-LeaveOne_example :
    LeavesOne (
      write_raw_asset length_hash no_links sample_roots tt no_index no_source any_document
        (ok tt)
        "i2"
        "b.original"
        (9 ∷ [])
        none
        sample_store)
    × LeavesOne (
        write_source_checked length_hash no_links sample_roots tt no_index no_source any_document
          (ok tt)
          "i2"
          "raw"
          "b.original"
          (9 ∷ [])
          none
          none
          sample_store)
    × LeavesOne (
        delete_source length_hash no_links sample_roots tt no_index no_source any_document
          (ok tt)
          "i2"
          "s1"
          "full"
          sample_store)
    × LeavesOne (
        rename_source length_hash no_links sample_roots tt no_index no_source any_document
          (ok tt)
          "i2"
          "s1"
          "c"
          "full"
          sample_store)
unfolding pending_intents
operations-LeaveOne_example =
    operations-LeaveOne length_hash no_links sample_roots tt no_index no_source any_document (ok tt)
      "i2" "raw" "b.original" (9 ∷ []) none none "s1" "c" "full" sample_store (omega arith)

perform-Atomic_example :
    (perform length_hash no_links sample_roots tt no_index no_source any_document
        (ok tt)
        "i1"
        rename_intent
        sample_store
      ≡ (err sql, sample_store))
    ⊎ Recovered length_hash no_links sample_roots tt no_index
        (put old_path absent (put new_path (file (7 ∷ [])) sample_disk))
        (recover_locked length_hash no_links sample_roots tt no_index (
          restarted 3
            (perform length_hash no_links sample_roots tt no_index no_source any_document
              (ok tt)
              "i1"
              rename_intent
              sample_store).1))
unfolding pending_intents
perform-Atomic_example =
    perform-Atomic length_hash no_links sample_roots tt no_index no_source any_document (ok tt) "i1"
      rename_intent (put old_path absent (put new_path (file (7 ∷ [])) sample_disk)) sample_store 0
      refl rename_intent-Accepted (λ index. refl)
