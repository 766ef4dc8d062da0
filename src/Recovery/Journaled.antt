-- ===== src/Recovery/Journaled.antt =====
-- A replay of the journal of crates/llmbase-core/src/recovery.rs that is broken off and run again.
use llmbase.Prelude.{
  Bool-cases, ◌==◌, string_PartialEq, ℕ, zero, suc, String, ◌≡◌, refl, inl, inr, Bool, true, false,
  Option, List, [], ◌∷◌,
}
use llmbase.Errors.{Result, ok}
use llmbase.Recovery.{Entry, absent, unreadable, file, Disk, put}
use llmbase.Recovery.Replay.{reads}
use llmbase.Recovery.Crash.{at_most, SameDisk, path_same, reads-eq, put-same}
use llmbase.Recovery.Journal.{
  JournalIntent, JournalRow, Shelf, mark_rows, mark_journal_applied, is_image, is_readable,
  settle_file, JournalRoots, destination, journal_one,
}

-- What is left of a table and its files, with `m` effects to come.
abbrev pub reopened : ℕ → Shelf → Shelf
reopened m s = record { world = at_most m s.world.disk; rows = s.rows }

mark_rows_idem :
    (id : String) (rows : List JournalRow) → mark_rows id (mark_rows id rows) ≡ mark_rows id rows
unfolding mark_rows
mark_rows_idem id [] = refl
mark_rows_idem id (r ∷ rs) = elim (Bool-cases (r.intent.id == id)) [
  | inl this ↦ rw (this, mark_rows_idem id rs, this)
  | inr other ↦ rw (other, mark_rows_idem id rs, other)
]

is_image-readable : (e : Entry) (b : Option (List ℕ)) → is_image e b ≡ true → is_readable e ≡ true
is_image-readable absent b h = refl
is_image-readable unreadable b h = cc h
is_image-readable (file bytes) b h = refl

module _ (is_link : List ℕ → Bool) (reserved : List ℕ → Result Bool)
    (lock_file : List ℕ → Result (Unit {0})) (roots : JournalRoots) where
  -- Replayed with `n` effects, and then again with two to spare.
  abbrev pub Acknowledged : JournalIntent → List ℕ → Disk → List JournalRow → ℕ → ℕ → Type 0
  Acknowledged i dest disk rows n m =
      let start : Shelf = record { world = at_most n disk; rows = rows } in
      let first = journal_one is_link reserved lock_file roots i start in
      let second =
        journal_one is_link reserved lock_file roots i (reopened (suc (suc m)) first.1) in
      (second.0 ≡ ok tt)
      × SameDisk second.1.world.disk (put dest (file i.after) disk)
      × (second.1.rows ≡ mark_rows i.id rows)

  -- A pending intent whose destination is allowed and its lock obtained both times, and whose file is still
  -- its before-image, replayed until its effects run out and then again with two effects to spare, is
  -- acknowledged: the file is exactly its after-image, every other path, the engine's own lock and stage files
  -- aside, reads as before, and the intent's row is marked as applied and no other row is touched.
  pub journal_one-completes :
      (i : JournalIntent) (dest : List ℕ) (disk : Disk) (rows : List JournalRow) (n m : ℕ)
      → destination is_link reserved lock_file roots i ≡ ok dest
      → is_image (disk dest) i.before ≡ true
      → Acknowledged i dest disk rows n m
  unfolding journal_one settle_file mark_journal_applied
  journal_one-completes i dest disk rows n m where_to fit =
      elim (Bool-cases (reads (disk dest) i.after)) [
        | inl done ↦ already n done
        | inr undone ↦ again n undone
      ]
    where
      readable : is_readable (disk dest) ≡ true
      readable = is_image-readable (disk dest) i.before fit

      again : (k : ℕ) → reads (disk dest) i.after ≡ false → Acknowledged i dest disk rows k m
      again zero undone =
          rw (where_to, readable, undone, fit, readable, undone, fit) (refl, (λ q. refl), refl)
      again (suc zero) undone =
          rw (where_to, readable, undone, fit, path_same dest, path_same i.after)
            (refl, (λ q. refl), refl)
      again (suc (suc k)) undone =
          rw (where_to, readable, undone, fit, path_same dest, path_same i.after)
            (refl, (λ q. refl), mark_rows_idem i.id rows)

      already : (k : ℕ) → reads (disk dest) i.after ≡ true → Acknowledged i dest disk rows k m
      already zero done =
          rw (where_to, readable, done, readable, done)
            (refl, put-same dest (file i.after) disk (reads-eq _ _ done), refl)
      already (suc k) done =
          rw (where_to, readable, done, readable, done)
            (refl, put-same dest (file i.after) disk (reads-eq _ _ done), mark_rows_idem i.id rows)
