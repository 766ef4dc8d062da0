-- ===== src/Recovery/Journal.antt =====
-- `recover_journal_locked` of crates/llmbase-core/src/recovery.rs: the replay of intents that carry both
-- exact images of a file.
use llmbase.Prelude.{
  if◌then◌else◌, ◌==◌, string_PartialEq, bytes_PartialEq, concat, ℕ, zero, suc, String, Bool, true,
  false, not, Option, none, some, List, [], ◌∷◌, ◌++◌,
}
use llmbase.Errors.{Error, conflict, scope, io, sql, Result, ok, err, ◌>>=◌, reject_if}
use llmbase.Paths.{Roots, scoped_path}
use llmbase.Recovery.{Entry, absent, unreadable, file, Disk, put, World}
use llmbase.Recovery.Replay.{Run, effect, reads}

pub record JournalIntent : Type 0 where
  pub id : String
  pub root : String
  pub relative : String
  pub before : Option (List ℕ)
  pub after : List ℕ

pub record JournalRow : Type 0 where
  pub intent : JournalIntent
  pub applied : Bool

-- The file system with the effects that it still carries out, and the table of one library.
pub record Shelf : Type 0 where
  pub world : World
  pub rows : List JournalRow

abbrev pub JournalRun : Type 0
JournalRun = Result (Unit {0}) × Shelf

abbrev pub insert_left : ℕ → Disk → JournalIntent → List JournalRow → JournalRun
insert_left zero disk i rows =
    (err sql, record { world = record { disk = disk; left = 0 }; rows = rows })
insert_left (suc n) disk i rows = (
  ok tt,
  record {
    world = record { disk = disk; left = n };
    rows = rows ++ record { intent = i; applied = false } ∷ [];
  },
)

-- INSERT, which commits by itself. The hashes that it stores beside the images are not read.
unfoldable pub record_journal : JournalIntent → Shelf → JournalRun
record_journal i s = insert_left s.world.left s.world.disk i s.rows

-- UPDATE .. SET status='applied' WHERE id=?1
unfoldable pub mark_rows : String → List JournalRow → List JournalRow
mark_rows id [] = []
mark_rows id (r ∷ rs) =
    (if r.intent.id == id then record r { applied = true } else r) ∷ mark_rows id rs

abbrev pub mark_left : ℕ → Disk → String → List JournalRow → JournalRun
mark_left zero disk id rows =
    (err sql, record { world = record { disk = disk; left = 0 }; rows = rows })
mark_left (suc n) disk id rows =
    (ok tt, record { world = record { disk = disk; left = n }; rows = mark_rows id rows })

-- The commit is an effect of its own.
unfoldable pub mark_journal_applied : String → Shelf → JournalRun
unfolding mark_rows
mark_journal_applied id s = mark_left s.world.left s.world.disk id s.rows

-- The image that a file has: `None` where there is no file.
abbrev pub is_image : Entry → Option (List ℕ) → Bool
is_image (file current) (some bytes) = current == bytes
is_image absent none = true
is_image _ _ = false

abbrev pub is_readable : Entry → Bool
is_readable unreadable = false
is_readable absent = true
is_readable (file bytes) = true

abbrev pub journal_conflict : String → Error
journal_conflict relative =
    conflict
      (concat "journaled write to " (concat relative " changed outside the captured before-image"))

-- From the reading of the destination to its replacement.
unfoldable pub settle_file : JournalIntent → List ℕ → World → Run
settle_file i dest w =
    if not (is_readable (w.disk dest))
    then (err io, w)
    else if reads (w.disk dest) i.after
    then (ok tt, w)
    else if is_image (w.disk dest) i.before
    then effect (put dest (file i.after)) w
    else (err (journal_conflict i.relative), w)

abbrev pub on_shelf : Run → List JournalRow → (Shelf → JournalRun) → JournalRun
on_shelf (ok u, w) rows next = next (record { world = w; rows = rows })
on_shelf (err e, w) rows next = (err e, record { world = w; rows = rows })

infixl 5 ◌>=>◌
abbrev pub ◌>=>◌ : JournalRun → (Shelf → JournalRun) → JournalRun
(ok u, s) >=> next = next s
(err e, s) >=> next = (err e, s)

-- The journal knows a root more than the sources do.
pub record JournalRoots : Type 0 where
  pub sources : Roots
  pub meta : List ℕ

unfoldable pub journal_root : JournalRoots → String → Result (List ℕ)
journal_root roots name =
    if name == "raw"
    then ok roots.sources.raw
    else if name == "concepts"
    then ok roots.sources.concepts
    else if name == "outputs"
    then ok roots.sources.outputs
    else if name == "meta"
    then ok roots.meta
    else err scope

abbrev pub pending : List JournalRow → List JournalIntent
pending [] = []
pending (r ∷ rs) = let rest = pending rs in if r.applied then rest else r.intent ∷ rest

-- `is_link` says which paths are symbolic links, and `reserved` what `reserved_destination` gives, which keeps
-- paths for the engine. `lock_file` is what comes of the file's lock: its path, its opening, which makes the
-- lock file and fails where the directory is gone, and the lock itself, which another process may hold.
module _ (is_link : List ℕ → Bool) (reserved : List ℕ → Result Bool)
    (lock_file : List ℕ → Result (Unit {0})) (roots : JournalRoots) where
  abbrev pub destination : JournalIntent → Result (List ℕ)
  destination i = journal_root roots i.root >>= λ root.
      scoped_path is_link root i.relative >>= λ dest.
      reserved dest >>= λ kept. reject_if kept scope >>= λ _. lock_file dest >>= λ _. ok dest

  abbrev pub at_destination : Result (List ℕ) → JournalIntent → Shelf → JournalRun
  at_destination (err e) i s = (err e, s)
  at_destination (ok dest) i s =
      on_shelf (settle_file i dest s.world) s.rows (mark_journal_applied i.id)

  -- The loop's body.
  unfoldable pub journal_one : JournalIntent → Shelf → JournalRun
  unfolding settle_file mark_journal_applied
  journal_one i s = at_destination (destination i) i s

  abbrev pub journal_all : List JournalIntent → Shelf → JournalRun
  journal_all [] s = (ok tt, s)
  journal_all (i ∷ rest) s = journal_one i s >=> journal_all rest

  -- The intents are read before the loop.
  unfoldable pub recover_journal_locked : Shelf → JournalRun
  unfolding journal_one
  recover_journal_locked s = journal_all (pending s.rows) s
