-- ===== src/Recovery/Replay.antt =====
-- The replay of crates/llmbase-core/src/recovery.rs.
use llmbase.Prelude.{
  is_some, if◌then◌else◌, is_some, ◌==◌, ℕ, zero, suc, String, Bool, true, false, not, ◌||◌, Option,
  none, some, List, [], ◌∷◌, bytes_PartialEq, string_PartialEq,
}
use llmbase.Errors.{Error, io, conflict, Result, ok, err, ◌>>=◌, reject_if}
use llmbase.Paths.{Roots, root_for, scoped_path}
use llmbase.Recovery.{Entry, absent, unreadable, file, Disk, put, World, Intent}

abbrev pub Run : Type 0
Run = Result (Unit {0}) × World

-- `?` on a step that may have had effects.
infixl 5 ◌>>>◌
abbrev pub ◌>>>◌ : Run → (World → Run) → Run
(ok u, w) >>> next = next w
(err e, w) >>> next = (err e, w)

-- One effect, if the system still carries it out.
abbrev pub apply_left : (Disk → Disk) → ℕ → Disk → Run
apply_left f zero disk = (err io, record { disk = disk; left = 0 })
apply_left f (suc n) disk = (ok tt, record { disk = f disk; left = n })

abbrev pub effect : (Disk → Disk) → World → Run
effect f w = apply_left f w.left w.disk

abbrev pub changed_outside : Error
changed_outside = conflict "file changed outside the accepted revision; no overwrite performed"

abbrev pub expects : Option String → String → Bool
expects none found = false
expects (some wanted) found = wanted == found

-- `fs::read(path)` gives exactly these bytes.
abbrev pub reads : Entry → List ℕ → Bool
reads (file current) bytes = current == bytes
reads absent bytes = false
reads unreadable bytes = false

abbrev pub is_absent : Entry → Bool
is_absent absent = true
is_absent unreadable = false
is_absent (file bytes) = false

-- `ok_or_else(..)?`
abbrev pub needed : {A : Type 0} → Option A → String → World → (A → Run) → Run
needed none message w next = (err (conflict message), w)
needed (some a) message w next = next a

abbrev pub located : Result (List ℕ) → World → (List ℕ → Run) → Run
located (ok path) w next = next path
located (err e) w next = (err e, w)

-- `hash` is the SHA-256 of the crate sha2.
module _ (hash : List ℕ → String) where
  unfoldable pub check_entry : Entry → Option String → Result (Unit {0})
  check_entry (file bytes) expected =
      reject_if (not (expects expected (hash bytes))) changed_outside
  check_entry absent expected = reject_if (is_some expected) changed_outside
  check_entry unreadable expected = err io

  unfoldable pub check_expected : Disk → List ℕ → Option String → Result (Unit {0})
  unfolding check_entry
  check_expected disk path expected = check_entry (disk path) expected

  -- The stage file and the directories are no paths of the model: the effect is the rename into place, with the
  -- making of the directories before it and the flush of the directory behind it.
  unfoldable pub install : List ℕ → List ℕ → Option String → World → Run
  unfolding check_expected
  install path bytes expected w =
      if reads (w.disk path) bytes
      then (ok tt, w)
      else ((check_expected w.disk path expected, w) >>> effect (put path (file bytes)))

  unfoldable pub remove : List ℕ → Option String → World → Run
  unfolding check_expected
  remove path expected w =
      if is_absent (w.disk path)
      then (ok tt, w)
      else ((check_expected w.disk path expected, w) >>> effect (put path absent))

  -- `is_link` says which paths are symbolic links.
  module _ (is_link : List ℕ → Bool) (roots : Roots) where
    abbrev pub locate : String → String → Result (List ℕ)
    locate kind relative = root_for roots kind >>= λ root. scoped_path is_link root relative

    abbrev pub write_step : Intent → List ℕ → World → Run
    write_step i path w =
        needed i.content "write intent missing content" w λ bytes. install path bytes i.expected w

    -- The destination is written before the source is removed.
    abbrev pub rename_step : Intent → List ℕ → World → Run
    rename_step i path w = needed i.destination "rename intent missing destination" w λ destination.
        located (locate i.kind destination) w λ dest.
          needed i.content "rename intent missing content" w
            λ bytes. install dest bytes none w >>> remove path i.expected

    abbrev pub on_path : Intent → List ℕ → World → Run
    on_path i path w =
        if i.operation == "write" || i.operation == "write_asset"
        then write_step i path w
        else if i.operation == "delete"
        then remove path i.expected w
        else if i.operation == "rename"
        then rename_step i path w
        else (err (conflict "unknown pending write operation"), w)

    -- The loop's body of `recover_locked`.
    unfoldable pub replay_one : Intent → World → Run
    unfolding install remove
    replay_one i w = located (locate i.kind i.relative) w λ path. on_path i path w

    unfoldable pub replay_all : List Intent → World → Run
    unfolding replay_one
    replay_all [] w = (ok tt, w)
    replay_all (i ∷ rest) w = replay_one i w >>> replay_all rest
