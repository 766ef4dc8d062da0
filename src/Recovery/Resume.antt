-- ===== src/Recovery/Resume.antt =====
-- A replay of crates/llmbase-core/src/recovery.rs that crashes, and the replay that completes it.
use llmbase.Prelude.{
  Bool-cases, ◌==◌, bytes_eqb_iff, bytes_PartialEq, ℕ, zero, suc, String, ◌≡◌, refl, sym, ◌≢◌, ◌⊎◌,
  inl, inr, Bool, false, Option, none, some, List,
}
use llmbase.Errors.{ok}
use llmbase.Recovery.{absent, file, Disk, put, World, Intent}
use llmbase.Recovery.Replay.{
  Run, ◌>>>◌, check_entry, check_expected, install, remove, locate, replay_one,
}
use llmbase.Paths.{Roots}
use llmbase.Recovery.Crash.{path_same, Resumes, install-Resumes, remove-Resumes}

pub path_differs : (p q : List ℕ) → p ≢ q → (p == q) ≡ false
path_differs p q h = elim (Bool-cases (p == q)) [
  | inl e ↦ absurd (h ((bytes_eqb_iff p q).0 e))
  | inr e ↦ e
]

module _ (hash : List ℕ → String) where
  -- The two effects of a rename, in the source's order.
  abbrev pub move : List ℕ → List ℕ → List ℕ → Option String → World → Run
  move path dest bytes expected w = install hash dest bytes none w >>> remove hash path expected

  pub move-Resumes :
      (path dest bytes old : List ℕ) (expected : Option String) (disk : Disk) (n m : ℕ)
      → path ≢ dest
      → disk path ≡ file old
      → check_entry hash (file old) expected ≡ ok tt
      → disk dest ≡ absent
      → Resumes
          (move path dest bytes expected)
          disk
          n
          (suc (suc m))
          (put path absent (put dest (file bytes) disk))
  unfolding install remove check_expected check_entry
  move-Resumes path dest bytes old expected disk n m apart source fit free = after n
    where
      pd : (path == dest) ≡ false
      pd = path_differs path dest apart

      dp : (dest == path) ≡ false
      dp = path_differs dest path (λ e. apart (sym e))

      after :
          (k : ℕ)
          → Resumes
              (move path dest bytes expected)
              disk
              k
              (suc (suc m))
              (put path absent (put dest (file bytes) disk))
      after zero = rw (free, free, pd, source, fit) (refl, λ q. refl)
      after (suc zero) =
          rw (free, pd, source, fit, path_same dest, path_same bytes, pd, source, fit)
            (refl, λ q. refl)
      after (suc (suc k)) =
          rw (free, pd, source, fit, dp, path_same dest, path_same bytes, path_same path)
            (refl, λ q. refl)

  module _ (is_link : List ℕ → Bool) (roots : Roots) where
    -- What the operations of the library have checked when they record an intent: the paths lie in their
    -- roots, and the files are as expected. The last argument is the file system that is wanted.
    pub data Accepted (disk : Disk) (i : Intent) : Disk → Type 0 where
      writing :
          (path bytes : List ℕ)
          → (i.operation ≡ "write") ⊎ (i.operation ≡ "write_asset")
          → locate hash is_link roots i.kind i.relative ≡ ok path
          → i.content ≡ some bytes
          → check_expected hash disk path i.expected ≡ ok tt
          → Accepted disk i (put path (file bytes) disk)
      deleting :
          (path : List ℕ)
          → i.operation ≡ "delete"
          → locate hash is_link roots i.kind i.relative ≡ ok path
          → check_expected hash disk path i.expected ≡ ok tt
          → Accepted disk i (put path absent disk)
      renaming :
          (path dest bytes old : List ℕ) (destination : String)
          → i.operation ≡ "rename"
          → locate hash is_link roots i.kind i.relative ≡ ok path
          → i.destination ≡ some destination
          → locate hash is_link roots i.kind destination ≡ ok dest
          → i.content ≡ some bytes
          → path ≢ dest
          → disk path ≡ file old
          → check_entry hash (file old) i.expected ≡ ok tt
          → disk dest ≡ absent
          → Accepted disk i (put path absent (put dest (file bytes) disk))

    -- A replay of an accepted intent that is broken off after any number of its effects, by a crash or an
    -- error of the system, and then run again on what it has left, with two effects to spare, succeeds, and
    -- every path then reads as was wanted: a write is complete, a deleted file is gone, a renamed one is at
    -- its destination and no longer at its source.
    pub replay_one-Resumes :
        (i : Intent) (disk target : Disk) (n m : ℕ)
        → Accepted disk i target
        → Resumes (replay_one hash is_link roots i) disk n (suc (suc m)) target
    unfolding replay_one
    replay_one-Resumes i disk target n m (writing path bytes (inl op) where_to content fit) =
        rw (where_to, op, content) (install-Resumes hash path bytes i.expected disk n (suc m) fit)
    replay_one-Resumes i disk target n m (writing path bytes (inr op) where_to content fit) =
        rw (where_to, op, content) (install-Resumes hash path bytes i.expected disk n (suc m) fit)
    replay_one-Resumes i disk target n m (deleting path op where_to fit) =
        rw (where_to, op) (remove-Resumes hash path i.expected disk n (suc m) fit)
    replay_one-Resumes i disk target n m
          (renaming path dest bytes old destination op where_to named to content apart source fit
            free) =
        rw (where_to, op, named, to, content)
          (move-Resumes path dest bytes old i.expected disk n m apart source fit free)
