-- ===== src/Recovery/Crash.antt =====
-- A crash at any point of one step of a replay of crates/llmbase-core/src/recovery.rs, and the same step
-- after it.
use mathlib.Core.Bool.{false≢true}
use llmbase.Prelude.{
  Bool-cases, ◌==◌, bytes_eqb_iff, bytes_PartialEq, ℕ, zero, suc, String, ◌≡◌, refl, ap, ◌∙◌, inl,
  inr, true, false, Option, List, arith,
}
use llmbase.Errors.{ok}
use llmbase.Recovery.{Entry, absent, unreadable, file, Disk, put, World}
use llmbase.Recovery.Replay.{Run, reads, is_absent, check_expected, install, remove}

-- A file system on which `n` more effects are carried out.
abbrev pub at_most : ℕ → Disk → World
at_most n disk = record { disk = disk; left = n }

-- What every path reads as.
abbrev pub SameDisk : Disk → Disk → Type 0
SameDisk a b = (q : List ℕ) → a q ≡ b q

pub path_same : (p : List ℕ) → (p == p) ≡ true
path_same p = (bytes_eqb_iff p p).1 refl

pub reads-eq : (e : Entry) (bytes : List ℕ) → reads e bytes ≡ true → e ≡ file bytes
reads-eq (file current) bytes h = ap file ((bytes_eqb_iff current bytes).0 h)
reads-eq absent bytes h = absurd (false≢true h)
reads-eq unreadable bytes h = absurd (false≢true h)

pub is_absent-eq : (e : Entry) → is_absent e ≡ true → e ≡ absent
is_absent-eq e h = ground arith

-- Putting what is there changes nothing.
pub put-same :
    (path : List ℕ) (e : Entry) (disk : Disk) → disk path ≡ e → SameDisk disk (put path e disk)
put-same path e disk h q = elim (Bool-cases (q == path)) [
  | inl here ↦ rw here (ap disk ((bytes_eqb_iff q path).0 here) ∙ h)
  | inr elsewhere ↦ rw elsewhere
]

-- Failed for want of effects or done, and then run again.
abbrev pub Resumes : (World → Run) → Disk → ℕ → ℕ → Disk → Type 0
Resumes step disk n m target =
    ((step (at_most m (step (at_most n disk)).1.disk)).0 ≡ ok tt)
    × SameDisk (step (at_most m (step (at_most n disk)).1.disk)).1.disk target

module _ (hash : List ℕ → String) where
  pub install-Resumes :
      (path bytes : List ℕ) (expected : Option String) (disk : Disk) (n m : ℕ)
      → check_expected hash disk path expected ≡ ok tt
      → Resumes (install hash path bytes expected) disk n (suc m) (put path (file bytes) disk)
  unfolding install
  install-Resumes path bytes expected disk n m fit = elim (Bool-cases (reads (disk path) bytes)) [
    | inl done ↦ rw (done, done) (refl, put-same path (file bytes) disk (reads-eq _ bytes done))
    | inr undone ↦ again n undone
  ]
    where
      again :
          (k : ℕ)
          → reads (disk path) bytes ≡ false
          → Resumes (install hash path bytes expected) disk k (suc m) (put path (file bytes) disk)
      again zero undone = rw (undone, fit, undone, fit) (refl, λ q. refl)
      again (suc k) undone = rw (undone, fit, path_same path, path_same bytes) (refl, λ q. refl)

  pub remove-Resumes :
      (path : List ℕ) (expected : Option String) (disk : Disk) (n m : ℕ)
      → check_expected hash disk path expected ≡ ok tt
      → Resumes (remove hash path expected) disk n (suc m) (put path absent disk)
  unfolding remove
  remove-Resumes path expected disk n m fit = elim (Bool-cases (is_absent (disk path))) [
    | inl done ↦ rw (done, done) (refl, put-same path absent disk (is_absent-eq _ done))
    | inr undone ↦ again n undone
  ]
    where
      again :
          (k : ℕ)
          → is_absent (disk path) ≡ false
          → Resumes (remove hash path expected) disk k (suc m) (put path absent disk)
      again zero undone = rw (undone, fit, undone, fit) (refl, λ q. refl)
      again (suc k) undone = rw (undone, fit, path_same path) (refl, λ q. refl)
