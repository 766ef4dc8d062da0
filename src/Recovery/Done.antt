-- ===== src/Recovery/Done.antt =====
-- A replay of crates/llmbase-core/src/recovery.rs that succeeds, and what replays cost.
use llmbase.Prelude.{
  if◌then◌else◌, Bool-cases, ◌==◌, string_PartialEq, bytes_PartialEq, ℕ, zero, suc, ◌+◌, ◌≤◌,
  String, ◌≡◌, refl, ◌≢◌, inl, inr, Bool, true, false, ◌||◌, Option, none, some, List, arith,
}
use llmbase.Errors.{conflict, Result, ok, err}
use llmbase.Paths.{Roots}
use llmbase.Recovery.{absent, file, Disk, put, World, Intent}
use llmbase.Recovery.Replay.{
  Run, ◌>>>◌, apply_left, effect, reads, is_absent, needed, located, check_entry, check_expected,
  install, remove, locate, replay_one,
}
use llmbase.Recovery.Crash.{at_most, SameDisk, reads-eq, is_absent-eq, put-same}
use llmbase.Recovery.Resume.{path_differs, move, Accepted, writing, deleting, renaming}

-- If the step succeeds, every path reads as was wanted.
abbrev pub Finishes : (World → Run) → Disk → ℕ → Disk → Type 0
Finishes step disk n target =
    (step (at_most n disk)).0 ≡ ok tt → SameDisk (step (at_most n disk)).1.disk target

module _ (hash : List ℕ → String) where
  install-Finishes :
      (path bytes : List ℕ) (expected : Option String) (disk : Disk) (n : ℕ)
      → check_expected hash disk path expected ≡ ok tt
      → Finishes (install hash path bytes expected) disk n (put path (file bytes) disk)
  unfolding install
  install-Finishes path bytes expected disk n fit = elim (Bool-cases (reads (disk path) bytes)) [
    | inl done ↦ λ h. rw done (put-same path (file bytes) disk (reads-eq _ bytes done))
    | inr undone ↦ written n undone
  ]
    where
      written :
          (k : ℕ)
          → reads (disk path) bytes ≡ false
          → Finishes (install hash path bytes expected) disk k (put path (file bytes) disk)
      written zero undone h = cc (rw (undone, fit) at h)
      written (suc k) undone h = rw (undone, fit) (λ q. refl)

  remove-Finishes :
      (path : List ℕ) (expected : Option String) (disk : Disk) (n : ℕ)
      → check_expected hash disk path expected ≡ ok tt
      → Finishes (remove hash path expected) disk n (put path absent disk)
  unfolding remove
  remove-Finishes path expected disk n fit = elim (Bool-cases (is_absent (disk path))) [
    | inl done ↦ λ h. rw done (put-same path absent disk (is_absent-eq _ done))
    | inr undone ↦ removed n undone
  ]
    where
      removed :
          (k : ℕ)
          → is_absent (disk path) ≡ false
          → Finishes (remove hash path expected) disk k (put path absent disk)
      removed zero undone h = cc (rw (undone, fit) at h)
      removed (suc k) undone h = rw (undone, fit) (λ q. refl)

  move-Finishes :
      (path dest bytes old : List ℕ) (expected : Option String) (disk : Disk) (n : ℕ)
      → path ≢ dest
      → disk path ≡ file old
      → check_entry hash (file old) expected ≡ ok tt
      → disk dest ≡ absent
      → Finishes
          (move hash path dest bytes expected)
          disk
          n
          (put path absent (put dest (file bytes) disk))
  unfolding install remove check_expected check_entry
  move-Finishes path dest bytes old expected disk n apart source fit free = after n
    where
      pd : (path == dest) ≡ false
      pd = path_differs path dest apart

      after :
          (k : ℕ)
          → Finishes
              (move hash path dest bytes expected)
              disk
              k
              (put path absent (put dest (file bytes) disk))
      after zero h = cc (rw free at h)
      after (suc zero) h = cc (rw (free, pd, source, fit) at h)
      after (suc (suc k)) h = rw (free, pd, source, fit) (λ q. refl)

  module _ (is_link : List ℕ → Bool) (roots : Roots) where
    pub replay_one-Finishes :
        (i : Intent) (disk target : Disk) (n : ℕ)
        → Accepted hash is_link roots disk i target
        → Finishes (replay_one hash is_link roots i) disk n target
    unfolding replay_one
    replay_one-Finishes i disk target n (writing path bytes (inl op) where_to content fit) =
        rw (where_to, op, content) (install-Finishes path bytes i.expected disk n fit)
    replay_one-Finishes i disk target n (writing path bytes (inr op) where_to content fit) =
        rw (where_to, op, content) (install-Finishes path bytes i.expected disk n fit)
    replay_one-Finishes i disk target n (deleting path op where_to fit) =
        rw (where_to, op) (remove-Finishes path i.expected disk n fit)
    replay_one-Finishes i disk target n
          (renaming path dest bytes old destination op where_to named to content apart source fit
            free) =
        rw (where_to, op, named, to, content)
          (move-Finishes path dest bytes old i.expected disk n apart source fit free)

-- What is left of the effects.
abbrev Costs : ℕ → World → Run → Type 0
Costs cost w r = w.left ≤ r.1.left + cost

effect-Costs : (f : Disk → Disk) (w : World) → Costs 1 w (effect f w)
effect-Costs f w = go w.left w.disk
  where
    go : (n : ℕ) (disk : Disk) → n ≤ (apply_left f n disk).1.left + 1
    go zero disk = omega arith
    go (suc n) disk = omega arith

after_check-Costs :
    (r : Result (Unit {0})) (f : Disk → Disk) (w : World) → Costs 1 w ((r, w) >>> effect f)
after_check-Costs (ok u) f w = effect-Costs f w
after_check-Costs (err e) f w = omega arith

if-Costs :
    (b : Bool) (n : ℕ) (w : World) (r t : Run)
    → Costs n w r
    → Costs n w t
    → Costs n w (if b then r else t)
if-Costs true n w r t h k = h
if-Costs false n w r t h k = k

free-Costs : (n : ℕ) (w : World) (r : Result (Unit {0})) → Costs n w (r, w)
free-Costs n w r = omega arith

needed-Costs :
    {A : Type 0} (n : ℕ) (o : Option A) (message : String) (w : World) (next : A → Run)
    → ((a : A) → Costs n w (next a))
    → Costs n w (needed o message w next)
needed-Costs n none message w next h = omega arith
needed-Costs n (some a) message w next h = h a

located-Costs :
    (n : ℕ) (r : Result (List ℕ)) (w : World) (next : List ℕ → Run)
    → ((path : List ℕ) → Costs n w (next path))
    → Costs n w (located r w next)
located-Costs n (ok path) w next h = h path
located-Costs n (err e) w next h = omega arith

then-Costs :
    (m n : ℕ) (w : World) (r : Run) (next : World → Run)
    → Costs m w r
    → ((v : World) → Costs n v (next v))
    → Costs (m + n) w (r >>> next)
then-Costs m n w (ok u, v) next h k = let later = k v in omega (arith, h, later)
then-Costs m n w (err e, v) next h k = omega (arith, h)

more-Costs : (w : World) (r : Run) → Costs 1 w r → Costs 2 w r
more-Costs w r h = omega (arith, h)

module _ (hash : List ℕ → String) where
  install-Costs :
      (path bytes : List ℕ) (expected : Option String) (w : World)
      → Costs 1 w (install hash path bytes expected w)
  unfolding install
  install-Costs path bytes expected w =
      if-Costs (reads (w.disk path) bytes) 1 w _ _ (free-Costs 1 w (ok tt))
        (after_check-Costs (check_expected hash w.disk path expected) (put path (file bytes)) w)

  remove-Costs :
      (path : List ℕ) (expected : Option String) (w : World)
      → Costs 1 w (remove hash path expected w)
  unfolding remove
  remove-Costs path expected w =
      if-Costs (is_absent (w.disk path)) 1 w _ _ (free-Costs 1 w (ok tt))
        (after_check-Costs (check_expected hash w.disk path expected) (put path absent) w)

  -- A replay of one intent takes two effects at most.
  pub replay_one-Costs :
      (is_link : List ℕ → Bool) (roots : Roots) (i : Intent) (w : World)
      → Costs 2 w (replay_one hash is_link roots i w)
  unfolding replay_one
  replay_one-Costs is_link roots i w =
      located-Costs 2 (locate hash is_link roots i.kind i.relative) w _ λ path.
        if-Costs (i.operation == "write" || i.operation == "write_asset") 2 w _ _
          (needed-Costs 2 i.content _ w _ λ bytes.
            more-Costs w (install hash path bytes i.expected w)
              (install-Costs path bytes i.expected w))
          (if-Costs (i.operation == "delete") 2 w _ _
            (more-Costs w (remove hash path i.expected w) (remove-Costs path i.expected w))
            (if-Costs (i.operation == "rename") 2 w _ _
              (needed-Costs 2 i.destination _ w _ λ destination.
                located-Costs 2 (locate hash is_link roots i.kind destination) w _ λ dest.
                  needed-Costs 2 i.content _ w _ λ bytes.
                    then-Costs 1 1 w (install hash dest bytes none w) _
                      (install-Costs dest bytes none w) (remove-Costs path i.expected))
              (free-Costs 2 w (err (conflict "unknown pending write operation")))))
