-- ===== src/Recovery/Edits.antt =====
-- What a replay of the journal of crates/llmbase-core/src/recovery.rs may do to files, and what a second
-- replay makes of one that was broken off.
use mathlib.Core.Path.{subst}
use llmbase.Prelude.{
  Bool-cases, ◌==◌, bytes_eqb_iff, bytes_PartialEq, ℕ, zero, suc, String, ◌≡◌, refl, sym, ap, ◌∙◌,
  ◌⊎◌, inl, inr, Bool, true, List, [], ◌∷◌,
}
use llmbase.Errors.{Result, ok, err}
use llmbase.Recovery.{Entry, file, put, World}
use llmbase.Recovery.Replay.{Run, apply_left, reads}
use llmbase.Recovery.Journal.{
  JournalIntent, JournalRow, Shelf, JournalRun, mark_left, mark_journal_applied, is_image,
  is_readable, settle_file, on_shelf, ◌>=>◌, JournalRoots, pending, destination, at_destination,
  journal_one, journal_all, recover_journal_locked,
}

-- A file is replaced where it has the before-image, and not else.
settle_file-edits :
    (i : JournalIntent) (dest : List ℕ) (w : World) (q : List ℕ)
    → ((settle_file i dest w).1.disk q ≡ w.disk q)
      ⊎ ((q ≡ dest)
          × (is_image (w.disk q) i.before ≡ true)
          × ((settle_file i dest w).1.disk q ≡ file i.after))
unfolding settle_file
settle_file-edits i dest w q = elim (Bool-cases (is_readable (w.disk dest))) [
  | inr unread ↦ inl (rw unread)
  | inl readable ↦ elim (Bool-cases (reads (w.disk dest) i.after)) [
    | inl done ↦ inl (rw (readable, done))
    | inr undone ↦ elim (Bool-cases (is_image (w.disk dest) i.before)) [
      | inr foreign ↦ inl (rw (readable, undone, foreign))
      | inl fit ↦ rw (readable, undone, fit) (replaced w.left fit)
    ]
  ]
]
  where
    replaced :
        (n : ℕ)
        → is_image (w.disk dest) i.before ≡ true
        → ((apply_left (put dest (file i.after)) n w.disk).1.disk q ≡ w.disk q)
          ⊎ ((q ≡ dest)
              × (is_image (w.disk q) i.before ≡ true)
              × ((apply_left (put dest (file i.after)) n w.disk).1.disk q ≡ file i.after))
    replaced zero fit = inl refl
    replaced (suc n) fit = elim (Bool-cases (q == dest)) [
      | inr elsewhere ↦ inl (rw elsewhere)
      | inl here ↦
          let same = (bytes_eqb_iff q dest).0 here in
          inr (same, ap (λ p. is_image (w.disk p) i.before) same ∙ fit, rw here)
    ]

mark-disk : (id : String) (s : Shelf) → (mark_journal_applied id s).1.world.disk ≡ s.world.disk
unfolding mark_journal_applied
mark-disk id s = go s.world.left
  where
    go : (n : ℕ) → (mark_left n s.world.disk id s.rows).1.world.disk ≡ s.world.disk
    go zero = refl
    go (suc n) = refl

on_shelf-disk :
    (run : Run) (rows : List JournalRow) (id : String)
    → (on_shelf run rows (mark_journal_applied id)).1.world.disk ≡ run.1.disk
on_shelf-disk (ok u, w) rows id = mark-disk id (record { world = w; rows = rows })
on_shelf-disk (err e, w) rows id = refl

module _ (is_link : List ℕ → Bool) (reserved : List ℕ → Result Bool)
    (lock_file : List ℕ → Result (Unit {0})) (roots : JournalRoots) where
  -- How what a path reads as may change: by replacements in the intents' order, each at the destination
  -- of its intent, where the path read as that intent's before-image.
  pub data Edited (q : List ℕ) : List JournalIntent → Entry → Entry → Type 0 where
    kept : (is : List JournalIntent) (a : Entry) → Edited q is a a
    passed :
        (i : JournalIntent) (is : List JournalIntent) (a b : Entry)
        → Edited q is a b
        → Edited q (i ∷ is) a b
    replaced :
        (i : JournalIntent) (is : List JournalIntent) (a b : Entry)
        → destination is_link reserved lock_file roots i ≡ ok q
        → is_image a i.before ≡ true
        → Edited q is (file i.after) b
        → Edited q (i ∷ is) a b

  journal_one-edits :
      (i : JournalIntent) (s : Shelf) (q : List ℕ)
      → ((journal_one is_link reserved lock_file roots i s).1.world.disk q ≡ s.world.disk q)
        ⊎ ((destination is_link reserved lock_file roots i ≡ ok q)
            × (is_image (s.world.disk q) i.before ≡ true)
            × ((journal_one is_link reserved lock_file roots i s).1.world.disk q ≡ file i.after))
  unfolding journal_one
  journal_one-edits i s q = go (destination is_link reserved lock_file roots i)
    where
      go :
          (d : Result (List ℕ))
          → ((at_destination is_link reserved lock_file roots d i s).1.world.disk q
              ≡ s.world.disk q)
            ⊎ ((d ≡ ok q)
                × (is_image (s.world.disk q) i.before ≡ true)
                × ((at_destination is_link reserved lock_file roots d i s).1.world.disk q
                    ≡ file i.after))
      go (err e) = inl refl
      go (ok dest) =
          rw (on_shelf-disk (settle_file i dest s.world) s.rows i.id)
            (named (settle_file-edits i dest s.world q))
        where
          named :
              ((settle_file i dest s.world).1.disk q ≡ s.world.disk q)
                ⊎ ((q ≡ dest)
                    × (is_image (s.world.disk q) i.before ≡ true)
                    × ((settle_file i dest s.world).1.disk q ≡ file i.after))
              → ((settle_file i dest s.world).1.disk q ≡ s.world.disk q)
                ⊎ ((ok dest ≡ ok q)
                    × (is_image (s.world.disk q) i.before ≡ true)
                    × ((settle_file i dest s.world).1.disk q ≡ file i.after))
          named (inl e) = inl e
          named (inr (e, fit, done)) = inr (ap ok (sym e), fit, done)

  -- One intent and then the rest of the list.
  behind :
      (i : JournalIntent) (is : List JournalIntent) (q : List ℕ) (a : Entry) (run : JournalRun)
      → (run.1.world.disk q ≡ a)
        ⊎ ((destination is_link reserved lock_file roots i ≡ ok q)
            × (is_image a i.before ≡ true)
            × (run.1.world.disk q ≡ file i.after))
      → ((s : Shelf)
          → Edited q is
              (s.world.disk q)
              ((journal_all is_link reserved lock_file roots is s).1.world.disk q))
      → Edited q
          (i ∷ is)
          a
          ((run >=> journal_all is_link reserved lock_file roots is).1.world.disk q)
  behind i is q a (ok u, s) (inl e) rest = passed i is a _ (
      subst
        (λ x. Edited q is x ((journal_all is_link reserved lock_file roots is s).1.world.disk q)) e
        (rest s))
  behind i is q a (ok u, s) (inr (d, fit, e)) rest = replaced i is a _ d fit (
      subst
        (λ x. Edited q is x ((journal_all is_link reserved lock_file roots is s).1.world.disk q)) e
        (rest s))
  behind i is q a (err f, s) (inl e) rest =
      passed i is a _ (subst (λ x. Edited q is x (s.world.disk q)) e (kept is (s.world.disk q)))
  behind i is q a (err f, s) (inr (d, fit, e)) rest =
      replaced i is a _ d fit
        (subst (λ x. Edited q is x (s.world.disk q)) e (kept is (s.world.disk q)))

  journal_all-Edited :
      (is : List JournalIntent) (q : List ℕ) (s : Shelf)
      → Edited q is
          (s.world.disk q)
          ((journal_all is_link reserved lock_file roots is s).1.world.disk q)
  journal_all-Edited [] q s = kept [] (s.world.disk q)
  journal_all-Edited (i ∷ is) q s =
      behind i is q (s.world.disk q) (journal_one is_link reserved lock_file roots i s)
        (journal_one-edits i s q) (journal_all-Edited is q)

  -- A recovery of the journal, wherever it stops, never replaces an edit that it does not know: what any path
  -- reads as changes only by the pending intents in their order, each at its own destination, which lies in
  -- its root and is neither reserved nor locked, and only where the file is exactly the intent's before-image.
  pub recover_journal_locked-Edited :
      (s : Shelf) (q : List ℕ)
      → Edited q
          (pending s.rows)
          (s.world.disk q)
          ((recover_journal_locked is_link reserved lock_file roots s).1.world.disk q)
  unfolding recover_journal_locked
  recover_journal_locked-Edited s q = journal_all-Edited (pending s.rows) q s
