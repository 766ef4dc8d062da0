-- ===== src/Recovery/Atomic.antt =====
-- A crash under an operation of crates/llmbase-core/src/recovery.rs, and the recovery after it.
use mathlib.Core.Path.{subst}
use llmbase.Prelude.{
  if◌then◌else◌, any, ℕ, zero, suc, String, ◌≡◌, refl, sym, ap, ◌∙◌, Bool, true, false, List, [],
  ◌∷◌,
}
use llmbase.Errors.{Result, ok, err}
use llmbase.Paths.{Roots}
use llmbase.Recovery.{Disk, World, Intent}
use llmbase.Recovery.Replay.{Run, ◌>>>◌, replay_one, replay_all}
use llmbase.Recovery.Crash.{at_most}
use llmbase.Recovery.Intents.{
  IntentRow, Store, pending_intents, mark_intents, other_than_asset, Stored, ◌>=◌, commit_left,
  mark_applied, in_store, sync_locked, sync_unless_assets, recover_pending, recover_locked,
}
use llmbase.Recovery.Pending.{mark_intents-none}
use llmbase.Recovery.Settled.{pending_in}

-- The process starts again on a file system that carries out so many effects.
abbrev pub restarted : {Index : Type 0} → ℕ → Store Index → Store Index
restarted m s = record s { world = at_most m s.world.disk }

module _ {Index Report : Type 0} (hash : List ℕ → String) (is_link : List ℕ → Bool) (roots : Roots)
    (none_done : Report) (sync : Disk → Index → Result Report × Index) where
  abbrev recovery : Store Index → Stored Index Report
  recovery = recover_locked hash is_link roots none_done sync

  abbrev once : Intent → World → Run
  once = replay_one hash is_link roots

  -- A replay of one intent in the store: either it fails somewhere, and the intent stays pending on the files
  -- that the replay has left, or the replay has succeeded and nothing is pending.
  pub data Tried (i : Intent) (disk : Disk) (n : ℕ) (t : Store Index) : Type 0 where
    interrupted :
        pending_in t ≡ i ∷ [] → t.world.disk ≡ (once i (at_most n disk)).1.disk → Tried i disk n t
    completed :
        pending_in t ≡ []
        → t.world.disk ≡ (once i (at_most n disk)).1.disk
        → (once i (at_most n disk)).0 ≡ ok tt
        → Tried i disk n t

  module _ (i : Intent) (disk : Disk) (n : ℕ) (rows : List IntentRow)
      (p : pending_intents rows ≡ i ∷ []) where
    abbrev replayed : Run
    replayed = once i (at_most n disk)

    -- A store of these rows on the files that the replay has left.
    abbrev Left : Store Index → Type 0
    Left t = (t.rows ≡ rows) × (t.world.disk ≡ replayed.1.disk)

    still : (t : Store Index) → Left t → Tried i disk n t
    still t (same, files) = interrupted (ap pending_intents same ∙ p) files

    marked-Tried :
        (report : Report) (t : Store Index)
        → Left t
        → replayed.0 ≡ ok tt
        → Tried i disk n (mark_applied (i ∷ []) t >= λ v u. (ok report, u)).1
    unfolding mark_applied
    marked-Tried report t (same, files) done = go t.world.left
      where
        none_left : pending_intents (mark_intents (i ∷ []) rows) ≡ []
        none_left =
            subst (λ is. pending_intents (mark_intents is rows) ≡ []) p (mark_intents-none rows)

        go : (k : ℕ) → Tried i disk n (commit_left k (i ∷ []) t >= λ v u. (ok report, u)).1
        go zero = still t (same, files)
        go (suc k) = completed (rw same none_left) files done

    synced-Tried :
        (m : Stored Index Report)
        → Left m.1
        → replayed.0 ≡ ok tt
        → Tried i disk n (m >= λ report t. mark_applied (i ∷ []) t >= λ v u. (ok report, u)).1
    synced-Tried (ok report, t) left done = marked-Tried report t left done
    synced-Tried (err e, t) left done = still t left

    sync-Left :
        (t : Store Index)
        → Left t
        → Left (sync_unless_assets hash is_link roots none_done sync (i ∷ []) t).1
    unfolding sync_locked
    sync-Left t left = go (any other_than_asset (i ∷ []))
      where
        go :
            (b : Bool)
            → Left
                (if b then sync_locked hash is_link roots none_done sync t else (ok none_done, t)).1
        go true = left
        go false = left

    replayed-Tried :
        (s : Store Index) (r : Run)
        → s.rows ≡ rows
        → replayed ≡ r
        → Tried i disk n
            (in_store (r >>> λ w. (ok tt, w)) s >= λ u t.
              sync_unless_assets hash is_link roots none_done sync (i ∷ []) t >= λ report t2.
              mark_applied (i ∷ []) t2 >= λ v t3. (ok report, t3)).1
    replayed-Tried s (ok u, w) same e =
        synced-Tried _ (sync-Left (record s { world = w }) (same, ap (λ x. x.1.disk) (sym e)))
          (ap (λ x. x.0) e)
    replayed-Tried s (err f, w) same e =
        still (record s { world = w }) (same, ap (λ x. x.1.disk) (sym e))

  pub recovery-Tried :
      (i : Intent) (disk : Disk) (n : ℕ) (s : Store Index)
      → pending_in s ≡ i ∷ []
      → s.world ≡ at_most n disk
      → Tried i disk n (recovery s).1
  unfolding recover_locked recover_pending replay_all
  recovery-Tried i disk n s p w = rw (p, w) (replayed-Tried i disk n s.rows p s _ refl refl)
