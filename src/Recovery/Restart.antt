-- ===== src/Recovery/Restart.antt =====
-- An operation of crates/llmbase-core/src/recovery.rs that crashes anywhere, and the recovery at the next start.
use mathlib.Core.Path.{subst, fun_ext}
use llmbase.Prelude.{
  if◌then◌else◌, any, ℕ, zero, suc, ◌+◌, ◌≤◌, String, ◌≡◌, refl, sym, ap, ◌∙◌, ◌⊎◌, inl, inr, Bool,
  true, false, List, [], ◌∷◌, ◌++◌, arith,
}
use llmbase.Errors.{sql, Result, ok, err, is_ok}
use llmbase.Paths.{Roots}
use llmbase.Recovery.{Disk, Intent}
use llmbase.Recovery.Replay.{Run, ◌>>>◌, replay_one, replay_all}
use llmbase.Recovery.Crash.{at_most, SameDisk}
use llmbase.Recovery.Resume.{Accepted, replay_one-Resumes}
use llmbase.Recovery.Done.{replay_one-Finishes, replay_one-Costs}
use llmbase.Recovery.Intents.{
  Store, pending_intents, mark_intents, other_than_asset, Stored, ◌>=◌, record_intent, commit_left,
  mark_applied, in_store, sync_locked, sync_unless_assets, recover_pending, recover_locked,
}
use llmbase.Recovery.Pending.{mark_intents-none, pending_intents-append}
use llmbase.Recovery.Settled.{pending_in}
use llmbase.Recovery.Operations.{Source, perform}
use llmbase.Recovery.Atomic.{restarted, Tried, interrupted, completed, recovery-Tried}

module _ {Index Report : Type 0} (hash : List ℕ → String) (is_link : List ℕ → Bool) (roots : Roots)
    (none_done : Report) (sync : Disk → Index → Result Report × Index) where
  abbrev recover_all : Store Index → Stored Index Report
  recover_all = recover_locked hash is_link roots none_done sync

  -- The recovery has brought the files to what was wanted, and nothing is pending.
  abbrev pub Recovered : Disk → Stored Index Report → Type 0
  Recovered target m = (is_ok m.0 ≡ true) × (pending_in m.1 ≡ []) × SameDisk m.1.world.disk target

  module _ (target : Disk) (indexable : (index : Index) → is_ok (sync target index).0 ≡ true) where
    commit-Recovered :
        (i : Intent) (report : Report) (t : Store Index)
        → pending_in t ≡ i ∷ []
        → t.world.disk ≡ target
        → 1 ≤ t.world.left
        → Recovered target (mark_applied (i ∷ []) t >= λ v u. (ok report, u))
    unfolding mark_applied
    commit-Recovered i report t p files some_left = go t.world.left some_left
      where
        none_left : pending_intents (mark_intents (i ∷ []) t.rows) ≡ []
        none_left =
            subst (λ is. pending_intents (mark_intents is t.rows) ≡ []) p (mark_intents-none t.rows)

        go : (k : ℕ) → 1 ≤ k → Recovered target (commit_left k (i ∷ []) t >= λ v u. (ok report, u))
        go zero h = absurd (omega (arith, h))
        go (suc k) h = (refl, none_left, λ q. ap (λ d. d q) files)

    synced-Recovered :
        (i : Intent) (t : Store Index)
        → pending_in t ≡ i ∷ []
        → t.world.disk ≡ target
        → 1 ≤ t.world.left
        → Recovered target (
            sync_unless_assets hash is_link roots none_done sync (i ∷ []) t >= λ report u.
            mark_applied (i ∷ []) u >= λ v w. (ok report, w))
    unfolding sync_locked
    synced-Recovered i t p files some_left = go (any other_than_asset (i ∷ []))
      where
        after : Stored Index Report → Stored Index Report
        after m = m >= λ report u. mark_applied (i ∷ []) u >= λ v w. (ok report, w)

        on_sync :
            (r : Result Report) (index : Index)
            → is_ok r ≡ true
            → Recovered target (after (r, record t { index = index }))
        on_sync (ok report) index h =
            commit-Recovered i report (record t { index = index }) p files some_left
        on_sync (err e) index h = cc h

        go :
            (b : Bool)
            → Recovered target (
                after (
                  if b then sync_locked hash is_link roots none_done sync t else (ok none_done, t)))
        go true =
            on_sync (sync t.world.disk t.index).0 (sync t.world.disk t.index).1
              (subst (λ d. is_ok (sync d t.index).0 ≡ true) (sym files) (indexable t.index))
        go false = commit-Recovered i none_done t p files some_left

    recover-Recovered :
        (i : Intent) (s : Store Index)
        → pending_in s ≡ i ∷ []
        → 3 ≤ s.world.left
        → (replay_one hash is_link roots i s.world).0 ≡ ok tt
        → (replay_one hash is_link roots i s.world).1.disk ≡ target
        → Recovered target (recover_all s)
    unfolding recover_locked recover_pending replay_all
    recover-Recovered i s p enough done files = rw p (
        go (replay_one hash is_link roots i s.world) done files
          (replay_one-Costs hash is_link roots i s.world))
      where
        go :
            (r : Run)
            → r.0 ≡ ok tt
            → r.1.disk ≡ target
            → s.world.left ≤ r.1.left + 2
            → Recovered target (
                in_store (r >>> λ w. (ok tt, w)) s >= λ u t.
                sync_unless_assets hash is_link roots none_done sync (i ∷ []) t >= λ report t2.
                mark_applied (i ∷ []) t2 >= λ v t3. (ok report, t3))
        go (ok u, w) h f c =
            synced-Recovered i (record s { world = w }) p f (omega (arith, c, enough))
        go (err e, w) h f c = cc h

  idle :
      {target : Disk} (s : Store Index)
      → pending_in s ≡ []
      → SameDisk s.world.disk target
      → Recovered target (recover_all s)
  unfolding recover_locked
  idle s p same = rw p (refl, p, same)

  -- The next start, after a replay that may have been broken off.
  restart :
      (i : Intent) (disk target : Disk) (n m : ℕ) (t : Store Index)
      → ((index : Index) → is_ok (sync target index).0 ≡ true)
      → Accepted hash is_link roots disk i target
      → Tried hash is_link roots none_done sync i disk n t
      → Recovered target (recover_all (restarted (suc (suc (suc m))) t))
  restart i disk target n m t indexable accepted (interrupted p files) =
      let (done, same) = replay_one-Resumes hash is_link roots i disk target n (suc m) accepted in
      recover-Recovered target indexable i (restarted (suc (suc (suc m))) t) p (omega arith)
        (rw files done) (rw files (fun_ext same))
  restart i disk target n m t indexable accepted (completed p files done) =
      idle (restarted (suc (suc (suc m))) t) p λ q.
        ap (λ d. d q) files ∙ replay_one-Finishes hash is_link roots i disk target n accepted done q

module _ {Index Report : Type 0} (hash : List ℕ → String) (is_link : List ℕ → Bool) (roots : Roots)
    (none_done : Report) (sync : Disk → Index → Result Report × Index)
    (get : Index → String → Result Source) (parse : List ℕ → Result (Unit {0}))
    (lock : Result (Unit {0})) (uuid : String) where
  recorded-Tried :
      (i : Intent) (s : Store Index) (n : ℕ)
      → pending_in s ≡ []
      → s.world.left ≡ suc n
      → Tried hash is_link roots none_done sync i s.world.disk n
          (perform hash is_link roots none_done sync get parse lock uuid i s).1
  unfolding perform record_intent
  recorded-Tried i s n p e = rw e (
      recovery-Tried hash is_link roots none_done sync i s.world.disk n
        (record s {
          world = at_most n s.world.disk;
          rows = s.rows ++ record { intent = i; applied = false } ∷ [];
        })
        (pending_intents-append s.rows i ∙ ap (λ is. is ++ i ∷ []) p) refl)

  unrecorded :
      (i : Intent) (s : Store Index)
      → s.world.left ≡ 0
      → perform hash is_link roots none_done sync get parse lock uuid i s ≡ (err sql, s)
  unfolding perform record_intent
  unrecorded i s e = rw e refl

-- An operation that has checked its files records an intent and replays it. Wherever that is broken off, by a
-- crash or an error of the system, either nothing was recorded or changed, or the recovery at the next start,
-- which has three effects to carry out and an index that takes the files, succeeds, leaves nothing pending,
-- and every path reads as the operation wanted.
pub perform-Atomic :
    {Index Report : Type 0} (hash : List ℕ → String) (is_link : List ℕ → Bool) (roots : Roots)
    (none_done : Report) (sync : Disk → Index → Result Report × Index)
    (get : Index → String → Result Source) (parse : List ℕ → Result (Unit {0}))
    (lock : Result (Unit {0})) (uuid : String) (i : Intent) (target : Disk) (s : Store Index)
    (m : ℕ)
    → pending_in s ≡ []
    → Accepted hash is_link roots s.world.disk i target
    → ((index : Index) → is_ok (sync target index).0 ≡ true)
    → (perform hash is_link roots none_done sync get parse lock uuid i s ≡ (err sql, s))
      ⊎ Recovered hash is_link roots none_done sync target (
          recover_locked hash is_link roots none_done sync (
            restarted
              (suc (suc (suc m)))
              (perform hash is_link roots none_done sync get parse lock uuid i s).1))
perform-Atomic hash is_link roots none_done sync get parse lock uuid i target s m p accepted
      indexable =
    go s.world.left refl
  where
    go :
        (n : ℕ)
        → s.world.left ≡ n
        → (perform hash is_link roots none_done sync get parse lock uuid i s ≡ (err sql, s))
          ⊎ Recovered hash is_link roots none_done sync target (
              recover_locked hash is_link roots none_done sync (
                restarted
                  (suc (suc (suc m)))
                  (perform hash is_link roots none_done sync get parse lock uuid i s).1))
    go zero e = inl (unrecorded hash is_link roots none_done sync get parse lock uuid i s e)
    go (suc n) e = inr (
        restart hash is_link roots none_done sync i s.world.disk target n m _ indexable accepted
          (recorded-Tried hash is_link roots none_done sync get parse lock uuid i s n p e))
