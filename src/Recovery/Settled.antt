-- ===== src/Recovery/Settled.antt =====
-- What `recover_locked` of crates/llmbase-core/src/recovery.rs leaves of the table of write intents.
use mathlib.Core.Path.{subst}
use llmbase.Prelude.{
  if◌then◌else◌, length, is_empty, any, string_PartialEq, ℕ, zero, suc, ◌≤◌, String, ◌≡◌, refl, ◌∙◌,
  Bool, true, false, List, [], ◌∷◌,
}
use llmbase.Errors.{Result, ok, err}
use llmbase.Paths.{Roots}
use llmbase.Recovery.{Disk, Intent}
use llmbase.Recovery.Replay.{replay_all}
use llmbase.Recovery.Intents.{
  Store, pending_intents, other_than_asset, Stored, ◌>=◌, commit_left, mark_applied, in_store,
  sync_locked, sync_unless_assets, recover_pending, recover_locked,
}
use llmbase.Recovery.Pending.{mark_intents-none}

module _ {Index : Type 0} where
  abbrev pub pending_in : Store Index → List Intent
  pending_in s = pending_intents s.rows

  abbrev pub AtMostOne : Store Index → Type 0
  AtMostOne s = length (pending_in s) ≤ 1

  -- Either done, and nothing is pending, or failed, and the table is as it was.
  abbrev pub Settled : {A : Type 0} → Store Index → Stored Index A → Type 0
  Settled before (ok a, after) = pending_in after ≡ []
  Settled before (err e, after) = after.rows ≡ before.rows

  bind-Settled :
      {A B : Type 0} (s : Store Index) (m : Stored Index A) (f : A → Store Index → Stored Index B)
      → m.1.rows ≡ s.rows
      → ((a : A) (t : Store Index) → t.rows ≡ s.rows → Settled s (f a t))
      → Settled s (m >= f)
  bind-Settled s (ok a, t) f kept next = next a t kept
  bind-Settled s (err e, t) f kept next = kept

  mark_applied-Settled :
      {A : Type 0} (a : A) (s t : Store Index)
      → t.rows ≡ s.rows
      → Settled s (mark_applied (pending_in s) t >= λ v u. (ok a, u))
  unfolding mark_applied
  mark_applied-Settled a s t kept = go t.world.left
    where
      go : (n : ℕ) → Settled s (commit_left n (pending_in s) t >= λ v u. (ok a, u))
      go zero = kept
      go (suc n) = rw kept (mark_intents-none s.rows)

  module _ {Report : Type 0} (hash : List ℕ → String) (is_link : List ℕ → Bool) (roots : Roots)
      (none_done : Report) (sync : Disk → Index → Result Report × Index) where
    recover_pending-Settled :
        (s : Store Index)
        → Settled s (recover_pending hash is_link roots none_done sync (pending_in s) s)
    unfolding recover_pending sync_locked
    recover_pending-Settled s =
        bind-Settled s (in_store (replay_all hash is_link roots (pending_in s) s.world) s) _ refl
          λ u t kept.
            bind-Settled s (sync_unless_assets hash is_link roots none_done sync (pending_in s) t) _
              (same_rows (any other_than_asset (pending_in s)) t ∙ kept)
              λ report v after. mark_applied-Settled report s v after
      where
        same_rows :
            (b : Bool) (t : Store Index)
            → (if b
                then sync_locked hash is_link roots none_done sync t
                else (ok none_done, t)).1.rows
              ≡ t.rows
        same_rows true t = refl
        same_rows false t = refl

    pub recover_locked-Settled :
        (s : Store Index) → Settled s (recover_locked hash is_link roots none_done sync s)
    unfolding recover_locked
    recover_locked-Settled s = go (pending_in s) refl
      where
        go :
            (is : List Intent)
            → pending_in s ≡ is
            → Settled s (
                if is_empty is
                then (ok none_done, s)
                else recover_pending hash is_link roots none_done sync is s)
        go [] e = e
        go (i ∷ is) e =
            subst (λ js. Settled s (recover_pending hash is_link roots none_done sync js s)) e
              (recover_pending-Settled s)
