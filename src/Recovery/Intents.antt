-- ===== src/Recovery/Intents.antt =====
-- The table of write intents in crates/llmbase-core/src/recovery.rs and `recover_locked` over it.
use llmbase.Prelude.{
  if◌then◌else◌, is_empty, any, ◌==◌, string_PartialEq, ℕ, zero, suc, String, Bool, true, false,
  not, List, [], ◌∷◌, ◌++◌,
}
use llmbase.Errors.{sql, Result, ok, err}
use llmbase.Paths.{Roots}
use llmbase.Recovery.{Disk, World, Intent}
use llmbase.Recovery.Replay.{replay_all}

pub record IntentRow : Type 0 where
  pub intent : Intent
  pub applied : Bool

-- The file system with the effects that it still carries out, the table of one library in the order of its
-- rows' creation, and the index of the sources, which only `sync_locked` changes.
pub record Store (Index : Type 0) : Type 0 where
  pub world : World
  pub rows : List IntentRow
  pub index : Index

unfoldable pub pending_intents : List IntentRow → List Intent
pending_intents [] = []
pending_intents (r ∷ rs) =
    let rest = pending_intents rs in if r.applied then rest else r.intent ∷ rest

-- UPDATE .. SET status='applied' WHERE id=?1
unfoldable pub mark_intent : String → List IntentRow → List IntentRow
mark_intent id [] = []
mark_intent id (r ∷ rs) =
    (if r.intent.id == id then record r { applied = true } else r) ∷ mark_intent id rs

unfoldable pub mark_intents : List Intent → List IntentRow → List IntentRow
unfolding mark_intent
mark_intents [] rows = rows
mark_intents (i ∷ is) rows = mark_intents is (mark_intent i.id rows)

abbrev pub other_than_asset : Intent → Bool
other_than_asset i = not (i.operation == "write_asset")

abbrev pub Stored : Type 0 → Type 0 → Type 0
Stored Index A = Result A × Store Index

module _ {Index : Type 0} where
  infixl 5 ◌>=◌
  abbrev pub ◌>=◌ :
      {A B : Type 0} → Stored Index A → (A → Store Index → Stored Index B) → Stored Index B
  (err e, s) >= next = (err e, s)
  (ok a, s) >= next = next a s

  abbrev pub insert_left : ℕ → Intent → Store Index → Stored Index (Unit {0})
  insert_left zero i s = (err sql, s)
  insert_left (suc n) i s = (
    ok tt,
    record s {
      world = record { disk = s.world.disk; left = n };
      rows = s.rows ++ record { intent = i; applied = false } ∷ [];
    },
  )

  -- INSERT, which commits by itself.
  unfoldable pub record_intent : Intent → Store Index → Stored Index (Unit {0})
  record_intent i s = insert_left s.world.left i s

  abbrev pub commit_left : ℕ → List Intent → Store Index → Stored Index (Unit {0})
  commit_left zero is s = (err sql, s)
  commit_left (suc n) is s = (
    ok tt,
    record s { world = record { disk = s.world.disk; left = n }; rows = mark_intents is s.rows },
  )

  -- The transaction that marks what was replayed.
  unfoldable pub mark_applied : List Intent → Store Index → Stored Index (Unit {0})
  unfolding mark_intents
  mark_applied is s = commit_left s.world.left is s

  abbrev pub in_store : {A : Type 0} → Result A × World → Store Index → Stored Index A
  in_store (r, w) s = (r, record s { world = w })

  -- `sync` is `sync_locked`, which brings the index up to the files.
  module _ {Report : Type 0} (hash : List ℕ → String) (is_link : List ℕ → Bool) (roots : Roots)
      (none_done : Report) (sync : Disk → Index → Result Report × Index) where
    unfoldable pub sync_locked : Store Index → Stored Index Report
    sync_locked s = let (r, index) = sync s.world.disk s.index in (r, record s { index = index })

    abbrev pub sync_unless_assets : List Intent → Store Index → Stored Index Report
    sync_unless_assets is s = if any other_than_asset is then sync_locked s else (ok none_done, s)

    unfoldable pub recover_pending : List Intent → Store Index → Stored Index Report
    unfolding replay_all sync_locked mark_applied
    recover_pending is s = in_store (replay_all hash is_link roots is s.world) s >= λ u s1.
        sync_unless_assets is s1 >= λ report s2. mark_applied is s2 >= λ v s3. (ok report, s3)

    unfoldable pub recover_locked : Store Index → Stored Index Report
    unfolding recover_pending pending_intents
    recover_locked s =
        if is_empty (pending_intents s.rows)
        then (ok none_done, s)
        else recover_pending (pending_intents s.rows) s
