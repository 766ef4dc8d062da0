-- ===== src/Recovery/OneIntent.antt =====
-- The operations of crates/llmbase-core/src/recovery.rs leave at most one intent pending.
use llmbase.Prelude.{
  if◌then◌else◌, is_some, ◌==◌, string_PartialEq, ℕ, zero, suc, String, ◌≡◌, Bool, true, false, not,
  ◌&&◌, ◌||◌, Option, none, some, List, [], arith,
}
use llmbase.Errors.{conflict, Result, ok, err, ◌>>◌, reject_if}
use llmbase.Paths.{Roots, later}
use llmbase.Recovery.{Disk, Intent}
use llmbase.Recovery.Replay.{reads, check_expected, locate}
use llmbase.Recovery.Intents.{Store, Stored, ◌>=◌, insert_left, record_intent, sync_locked}
use llmbase.Recovery.Operations.{
  Source, SourceGuard, checked, guards_of, recover, perform, locked, write_raw_asset, check_guards,
  write_source_checked, delete_source, rename_source,
}
use llmbase.Recovery.Pending.{pending_intents-append}
use llmbase.Recovery.Settled.{pending_in, AtMostOne, Settled, recover_locked-Settled}

module _ {Index : Type 0} where
  -- A success leaves nothing pending, a failure at most one intent.
  abbrev pub LeavesOne : {A : Type 0} → Stored Index A → Type 0
  LeavesOne (ok a, s) = pending_in s ≡ []
  LeavesOne (err e, s) = AtMostOne s

  none_at_most : (s : Store Index) → pending_in s ≡ [] → AtMostOne s
  none_at_most s h = rw h (omega arith)

  checked-LeavesOne :
      {A B : Type 0} (r : Result A) (s : Store Index) (next : A → Stored Index B)
      → AtMostOne s
      → ((a : A) → LeavesOne (next a))
      → LeavesOne (checked r s next)
  checked-LeavesOne (ok a) s next few later = later a
  checked-LeavesOne (err e) s next few later = few

  bind-LeavesOne :
      {A B : Type 0} (m : Stored Index A) (f : A → Store Index → Stored Index B)
      → LeavesOne m
      → ((a : A) (s : Store Index) → pending_in s ≡ [] → LeavesOne (f a s))
      → LeavesOne (m >= f)
  bind-LeavesOne (ok a, s) f h later = later a s h
  bind-LeavesOne (err e, s) f h later = h

  if-LeavesOne :
      {A : Type 0} (b : Bool) (m n : Stored Index A)
      → LeavesOne m
      → LeavesOne n
      → LeavesOne (if b then m else n)
  if-LeavesOne true m n h k = h
  if-LeavesOne false m n h k = k

  Settled-LeavesOne :
      {A : Type 0} (s : Store Index) (m : Stored Index A) → AtMostOne s → Settled s m → LeavesOne m
  Settled-LeavesOne s (ok a, t) few h = h
  Settled-LeavesOne s (err e, t) few h = rw h few

  recorded-one :
      (i : Intent) (s : Store Index) (n : ℕ) → pending_in s ≡ [] → AtMostOne (insert_left n i s).1
  recorded-one i s zero h = rw h (omega arith)
  recorded-one i s (suc n) h = rw (pending_intents-append s.rows i, h) (omega arith)

  module _ {Report : Type 0} (hash : List ℕ → String) (is_link : List ℕ → Bool) (roots : Roots)
      (none_done : Report) (sync : Disk → Index → Result Report × Index)
      (get : Index → String → Result Source) (parse : List ℕ → Result (Unit {0}))
      (lock : Result (Unit {0})) (uuid : String) where
    recover-LeavesOne :
        (s : Store Index)
        → AtMostOne s
        → LeavesOne (recover hash is_link roots none_done sync get parse lock uuid s)
    recover-LeavesOne s few =
        Settled-LeavesOne s _ few (recover_locked-Settled hash is_link roots none_done sync s)

    perform-LeavesOne :
        (i : Intent) (s : Store Index)
        → pending_in s ≡ []
        → LeavesOne (perform hash is_link roots none_done sync get parse lock uuid i s)
    unfolding perform record_intent
    perform-LeavesOne i s h = go (insert_left s.world.left i s) (recorded-one i s s.world.left h)
      where
        go :
            (m : Stored Index (Unit {0}))
            → AtMostOne m.1
            → LeavesOne
                (m >= λ u t. recover hash is_link roots none_done sync get parse lock uuid t)
        go (ok u, t) few = recover-LeavesOne t few
        go (err e, t) few = few

    locked-LeavesOne :
        {A : Type 0} (s : Store Index) (next : Store Index → Stored Index A)
        → AtMostOne s
        → ((t : Store Index) → pending_in t ≡ [] → LeavesOne (next t))
        → LeavesOne (locked hash is_link roots none_done sync get parse lock uuid s next)
    locked-LeavesOne s next few later = checked-LeavesOne lock s _ few λ u.
        bind-LeavesOne (recover hash is_link roots none_done sync get parse lock uuid s) _
          (recover-LeavesOne s few) λ report t h. later t h

    sync-LeavesOne :
        (s : Store Index)
        → pending_in s ≡ []
        → LeavesOne (sync_locked hash is_link roots none_done sync s)
    unfolding sync_locked
    sync-LeavesOne s h = go (sync s.world.disk s.index).0
      where
        go : (r : Result Report) → LeavesOne (r, record s { index = (sync s.world.disk s.index).1 })
        go (ok a) = h
        go (err e) = none_at_most s h

    pub write_raw_asset-LeavesOne :
        (relative : String) (bytes : List ℕ) (expected : Option String) (s : Store Index)
        → AtMostOne s
        → LeavesOne (
            write_raw_asset hash is_link roots none_done sync get parse lock uuid relative bytes
              expected s)
    unfolding write_raw_asset
    write_raw_asset-LeavesOne relative bytes expected s few = checked-LeavesOne _ s _ few λ path.
        locked-LeavesOne s _ few λ t h. if-LeavesOne (reads (t.world.disk path) bytes) _ _ h (
          checked-LeavesOne (check_expected hash t.world.disk path expected) t _ (none_at_most t h)
            λ u.
              bind-LeavesOne (perform hash is_link roots none_done sync get parse lock uuid _ t) _
                (perform-LeavesOne _ t h) λ report v k. k)

    pub write_source_checked-LeavesOne :
        (kind relative : String) (bytes : List ℕ) (expected : Option String)
        (guards : Option (List SourceGuard)) (s : Store Index)
        → AtMostOne s
        → LeavesOne (
            write_source_checked hash is_link roots none_done sync get parse lock uuid kind relative
              bytes expected guards s)
    unfolding write_source_checked
    write_source_checked-LeavesOne kind relative bytes expected guards s few =
        checked-LeavesOne (parse bytes) s _ few λ p. locked-LeavesOne s _ few λ t h.
          checked-LeavesOne
            (check_guards hash is_link roots none_done sync get parse lock uuid (guards_of guards)
              t)
            t _ (none_at_most t h)
            λ g.
              checked-LeavesOne (locate hash is_link roots kind relative) t _ (none_at_most t h)
                λ path.
                  if-LeavesOne (is_some guards && reads (t.world.disk path) bytes) _ _
                    (sync-LeavesOne t h)
                    (checked-LeavesOne (check_expected hash t.world.disk path expected) t _
                      (none_at_most t h) λ u. perform-LeavesOne _ t h)

    pub delete_source-LeavesOne :
        (source_id expected_hash : String) (s : Store Index)
        → AtMostOne s
        → LeavesOne (
            delete_source hash is_link roots none_done sync get parse lock uuid source_id
              expected_hash s)
    unfolding delete_source
    delete_source-LeavesOne source_id expected_hash s few = locked-LeavesOne s _ few λ t h.
        checked-LeavesOne (get t.index source_id) t _ (none_at_most t h) λ source.
          checked-LeavesOne
            (reject_if source.deleted (conflict "source already deleted")
              >> (reject_if (not (source.content_hash == expected_hash))
                    (conflict "source revision changed")
                  >> locate hash is_link roots source.kind source.rel_path))
            t _ (none_at_most t h)
            λ path.
              checked-LeavesOne (check_expected hash t.world.disk path (some expected_hash)) t _
                (none_at_most t h) λ u. perform-LeavesOne _ t h

    pub rename_source-LeavesOne :
        (source_id destination expected_hash : String) (s : Store Index)
        → AtMostOne s
        → LeavesOne (
            rename_source hash is_link roots none_done sync get parse lock uuid source_id
              destination expected_hash s)
    unfolding rename_source
    rename_source-LeavesOne source_id destination expected_hash s few =
        locked-LeavesOne s _ few λ t h.
          checked-LeavesOne (get t.index source_id) t _ (none_at_most t h) λ source.
            checked-LeavesOne
              (reject_if (source.deleted || not (source.content_hash == expected_hash))
                  (conflict "source revision changed")
                >> locate hash is_link roots source.kind source.rel_path)
              t _ (none_at_most t h)
              λ path.
                checked-LeavesOne (locate hash is_link roots source.kind destination) t _
                  (none_at_most t h)
                  λ dest.
                    checked-LeavesOne
                      (check_expected hash t.world.disk path (some expected_hash)
                        >> check_expected hash t.world.disk dest none)
                      t _ (none_at_most t h) λ u. perform-LeavesOne _ t h
