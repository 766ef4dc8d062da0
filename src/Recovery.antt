-- ===== src/Recovery.antt =====
-- crates/llmbase-core/src/recovery.rs: durable write intents and their replay. A file system is what
-- each path reads as. An operation may carry out so many effects (a rename into place, a removal, a
-- commit) and then fails, which stands for an error of the system and for a crash alike: staging a
-- file, which happens under another name, changes nothing that a path reads. The engine's own stage files
-- (`.llmbase-*.stage`) and per-file locks (`.*.llmbase.lock`) are no paths of the model, nor are directories:
-- that one is made, or cannot be, is an effect that comes about or fails with the one behind it. A rename whose
-- directory cannot be flushed is a rename followed by an effect that fails.
mod Replay
mod Crash
mod Resume
mod Intents
mod Operations
mod Pending
mod Settled
mod OneIntent
mod Invariant
mod Done
mod Atomic
mod Restart
mod Journal
mod Edits
mod Journaled
mod Tests
use llmbase.Prelude.{if◌then◌else◌, ◌==◌, ℕ, String, Option, List, bytes_PartialEq}

pub data Entry : Type 0 where
  absent : Entry
  unreadable : Entry
  file : List ℕ → Entry

-- Paths are their bytes.
abbrev pub Disk : Type 0
Disk = List ℕ → Entry

abbrev pub put : List ℕ → Entry → Disk → Disk
put path entry disk q = if q == path then entry else disk q

pub record World : Type 0 where
  pub disk : Disk
  pub left : ℕ

pub record Intent : Type 0 where
  pub id : String
  pub kind : String
  pub relative : String
  pub operation : String
  pub expected : Option String
  pub content : Option (List ℕ)
  pub destination : Option String
