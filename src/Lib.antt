-- ===== src/Lib.antt =====
-- llmbase: a library server that compiles documents into a knowledge base with a language model
-- (crates/llmbase-core), its client of model providers (crates/llmbase-model), and the command line,
-- HTTP and MCP servers and Python bindings around them. This library models the parts below.
--
-- - Jobs: crates/llmbase-core/src/jobs.rs, the persistent job ledger with fenced leases. Table has the
--   two SQL tables and the statements over them as functions of a row's condition and change;
--   Credentials, Types, Enqueue, Claim and Settle have the operations, each named as in the source. An
--   operation takes the environment (clock, drawn UUIDs, serde_json's reader of stored texts), the
--   library's id and the ledger, and returns its result and the ledger that it leaves; a transaction that
--   is not committed leaves the ledger as it was. Calls is the type of all calls that write. Step is the
--   state machine of a row; Evolves, Retries and Claims have the calls as its steps, Soundness is the
--   invariant, Fencing and Stale are about leases, Order and Handout about what a claim returns, Backoff
--   about a retry, Readback, Rollback and Rejected about errors, Clean about credentials in arguments.
-- - Worker: crates/llmbase-core/src/worker.rs. Its root has what a handler's result becomes as a job's
--   outcome, Loop one run of `run_job` over the ledger of Jobs, with the calls of others between its steps
--   as explicit sequences, and the handler's result as an input; Successes has the texts that mean
--   success, operation by operation; History, Settled and Outcomes have the theorems.
-- - Access: `Application::authorize` of crates/llmbase-core/src/application.rs, through which every server
--   dispatches, and crates/llmbase-core/src/extensions.rs. Operations has the table of capabilities, arm by
--   arm; its parent has the guards in the source's order; Extensions has the checks of `typed`, the
--   registry and the context of a handler. Effects lists what operations do;
--   Reading and Writing say who may call what, Monotone compares principals, Registry and Confined are
--   about extensions; Opening is `open_operation_library` with its bounded attempts. The schemas of an
--   extension's types and the reading of a language profile are parameters.
-- - Fetch: crates/llmbase-core/src/fetch.rs, the fetching of public web pages. Address has the policy on
--   addresses and Networks the list of networks that it stands for; Url has the checks on a URL, Target
--   the resolution of a host, Redirects the loop. Vetted and Contacts say where requests go, Body,
--   Limits and Response what is returned. The crate url's parser, printer and `join`, the name service, the parser
--   of literal addresses and what a server answers are parameters, and may answer otherwise at each hop.
-- - Document: crates/llmbase-core/src/document.rs, over the bytes of a text. FrontMatter is about
--   `Document::parse`, Spans about `Document::chunks`, Offsets about the two kinds of offsets. The hash and
--   the parser of metadata are parameters.
-- - Paths: `validate_id`, `root_for` and `scoped_path` of crates/llmbase-core/src/config.rs.
-- - Recovery: crates/llmbase-core/src/recovery.rs, over a file system and a database whose effects may
--   stop at any point. Replay has the replay of pending write intents, Intents their table and
--   `recover_locked`, Operations the operations that record them. Crash, Resume and Done are about one
--   replay, Atomic and Restart about an operation that is broken off and the recovery at the next start,
--   Pending, Settled, OneIntent and Invariant about the table. Journal has the replay of the journal of exact
--   bytes, Edits and Journaled what it does to files. The hash (sha2), the symbolic links, the paths
--   reserved for the engine, the obtaining of a file's lock, the parser of documents and the index of the
--   sources with its synchronization are parameters.
-- - Sse: crates/llmbase-model/src/sse.rs, the incremental decoder of event streams, over bytes.
-- - Retry: crates/llmbase-model/src/lib.rs, `complete_inner` with `backoff`. What an attempt gives and
--   whether a request's body is refused are parameters. Posts says to which models requests go.
-- - Visibility: crates/llmbase-core/src/visibility.rs, the policy on metadata.
-- - Errors: `Error` and `Result` of crates/llmbase-core/src/lib.rs and `ModelError` of
--   crates/llmbase-model/src/types.rs.
-- - Json: `serde_json::Value` as the program reads it. Utf8: `str::from_utf8` and operations on `str`.
-- - Prelude: Boolean tests, lists, equality.
--
-- Numbers are natural numbers; `usize` and `u64` have 64 bits, and their wrap or saturation is written
-- out where the source can meet it. No definition runs on fuel: loops are structural recursion.
-- The number of effects that a file system still carries out is no fuel but the point of a crash, and
-- the theorems hold for each.
--
-- Not modelled: SQLite itself (statements are taken to do what their text says, one transaction after
-- another), the time stamps that no statement reads, directories and the engine's own stage and lock
-- files, and the parts of the program that are not named above.

pub mod Prelude
pub mod Json
pub mod Errors
pub mod Utf8
pub mod Sse
pub mod Visibility
pub mod Jobs
pub mod Worker
pub mod Paths
pub mod Recovery
pub mod Retry
pub mod Access
pub mod Fetch
pub mod Document
