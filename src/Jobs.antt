-- ===== src/Jobs.antt =====
-- crates/llmbase-core/src/jobs.rs: the persistent job ledger with fenced leases. The operations are
-- in Types, Enqueue, Claim and Settle, over the tables of Table.
pub mod Table
mod Credentials
pub mod Types
mod Enqueue
pub mod Claim
pub mod Settle
pub mod Distinct
mod Step
mod Evolves
mod Retries
mod Soundness
pub mod Fencing
mod Handout
pub mod Samples
mod Order
mod Readback
mod Tests
mod Rejected
mod Rollback
mod Backoff
mod Clean
mod Stale
mod Claims
pub mod Lookup
pub mod Calls
