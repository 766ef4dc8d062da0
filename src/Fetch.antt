-- ===== src/Fetch.antt =====
-- Bounded fetching of public web pages: crates/llmbase-core/src/fetch.rs. Addresses and URLs are below, then
-- the resolution of a target and the loop over redirects.
pub mod Address
pub mod Url
pub mod Target
pub mod Redirects
mod Vetted
mod Contacts
mod Body
mod Limits
mod Response
mod Networks
mod Tests
