-- ===== src/Tests.antt =====
-- Runs of the model on concrete inputs, and instances of the theorems.
pub mod Samples
mod Indexing
mod Structures
mod Payloads
mod Serving
mod Selecting
mod Database
mod Others
mod Posting
mod Starting
