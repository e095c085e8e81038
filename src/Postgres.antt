-- ===== src/Postgres.antt =====
-- internal/store/postgres.go.
pub mod Tables
pub mod Statements
pub mod Advisory
pub mod Replace
pub mod Delete
pub mod Reads
pub mod Query
pub mod Integrity
pub mod Stages
pub mod Kept
pub mod Deletion
pub mod Loading
pub mod Opening
pub mod Stored
pub mod RoundTrip
pub mod Gone
pub mod Others
pub mod Isolation
pub mod Total
pub mod Posted
