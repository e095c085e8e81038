-- ===== src/Domain.antt =====
-- internal/domain: indexing, normalization, payload validation and selection.
pub mod Model
pub mod Index
pub mod Normalize
pub mod Axes
pub mod Structure
pub mod Channels
pub mod Remap
pub mod Payload
pub mod Selection
