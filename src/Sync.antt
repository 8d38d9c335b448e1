-- ===== src/Sync.antt =====
-- The indexing of documents, rag/sync.py.
pub mod Chunks
pub mod Cuts
pub mod Rounds
pub mod Cover
pub mod Sizes
pub mod Split
pub mod Parts
pub mod Embed
pub mod Enough
pub mod Refines
