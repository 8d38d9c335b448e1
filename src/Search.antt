-- ===== src/Search.antt =====
-- The candidate lists of rag/search.py: fusion of rankings, duplicates, and mandatory documents.
pub mod Provenance
pub mod Keys
pub mod Probes
pub mod Fusion
pub mod Unique
pub mod Ranking
pub mod Required
pub mod Distinct
pub mod Selected
pub mod Mandatory
pub mod Similar
pub mod Variant
pub mod Dedup
pub mod Represented
pub mod Absorbed
pub mod Pool
pub mod Ranked
pub mod Protected
pub mod Heads
pub mod Leaders
pub mod Arm
pub mod Strict
pub mod Arms
pub mod Joint
