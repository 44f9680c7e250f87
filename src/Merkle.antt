-- ===== src/Merkle.antt =====
-- Package merkle: trees over field hashes and their proofs.
pub mod Tree
pub mod Causal
pub mod Fields
pub mod Redaction
