-- ===== src/Fingerprint.antt =====
-- crates/sql-replay/src/fingerprint.rs: fingerprints of SQL statements, and their registry.
pub mod Scan
pub mod Bounds
pub mod Collapse
pub mod Normalize
pub mod Literals
