-- ===== src/Classify.antt =====
-- crates/sql-replay/src/classify.rs: the replay safety gate and the nondeterminism classifier.
pub mod Lexer
pub mod Scanner
pub mod Gate
pub mod Bounds
pub mod Tokens
pub mod Reads
pub mod Case
pub mod Text
pub mod Volatile
