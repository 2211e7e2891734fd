-- ===== src/Pcap.antt =====
-- crates/sql-replay/src/pcap.rs: from captured packets to the byte streams of MySQL connections.
pub mod Seq
pub mod Headers
pub mod Engine
