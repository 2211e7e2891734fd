-- ===== src/Wire.antt =====
-- crates/sql-replay/src/mysqlproto.rs: the MySQL wire-protocol decoder.
pub mod Literal
pub mod Interpolate
pub mod Reader
pub mod Packets
pub mod UseTarget
pub mod Decimal
pub mod Values
pub mod Decoder
