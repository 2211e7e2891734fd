-- ===== src/Tests.antt =====
-- Runs of the models at fixed inputs, and each headline theorem at a concrete input.
mod Gate
mod Wire
mod Decoder
mod Engine
mod Slowlog
mod Spool
mod Pcap
mod Shapes
mod Volatile
mod Headers
