-- ===== src/Lib.antt =====
-- sql-replay, the MySQL query-replay benchmarking tool of avraham-sql-tools.
--
-- The program turns MySQL traffic into a capture file, from a slow log or from a pcap file, and
-- replays the capture against another server. In a pcap file the segments of each TCP connection
-- are put in order, the bytes of each direction are cut into MySQL packets, and the packets give
-- statements, with the parameters of prepared statements put in. Each statement gets the
-- fingerprint of its class, and the safety gate decides whether it may run on a server without
-- `--allow-writes`. The files model these parts, all in crates/sql-replay/src:
--
--   Pcap/Seq          pcap.rs, `SeqStream`: `on_syn`, `on_data`, `rel` and `drain`. What the source
--                     hands to the callback `deliver` is a list that the operations return.
--     Slices, Rel, Delivers, Place, Receive: the bytes of a stream, sequence numbers, and what one
--                     segment and then a series of segments deliver.
--   Pcap/Headers      pcap.rs, `strip_link`, `is_ip_fragment` and `parse_ip_tcp`; Fragments has what
--                     they make of fragments and VLAN tags.
--   Wire/Packets      mysqlproto.rs, `PacketAssembler`: `feed`, with `ts_for`, as a function of the
--                     state and a chunk to the state and the packets that it pushes.
--     Stream, Append, Residue, Marks, Chunks, Feeds: a specification on the whole stream, each byte
--                     with its timestamp, and the agreement of `feed` with it. Writes has the frames
--                     of one packet.
--   Wire/Reader       mysqlproto.rs, `Reader` and `parse_greeting`; Encode has the writers.
--   Wire/Literal      mysqlproto.rs, `string_literal`, `bytes_literal` and `hex`; Reads has the readers.
--   Wire/Interpolate  mysqlproto.rs, `interpolate`; Fill has the template of a statement.
--   Wire/UseTarget    mysqlproto.rs, `parse_use_target`.
--   Wire/Decimal      numbers in the decimal form that Rust prints.
--   Wire/Values       mysqlproto.rs, `decode_binary_value` and `float_literal`; Integers has its integers.
--   Wire/Decoder      mysqlproto.rs, `ConnDecoder`: the state, `push_pending` and `queue_event`. Execute is
--                     `com_query_text` and `decode_execute`, Command `on_login` and `on_command`, and
--                     Handlers the handlers of packets, `on_data` and `finish`. An operation is a
--                     function of the decoder to the decoder and the events that it gives out.
--     Adds, Order, Served, Execute/Strings: the statements of a connection from packets to events, and a
--                     writer of the command that executes a statement.
--   Pcap/Engine       pcap.rs, `PcapEngine`: `finalize`, `drain_events` and `finish`; Steps is
--                     `on_packet`, in its steps. The calls of the sink are a list that they return.
--     Accounts, Balance, Runs, Sessions: the counts of connections, and the ids of sessions.
--   Slowlog           slowlog.rs: the state of `SlowLogParser` and the dialect; Values has the lines'
--                     values, Headers `handle_header` and `handle_banner`, Parser `push_line`, `finish`
--                     and `scan_sql_state`. A line gives the parser and a query that it ends.
--     Statements, Entries, Meta, Banners: the text of a statement, whole entries, and what lines
--                     leave alone.
--   Spool             spool.rs: events and `Filters`; Window is `TimeWindow::parse`, Build `Spool::build` in
--                     its two passes, Cursor the records and `SpoolCursor`. The two readings of the
--                     capture are two lists of events, and the file is the list of its bytes.
--     Reads, Groups, Plan, Fill, RoundTrip: a region read back, events by sessions, the sizes and the
--                     layout, the records in their places, and a spool as a whole.
--   Fingerprint       fingerprint.rs: Scan is the main loop of `fingerprint`, Collapse the two collapses
--                     of lists, Normalize the whole function and `FingerprintRegistry`.
--     Bounds, Literals, Collapse/Groups, Normalize/Registry: fuel, string literals, groups of
--                     placeholders, and ids.
--   Classify          classify.rs: Lexer has the skips, Scanner `TokenScanner`, Gate `classify`,
--                     `has_trailing_statement`, `should_execute` and `is_use_statement`,
--                     Volatile `is_nondeterministic`.
--     Bounds, Tokens, Reads, Case, Text, Volatile/Sources, Volatile/Before: fuel, a specification on
--                     the code of a text and its list of words, letter case, texts, and the names
--                     that make a text nondeterministic.
--   Int               signed integers, for times.
--   Ascii, Utf8       the character classes of Rust's `u8` and `char`, and methods of `str`: `from_utf8`,
--                     `trim`, `find`, `split_whitespace` and others.
--   Base              library names, Boolean tests, and lists over the native numbers.
--   Tests             runs at fixed inputs, and each result below at a concrete input.
--
-- A text is the list of its bytes, and a position in it is the list of the bytes from there on.
-- Timestamps in microseconds are numbers, and signed ones in the spool. Sequence numbers and offsets
-- wrap around as in a release build, `% 2 ^ 32` and `% 2 ^ 64`, as do the nesting depth of the safety
-- gate's scanner and the ids of fingerprints, in 32 bits. Loops that are not structural run on
-- fuel, which is the length of the text: each round takes a byte at least. For the main scans the
-- Bounds modules and the proofs on `interpolate` and `feed` show that more fuel changes nothing; the collapses of lists and the walk over IPv6 extension headers are built alike.
--
-- A latency is kept in microseconds, where the source divides it by a million. The text that Rust
-- prints for a finite float is a parameter, `float_text`, of the definitions that use it, as is in
-- `Slowlog.Outside` what the slow log parser calls of `f64` and of the crate time, in
-- `Spool.Cursor.Serde` what the spool calls of serde, and in Spool/Window the crate time. A `HashMap`
-- is an association list, and counters in 64 bits are numbers without a bound.
--
-- Not modelled: `scan_pcap_file`, which frames a file by the crate pcap-parser; the temporary file of
-- spool.rs; aggregate.rs, compare.rs, baseline.rs, replay.rs and report.rs. Left aside as
-- input and output or glue: format.rs but for its events, capture.rs, target.rs, compare_html.rs, memtune.rs and main.rs.
mod Base
pub mod Ascii
pub mod Int
pub mod Utf8
pub mod Fingerprint
pub mod Classify
pub mod Wire
pub mod Pcap
pub mod Slowlog
pub mod Spool
mod Tests
