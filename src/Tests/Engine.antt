-- ===== src/Tests/Engine.antt =====
-- Runs of `PcapEngine` of pcap.rs, and its theorems at concrete inputs.
use avraham_sql_tools.Base.{
  ℕ, ◌+◌, ◌≡◌, refl, ◌++◌, ◌∷◌, [], List, Bytes, replicate, true, false, Bool, length,
}
use avraham_sql_tools.Pcap.Engine.Accounts.{done, live, IsBalanced}
use avraham_sql_tools.Pcap.Engine.Runs.{on_frames, on_packet-IsBalanced, finish-on_frames}
use avraham_sql_tools.Pcap.Engine.Steps.{on_packet}
use avraham_sql_tools.Pcap.Seq
use avraham_sql_tools.Wire.Packets
use avraham_sql_tools.Pcap.Engine.{new, PcapEngine, finish}

abbrev plain : Bytes → Bytes
plain b = b

-- A datagram of IPv4 without an Ethernet header, from 10.0.0.1, with these ports, flags and payload.
abbrev datagram : List ℕ → ℕ → List ℕ → Bytes
datagram ports flags payload =
    0x45 ∷ 0 ∷ 0 ∷ (40 + length payload) ∷ replicate 5 0
    ++ (6 ∷ 0 ∷ 0 ∷ 10 ∷ 0 ∷ 0 ∷ 1 ∷ 10 ∷ 0 ∷ 0 ∷ 1 ∷ [])
    ++ ports
    ++ replicate 8 0
    ++ (0x50 ∷ flags ∷ replicate 6 0)
    ++ payload

abbrev to_server : List ℕ
to_server = 0x03 ∷ 0xe8 ∷ 0x0c ∷ 0xea ∷ []

abbrev to_client : List ℕ
to_client = 0x0c ∷ 0xea ∷ 0x03 ∷ 0xe8 ∷ []

-- A SYN, the same again, a payload from the server that is no greeting, and a FIN of a new connection.
abbrev frames : List (ℕ × ℕ × Bytes × Bool)
frames =
    (1, 101, datagram to_server 2 [], false)
    ∷ (2, 101, datagram to_server 2 [], false)
    ∷ (3, 101, datagram to_client 16 (1 ∷ 0 ∷ 0 ∷ 0 ∷ 9 ∷ []), false)
    ∷ (4, 101, datagram (0x03 ∷ 0xe9 ∷ 0x0c ∷ 0xea ∷ []) 1 [], true)
    ∷ []

counted :
    let stats = (finish (on_frames plain frames (new 3306))).0.stats in
    stats.packets ∷ stats.connections ∷ stats.connections_midstream_skipped
      ∷ stats.connections_decoded ∷ stats.truncated_packets ∷ []
    ≡ 4 ∷ 2 ∷ 1 ∷ 1 ∷ 1 ∷ []
unfolding on_frames finish on_packet Seq.place Seq.rel Seq.start Seq.drain Packets.feed_loop
counted = refl

on_packet-IsBalanced_example :
    IsBalanced (on_packet plain 1 101 (datagram to_server 2 []) false (new 3306)).0
unfolding live
on_packet-IsBalanced_example =
    on_packet-IsBalanced plain 1 101 (datagram to_server 2 []) false (new 3306) refl

finish-on_frames_example :
    let stats = (finish (on_frames plain frames (new 3306))).0.stats in
    stats.connections ≡ done stats
finish-on_frames_example = finish-on_frames plain 3306 frames

-- The thread id 7 is taken already.
abbrev with_session : PcapEngine
with_session = record (new 3306) { used_session_ids = 7 ∷ [] }
