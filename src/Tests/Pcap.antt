-- ===== src/Tests/Pcap.antt =====
-- Runs of pcap.rs, and its theorems at concrete inputs.
use avraham_sql_tools.Base.{ℕ, ◌+◌, ◌%◌, ◌≤◌, ◌≡◌, refl, true, false, ◌∷◌, [], List, Bytes, arith}
use avraham_sql_tools.Pcap.Seq.Delivers.{bytes_of, Delivers}
use avraham_sql_tools.Pcap.Seq.Receive.{
  Arrival, receive, AllGenuine, on_data-Delivers, receive_prefix, on_data-advances, on_syn-IsWell,
}
use avraham_sql_tools.Pcap.Seq.Rel.{rel_exact}
use avraham_sql_tools.Pcap.Seq.Slices.{Stream, slice}
use avraham_sql_tools.Pcap.Seq.{SeqStream, new, on_syn, rel, on_data, u32_mod}

-- The stream whose byte at each offset is the offset.
abbrev count : Stream
count n = n

-- The initial sequence number is near the wraparound.
abbrev begun : SeqStream
begun = record {
  started = true;
  isn = 0xfffffffe;
  next_rel = 0;
  pending = [];
  pending_bytes = 0;
  overflow = false;
}

rel_exact_example : rel begun ((begun.isn + 5) % u32_mod) ≡ 5
rel_exact_example =
    rel_exact begun 5 (omega arith) (omega arith) (omega arith) (omega arith) (omega arith)

abbrev arrival : ℕ → Bytes → Arrival
arrival seq payload = record { ts = 0; seq = seq; payload = payload }

-- Out of order, then the gap, then a repeat that overlaps; the sequence numbers wrap around.
abbrev arrivals : List Arrival
arrivals =
    arrival 0 (2 ∷ 3 ∷ [])
    ∷ arrival 0xfffffffe (0 ∷ 1 ∷ [])
    ∷ arrival 0xffffffff (1 ∷ 2 ∷ 3 ∷ 4 ∷ [])
    ∷ []

runs : Unit {0}
unfolding receive on_syn on_data avraham_sql_tools.Pcap.Seq.place avraham_sql_tools.Pcap.Seq.start
    rel avraham_sql_tools.Pcap.Seq.drain avraham_sql_tools.Pcap.Seq.insert_vacant
    avraham_sql_tools.Pcap.Seq.contains slice
runs = tt

in_order : bytes_of (receive (on_syn new 0xfffffffd) arrivals).1 ≡ 0 ∷ 1 ∷ 2 ∷ 3 ∷ 4 ∷ []
unfolding runs
in_order = refl

genuine : AllGenuine count (on_syn new 0xfffffffd) arrivals
unfolding runs
genuine = (
  record {
    offset = 2;
    numbered = refl;
    part = (refl, omega arith);
    ahead = omega arith;
    behind = omega arith;
  },
  (
    record {
      offset = 0;
      numbered = refl;
      part = (refl, omega arith);
      ahead = omega arith;
      behind = omega arith;
    },
    (
      record {
        offset = 1;
        numbered = refl;
        part = (refl, omega arith);
        ahead = omega arith;
        behind = omega arith;
      },
      tt,
    ),
  ),
)

receive_prefix_example :
    bytes_of (receive (on_syn new 0xfffffffd) arrivals).1
    ≡ slice count 0 (receive (on_syn new 0xfffffffd) arrivals).0.next_rel
receive_prefix_example = receive_prefix count new 0xfffffffd arrivals genuine

on_data-Delivers_example :
    Delivers count
      (on_syn new 0xfffffffd).isn
      (on_syn new 0xfffffffd).next_rel
      (on_data (on_syn new 0xfffffffd) 0 0 (2 ∷ 3 ∷ []))
on_data-Delivers_example =
    on_data-Delivers count (on_syn new 0xfffffffd) 0 0 (2 ∷ 3 ∷ [])
      (on_syn-IsWell count new 0xfffffffd) genuine.0

on_data-advances_example :
    0 + 2 ≤ (on_data (on_syn new 0xfffffffd) 0 0xfffffffe (0 ∷ 1 ∷ [])).0.next_rel
unfolding runs
on_data-advances_example =
    on_data-advances count (on_syn new 0xfffffffd) 0 0xfffffffe (0 ∷ 1 ∷ [])
      (on_syn-IsWell count new 0xfffffffd)
      (record {
        offset = 0;
        numbered = refl;
        part = (refl, omega arith);
        ahead = omega arith;
        behind = omega arith;
      })
      refl (omega arith)

-- A later segment at the offset of a buffered one is dropped, also if it is longer: the byte 4 is
-- not delivered, although it has arrived.
longer_is_dropped :
    bytes_of
      (receive (on_syn new 0xfffffffd) (
        arrival 0 (2 ∷ 3 ∷ [])
        ∷ arrival 0 (2 ∷ 3 ∷ 4 ∷ [])
        ∷ arrival 0xfffffffe (0 ∷ 1 ∷ [])
        ∷ [])).1
    ≡ 0 ∷ 1 ∷ 2 ∷ 3 ∷ []
unfolding runs
longer_is_dropped = refl
