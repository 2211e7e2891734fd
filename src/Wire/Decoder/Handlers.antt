-- ===== src/Wire/Decoder/Handlers.antt =====
-- The packet handlers of `ConnDecoder`, and its interface: `on_data` and `finish`.
use avraham_sql_tools.Base.{
  ℕ, ◌+◌, ◌-◌, Bool, true, false, ◌&&◌, ◌||◌, Option, none, some, List, [], ◌∷◌, ◌++◌, ◌==◌, leb,
  if◌then◌else◌, Bytes, length, take, drop,
}
use avraham_sql_tools.Wire.Decoder.{
  ConnDecoder, ProtoEvent, Pending, event, prepare, silent, InFlight, Dir, client, server,
  bad_handshake, broken, greeting, login, established, decoding, next_seq, insert_stmt,
}
use avraham_sql_tools.Wire.Decoder.Command.{on_login, on_command}
use avraham_sql_tools.Wire.Packets.{LogicalPacket, feed}
use avraham_sql_tools.Wire.Reader.{Greeting, from_le, parse_greeting}

-- What a handler does to the decoder, and the events that it gives out.
abbrev pub Outcome : Type 0
Outcome = ConnDecoder × List ProtoEvent

unfoldable pub on_greeting : ConnDecoder → Option Greeting → ConnDecoder
on_greeting st none = record st { disposition = bad_handshake }
on_greeting st (some g) = record st {
  server_version = some g.version;
  thread_id = some g.thread_id;
  server_caps = g.caps;
  phase = login;
}

-- `p[0]`
abbrev pub first_is_zero : Bytes → Bool
first_is_zero [] = false
first_is_zero (c ∷ p) = c == 0

-- A prepare-OK registers its statement; an ERR packet registers nothing.
unfoldable pub on_prepared : Bytes → Bytes → ConnDecoder → ConnDecoder
unfolding insert_stmt from_le
on_prepared sql p st =
    if leb 9 (length p) && first_is_zero p
    then record st {
      stmts =
          insert_stmt (from_le (take 4 (drop 1 p)))
            (record { sql = sql; num_params = from_le (take 2 (drop 7 p)); param_types = none })
            st.stmts;
    }
    else st

abbrev pub answered : ℕ → ProtoEvent → ProtoEvent
answered ts ev = record ev { latency = ts - ev.ts_micros; response_seen = true }

-- The response to the oldest request begins.
unfoldable pub on_response : Pending → LogicalPacket → ConnDecoder → Outcome
unfolding on_prepared
on_response (event ev) pkt st = (st, answered pkt.ts_micros ev ∷ [])
on_response (prepare sql) pkt st = (on_prepared sql pkt.payload st, [])
on_response silent pkt st = (st, [])

abbrev pub continues : Option ℕ → ℕ → Bool
continues none seq = false
continues (some s) seq = s == seq

-- A packet that continues no response: does it begin the one to the oldest request?
unfoldable pub on_fresh_packet : List InFlight → LogicalPacket → ConnDecoder → Outcome
unfolding on_response
on_fresh_packet [] pkt st = (record st { server_cont_seq = none }, [])
on_fresh_packet (f ∷ fs) pkt st =
    if f.resp_seq == pkt.first_seq
    then on_response f.pending pkt
        (record st { server_cont_seq = some (next_seq pkt.last_seq); pending = fs })
    else (record st { server_cont_seq = none }, [])

unfoldable pub on_established_packet : ConnDecoder → LogicalPacket → Outcome
unfolding on_fresh_packet
on_established_packet st pkt =
    if continues st.server_cont_seq pkt.first_seq
    then (record st { server_cont_seq = some (next_seq pkt.last_seq) }, [])
    else on_fresh_packet st.pending pkt st

unfoldable pub on_server_packet : ConnDecoder → LogicalPacket → Outcome
unfolding on_greeting on_established_packet parse_greeting
on_server_packet st pkt = elim st.phase [
  | greeting ↦ (on_greeting st (parse_greeting pkt.payload), [])
  | login ↦ (record st { disposition = bad_handshake }, [])
  | established ↦ on_established_packet st pkt
]

-- `finish`: the requests in flight become events without a response.
unfoldable pub missing : List InFlight → List ProtoEvent
missing [] = []
missing (f ∷ fs) = elim f.pending [
  | event ev ↦ record ev { response_seen = false; latency = 0 } ∷ missing fs
  | prepare sql ↦ missing fs
  | silent ↦ missing fs
]

unfoldable pub finish : ConnDecoder → Outcome
unfolding missing
finish st = if st.finished then (st, []) else (
  record st {
    finished = true;
    pending = [];
    stats = record st.stats {
      responses_missing = st.stats.responses_missing + length (missing st.pending);
    };
  },
  missing st.pending,
)

-- The decoder with a chunk in the assembler of its direction, and the packets that it completes.
unfoldable pub take_chunk : Dir → ℕ → Bytes → ConnDecoder → ConnDecoder × List LogicalPacket
unfolding feed
take_chunk client ts b st =
    let r = feed st.client_packets ts b in (record st { client_packets = r.0 }, r.1)
take_chunk server ts b st =
    let r = feed st.server_packets ts b in (record st { server_packets = r.0 }, r.1)

module _ (float_text : Bytes → Bytes) where
  unfoldable pub on_client_packet : ConnDecoder → LogicalPacket → ConnDecoder
  unfolding on_login on_command
  on_client_packet st pkt = elim st.phase [
    | greeting ↦ record st { disposition = bad_handshake }
    | login ↦ on_login st pkt.payload
    | established ↦ if pkt.first_seq == 0 then on_command float_text st pkt else st
  ]

  unfoldable pub on_packet : Dir → ConnDecoder → LogicalPacket → Outcome
  unfolding on_client_packet on_server_packet
  on_packet client st pkt = (on_client_packet st pkt, [])
  on_packet server st pkt = on_server_packet st pkt

  -- The loop over the packets, until the decoder has stopped.
  unfoldable pub on_packets : Dir → ConnDecoder → List LogicalPacket → Outcome
  unfolding on_packet
  on_packets dir st [] = (st, [])
  on_packets dir st (pkt ∷ pkts) =
      let r = on_packet dir st pkt in
      let more = on_packets dir r.0 pkts in if decoding r.0 then (more.0, r.1 ++ more.1) else r

  unfoldable pub on_chunk : Dir → ConnDecoder × List LogicalPacket → Outcome
  unfolding on_packets
  on_chunk dir (st, pkts) =
      if st.client_packets.broken || st.server_packets.broken
      then (record st { disposition = broken }, [])
      else on_packets dir st pkts

  unfoldable pub on_data : Dir → ℕ → Bytes → ConnDecoder → Outcome
  unfolding on_chunk take_chunk
  on_data dir ts b st = if decoding st then on_chunk dir (take_chunk dir ts b st) else (st, [])
