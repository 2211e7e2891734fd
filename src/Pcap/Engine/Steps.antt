-- ===== src/Pcap/Engine/Steps.antt =====
-- `on_packet` of `PcapEngine`, in its steps.
use avraham_sql_tools.Base.{
  ℕ, ◌+◌, ◌%◌, ◌^◌, Bool, true, false, not, ◌&&◌, ◌||◌, Option, none, some, List, [], ◌∷◌, ◌++◌,
  ◌==◌, ltb, if◌then◌else◌, Bytes, bytes_eq, length,
}
use avraham_sql_tools.Pcap.Engine.{
  PcapStats, FlowKey, ConnState, new_conn, PcapEngine, Emitted, conn_at, store, remove, Drained,
  drain_events, finalize, lost_packets,
}
use avraham_sql_tools.Pcap.Headers.{TcpSegment, strip_link, is_ip_fragment, parse_ip_tcp}
use avraham_sql_tools.Pcap.Seq.{Chunk, on_syn, on_data}
use avraham_sql_tools.Wire.Decoder.{ConnDecoder, ProtoEvent, Dir, client, server, is_active}
use avraham_sql_tools.Wire.Decoder.Handlers

abbrev pub Result : Type 0
Result = PcapEngine × Emitted

-- The connection that a segment belongs to, and the direction, from the server's port.
unfoldable pub flow_of : ℕ → TcpSegment → Option (FlowKey × Dir)
flow_of port seg =
    if seg.src.port == port
    then some (record { client = seg.dst; server = seg.src }, server)
    else if seg.dst.port == port
    then some (record { client = seg.src; server = seg.dst }, client)
    else none

abbrev pub count_packet : Bool → PcapEngine → PcapEngine
count_packet truncated eng = record eng {
  stats = record eng.stats {
    packets = eng.stats.packets + 1;
    truncated_packets =
        if truncated then eng.stats.truncated_packets + 1 else eng.stats.truncated_packets;
  };
}

abbrev pub is_client : Dir → Bool
is_client client = true
is_client server = false

abbrev pub is_fresh_syn : TcpSegment → Dir → Bool
is_fresh_syn seg dir = seg.syn && not seg.ack && is_client dir

-- A SYN of the connection that is there, sent again.
abbrev pub is_syn_retransmit : TcpSegment → ConnState → Bool
is_syn_retransmit seg c = not c.finished && c.c2s.started && c.c2s.isn == (seg.seq + 1) % 2 ^ 32

-- The predecessor of a new connection on the same endpoints is finalized and removed.
unfoldable pub replace_conn : FlowKey → Option ConnState → TcpSegment → PcapEngine → Result
unfolding finalize remove
replace_conn key none seg eng = (eng, [])
replace_conn key (some old) seg eng =
    let d = finalize (record eng { conns = remove key eng.conns }) old in
    if is_syn_retransmit seg old then (eng, []) else (d.eng, d.out)

unfoldable pub replace_old : FlowKey → Dir → TcpSegment → PcapEngine → Result
unfolding replace_conn conn_at
replace_old key dir seg eng =
    if is_fresh_syn seg dir then replace_conn key (conn_at key eng.conns) seg eng else (eng, [])

-- `entry(key)`: the connection, a new one where there is none.
unfoldable pub entry : FlowKey → Option ConnState → PcapEngine → PcapEngine × ConnState
unfolding store
entry key (some c) eng = (eng, c)
entry key none eng = (
  record eng {
    conns = store key new_conn eng.conns;
    stats = record eng.stats { connections = eng.stats.connections + 1 };
  },
  new_conn,
)

unfoldable pub syn_to : Dir → TcpSegment → ConnState → ConnState
unfolding on_syn
syn_to client seg c = if seg.syn then record c { c2s = on_syn c.c2s seg.seq } else c
syn_to server seg c = if seg.syn then record c { s2c = on_syn c.s2c seg.seq } else c

-- The stream of the direction with a segment in it, and what it delivers.
unfoldable pub data_to : Dir → ℕ → TcpSegment → ConnState → ConnState × List Chunk
unfolding on_data
data_to client ts seg c =
    let r = on_data c.c2s ts seg.seq seg.payload in (record c { c2s = r.0 }, r.1)
data_to server ts seg c =
    let r = on_data c.s2c ts seg.seq seg.payload in (record c { s2c = r.0 }, r.1)

abbrev pub contains_text : Bytes → List Bytes → Bool
contains_text v [] = false
contains_text v (w ∷ ws) = bytes_eq w v || contains_text v ws

unfoldable pub add_version : Bytes → PcapStats → PcapStats
unfolding bytes_eq
add_version v s =
    if not (contains_text v s.server_versions) && ltb (length s.server_versions) 8
    then record s { server_versions = s.server_versions ++ v ∷ [] }
    else s

-- The server's version is recorded once for a connection.
unfoldable pub record_version : Option Bytes → PcapEngine → ConnState → PcapEngine × ConnState
unfolding add_version
record_version none eng c = (eng, c)
record_version (some v) eng c =
    if c.version_recorded
    then (eng, c)
    else (record eng { stats = add_version v eng.stats }, record c { version_recorded = true })

unfoldable pub fin_from : Dir → Bool → ConnState → ConnState
fin_from client fin c = record c { fin_client = c.fin_client || fin }
fin_from server fin c = record c { fin_server = c.fin_server || fin }

abbrev pub is_closed : TcpSegment → ConnState → Bool
is_closed seg c = seg.rst || (c.fin_client && c.fin_server)

abbrev pub is_done_decoding : ConnState → Bool
is_done_decoding c = not (is_active c.dec.disposition) || lost_packets c

abbrev pub put_back : FlowKey → Drained → Result
put_back key d = (record d.eng { conns = store key d.conn d.eng.conns }, d.out)

-- The connection is over, or gives out what it has decoded.
unfoldable pub close_or_drain : FlowKey → TcpSegment → PcapEngine → ConnState → Result
unfolding finalize drain_events store
close_or_drain key seg eng c =
    put_back key
      (if is_closed seg c || is_done_decoding c then finalize eng c else drain_events eng c)

abbrev pub count_fragment : Bytes → PcapEngine → PcapEngine
count_fragment ip eng =
    if is_ip_fragment ip
    then record eng {
      stats = record eng.stats { ip_fragments_skipped = eng.stats.ip_fragments_skipped + 1 };
    }
    else eng

module _ (float_text : Bytes → Bytes) where
  -- The calls of the decoder for what a stream delivers.
  unfoldable pub decode_chunks : Dir → List Chunk → ConnDecoder → ConnDecoder × List ProtoEvent
  unfolding Handlers.on_data
  decode_chunks dir [] dec = (dec, [])
  decode_chunks dir ((ts, bytes) ∷ chunks) dec =
      let r = Handlers.on_data float_text dir ts bytes dec in
      let more = decode_chunks dir chunks r.0 in (more.0, r.1 ++ more.1)

  -- The bytes of the segment, through the stream and the decoder.
  unfoldable pub deliver : Dir → ℕ → TcpSegment → PcapEngine → ConnState → PcapEngine × ConnState
  unfolding data_to decode_chunks
  deliver dir ts seg eng c =
      let r = data_to dir ts seg c in
      let decoded = decode_chunks dir r.1 r.0.dec in
      (record eng { evbuf = eng.evbuf ++ decoded.1 }, record r.0 { dec = decoded.0 })

  -- A segment of a connection that is not finished.
  unfoldable pub on_live : FlowKey → Dir → ℕ → TcpSegment → PcapEngine → ConnState → Result
  unfolding syn_to deliver record_version fin_from close_or_drain
  on_live key dir ts seg eng c =
      let delivered = deliver dir ts seg eng (syn_to dir seg c) in
      let versioned = record_version delivered.1.dec.server_version delivered.0 delivered.1 in
      close_or_drain key seg versioned.0 (fin_from dir seg.fin versioned.1)

  -- Behind `entry`; a finished connection is a tombstone.
  unfoldable pub on_entry : FlowKey → Dir → ℕ → TcpSegment → PcapEngine × ConnState → Result
  unfolding on_live
  on_entry key dir ts seg (eng, c) = if c.finished then (eng, []) else on_live key dir ts seg eng c

  unfoldable pub on_segment : FlowKey → Dir → ℕ → TcpSegment → PcapEngine → Result
  unfolding replace_old entry conn_at on_entry
  on_segment key dir ts seg eng =
      let replaced = replace_old key dir seg eng in
      let r = on_entry key dir ts seg (entry key (conn_at key replaced.0.conns) replaced.0) in
      (r.0, replaced.1 ++ r.1)

  unfoldable pub on_tcp : ℕ → Bool → TcpSegment → PcapEngine → Result
  unfolding flow_of on_segment
  on_tcp ts truncated seg eng = elim (flow_of eng.port seg) [
    | none ↦ (eng, [])
    | some (key, dir) ↦ on_segment key dir ts seg (count_packet truncated eng)
  ]

  unfoldable pub on_ip : ℕ → Bool → Bytes → PcapEngine → Result
  unfolding parse_ip_tcp on_tcp is_ip_fragment
  on_ip ts truncated ip eng = elim (parse_ip_tcp ip) [
    | none ↦ (count_fragment ip eng, [])
    | some seg ↦ on_tcp ts truncated seg eng
  ]

  unfoldable pub on_packet : ℕ → ℕ → Bytes → Bool → PcapEngine → Result
  unfolding strip_link on_ip
  on_packet ts linktype frame truncated eng = elim (strip_link linktype frame) [
    | none ↦ (eng, [])
    | some ip ↦ on_ip ts truncated ip eng
  ]
