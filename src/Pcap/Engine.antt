-- ===== src/Pcap/Engine.antt =====
-- `PcapEngine` of pcap.rs: connections by their endpoints, from frames to the statements of sessions.
-- What the source hands to its sink is a list. A `HashMap` is an association list, in the order in
-- which keys came, and counters are numbers without a bound.
pub mod Steps
pub mod Accounts
pub mod Balance
pub mod Runs
pub mod Sessions
use avraham_sql_tools.Base.{
  ℕ, zero, suc, ◌+◌, ◌*◌, ◌%◌, ◌^◌, Bool, true, false, not, ◌&&◌, ◌||◌, Option, none, some, List,
  [], ◌∷◌, ◌++◌, map, ◌==◌, ltb, if◌then◌else◌, Bytes, bytes_eq, length,
}
use avraham_sql_tools.Pcap.Headers.{Endpoint}
use avraham_sql_tools.Pcap.Seq
use avraham_sql_tools.Pcap.Seq.{SeqStream}
use avraham_sql_tools.Wire.Decoder
use avraham_sql_tools.Wire.Decoder.{
  ConnDecoder, ConnStats, ProtoEvent, Disposition, active, tls, compressed, bad_handshake, broken,
}
use avraham_sql_tools.Wire.Decoder.Handlers

pub record PcapStats : Type 0 where
  pub packets : ℕ
  pub truncated_packets : ℕ
  pub ip_fragments_skipped : ℕ
  pub connections : ℕ
  pub connections_decoded : ℕ
  pub connections_tls_skipped : ℕ
  pub connections_compressed_skipped : ℕ
  pub connections_midstream_skipped : ℕ
  pub connections_broken : ℕ
  pub statements_expanded : ℕ
  pub statements_inexpandable : ℕ
  pub commands_ignored : ℕ
  pub responses_missing : ℕ
  pub server_versions : List Bytes

abbrev pub no_stats : PcapStats
no_stats = record {
  packets = 0;
  truncated_packets = 0;
  ip_fragments_skipped = 0;
  connections = 0;
  connections_decoded = 0;
  connections_tls_skipped = 0;
  connections_compressed_skipped = 0;
  connections_midstream_skipped = 0;
  connections_broken = 0;
  statements_expanded = 0;
  statements_inexpandable = 0;
  commands_ignored = 0;
  responses_missing = 0;
  server_versions = [];
}

pub record FlowKey : Type 0 where
  pub client : Endpoint
  pub server : Endpoint

abbrev pub same_endpoint : Endpoint → Endpoint → Bool
same_endpoint a b = bytes_eq a.addr b.addr && a.port == b.port

abbrev pub same_flow : FlowKey → FlowKey → Bool
same_flow a b = same_endpoint a.client b.client && same_endpoint a.server b.server

pub record ConnState : Type 0 where
  pub dec : ConnDecoder
  pub c2s : SeqStream
  pub s2c : SeqStream
  pub session_id : Option ℕ
  pub fin_client : Bool
  pub fin_server : Bool
  pub finished : Bool
  pub version_recorded : Bool

abbrev pub new_conn : ConnState
new_conn = record {
  dec = Decoder.new;
  c2s = Seq.new;
  s2c = Seq.new;
  session_id = none;
  fin_client = false;
  fin_server = false;
  finished = false;
  version_recorded = false;
}

abbrev pub Conns : Type 0
Conns = List (FlowKey × ConnState)

pub record PcapEngine : Type 0 where
  pub port : ℕ
  pub conns : Conns
  pub used_session_ids : List ℕ
  pub synthetic_next : ℕ
  pub stats : PcapStats
  pub evbuf : List ProtoEvent

abbrev pub new : ℕ → PcapEngine
new port = record {
  port = port;
  conns = [];
  used_session_ids = [];
  synthetic_next = 2 ^ 48;
  stats = no_stats;
  evbuf = [];
}

-- A call of the sink: the session and its event.
abbrev pub Emitted : Type 0
Emitted = List (ℕ × ProtoEvent)

unfoldable pub conn_at : FlowKey → Conns → Option ConnState
unfolding bytes_eq
conn_at key [] = none
conn_at key ((k, c) ∷ m) = if same_flow k key then some c else conn_at key m

unfoldable pub store : FlowKey → ConnState → Conns → Conns
unfolding bytes_eq
store key c [] = (key, c) ∷ []
store key c ((k, d) ∷ m) =
    let later = (k, d) ∷ store key c m in if same_flow k key then (k, c) ∷ m else later

unfoldable pub remove : FlowKey → Conns → Conns
unfolding bytes_eq
remove key [] = []
remove key ((k, d) ∷ m) = let later = (k, d) ∷ remove key m in if same_flow k key then m else later

unfoldable pub is_used : ℕ → List ℕ → Bool
is_used id [] = false
is_used id (x ∷ xs) = x == id || is_used id xs

-- A new session id: the server's thread id, or a synthetic one where that is not known or taken.
unfoldable pub synthetic_id : PcapEngine → PcapEngine × ℕ
synthetic_id eng = (
  record eng {
    synthetic_next = eng.synthetic_next + 1;
    used_session_ids = eng.synthetic_next ∷ eng.used_session_ids;
  },
  eng.synthetic_next,
)

unfoldable pub new_session_id : PcapEngine → Option ℕ → PcapEngine × ℕ
unfolding synthetic_id is_used
new_session_id eng none = synthetic_id eng
new_session_id eng (some t) =
    if is_used t eng.used_session_ids
    then synthetic_id eng
    else (record eng { used_session_ids = t ∷ eng.used_session_ids }, t)

-- `session_id.get_or_insert_with(..)`
unfoldable pub session_of : PcapEngine → Option ℕ → Option ℕ → PcapEngine × ℕ
unfolding new_session_id
session_of eng none thread_id = new_session_id eng thread_id
session_of eng (some sid) thread_id = (eng, sid)

-- The engine, the connection and what the sink is given.
pub record Drained : Type 0 where
  pub eng : PcapEngine
  pub conn : ConnState
  pub out : Emitted

abbrev pub nothing : PcapEngine → ConnState → Drained
nothing eng conn = record { eng = eng; conn = conn; out = [] }

abbrev pub is_empty : List ProtoEvent → Bool
is_empty [] = true
is_empty (e ∷ es) = false

unfoldable pub drain_events : PcapEngine → ConnState → Drained
unfolding session_of
drain_events eng conn =
    let r = session_of eng conn.session_id conn.dec.thread_id in
    if is_empty eng.evbuf then nothing eng conn else record {
      eng = record r.0 { evbuf = [] };
      conn = record conn { session_id = some r.1 };
      out = map (λ e. (r.1, e)) eng.evbuf;
    }

-- A connection by how its decoding ended.
unfoldable pub count_conn : Disposition → Bool → PcapStats → PcapStats
count_conn active lost s =
    if lost
    then record s { connections_broken = s.connections_broken + 1 }
    else record s { connections_decoded = s.connections_decoded + 1 }
count_conn tls lost s = record s { connections_tls_skipped = s.connections_tls_skipped + 1 }
count_conn compressed lost s = record s {
  connections_compressed_skipped = s.connections_compressed_skipped + 1;
}
count_conn bad_handshake lost s = record s {
  connections_midstream_skipped = s.connections_midstream_skipped + 1;
}
count_conn broken lost s = record s { connections_broken = s.connections_broken + 1 }

unfoldable pub accumulate : ConnStats → PcapStats → PcapStats
accumulate c s = record s {
  statements_expanded = s.statements_expanded + c.statements_expanded;
  statements_inexpandable = s.statements_inexpandable + c.statements_inexpandable;
  commands_ignored = s.commands_ignored + c.commands_ignored;
  responses_missing = s.responses_missing + c.responses_missing;
}

abbrev pub lost_packets : ConnState → Bool
lost_packets c = c.c2s.overflow || c.s2c.overflow

-- The end of `finalize`: the connection is counted.
abbrev pub settle : Drained → Drained
settle d = record d {
  eng = record d.eng {
    stats =
        accumulate d.conn.dec.stats
          (count_conn d.conn.dec.disposition (lost_packets d.conn) d.eng.stats);
  };
}

unfoldable pub close_conn : PcapEngine → ConnState → Drained
unfolding drain_events count_conn accumulate Handlers.finish
close_conn eng conn =
    let last = Handlers.finish conn.dec in
    settle (
      drain_events (record eng { evbuf = eng.evbuf ++ last.1 })
        (record conn { finished = true; dec = last.0 }))

unfoldable pub finalize : PcapEngine → ConnState → Drained
unfolding close_conn
finalize eng conn = if conn.finished then nothing eng conn else close_conn eng conn

-- The loop of `finish`, over the connections.
unfoldable pub finish_conns : Conns → PcapEngine → PcapEngine × Emitted
unfolding finalize
finish_conns [] eng = (eng, [])
finish_conns ((k, c) ∷ m) eng =
    let d = finalize eng c in let more = finish_conns m d.eng in (more.0, d.out ++ more.1)

unfoldable pub finish : PcapEngine → PcapEngine × Emitted
unfolding finish_conns
finish eng = finish_conns eng.conns (record eng { conns = [] })
