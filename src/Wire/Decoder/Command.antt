-- ===== src/Wire/Decoder/Command.antt =====
-- `on_login` and `on_command` of `ConnDecoder`.
use avraham_sql_tools.Base.{
  ℕ, ◌+◌, ◌/◌, ◌%◌, ◌^◌, Bool, true, false, not, ◌&&◌, ◌||◌, Option, none, some, ◌>>=◌, List, [],
  ◌∷◌, ◌++◌, ◌==◌, ltb, leb, if◌then◌else◌, Bytes, codes, length, take, drop,
}
use avraham_sql_tools.Utf8.Lossy.{from_utf8_lossy}
use avraham_sql_tools.Wire.Decoder.{
  ConnDecoder, prepare, silent, InFlight, bad_handshake, tls, compressed, established, next_seq,
  remove_stmt, append_long, drop_long, push_pending, queue_event, ignore_command, or_else,
}
use avraham_sql_tools.Wire.Decoder.Execute.{com_query_text, decode_execute}
use avraham_sql_tools.Wire.Packets.{LogicalPacket}
use avraham_sql_tools.Wire.Reader.{Read, u8, skip, take_bytes, cstring, from_le, lenenc_bytes}
use avraham_sql_tools.Wire.UseTarget.{double, non_empty}

-- `caps & (1 << bit) != 0`
abbrev pub has_bit : ℕ → ℕ → Bool
has_bit bit caps = caps / 2 ^ bit % 2 == 1

abbrev pub protocol_41 : ℕ
protocol_41 = 9

abbrev pub query_attributes : ℕ
query_attributes = 27

-- The authentication data behind the user's name, in the form that the flags announce.
unfoldable pub skip_auth : ℕ → Bytes → Read Bytes
unfolding lenenc_bytes u8 take_bytes cstring
skip_auth caps r =
    if has_bit 21 caps
    then lenenc_bytes r
    else if has_bit 15 caps
    then (do (n, r') ← u8 r; take_bytes n r')
    else cstring r

-- The database that the handshake response names, if it names one.
unfoldable pub login_db : ℕ → Bytes → Option Bytes
unfolding skip_auth from_utf8_lossy cstring
login_db caps r = do
  (auth, r1) ← skip_auth caps r
  (name, r2) ← (if has_bit 3 caps then cstring r1 else none)
  some_name ← non_empty name
  some (from_utf8_lossy some_name)

-- The user and the database; what does not parse is left as it is.
unfoldable pub login_names : ℕ → Bytes → ConnDecoder → ConnDecoder
unfolding login_db from_utf8_lossy skip cstring
login_names caps p st = elim (cstring (skip (4 + 4 + 1 + 23) p)) [
  | none ↦ st
  | some (user, r) ↦ record st {
    user = some (from_utf8_lossy user);
    db = or_else (login_db caps r) st.db;
  }
]

unfoldable pub on_login : ConnDecoder → Bytes → ConnDecoder
unfolding login_names from_le
on_login st p =
    let caps = from_le (take 4 p) in
    let both = has_bit query_attributes caps && has_bit query_attributes st.server_caps in
    if ltb (length p) 4
    then record st { disposition = bad_handshake }
    else if not (has_bit protocol_41 caps)
    then record st { disposition = bad_handshake }
    else if has_bit 11 caps
    then record st { disposition = tls }
    else if has_bit 5 caps || has_bit 26 caps
    then record st { disposition = compressed }
    else record (login_names caps p (record st { caps = caps; query_attrs = both })) {
      phase = established;
    }

-- `USE` and the name of a COM_INIT_DB.
abbrev pub use_text : Bytes → Bytes
use_text db = codes "USE `" ++ (double db ++ b'`' ∷ [])

-- COM_STMT_SEND_LONG_DATA, with `p` the bytes behind the command byte.
unfoldable pub send_long_data : Bytes → ConnDecoder → ConnDecoder
unfolding append_long from_le
send_long_data p st =
    if leb 6 (length p)
    then record st {
      long_data =
          append_long (from_le (take 4 p), from_le (take 2 (drop 4 p))) (drop 6 p) st.long_data;
    }
    else st

unfoldable pub close_stmt : Bytes → ConnDecoder → ConnDecoder
unfolding remove_stmt drop_long from_le
close_stmt p st =
    let id = from_le (take 4 p) in
    if leb 4 (length p)
    then record st { stmts = remove_stmt id st.stmts; long_data = drop_long id st.long_data }
    else st

unfoldable pub reset_stmt : Bytes → ConnDecoder → ConnDecoder
unfolding drop_long from_le
reset_stmt p st =
    if leb 4 (length p)
    then record st { long_data = drop_long (from_le (take 4 p)) st.long_data }
    else st

-- What an execute that was or was not expanded does.
unfoldable pub on_execute : ℕ → ℕ → ConnDecoder × Option Bytes → ConnDecoder
unfolding queue_event push_pending
on_execute seq ts (st, some query) = queue_event seq ts query (record st {
  stats = record st.stats { statements_expanded = st.stats.statements_expanded + 1 };
})
on_execute seq ts (st, none) = push_pending seq silent (record st {
  stats = record st.stats { statements_inexpandable = st.stats.statements_inexpandable + 1 };
})

unfoldable pub on_query : ℕ → ℕ → Option Bytes → ConnDecoder → ConnDecoder
unfolding queue_event push_pending from_utf8_lossy
on_query seq ts (some text) st = queue_event seq ts (from_utf8_lossy text) st
on_query seq ts none st = push_pending seq silent (ignore_command st)

unfoldable pub on_init_db : ℕ → ℕ → Bytes → ConnDecoder → ConnDecoder
unfolding queue_event from_utf8_lossy double
on_init_db seq ts p st =
    let db = from_utf8_lossy p in queue_event seq ts (use_text db) (record st { db = some db })

-- A command with nothing in flight: the previous response is over.
abbrev pub is_idle : List InFlight → Bool
is_idle [] = true
is_idle (f ∷ fs) = false

abbrev pub settle_response : ConnDecoder → ConnDecoder
settle_response st = record st {
  server_cont_seq = if is_idle st.pending then none else st.server_cont_seq;
}

module _ (float_text : Bytes → Bytes) where
  -- The `match` on the command byte, with `p` the bytes behind it.
  unfoldable pub run_command : ℕ → ℕ → ℕ → Bytes → ConnDecoder → ConnDecoder
  unfolding on_query com_query_text on_init_db push_pending on_execute decode_execute send_long_data
      close_stmt reset_stmt from_utf8_lossy
  run_command cmd seq ts p st =
      if cmd == 0x03
      then on_query seq ts (com_query_text float_text st p) st
      else if cmd == 0x02
      then on_init_db seq ts p st
      else if cmd == 0x16
      then push_pending seq (prepare (from_utf8_lossy p)) st
      else if cmd == 0x17
      then on_execute seq ts (decode_execute float_text st p)
      else if cmd == 0x18
      then send_long_data p st
      else if cmd == 0x19
      then close_stmt p st
      else if cmd == 0x1a
      then push_pending seq silent (reset_stmt p st)
      else if cmd == 0x01
      then record st { finished = true }
      else push_pending seq silent (ignore_command st)

  unfoldable pub on_payload : ℕ → ℕ → Bytes → ConnDecoder → ConnDecoder
  unfolding run_command
  on_payload seq ts [] st = st
  on_payload seq ts (cmd ∷ p) st = run_command cmd seq ts p st

  unfoldable pub on_command : ConnDecoder → LogicalPacket → ConnDecoder
  unfolding on_payload
  on_command st pkt =
      on_payload (next_seq pkt.last_seq) pkt.ts_micros pkt.payload (settle_response st)
