-- ===== src/Wire/Decoder.antt =====
-- `ConnDecoder` of mysqlproto.rs: its state, and the parts that its handlers share. A latency is kept
-- in microseconds, which the source divides by a million. A `HashMap` is an association list.
pub mod Execute
pub mod Command
pub mod Handlers
pub mod Adds
pub mod Order
pub mod Served
use avraham_sql_tools.Base.{
  ℕ, zero, suc, ◌+◌, ◌%◌, ◌^◌, Bool, true, false, not, ◌&&◌, ◌||◌, Option, none, some, List, [],
  ◌∷◌, ◌++◌, ◌==◌, if◌then◌else◌, Bytes,
}
use avraham_sql_tools.Wire.Packets
use avraham_sql_tools.Wire.Packets.{PacketAssembler}
use avraham_sql_tools.Wire.UseTarget.{parse_use_target}

pub data Dir : Type 0 where
  client server : Dir

pub record ProtoEvent : Type 0 where
  pub ts_micros : ℕ
  pub query : Bytes
  pub latency : ℕ
  pub response_seen : Bool
  pub db : Option Bytes
  pub user : Option Bytes

pub data Disposition : Type 0 where
  active tls compressed bad_handshake broken : Disposition

pub record ConnStats : Type 0 where
  pub statements_expanded : ℕ
  pub statements_inexpandable : ℕ
  pub commands_ignored : ℕ
  pub responses_missing : ℕ

-- A parameter's type and flags.
abbrev pub ParamType : Type 0
ParamType = ℕ × ℕ

pub record PreparedStmt : Type 0 where
  pub sql : Bytes
  pub num_params : ℕ
  pub param_types : Option (List ParamType)

pub data Pending : Type 0 where
  event : ProtoEvent → Pending
  prepare : Bytes → Pending
  silent : Pending

pub record InFlight : Type 0 where
  pub resp_seq : ℕ
  pub pending : Pending

pub data Phase : Type 0 where
  greeting login established : Phase

pub record ConnDecoder : Type 0 where
  pub phase : Phase
  pub client_packets : PacketAssembler
  pub server_packets : PacketAssembler
  pub disposition : Disposition
  pub caps : ℕ
  pub server_caps : ℕ
  pub query_attrs : Bool
  pub user : Option Bytes
  pub db : Option Bytes
  pub server_version : Option Bytes
  pub thread_id : Option ℕ
  pub stmts : List (ℕ × PreparedStmt)
  pub long_data : List ((ℕ × ℕ) × Bytes)
  pub pending : List InFlight
  pub server_cont_seq : Option ℕ
  pub stats : ConnStats
  pub finished : Bool

abbrev pub no_stats : ConnStats
no_stats = record {
  statements_expanded = 0;
  statements_inexpandable = 0;
  commands_ignored = 0;
  responses_missing = 0;
}

abbrev pub new : ConnDecoder
new = record {
  phase = greeting;
  client_packets = Packets.new;
  server_packets = Packets.new;
  disposition = active;
  caps = 0;
  server_caps = 0;
  query_attrs = false;
  user = none;
  db = none;
  server_version = none;
  thread_id = none;
  stmts = [];
  long_data = [];
  pending = [];
  server_cont_seq = none;
  stats = no_stats;
  finished = false;
}

abbrev pub is_active : Disposition → Bool
is_active active = true
is_active _ = false

abbrev pub decoding : ConnDecoder → Bool
decoding st = not st.finished && is_active st.disposition

-- `seq.wrapping_add(1)`
abbrev pub next_seq : ℕ → ℕ
next_seq seq = (seq + 1) % 256

-- `HashMap` of statements.
unfoldable pub stmt_at : ℕ → List (ℕ × PreparedStmt) → Option PreparedStmt
stmt_at id [] = none
stmt_at id ((k, v) ∷ m) = if k == id then some v else stmt_at id m

unfoldable pub remove_stmt : ℕ → List (ℕ × PreparedStmt) → List (ℕ × PreparedStmt)
remove_stmt id [] = []
remove_stmt id ((k, v) ∷ m) = if k == id then remove_stmt id m else (k, v) ∷ remove_stmt id m

unfoldable pub insert_stmt : ℕ → PreparedStmt → List (ℕ × PreparedStmt) → List (ℕ × PreparedStmt)
unfolding remove_stmt
insert_stmt id v m = (id, v) ∷ remove_stmt id m

abbrev pub same_param : ℕ × ℕ → ℕ × ℕ → Bool
same_param a b = a.0 == b.0 && a.1 == b.1

unfoldable pub long_at : ℕ × ℕ → List ((ℕ × ℕ) × Bytes) → Option Bytes
long_at k [] = none
long_at k ((j, v) ∷ m) = if same_param j k then some v else long_at k m

-- `entry(k).or_default().extend_from_slice(b)`
unfoldable pub append_long : ℕ × ℕ → Bytes → List ((ℕ × ℕ) × Bytes) → List ((ℕ × ℕ) × Bytes)
append_long k b [] = (k, b) ∷ []
append_long k b ((j, v) ∷ m) =
    let later = (j, v) ∷ append_long k b m in if same_param j k then (j, v ++ b) ∷ m else later

-- `retain(|(sid, _), _| *sid != stmt_id)`
unfoldable pub drop_long : ℕ → List ((ℕ × ℕ) × Bytes) → List ((ℕ × ℕ) × Bytes)
drop_long id [] = []
drop_long id ((j, v) ∷ m) = if j.0 == id then drop_long id m else (j, v) ∷ drop_long id m

unfoldable pub push_pending : ℕ → Pending → ConnDecoder → ConnDecoder
push_pending resp_seq p st = record st {
  pending = st.pending ++ record { resp_seq = resp_seq; pending = p } ∷ [];
}

abbrev pub or_else : Option Bytes → Option Bytes → Option Bytes
or_else none d = d
or_else (some x) d = some x

unfoldable pub queue_event : ℕ → ℕ → Bytes → ConnDecoder → ConnDecoder
unfolding push_pending parse_use_target
queue_event resp_seq ts query st =
    let db = or_else (parse_use_target query) st.db in
    push_pending resp_seq
      (event (record {
        ts_micros = ts;
        query = query;
        latency = 0;
        response_seen = false;
        db = db;
        user = st.user;
      }))
      (record st { db = db })

abbrev pub ignore_command : ConnDecoder → ConnDecoder
ignore_command st = record st {
  stats = record st.stats { commands_ignored = st.stats.commands_ignored + 1 };
}
