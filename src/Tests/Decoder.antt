-- ===== src/Tests/Decoder.antt =====
-- Runs of `ConnDecoder` of mysqlproto.rs, and its theorems at concrete inputs.
use avraham_sql_tools.Base.{
  ℕ, ◌*◌, ◌≡◌, refl, codes, ◌++◌, ◌∷◌, [], List, Bytes, arith, some, none, replicate, map, false,
  length,
}
use avraham_sql_tools.Wire.Decoder.{
  ConnDecoder, PreparedStmt, client, server, established, event, prepare, silent, InFlight,
}
use avraham_sql_tools.Wire.Decoder
use avraham_sql_tools.Wire.Decoder.Execute.Strings.{write_execute, decode_execute-write_execute}
use avraham_sql_tools.Wire.Decoder.Execute.{decode_execute}
use avraham_sql_tools.Wire.Decoder.Handlers.{finish, on_data}
use avraham_sql_tools.Wire.Decoder.Adds.{statements}
use avraham_sql_tools.Wire.Decoder.Served.{
  Chunk, converse, asked, keys, converse-Balanced, converse-finish,
}
use avraham_sql_tools.Wire.Interpolate.{interpolate}
use avraham_sql_tools.Wire.Literal.{bytes_literal}
use avraham_sql_tools.Wire.Packets
use avraham_sql_tools.Wire.Reader.Encode.{to_le}
use avraham_sql_tools.Wire.Values.{integer_value}
use avraham_sql_tools.Wire.Values.Integers.{read_integer, of_bits, integer_value-to_le}
use avraham_sql_tools.Int.{negsuc}
use avraham_sql_tools.Wire.Decimal.{integer}

abbrev plain : Bytes → Bytes
plain b = b

-- A packet of less than 256 bytes.
abbrev short : ℕ → Bytes → Bytes
short seq p = length p ∷ 0 ∷ 0 ∷ seq ∷ p

abbrev hello : Bytes
hello =
    10
    ∷ (codes "8.0.36"
        ++ 0 ∷ 42 ∷ 0 ∷ 0 ∷ 0 ∷ (replicate 9 1 ++ 0xff ∷ 0xf7 ∷ 45 ∷ 2 ∷ 0 ∷ 0 ∷ 0 ∷ []))

abbrev log_in : Bytes
log_in = 0 ∷ 0x82 ∷ (replicate 30 0 ++ (codes "app" ++ 0 ∷ 0 ∷ []))

abbrev query : Bytes
query = 3 ∷ codes "SELECT 1"

-- A login, two statements sent one after the other, and a response to the first.
abbrev talk : List Chunk
talk =
    record { dir = server; ts = 100; bytes = short 0 hello }
    ∷ record { dir = client; ts = 200; bytes = short 1 log_in }
    ∷ record { dir = server; ts = 300; bytes = short 2 (0 ∷ []) }
    ∷ record { dir = client; ts = 400; bytes = short 0 query ++ short 0 (3 ∷ codes "COMMIT") }
    ∷ record { dir = server; ts = 500; bytes = short 1 (0 ∷ []) }
    ∷ []

talk_out : keys (converse plain Decoder.new talk).1 ≡ (400, codes "SELECT 1") ∷ []
unfolding converse on_data Packets.feed_loop Packets.ts_for Packets.drop_marks
talk_out = refl

converse-Balanced_example :
    statements [] ++ asked plain Decoder.new talk
    ≡ keys (converse plain Decoder.new talk).1
      ++ statements (converse plain Decoder.new talk).0.pending
converse-Balanced_example = converse-Balanced plain Decoder.new talk

converse-finish_example :
    keys ((converse plain Decoder.new talk).1 ++ (finish (converse plain Decoder.new talk).0).1)
    ≡ asked plain Decoder.new talk
unfolding converse on_data Packets.feed_loop
converse-finish_example = converse-finish plain talk refl

-- A decoder behind its login, with a request in flight.
abbrev logged_in : ConnDecoder
logged_in = record Decoder.new {
  phase = established;
  pending = record { resp_seq = 1; pending = prepare (codes "SELECT ?") } ∷ [];
  stmts = (7, record { sql = codes "SELECT ?, ?"; num_params = 2; param_types = none }) ∷ [];
  long_data = ((8, 0), codes "of another") ∷ [];
}

abbrev values : List Bytes
values = codes "a'b" ∷ (0xff ∷ []) ∷ []

decode_execute-write_execute_example :
    (decode_execute plain logged_in (write_execute 7 values)).1
    ≡ interpolate (codes "SELECT ?, ?") (map bytes_literal values) 2
unfolding Decoder.stmt_at
decode_execute-write_execute_example =
    decode_execute-write_execute plain logged_in 7
      (record { sql = codes "SELECT ?, ?"; num_params = 2; param_types = none }) values
      (omega arith) refl refl (refl, tt) (omega arith, (omega arith, tt))

integer_value-to_le_example :
    (integer_value 2 false (to_le 2 65535 ++ []) ≡ some (integer false (8 * 2) 65535, []))
    × (read_integer (integer false (8 * 2) 65535) ≡ negsuc 0)
unfolding of_bits
integer_value-to_le_example = integer_value-to_le 2 65535 false [] (omega arith) (omega arith)
