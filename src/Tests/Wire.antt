-- ===== src/Tests/Wire.antt =====
-- Runs of mysqlproto.rs, and its theorems at concrete inputs.
use avraham_sql_tools.Ascii.{is_whitespace}
use avraham_sql_tools.Base.{
  drop, length, ◌+◌, ◌*◌, ◌^◌, ◌≡◌, refl, codes, if◌then◌else◌, ◌++◌, ◌∷◌, [], List, Bytes, arith,
  some, none, replicate, leb, ◌==◌,
}
use avraham_sql_tools.Classify.Lexer
use avraham_sql_tools.Wire.Interpolate.Fill.{
  parts, placeholders, text, interpolate-text, interpolate_self,
}
use avraham_sql_tools.Wire.Interpolate.{interpolate}
use avraham_sql_tools.Wire.Literal.Reads.{
  read_string, read_string-string_literal, skip_quoted-string_literal, unhex, unhex-hex,
}
use avraham_sql_tools.Wire.Literal.{string_literal, hex, bytes_literal}
use avraham_sql_tools.Wire.Packets.Writes.{write, payload_of, packet, feed_all-write}
use avraham_sql_tools.Wire.Packets.Feeds.{Chunk, feed_all, stamped, feed_all-scan}
use avraham_sql_tools.Wire.Packets.Stream.{scan}
use avraham_sql_tools.Wire.Packets.{new, feed}
use avraham_sql_tools.Wire.Reader.Encode.{
  lenenc, lenenc_int-lenenc, lenenc_string, lenenc_bytes-lenenc_string, greeting,
  parse_greeting-greeting,
}
use avraham_sql_tools.Utf8.Lossy.{from_utf8_lossy}
use avraham_sql_tools.Wire.Reader.{lenenc_int, lenenc_bytes, parse_greeting}

abbrev nasty : Bytes
nasty = codes "it's \\ a\ntest"

literals :
    (string_literal nasty ≡ codes "'it''s \\\\ a\\ntest'")
    × (bytes_literal (0xff ∷ 0x0a ∷ []) ≡ codes "X'FF0A'")
    × (bytes_literal (0xc3 ∷ 0xa9 ∷ []) ≡ b'\'' ∷ 0xc3 ∷ 0xa9 ∷ b'\'' ∷ [])
unfolding string_literal bytes_literal
literals = (refl, refl, refl)

interpolations :
    (interpolate (codes "a = ? -- ?\nand b = '?'") (codes "5" ∷ []) 1
      ≡ some (codes "a = 5 -- ?\nand b = '?'"))
    × (interpolate (codes "? ?") (codes "5" ∷ []) 1 ≡ none)
    × (interpolate (codes "?") (codes "5" ∷ codes "6" ∷ []) 2 ≡ none)
unfolding interpolate is_whitespace
interpolations = (refl, refl, refl)

read_string-string_literal_example :
    read_string (string_literal nasty ++ codes ", 1)") ≡ some (nasty, codes ", 1)")
read_string-string_literal_example = read_string-string_literal nasty (codes ", 1)") refl

skip_quoted-string_literal_example :
    Lexer.skip_quoted (string_literal nasty ++ codes ";") ≡ codes ";"
skip_quoted-string_literal_example = skip_quoted-string_literal nasty (codes ";") refl

unhex-hex_example : unhex (hex (0xff ∷ 0x0a ∷ [])) ≡ 0xff ∷ 0x0a ∷ []
unhex-hex_example = unhex-hex (0xff ∷ 0x0a ∷ []) (omega arith)

abbrev insert : Bytes
insert = codes "insert into t values (?, '?', ?)"

interpolate-text_example : interpolate insert (codes "1" ∷ codes "2" ∷ []) 2 ≡ (
    if leb (placeholders (parts insert)) 2
    then (if placeholders (parts insert) == 2
        then some (text (codes "1" ∷ codes "2" ∷ []) (parts insert))
        else none)
    else none)
interpolate-text_example = interpolate-text insert (codes "1" ∷ codes "2" ∷ []) 2

interpolate_self_example :
    let n = placeholders (parts insert) in
    interpolate insert (replicate n (codes "?")) n ≡ some insert
interpolate_self_example = interpolate_self insert

lenenc_int-lenenc_example : lenenc_int (lenenc 70000 ++ codes "x") ≡ some (70000, codes "x")
lenenc_int-lenenc_example = lenenc_int-lenenc 70000 (codes "x") (omega arith)

lenenc_bytes-lenenc_string_example :
    lenenc_bytes (lenenc_string (codes "app") ++ codes "x") ≡ some (codes "app", codes "x")
lenenc_bytes-lenenc_string_example =
    lenenc_bytes-lenenc_string (codes "app") (codes "x") (omega arith)

abbrev scramble : Bytes
scramble = codes "abcdefgh" ++ 0 ∷ []

parse_greeting-greeting_example :
    parse_greeting (greeting (codes "8.0.36") 42 scramble 0xf7ff (45 ∷ 2 ∷ 0 ∷ []) 0x81ff [])
    ≡ some (record { version = codes "8.0.36"; thread_id = 42; caps = 0xf7ff + 0x81ff * 2 ^ 16 })
unfolding from_utf8_lossy
parse_greeting-greeting_example =
    parse_greeting-greeting (codes "8.0.36") scramble (45 ∷ 2 ∷ 0 ∷ []) [] 42 0xf7ff 0x81ff
      (ground arith) (omega arith) refl refl (omega arith) (omega arith)

-- Two packets in three chunks, cut inside both headers.
abbrev chunks : List Chunk
chunks = (100, 2 ∷ 0 ∷ []) ∷ (200, 0 ∷ 0 ∷ 14 ∷ 15 ∷ 1 ∷ []) ∷ (300, 0 ∷ 0 ∷ 1 ∷ 16 ∷ []) ∷ []

two_packets :
    (feed_all new chunks).1
    ≡ record { first_seq = 0; last_seq = 0; ts_micros = 100; payload = 14 ∷ 15 ∷ [] }
      ∷ record { first_seq = 1; last_seq = 1; ts_micros = 200; payload = 16 ∷ [] }
      ∷ []
unfolding feed_all feed avraham_sql_tools.Wire.Packets.feed_loop
    avraham_sql_tools.Wire.Packets.ts_for avraham_sql_tools.Wire.Packets.drop_marks
two_packets = refl

feed_all-scan_example :
    ((feed_all new chunks).1 ≡ (scan none (stamped chunks)).packets)
    × ((feed_all new chunks).0.broken ≡ (scan none (stamped chunks)).fault)
feed_all-scan_example = feed_all-scan chunks (omega arith)

feed_all-write_example :
    (feed_all new chunks).1
    ≡ packet 100 0 [] (14 ∷ 15 ∷ [])
      ∷ (scan none (drop (length (write 0 [] (14 ∷ 15 ∷ []))) (stamped chunks))).packets
unfolding write payload_of
feed_all-write_example =
    feed_all-write chunks 0 [] (14 ∷ 15 ∷ []) (1 ∷ 0 ∷ 0 ∷ 1 ∷ 16 ∷ []) (omega arith) refl tt
      (omega arith) (omega arith)
