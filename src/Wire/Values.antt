-- ===== src/Wire/Values.antt =====
-- `decode_binary_value` of mysqlproto.rs. The text that Rust prints for a finite float, of the 4 or 8
-- bytes of its representation, is a parameter, `float_text`.
pub mod Integers
use avraham_sql_tools.Ascii.{is_digit}
use avraham_sql_tools.Base.{
  ℕ, zero, suc, ◌+◌, ◌-◌, ◌*◌, ◌/◌, ◌%◌, ◌^◌, Bool, true, false, not, ◌&&◌, ◌||◌, Option, none,
  some, ◌>>=◌, List, [], ◌∷◌, ◌++◌, ◌==◌, leb, if◌then◌else◌, Bytes, codes, length,
}
use avraham_sql_tools.Utf8.{is_utf8}
use avraham_sql_tools.Wire.Decimal.{decimal, padded, integer}
use avraham_sql_tools.Wire.Literal.{string_literal, bytes_literal, hex}
use avraham_sql_tools.Wire.Reader.{Read, u8, take_bytes, from_le, le_int, lenenc_bytes}

-- `flags & UNSIGNED_FLAG != 0`
abbrev pub is_unsigned : ℕ → Bool
is_unsigned flags = flags / 128 % 2 == 1

-- An integer of `n` bytes.
unfoldable pub integer_value : ℕ → Bool → Bytes → Read Bytes
unfolding integer
integer_value n unsigned r = do (v, r') ← le_int n r; some (integer unsigned (8 * n) v, r')

-- `is_finite`: not all bits of the exponent are set.
unfoldable pub is_finite : Bytes → Bool
is_finite (a ∷ b ∷ c ∷ d ∷ []) = not (d % 128 * 2 + c / 128 == 255)
is_finite (a ∷ b ∷ c ∷ d ∷ e ∷ f ∷ g ∷ h ∷ []) = not (h % 128 * 16 + g / 16 == 2047)
is_finite _ = false

unfoldable pub float_literal : (Bytes → Bytes) → Bytes → Bytes
unfolding is_finite
float_literal float_text v = if is_finite v then float_text v else codes "NULL"

unfoldable pub float_value : (Bytes → Bytes) → ℕ → Bytes → Read Bytes
unfolding float_literal
float_value float_text n r = do (v, r') ← take_bytes n r; some (float_literal float_text v, r')

abbrev pub quoted : Bytes → Bytes
quoted s = b'\'' ∷ (s ++ b'\'' ∷ [])

abbrev pub date_text : ℕ → ℕ → ℕ → ℕ → Bytes
date_text y1 y2 m d = padded 4 (y1 + 256 * y2) ++ (b'-' ∷ (padded 2 m ++ (b'-' ∷ padded 2 d)))

abbrev pub time_text : ℕ → ℕ → ℕ → Bytes
time_text h m s = padded 2 h ++ (b':' ∷ (padded 2 m ++ (b':' ∷ padded 2 s)))

abbrev pub micros_text : Bytes → Bytes
micros_text b = b'.' ∷ padded 6 (from_le b)

-- The `match` on the length, by the bytes that are there.
unfoldable pub datetime_literal : Bytes → Option Bytes
unfolding padded from_le
datetime_literal [] = some (codes "'0000-00-00 00:00:00'")
datetime_literal (y1 ∷ y2 ∷ m ∷ d ∷ []) = some (quoted (date_text y1 y2 m d))
datetime_literal (y1 ∷ y2 ∷ m ∷ d ∷ h ∷ min ∷ s ∷ []) =
    some (quoted (date_text y1 y2 m d ++ (b' ' ∷ time_text h min s)))
datetime_literal (y1 ∷ y2 ∷ m ∷ d ∷ h ∷ min ∷ s ∷ u1 ∷ u2 ∷ u3 ∷ u4 ∷ []) = some (
    quoted
      (date_text y1 y2 m d ++ (b' ' ∷ (time_text h min s ++ micros_text (u1 ∷ u2 ∷ u3 ∷ u4 ∷ [])))))
datetime_literal _ = none

-- `days * 24 + hours` wraps around in 32 bits.
unfoldable pub time_parts : ℕ → Bytes → ℕ → ℕ → ℕ → Bytes → Bytes
unfolding padded from_le
time_parts negative days h m s micros =
    let sign = if negative == 0 then [] else b'-' ∷ [] in
    quoted (sign ++ (time_text ((from_le days * 24 + h) % 2 ^ 32) m s ++ micros))

unfoldable pub time_literal : Bytes → Option Bytes
unfolding time_parts from_le padded
time_literal [] = some (codes "'00:00:00'")
time_literal (n ∷ d1 ∷ d2 ∷ d3 ∷ d4 ∷ h ∷ m ∷ s ∷ []) =
    some (time_parts n (d1 ∷ d2 ∷ d3 ∷ d4 ∷ []) h m s [])
time_literal (n ∷ d1 ∷ d2 ∷ d3 ∷ d4 ∷ h ∷ m ∷ s ∷ u1 ∷ u2 ∷ u3 ∷ u4 ∷ []) =
    some (time_parts n (d1 ∷ d2 ∷ d3 ∷ d4 ∷ []) h m s (micros_text (u1 ∷ u2 ∷ u3 ∷ u4 ∷ [])))
time_literal _ = none

-- A length in one byte, that many bytes, and their text.
unfoldable pub sized_value : (Bytes → Option Bytes) → Bytes → Read Bytes
sized_value text r = do (n, r') ← u8 r; (b, r'') ← take_bytes n r'; t ← text b; some (t, r'')

abbrev pub is_numeral_byte : ℕ → Bool
is_numeral_byte c = is_digit c || c == b'-' || c == b'+' || c == b'.' || c == b'e' || c == b'E'

unfoldable pub all_numeral : Bytes → Bool
unfolding is_digit
all_numeral [] = true
all_numeral (c ∷ s) = is_numeral_byte c && all_numeral s

unfoldable pub is_numeral : Bytes → Bool
unfolding all_numeral
is_numeral [] = false
is_numeral (c ∷ s) = all_numeral (c ∷ s)

unfoldable pub decimal_value : Bytes → Read Bytes
unfolding is_numeral is_utf8 string_literal
decimal_value r = do
  (b, r') ← lenenc_bytes r
  if is_utf8 b then some (if is_numeral b then b else string_literal b, r') else none

-- The types whose value is a length-encoded string of bytes.
unfoldable pub is_bytes_type : ℕ → Bool
is_bytes_type t = t == 0x0f || t == 0xf5 || (leb 0xf7 t && leb t 0xfe)

unfoldable pub decode_binary_value : (Bytes → Bytes) → ℕ → ℕ → Bytes → Read Bytes
unfolding integer_value float_value sized_value datetime_literal time_literal decimal_value
    is_bytes_type bytes_literal hex
decode_binary_value float_text ftype flags r =
    let unsigned = is_unsigned flags in
    if ftype == 0x06
    then some (codes "NULL", r)
    else if ftype == 0x01
    then integer_value 1 unsigned r
    else if ftype == 0x02 || ftype == 0x0d
    then integer_value 2 unsigned r
    else if ftype == 0x03 || ftype == 0x09
    then integer_value 4 unsigned r
    else if ftype == 0x08
    then integer_value 8 unsigned r
    else if ftype == 0x04
    then float_value float_text 4 r
    else if ftype == 0x05
    then float_value float_text 8 r
    else if ftype == 0x0a || ftype == 0x0c || ftype == 0x07
    then sized_value datetime_literal r
    else if ftype == 0x0b
    then sized_value time_literal r
    else if ftype == 0x00 || ftype == 0xf6
    then decimal_value r
    else if ftype == 0x10
    then (do (b, r') ← lenenc_bytes r; some (b'X' ∷ quoted (hex b), r'))
    else if is_bytes_type ftype
    then (do (b, r') ← lenenc_bytes r; some (bytes_literal b, r'))
    else none
