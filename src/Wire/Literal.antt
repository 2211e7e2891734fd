-- ===== src/Wire/Literal.antt =====
-- `string_literal`, `hex` and `bytes_literal` of mysqlproto.rs. A string is its UTF-8 bytes: each
-- character that is escaped is one ASCII byte, and the bytes of the others are kept.
pub mod Reads
use avraham_sql_tools.Utf8.{is_utf8}
use avraham_sql_tools.Base.{
  ℕ, ◌+◌, ◌-◌, ◌/◌, ◌%◌, Bool, true, false, List, Option, none, some, ◌&&◌, [], ◌∷◌, ◌++◌, ◌==◌,
  ltb, leb, if◌then◌else◌, Bytes, codes,
}

-- What is pushed for one character.
unfoldable pub escape_char : ℕ → Bytes
escape_char c =
    if c == b'\''
    then codes "''"
    else if c == b'\\'
    then codes "\\\\"
    else if c == 0
    then codes "\\0"
    else if c == b'\n'
    then codes "\\n"
    else if c == b'\r'
    then codes "\\r"
    else if c == 0x1a
    then codes "\\Z"
    else c ∷ []

-- The loop over the characters, in front of what follows the literal.
unfoldable pub escape : Bytes → Bytes
unfolding escape_char
escape [] = []
escape (c ∷ s) = escape_char c ++ escape s

unfoldable pub string_literal : Bytes → Bytes
unfolding escape
string_literal s = b'\'' ∷ (escape s ++ b'\'' ∷ [])

unfoldable pub hex_digit : ℕ → ℕ
hex_digit d = if ltb d 10 then b'0' + d else b'A' + (d - 10)

unfoldable pub hex : Bytes → Bytes
unfolding hex_digit
hex [] = []
hex (x ∷ b) = hex_digit (x / 16) ∷ hex_digit (x % 16) ∷ hex b

unfoldable pub bytes_literal : Bytes → Bytes
unfolding string_literal hex is_utf8
bytes_literal b = if is_utf8 b then string_literal b else b'X' ∷ b'\'' ∷ (hex b ++ b'\'' ∷ [])
