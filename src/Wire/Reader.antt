-- ===== src/Wire/Reader.antt =====
-- `Reader` of mysqlproto.rs, and `parse_greeting`. A reader is the bytes from `pos` on; a read that
-- succeeds returns the reader behind it. `none` is the source's `None`.
pub mod Encode
use avraham_sql_tools.Utf8.Lossy.{from_utf8_lossy}
use avraham_sql_tools.Base.{
  ℕ, zero, suc, ◌+◌, ◌-◌, ◌*◌, ◌%◌, ◌^◌, ◌≤◌, Bool, true, false, [], ◌∷◌, Option, none, some, ◌>>=◌,
  ◌==◌, leb, if◌then◌else◌, Bytes, length, take, drop,
}

abbrev pub Read : Type 0 → Type 0
Read A = Option (A × Bytes)

-- `(pos + n).min(data.len())`
unfoldable pub skip : ℕ → Bytes → Bytes
skip n r = drop n r

unfoldable pub take_bytes : ℕ → Bytes → Read Bytes
take_bytes n r = if leb n (length r) then some (take n r, drop n r) else none

-- `take(1).map(|s| s[0])`
unfoldable pub u8 : Bytes → Read ℕ
u8 [] = none
u8 (c ∷ r) = some (c, r)

abbrev pub put_front : ℕ → Read Bytes → Read Bytes
put_front c none = none
put_front c (some (s, r)) = some (c ∷ s, r)

-- Up to the first NUL, which is consumed too.
unfoldable pub cstring : Bytes → Read Bytes
cstring [] = none
cstring (c ∷ r) = if c == 0 then some ([], r) else put_front c (cstring r)

-- `from_le_bytes`
unfoldable pub from_le : Bytes → ℕ
from_le [] = 0
from_le (c ∷ s) = c + 256 * from_le s

abbrev pub le_int : ℕ → Bytes → Read ℕ
le_int n r = do (s, r') ← take_bytes n r; some (from_le s, r')

-- The `match` on the first byte of a length-encoded integer.
unfoldable pub lenenc_by : ℕ → Bytes → Read ℕ
lenenc_by n r =
    if leb n 0xfa
    then some (n, r)
    else if n == 0xfc
    then le_int 2 r
    else if n == 0xfd
    then le_int 3 r
    else if n == 0xfe
    then le_int 8 r
    else none

unfoldable pub lenenc_int : Bytes → Read ℕ
unfolding u8 lenenc_by
lenenc_int r = do (n, r') ← u8 r; lenenc_by n r'

unfoldable pub lenenc_bytes : Bytes → Read Bytes
unfolding lenenc_int
lenenc_bytes r = do (n, r') ← lenenc_int r; take_bytes n r'

-- The server version, the thread id and the capability flags.
pub record Greeting : Type 0 where
  pub version : Bytes
  pub thread_id : ℕ
  pub caps : ℕ

-- The high capability bytes, behind the charset and the status.
unfoldable pub high_caps : Bytes → ℕ
high_caps r = elim (take_bytes 2 (skip (1 + 2) r)) [
  | none ↦ 0
  | some (high, r') ↦ from_le high * 2 ^ 16
]

-- The capability bytes, 0 for what is past the end of a short greeting. The two halves have no bit
-- in common, so `|=` is a sum.
unfoldable pub greeting_caps : Bytes → ℕ
greeting_caps r = elim (take_bytes 2 (skip (8 + 1) r)) [
  | none ↦ 0
  | some (low, r') ↦ from_le low + high_caps r'
]

unfoldable pub parse_greeting : Bytes → Option Greeting
unfolding from_utf8_lossy
parse_greeting [] = none
parse_greeting (c ∷ p) =
    if c == 10
    then (do
      (version, r) ← cstring p
      (thread_id, r') ← le_int 4 r
      some (record {
        version = from_utf8_lossy version;
        thread_id = thread_id;
        caps = greeting_caps r';
      }))
    else none
