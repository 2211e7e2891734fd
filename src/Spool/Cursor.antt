-- ===== src/Spool/Cursor.antt =====
-- The records of a spool: `encode_record`, `record_size` and `SpoolCursor` of spool.rs. A file of the
-- operating system is the list of its bytes, and JSON by serde is a parameter.

use avraham_sql_tools.Base.{
  ℕ, ◌+◌, Option, none, some, ◌++◌, leb, ltb, if◌then◌else◌, Bytes, length, take, drop,
}
use avraham_sql_tools.Spool.{Event}
use avraham_sql_tools.Wire.Reader.Encode.{to_le}
use avraham_sql_tools.Wire.Reader.{from_le}

pub record Serde : Type 0 where
  pub to_vec : Event → Option Bytes
  pub from_slice : Bytes → Option Event

-- `write_all_at`: the bytes at a position are replaced.
unfoldable pub write_at : ℕ → Bytes → Bytes → Bytes
write_at at bytes file = take at file ++ (bytes ++ drop (at + length bytes) file)

-- `read_exact_at`
unfoldable pub read_at : ℕ → ℕ → Bytes → Option Bytes
read_at at n file = if leb (at + n) (length file) then some (take n (drop at file)) else none

-- The length in 32 bits, and the event as JSON.
abbrev pub record_of : Bytes → Bytes
record_of body = to_le 4 (length body) ++ body

unfoldable pub encode_record : Serde → Event → Option Bytes
encode_record serde e = elim (serde.to_vec e) [ none ↦ none | some body ↦ some (record_of body) ]

unfoldable pub record_size : Serde → Event → Option ℕ
record_size serde e = elim (serde.to_vec e) [ none ↦ none | some body ↦ some (4 + length body) ]

pub record SpoolCursor : Type 0 where
  pub file : Bytes
  pub at : ℕ
  pub end : ℕ

-- A call of `next_event`: the region is over, an event, or an error.
pub data Next : Type 0 where
  over : Next
  event : Event → SpoolCursor → Next
  cannot_read overruns corrupt : Next

abbrev pub decoded : Serde → ℕ → Bytes → SpoolCursor → Next
decoded serde len buf c = elim (serde.from_slice buf) [
  | none ↦ corrupt
  | some e ↦ event e (record c { at = c.at + (4 + len) })
]

abbrev pub next_record : Serde → ℕ → SpoolCursor → Next
next_record serde len c =
    if ltb c.end (c.at + (4 + len)) then overruns else elim (read_at (c.at + 4) len c.file) [
      | none ↦ cannot_read
      | some buf ↦ decoded serde len buf c
    ]

unfoldable pub next_event : Serde → SpoolCursor → Next
unfolding read_at from_le
next_event serde c = if leb c.end c.at then over else elim (read_at c.at 4 c.file) [
  | none ↦ cannot_read
  | some len ↦ next_record serde (from_le len) c
]
