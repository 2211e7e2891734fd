-- ===== src/Wire/Decoder/Execute.antt =====
-- `com_query_text` and `decode_execute` of `ConnDecoder`.
pub mod Strings
use avraham_sql_tools.Base.{
  ℕ, zero, suc, ◌+◌, ◌-◌, ◌*◌, ◌/◌, ◌%◌, ◌^◌, min, Bool, true, false, not, ◌&&◌, ◌||◌, Option, none,
  some, ◌>>=◌, List, [], ◌∷◌, ◌++◌, ◌==◌, ltb, if◌then◌else◌, Bytes, codes, length, take, get_elem?,
}
use avraham_sql_tools.Wire.Decoder.{
  ConnDecoder, PreparedStmt, ParamType, stmt_at, insert_stmt, long_at, drop_long,
}
use avraham_sql_tools.Wire.Interpolate.{interpolate}
use avraham_sql_tools.Wire.Literal.{bytes_literal}
use avraham_sql_tools.Wire.Reader.{Read, u8, take_bytes, le_int, lenenc_int, lenenc_bytes}
use avraham_sql_tools.Wire.Values.{decode_binary_value}

-- `n.div_ceil(8)`
abbrev pub bitmap_size : ℕ → ℕ
bitmap_size n = (n + 7) / 8

-- `null_bitmap[i / 8] & (1 << (i % 8)) != 0`; the bitmap has a bit for each parameter.
unfoldable pub is_null : Bytes → ℕ → Bool
is_null bitmap i = elim (get_elem? bitmap (i / 8)) [
  | none ↦ false
  | some x ↦ x / 2 ^ (i % 8) % 2 == 1
]

-- A parameter's name, where there is one.
abbrev pub skip_name : Bool → Bytes → Read Bytes
skip_name named r = if named then lenenc_bytes r else some ([], r)

-- The loop that reads `n` types.
unfoldable pub read_types : Bool → ℕ → Bytes → Read (List ParamType)
unfolding u8 lenenc_bytes
read_types named zero r = some ([], r)
read_types named (suc n) r = do
  (t, r1) ← u8 r
  (f, r2) ← u8 r1
  (name, r3) ← skip_name named r2
  (types, r4) ← read_types named n r3
  some ((t, f) ∷ types, r4)

-- `param_types = Some(types)` of a statement that is there.
abbrev pub bind_types : ℕ → PreparedStmt → List ParamType → ConnDecoder → ConnDecoder
bind_types id stmt types st = record st {
  stmts = insert_stmt id (record stmt { param_types = some types }) st.stmts;
}

-- Long data is consumed, and the values of the statement's parameters are put in.
unfoldable pub expand :
    ℕ → PreparedStmt → ConnDecoder × Option (List Bytes) → ConnDecoder × Option Bytes
unfolding interpolate drop_long
expand id stmt (st, none) = (st, none)
expand id stmt (st, some values) = (
  record st { long_data = drop_long id st.long_data },
  interpolate stmt.sql (take (min stmt.num_params (length values)) values) stmt.num_params,
)

-- `flags & PARAMETER_COUNT_AVAILABLE != 0`, under query attributes.
abbrev pub has_count : ConnDecoder → ℕ → Bool
has_count st flags = st.query_attrs && flags / 8 % 2 == 1

abbrev pub param_count : Bool → PreparedStmt → Bytes → Read ℕ
param_count counted stmt r = if counted then lenenc_int r else some (stmt.num_params, r)

-- The id, the flags, the iterations and the statement.
unfoldable pub execute_head : ConnDecoder → Bytes → Option (ℕ × (ℕ × (PreparedStmt × Bytes)))
unfolding stmt_at u8 take_bytes
execute_head st p = do
  (id, r1) ← le_int 4 p
  (flags, r2) ← u8 r1
  (iterations, r3) ← take_bytes 4 r2
  stmt ← stmt_at id st.stmts
  some (id, (flags, (stmt, r3)))

module _ (float_text : Bytes → Bytes) where
  -- The loop over the attributes' values, from the `i`th on.
  unfoldable pub skip_attributes : Bytes → ℕ → List ParamType → Bytes → Option Bytes
  unfolding is_null decode_binary_value
  skip_attributes bitmap i [] r = some r
  skip_attributes bitmap i ((t, f) ∷ types) r =
      let next = λ (r' : Bytes). skip_attributes bitmap (i + 1) types r' in
      if is_null bitmap i
      then next r
      else (do (v, r') ← decode_binary_value float_text t f r; next r')

  -- Behind the two counts of a query with attributes.
  unfoldable pub skip_attribute_section : ℕ → Bytes → Option Bytes
  unfolding read_types skip_attributes
  skip_attribute_section count r = do
    (bitmap, r1) ← take_bytes (bitmap_size count) r
    (bound, r2) ← u8 r1
    (types, r3) ← (if bound == 1 then read_types true count r2 else none)
    skip_attributes bitmap 0 types r3

  unfoldable pub com_query_text : ConnDecoder → Bytes → Option Bytes
  unfolding skip_attribute_section lenenc_int
  com_query_text st p =
      if st.query_attrs
      then (do
        (count, r) ← lenenc_int p
        (sets, r') ← lenenc_int r
        if count == 0 then some r' else skip_attribute_section count r')
      else some p

  -- The loop over the values, from the `i`th on; it stops behind `n` types.
  unfoldable pub read_values :
      List ((ℕ × ℕ) × Bytes) → ℕ → Bytes → ℕ → ℕ → List ParamType → Bytes → Option (List Bytes)
  unfolding is_null decode_binary_value bytes_literal long_at
  read_values long id bitmap i zero types r = some []
  read_values long id bitmap i (suc n) [] r = some []
  read_values long id bitmap i (suc n) ((t, f) ∷ types) r =
      let next = λ (r' : Bytes). read_values long id bitmap (i + 1) n types r' in
      if is_null bitmap i
      then (do vs ← next r; some (codes "NULL" ∷ vs))
      else elim (long_at (id, i % 2 ^ 16) long) [
        | some b ↦ do vs ← next r; some (bytes_literal b ∷ vs)
        | none ↦ do (v, r') ← decode_binary_value float_text t f r; vs ← next r'; some (v ∷ vs)
      ]

  -- The values, once the types are known.
  unfoldable pub values_of :
      ConnDecoder → ℕ → Bytes → ℕ → List ParamType → Bytes → Option (List Bytes)
  unfolding read_values
  values_of st id bitmap count types r =
      if ltb (length types) count then none else read_values st.long_data id bitmap 0 count types r

  -- Behind the bitmap: the types, sent or kept from before, and the values. Types that are sent are
  -- kept even if the values fail.
  unfoldable pub bound_values :
      ConnDecoder → ℕ → PreparedStmt → Bool → ℕ → Bytes → Bytes → ConnDecoder × Option (List Bytes)
  unfolding read_types values_of insert_stmt u8
  bound_values st id stmt named count bitmap r = elim (u8 r) [
    | none ↦ (st, none)
    | some (bound, r1) ↦
        if bound == 1
        then elim (read_types named count r1) [
          | none ↦ (st, none)
          | some (types, r2) ↦
              let st' = bind_types id stmt types st in (st', values_of st' id bitmap count types r2)
        ]
        else elim stmt.param_types [
          | none ↦ (st, none)
          | some types ↦ (st, values_of st id bitmap count types r1)
        ]
  ]

  -- The values of `count` parameters.
  unfoldable pub execute_values :
      ConnDecoder → ℕ → PreparedStmt → Bool → ℕ → Bytes → ConnDecoder × Option (List Bytes)
  unfolding bound_values take_bytes
  execute_values st id stmt named count r =
      if count == 0 then (st, some []) else elim (take_bytes (bitmap_size count) r) [
        | none ↦ (st, none)
        | some (bitmap, r') ↦ bound_values st id stmt named count bitmap r'
      ]

  -- Behind the statement's id, the flags and the iterations.
  unfoldable pub execute_counted :
      ConnDecoder → ℕ → PreparedStmt → Bool → Bytes → ConnDecoder × Option Bytes
  unfolding execute_values expand lenenc_int
  execute_counted st id stmt counted r = elim (param_count counted stmt r) [
    | none ↦ (st, none)
    | some (count, r') ↦ expand id stmt (execute_values st id stmt counted count r')
  ]

  unfoldable pub execute_stmt :
      ConnDecoder → ℕ → ℕ → PreparedStmt → Bytes → ConnDecoder × Option Bytes
  unfolding execute_counted
  execute_stmt st id flags stmt r = execute_counted st id stmt (has_count st flags) r

  unfoldable pub decode_execute : ConnDecoder → Bytes → ConnDecoder × Option Bytes
  unfolding execute_head execute_stmt
  decode_execute st p = elim (execute_head st p) [
    | none ↦ (st, none)
    | some (id, (flags, (stmt, r))) ↦ execute_stmt st id flags stmt r
  ]
