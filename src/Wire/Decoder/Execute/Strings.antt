-- ===== src/Wire/Decoder/Execute/Strings.antt =====
-- An execute with string parameters, as a client writes it, is expanded to the statement with the
-- literals of the strings.
use avraham_sql_tools.Base.{
  ℕ, zero, suc, ◌+◌, ◌/◌, ◌%◌, ◌^◌, ◌<◌, Bool, false, Option, none, some, List, [], ◌∷◌, ◌++◌, map,
  append-nil, ◌≡◌, refl, sym, ap, ◌∙◌, arith, ◌==◌, ltb, Bytes, length, get_elem?, replicate,
  length-replicate, All, min, length-map, take_prefix, Bool-cases, inl, inr,
}
use avraham_sql_tools.Wire.Decoder.{ConnDecoder, PreparedStmt, ParamType, stmt_at, long_at}
use avraham_sql_tools.Wire.Decoder.Execute.{
  bitmap_size, is_null, read_types, read_values, values_of, bound_values, execute_values, expand,
  has_count, execute_stmt, execute_counted, execute_head, decode_execute,
}
use avraham_sql_tools.Wire.Interpolate.{interpolate}
use avraham_sql_tools.Wire.Literal.{bytes_literal}
use avraham_sql_tools.Wire.Reader.{u8}
use avraham_sql_tools.Wire.Reader.Encode.{
  to_le, lenenc_string, lenenc_bytes-lenenc_string, le_int-to_le, take_bytes-append, length-to_le,
}
use native.Mathlib.Nat.{zero-div}
use avraham_sql_tools.Wire.Values.{decode_binary_value}

-- The type of a variable-length string.
abbrev var_string : ℕ
var_string = 0xfd

write_types : ℕ → Bytes
write_types zero = []
write_types (suc n) = var_string ∷ 0 ∷ write_types n

write_values : List Bytes → Bytes
write_values [] = []
write_values (v ∷ vs) = lenenc_string v ++ write_values vs

-- The payload behind the command byte: the id, no flags, one iteration, no NULL among the values,
-- the types and the values.
pub write_execute : ℕ → List Bytes → Bytes
write_execute id vs =
    to_le 4 id
    ++ (0
        ∷ (to_le 4 1
            ++ (replicate (bitmap_size (length vs)) 0
                ++ (1 ∷ (write_types (length vs) ++ write_values vs)))))

is_null_zeros :
    (k j b : ℕ)
    → (elim (get_elem? {A = ℕ} (replicate k 0) j) as (λ o. Bool) [
      | none ↦ false
      | some x ↦ x / 2 ^ b % 2 == 1
    ])
      ≡ false
is_null_zeros zero j b = refl
is_null_zeros (suc k) zero b = rw (zero-div (2 ^ b)) refl
is_null_zeros (suc k) (suc j) b = is_null_zeros k j b

read_types-write_types :
    (n : ℕ) (r : Bytes)
    → read_types false n (write_types n ++ r) ≡ some (replicate n (var_string, 0), r)
unfolding read_types write_types u8
read_types-write_types zero r = refl
read_types-write_types (suc n) r = rw (read_types-write_types n r) refl

-- What stands behind the head of an execute.
abbrev params_of : List Bytes → Bytes
params_of vs =
    replicate (bitmap_size (length vs)) 0 ++ (1 ∷ (write_types (length vs) ++ write_values vs))

execute_head-write_execute :
    (st : ConnDecoder) (id : ℕ) (stmt : PreparedStmt) (vs : List Bytes)
    → id < 2 ^ 32
    → stmt_at id st.stmts ≡ some stmt
    → execute_head st (write_execute id vs) ≡ some (id, (0, (stmt, params_of vs)))
unfolding execute_head write_execute u8
execute_head-write_execute st id stmt vs small known =
    let id_read = le_int-to_le 4 id (0 ∷ (to_le 4 1 ++ params_of vs)) (omega arith) in
    let iterations = rw (length-to_le 4 1) at (take_bytes-append (to_le 4 1) (params_of vs)) in
    rw (id_read, iterations, known) refl

no_count : (st : ConnDecoder) → has_count st 0 ≡ false
no_count st = elim (Bool-cases st.query_attrs) [ inl on ↦ rw on refl | inr off ↦ rw off refl ]

expand-values :
    (id : ℕ) (stmt : PreparedStmt) (r : ConnDecoder × Option (List Bytes)) (values : List Bytes)
    → r.1 ≡ some values
    → stmt.num_params ≡ length values
    → (expand id stmt r).1 ≡ interpolate stmt.sql values (length values)
unfolding expand
expand-values id stmt (st, none) values h k = cc
expand-values id stmt (st, some vs) values h k =
    let same : vs ≡ values = cc in
    let all : min (length values) (length values) ≡ length values = omega arith in
    rw (same, k, all)
      (ap (λ l. interpolate stmt.sql l (length values))
        (rw (append-nil values) at (take_prefix values [])))

abbrev LongData : Type 0
LongData = List ((ℕ × ℕ) × Bytes)

-- Nothing was sent ahead for the statement with this id.
abbrev NotAhead : ℕ → LongData → Type 0
NotAhead id = All (λ e. (e.0.0 == id) ≡ false)

long_at-NotAhead : (id i : ℕ) (long : LongData) → NotAhead id long → long_at (id, i) long ≡ none
unfolding long_at
long_at-NotAhead id i [] h = refl
long_at-NotAhead id i (((j, k), v) ∷ m) (other, h) = rw (other, long_at-NotAhead id i m h) refl

module _ (float_text : Bytes → Bytes) where
  decode_binary_value-string :
      (v r : Bytes)
      → length v < 2 ^ 64
      → decode_binary_value float_text var_string 0 (lenenc_string v ++ r)
        ≡ some (bytes_literal v, r)
  unfolding decode_binary_value
  decode_binary_value-string v r h = rw (lenenc_bytes-lenenc_string v r h) refl

  read_values-write_values :
      (long : LongData) (id k i : ℕ) (vs : List Bytes)
      → NotAhead id long
      → All (λ v. length v < 2 ^ 64) vs
      → read_values float_text long id
          (replicate k 0)
          i
          (length vs)
          (replicate (length vs) (var_string, 0))
          (write_values vs)
        ≡ some (map bytes_literal vs)
  unfolding read_values write_values is_null
  read_values-write_values long id k i [] away h = refl
  read_values-write_values long id k i (v ∷ vs) away (hv, h) =
      rw
        (
          is_null_zeros k (i / 8) (i % 8),
          long_at-NotAhead id (i % 2 ^ 16) long away,
          decode_binary_value-string v (write_values vs) hv,
          read_values-write_values long id k (i + 1) vs away h,
        )
        refl

  bound_values-write_values :
      (st : ConnDecoder) (id k : ℕ) (stmt : PreparedStmt) (vs : List Bytes)
      → NotAhead id st.long_data
      → All (λ v. length v < 2 ^ 64) vs
      → (bound_values float_text st id stmt false
          (length vs)
          (replicate k 0)
          (1 ∷ (write_types (length vs) ++ write_values vs))).1
        ≡ some (map bytes_literal vs)
  unfolding bound_values u8 values_of
  bound_values-write_values st id k stmt vs h bounded =
      let enough : ltb (length (replicate {A = ParamType} (length vs) (var_string, 0))) (length vs)
          ≡ false =
        rw (length-replicate {A = ParamType} (length vs) (var_string, 0)) (ground arith) in
      rw (read_types-write_types (length vs) (write_values vs), enough)
        (read_values-write_values st.long_data id k 0 vs h bounded)

  execute_values-write_values :
      (st : ConnDecoder) (id : ℕ) (stmt : PreparedStmt) (vs : List Bytes)
      → NotAhead id st.long_data
      → All (λ v. length v < 2 ^ 64) vs
      → (execute_values float_text st id stmt false (length vs) (
          replicate (bitmap_size (length vs)) 0
          ++ (1 ∷ (write_types (length vs) ++ write_values vs)))).1
        ≡ some (map bytes_literal vs)
  unfolding execute_values
  execute_values-write_values st id stmt [] h bounded = refl
  execute_values-write_values st id stmt (v ∷ vs) h bounded =
      let n = length (v ∷ vs) in
      let r = 1 ∷ (write_types n ++ write_values (v ∷ vs)) in
      let taken =
        rw (length-replicate {A = ℕ} (bitmap_size n) 0) at
          (take_bytes-append (replicate (bitmap_size n) 0) r) in
      let some_of : (n == 0) ≡ false = ground arith in
      rw (some_of, taken) (bound_values-write_values st id (bitmap_size n) stmt (v ∷ vs) h bounded)

  execute_counted-write_values :
      (st : ConnDecoder) (id : ℕ) (stmt : PreparedStmt) (vs : List Bytes)
      → stmt.num_params ≡ length vs
      → NotAhead id st.long_data
      → All (λ v. length v < 2 ^ 64) vs
      → (execute_counted float_text st id stmt false (params_of vs)).1
        ≡ interpolate stmt.sql (map bytes_literal vs) (length vs)
  unfolding execute_counted
  execute_counted-write_values st id stmt vs count none_ahead bounded =
      let run = λ (n : ℕ). execute_values float_text st id stmt false n (params_of vs) in
      let values =
        ap (λ n. (run n).1) count ∙ execute_values-write_values st id stmt vs none_ahead bounded in
      rw (length-map bytes_literal vs) at (
        expand-values id stmt (run stmt.num_params) (map bytes_literal vs) values
          (count ∙ sym (length-map bytes_literal vs)))

  -- A COM_STMT_EXECUTE of a statement that is known, with no flags set and as many parameters as the
  -- statement has, each a string of its own type, VAR_STRING, sent in the same packet, not NULL and
  -- below 2^64 bytes, gives what `interpolate` makes of the text of the statement and the literals of
  -- the strings. Nothing was sent ahead as long data for this statement; for others something may have
  -- been.
  pub decode_execute-write_execute :
      (st : ConnDecoder) (id : ℕ) (stmt : PreparedStmt) (vs : List Bytes)
      → id < 2 ^ 32
      → stmt_at id st.stmts ≡ some stmt
      → stmt.num_params ≡ length vs
      → NotAhead id st.long_data
      → All (λ v. length v < 2 ^ 64) vs
      → (decode_execute float_text st (write_execute id vs)).1
        ≡ interpolate stmt.sql (map bytes_literal vs) (length vs)
  unfolding decode_execute
  decode_execute-write_execute st id stmt vs small known count none_ahead bounded =
      rw (execute_head-write_execute st id stmt vs small known, decode_execute)
        (unfold execute_stmt in
          (ap (λ b. (execute_counted float_text st id stmt b (params_of vs)).1) (no_count st)
            ∙ execute_counted-write_values st id stmt vs count none_ahead bounded))
