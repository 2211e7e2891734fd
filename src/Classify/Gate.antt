-- ===== src/Classify/Gate.antt =====
-- `classify` and `should_execute` of classify.rs.
use avraham_sql_tools.Ascii.{is_whitespace}
use avraham_sql_tools.Base.{
  ℕ, zero, suc, Bool, true, false, ◌&&◌, ◌||◌, List, [], ◌∷◌, Option, none, some, ◌==◌,
  if◌then◌else◌, Bytes, codes, length, bytes_eq,
}
use avraham_sql_tools.Classify.Lexer.{
  is_quote, skip_quoted, skip_line, next_is, skip_comment, dash_comment,
}
use avraham_sql_tools.Classify.Scanner.{TokenScanner, new, next_word}

pub data QueryClass : Type 0 where
  read write : QueryClass

-- `w` is one of the alternatives of a `match` arm.
unfoldable pub is_one_of : Bytes → List Bytes → Bool
unfolding bytes_eq
is_one_of w [] = false
is_one_of w (v ∷ vs) = bytes_eq w v || is_one_of w vs

abbrev pub exports : List Bytes
exports = codes "outfile" ∷ codes "dumpfile" ∷ []

abbrev pub plain_reads : List Bytes
plain_reads = codes "show" ∷ codes "use" ∷ codes "help" ∷ []

abbrev pub explains : List Bytes
explains = codes "explain" ∷ codes "describe" ∷ codes "desc" ∷ []

abbrev pub server_sets : List Bytes
server_sets =
    codes "global"
    ∷ codes "persist"
    ∷ codes "persist_only"
    ∷ codes "password"
    ∷ codes "default"
    ∷ []

abbrev pub dml : List Bytes
dml = codes "insert" ∷ codes "update" ∷ codes "delete" ∷ codes "replace" ∷ []

abbrev pub explain_options : List Bytes
explain_options = codes "format" ∷ codes "tree" ∷ codes "json" ∷ []

abbrev pub explain_reads : List Bytes
explain_reads = codes "select" ∷ codes "table" ∷ []

-- The loop of `classify_select_tail`. A word consumes a byte, so the length of the text is enough
-- fuel, and with none left the text is at its end.
unfoldable pub select_loop : ℕ → Bool → TokenScanner → QueryClass
unfolding next_word is_one_of
select_loop zero after_into t = read
select_loop (suc fuel) after_into t = elim (next_word t) [
  | none ↦ read
  | some (w, t') ↦
      let rest = select_loop fuel (bytes_eq w (codes "into")) t' in
      if is_one_of w exports && after_into then write else rest
]

unfoldable pub classify_select_tail : TokenScanner → QueryClass
unfolding select_loop
classify_select_tail t = select_loop (length t.rest) false t

unfoldable pub with_loop : ℕ → TokenScanner → QueryClass
unfolding classify_select_tail
with_loop zero t = write
with_loop (suc fuel) t = elim (next_word t) [
  | none ↦ write
  | some (w, t') ↦
      let rest = with_loop fuel t' in
      if t'.word_depth == 0
      then (if bytes_eq w (codes "select")
          then classify_select_tail t'
          else if is_one_of w dml
          then write
          else rest)
      else rest
]

unfoldable pub classify_with_tail : TokenScanner → QueryClass
unfolding with_loop
classify_with_tail t = with_loop (length t.rest) t

unfoldable pub explain_loop : ℕ → TokenScanner → QueryClass
unfolding classify_with_tail
explain_loop zero t = write
explain_loop (suc fuel) t = elim (next_word t) [
  | none ↦ write
  | some (w, t') ↦
      let rest = explain_loop fuel t' in
      if is_one_of w explain_options
      then rest
      else if is_one_of w explain_reads
      then classify_select_tail t'
      else if bytes_eq w (codes "with")
      then classify_with_tail t'
      else write
]

unfoldable pub classify_explain_analyze_tail : TokenScanner → QueryClass
unfolding explain_loop
classify_explain_analyze_tail t = explain_loop (length t.rest) t

-- One round of the loop of `has_trailing_statement`: the flag and the bytes that are left, or the
-- early `return true`.
pub data Trail : Type 0 where
  found : Trail
  on : Bool → Bytes → Trail

abbrev pub proceed : (Bool → Bytes → Bool) → Trail → Bool
proceed again found = true
proceed again (on flag s) = again flag s

unfoldable pub trail_at : ℕ → Bytes → Bool → Trail
trail_at c s after_semicolon =
    if c == b'/' && next_is b'*' s
    then on after_semicolon (skip_comment s)
    else if c == b'#' || (c == b'-' && dash_comment s)
    then on after_semicolon (skip_line (c ∷ s))
    else if is_whitespace c
    then on after_semicolon s
    else if c == b';'
    then on true s
    else if after_semicolon
    then found
    else if is_quote c
    then on after_semicolon (skip_quoted (c ∷ s))
    else on after_semicolon s

-- With no byte left the answer is `false`; the length of the text is enough fuel.
unfoldable pub trail_in : ℕ → Bytes → Bool → Bool
trail_in fuel [] after_semicolon = false
trail_in zero (c ∷ s) after_semicolon = false
trail_in (suc fuel) (c ∷ s) after_semicolon =
    proceed (λ flag s'. trail_in fuel s' flag) (trail_at c s after_semicolon)

unfoldable pub has_trailing_statement : Bytes → Bool
unfolding trail_in trail_at
has_trailing_statement sql = trail_in (length sql) sql false

-- The second word after EXPLAIN and its synonyms.
unfoldable pub classify_explain : Option (Bytes × TokenScanner) → QueryClass
unfolding classify_explain_analyze_tail
classify_explain none = read
classify_explain (some (w, t)) =
    if bytes_eq w (codes "analyze") then classify_explain_analyze_tail t else read

-- The second word after SET.
unfoldable pub classify_set : Option (Bytes × TokenScanner) → QueryClass
unfolding is_one_of
classify_set none = read
classify_set (some (w, t)) = if is_one_of w server_sets then write else read

-- The `match` on the first word.
unfoldable pub classify_first : Option (Bytes × TokenScanner) → QueryClass
unfolding classify_select_tail classify_explain classify_set classify_with_tail is_one_of
classify_first none = write
classify_first (some (w, t)) =
    if bytes_eq w (codes "select")
    then classify_select_tail t
    else if is_one_of w plain_reads
    then read
    else if is_one_of w explains
    then classify_explain (next_word t)
    else if bytes_eq w (codes "set")
    then classify_set (next_word t)
    else if bytes_eq w (codes "with")
    then classify_with_tail t
    else write

unfoldable pub classify : Bytes → QueryClass
unfolding has_trailing_statement classify_first next_word
classify sql = if has_trailing_statement sql then write else classify_first (next_word (new sql))

abbrev pub is_read : QueryClass → Bool
is_read read = true
is_read write = false

unfoldable pub should_execute : Bytes → Bool → Bool
unfolding classify
should_execute query allow_writes = allow_writes || is_read (classify query)

unfoldable pub use_word : Option (Bytes × TokenScanner) → Bool
use_word none = false
use_word (some (w, t)) = bytes_eq w (codes "use")

unfoldable pub is_use_statement : Bytes → Bool
unfolding use_word next_word
is_use_statement sql = use_word (next_word (new sql))
