-- ===== src/Classify/Reads.antt =====
-- What the gate lets through as a read, from the code of the text and from its list of words.
use avraham_sql_tools.Ascii.{is_whitespace}
use avraham_sql_tools.Base.{
  ℕ, zero, suc, Bool, true, false, not, ◌&&◌, ◌||◌, List, [], ◌∷◌, ◌==◌, if◌then◌else◌, Bytes,
  codes, length, bytes_eq,
}
use avraham_sql_tools.Classify.Gate.{QueryClass, read, write}
use avraham_sql_tools.Classify.Lexer.{
  is_quote, skip_quoted, skip_line, next_is, skip_comment, dash_comment,
}
use avraham_sql_tools.Classify.Tokens.{Token}

-- The text without comments and white space, and with a quote alone for each string, on fuel: each
-- round takes a byte at least.
code_in : ℕ → Bytes → Bytes
code_in fuel [] = []
code_in zero (c ∷ s) = []
code_in (suc fuel) (c ∷ s) =
    let behind_comment = code_in fuel (skip_comment s) in
    let behind_line = code_in fuel (skip_line (c ∷ s)) in
    let behind_string = code_in fuel (skip_quoted (c ∷ s)) in
    let behind = code_in fuel s in
    if c == b'/' && next_is b'*' s
    then behind_comment
    else if c == b'#' || (c == b'-' && dash_comment s)
    then behind_line
    else if is_whitespace c
    then behind
    else if is_quote c
    then c ∷ behind_string
    else c ∷ behind

pub code : Bytes → Bytes
code sql = code_in (length sql) sql

-- Some byte is not a semicolon.
any_other : Bytes → Bool
any_other [] = false
any_other (c ∷ s) = not (c == b';') || any_other s

-- Behind some semicolon stands another byte that is none.
pub second_statement : Bytes → Bool
second_statement [] = false
second_statement (c ∷ s) = (c == b';' && any_other s) || second_statement s

abbrev followed : Bool → Bytes → Bool
followed after s = (after && any_other s) || second_statement s

-- `w` is one of the words.
unfoldable pub among : Bytes → List Bytes → Bool
among w [] = false
among w (v ∷ vs) = bytes_eq w v || among w vs

-- An OUTFILE or a DUMPFILE right behind an INTO.
exports_file : List Token → Bool
exports_file [] = false
exports_file (a ∷ []) = false
exports_file (a ∷ b ∷ ts) =
    (bytes_eq a.0 (codes "into") && among b.0 (codes "outfile" ∷ codes "dumpfile" ∷ []))
    || exports_file (b ∷ ts)

-- Behind WITH: of the words outside all parentheses, a SELECT stands before any that changes data, and
-- exports no file.
with_reads : List Token → Bool
with_reads [] = false
with_reads (a ∷ ts) =
    if a.1 == 0 && bytes_eq a.0 (codes "select")
    then not (exports_file ts)
    else not (
        a.1 == 0
        && among a.0 (codes "insert" ∷ codes "update" ∷ codes "delete" ∷ codes "replace" ∷ []))
      && with_reads ts

-- Behind EXPLAIN ANALYZE, which runs the statement: the options of a format, and a statement that reads.
analyze_reads : List Token → Bool
analyze_reads [] = false
analyze_reads (a ∷ ts) =
    if among a.0 (codes "format" ∷ codes "tree" ∷ codes "json" ∷ [])
    then analyze_reads ts
    else if among a.0 (codes "select" ∷ codes "table" ∷ [])
    then not (exports_file ts)
    else bytes_eq a.0 (codes "with") && with_reads ts

pub explain_reads : List Token → Bool
explain_reads [] = true
explain_reads (a ∷ ts) = not (bytes_eq a.0 (codes "analyze")) || analyze_reads ts

-- Behind SET: nothing of the server and no password.
set_reads : List Token → Bool
set_reads [] = true
set_reads (a ∷ ts) = not (
    among a.0 (
      codes "global"
      ∷ codes "persist"
      ∷ codes "persist_only"
      ∷ codes "password"
      ∷ codes "default"
      ∷ []))

-- The words are those of a statement that only reads.
pub reads : List Token → Bool
reads [] = false
reads (a ∷ ts) =
    if bytes_eq a.0 (codes "select")
    then not (exports_file ts)
    else if among a.0 (codes "show" ∷ codes "use" ∷ codes "help" ∷ [])
    then true
    else if among a.0 (codes "explain" ∷ codes "describe" ∷ codes "desc" ∷ [])
    then explain_reads ts
    else if bytes_eq a.0 (codes "set")
    then set_reads ts
    else if bytes_eq a.0 (codes "with")
    then with_reads ts
    else false

-- The class of a statement that reads, or does not.
abbrev class_if : Bool → QueryClass
class_if b = if b then read else write
