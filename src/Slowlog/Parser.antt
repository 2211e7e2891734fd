-- ===== src/Slowlog/Parser.antt =====
-- `SlowLogParser` of slowlog.rs: `push_line` and `finish`, with the scan for the end of a string.
use avraham_sql_tools.Ascii.{is_whitespace}
use avraham_sql_tools.Base.{
  ℕ, zero, suc, length, Bool, true, false, not, ◌&&◌, ◌||◌, Option, none, some, [], ◌∷◌, ◌++◌, ◌==◌,
  if◌then◌else◌, Bytes,
}
use avraham_sql_tools.Slowlog.Headers.{handle_header, handle_banner}
use avraham_sql_tools.Slowlog.Values.{
  trimmed_end, is_entry_header, is_restart_banner, parse_use_line, parse_set_timestamp,
}
use avraham_sql_tools.Slowlog.{
  ParsedQuery, SqlState, normal, in_comment, in_string, SlowLogParser, Outside, reset_entry,
}
use avraham_sql_tools.Utf8.Split.{trim}
use avraham_sql_tools.Utf8.{trim_end}
use avraham_sql_tools.Wire.UseTarget.{strip_last, unwrap_or}

abbrev pub is_quote : ℕ → Bool
is_quote c = c == b'\'' || c == b'"' || c == b'`'

-- Behind a dash: another one, with the end of the line or white space behind it.
abbrev pub is_dashes : Bytes → Bool
is_dashes [] = false
is_dashes (d ∷ []) = d == b'-'
is_dashes (d ∷ e ∷ s) = d == b'-' && is_whitespace e

abbrev pub starts : ℕ → Bytes → Bool
starts c [] = false
starts c (d ∷ s) = d == c

-- What is behind the next byte.
abbrev pub behind_next : Bytes → Bytes
behind_next [] = []
behind_next (d ∷ s) = s

-- One round of the loop: the state after it and the bytes left, or the end of the loop.
unfoldable pub scan_step : SqlState → ℕ → Bytes → Option (SqlState × Bytes)
unfolding is_whitespace
scan_step (in_string q) c s =
    if c == b'\\' && not (q == b'`')
    then some (in_string q, behind_next s)
    else if c == q
    then (if starts q s then some (in_string q, behind_next s) else some (normal, s))
    else some (in_string q, s)
scan_step in_comment c s =
    if c == b'*' && starts b'/' s then some (normal, behind_next s) else some (in_comment, s)
scan_step normal c s =
    if is_quote c
    then some (in_string c, s)
    else if c == b'/' && starts b'*' s
    then some (in_comment, behind_next s)
    else if (c == b'-' && is_dashes s) || c == b'#'
    then none
    else some (normal, s)

-- The loop of `scan_sql_state`, on fuel: each round takes a byte at least.
unfoldable pub scan_in : ℕ → SqlState → Bytes → SqlState
unfolding scan_step
scan_in zero state s = state
scan_in (suc fuel) state [] = state
scan_in (suc fuel) state (c ∷ s) = elim (scan_step state c s) [
  | none ↦ state
  | some (state', s') ↦ scan_in fuel state' s'
]

unfoldable pub scan_sql_state : SqlState → Bytes → SqlState
unfolding scan_in
scan_sql_state state line = scan_in (length line) state line

-- The buffer with one more line.
abbrev pub add_line : Bytes → Bytes → Bytes
add_line [] line = line
add_line (c ∷ b) line = (c ∷ b) ++ b'\n' ∷ line

unfoldable pub append_query_line : Bytes → SlowLogParser → SlowLogParser
unfolding scan_sql_state
append_query_line line st = record st {
  buf = add_line st.buf line;
  sql_state = scan_sql_state st.sql_state line;
}

-- The text of a statement, without white space and one semicolon at its end.
unfoldable pub statement_text : Bytes → Bytes
unfolding strip_last trim_end
statement_text buf =
    let q = trimmed_end buf in elim (strip_last b';' q) [ none ↦ q | some t ↦ trimmed_end t ]

abbrev pub or_else_text : Option Bytes → Option Bytes → Option Bytes
or_else_text none d = d
or_else_text (some x) d = some x

abbrev pub or_number : Option ℕ → ℕ → ℕ
or_number none d = d
or_number (some n) d = n

-- The query with this text, unless it is empty.
abbrev pub parsed : SlowLogParser → Bytes → Option ParsedQuery
parsed st [] = none
parsed st (c ∷ q) = some (record {
  ts_micros = or_number st.set_ts_micros (or_number st.time_micros 0);
  thread_id = or_number st.thread_id 0;
  user = st.user;
  db = or_else_text st.schema st.current_db;
  query = c ∷ q;
  query_time = st.query_time;
})

abbrev pub Outcome : Type 0
Outcome = SlowLogParser × Option ParsedQuery

unfoldable pub take_query : SlowLogParser → Outcome
unfolding statement_text
take_query st =
    if st.in_query
    then (
      reset_entry (record st { in_query = false; sql_state = normal; buf = [] }),
      parsed st (statement_text st.buf),
    )
    else (st, none)

abbrev pub start_query : Bytes → SlowLogParser → SlowLogParser
start_query line st =
    append_query_line line (record st { in_query = true; buf = []; sql_state = normal })

-- `use` lines are metadata only in front of the entry's `SET timestamp`.
abbrev pub use_of : Option ℕ → Bytes → Option Bytes
use_of none t = parse_use_line t
use_of (some ts) t = none

-- A `use` line is consumed; what another line does is `other`.
abbrev pub on_use : Option Bytes → SlowLogParser → SlowLogParser → SlowLogParser
on_use none other st = other
on_use (some db) other st = record st { current_db = some db }

-- A `SET timestamp` is consumed, and another line begins a statement.
abbrev pub on_timestamp : Option ℕ → Bytes → SlowLogParser → SlowLogParser
on_timestamp none line st = start_query line st
on_timestamp (some ts) line st = record st { set_ts_micros = some ts }

-- A line that is no header and no banner, trimmed `t`.
unfoldable pub consume_text : Outside → Bytes → Bytes → SlowLogParser → SlowLogParser
unfolding parse_use_line parse_set_timestamp append_query_line
consume_text env line [] st = st
consume_text env line (c ∷ t) st =
    on_use (use_of st.set_ts_micros (c ∷ t))
      (on_timestamp (parse_set_timestamp env (c ∷ t)) line st) st

unfoldable pub consume_meta_line : Outside → Bytes → SlowLogParser → SlowLogParser
unfolding handle_header handle_banner consume_text trim
consume_meta_line env line st =
    if starts b'#' line then handle_header env line st else elim (handle_banner line st) [
      | some st' ↦ st'
      | none ↦ consume_text env line (trim line) st
    ]

abbrev pub is_normal : SqlState → Bool
is_normal normal = true
is_normal in_comment = false
is_normal (in_string q) = false

-- A line that ends the statement in progress.
abbrev pub ends_query : SqlState → Bytes → Bool
ends_query state line = is_normal state && (is_entry_header line || is_restart_banner line)

-- Behind the cut of a `\r`.
unfoldable pub push : Outside → Bytes → SlowLogParser → Outcome
unfolding take_query consume_meta_line append_query_line is_entry_header is_restart_banner
push env line st =
    let done = take_query st in
    if st.in_query
    then (if ends_query st.sql_state line
        then (consume_meta_line env line done.0, done.1)
        else (append_query_line line st, none))
    else (consume_meta_line env line st, none)

unfoldable pub push_line : Outside → Bytes → SlowLogParser → Outcome
unfolding push strip_last
push_line env line st = push env (unwrap_or line (strip_last b'\r' line)) st

unfoldable pub finish : SlowLogParser → Outcome
unfolding take_query
finish = take_query
