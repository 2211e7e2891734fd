-- ===== src/Slowlog/Headers.antt =====
-- The header and banner lines of a slow log: `handle_header`, `handle_user_host`, `handle_kv_line` and
-- `handle_banner` of slowlog.rs.
use avraham_sql_tools.Base.{
  ℕ, ◌+◌, Bool, true, false, ◌&&◌, ◌||◌, Option, none, some, ◌>>=◌, List, [], ◌∷◌, ◌==◌,
  if◌then◌else◌, Bytes, codes, bytes_eq,
}
use avraham_sql_tools.Slowlog.Values.{is_restart_banner, parse_time_value}
use avraham_sql_tools.Slowlog.{
  Dialect, mysql_56_or_older, mysql_57, mysql_80, maria_db, SlowLogParser, Outside, reset_entry,
  observe_banner_dialect, observe_time_dialect, observe_log_slow_extra,
}
use avraham_sql_tools.Utf8.Search.{
  contains, starts_with, is_some, until, first_part, split_whitespace, drop_char, parse_unsigned,
  strip_prefix, find_behind, rfind_behind,
}
use avraham_sql_tools.Utf8.Split.{trim}
use avraham_sql_tools.Utf8.{trim_start}
use avraham_sql_tools.Wire.UseTarget.{strip_last, unwrap_or}

-- The name in `appuser[appuser]`, in front of the bracket or else inside.
unfoldable pub user_name : Bytes → Bytes
unfolding until
user_name [] = []
user_name (c ∷ s) = if c == b'[' then unwrap_or [] (until b']' s) else first_part b'[' (c ∷ s)

-- `if let Some(id) = .. { self.thread_id = Some(id) }`
abbrev pub set_thread : Option ℕ → SlowLogParser → SlowLogParser
set_thread none st = st
set_thread (some id) st = record st { thread_id = some id }

abbrev pub first_word : List Bytes → Option Bytes
first_word [] = none
first_word (w ∷ ws) = some w

-- The number behind the last `Id:`.
unfoldable pub host_thread : Bytes → Option ℕ
unfolding rfind_behind split_whitespace parse_unsigned
host_thread rest = do
  behind ← rfind_behind (codes "Id:") rest
  tok ← first_word (split_whitespace behind)
  parse_unsigned 64 tok

abbrev pub set_user : Bytes → SlowLogParser → SlowLogParser
set_user [] st = st
set_user (c ∷ s) st = record st { user = some (c ∷ s) }

unfoldable pub handle_user_host : Bytes → SlowLogParser → SlowLogParser
unfolding user_name host_thread until trim
handle_user_host rest st =
    set_thread (host_thread rest) (set_user (user_name (trim (first_part b'@' rest))) st)

abbrev pub set_query_time : Option ℕ → SlowLogParser → SlowLogParser
set_query_time none st = st
set_query_time (some f) st = record st { query_time = f }

unfoldable pub handle_pair : Outside → Bytes → Bytes → SlowLogParser → SlowLogParser
unfolding bytes_eq parse_unsigned
handle_pair env key v st =
    if bytes_eq key (codes "Query_time")
    then set_query_time (env.parse_f64 v) st
    else if bytes_eq key (codes "Thread_id")
    then set_thread (parse_unsigned 64 v) st
    else if bytes_eq key (codes "Schema")
    then record st { schema = some v }
    else st

abbrev pub is_key : Bytes → Bool
is_key v = is_some (strip_last b':' v)

-- A key has no value where the next token is a key.
unfoldable pub handle_pairs : Outside → List Bytes → SlowLogParser → SlowLogParser
unfolding handle_pair strip_last
handle_pairs env [] st = st
handle_pairs env (t ∷ []) st = st
handle_pairs env (t ∷ v ∷ toks) st = elim (strip_last b':' t) [
  | none ↦ handle_pairs env (v ∷ toks) st
  | some key ↦ elim (is_key v) [
    | true ↦ handle_pairs env (v ∷ toks) st
    | false ↦ handle_pairs env toks (handle_pair env key v st)
  ]
]

unfoldable pub handle_kv_line : Outside → Bytes → SlowLogParser → SlowLogParser
unfolding handle_pairs split_whitespace drop_char trim_start
handle_kv_line env line st =
    handle_pairs env (split_whitespace (trim_start (drop_char b'#' line))) st

abbrev pub set_time : Option (ℕ × Dialect) → SlowLogParser → SlowLogParser
set_time none st = st
set_time (some (micros, d)) st = observe_time_dialect d (record st { time_micros = some micros })

abbrev pub is_extra : Bytes → Bool
is_extra line =
    starts_with (codes "# Query_time:") line
    && (contains (codes "Thread_id:") line || contains (codes "Errno:") line)

abbrev pub admin_command : SlowLogParser → SlowLogParser
admin_command st =
    reset_entry
      (record st { stats = record st.stats { admin_commands = st.stats.admin_commands + 1 } })

abbrev pub handle_other : Outside → Bytes → SlowLogParser → SlowLogParser
handle_other env line st =
    handle_kv_line env line (if is_extra line then observe_log_slow_extra st else st)

unfoldable pub handle_header : Outside → Bytes → SlowLogParser → SlowLogParser
unfolding parse_time_value handle_user_host handle_kv_line strip_prefix find_behind trim
    observe_time_dialect observe_log_slow_extra
handle_header env line st = elim (strip_prefix (codes "# Time: ") line) [
  | some rest ↦ set_time (parse_time_value env (trim rest)) st
  | none ↦ elim (strip_prefix (codes "# User@Host: ") line) [
    | some rest ↦ handle_user_host rest st
    | none ↦
        if starts_with (codes "# administrator command:") line
        then admin_command st
        else handle_other env line st
  ]
]

-- The dialect of a banner's version string.
unfoldable pub version_dialect : Bytes → Option Dialect
unfolding find_behind strip_prefix
version_dialect ver =
    if contains (codes "MariaDB") ver
    then some maria_db
    else if starts_with (codes "5.7") ver
    then some mysql_57
    else if starts_with (codes "5") ver
    then some mysql_56_or_older
    else if starts_with (codes "8") ver
    then some mysql_80
    else none

abbrev pub observe_version : Option Dialect → SlowLogParser → SlowLogParser
observe_version none st = st
observe_version (some d) st = observe_banner_dialect d st

-- A restarted server starts a fresh log stream.
unfoldable pub restart : Bytes → SlowLogParser → SlowLogParser
unfolding find_behind version_dialect observe_banner_dialect
restart line st =
    observe_version (do ver ← find_behind (codes ", Version: ") line; version_dialect ver)
      (record st {
        stats = record st.stats { restarts = st.stats.restarts + 1 };
        current_db = none;
        set_ts_micros = none;
      })

unfoldable pub is_column_header : Bytes → Bool
unfolding find_behind strip_prefix trim_start
is_column_header line =
    starts_with (codes "Tcp port:") line
    || starts_with (codes "TCP Port:") line
    || (starts_with (codes "Time") (trim_start line)
        && contains (codes "Id") (trim_start line)
        && contains (codes "Command") (trim_start line)
        && contains (codes "Argument") (trim_start line))

-- The parser after a banner or a column header; `none` where the line is neither.
unfoldable pub handle_banner : Bytes → SlowLogParser → Option SlowLogParser
unfolding restart is_restart_banner is_column_header
handle_banner line st =
    if is_restart_banner line
    then some (restart line st)
    else if is_column_header line
    then some st
    else none
