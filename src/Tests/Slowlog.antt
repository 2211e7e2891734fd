-- ===== src/Tests/Slowlog.antt =====
-- Runs of the slow log parser, and its theorems at concrete inputs.
use avraham_sql_tools.Base.{
  ◌*◌, ◌+◌, ◌≡◌, refl, codes, ◌∷◌, [], List, Bytes, none, some, true, map, arith, ◌++◌,
}
use avraham_sql_tools.Slowlog.Banners.{push_lines-IsClean, push_lines-Labelled}
use avraham_sql_tools.Slowlog.Entries.{
  push_lines, Continues, scan_lines, entry, push_line-push_lines, push_lines_inside,
}
use avraham_sql_tools.Slowlog.Statements.{join}
use avraham_sql_tools.Slowlog.Meta.{IsClean, Labelled}
use avraham_sql_tools.Slowlog.Parser.{push_line, scan_sql_state}
use avraham_sql_tools.Slowlog.Values.{
  parse_use_line, parse_set_timestamp, parse_time_value, is_entry_header, is_restart_banner,
}
use avraham_sql_tools.Slowlog.{new, Outside, SlowLogParser, ParsedQuery, maria_db, in_string}
use avraham_sql_tools.Utf8.Search.{parse_unsigned, drop_char}
use avraham_sql_tools.Utf8.Split.{trim}
use avraham_sql_tools.Wire.UseTarget.{strip_last}
use avraham_sql_tools.Slowlog.Headers.{is_column_header}

-- A concrete instance of what the parser calls.
abbrev env : Outside
env = record {
  parse_rfc3339 = λ s. some 5;
  date_time_micros =
      λ y mo d h mi s. some ((((y * 12 + mo) * 31 + d) * 24 + h) * 3600 + mi * 60 + s);
  parse_f64 = parse_unsigned 64;
  to_micros = λ secs. secs * 1000000;
}

abbrev log : List Bytes
log =
    codes "/usr/sbin/mysqld, Version: 10.11.18-MariaDB (mariadb.org). started with:"
    ∷ codes "Tcp port: 3306  Unix socket: /run/mysqld.sock"
    ∷ codes "Time                 Id Command    Argument"
    ∷ codes "# Time: 230901 12:00:01"
    ∷ codes "# User@Host: appuser[appuser] @ app01 [10.0.0.5]  Id:    11"
    ∷ codes "# Query_time: 2  Lock_time: 0 Rows_sent: 1"
    ∷ codes "use shop;"
    ∷ codes "SET timestamp=1700000000;"
    ∷ codes "select 'a"
    ∷ codes "# Time: 230901 12:00:02"
    ∷ codes "b' from t ;"
    ∷ codes "# User@Host: [root] @ localhost []  Id:    12"
    ∷ codes "SET timestamp=1700000001;"
    ∷ codes "use other;"
    ∷ []

abbrev fields : ParsedQuery → Bytes
fields q = q.ts_micros ∷ q.thread_id ∷ q.query_time ∷ q.query

log_out :
    map fields (push_lines env log new).1
    ≡ (1700000000000000 ∷ 11 ∷ 2 ∷ codes "select 'a\n# Time: 230901 12:00:02\nb' from t") ∷ []
unfolding push_lines
log_out = refl

uses :
    (parse_use_line (codes "USE `a``b` ;") ≡ some (codes "a`b"))
    × (parse_use_line (codes "use a b;") ≡ none)
    × (parse_set_timestamp env (codes "set TIMESTAMP= 12;") ≡ some 12000000)
    × (parse_time_value env (codes "230931 1:2") ≡ none)
unfolding parse_use_line parse_set_timestamp parse_time_value drop_char
uses = (refl, refl, refl, refl)

abbrev stamped : SlowLogParser
stamped = record new { set_ts_micros = some 7; user = some (codes "app") }

abbrev begin : Bytes
begin = codes "select 'a"

abbrev later : List Bytes
later = codes "# Time: 230901 12:00:02" ∷ codes "b' from t ;" ∷ []

push_line-push_lines_example :
    let r = push_lines env (begin ∷ later) stamped in
    (r.1 ≡ [])
    × ((push_line env (codes "# Time: 1") r.0).1
        ≡ some
            (entry stamped 7 (codes "select 'a\n# Time: 230901 12:00:02\nb' from " ++ b't' ∷ [])))
unfolding join Continues scan_lines scan_sql_state strip_last is_entry_header is_restart_banner
    is_column_header trim parse_set_timestamp
push_line-push_lines_example =
    push_line-push_lines env begin later (codes "# Time: 1") stamped 7
      (codes "select 'a\n# Time: 230901 12:00:02\nb' from ") b't' (b' ' ∷ []) true []
      (record {
        no_return = refl;
        no_header = refl;
        no_banner = refl;
        no_columns = refl;
        first = b's';
        trimmed = codes "elect 'a";
        not_blank = refl;
        no_timestamp = refl;
      })
      ((refl, refl, (refl, refl, tt))) refl refl refl refl refl refl (omega arith, refl) refl
      (refl, tt) tt

abbrev in_text : SlowLogParser
in_text = record stamped { in_query = true; buf = codes "select '"; sql_state = in_string b'\'' }

push_lines_inside_example :
    push_lines env (codes "# Time: 1" ∷ []) in_text
    ≡ (record in_text { buf = codes "select '\n# Time: 1" }, [])
unfolding strip_last join
push_lines_inside_example =
    push_lines_inside env b'\'' (codes "# Time: 1" ∷ []) in_text b's' (codes "elect '") refl refl
      refl ((refl, ground arith), tt)

push_lines-IsClean_example : IsClean (push_lines env log new).0
push_lines-IsClean_example = push_lines-IsClean env log

abbrev labelled : SlowLogParser
labelled = record new { dialect = some maria_db; dialect_from_banner = true }

push_lines-Labelled_example : Labelled maria_db (push_lines env log labelled).0
push_lines-Labelled_example =
    push_lines-Labelled env log labelled maria_db (λ h. (refl, refl)) (refl, refl)
