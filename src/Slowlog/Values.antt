-- ===== src/Slowlog/Values.antt =====
-- The values in the lines of a slow log: `parse_time_value`, `parse_use_line` and
-- `parse_set_timestamp` of slowlog.rs, and its tests of lines.
use avraham_sql_tools.Ascii.{is_digit, to_lower}
use avraham_sql_tools.Base.{
  ℕ, ◌+◌, Bool, true, not, ◌&&◌, ◌||◌, Option, none, some, ◌>>=◌, List, [], ◌∷◌, map, ◌==◌, ltb,
  leb, if◌then◌else◌, Bytes, codes, length, take, drop, bytes_eq,
}
use avraham_sql_tools.Slowlog.{Dialect, mysql_56_or_older, mysql_57_or_newer, Outside}
use avraham_sql_tools.Utf8.Search.{
  contains, starts_with, ends_with, is_some, split_whitespace, split_at_char, drop_char_end,
  parse_unsigned, strip_prefix, find_behind,
}
use avraham_sql_tools.Utf8.Split.{trim, split_once_space}
use avraham_sql_tools.Utf8.{trim_end}
use avraham_sql_tools.Wire.UseTarget.{strip_first, strip_last, undouble, non_empty}
use mathlib.Core.List.{reverse}

-- `trim_end` on the bytes in their order.
abbrev pub trimmed_end : Bytes → Bytes
trimmed_end s = reverse (trim_end (reverse s))

unfoldable pub is_entry_header : Bytes → Bool
unfolding strip_prefix
is_entry_header line =
    starts_with (codes "# Time: ") line
    || starts_with (codes "# User@Host: ") line
    || starts_with (codes "# Query_time: ") line
    || starts_with (codes "# Thread_id: ") line
    || starts_with (codes "# administrator command:") line

unfoldable pub is_restart_banner : Bytes → Bool
unfolding find_behind strip_prefix trim_end
is_restart_banner line =
    contains (codes ", Version: ") line && ends_with (codes "started with:") (trimmed_end line)

unfoldable pub all_digits : Bytes → Bool
unfolding is_digit
all_digits [] = true
all_digits (c ∷ s) = is_digit c && all_digits s

-- The first parts of `hms`: hour, minute and second.
unfoldable pub time_of_day : List Bytes → Option (ℕ × (ℕ × ℕ))
unfolding trim parse_unsigned
time_of_day (h ∷ m ∷ s ∷ later) = do
  hour ← parse_unsigned 8 (trim h)
  minute ← parse_unsigned 8 m
  second ← parse_unsigned 8 s
  some (hour, (minute, second))
time_of_day _ = none

unfoldable pub legacy_time : Outside → List Bytes → Option ℕ
unfolding all_digits time_of_day parse_unsigned split_at_char
legacy_time env (date ∷ tod ∷ later) =
    if not (length date == 6) || not (all_digits date) then none else (do
      year ← parse_unsigned 31 (take 2 date)
      month ← parse_unsigned 8 (take 2 (drop 2 date))
      day ← parse_unsigned 8 (drop 4 date)
      (hour, (minute, second)) ← time_of_day (split_at_char b':' tod)
      env.date_time_micros (2000 + year) month day hour minute second)
legacy_time env _ = none

unfoldable pub parse_time_value : Outside → Bytes → Option (ℕ × Dialect)
unfolding trim find_behind legacy_time split_whitespace
parse_time_value env text =
    let s = trim text in
    if contains (b'T' ∷ []) s
    then (do micros ← env.parse_rfc3339 s; some (micros, mysql_57_or_newer))
    else (do micros ← legacy_time env (split_whitespace s); some (micros, mysql_56_or_older))

-- A name in backquotes, or one without white space.
unfoldable pub use_name : Bytes → Option Bytes
unfolding strip_last undouble split_once_space
use_name db = elim (strip_first b'`' db) [
  | none ↦ if is_some (split_once_space db) then none else non_empty db
  | some inner ↦ elim (strip_last b'`' inner) [
    | none ↦ if is_some (split_once_space db) then none else some db
    | some name ↦ non_empty (undouble name)
  ]
]

unfoldable pub parse_use_line : Bytes → Option Bytes
unfolding use_name trim to_lower bytes_eq
parse_use_line t =
    if ltb (length t) 5 || not (bytes_eq (map to_lower (take 4 t)) (codes "use "))
    then none
    else use_name (trim (drop_char_end b';' (trim (drop 4 t))))

unfoldable pub parse_set_timestamp : Outside → Bytes → Option ℕ
unfolding trim to_lower bytes_eq
parse_set_timestamp env t =
    if leb (length t) 14 || not (bytes_eq (map to_lower (take 14 t)) (codes "set timestamp="))
    then none
    else (do
      secs ← env.parse_f64 (trim (drop_char_end b';' (drop 14 t)))
      some (env.to_micros secs))
