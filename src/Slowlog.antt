-- ===== src/Slowlog.antt =====
-- The state of the slow log parser of slowlog.rs, and the dialect that it observes. What the code
-- calls outside itself is a parameter: `f64` and its parsing, and the dates of the crate `time`.
pub mod Values
pub mod Headers
pub mod Parser
pub mod Statements
pub mod Entries
pub mod Meta
pub mod Banners
use avraham_sql_tools.Base.{
  ℕ, ◌+◌, Bool, true, false, not, ◌&&◌, Option, none, some, [], if◌then◌else◌, Bytes, codes,
}

pub data Dialect : Type 0 where
  mysql_56_or_older mysql_57 mysql_57_or_newer mysql_80 maria_db : Dialect

pub as_str : Dialect → Bytes
as_str mysql_56_or_older = codes "mysql-5.6-or-older"
as_str mysql_57 = codes "mysql-5.7"
as_str mysql_57_or_newer = codes "mysql-5.7-or-newer"
as_str mysql_80 = codes "mysql-8.0"
as_str maria_db = codes "mariadb"

-- A time in microseconds and an `f64` are the numbers of their 64 bits, which the parser copies.
pub record ParsedQuery : Type 0 where
  pub ts_micros : ℕ
  pub thread_id : ℕ
  pub user : Option Bytes
  pub db : Option Bytes
  pub query : Bytes
  pub query_time : ℕ

pub record ParserStats : Type 0 where
  pub admin_commands : ℕ
  pub restarts : ℕ

pub data SqlState : Type 0 where
  normal in_comment : SqlState
  in_string : ℕ → SqlState

pub record SlowLogParser : Type 0 where
  pub dialect : Option Dialect
  pub dialect_from_banner : Bool
  pub time_micros : Option ℕ
  pub set_ts_micros : Option ℕ
  pub user : Option Bytes
  pub thread_id : Option ℕ
  pub schema : Option Bytes
  pub query_time : ℕ
  pub current_db : Option Bytes
  pub buf : Bytes
  pub in_query : Bool
  pub sql_state : SqlState
  pub stats : ParserStats

abbrev pub new : SlowLogParser
new = record {
  dialect = none;
  dialect_from_banner = false;
  time_micros = none;
  set_ts_micros = none;
  user = none;
  thread_id = none;
  schema = none;
  query_time = 0;
  current_db = none;
  buf = [];
  in_query = false;
  sql_state = normal;
  stats = record { admin_commands = 0; restarts = 0 };
}

-- What the parser calls: the parsing of an RFC 3339 time to microseconds, the microseconds of a
-- date and a time of day where there are such, the parsing of an `f64`, and
-- `(secs * 1_000_000.0).round() as i64`.
pub record Outside : Type 0 where
  pub parse_rfc3339 : Bytes → Option ℕ
  pub date_time_micros : ℕ → ℕ → ℕ → ℕ → ℕ → ℕ → Option ℕ
  pub parse_f64 : Bytes → Option ℕ
  pub to_micros : ℕ → ℕ

abbrev pub reset_entry : SlowLogParser → SlowLogParser
reset_entry st = record st { set_ts_micros = none; schema = none; query_time = 0 }

-- The first banner wins, over what the format of a time says too.
unfoldable pub observe_banner_dialect : Dialect → SlowLogParser → SlowLogParser
observe_banner_dialect d st =
    if not st.dialect_from_banner
    then record st { dialect = some d; dialect_from_banner = true }
    else st

abbrev pub first_dialect : Dialect → Option Dialect → Option Dialect
first_dialect d none = some d
first_dialect d (some e) = some e

unfoldable pub observe_time_dialect : Dialect → SlowLogParser → SlowLogParser
observe_time_dialect d st = record st { dialect = first_dialect d st.dialect }

abbrev pub may_refine : Option Dialect → Bool
may_refine none = true
may_refine (some mysql_57_or_newer) = true
may_refine (some mysql_56_or_older) = false
may_refine (some mysql_57) = false
may_refine (some mysql_80) = false
may_refine (some maria_db) = false

unfoldable pub observe_log_slow_extra : SlowLogParser → SlowLogParser
observe_log_slow_extra st =
    if not st.dialect_from_banner && may_refine st.dialect
    then record st { dialect = some mysql_80 }
    else st
