-- ===== src/Spool.antt =====
-- The events that spool.rs takes from a capture, and its filters.
pub mod Window
pub mod Build
pub mod Cursor
pub mod Reads
pub mod Groups
pub mod Plan
pub mod Fill
pub mod RoundTrip
use avraham_sql_tools.Int.{ℤ, leb_int, ltb_int}
use avraham_sql_tools.Base.{
  ℕ, Bool, true, false, not, ◌&&◌, ◌||◌, Option, none, some, Bytes, bytes_eq,
}
use avraham_sql_tools.Utf8.Search.{is_some}

-- `Event` of format.rs; the latency is the number of the 64 bits of an `f64`.
pub record Event : Type 0 where
  pub ts_micros : ℤ
  pub session_id : ℕ
  pub user : Option Bytes
  pub db : Option Bytes
  pub query : Bytes
  pub orig_query_time : ℕ
  pub fingerprint_id : ℕ

pub record TimeWindow : Type 0 where
  pub raw : Bytes
  pub start_micros : Option ℤ
  pub end_micros : Option ℤ

pub record Filters : Type 0 where
  pub db : Option Bytes
  pub user : Option Bytes
  pub window : Option TimeWindow

pub is_active : Filters → Bool
is_active f = is_some f.db || is_some f.user || is_some f.window

-- A filter on a text: without metadata there is no match.
abbrev pub text_matches : Option Bytes → Option Bytes → Bool
text_matches none have = true
text_matches (some want) none = false
text_matches (some want) (some have) = bytes_eq have want

abbrev pub from_start : Option ℤ → ℤ → Bool
from_start none ts = true
from_start (some s) ts = leb_int s ts

abbrev pub before_end : Option ℤ → ℤ → Bool
before_end none ts = true
before_end (some e) ts = ltb_int ts e

unfoldable pub contains : TimeWindow → ℤ → Bool
unfolding leb_int
contains w ts = from_start w.start_micros ts && before_end w.end_micros ts

abbrev pub in_window : Option TimeWindow → ℤ → Bool
in_window none ts = true
in_window (some w) ts = contains w ts

unfoldable pub matches : Filters → Event → Bool
unfolding contains bytes_eq
matches f e = text_matches f.db e.db && text_matches f.user e.user && in_window f.window e.ts_micros
