-- ===== src/Tests/Spool.antt =====
-- Runs of the spool of spool.rs, and its theorem at a concrete input.
use avraham_sql_tools.Base.{
  true, ℕ, ◌≡◌, refl, codes, ◌∷◌, ◌++◌, [], List, Bytes, none, some, false, Option, map, arith,
}
use avraham_sql_tools.Int.{pos, negsuc}
use avraham_sql_tools.Spool.Build.{Result, ok, err, build, all_excluded, Spool, cursor}
use avraham_sql_tools.Spool.Cursor.{Serde}
use avraham_sql_tools.Spool.Reads.{read_events, encode_records, read_events-encode_records}
use avraham_sql_tools.Spool.Window
use avraham_sql_tools.Spool.RoundTrip.{sessions_read, whole, build-read_events}
use avraham_sql_tools.Spool.Groups.{collect}
use mathlib.Core.Option.{some-injective}
use avraham_sql_tools.Wire.Reader.Encode.{to_le}
use avraham_sql_tools.Spool.{matches, Event, Filters}

-- A form of events that stands for JSON: the session and the query.
abbrev read_back : Bytes → Option Event
read_back [] = none
read_back (id ∷ q) = some (record {
  ts_micros = pos 0;
  session_id = id;
  user = none;
  db = none;
  query = q;
  orig_query_time = 0;
  fingerprint_id = 0;
})

abbrev serde : Serde
serde = record { to_vec = λ e. some (e.session_id ∷ e.query); from_slice = read_back }

abbrev event : ℕ → Bytes → Event
event id q = record {
  ts_micros = pos 0;
  session_id = id;
  user = none;
  db = none;
  query = q;
  orig_query_time = 0;
  fingerprint_id = 0;
}

abbrev everything : Filters
everything = record { db = none; user = none; window = none }

abbrev later : Filters
later = record {
  db = none;
  user = none;
  window =
      some (record { raw = codes "1.."; start_micros = some (pos 1000000); end_micros = none });
}

abbrev events : List Event
events =
    event 7 (codes "select 1") ∷ event 9 (codes "select 22") ∷ event 7 (codes "drop table t") ∷ []

abbrev queries : Option (List Event) → List Bytes
queries none = []
queries (some es) = map (λ e. e.query) es

abbrev all_read : Result Spool → List (List Bytes)
all_read (err e) = []
all_read (ok s) = map (λ r. queries (read_events serde 9 (cursor s r))) s.sessions

built :
    (all_read (build serde everything false events events)
      ≡ (codes "select 1" ∷ codes "drop table t" ∷ []) ∷ (codes "select 22" ∷ []) ∷ [])
    × (build serde later false events events ≡ err (all_excluded 3))
unfolding build read_events to_le
built = (refl, refl)

windows :
    (Window.parse (λ s. none) (codes "-2..5")
      ≡ Window.ok (record {
        raw = codes "-2..5";
        start_micros = some (negsuc 1999999);
        end_micros = some (pos 5000000);
      }))
    × (Window.parse (λ s. none) (codes "5..5") ≡ Window.err Window.out_of_order)
    × (Window.parse (λ s. none) (codes "..") ≡ Window.err Window.no_bounds)
unfolding Window.parse
windows = (refl, refl, refl)

abbrev two : List Event
two = event 7 (codes "a") ∷ event 7 (codes "bc") ∷ []

abbrev two_records : Bytes
two_records = 2 ∷ 0 ∷ 0 ∷ 0 ∷ 7 ∷ b'a' ∷ 3 ∷ 0 ∷ 0 ∷ 0 ∷ 7 ∷ b'b' ∷ b'c' ∷ []

read_events-encode_records_example :
    read_events serde 3
      (record { file = (1 ∷ 1 ∷ []) ++ (two_records ++ 5 ∷ []); at = 2; end = 15 })
    ≡ some two
unfolding encode_records to_le
read_events-encode_records_example =
    read_events-encode_records serde two (1 ∷ 1 ∷ []) two_records (5 ∷ [])
      ((1 ∷ 1 ∷ []) ++ (two_records ++ 5 ∷ [])) refl
      (
        λ b h. rw⁻¹ (some-injective _ _ h) (refl, omega arith),
        (λ b h. rw⁻¹ (some-injective _ _ h) (refl, omega arith), tt),
      )
      refl

abbrev body : Event → Bytes
body e = e.session_id ∷ e.query

build-read_events_example :
    (spool : Spool) × (build serde everything true two two ≡ ok spool)
    × (sessions_read serde spool.file spool.sessions ≡ whole (collect everything two []))
unfolding collect matches
build-read_events_example =
    build-read_events serde everything body (λ e. refl) true two
      (
        λ b h. rw⁻¹ (some-injective _ _ h) (refl, omega arith),
        (λ b h. rw⁻¹ (some-injective _ _ h) (refl, omega arith), tt),
      )
      (λ h. cc)
