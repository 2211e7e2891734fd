-- ===== src/Spool/Build.antt =====
-- `Spool::build` of spool.rs: the two passes over a capture. The two lists of events are what
-- `stream_capture` hands to its callback in each pass. The sessions of the source's `HashMap` are a
-- list in the order of `order`, in which they first appear.
use avraham_sql_tools.Base.{
  ℕ, ◌+◌, Bool, false, ◌&&◌, ◌||◌, Option, none, some, List, [], ◌∷◌, ◌==◌, ltb, if◌then◌else◌,
  Bytes, length, replicate,
}
use avraham_sql_tools.Classify.Gate.{should_execute}
use avraham_sql_tools.Int.{ℤ, pos, min_int, leb_int}
use avraham_sql_tools.Spool.Cursor.{Serde, encode_record, record_size, write_at, SpoolCursor}
use avraham_sql_tools.Spool.{Event, Filters, matches}

pub data SpoolError : Type 0 where
  serializing : SpoolError
  all_excluded session_appeared changed : ℕ → SpoolError

pub data Result (A : Type 0) : Type 0 where
  ok : A → Result A
  err : SpoolError → Result A

abbrev pub and_then : {A B : Type 0} → Result A → (A → Result B) → Result B
and_then (ok a) k = k a
and_then (err e) k = err e

pub record SpoolSession : Type 0 where
  pub session_id : ℕ
  pub start : ℕ
  pub end : ℕ
  pub event_count : ℕ
  pub has_executable : Bool

pub record SessionBuild : Type 0 where
  pub session_id : ℕ
  pub bytes : ℕ
  pub event_count : ℕ
  pub has_executable : Bool
  pub write_pos : ℕ

pub record Spool : Type 0 where
  pub file : Bytes
  pub sessions : List SpoolSession
  pub base_ts_micros : ℤ
  pub event_count : ℕ
  pub filtered : ℕ
  pub bytes : ℕ

-- What pass A gathers.
pub record Sizing : Type 0 where
  pub sessions : List SessionBuild
  pub base_ts_micros : ℤ
  pub included : ℕ
  pub filtered : ℕ

abbrev pub no_sizes : Sizing
no_sizes = record {
  sessions = [];
  base_ts_micros = pos 0x7fffffffffffffff;
  included = 0;
  filtered = 0;
}

-- A session with one more record.
abbrev pub grown : ℕ → Bool → SessionBuild → SessionBuild
grown n executable s = record s {
  bytes = s.bytes + n;
  event_count = s.event_count + 1;
  has_executable = s.has_executable || executable;
}

abbrev pub new_session : ℕ → SessionBuild
new_session id = record {
  session_id = id;
  bytes = 0;
  event_count = 0;
  has_executable = false;
  write_pos = 0;
}

unfoldable pub add_record : ℕ → ℕ → Bool → List SessionBuild → List SessionBuild
add_record id n executable [] = grown n executable (new_session id) ∷ []
add_record id n executable (s ∷ ss) =
    let later = s ∷ add_record id n executable ss in
    if s.session_id == id then grown n executable s ∷ ss else later

-- An event that the filters let through, with its record's size.
abbrev pub include : Bool → Event → ℕ → Sizing → Sizing
include allow_writes e n z = record z {
  sessions = add_record e.session_id n (should_execute e.query allow_writes) z.sessions;
  base_ts_micros = min_int z.base_ts_micros e.ts_micros;
  included = z.included + 1;
}

module _ (serde : Serde) (filters : Filters) where
  unfoldable pub size_event : Bool → Event → Sizing → Result Sizing
  unfolding matches record_size add_record should_execute leb_int
  size_event allow_writes e z =
      if matches filters e
      then elim (record_size serde e) [
        | none ↦ err serializing
        | some n ↦ ok (include allow_writes e n z)
      ]
      else ok (record z { filtered = z.filtered + 1 })

  -- Pass A.
  unfoldable pub size_events : Bool → List Event → Sizing → Result Sizing
  unfolding size_event
  size_events allow_writes [] z = ok z
  size_events allow_writes (e ∷ es) z =
      and_then (size_event allow_writes e z) (size_events allow_writes es)

-- The regions, one behind the other: each session's write cursor, the index and the end.
pub record Layout : Type 0 where
  pub sessions : List SessionBuild
  pub index : List SpoolSession
  pub offset : ℕ

abbrev pub region : ℕ → SessionBuild → SpoolSession
region offset s = record {
  session_id = s.session_id;
  start = offset;
  end = offset + s.bytes;
  event_count = s.event_count;
  has_executable = s.has_executable;
}

unfoldable pub layout : ℕ → List SessionBuild → Layout
layout offset [] = record { sessions = []; index = []; offset = offset }
layout offset (s ∷ ss) =
    let more = layout (offset + s.bytes) ss in
    record {
      sessions = record s { write_pos = offset } ∷ more.sessions;
      index = region offset s ∷ more.index;
      offset = more.offset;
    }

unfoldable pub session_at : ℕ → List SessionBuild → Option SessionBuild
session_at id [] = none
session_at id (s ∷ ss) = if s.session_id == id then some s else session_at id ss

-- `s.write_pos += n`
unfoldable pub advance : ℕ → ℕ → List SessionBuild → List SessionBuild
advance id n [] = []
advance id n (s ∷ ss) =
    let later = s ∷ advance id n ss in
    if s.session_id == id then record s { write_pos = s.write_pos + n } ∷ ss else later

-- The write cursors and the file.
abbrev pub Written : Type 0
Written = List SessionBuild × Bytes

abbrev pub write_record : Event → SessionBuild → Bytes → Written → Written
write_record e s bytes (ss, file) =
    (advance e.session_id (length bytes) ss, write_at s.write_pos bytes file)

module _ (serde : Serde) (filters : Filters) where
  unfoldable pub write_event : Event → Written → Result Written
  unfolding matches encode_record session_at advance write_at
  write_event e w =
      if matches filters e
      then elim (session_at e.session_id w.0) [
        | none ↦ err (session_appeared e.session_id)
        | some s ↦ elim (encode_record serde e) [
          | none ↦ err serializing
          | some bytes ↦ ok (write_record e s bytes w)
        ]
      ]
      else ok w

  -- Pass B.
  unfoldable pub write_events : List Event → Written → Result Written
  unfolding write_event
  write_events [] w = ok w
  write_events (e ∷ es) w = and_then (write_event e w) (write_events es)

-- The position up to which a session is written; each session of the index is there.
abbrev pub written_to : Option SessionBuild → ℕ
written_to none = 0
written_to (some s) = s.write_pos

-- Every region must be exactly full.
unfoldable pub check_full : List SpoolSession → List SessionBuild → Result Unit
unfolding session_at
check_full [] ss = ok tt
check_full (planned ∷ index) ss =
    let rest = check_full index ss in
    if written_to (session_at planned.session_id ss) == planned.end
    then rest
    else err (changed planned.session_id)

abbrev pub nothing_left : Sizing → Bool
nothing_left z = z.included == 0 && ltb 0 z.filtered

abbrev pub spool_of : Sizing → Layout → Bytes → Spool
spool_of z l file = record {
  file = file;
  sessions = l.index;
  base_ts_micros = if ltb 0 z.included then z.base_ts_micros else pos 0;
  event_count = z.included;
  filtered = z.filtered;
  bytes = l.offset;
}

-- Behind pass A: the layout, a file of that length, and pass B.
abbrev pub fill : Serde → Filters → List Event → Sizing → Layout → Result Spool
fill serde filters events z l =
    and_then (write_events serde filters events (l.sessions, replicate l.offset 0))
      (λ w. and_then (check_full l.index w.0) (λ full. ok (spool_of z l w.1)))

unfoldable pub build : Serde → Filters → Bool → List Event → List Event → Result Spool
unfolding size_events layout write_events check_full
build serde filters allow_writes first second =
    and_then (size_events serde filters allow_writes first no_sizes) (λ z.
      if nothing_left z
      then err (all_excluded z.filtered)
      else fill serde filters second z (layout 0 z.sessions))

abbrev pub cursor : Spool → SpoolSession → SpoolCursor
cursor spool s = record { file = spool.file; at = s.start; end = s.end }
