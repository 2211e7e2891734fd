-- ===== src/Spool/RoundTrip.antt =====
-- A spool that is built, read by its cursors.
use avraham_sql_tools.Base.{
  ℕ, suc, ◌+◌, Bool, true, false, Option, some, List, [], ◌∷◌, ◌++◌, map, ◌≡◌, ◌≢◌, refl, sym, ap,
  ◌∙◌, arith, ◌==◌, inl, inr, Bool-cases, if◌then◌else◌, if_lem, Bytes, length, length-append,
  replicate, All,
}
use avraham_sql_tools.Spool.Build.{
  ok, err, and_then, Spool, SpoolSession, SessionBuild, Sizing, no_sizes, size_events, layout,
  session_at, write_events, check_full, nothing_left, spool_of, fill, build, Layout, Written,
  all_excluded,
}
use avraham_sql_tools.Spool.Cursor.{Serde, encode_record}
use avraham_sql_tools.Spool.Fill.{write_events-Laid}
use avraham_sql_tools.Spool.Groups.{
  Group, add_event, has, Distinct, collect, blanks, collect-blanks, Distinct-collect, Distinct-nil,
}
use avraham_sql_tools.Spool.Plan.{
  recs, Sized-nil, IsCounted, size_events-Sized, Laid, Indexed, total_size, layout-Laid,
}
use avraham_sql_tools.Spool.Reads.{
  read_events, encode_records, IsReadable, read_events-encode_records,
}
use avraham_sql_tools.Spool.{Event, Filters, matches}
use mathlib.Core.Path.{subst}
use mathlib.Core.Bool.{true≢false}
use avraham_sql_tools.Base.{append_assoc}

module _ (body : Event → Bytes) where
  -- The sessions behind another one are found as without it.
  check_full-skip :
      (s : SessionBuild) (ss : List SessionBuild) (offset : ℕ) (index : List SpoolSession)
      (full : List Group)
      → Indexed body offset index full
      → has s.session_id full ≡ false
      → check_full index (s ∷ ss) ≡ check_full index ss
  unfolding check_full session_at Indexed has
  check_full-skip s ss offset [] full w h = refl
  check_full-skip s ss offset (p ∷ index) [] w h = elim w [ ]
  check_full-skip s ss offset (p ∷ index) (a ∷ full) (i, b, e, n, w) h =
      elim (Bool-cases (a.0 == s.session_id)) [
        | inl same ↦ absurd (true≢false (sym (rw same refl) ∙ h))
        | inr other ↦
            let apart : s.session_id == p.session_id ≡ false = ground (arith, i, other) in
            let later =
              check_full-skip s ss (offset + length (recs body a.1)) index full w (rw other at h) in
            rw (apart, later) refl
      ]

  -- Regions that hold all records are exactly full.
  check_full-Laid :
      (offset : ℕ) (index : List SpoolSession) (ss : List SessionBuild) (full : List Group)
      (file : Bytes)
      → Laid body offset ss full full file
      → Indexed body offset index full
      → Distinct full
      → check_full index ss ≡ ok tt
  unfolding check_full session_at Laid Indexed Distinct
  check_full-Laid offset [] ss full file l w d = refl
  check_full-Laid offset (p ∷ index) ss [] file l w d = elim w [ ]
  check_full-Laid offset (p ∷ index) [] (a ∷ full) file l w d = elim l [ ]
  check_full-Laid offset (p ∷ index) (s ∷ ss) (a ∷ full) file (i, _, pos, room, rest, _, _, l)
        (j, b, e, n, w) (fresh, d) =
      let found : s.session_id == p.session_id ≡ true = ground (arith, i, j) in
      let end : s.write_pos == p.end ≡ true = ground (arith, pos, e) in
      let fresh_s : has s.session_id full ≡ false = ap (λ k. has k full) i ∙ fresh in
      let later =
        check_full-skip s ss (offset + length (recs body a.1)) index full w fresh_s
        ∙ check_full-Laid (offset + length (recs body a.1)) index ss full rest l w d in
      rw (found, end) later

-- What the cursors read, session by session.
abbrev pub sessions_read : Serde → Bytes → List SpoolSession → List (ℕ × Option (List Event))
sessions_read serde file index =
    map
      (λ p. (
        p.session_id,
        read_events serde (suc p.event_count) (record { file = file; at = p.start; end = p.end }),
      ))
      index

abbrev pub whole : List Group → List (ℕ × Option (List Event))
whole = map (λ g. (g.0, some g.1))

abbrev pub GroupsReadable : Serde → List Group → Type 0
GroupsReadable serde = All (λ g. All (IsReadable serde) g.1)

module _ (serde : Serde) (filters : Filters) (body : Event → Bytes)
    (total : (e : Event) → serde.to_vec e ≡ some (body e)) where
  encode_records-recs : (es : List Event) → encode_records serde es ≡ some (recs body es)
  unfolding encode_records encode_record recs
  encode_records-recs [] = refl
  encode_records-recs (e ∷ es) =
      rw (total e, encode_records, encode_record) (rw (encode_records-recs es, encode_records) refl)

  no_room : (b : Bytes) → length b ≡ 0 → b ≡ []
  no_room [] h = refl
  no_room (c ∷ b) h = absurd (omega (arith, h))

  sessions_read-Laid :
      (before : Bytes) (index : List SpoolSession) (ss : List SessionBuild) (full : List Group)
      (file whole_file : Bytes)
      → whole_file ≡ before ++ file
      → Laid body (length before) ss full full file
      → Indexed body (length before) index full
      → GroupsReadable serde full
      → sessions_read serde whole_file index ≡ whole full
  unfolding Laid Indexed
  sessions_read-Laid before [] ss [] file f h l w r = refl
  sessions_read-Laid before [] ss (a ∷ full) file f h l w r = elim w [ ]
  sessions_read-Laid before (p ∷ index) ss [] file f h l w r = elim w [ ]
  sessions_read-Laid before (p ∷ index) [] (a ∷ full) file f h l w r = elim l [ ]
  sessions_read-Laid before (p ∷ index) (s ∷ ss) (a ∷ full) file f h
        (i, _, pos, room, rest, split, fits, l) (j, b, e, n, w) (ra, r) =
      let here = recs body a.1 in
      let empty : room ≡ [] = no_room room (omega (arith, fits)) in
      let file_here : f ≡ before ++ (here ++ rest) =
        h ∙ ap (◌++◌ before) (split ∙ ap (λ q. here ++ (q ++ rest)) empty) in
      let one =
        read_events-encode_records serde a.1 before here rest f (encode_records-recs a.1) ra
          file_here in
      let sum : length (before ++ here) ≡ length before + length here = length-append before here in
      let later =
        sessions_read-Laid (before ++ here) index ss full rest f
          (file_here ∙ sym (append_assoc before here rest))
          (subst (λ k. Laid body k ss full full rest) (sym sum) l)
          (subst (λ k. Indexed body k index full) (sym sum) w) r in
      rw (j, b, e, n) (rw (one, later) refl)

  add_event-readable :
      (e : Event) (gs : List Group)
      → IsReadable serde e
      → GroupsReadable serde gs
      → GroupsReadable serde (add_event e gs)
  unfolding add_event
  add_event-readable e [] r rs = ((r, tt), tt)
  add_event-readable e (g ∷ gs) r (one, rs) =
      if_lem (GroupsReadable serde) (g.0 == e.session_id) (all_append g.1 one, rs)
        (one, add_event-readable e gs r rs)
    where
      all_append :
          (es : List Event) → All (IsReadable serde) es → All (IsReadable serde) (es ++ e ∷ [])
      all_append [] h = (r, tt)
      all_append (f ∷ es) (h, hs) = (h, all_append es hs)

  collect-readable :
      (es : List Event) (gs : List Group)
      → All (IsReadable serde) es
      → GroupsReadable serde gs
      → GroupsReadable serde (collect filters es gs)
  unfolding collect
  collect-readable [] gs h r = r
  collect-readable (e ∷ es) gs (h, hs) r =
      collect-readable es (if matches filters e then add_event e gs else gs) hs
        (if_lem (GroupsReadable serde) (matches filters e) (add_event-readable e gs h r) r)

  some_left : (z : Sizing) (gs : List Group) → IsCounted z gs → gs ≢ [] → nothing_left z ≡ false
  some_left z gs counted ne = elim (Bool-cases (z.included == 0)) [
    | inl e ↦ absurd (ne (counted (ground (arith, e))))
    | inr e ↦ rw e refl
  ]

  build-fill :
      (w : Bool) (first second : List Event) (z : Sizing)
      → size_events serde filters w first no_sizes ≡ ok z
      → nothing_left z ≡ false
      → build serde filters w first second ≡ fill serde filters second z (layout 0 z.sessions)
  unfolding build
  build-fill w first second z sized left =
      ap
        (λ r. and_then r (λ z'.
          if nothing_left z'
          then err (all_excluded z'.filtered)
          else fill serde filters second z' (layout 0 z'.sessions)))
        sized
      ∙ ap
          (λ b.
            if b
            then err (all_excluded z.filtered)
            else fill serde filters second z (layout 0 z.sessions))
          left

  fill-spool_of :
      (es : List Event) (z : Sizing) (l : Layout) (w : Written)
      → write_events serde filters es (l.sessions, replicate l.offset 0) ≡ ok w
      → check_full l.index w.0 ≡ ok tt
      → fill serde filters es z l ≡ ok (spool_of z l w.1)
  fill-spool_of es z l w written checked =
      ap
        (λ r.
          and_then r
            (λ (v : Written). and_then (check_full l.index v.0) (λ full. ok (spool_of z l v.1))))
        written
      ∙ ap (λ r. and_then r (λ full. ok (spool_of z l w.1))) checked

  -- Where JSON can be written for every event, has less than 2^32 bytes for each of these events and
  -- reads them back, both readings of a capture give the same events, and the filters let one through,
  -- a spool is built, and each of its cursors reads the events of its session that the
  -- filters let through, all of them and in the order of the capture, with the sessions in the order
  -- in which they first appear.
  pub build-read_events :
      (w : Bool) (es : List Event)
      → All (IsReadable serde) es
      → collect filters es [] ≢ []
      → (spool : Spool) × (build serde filters w es es ≡ ok spool)
        × (sessions_read serde spool.file spool.sessions ≡ whole (collect filters es []))
  build-read_events w es readable ne =
      let full = collect filters es [] in
      let a =
        size_events-Sized serde filters body total w es no_sizes [] (Sized-nil body) (λ h. refl) in
      let z = a.0 in
      let l = layout 0 z.sessions in
      let laid = layout-Laid body 0 z.sessions full a.2 in
      let total_offset : total_size body full ≡ l.offset = omega (arith, laid.2) in
      let blank =
        subst (λ n. Laid body 0 l.sessions full (blanks full) (replicate n 0)) total_offset
          laid.0 in
      let b =
        write_events-Laid serde filters body total es l.sessions full (blanks full)
          (replicate l.offset 0) blank (collect-blanks filters es) in
      let distinct = Distinct-collect filters es [] Distinct-nil in
      let checked = check_full-Laid body 0 l.index b.0.0 full b.0.1 b.2 laid.1 distinct in
      (
        spool_of z l b.0.1,
        build-fill w es es z a.1 (some_left z full a.3 ne) ∙ fill-spool_of es z l b.0 b.1 checked,
        sessions_read-Laid [] l.index b.0.0 full b.0.1 b.0.1 refl b.2 laid.1
            (collect-readable es [] readable tt),
      )
