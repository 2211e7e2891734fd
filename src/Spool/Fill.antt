-- ===== src/Spool/Fill.antt =====
-- Pass B of `Spool::build`: each record goes to the place that pass A has left for it.
use avraham_sql_tools.Base.{
  ◌+◌, true, false, some, List, [], ◌∷◌, ◌++◌, append_assoc, append-nil, ◌≡◌, refl, sym, ap, ◌∙◌,
  arith, ◌==◌, inl, inr, Bool-cases, Bytes, length, length-append, take, drop, take_prefix,
  drop_prefix, length-take, take-append-drop,
}
use avraham_sql_tools.Spool.Build.{
  ok, and_then, SessionBuild, session_at, advance, Written, write_record, write_event, write_events,
}
use avraham_sql_tools.Spool.Cursor.{Serde, record_of, encode_record, write_at}
use avraham_sql_tools.Spool.Groups.{
  Group, add_event, Extends, collect, collect_matching, collect_filtered, Extends-collect,
}
use avraham_sql_tools.Spool.Plan.{recs, recs-append, length-recs, Laid}
use avraham_sql_tools.Spool.{Event, Filters, matches}
use mathlib.Core.Path.{subst}

write_at-middle :
    (p m q r : Bytes) → length m ≡ length r → write_at (length p) r (p ++ (m ++ q)) ≡ p ++ (r ++ q)
unfolding write_at
write_at-middle p m q r h =
    let front : take (length p) (p ++ (m ++ q)) ≡ p = take_prefix p (m ++ q) in
    let behind : drop (length p + length r) (p ++ (m ++ q)) ≡ q =
      ap (λ n. drop (length p + n) (p ++ (m ++ q))) (sym h)
      ∙ ap (λ n. drop n (p ++ (m ++ q))) (sym (length-append p m))
      ∙ ap (drop (length (p ++ m))) (sym (append_assoc p m q))
      ∙ drop_prefix (p ++ m) q in
    rw (front, behind) refl

module _ (body : Event → Bytes) where
  -- The session of an event, with the file before and behind the record that is written.
  record Placed (before : Bytes) (ss : List SessionBuild) (full ds : List Group) (file : Bytes)
      (e : Event) : Type 0 where
    session : SessionBuild
    found : session_at e.session_id ss ≡ some session
    after : Bytes
    written : write_at session.write_pos (record_of (body e)) (before ++ file) ≡ before ++ after
    laid :
        Laid body
          (length before)
          (advance e.session_id (length (record_of (body e))) ss)
          full
          (add_event e ds)
          after

  -- The head's region takes the record.
  place_head :
      (before : Bytes) (s : SessionBuild) (ss : List SessionBuild) (a d : Group)
      (full ds : List Group) (file : Bytes) (e : Event) (todo : List Event)
      → Laid body (length before) (s ∷ ss) (a ∷ full) (d ∷ ds) file
      → a.1 ≡ (d.1 ++ e ∷ []) ++ todo
      → s.session_id == e.session_id ≡ true
      → d.0 == e.session_id ≡ true
      → Placed before (s ∷ ss) (a ∷ full) (d ∷ ds) file e
  unfolding Laid session_at advance add_event recs
  place_head before s ss a d full ds file e todo (i, j, pos, room, rest, split, fits, w) h same_s
        same_d =
      let r = record_of (body e) in
      let here = recs body d.1 in
      let more : length (recs body a.1) ≡ length here + length r + length (recs body todo) =
        ap (λ l. length (recs body l)) h
        ∙ ap length (recs-append body (d.1 ++ e ∷ []) todo)
        ∙ length-append (recs body (d.1 ++ e ∷ [])) (recs body todo)
        ∙ ap (λ n. n + length (recs body todo)) (length-recs body d.1 e) in
      let taken : length (take (length r) room) ≡ length r =
        length-take (length r) room ∙ omega (arith, fits, more) in
      let m = take (length r) room in
      let q = drop (length r) room in
      let cut : m ++ q ≡ room = take-append-drop (length r) room in
      let left : length m + length q ≡ length room = sym (length-append m q) ∙ ap length cut in
      let grown_recs : recs body (d.1 ++ e ∷ []) ≡ here ++ r =
        recs-append body d.1 (e ∷ []) ∙ ap (◌++◌ here) (append-nil r) in
      let after = recs body (d.1 ++ e ∷ []) ++ (q ++ rest) in
      let size = length-recs body d.1 e in
      let before_here : length (before ++ here) ≡ length before + length here =
        length-append before here in
      let file_cut : before ++ file ≡ (before ++ here) ++ (m ++ (q ++ rest)) =
        ap (◌++◌ before) split
        ∙ ap (λ l. before ++ (here ++ (l ++ rest))) (sym cut)
        ∙ ap (λ l. before ++ (here ++ l)) (append_assoc m q rest)
        ∙ sym (append_assoc before here (m ++ (q ++ rest))) in
      let put : (before ++ here) ++ (r ++ (q ++ rest)) ≡ before ++ after =
        append_assoc before here (r ++ (q ++ rest))
        ∙ ap (◌++◌ before) (sym (append_assoc here r (q ++ rest)))
        ∙ ap (λ l. before ++ (l ++ (q ++ rest))) (sym grown_recs) in
      record {
        session = s;
        found = rw same_s refl;
        after = after;
        written =
            ap (λ n. write_at n r (before ++ file)) (pos ∙ sym before_here)
            ∙ ap (write_at (length (before ++ here)) r) file_cut
            ∙ write_at-middle (before ++ here) m (q ++ rest) r taken
            ∙ put;
        laid =
            rw (same_s, same_d)
              (
                i,
                j,
                omega (arith, pos, size),
                q,
                rest,
                refl,
                omega (arith, size, fits, taken, left),
                w,
              );
      }

  -- The region of the event's session takes the record.
  place :
      (before : Bytes) (ss : List SessionBuild) (full ds : List Group) (file : Bytes) (e : Event)
      → Laid body (length before) ss full ds file
      → Extends (add_event e ds) full
      → Placed before ss full ds file e
  unfolding Laid session_at advance add_event Extends
  place before [] [] [] file e w x = elim x [ ]
  place before [] [] (d ∷ ds) file e w x = elim w [ ]
  place before [] (a ∷ full) ds file e w x = elim w [ ]
  place before (s ∷ ss) [] ds file e w x = elim w [ ]
  place before (s ∷ ss) (a ∷ full) [] file e w x = elim w [ ]
  place before (s ∷ ss) (a ∷ full) (d ∷ ds) file e (i, j, pos, room, rest, split, fits, w) x =
      elim (Bool-cases (d.0 == e.session_id)) [
        | inl same_d ↦
            let same_s : s.session_id == e.session_id ≡ true =
              ap (λ k. k == e.session_id) (i ∙ sym j) ∙ same_d in
            let (k, (todo, h), x') = rw same_d at x in
            place_head before s ss a d full ds file e todo (i, j, pos, room, rest, split, fits, w) h
              same_s same_d
        | inr other_d ↦
            let other_s : s.session_id == e.session_id ≡ false =
              ap (λ k. k == e.session_id) (i ∙ sym j) ∙ other_d in
            let (k, h, x') = rw other_d at x in
            let here = recs body d.1 in
            let before2 = before ++ (here ++ room) in
            let sum : length before2 ≡ length before + length (recs body a.1) =
              length-append before (here ++ room)
              ∙ ap (◌+◌ (length before)) (length-append here room ∙ fits) in
            let w2 : Laid body (length before2) ss full ds rest =
              subst (λ n. Laid body n ss full ds rest) (sym sum) w in
            let p = place before2 ss full ds rest e w2 x' in
            let joined : (l : Bytes) → before ++ (here ++ (room ++ l)) ≡ before2 ++ l = λ l.
              ap (◌++◌ before) (sym (append_assoc here room l))
              ∙ sym (append_assoc before (here ++ room) l) in
            record {
              session = p.session;
              found = rw other_s p.found;
              after = here ++ (room ++ p.after);
              written =
                  ap (write_at p.session.write_pos (record_of (body e)))
                    (ap (◌++◌ before) split ∙ joined rest)
                  ∙ p.written
                  ∙ sym (joined p.after);
              laid =
                  rw (other_s, other_d)
                    (
                      i,
                      j,
                      pos,
                      room,
                      p.after,
                      refl,
                      fits,
                      subst
                          (λ n.
                            Laid body n (advance e.session_id (length (record_of (body e))) ss) full
                              (add_event e ds) p.after)
                          sum p.laid,
                    );
            }
      ]

module _ (serde : Serde) (filters : Filters) (body : Event → Bytes)
    (total : (e : Event) → serde.to_vec e ≡ some (body e)) where
  write_event-ok :
      (e : Event) (ss : List SessionBuild) (file : Bytes) (s : SessionBuild)
      → matches filters e ≡ true
      → session_at e.session_id ss ≡ some s
      → write_event serde filters e (ss, file)
        ≡ ok (write_record e s (record_of (body e)) (ss, file))
  unfolding write_event encode_record
  write_event-ok e ss file s m found = rw (m, found, total e) refl

  write_event-filtered :
      (e : Event) (w : Written) → matches filters e ≡ false → write_event serde filters e w ≡ ok w
  unfolding write_event
  write_event-filtered e w m = rw m refl

  write_events-write_event :
      (e : Event) (es : List Event) (w w1 : Written)
      → write_event serde filters e w ≡ ok w1
      → write_events serde filters (e ∷ es) w ≡ write_events serde filters es w1
  unfolding write_events
  write_events-write_event e es w w1 h = ap (λ r. and_then r (write_events serde filters es)) h

  -- Pass B succeeds, and ends with the records of all groups in their regions.
  pub write_events-Laid :
      (es : List Event) (ss : List SessionBuild) (full ds : List Group) (file : Bytes)
      → Laid body 0 ss full ds file
      → collect filters es ds ≡ full
      → (w : Written) × (write_events serde filters es (ss, file) ≡ ok w)
        × Laid body 0 w.0 full full w.1
  write_events-Laid [] ss full ds file laid h =
      let same : ds ≡ full = unfold collect in h in
      ((ss, file), unfold write_events in refl, subst (λ l. Laid body 0 ss full l file) same laid)
  write_events-Laid (e ∷ es) ss full ds file laid h = elim (Bool-cases (matches filters e)) [
    | inl m ↦
        let h1 = sym (collect_matching filters e es ds m) ∙ h in
        let x = subst (Extends (add_event e ds)) h1 (Extends-collect filters es (add_event e ds)) in
        let p = place body [] ss full ds file e laid x in
        let ss1 = advance e.session_id (length (record_of (body e))) ss in
        let more = write_events-Laid es ss1 full (add_event e ds) p.after p.laid h1 in
        (
          more.0,
          write_events-write_event e es (ss, file) (ss1, p.after)
                (write_event-ok e ss file p.session m p.found ∙ ap (λ f. ok (ss1, f)) p.written)
              ∙ more.1,
          more.2,
        )
    | inr m ↦
        let h1 = sym (collect_filtered filters e es ds m) ∙ h in
        let more = write_events-Laid es ss full ds file laid h1 in
        (
          more.0,
          write_events-write_event e es (ss, file) (ss, file) (write_event-filtered e (ss, file) m)
              ∙ more.1,
          more.2,
        )
  ]
