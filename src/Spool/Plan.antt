-- ===== src/Spool/Plan.antt =====
-- Pass A of `Spool::build`, and the layout that follows it.
use avraham_sql_tools.Base.{
  ℕ, zero, suc, ◌+◌, Bool, true, false, some, List, [], ◌∷◌, ◌++◌, append_assoc, ◌≡◌, refl, sym, ap,
  ◌∙◌, arith, ◌==◌, inl, inr, Bool-cases, Bytes, length, length-append, replicate, length-replicate,
}
use avraham_sql_tools.Classify.Gate.{should_execute}
use avraham_sql_tools.Spool.Build.{
  ok, and_then, SpoolSession, SessionBuild, Sizing, add_record, include, size_event, size_events,
  layout,
}
use avraham_sql_tools.Spool.Cursor.{Serde, record_of, record_size}
use avraham_sql_tools.Spool.Groups.{
  Group, add_event, collect, collect_matching, collect_filtered, blanks,
}
use avraham_sql_tools.Spool.{Event, Filters, matches}
use avraham_sql_tools.Wire.Reader.Encode.{to_le, length-to_le}

module _ (body : Event → Bytes) where
  -- The records of events, one behind the other.
  unfoldable pub recs : List Event → Bytes
  recs [] = []
  recs (e ∷ es) = record_of (body e) ++ recs es

  pub recs-append : (es fs : List Event) → recs (es ++ fs) ≡ recs es ++ recs fs
  unfolding recs
  recs-append [] fs = refl
  recs-append (e ∷ es) fs =
      ap (◌++◌ (record_of (body e))) (recs-append es fs)
      ∙ sym (append_assoc (record_of (body e)) (recs es) (recs fs))

  pub length-record_of : (e : Event) → length (record_of (body e)) ≡ 4 + length (body e)
  length-record_of e =
      length-append (to_le 4 (length (body e))) (body e)
      ∙ ap (λ n. n + length (body e)) (length-to_le 4 (length (body e)))

  pub length-recs :
      (es : List Event) (e : Event)
      → length (recs (es ++ e ∷ [])) ≡ length (recs es) + length (record_of (body e))
  unfolding recs
  length-recs es e =
      let r = ap length (recs-append es (e ∷ [])) in
      let s = length-append (recs es) (recs (e ∷ [])) in
      let t = length-append (record_of (body e)) [] in omega (arith, r, s, t)

  -- The sessions have the sizes of the groups.
  unfoldable pub Sized : List SessionBuild → List Group → Type 0
  Sized [] [] = Unit
  Sized (s ∷ ss) (g ∷ gs) =
      (s.session_id ≡ g.0)
      × (s.bytes ≡ length (recs g.1))
      × (s.event_count ≡ length g.1)
      × Sized ss gs
  Sized _ _ = ⊥

  pub Sized-nil : Sized [] []
  unfolding Sized
  Sized-nil = tt

  pub add_record-Sized :
      (e : Event) (x : Bool) (ss : List SessionBuild) (gs : List Group)
      → Sized ss gs
      → Sized (add_record e.session_id (4 + length (body e)) x ss) (add_event e gs)
  unfolding Sized add_record add_event recs
  add_record-Sized e x [] [] w =
      let r = length-append (record_of (body e)) [] in
      let s = length-record_of e in (refl, omega (arith, r, s), refl, tt)
  add_record-Sized e x [] (g ∷ gs) w = elim w [ ]
  add_record-Sized e x (s ∷ ss) [] w = elim w [ ]
  add_record-Sized e x (s ∷ ss) (g ∷ gs) (i, b, n, w) = elim (Bool-cases (g.0 == e.session_id)) [
    | inl same ↦
        let same_s : s.session_id == e.session_id ≡ true = ap (λ k. k == e.session_id) i ∙ same in
        let r = length-recs g.1 e in
        let t = length-record_of e in
        let l = length-append g.1 (e ∷ []) in
        rw (same_s, same) (i, omega (arith, b, r, t), omega (arith, n, l), w)
    | inr other ↦
        let other_s : s.session_id == e.session_id ≡ false =
          ap (λ k. k == e.session_id) i ∙ other in
        rw (other_s, other) (i, b, n, add_record-Sized e x ss gs w)
  ]

-- Where no event is included, there is no group.
abbrev pub IsCounted : Sizing → List Group → Type 0
IsCounted z gs = z.included ≡ 0 → gs ≡ []

module _ (serde : Serde) (filters : Filters) (body : Event → Bytes)
    (total : (e : Event) → serde.to_vec e ≡ some (body e)) where
  size_event-include :
      (w : Bool) (e : Event) (z : Sizing)
      → matches filters e ≡ true
      → size_event serde filters w e z ≡ ok (include w e (4 + length (body e)) z)
  unfolding size_event record_size
  size_event-include w e z m = rw (m, total e) refl

  size_event-filtered :
      (w : Bool) (e : Event) (z : Sizing)
      → matches filters e ≡ false
      → size_event serde filters w e z ≡ ok (record z { filtered = z.filtered + 1 })
  unfolding size_event
  size_event-filtered w e z m = rw m refl

  size_events-size_event :
      (w : Bool) (e : Event) (es : List Event) (z z1 : Sizing)
      → size_event serde filters w e z ≡ ok z1
      → size_events serde filters w (e ∷ es) z ≡ size_events serde filters w es z1
  unfolding size_events
  size_events-size_event w e es z z1 h = ap (λ r. and_then r (size_events serde filters w es)) h

  -- Pass A succeeds, and its sessions have the sizes of the groups.
  pub size_events-Sized :
      (w : Bool) (es : List Event) (z : Sizing) (gs : List Group)
      → Sized body z.sessions gs
      → IsCounted z gs
      → (z' : Sizing) × (size_events serde filters w es z ≡ ok z')
        × Sized body z'.sessions (collect filters es gs)
        × IsCounted z' (collect filters es gs)
  size_events-Sized w [] z gs sized counted =
      (z, unfold size_events in refl, unfold collect in sized, unfold collect in counted)
  size_events-Sized w (e ∷ es) z gs sized counted = elim (Bool-cases (matches filters e)) [
    | inl m ↦
        let z1 = include w e (4 + length (body e)) z in
        let more =
          size_events-Sized w es z1 (add_event e gs)
            (add_record-Sized body e (should_execute e.query w) z.sessions gs sized)
            (λ h. absurd (omega (arith, h))) in
        rw (collect_matching filters e es gs m) (
          more.0,
          size_events-size_event w e es z z1 (size_event-include w e z m) ∙ more.1,
          more.2,
          more.3,
        )
    | inr m ↦
        let z1 = record z { filtered = z.filtered + 1 } in
        let more = size_events-Sized w es z1 gs sized counted in
        rw (collect_filtered filters e es gs m) (
          more.0,
          size_events-size_event w e es z z1 (size_event-filtered w e z m) ∙ more.1,
          more.2,
          more.3,
        )
  ]

replicate_add : (a b x : ℕ) → replicate (a + b) x ≡ replicate a x ++ replicate b x
replicate_add zero b x = let e : 0 + b ≡ b = omega arith in ap (λ n. replicate n x) e
replicate_add (suc a) b x =
    let e : suc a + b ≡ suc (a + b) = omega arith in
    ap (λ n. replicate n x) e ∙ ap (◌∷◌ x) (replicate_add a b x)

module _ (body : Event → Bytes) where
  -- A file in which each group has its region, behind `offset`: the records of the events written so
  -- far, and room for those to come.
  unfoldable pub Laid : ℕ → List SessionBuild → List Group → List Group → Bytes → Type 0
  Laid offset [] [] [] file = file ≡ []
  Laid offset (s ∷ ss) (a ∷ full) (d ∷ ds) file =
      (s.session_id ≡ a.0)
      × (d.0 ≡ a.0)
      × (s.write_pos ≡ offset + length (recs body d.1))
      × (room : Bytes) × (rest : Bytes) × (file ≡ recs body d.1 ++ (room ++ rest))
      × (length (recs body d.1) + length room ≡ length (recs body a.1))
      × Laid (offset + length (recs body a.1)) ss full ds rest
  Laid _ _ _ _ _ = ⊥

  -- The index has the regions of the groups.
  unfoldable pub Indexed : ℕ → List SpoolSession → List Group → Type 0
  Indexed offset [] [] = Unit
  Indexed offset (p ∷ index) (a ∷ full) =
      (p.session_id ≡ a.0)
      × (p.start ≡ offset)
      × (p.end ≡ offset + length (recs body a.1))
      × (p.event_count ≡ length a.1)
      × Indexed (offset + length (recs body a.1)) index full
  Indexed _ _ _ = ⊥

  unfoldable pub total_size : List Group → ℕ
  total_size [] = 0
  total_size (a ∷ full) = length (recs body a.1) + total_size full

  pub layout-Laid :
      (offset : ℕ) (ss : List SessionBuild) (full : List Group)
      → Sized body ss full
      → Laid offset (layout offset ss).sessions full (blanks full) (replicate (total_size full) 0)
        × Indexed offset (layout offset ss).index full
        × ((layout offset ss).offset ≡ offset + total_size full)
  unfolding Sized Laid Indexed layout total_size recs
  layout-Laid offset [] [] w = (refl, tt, omega arith)
  layout-Laid offset [] (a ∷ full) w = elim w [ ]
  layout-Laid offset (s ∷ ss) [] w = elim w [ ]
  layout-Laid offset (s ∷ ss) (a ∷ full) (i, b, n, w) =
      let size = length (recs body a.1) in
      let more = layout-Laid (offset + size) ss full w in
      let room : length (replicate {A = ℕ} size 0) ≡ size = length-replicate {A = ℕ} size 0 in
      let moved : layout (offset + s.bytes) ss ≡ layout (offset + size) ss =
        ap (λ k. layout (offset + k) ss) b in
      rw moved (
        (
          i,
          refl,
          omega arith,
          replicate size 0,
          replicate (total_size full) 0,
          replicate_add size (total_size full) 0,
          omega (arith, room),
          more.0,
        ),
        (i, refl, ap (◌+◌ offset) b, n, more.1),
        omega (arith, more.2),
      )
