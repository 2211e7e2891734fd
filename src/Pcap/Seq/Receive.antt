-- ===== src/Pcap/Seq/Receive.antt =====
-- Segments that arrive in any order, late, twice or overlapping.
use avraham_sql_tools.Base.{
  ℕ, ◌+◌, ◌-◌, ◌%◌, ◌^◌, ◌≤◌, ◌<◌, false, ◌||◌, List, [], ◌∷◌, ◌++◌, ◌≡◌, refl, ◌∙◌, ap, sym, arith,
  inl, inr, ◌==◌, Bool-cases, Bytes, length, append_assoc,
}
use avraham_sql_tools.Pcap.Seq.Rel.{rel_exact}
use avraham_sql_tools.Pcap.Seq.Slices.{Stream, slice, slice_join}
use avraham_sql_tools.Pcap.Seq.{u32_mod, Chunk, SeqStream, Outcome, on_syn, on_data}
use avraham_sql_tools.Pcap.Seq.Delivers.{bytes_of, IsPart, IsWell, Delivers, Delivers-nothing}
use avraham_sql_tools.Pcap.Seq.Place.{start_begun, place-Delivers, place-advances}

module _ (s : Stream) where
  -- A segment on the wire: its payload is the stream's at `offset`, and its sequence number is that
  -- of the offset, which is within 2 ^ 31 bytes of the next expected one.
  pub record Genuine (st : SeqStream) (seq : ℕ) (payload : Bytes) : Type 0 where
    pub offset : ℕ
    pub numbered : seq ≡ (st.isn + offset) % u32_mod
    pub part : IsPart s offset payload
    pub ahead : offset < st.next_rel + 2 ^ 31
    pub behind : st.next_rel < offset + 2 ^ 31

  -- On a well-formed stream a genuine segment, early, late or repeated, makes `on_data` deliver
  -- exactly the bytes of the stream between the old next expected byte and the new one, and keeps the
  -- stream well-formed: the buffered bytes are the stream's, they are counted right, are no more than
  -- the limit and all lie ahead.
  pub on_data-Delivers :
      (st : SeqStream) (ts seq : ℕ) (payload : Bytes)
      → IsWell s st
      → Genuine st seq payload
      → Delivers s st.isn st.next_rel (on_data st ts seq payload)
  unfolding on_data
  on_data-Delivers st ts seq payload w g = elim (Bool-cases (length payload == 0 || st.overflow)) [
    | inl skip ↦ rw skip (Delivers-nothing s st w)
    | inr take ↦
        rw
          (
            take,
            start_begun st seq w.begun,
            g.numbered,
            rel_exact st g.offset w.isn_fits w.next_fits (omega (arith, g.part)) g.ahead g.behind,
          )
          (place-Delivers s st ts g.offset payload w g.part)
  ]

-- A captured segment: the timestamp, the sequence number and the payload.
pub record Arrival : Type 0 where
  pub ts : ℕ
  pub seq : ℕ
  pub payload : Bytes

-- `on_data` for each segment in turn, with all that is delivered.
unfoldable pub receive : SeqStream → List Arrival → Outcome
receive st [] = (st, [])
receive st (p ∷ ps) =
    let o = on_data st p.ts p.seq p.payload in let rest = receive o.0 ps in (rest.0, o.1 ++ rest.1)

-- Each segment is genuine when it arrives.
abbrev pub AllGenuine : Stream → SeqStream → List Arrival → Type 0
AllGenuine s st [] = Unit
AllGenuine s st (p ∷ ps) =
    Genuine s st p.seq p.payload × AllGenuine s (on_data st p.ts p.seq p.payload).0 ps

bytes_of-append : (a b : List Chunk) → bytes_of (a ++ b) ≡ bytes_of a ++ bytes_of b
bytes_of-append [] b = refl
bytes_of-append (c ∷ a) b =
    ap (◌++◌ c.1) (bytes_of-append a b) ∙ sym (append_assoc c.1 (bytes_of a) (bytes_of b))

pub receive-Delivers :
    (s : Stream) (st : SeqStream) (ps : List Arrival)
    → IsWell s st
    → AllGenuine s st ps
    → Delivers s st.isn st.next_rel (receive st ps)
unfolding receive
receive-Delivers s st [] w _ = Delivers-nothing s st w
receive-Delivers s st (p ∷ ps) w (g, gs) =
    let o = on_data st p.ts p.seq p.payload in
    let d = on_data-Delivers s st p.ts p.seq p.payload w g in
    let e = receive-Delivers s o.0 ps d.well gs in
    record {
      well = e.well;
      same_isn = e.same_isn ∙ d.same_isn;
      forward = omega (arith, d.forward, e.forward);
      exact =
          bytes_of-append o.1 (receive o.0 ps).1
          ∙ ap (λ x. x ++ bytes_of (receive o.0 ps).1) d.exact
          ∙ ap (λ x. slice s st.next_rel (o.0.next_rel - st.next_rel) ++ x) e.exact
          ∙ slice_join s st.next_rel o.0.next_rel (receive o.0 ps).0.next_rel d.forward e.forward;
    }

pub on_syn-IsWell : (s : Stream) (st : SeqStream) (seq : ℕ) → IsWell s (on_syn st seq)
unfolding on_syn
on_syn-IsWell s st seq = record {
  isn_fits = omega arith;
  begun = refl;
  next_fits = omega arith;
  parts = tt;
  sorted = tt;
  counted = refl;
  bounded = omega arith;
}

-- After a SYN, whatever segments of the stream arrive, in whatever order, with repeats, overlaps and
-- wraparound, each within 2 ^ 31 bytes of the next expected one, the bytes delivered are those of the
-- stream from its start, as many as the next expected offset says.
pub receive_prefix :
    (s : Stream) (st : SeqStream) (seq : ℕ) (ps : List Arrival)
    → AllGenuine s (on_syn st seq) ps
    → bytes_of (receive (on_syn st seq) ps).1 ≡ slice s 0 (receive (on_syn st seq) ps).0.next_rel
receive_prefix s st seq ps g =
    let d = receive-Delivers s (on_syn st seq) ps (on_syn-IsWell s st seq) g in
    unfold on_syn in (d.exact ∙ ap (slice s 0) (omega arith))

-- A genuine segment that starts at or before the next expected byte is delivered at once, to its end
-- at least, if the stream is well-formed and has not overflowed.
pub on_data-advances :
    (s : Stream) (st : SeqStream) (ts seq : ℕ) (payload : Bytes)
    → IsWell s st
    → (g : Genuine s st seq payload) → st.overflow ≡ false
    → g.offset ≤ st.next_rel
    → g.offset + length payload ≤ (on_data st ts seq payload).0.next_rel
unfolding on_data
on_data-advances s st ts seq payload w g h k = elim (Bool-cases (length payload == 0)) [
  | inl empty ↦ rw empty (ground arith)
  | inr full ↦
      let taken : (length payload == 0 || st.overflow) ≡ false = ground arith in
      rw
        (
          taken,
          start_begun st seq w.begun,
          g.numbered,
          rel_exact st g.offset w.isn_fits w.next_fits (omega (arith, g.part)) g.ahead g.behind,
        )
        (place-advances s st ts g.offset payload w g.part k)
]
