-- ===== src/Pcap/Seq/Place.antt =====
-- One segment at its offset: buffered, dropped, or delivered with what it makes whole.
use avraham_sql_tools.Base.{
  ℕ, ◌+◌, ◌-◌, ◌%◌, ◌≤◌, ◌<◌, true, false, List, [], ◌∷◌, ◌≡◌, refl, arith, inl, inr, ◌==◌, ltb,
  leb, Bool-cases, leb→le, le→leb, Bytes, length, drop,
}
use avraham_sql_tools.Pcap.Seq.Slices.{Stream}
use avraham_sql_tools.Pcap.Seq.{
  u64_mod, max_pending_bytes, Chunk, Segment, SeqStream, new, insert_vacant, contains, drain_from,
  drain, place, start,
}
use avraham_sql_tools.Pcap.Seq.Delivers.{
  total, Above, IsPart, Parts, IsWell, Delivers, Delivers-nothing, fresh, Delivers-after_chunk,
  drain_from-Delivers,
}

insert_vacant-total :
    (r : ℕ) (v : Chunk) (m : List Segment)
    → contains r m ≡ false
    → total (insert_vacant r v m) ≡ total m + length v.1
unfolding insert_vacant contains
insert_vacant-total r v [] h = omega arith
insert_vacant-total r v ((k, w) ∷ m) h = ground (arith, insert_vacant-total r v m)

insert_vacant-Above :
    (lo r : ℕ) (v : Chunk) (m : List Segment) → lo < r → Above lo m → Above lo (insert_vacant r v m)
unfolding insert_vacant
insert_vacant-Above lo r v [] h a = (h, tt)
insert_vacant-Above lo r v ((k, w) ∷ m) h (a, rest) = ground (arith, insert_vacant-Above k r v m)

insert_vacant-Parts :
    (s : Stream) (r : ℕ) (v : Chunk) (m : List Segment)
    → IsPart s r v.1
    → Parts s m
    → Parts s (insert_vacant r v m)
unfolding insert_vacant
insert_vacant-Parts s r v [] h p = (h, tt)
insert_vacant-Parts s r v ((k, w) ∷ m) h (p, ps) = elim (Bool-cases (ltb r k)) [
  | inl before ↦ rw before (h, (p, ps))
  | inr behind ↦ rw behind (elim (Bool-cases (r == k)) [
    | inl same ↦ rw same (p, ps)
    | inr other ↦ rw other (p, insert_vacant-Parts s r v m h ps)
  ])
]

pub start_begun : (st : SeqStream) (seq : ℕ) → st.started ≡ true → start st seq ≡ st
unfolding start
start_begun st seq h = ground arith

module _ (s : Stream) where
  pub place-Delivers :
      (st : SeqStream) (ts r : ℕ) (payload : Bytes)
      → IsWell s st
      → IsPart s r payload
      → Delivers s st.isn st.next_rel (place st ts r payload)
  unfolding place drain
  place-Delivers st ts r payload w p =
      let end : (r + length payload) % u64_mod ≡ r + length payload = omega arith in
      rw end (elim (Bool-cases (leb (r + length payload) st.next_rel)) [
        | inl old ↦ rw old (Delivers-nothing s st w)
        | inr new ↦ rw new (elim (Bool-cases (leb r st.next_rel)) [
          | inl met ↦
              let k : st.next_rel ≤ r + length payload = ground arith in
              let h : r ≤ st.next_rel = leb→le _ _ met in
              rw met (
                Delivers-after_chunk s st.isn st.next_rel ts (r + length payload)
                  (drop (st.next_rel - r) payload)
                  (drain_from st.pending (record st { next_rel = r + length payload })) k
                  (fresh s st.next_rel r payload p h k)
                  (drain_from-Delivers s st.pending (record st { next_rel = r + length payload })
                    st.next_rel w.isn_fits w.begun p.1 w.parts w.sorted w.counted w.bounded))
          | inr gap ↦
              rw gap
                (elim (Bool-cases (ltb max_pending_bytes (st.pending_bytes + length payload))) [
                  | inl full ↦ rw full (
                      Delivers-nothing s
                        (record st { overflow = true; pending = []; pending_bytes = 0 })
                        (record {
                          isn_fits = w.isn_fits;
                          begun = w.begun;
                          next_fits = w.next_fits;
                          parts = tt;
                          sorted = tt;
                          counted = refl;
                          bounded = omega arith;
                        }))
                  | inr room ↦ rw room (elim (Bool-cases (contains r st.pending)) [
                    | inl there ↦ rw there (Delivers-nothing s st w)
                    | inr vacant ↦ rw vacant (
                        Delivers-nothing s
                          (record st {
                            pending_bytes = st.pending_bytes + length payload;
                            pending = insert_vacant r (ts, payload) st.pending;
                          })
                          (record {
                            isn_fits = w.isn_fits;
                            begun = w.begun;
                            next_fits = w.next_fits;
                            parts = insert_vacant-Parts s r (ts, payload) st.pending p w.parts;
                            sorted =
                                insert_vacant-Above st.next_rel r (ts, payload) st.pending
                                  (ground arith) w.sorted;
                            counted = omega (
                              arith,
                              w.counted,
                              insert_vacant-total r (ts, payload) st.pending vacant,
                            );
                            bounded = ground arith;
                          }))
                  ])
                ])
        ])
      ])

pub place-advances :
    (s : Stream) (st : SeqStream) (ts r : ℕ) (payload : Bytes)
    → IsWell s st
    → IsPart s r payload
    → r ≤ st.next_rel
    → r + length payload ≤ (place st ts r payload).0.next_rel
unfolding place drain
place-advances s st ts r payload w p h =
    let end : (r + length payload) % u64_mod ≡ r + length payload = omega arith in
    let d =
      drain_from-Delivers s st.pending (record st { next_rel = r + length payload }) st.next_rel
        w.isn_fits w.begun p.1 w.parts w.sorted w.counted w.bounded in
    rw (end, le→leb r st.next_rel h)
      (elim (Bool-cases (leb (r + length payload) st.next_rel)) [
        | inl old ↦ rw old (leb→le _ _ old)
        | inr new ↦ rw new d.forward
      ])
