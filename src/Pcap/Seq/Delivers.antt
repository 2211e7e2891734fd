-- ===== src/Pcap/Seq/Delivers.antt =====
-- What the reassembler delivers is the stream that was sent, in order and without gap or repeat.
use avraham_sql_tools.Base.{
  ℕ, ◌+◌, ◌-◌, ◌%◌, ◌^◌, ◌≤◌, ◌<◌, true, List, [], ◌∷◌, ◌++◌, ◌≡◌, refl, ◌∙◌, ap, sym, arith, inl,
  inr, ltb, leb, Bool-cases, ltb→lt, Bytes, length, drop, All,
}
use avraham_sql_tools.Pcap.Seq.Slices.{Stream, slice, drop-slice, slice-nil, slice_join}
use avraham_sql_tools.Pcap.Seq.{
  u32_mod, u64_mod, max_pending_bytes, Chunk, Segment, SeqStream, Outcome, after_chunk, drain_from,
}

-- All the bytes delivered, one after the other.
abbrev pub bytes_of : List Chunk → Bytes
bytes_of [] = []
bytes_of (c ∷ out) = c.1 ++ bytes_of out

abbrev pub total : List Segment → ℕ
total [] = 0
total (g ∷ m) = length g.1.1 + total m

-- Ascending offsets, all above `b`.
abbrev pub Above : ℕ → List Segment → Type 0
Above b [] = Unit
Above b (g ∷ m) = (b < g.0) × Above g.0 m

-- The bytes are those of the stream at the offset.
abbrev pub IsPart : Stream → ℕ → Bytes → Type 0
IsPart s r bytes = (bytes ≡ slice s r (length bytes)) × (r + length bytes < 2 ^ 63)

abbrev pub Parts : Stream → List Segment → Type 0
Parts s = All (λ g. IsPart s g.0 g.1.1)

pub record IsWell (s : Stream) (st : SeqStream) : Type 0 where
  pub isn_fits : st.isn < u32_mod
  pub begun : st.started ≡ true
  pub next_fits : st.next_rel < 2 ^ 63
  pub parts : Parts s st.pending
  pub sorted : Above st.next_rel st.pending
  pub counted : st.pending_bytes ≡ total st.pending
  pub bounded : st.pending_bytes ≤ max_pending_bytes

-- From offset `a` on, the stream has been delivered up to where the state now stands.
pub record Delivers (s : Stream) (isn a : ℕ) (o : Outcome) : Type 0 where
  pub well : IsWell s o.0
  pub same_isn : o.0.isn ≡ isn
  pub forward : a ≤ o.0.next_rel
  pub exact : bytes_of o.1 ≡ slice s a (o.0.next_rel - a)

module _ (s : Stream) where
  pub Delivers-nothing : (st : SeqStream) → IsWell s st → Delivers s st.isn st.next_rel (st, [])
  Delivers-nothing st w = record {
    well = w;
    same_isn = refl;
    forward = omega arith;
    exact = sym (slice-nil s st.next_rel (st.next_rel - st.next_rel) (omega arith));
  }

  -- The part of a segment that lies behind the next expected byte.
  pub fresh :
      (next r : ℕ) (bytes : Bytes)
      → IsPart s r bytes
      → r ≤ next
      → next ≤ r + length bytes
      → drop (next - r) bytes ≡ slice s next (r + length bytes - next)
  fresh next r bytes (e, _) h k =
      let at_next : r + (next - r) ≡ next = omega arith in
      let left : length bytes - (next - r) ≡ r + length bytes - next = omega arith in
      ap (drop (next - r)) e
      ∙ drop-slice s (next - r) r (length bytes) (omega arith)
      ∙ rw (at_next, left) refl

  pub Delivers-after_chunk :
      (isn a ts b : ℕ) (bytes : Bytes) (o : Outcome)
      → a ≤ b
      → bytes ≡ slice s a (b - a)
      → Delivers s isn b o
      → Delivers s isn a (after_chunk (ts, bytes) o)
  Delivers-after_chunk isn a ts b bytes (st, out) h e d = record {
    well = d.well;
    same_isn = d.same_isn;
    forward = omega (arith, d.forward);
    exact =
        ap (λ x. x ++ bytes_of out) e
        ∙ ap (λ x. slice s a (b - a) ++ x) d.exact
        ∙ slice_join s a b st.next_rel h d.forward;
  }

  pub drain_from-Delivers :
      (m : List Segment) (st : SeqStream) (lo : ℕ)
      → st.isn < u32_mod
      → st.started ≡ true
      → st.next_rel < 2 ^ 63
      → Parts s m
      → Above lo m
      → st.pending_bytes ≡ total m
      → st.pending_bytes ≤ max_pending_bytes
      → Delivers s st.isn st.next_rel (drain_from m st)
  unfolding drain_from
  drain_from-Delivers [] st lo hi hb hn hp ha hc hm =
      Delivers-nothing (record st { pending = [] })
        (record {
          isn_fits = hi;
          begun = hb;
          next_fits = hn;
          parts = tt;
          sorted = tt;
          counted = hc;
          bounded = hm;
        })
  drain_from-Delivers ((r, (ts, bytes)) ∷ m) st lo hi hb hn (hp, hps) (ha, has) hc hm =
      let end : (r + length bytes) % u64_mod ≡ r + length bytes = omega arith in
      elim (Bool-cases (ltb st.next_rel r)) [
        | inl gap ↦ rw gap (
            Delivers-nothing (record st { pending = (r, (ts, bytes)) ∷ m })
              (record {
                isn_fits = hi;
                begun = hb;
                next_fits = hn;
                parts = (hp, hps);
                sorted = (ltb→lt st.next_rel r gap, has);
                counted = hc;
                bounded = hm;
              }))
        | inr met ↦
            rw (met, end)
              (elim (Bool-cases (leb (r + length bytes) st.next_rel)) [
                | inl old ↦ rw old (
                    drain_from-Delivers m
                      (record st { pending_bytes = st.pending_bytes - length bytes }) r hi hb hn hps
                      has (omega arith) (omega arith))
                | inr beyond ↦
                    let h : r ≤ st.next_rel = ground arith in
                    let k : st.next_rel ≤ r + length bytes = ground arith in
                    rw beyond (
                      Delivers-after_chunk st.isn st.next_rel ts (r + length bytes)
                        (drop (st.next_rel - r) bytes)
                        (drain_from m (record st {
                          pending_bytes = st.pending_bytes - length bytes;
                          next_rel = r + length bytes;
                        }))
                        k (fresh st.next_rel r bytes hp h k)
                        (drain_from-Delivers m
                          (record st {
                            pending_bytes = st.pending_bytes - length bytes;
                            next_rel = r + length bytes;
                          })
                          r hi hb hp.1 hps has (omega arith) (omega arith)))
              ])
      ]
