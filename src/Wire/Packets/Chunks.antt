-- ===== src/Wire/Packets/Chunks.antt =====
-- `PacketAssembler` refines the specification: however the stream is cut into chunks, it yields the
-- packets of the whole stream.
use avraham_sql_tools.Base.{
  ℕ, suc, ◌+◌, ◌≤◌, false, List, [], ◌∷◌, ◌++◌, ◌≡◌, refl, ◌∙◌, ap, sym, arith, Bytes, length,
  map-append_lem, length-append,
}
use avraham_sql_tools.Wire.Packets.Marks.{Stamps, Ascends, AtMost, stamp, Stamps-append}
use avraham_sql_tools.Wire.Packets.Stream.{Stamped, byte, bytes, length-bytes}
use avraham_sql_tools.Wire.Packets.{PacketAssembler, Mark, received}

-- The assembler has read `s` without a fault, apart from the packets that it has given out.
pub record Holds (st : PacketAssembler) (s : List Stamped) : Type 0 where
  pub buffered : st.buf ≡ bytes s
  pub stamps : Stamps st.marks st.consumed s
  pub ascends : Ascends 0 st.marks
  pub at_most : AtMost (st.consumed + length s) st.marks
  pub whole : st.broken ≡ false

AtMost-mono : (e e' : ℕ) (marks : List Mark) → e ≤ e' → AtMost e marks → AtMost e' marks
AtMost-mono e e' [] h a = tt
AtMost-mono e e' (m ∷ ms) h (a, as') = (omega arith, AtMost-mono e e' ms h as')

AtMost-append : (e t : ℕ) (marks : List Mark) → AtMost e marks → AtMost e (marks ++ (e, t) ∷ [])
AtMost-append e t [] a = (omega arith, tt)
AtMost-append e t (m ∷ ms) (a, as') = (a, AtMost-append e t ms as')

Ascends-append :
    (lo e t : ℕ) (marks : List Mark)
    → lo ≤ e
    → AtMost e marks
    → Ascends lo marks
    → Ascends lo (marks ++ (e, t) ∷ [])
Ascends-append lo e t [] h a c = (h, tt)
Ascends-append lo e t (m ∷ ms) h (a, as') (c, cs) = (c, Ascends-append m.0 e t ms a as' cs)

length-stamp : (t : ℕ) (b : Bytes) → length (stamp t b) ≡ length b
length-stamp t [] = refl
length-stamp t (c ∷ b) = ap suc (length-stamp t b)

bytes-stamp : (t : ℕ) (b : Bytes) → bytes (stamp t b) ≡ b
bytes-stamp t [] = refl
bytes-stamp t (c ∷ b) = ap (◌∷◌ c) (bytes-stamp t b)

-- The buffer, the marks and the partial payload after a chunk, as `feed` sees them in its loop.
pub received-Holds :
    (st : PacketAssembler) (s : List Stamped) (t : ℕ) (b : Bytes)
    → Holds st s
    → Holds (received st t b) (s ++ stamp t b)
received-Holds st s t b h =
    let e = st.consumed + length st.buf in
    let same : length st.buf ≡ length s = ap length h.buffered ∙ length-bytes s in
    let low : AtMost e st.marks = rw same h.at_most in
    record {
      buffered =
          ap (λ x. x ++ b) h.buffered
          ∙ ap (◌++◌ (bytes s)) (sym (bytes-stamp t b))
          ∙ sym (map-append_lem byte s (stamp t b));
      stamps = Stamps-append st.marks e t st.consumed s b low (omega arith) h.stamps;
      ascends = Ascends-append 0 e t st.marks (omega arith) low h.ascends;
      at_most =
          AtMost-mono e (st.consumed + length (s ++ stamp t b)) (st.marks ++ (e, t) ∷ [])
            (omega (arith, length-append s (stamp t b))) (AtMost-append e t st.marks low);
      whole = h.whole;
    }
