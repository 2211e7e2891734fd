-- ===== src/Wire/Packets/Feeds.antt =====
-- `PacketAssembler` refines the specification: however the stream is cut into chunks, it yields the
-- packets of the whole stream.
use avraham_sql_tools.Base.{
  ℕ, ◌+◌, ◌<◌, true, false, ◌||◌, List, [], ◌∷◌, ◌++◌, Option, none, ◌≡◌, refl, ◌∙◌, ap, sym, arith,
  inl, inr, ◌==◌, ltb, if◌then◌else◌, Bool-cases, Bytes, length, All, All-append, append_assoc,
  append-nil,
}
use avraham_sql_tools.Wire.Packets.Append.{prepend, extend, scan-append}
use avraham_sql_tools.Wire.Packets.Chunks.{Holds, received-Holds}
use avraham_sql_tools.Wire.Packets.Marks.{
  stamp, Stamps-drop_marks, drop_marks-Ascends, drop_marks-AtMost, Agrees, feed_loop-Agrees,
}
use avraham_sql_tools.Wire.Packets.Residue.{AreBytes, IsSmall, scan_in-IsSmall}
use avraham_sql_tools.Wire.Packets.Stream.{Stamped, Cut, scan_in, scan, length-bytes}
use avraham_sql_tools.Wire.Packets.{
  max_logical_packet, LogicalPacket, Partial, PacketAssembler, new, Loop, settle, received,
  run_loop, drop_marks, feed,
}

-- The assembler and the packets that it has given out, against what the specification says.
pub record Tracks (st : PacketAssembler) (out : List LogicalPacket) (c : Cut) : Type 0 where
  pub given : out ≡ c.packets
  pub same_fault : st.broken ≡ c.fault
  pub small : AreBytes c.rest
  pub holds : c.fault ≡ false → Holds st c.rest
  pub in_progress : c.fault ≡ false → st.partial ≡ c.partial

-- The loop over the buffer agrees with the search of what was left over and the new chunk.
loop-Agrees :
    (st : PacketAssembler) (s : List Stamped)
    → Holds st s
    → Agrees st.marks (st.consumed + length s) (run_loop st) (scan st.partial s)
unfolding scan
loop-Agrees st s h =
    let size : length st.buf ≡ length s = ap length h.buffered ∙ length-bytes s in
    rw size (rw h.buffered (feed_loop-Agrees (length s) st.marks s st.consumed st.partial h.stamps))

abbrev faulted : PacketAssembler → Loop → PacketAssembler × List LogicalPacket
faulted st l = (record st { partial = none; broken = true }, l.packets)

abbrev settled : PacketAssembler → Loop → PacketAssembler × List LogicalPacket
settled st l = (
  record {
    buf = l.rest;
    marks = drop_marks l.offset st.marks;
    consumed = l.offset;
    partial = l.partial;
    broken = ltb max_logical_packet (length l.rest);
  },
  l.packets,
)

settle_lem :
    (st : PacketAssembler) (l : Loop)
    → settle st l ≡ (if l.fault then faulted st l else settled st l)
unfolding settle
settle_lem st l = refl

faulted-Tracks :
    (st : PacketAssembler) (l : Loop) (c : Cut) (e : ℕ) (out : List LogicalPacket)
    → Agrees st.marks e l c
    → IsSmall c
    → l.fault ≡ true
    → Tracks (faulted st l).0 (out ++ (faulted st l).1) (prepend out c)
faulted-Tracks st l c e out (packets, fault, _) small f = record {
  given = ap (◌++◌ out) packets;
  same_fault = sym f ∙ fault;
  small = small.0;
  holds = λ h. cc;
  in_progress = λ h. cc;
}

settled-Tracks :
    (st : PacketAssembler) (s : List Stamped) (l : Loop) (c : Cut) (out : List LogicalPacket)
    → Holds st s
    → Agrees st.marks (st.consumed + length s) l c
    → IsSmall c
    → l.fault ≡ false
    → Tracks (settled st l).0 (out ++ (settled st l).1) (prepend out c)
settled-Tracks st s l c out h (packets, fault, on) small f =
    let (rest, partial, stamps, end) = on (sym fault ∙ f) in
    let size : length l.rest ≡ length c.rest = ap length rest ∙ length-bytes c.rest in
    let whole : ltb max_logical_packet (length l.rest) ≡ false = ground arith in
    record {
      given = ap (◌++◌ out) packets;
      same_fault = whole ∙ sym f ∙ fault;
      small = small.0;
      holds = λ _. record {
        buffered = rest;
        stamps = Stamps-drop_marks l.offset l.offset st.marks c.rest h.ascends (omega arith) stamps;
        ascends = drop_marks-Ascends l.offset 0 st.marks h.ascends;
        at_most = rw end (drop_marks-AtMost l.offset (st.consumed + length s) st.marks h.at_most);
        whole = whole;
      };
      in_progress = λ _. partial;
    }

settle-Tracks :
    (st : PacketAssembler) (s : List Stamped) (out : List LogicalPacket)
    → Holds st s
    → AreBytes s
    → Tracks
        (settle st (run_loop st)).0
        (out ++ (settle st (run_loop st)).1)
        (prepend out (scan st.partial s))
settle-Tracks st s out h b =
    let l = run_loop st in
    let c = scan st.partial s in
    let agrees = loop-Agrees st s h in
    let small : IsSmall c =
      unfold scan in scan_in-IsSmall (length s) st.partial s (omega arith) b in
    rw (settle_lem st l) (elim (Bool-cases l.fault) [
      | inl f ↦ rw f (faulted-Tracks st l c (st.consumed + length s) out agrees small f)
      | inr f ↦ rw f (settled-Tracks st s l c out h agrees small f)
    ])

AreBytes-stamp : (t : ℕ) (b : Bytes) → All (λ x. x < 256) b → AreBytes (stamp t b)
AreBytes-stamp t [] h = tt
AreBytes-stamp t (c ∷ b) (h, hs) = (h, AreBytes-stamp t b hs)

feed_idle : (st : PacketAssembler) (t : ℕ) (b : Bytes) → st.broken ≡ true → feed st t b ≡ (st, [])
unfolding feed
feed_idle st t b h = ground arith

feed_run :
    (st : PacketAssembler) (t x : ℕ) (b : Bytes)
    → st.broken ≡ false
    → feed st t (x ∷ b) ≡ settle (received st t (x ∷ b)) (run_loop (received st t (x ∷ b)))
unfolding feed
feed_run st t x b h =
    let nonempty : (st.broken || length (x ∷ b) == 0) ≡ false = ground arith in rw nonempty refl

feed_empty : (st : PacketAssembler) (t : ℕ) → feed st t [] ≡ (st, [])
unfolding feed
feed_empty st t = ground arith

extend_fault : (t : List Stamped) (c : Cut) → c.fault ≡ true → extend t c ≡ c
extend_fault t c h = ground arith

extend_on :
    (t : List Stamped) (c : Cut) (out : List LogicalPacket) (p : Option Partial)
    → c.fault ≡ false
    → out ≡ c.packets
    → p ≡ c.partial
    → prepend out (scan p (c.rest ++ t)) ≡ extend t c
extend_on t c out p h e k = rw (e, k) (ground arith)

-- One chunk: the state and the packets given out follow the search over the stream so far.
feed-Tracks :
    (st : PacketAssembler) (s : List Stamped) (out : List LogicalPacket) (t : ℕ) (b : Bytes)
    → Tracks st out (scan none s)
    → All (λ x. x < 256) b
    → Tracks (feed st t b).0 (out ++ (feed st t b).1) (scan none (s ++ stamp t b))
feed-Tracks st s out t [] r h = rw (feed_empty st t, append-nil out, append-nil s) r
feed-Tracks st s out t (x ∷ b) r h =
    let c = scan none s in
    let new = stamp t (x ∷ b) in
    rw (scan-append none s new) (elim (Bool-cases c.fault) [
      | inl f ↦
          rw (feed_idle st t (x ∷ b) (r.same_fault ∙ f), append-nil out, extend_fault new c f) r
      | inr f ↦
          rw
            (
              feed_run st t x b (r.same_fault ∙ f),
              ← extend_on new c out st.partial f r.given (r.in_progress f),
            )
            (settle-Tracks (received st t (x ∷ b)) (c.rest ++ new) out
              (received-Holds st c.rest t (x ∷ b) (r.holds f))
              (All-append (λ y. y.0 < 256) c.rest new r.small (AreBytes-stamp t (x ∷ b) h)))
    ])

-- A chunk of the stream: its timestamp and its bytes.
abbrev pub Chunk : Type 0
Chunk = ℕ × Bytes

-- `feed` for each chunk in turn, with all the packets that come out.
unfoldable pub feed_all : PacketAssembler → List Chunk → PacketAssembler × List LogicalPacket
feed_all st [] = (st, [])
feed_all st (k ∷ ks) =
    let r = feed st k.0 k.1 in let rest = feed_all r.0 ks in (rest.0, r.1 ++ rest.1)

-- The bytes of the chunks, each with its chunk's timestamp.
abbrev pub stamped : List Chunk → List Stamped
stamped [] = []
stamped (k ∷ ks) = stamp k.0 k.1 ++ stamped ks

feed_all-Tracks :
    (st : PacketAssembler) (s : List Stamped) (out : List LogicalPacket) (ks : List Chunk)
    → Tracks st out (scan none s)
    → All (λ k. All (λ x. x < 256) k.1) ks
    → Tracks (feed_all st ks).0 (out ++ (feed_all st ks).1) (scan none (s ++ stamped ks))
unfolding feed_all
feed_all-Tracks st s out [] r h = rw (append-nil out, append-nil s) r
feed_all-Tracks st s out (k ∷ ks) r (h, hs) =
    let f = feed st k.0 k.1 in
    rw (← append_assoc out f.1 (feed_all f.0 ks).1, ← append_assoc s (stamp k.0 k.1) (stamped ks))
      (feed_all-Tracks f.0 (s ++ stamp k.0 k.1) (out ++ f.1) ks (feed-Tracks st s out k.0 k.1 r h)
        hs)

new-Tracks : Tracks new [] (scan none [])
unfolding scan scan_in
new-Tracks = record {
  given = refl;
  same_fault = refl;
  small = tt;
  holds = λ _. record { buffered = refl; stamps = tt; ascends = tt; at_most = tt; whole = refl };
  in_progress = λ _. refl;
}

-- However a byte stream is cut into chunks, the assembler gives out the packets of the whole stream,
-- each with the timestamp of the chunk that brought its first byte, and is broken at the end exactly
-- when a payload of the stream overruns the limit, for bytes below 256.
pub feed_all-scan :
    (ks : List Chunk)
    → All (λ k. All (λ x. x < 256) k.1) ks
    → ((feed_all new ks).1 ≡ (scan none (stamped ks)).packets)
      × ((feed_all new ks).0.broken ≡ (scan none (stamped ks)).fault)
feed_all-scan ks h = let r = feed_all-Tracks new [] [] ks new-Tracks h in (r.given, r.same_fault)
