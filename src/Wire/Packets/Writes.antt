-- ===== src/Wire/Packets/Writes.antt =====
-- A packet written in frames, as the MySQL protocol splits it, and the assembler joins it again.
use avraham_sql_tools.Base.{
  ℕ, zero, suc, ◌+◌, ◌/◌, ◌%◌, ◌≤◌, ◌<◌, true, false, List, [], ◌∷◌, ◌++◌, append_assoc, append-nil,
  Option, some, none, ◌≡◌, refl, sym, ap, ◌∙◌, arith, ◌==◌, ltb, Bytes, length, drop, take_prefix,
  drop_prefix, length-append, drop-map, All,
}
use avraham_sql_tools.Wire.Packets.{
  full_length, max_logical_packet, LogicalPacket, Partial, new, frame, frame_at, le24, more, whole,
  join, on_joined,
}
use avraham_sql_tools.Wire.Packets.Stream.{
  Stamped, byte, bytes, first_ts, ahead_of, failed, scan, IsFrame, frame_at-IsFrame, length-bytes,
}
use avraham_sql_tools.Wire.Packets.Append.{scan_frame-append}
use avraham_sql_tools.Wire.Packets.Feeds.{Chunk, feed_all, stamped, feed_all-scan}

-- The header of a frame, and its payload.
abbrev pub write_frame : ℕ → Bytes → Bytes
write_frame seq p = let n = length p in (n % 256) ∷ (n / 256 % 256) ∷ (n / 65536) ∷ seq ∷ p

frame_at-write_frame :
    (seq : ℕ) (p r : Bytes)
    → length p ≤ full_length
    → frame_at (write_frame seq p ++ r) ≡ frame (length p) seq p r
unfolding frame_at
frame_at-write_frame seq p r h =
    let n = length p in
    let same : le24 (n % 256) (n / 256 % 256) (n / 65536) ≡ n = omega arith in
    let fits : ltb (length (p ++ r)) n ≡ false = let sum = length-append p r in ground arith in
    rw (same, fits, take_prefix p r, drop_prefix p r) refl

module _ (s : List Stamped) (seq : ℕ) (p r : Bytes) (h : bytes s ≡ write_frame seq p ++ r)
    (small : length p ≤ full_length) where
  written : IsFrame (bytes s) (frame (length p) seq p r)
  written = rw (ap frame_at h ∙ frame_at-write_frame seq p r small) at (frame_at-IsFrame (bytes s))

  bytes-rest : bytes (drop (4 + length p) s) ≡ r
  bytes-rest = sym (drop-map byte (4 + length p) s) ∙ sym written.0

  scan-write_frame :
      (q : Option Partial)
      → scan q s
        ≡ on_joined failed
            (λ x. scan (some x) (drop (4 + length p) s))
            (λ x. ahead_of x (scan none (drop (4 + length p) s)))
            (join q (first_ts s) (length p) seq p)
  scan-write_frame q =
      rw (append-nil s, append-nil (drop (4 + length p) s)) at
        (scan_frame-append q s [] (length p) seq p r written
          (omega (arith, written.1, length-bytes s)))

drop-nil : (n : ℕ) → drop {A = Stamped} n [] ≡ []
drop-nil zero = refl
drop-nil (suc n) = refl

drop-drop : (m n : ℕ) (s : List Stamped) → drop n (drop m s) ≡ drop (m + n) s
drop-drop zero n s = rw (zero_plus n) refl
  where
    zero_plus : (n : ℕ) → 0 + n ≡ n
    zero_plus n = omega arith
drop-drop (suc m) n [] = drop-nil n ∙ sym (drop-nil (suc m + n))
drop-drop (suc m) n (x ∷ s) =
    let one : suc m + n ≡ suc (m + n) = omega arith in rw one (drop-drop m n s)

length-write_frame : (seq : ℕ) (p : Bytes) → 4 + length p ≡ length (write_frame seq p)
length-write_frame seq p = omega arith

-- The frames of a packet: full ones and a shorter one behind them, with sequence numbers of a byte.
unfoldable pub write : ℕ → List Bytes → Bytes → Bytes
write seq [] last = write_frame seq last
write seq (f ∷ fs) last = write_frame seq f ++ write ((seq + 1) % 256) fs last

unfoldable pub payload_of : List Bytes → Bytes → Bytes
payload_of [] last = last
payload_of (f ∷ fs) last = f ++ payload_of fs last

pub last_seq : ℕ → List Bytes → ℕ
last_seq seq [] = seq
last_seq seq (f ∷ fs) = last_seq ((seq + 1) % 256) fs

abbrev pub IsFull : Bytes → Type 0
IsFull f = length f ≡ full_length

-- A packet in progress, with the frames that are still to come.
abbrev joined : Partial → ℕ → List Bytes → Bytes → LogicalPacket
joined p seq fs last = record {
  first_seq = p.first_seq;
  last_seq = last_seq seq fs;
  ts_micros = p.ts;
  payload = p.acc ++ payload_of fs last;
}

join-last :
    (p : Partial) (t seq : ℕ) (last : Bytes)
    → length last < full_length
    → length p.acc + length last ≤ max_logical_packet
    → join (some p) t (length last) seq last ≡ whole (joined p seq [] last)
unfolding join last_seq payload_of
join-last p t seq last short room =
    let fits : ltb max_logical_packet (length p.acc + length last) ≡ false = ground arith in
    let ends : (length last == full_length) ≡ false = ground arith in rw (fits, ends) refl

join-full :
    (p : Partial) (t seq : ℕ) (f : Bytes)
    → IsFull f
    → length p.acc + length f ≤ max_logical_packet
    → join (some p) t (length f) seq f ≡ more (record p { acc = p.acc ++ f })
unfolding join
join-full p t seq f full room =
    let fits : ltb max_logical_packet (length p.acc + length f) ≡ false = ground arith in
    let goes_on : (length f == full_length) ≡ true = ground arith in rw (fits, goes_on) refl

scan-write :
    (p : Partial) (s : List Stamped) (seq : ℕ) (fs : List Bytes) (last r : Bytes)
    → bytes s ≡ write seq fs last ++ r
    → All IsFull fs
    → length last < full_length
    → length p.acc + length (payload_of fs last) ≤ max_logical_packet
    → scan (some p) s
      ≡ ahead_of (joined p seq fs last) (scan none (drop (length (write seq fs last)) s))
unfolding write payload_of last_seq
scan-write p s seq [] last r h full short room =
    scan-write_frame s seq last r h (omega arith) (some p)
    ∙ rw (join-last p (first_ts s) seq last short room) (
        ap (λ k. ahead_of (joined p seq [] last) (scan none (drop k s)))
          (length-write_frame seq last))
scan-write p s seq (f ∷ fs) last r h (hf, full) short room =
    let next = (seq + 1) % 256 in
    let frames = write next fs last in
    let p' = record p { acc = p.acc ++ f } in
    let s' = drop (4 + length f) s in
    let h' = h ∙ append_assoc (write_frame seq f) frames r in
    let sum = length-append f (payload_of fs last) in
    let more_sum = length-append p.acc f in
    let taken : 4 + length f + length frames ≡ length (write_frame seq f ++ frames) =
      omega (arith, length-write_frame seq f, length-append (write_frame seq f) frames) in
    scan-write_frame s seq f (frames ++ r) h' (omega arith) (some p)
    ∙ rw (join-full p (first_ts s) seq f hf (omega arith)) (
        rw
          (
            append_assoc p.acc f (payload_of fs last),
            drop-drop (4 + length f) (length frames) s,
            taken,
          )
          at
          (scan-write p' s' next fs last r (bytes-rest s seq f (frames ++ r) h' (omega arith)) full
            short (omega arith)))

join-first :
    (t seq : ℕ) (f : Bytes)
    → IsFull f
    → join none t (length f) seq f ≡ more (record { first_seq = seq; ts = t; acc = f })
unfolding join
join-first t seq f full =
    let goes_on : (length f == full_length) ≡ true = ground arith in rw goes_on refl

join-only :
    (t seq : ℕ) (p : Bytes)
    → length p < full_length
    → join none t (length p) seq p
      ≡ whole (record { first_seq = seq; last_seq = seq; ts_micros = t; payload = p })
unfolding join
join-only t seq p short =
    let ends : (length p == full_length) ≡ false = ground arith in rw ends refl

-- The packet that a written one is.
abbrev pub packet : ℕ → ℕ → List Bytes → Bytes → LogicalPacket
packet t seq fs last = record {
  first_seq = seq;
  last_seq = last_seq seq fs;
  ts_micros = t;
  payload = payload_of fs last;
}

scan-packet :
    (s : List Stamped) (seq : ℕ) (fs : List Bytes) (last r : Bytes)
    → bytes s ≡ write seq fs last ++ r
    → All IsFull fs
    → length last < full_length
    → length (payload_of fs last) ≤ max_logical_packet
    → scan none s
      ≡ ahead_of (packet (first_ts s) seq fs last) (scan none (drop (length (write seq fs last)) s))
unfolding write payload_of last_seq
scan-packet s seq [] last r h full short room =
    scan-write_frame s seq last r h (omega arith) none
    ∙ rw (join-only (first_ts s) seq last short) (
        ap (λ k. ahead_of (packet (first_ts s) seq [] last) (scan none (drop k s)))
          (length-write_frame seq last))
scan-packet s seq (f ∷ fs) last r h (hf, full) short room =
    let next = (seq + 1) % 256 in
    let frames = write next fs last in
    let p : Partial = record { first_seq = seq; ts = first_ts s; acc = f } in
    let s' = drop (4 + length f) s in
    let h' = h ∙ append_assoc (write_frame seq f) frames r in
    let sum = length-append f (payload_of fs last) in
    let taken : 4 + length f + length frames ≡ length (write_frame seq f ++ frames) =
      omega (arith, length-write_frame seq f, length-append (write_frame seq f) frames) in
    scan-write_frame s seq f (frames ++ r) h' (omega arith) none
    ∙ rw (join-first (first_ts s) seq f hf) (
        rw (drop-drop (4 + length f) (length frames) s, taken) at
          (scan-write p s' next fs last r (bytes-rest s seq f (frames ++ r) h' (omega arith)) full
            short (omega arith)))

-- A packet that is written in frames, full ones and a shorter one behind them, is given out whole,
-- before the packets of the bytes behind it, with the first and the last sequence number of its
-- frames and the timestamp of its first byte, however the bytes are cut into chunks, if its payload
-- is no longer than the limit.
pub feed_all-write :
    (ks : List Chunk) (seq : ℕ) (fs : List Bytes) (last r : Bytes)
    → All (λ k. All (λ x. x < 256) k.1) ks
    → bytes (stamped ks) ≡ write seq fs last ++ r
    → All IsFull fs
    → length last < full_length
    → length (payload_of fs last) ≤ max_logical_packet
    → (feed_all new ks).1
      ≡ packet (first_ts (stamped ks)) seq fs last
        ∷ (scan none (drop (length (write seq fs last)) (stamped ks))).packets
feed_all-write ks seq fs last r bounded h full short room =
    (feed_all-scan ks bounded).0
    ∙ ap (λ c. c.packets) (scan-packet (stamped ks) seq fs last r h full short room)
