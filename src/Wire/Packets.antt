-- ===== src/Wire/Packets.antt =====
-- `PacketAssembler` of mysqlproto.rs: MySQL packets from chunks of a byte stream. A timestamp in
-- microseconds is a number. Stream offsets count captured bytes, far below 2 ^ 64.
pub mod Stream
pub mod Append
pub mod Residue
pub mod Feeds
pub mod Writes
pub mod Marks
pub mod Chunks
use avraham_sql_tools.Base.{
  ℕ, zero, suc, ◌+◌, ◌*◌, Bool, true, false, ◌||◌, List, [], ◌∷◌, ◌++◌, Option, none, some, ◌==◌,
  ltb, leb, if◌then◌else◌, Bytes, length, take, drop,
}

abbrev pub max_logical_packet : ℕ
max_logical_packet = 64 * 1024 * 1024

-- The payload length that continues into the next packet.
abbrev pub full_length : ℕ
full_length = 0xffffff

pub record LogicalPacket : Type 0 where
  pub first_seq : ℕ
  pub last_seq : ℕ
  pub ts_micros : ℕ
  pub payload : Bytes

-- A multi-packet payload in progress.
pub record Partial : Type 0 where
  pub first_seq : ℕ
  pub ts : ℕ
  pub acc : Bytes

-- The offset of a chunk's first byte, and the chunk's timestamp.
abbrev pub Mark : Type 0
Mark = ℕ × ℕ

pub record PacketAssembler : Type 0 where
  pub buf : Bytes
  pub marks : List Mark
  pub consumed : ℕ
  pub partial : Option Partial
  pub broken : Bool

abbrev pub new : PacketAssembler
new = record { buf = []; marks = []; consumed = 0; partial = none; broken = false }

-- The loop of `ts_for` with `ts` so far.
unfoldable pub ts_from : ℕ → List Mark → ℕ → ℕ
ts_from ts [] offset = ts
ts_from ts ((o, t) ∷ marks) offset =
    let later = ts_from t marks offset in if leb o offset then later else ts

unfoldable pub ts_for : List Mark → ℕ → ℕ
unfolding ts_from
ts_for marks offset = ts_from 0 marks offset

-- The head of the loop of `feed`: a whole packet at the front, or not yet.
pub data Frame : Type 0 where
  short : Frame
  frame : ℕ → ℕ → Bytes → Bytes → Frame

abbrev pub le24 : ℕ → ℕ → ℕ → ℕ
le24 a b c = a + 256 * b + 65536 * c

unfoldable pub frame_at : Bytes → Frame
frame_at (a ∷ b ∷ c ∷ seq ∷ body) =
    let len = le24 a b c in
    if ltb (length body) len then short else frame len seq (take len body) (drop len body)
frame_at _ = short

-- What a fragment makes of the payload in progress.
pub data Joined : Type 0 where
  overrun : Joined
  more : Partial → Joined
  whole : LogicalPacket → Joined

unfoldable pub join : Option Partial → ℕ → ℕ → ℕ → Bytes → Joined
join (some p) ts len seq payload =
    if ltb max_logical_packet (length p.acc + length payload)
    then overrun
    else if len == full_length
    then more (record p { acc = p.acc ++ payload })
    else whole (record {
      first_seq = p.first_seq;
      last_seq = seq;
      ts_micros = p.ts;
      payload = p.acc ++ payload;
    })
join none ts len seq payload =
    if len == full_length
    then more (record { first_seq = seq; ts = ts; acc = payload })
    else whole (record { first_seq = seq; last_seq = seq; ts_micros = ts; payload = payload })

-- Where the loop ends: `rest` is `buf[cursor..]` and `offset` the stream offset of its front.
pub record Loop : Type 0 where
  pub rest : Bytes
  pub offset : ℕ
  pub partial : Option Partial
  pub packets : List LogicalPacket
  pub fault : Bool

abbrev pub push : LogicalPacket → Loop → Loop
push p l = record l { packets = p ∷ l.packets }

abbrev pub on_frame {ℓ} : {R : Type ℓ} → R → (ℕ → ℕ → Bytes → Bytes → R) → Frame → R
on_frame e f short = e
on_frame e f (frame len seq payload rest) = f len seq payload rest

abbrev pub on_joined {ℓ} : {R : Type ℓ} → R → (Partial → R) → (LogicalPacket → R) → Joined → R
on_joined e f g overrun = e
on_joined e f g (more p) = f p
on_joined e f g (whole p) = g p

abbrev pub stop_at : Bytes → ℕ → Option Partial → Loop
stop_at rest offset partial = record {
  rest = rest;
  offset = offset;
  partial = partial;
  packets = [];
  fault = false;
}

-- The early return: `partial` has been taken.
abbrev pub fault_at : Bytes → ℕ → Loop
fault_at rest offset = record {
  rest = rest;
  offset = offset;
  partial = none;
  packets = [];
  fault = true;
}

-- The loop of `feed`, on fuel.
unfoldable pub feed_loop : ℕ → List Mark → Bytes → ℕ → Option Partial → Loop
unfolding frame_at join
feed_loop zero marks rest offset partial = stop_at rest offset partial
feed_loop (suc fuel) marks rest offset partial =
    on_frame (stop_at rest offset partial)
      (λ len seq payload rest'.
        on_joined (fault_at rest offset)
          (λ p. feed_loop fuel marks rest' (offset + (4 + len)) (some p))
          (λ p. push p (feed_loop fuel marks rest' (offset + (4 + len)) none))
          (join partial (ts_for marks offset) len seq payload))
      (frame_at rest)

-- `while marks.len() > 1 && marks[1].0 <= consumed { marks.pop_front(); }`
unfoldable pub drop_marks : ℕ → List Mark → List Mark
drop_marks consumed [] = []
drop_marks consumed (a ∷ []) = a ∷ []
drop_marks consumed (a ∷ b ∷ marks) =
    let popped = drop_marks consumed (b ∷ marks) in
    if leb b.0 consumed then popped else a ∷ b ∷ marks

-- `feed` behind its first `return`, with the chunk in the buffer; a packet takes four bytes at
-- least, so the length of the buffer is enough fuel.
unfoldable pub settle : PacketAssembler → Loop → PacketAssembler × List LogicalPacket
settle st l = if l.fault then (record st { partial = none; broken = true }, l.packets) else (
  record {
    buf = l.rest;
    marks = drop_marks l.offset st.marks;
    consumed = l.offset;
    partial = l.partial;
    broken = ltb max_logical_packet (length l.rest);
  },
  l.packets,
)

abbrev pub received : PacketAssembler → ℕ → Bytes → PacketAssembler
received st ts bytes = record st {
  marks = st.marks ++ (st.consumed + length st.buf, ts) ∷ [];
  buf = st.buf ++ bytes;
}

abbrev pub run_loop : PacketAssembler → Loop
run_loop st = feed_loop (length st.buf) st.marks st.buf st.consumed st.partial

unfoldable pub feed : PacketAssembler → ℕ → Bytes → PacketAssembler × List LogicalPacket
unfolding settle
feed st ts bytes =
    if st.broken || length bytes == 0
    then (st, [])
    else settle (received st ts bytes) (run_loop (received st ts bytes))
