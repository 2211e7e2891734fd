-- ===== src/Pcap/Seq.antt =====
-- `SeqStream` of pcap.rs, the reassembler of one direction of a TCP connection. What it hands to
-- `deliver` is a list of chunks; a timestamp in microseconds is a number. The map of out-of-order
-- segments is an association list in ascending order of its keys, as a `BTreeMap` yields them.
pub mod Slices
pub mod Rel
pub mod Delivers
pub mod Place
pub mod Receive
use avraham_sql_tools.Base.{
  ℕ, ◌+◌, ◌-◌, ◌*◌, ◌/◌, ◌%◌, ◌^◌, Bool, true, false, ◌||◌, List, [], ◌∷◌, ◌++◌, ◌==◌, ltb, leb,
  if◌then◌else◌, Bytes, length, drop,
}

abbrev pub u32_mod : ℕ
u32_mod = 2 ^ 32

abbrev pub u64_mod : ℕ
u64_mod = 2 ^ 64

abbrev pub max_pending_bytes : ℕ
max_pending_bytes = 8 * 1024 * 1024

-- A call of `deliver`: the timestamp and the bytes.
abbrev pub Chunk : Type 0
Chunk = ℕ × Bytes

-- A buffered segment: its relative offset, and what it holds.
abbrev pub Segment : Type 0
Segment = ℕ × Chunk

pub record SeqStream : Type 0 where
  pub started : Bool
  pub isn : ℕ
  pub next_rel : ℕ
  pub pending : List Segment
  pub pending_bytes : ℕ
  pub overflow : Bool

abbrev pub new : SeqStream
new = record {
  started = false;
  isn = 0;
  next_rel = 0;
  pending = [];
  pending_bytes = 0;
  overflow = false;
}

unfoldable pub on_syn : SeqStream → ℕ → SeqStream
on_syn st seq = record st {
  isn = (seq + 1) % u32_mod;
  started = true;
  next_rel = 0;
  pending = [];
  pending_bytes = 0;
}

abbrev pub abs_diff : ℕ → ℕ → ℕ
abs_diff a b = if ltb a b then b - a else a - b

-- `if cand.abs_diff(base) < best.abs_diff(base) { best = cand; }`
unfoldable pub closer : ℕ → ℕ → ℕ → ℕ
closer base best cand = if ltb (abs_diff cand base) (abs_diff best base) then cand else best

-- `(kk << 32) | low`, where `low` is below 2 ^ 32.
abbrev pub candidate : ℕ → ℕ → ℕ
candidate kk low = (kk * u32_mod) % u64_mod + low

unfoldable pub rel : SeqStream → ℕ → ℕ
unfolding closer
rel st seq =
    let low = (seq + u32_mod - st.isn) % u32_mod in
    let base = st.next_rel in
    let k = base / u32_mod in
    closer base (closer base (candidate k low) (candidate ((k + u64_mod - 1) % u64_mod) low))
      (candidate ((k + 1) % u64_mod) low)

-- `Entry::Vacant(v) => v.insert(..)`; an entry that is there stays.
unfoldable pub insert_vacant : ℕ → Chunk → List Segment → List Segment
insert_vacant r v [] = (r, v) ∷ []
insert_vacant r v ((k, w) ∷ m) =
    let later = insert_vacant r v m in
    if ltb r k then (r, v) ∷ (k, w) ∷ m else if r == k then (k, w) ∷ m else (k, w) ∷ later

unfoldable pub contains : ℕ → List Segment → Bool
contains r [] = false
contains r ((k, w) ∷ m) = k == r || contains r m

-- What a call does to the stream, and what it delivers.
abbrev pub Outcome : Type 0
Outcome = SeqStream × List Chunk

abbrev pub after_chunk : Chunk → Outcome → Outcome
after_chunk c (st, out) = (st, c ∷ out)

-- The loop of `drain`, over the segments in order.
unfoldable pub drain_from : List Segment → SeqStream → Outcome
drain_from [] st = (record st { pending = [] }, [])
drain_from ((r, (ts, bytes)) ∷ m) st =
    let popped = record st { pending_bytes = st.pending_bytes - length bytes } in
    let end = (r + length bytes) % u64_mod in
    let covered = drain_from m popped in
    let delivered =
      after_chunk (ts, drop (st.next_rel - r) bytes)
        (drain_from m (record popped { next_rel = end })) in
    if ltb st.next_rel r
    then (record st { pending = (r, (ts, bytes)) ∷ m }, [])
    else if leb end st.next_rel
    then covered
    else delivered

unfoldable pub drain : SeqStream → Outcome
unfolding drain_from
drain st = drain_from st.pending st

-- The tail of `on_data`, at the relative offset `r`.
unfoldable pub place : SeqStream → ℕ → ℕ → Bytes → Outcome
place st ts r payload =
    let end = (r + length payload) % u64_mod in
    if leb end st.next_rel
    then (st, [])
    else if leb r st.next_rel
    then after_chunk (ts, drop (st.next_rel - r) payload) (drain (record st { next_rel = end }))
    else if ltb max_pending_bytes (st.pending_bytes + length payload)
    then (record st { overflow = true; pending = []; pending_bytes = 0 }, [])
    else if contains r st.pending
    then (st, [])
    else (
      record st {
        pending_bytes = st.pending_bytes + length payload;
        pending = insert_vacant r (ts, payload) st.pending;
      },
      [],
    )

-- A stream that no SYN has started begins at the first byte that is seen.
unfoldable pub start : SeqStream → ℕ → SeqStream
start st seq = if st.started then st else record st { isn = seq; started = true }

unfoldable pub on_data : SeqStream → ℕ → ℕ → Bytes → Outcome
on_data st ts seq payload =
    let begun = start st seq in
    if length payload == 0 || st.overflow then (st, []) else place begun ts (rel begun seq) payload
