-- ===== src/Wire/Packets/Marks.antt =====
-- The marks of the assembler give each buffered byte the timestamp of the chunk that it came in.
use avraham_sql_tools.Base.{
  ℕ, zero, suc, ◌+◌, ◌≤◌, ◌<◌, false, List, [], ◌∷◌, ◌++◌, Option, none, some, ◌≡◌, refl, ◌∙◌, ap,
  arith, inl, inr, leb, le→leb, Bool-cases, Bytes, length, drop, drop-map, length-drop,
}
use avraham_sql_tools.Wire.Packets.{
  Partial, Mark, ts_from, ts_for, short, frame, frame_at, overrun, more, whole, join, Loop, push,
  on_frame, on_joined, stop_at, fault_at, feed_loop, drop_marks,
}
use avraham_sql_tools.Wire.Packets.Stream.{
  Stamped, byte, bytes, first_ts, Cut, left, failed, ahead_of, scan_in, scan_frame, IsFrame,
  frame_at-IsFrame, length-bytes,
}

-- `ts_for` finds the timestamp of each byte, the first one standing at offset `o`.
abbrev pub Stamps : List Mark → ℕ → List Stamped → Type 0
Stamps marks o [] = Unit
Stamps marks o (x ∷ s) = (ts_for marks o ≡ x.1) × Stamps marks (o + 1) s

-- The offsets ascend from `lo` on.
abbrev pub Ascends : ℕ → List Mark → Type 0
Ascends lo [] = Unit
Ascends lo (m ∷ ms) = (lo ≤ m.0) × Ascends m.0 ms

abbrev pub AtMost : ℕ → List Mark → Type 0
AtMost e [] = Unit
AtMost e (m ∷ ms) = (m.0 ≤ e) × AtMost e ms

pub Stamps-drop :
    (marks : List Mark) (n o : ℕ) (s : List Stamped)
    → n ≤ length s
    → Stamps marks o s
    → Stamps marks (o + n) (drop n s)
Stamps-drop marks zero o s h d = let e : o + 0 ≡ o = omega arith in rw e d
Stamps-drop marks (suc n) o [] h d = absurd (omega arith)
Stamps-drop marks (suc n) o (x ∷ s) h (d, ds) =
    let e : o + suc n ≡ o + 1 + n = omega arith in
    rw e (Stamps-drop marks n (o + 1) s (omega arith) ds)

first_ts-Stamps :
    (marks : List Mark) (o : ℕ) (s : List Stamped)
    → 1 ≤ length s
    → Stamps marks o s
    → ts_for marks o ≡ first_ts s
first_ts-Stamps marks o [] h d = absurd (omega arith)
first_ts-Stamps marks o (x ∷ s) h (d, ds) = d

ts_from-append_before :
    (d e t o : ℕ) (marks : List Mark)
    → o < e
    → ts_from d (marks ++ (e, t) ∷ []) o ≡ ts_from d marks o
unfolding ts_from
ts_from-append_before d e t o [] h = ground arith
ts_from-append_before d e t o (m ∷ ms) h = ground (arith, ts_from-append_before m.1 e t o ms h)

ts_from-append_after :
    (d e t o : ℕ) (marks : List Mark)
    → AtMost e marks
    → e ≤ o
    → ts_from d (marks ++ (e, t) ∷ []) o ≡ t
unfolding ts_from
ts_from-append_after d e t o [] _ h = ground arith
ts_from-append_after d e t o (m ∷ ms) (a, as') h =
    rw (le→leb m.0 o (omega arith)) (ts_from-append_after m.1 e t o ms as' h)

ts_from-drop_marks :
    (d c o : ℕ) (marks : List Mark)
    → Ascends 0 marks
    → c ≤ o
    → ts_from d (drop_marks c marks) o ≡ ts_from d marks o
unfolding ts_from drop_marks
ts_from-drop_marks d c o [] a h = refl
ts_from-drop_marks d c o (m ∷ []) a h = refl
ts_from-drop_marks d c o (m ∷ n ∷ ms) (_, (a, as')) h =
    ground (arith, ts_from-drop_marks d c o (n ∷ ms) (omega arith, as') h)

pub drop_marks-Ascends :
    (c lo : ℕ) (marks : List Mark) → Ascends lo marks → Ascends 0 (drop_marks c marks)
unfolding drop_marks
drop_marks-Ascends c lo [] a = tt
drop_marks-Ascends c lo (m ∷ []) a = (omega arith, tt)
drop_marks-Ascends c lo (m ∷ n ∷ ms) (a, (b, as')) = elim (Bool-cases (leb n.0 c)) [
  | inl e ↦ rw e (drop_marks-Ascends c m.0 (n ∷ ms) (b, as'))
  | inr e ↦ rw e (omega arith, (b, as'))
]

pub drop_marks-AtMost :
    (c e : ℕ) (marks : List Mark) → AtMost e marks → AtMost e (drop_marks c marks)
unfolding drop_marks
drop_marks-AtMost c e [] a = tt
drop_marks-AtMost c e (m ∷ []) a = a
drop_marks-AtMost c e (m ∷ n ∷ ms) (a, as') = elim (Bool-cases (leb n.0 c)) [
  | inl t ↦ rw t (drop_marks-AtMost c e (n ∷ ms) as')
  | inr t ↦ rw t (a, as')
]

pub Stamps-drop_marks :
    (c o : ℕ) (marks : List Mark) (s : List Stamped)
    → Ascends 0 marks
    → c ≤ o
    → Stamps marks o s
    → Stamps (drop_marks c marks) o s
unfolding ts_for
Stamps-drop_marks c o marks [] a h d = tt
Stamps-drop_marks c o marks (x ∷ s) a h (d, ds) =
    (ts_from-drop_marks 0 c o marks a h ∙ d, Stamps-drop_marks c (o + 1) marks s a (omega arith) ds)

abbrev pub stamp : ℕ → Bytes → List Stamped
stamp ts [] = []
stamp ts (c ∷ b) = (c, ts) ∷ stamp ts b

Stamps-stamp :
    (marks : List Mark) (e t o : ℕ) (b : Bytes)
    → AtMost e marks
    → e ≤ o
    → Stamps (marks ++ (e, t) ∷ []) o (stamp t b)
unfolding ts_for
Stamps-stamp marks e t o [] a h = tt
Stamps-stamp marks e t o (c ∷ b) a h =
    (ts_from-append_after 0 e t o marks a h, Stamps-stamp marks e t (o + 1) b a (omega arith))

-- A new chunk is marked, and the bytes before it keep their marks.
pub Stamps-append :
    (marks : List Mark) (e t o : ℕ) (s : List Stamped) (b : Bytes)
    → AtMost e marks
    → o + length s ≡ e
    → Stamps marks o s
    → Stamps (marks ++ (e, t) ∷ []) o (s ++ stamp t b)
unfolding ts_for
Stamps-append marks e t o [] b a h d = Stamps-stamp marks e t o b a (omega arith)
Stamps-append marks e t o (x ∷ s) b a h (d, ds) = (
  ts_from-append_before 0 e t o marks (omega arith) ∙ d,
  Stamps-append marks e t (o + 1) s b a (omega arith) ds,
)

-- What the loop of `feed` ends with is what the specification says.
abbrev pub Agrees : List Mark → ℕ → Loop → Cut → Type 0
Agrees marks e l c =
    (l.packets ≡ c.packets)
    × (l.fault ≡ c.fault)
    × (c.fault ≡ false
        → (l.rest ≡ bytes c.rest)
          × (l.partial ≡ c.partial)
          × Stamps marks l.offset c.rest
          × (l.offset + length c.rest ≡ e))

abbrev loop_frame : ℕ → List Mark → ℕ → Bytes → Option Partial → ℕ → ℕ → Bytes → Bytes → Loop
loop_frame f marks o b p len seq payload rest =
    on_joined (fault_at b o) (λ q. feed_loop f marks rest (o + (4 + len)) (some q))
      (λ q. push q (feed_loop f marks rest (o + (4 + len)) none))
      (join p (ts_for marks o) len seq payload)

pub feed_loop-Agrees :
    (f : ℕ) (marks : List Mark) (s : List Stamped) (o : ℕ) (p : Option Partial)
    → Stamps marks o s
    → Agrees marks (o + length s) (feed_loop f marks (bytes s) o p) (scan_in f p s)
unfolding feed_loop scan_in
feed_loop-Agrees zero marks s o p d = (refl, refl, λ _. (refl, refl, d, refl))
feed_loop-Agrees (suc f) marks s o p d =
    (elim (frame_at (bytes s))
        as (λ r.
          IsFrame (bytes s) r
          → Agrees marks (o + length s)
              (on_frame (stop_at (bytes s) o p) (loop_frame f marks o (bytes s) p) r)
              (on_frame (left s p) (scan_frame f p s) r)) [
                | short ↦ λ _. (refl, refl, λ _. (refl, refl, d, refl))
                | frame len seq payload rest ↦ λ c.
                    let n = 4 + len in
                    let room : n ≤ length s = omega (arith, c.1, length-bytes s) in
                    let behind : rest ≡ bytes (drop n s) = c.0 ∙ drop-map byte n s in
                    let next = Stamps-drop marks n o s room d in
                    let end : o + n + length (drop n s) ≡ o + length s =
                      omega (arith, length-drop n s) in
                    rw (first_ts-Stamps marks o s (omega arith) d, behind)
                      (elim (join p (first_ts s) len seq payload)
                        as (λ j.
                          Agrees marks (o + length s)
                            (on_joined (fault_at (bytes s) o)
                              (λ q. feed_loop f marks (bytes (drop n s)) (o + n) (some q))
                              (λ q. push q (feed_loop f marks (bytes (drop n s)) (o + n) none)) j)
                            (on_joined failed (λ q. scan_in f (some q) (drop n s))
                              (λ q. ahead_of q (scan_in f none (drop n s))) j)) [
                                | overrun ↦ (refl, refl, λ e. cc)
                                | more q ↦
                                    rw end at
                                      (feed_loop-Agrees f marks (drop n s) (o + n) (some q) next)
                                | whole q ↦
                                    let g = feed_loop-Agrees f marks (drop n s) (o + n) none next in
                                    (ap (◌∷◌ q) g.0, g.1, rw end at g.2)
                              ])
              ])
      (frame_at-IsFrame (bytes s))
