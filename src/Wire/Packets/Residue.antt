-- ===== src/Wire/Packets/Residue.antt =====
-- What a search leaves over is less than one packet, so the buffer stays small.
use avraham_sql_tools.Base.{
  ℕ, zero, suc, ◌+◌, ◌≤◌, ◌<◌, List, [], ◌∷◌, Option, none, some, arith, inl, inr, ltb, ltb→lt,
  Bool-cases, length, drop, All, length-drop,
}
use avraham_sql_tools.Wire.Packets.{
  Partial, Frame, short, frame, frame_at, le24, overrun, more, whole, join, on_frame, on_joined,
}
use avraham_sql_tools.Wire.Packets.Stream.{
  Stamped, bytes, first_ts, Cut, left, failed, ahead_of, scan_in, scan_frame, IsFrame,
  frame_at-IsFrame, length-bytes,
}

abbrev pub AreBytes : List Stamped → Type 0
AreBytes = All (λ x. x.0 < 256)

pub AreBytes-drop : (n : ℕ) (s : List Stamped) → AreBytes s → AreBytes (drop n s)
AreBytes-drop zero s h = h
AreBytes-drop (suc n) [] h = tt
AreBytes-drop (suc n) (x ∷ s) (h, hs) = AreBytes-drop n s hs

-- The largest packet that can be waited for: a header and 0xffffff bytes.
abbrev pub packet_limit : ℕ
packet_limit = 4 + 0xffffff

abbrev Lacks : List Stamped → Frame → Type 0
Lacks s short = length s < packet_limit
Lacks s (frame _ _ _ _) = Unit

frame_at-Lacks : (s : List Stamped) → AreBytes s → Lacks s (frame_at (bytes s))
unfolding frame_at
frame_at-Lacks [] h = omega arith
frame_at-Lacks (a ∷ []) h = omega arith
frame_at-Lacks (a ∷ b ∷ []) h = omega arith
frame_at-Lacks (a ∷ b ∷ c ∷ []) h = omega arith
frame_at-Lacks (a ∷ b ∷ c ∷ q ∷ s) h =
    elim (Bool-cases (ltb (length (bytes s)) (le24 a.0 b.0 c.0))) [
      | inl e ↦
          rw e (omega (arith, ltb→lt (length (bytes s)) (le24 a.0 b.0 c.0) e, length-bytes s, h))
      | inr e ↦ rw e tt
    ]

abbrev pub IsSmall : Cut → Type 0
IsSmall c = AreBytes c.rest × (length c.rest < packet_limit)

pub scan_in-IsSmall :
    (f : ℕ) (p : Option Partial) (s : List Stamped)
    → length s ≤ f
    → AreBytes s
    → IsSmall (scan_in f p s)
unfolding scan_in
scan_in-IsSmall zero p [] h b = (tt, omega arith)
scan_in-IsSmall zero p (x ∷ s) h b = absurd (omega arith)
scan_in-IsSmall (suc f) p s h b =
    (elim (frame_at (bytes s))
        as (λ r.
          IsFrame (bytes s) r → Lacks s r → IsSmall (on_frame (left s p) (scan_frame f p s) r)) [
            | short ↦ λ _ l. (b, l)
            | frame len seq payload rest ↦ λ c _.
                let shorter : length (drop (4 + len) s) ≤ f =
                  omega (arith, length-drop (4 + len) s, c.1, length-bytes s) in
                elim (join p (first_ts s) len seq payload)
                  as (λ j. IsSmall (
                    on_joined failed (λ q. scan_in f (some q) (drop (4 + len) s))
                      (λ q. ahead_of q (scan_in f none (drop (4 + len) s))) j)) [
                        | overrun ↦ (tt, omega arith)
                        | more q ↦
                            scan_in-IsSmall f (some q) (drop (4 + len) s) shorter
                              (AreBytes-drop (4 + len) s b)
                        | whole q ↦
                            scan_in-IsSmall f none (drop (4 + len) s) shorter
                              (AreBytes-drop (4 + len) s b)
                      ]
          ])
      (frame_at-IsFrame (bytes s)) (frame_at-Lacks s b)
