-- ===== src/Wire/Packets/Stream.antt =====
-- What the packets of a byte stream are, apart from how it is cut into chunks: the specification of
-- `PacketAssembler`, over bytes that each carry the timestamp of the chunk they came in.
use avraham_sql_tools.Base.{
  ℕ, zero, suc, ◌+◌, ◌-◌, ◌≤◌, Bool, true, false, List, [], ◌∷◌, ◌++◌, map, Option, none, some, ◌≡◌,
  refl, ap, arith, inl, inr, ltb, Bool-cases, Bytes, length, drop, take-append, drop-append,
  length-append, length-drop, length-map,
}
use avraham_sql_tools.Wire.Packets.{
  LogicalPacket, Partial, Frame, short, frame, frame_at, le24, overrun, more, whole, join, on_frame,
  on_joined,
}

-- A byte and its timestamp.
abbrev pub Stamped : Type 0
Stamped = ℕ × ℕ

abbrev pub byte : Stamped → ℕ
byte x = x.0

abbrev pub bytes : List Stamped → Bytes
bytes = map byte

abbrev pub first_ts : List Stamped → ℕ
first_ts [] = 0
first_ts (x ∷ s) = x.1

-- The packets so far, the payload in progress and the bytes left over; or a payload that overran.
pub record Cut : Type 0 where
  pub rest : List Stamped
  pub partial : Option Partial
  pub packets : List LogicalPacket
  pub fault : Bool

abbrev pub left : List Stamped → Option Partial → Cut
left s p = record { rest = s; partial = p; packets = []; fault = false }

abbrev pub failed : Cut
failed = record { rest = []; partial = none; packets = []; fault = true }

abbrev pub ahead_of : LogicalPacket → Cut → Cut
ahead_of p c = record c { packets = p ∷ c.packets }

unfoldable pub scan_in : ℕ → Option Partial → List Stamped → Cut
scan_in zero p s = left s p
scan_in (suc fuel) p s =
    on_frame (left s p)
      (λ len seq payload _.
        on_joined failed (λ q. scan_in fuel (some q) (drop (4 + len) s))
          (λ q. ahead_of q (scan_in fuel none (drop (4 + len) s)))
          (join p (first_ts s) len seq payload))
      (frame_at (bytes s))

-- The packets of a stream.
unfoldable pub scan : Option Partial → List Stamped → Cut
scan p s = scan_in (length s) p s

abbrev pub IsFrame : Bytes → Frame → Type 0
IsFrame b short = Unit
IsFrame b (frame len seq payload rest) =
    (rest ≡ drop (4 + len) b)
    × (4 + len ≤ length b)
    × ((t : Bytes) → frame_at (b ++ t) ≡ frame len seq payload (rest ++ t))

pub frame_at-IsFrame : (b : Bytes) → IsFrame b (frame_at b)
unfolding frame_at
frame_at-IsFrame [] = tt
frame_at-IsFrame (a ∷ []) = tt
frame_at-IsFrame (a ∷ b ∷ []) = tt
frame_at-IsFrame (a ∷ b ∷ c ∷ []) = tt
frame_at-IsFrame (a ∷ b ∷ c ∷ seq ∷ body) = elim (Bool-cases (ltb (length body) (le24 a b c))) [
  | inl e ↦ rw e tt
  | inr e ↦
      let len = le24 a b c in
      let four : 4 + len ≡ suc (suc (suc (suc len))) = omega arith in
      let fits : len ≤ length body = ground arith in
      rw e (
        rw four refl,
        omega arith,
        λ t.
            rw (still body t len fits, take-append len body t fits, drop-append len body t fits)
              refl,
      )
]
  where
    still : (x t : Bytes) (n : ℕ) → n ≤ length x → ltb (length (x ++ t)) n ≡ false
    still x t n h = let sum = length-append x t in ground arith

pub length-bytes : (s : List Stamped) → length (bytes s) ≡ length s
length-bytes s = length-map byte s

abbrev pub scan_frame : ℕ → Option Partial → List Stamped → ℕ → ℕ → Bytes → Bytes → Cut
scan_frame f p s len seq payload _ =
    on_joined failed (λ q. scan_in f (some q) (drop (4 + len) s))
      (λ q. ahead_of q (scan_in f none (drop (4 + len) s))) (join p (first_ts s) len seq payload)

pub scan_in-fuel :
    (f g : ℕ) (p : Option Partial) (s : List Stamped)
    → length s ≤ f
    → length s ≤ g
    → scan_in f p s ≡ scan_in g p s
unfolding scan_in
scan_in-fuel zero zero p s h k = refl
scan_in-fuel zero (suc g) p [] h k = unfold frame_at in refl
scan_in-fuel zero (suc g) p (x ∷ s) h k = absurd (omega arith)
scan_in-fuel (suc f) zero p [] h k = unfold frame_at in refl
scan_in-fuel (suc f) zero p (x ∷ s) h k = absurd (omega arith)
scan_in-fuel (suc f) (suc g) p s h k =
    (elim (frame_at (bytes s))
        as (λ r.
          IsFrame (bytes s) r
          → on_frame (left s p) (scan_frame f p s) r ≡ on_frame (left s p) (scan_frame g p s) r) [
            | short ↦ λ _. refl
            | frame len seq payload rest ↦ λ c.
                let fits : length (drop (4 + len) s) ≤ length s - 4 =
                  omega (arith, length-drop (4 + len) s, c.1, length-bytes s) in
                elim (join p (first_ts s) len seq payload)
                  as (λ j.
                    on_joined failed (λ q. scan_in f (some q) (drop (4 + len) s))
                      (λ q. ahead_of q (scan_in f none (drop (4 + len) s))) j
                    ≡ on_joined failed (λ q. scan_in g (some q) (drop (4 + len) s))
                        (λ q. ahead_of q (scan_in g none (drop (4 + len) s))) j) [
                          | overrun ↦ refl
                          | more q ↦
                              scan_in-fuel f g (some q) (drop (4 + len) s) (omega arith)
                                (omega arith)
                          | whole q ↦
                              ap (ahead_of q) (
                                scan_in-fuel f g none (drop (4 + len) s) (omega arith)
                                  (omega arith))
                        ]
          ])
      (frame_at-IsFrame (bytes s))
