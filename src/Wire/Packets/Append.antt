-- ===== src/Wire/Packets/Append.antt =====
-- The packets of a stream that goes on: what was found stays, and the search resumes where it stood.
use avraham_sql_tools.Base.{
  ℕ, zero, suc, ◌+◌, ◌≤◌, List, [], ◌∷◌, ◌++◌, Option, none, some, ◌≡◌, refl, ◌∙◌, ap, arith, inl,
  inr, if◌then◌else◌, Bool-cases, Bytes, length, drop, drop-append, length-append, length-drop,
  map-append_lem,
}
use avraham_sql_tools.Wire.Packets.{
  LogicalPacket, Partial, short, frame, frame_at, overrun, more, whole, join, on_frame, on_joined,
}
use avraham_sql_tools.Wire.Packets.Stream.{
  Stamped, byte, bytes, first_ts, Cut, left, failed, ahead_of, scan_in, scan, scan_frame, IsFrame,
  frame_at-IsFrame, scan_in-fuel, length-bytes,
}

abbrev pub prepend : List LogicalPacket → Cut → Cut
prepend ps c = record c { packets = ps ++ c.packets }

-- What more bytes make of a search.
abbrev pub extend : List Stamped → Cut → Cut
extend t c = if c.fault then c else prepend c.packets (scan c.partial (c.rest ++ t))

extend-ahead_of :
    (t : List Stamped) (q : LogicalPacket) (c : Cut)
    → ahead_of q (extend t c) ≡ extend t (ahead_of q c)
extend-ahead_of t q c = elim (Bool-cases c.fault) [ inl e ↦ simp e refl | inr e ↦ simp e refl ]

first_ts-append : (s t : List Stamped) → 1 ≤ length s → first_ts (s ++ t) ≡ first_ts s
first_ts-append [] t h = absurd (omega arith)
first_ts-append (x ∷ s) t h = refl

-- A whole packet at the front is found again with more bytes behind it.
pub scan_frame-append :
    (p : Option Partial) (s t : List Stamped) (len seq : ℕ) (payload rest : Bytes)
    → IsFrame (bytes s) (frame len seq payload rest)
    → 4 + len ≤ length s
    → scan p (s ++ t)
      ≡ on_joined failed
          (λ q. scan (some q) (drop (4 + len) s ++ t))
          (λ q. ahead_of q (scan none (drop (4 + len) s ++ t)))
          (join p (first_ts s) len seq payload)
unfolding scan
scan_frame-append p s t len seq payload rest c room =
    let k = length (s ++ t) in
    let behind = drop (4 + len) s ++ t in
    let fits : length behind ≤ k =
      omega
        (arith, length-append s t, length-append (drop (4 + len) s) t, length-drop (4 + len) s) in
    scan_in-fuel k (suc k) p (s ++ t) (omega arith) (omega arith)
    ∙ unfold scan_in in
      rw
        (
          map-append_lem byte s t,
          c.2 (bytes t),
          scan_in,
          drop-append (4 + len) s t room,
          first_ts-append s t (omega arith),
        )
        (elim (join p (first_ts s) len seq payload)
          as (λ j.
            on_joined failed (λ q. scan_in k (some q) behind)
              (λ q. ahead_of q (scan_in k none behind)) j
            ≡ on_joined failed (λ q. scan (some q) behind) (λ q. ahead_of q (scan none behind)) j) [
              | overrun ↦ refl
              | more q ↦ scan_in-fuel k (length behind) (some q) behind fits (omega arith)
              | whole q ↦
                  ap (ahead_of q) (scan_in-fuel k (length behind) none behind fits (omega arith))
            ])

scan_in-append :
    (f : ℕ) (p : Option Partial) (s t : List Stamped)
    → length s ≤ f
    → scan p (s ++ t) ≡ extend t (scan_in f p s)
unfolding scan_in
scan_in-append zero p [] t h = refl
scan_in-append zero p (x ∷ s) t h = absurd (omega arith)
scan_in-append (suc f) p s t h =
    (elim (frame_at (bytes s))
        as (λ r.
          r ≡ frame_at (bytes s)
          → IsFrame (bytes s) r
          → scan p (s ++ t) ≡ extend t (on_frame (left s p) (scan_frame f p s) r)) [
            | short ↦ λ _ _. refl
            | frame len seq payload rest ↦ λ e c.
                let room : 4 + len ≤ length s = omega (arith, c.1, length-bytes s) in
                let shorter : length (drop (4 + len) s) ≤ f =
                  omega (arith, length-drop (4 + len) s, c.1, length-bytes s) in
                scan_frame-append p s t len seq payload rest c room
                ∙ (elim (join p (first_ts s) len seq payload)
                    as (λ j.
                      on_joined failed (λ q. scan (some q) (drop (4 + len) s ++ t))
                        (λ q. ahead_of q (scan none (drop (4 + len) s ++ t))) j
                      ≡ extend t (
                          on_joined failed (λ q. scan_in f (some q) (drop (4 + len) s))
                            (λ q. ahead_of q (scan_in f none (drop (4 + len) s))) j)) [
                              | overrun ↦ refl
                              | more q ↦ scan_in-append f (some q) (drop (4 + len) s) t shorter
                              | whole q ↦
                                  ap (ahead_of q)
                                    (scan_in-append f none (drop (4 + len) s) t shorter)
                                  ∙ extend-ahead_of t q (scan_in f none (drop (4 + len) s))
                            ])
          ])
      refl (frame_at-IsFrame (bytes s))

pub scan-append : (p : Option Partial) (s t : List Stamped) → scan p (s ++ t) ≡ extend t (scan p s)
unfolding scan
scan-append p s t = scan_in-append (length s) p s t (omega arith)
