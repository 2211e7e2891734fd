-- ===== src/Utf8/Lossy.antt =====
-- `String::from_utf8_lossy`: each longest begin of a sequence that does not go on as one must, and
-- each byte that begins none, becomes U+FFFD.
use avraham_sql_tools.Base.{
  ℕ, zero, suc, List, [], ◌∷◌, ◌++◌, Option, none, some, if◌then◌else◌, Bytes, length,
}
use avraham_sql_tools.Utf8.{within, Range, followers}

-- What of a sequence is there: its bytes, whether it is whole, and the bytes behind.
pub record Piece : Type 0 where
  pub taken : Option Bytes
  pub rest : Bytes

abbrev pub grow : ℕ → Piece → Piece
grow c p = elim p.taken [ none ↦ p | some t ↦ record p { taken = some (c ∷ t) } ]

unfoldable pub follow : List Range → Bytes → Piece
follow [] s = record { taken = some []; rest = s }
follow (r ∷ rs) [] = record { taken = none; rest = [] }
follow (r ∷ rs) (c ∷ s) =
    let more = grow c (follow rs s) in
    if within r.0 r.1 c then more else record { taken = none; rest = c ∷ s }

unfoldable pub piece_at : ℕ → Bytes → Piece
unfolding followers follow
piece_at c s = elim (followers c) [
  | none ↦ record { taken = none; rest = s }
  | some rs ↦ grow c (follow rs s)
]

abbrev pub replacement : Bytes
replacement = 0xef ∷ 0xbf ∷ 0xbd ∷ []

abbrev pub shown : Option Bytes → Bytes
shown none = replacement
shown (some t) = t

-- On fuel; each round takes a byte at least.
unfoldable pub lossy_in : ℕ → Bytes → Bytes
unfolding piece_at
lossy_in fuel [] = []
lossy_in zero (c ∷ s) = []
lossy_in (suc fuel) (c ∷ s) = let p = piece_at c s in shown p.taken ++ lossy_in fuel p.rest

unfoldable pub from_utf8_lossy : Bytes → Bytes
unfolding lossy_in
from_utf8_lossy s = lossy_in (length s) s
