-- ===== src/Wire/Interpolate.antt =====
-- `interpolate` of mysqlproto.rs. A position `i` in `sql` is the list of the bytes from `i` on, and
-- a slice `sql[start..i]` the bytes that the scan takes.
pub mod Fill
use avraham_sql_tools.Ascii.{is_whitespace}
use avraham_sql_tools.Base.{
  ℕ, zero, suc, ◌+◌, ◌/◌, Bool, true, false, not, ◌&&◌, ◌||◌, List, [], ◌∷◌, ◌++◌, Option, none,
  some, ◌>>=◌, ◌==◌, if◌then◌else◌, Bytes, length, get_elem?,
}

-- What a scan takes, and the bytes behind it.
pub record Span : Type 0 where
  pub taken : Bytes
  pub rest : Bytes

abbrev pub put : ℕ → Span → Span
put c s = record s { taken = c ∷ s.taken }

-- The loop behind an opening quote `q`. A backslash at the last byte takes that byte alone.
unfoldable pub quoted_span : ℕ → Bytes → Span
quoted_span q [] = record { taken = []; rest = [] }
quoted_span q (c ∷ []) = record { taken = c ∷ []; rest = [] }
quoted_span q (c ∷ d ∷ s) =
    let two = put c (put d (quoted_span q s)) in
    let one = put c (quoted_span q (d ∷ s)) in
    if c == b'\\' && not (q == b'`')
    then two
    else if c == q
    then (if d == q then two else record { taken = c ∷ []; rest = d ∷ s })
    else one

-- `while i < n && b[i] != b'\n'`
unfoldable pub line_span : Bytes → Span
line_span [] = record { taken = []; rest = [] }
line_span (c ∷ s) = if c == b'\n' then record { taken = []; rest = c ∷ s } else put c (line_span s)

-- Behind `/*`, up to the end of the comment.
unfoldable pub block_span : Bytes → Span
block_span [] = record { taken = []; rest = [] }
block_span (c ∷ []) = record { taken = c ∷ []; rest = [] }
block_span (c ∷ d ∷ s) =
    let one = put c (block_span (d ∷ s)) in
    if c == b'*' && d == b'/' then record { taken = c ∷ d ∷ []; rest = s } else one

-- `b & 0xc0 == 0x80`: a UTF-8 continuation byte.
unfoldable pub is_continuation : ℕ → Bool
is_continuation c = c / 64 == 2

-- `while i < n && b[i] & 0xc0 == 0x80`
unfoldable pub char_span : Bytes → Span
unfolding is_continuation
char_span [] = record { taken = []; rest = [] }
char_span (c ∷ s) =
    if is_continuation c then put c (char_span s) else record { taken = []; rest = c ∷ s }

abbrev pub next_is : ℕ → Bytes → Bool
next_is c [] = false
next_is c (d ∷ s) = d == c

-- `i >= n || b[i].is_ascii_whitespace()`
unfoldable pub ends_dashes : Bytes → Bool
ends_dashes [] = true
ends_dashes (c ∷ s) = is_whitespace c

unfoldable pub dash_comment : Bytes → Bool
unfolding ends_dashes
dash_comment [] = false
dash_comment (d ∷ s) = d == b'-' && ends_dashes s

-- Behind the `/` of `/*`.
unfoldable pub comment_span : Bytes → Span
unfolding block_span
comment_span [] = record { taken = []; rest = [] }
comment_span (star ∷ s) = put star (block_span s)

-- One round of the loop: a slice of `sql` is copied, or a `?` is met.
pub data Piece : Type 0 where
  copy : Span → Piece
  placeholder : Bytes → Piece

-- The `match` at `b[i] = c`, with `s` the bytes behind it.
unfoldable pub piece_at : ℕ → Bytes → Piece
unfolding quoted_span line_span comment_span char_span dash_comment
piece_at c s =
    if c == b'\'' || c == b'"' || c == b'`'
    then copy (put c (quoted_span c s))
    else if c == b'-' && dash_comment s
    then copy (put c (line_span s))
    else if c == b'#'
    then copy (put c (line_span s))
    else if c == b'/' && next_is b'*' s
    then copy (put c (comment_span s))
    else if c == b'?'
    then placeholder s
    else copy (put c (char_span s))

-- The output so far, and the count of values used.
pub record Filled : Type 0 where
  pub out : Bytes
  pub used : ℕ

abbrev pub on_piece {ℓ} : {R : Type ℓ} → (Span → R) → (Bytes → R) → Piece → R
on_piece f g (copy p) = f p
on_piece f g (placeholder s) = g s

abbrev pub fill {ℓ} : {R : Type ℓ} → R → (Bytes → R) → Option Bytes → R
fill e f none = e
fill e f (some v) = f v

-- The loop, on fuel, over the bytes from `i` on.
unfoldable pub interpolate_in : ℕ → List Bytes → Bytes → Filled → Option Filled
unfolding piece_at
interpolate_in fuel values [] st = some st
interpolate_in zero values (c ∷ s) st = none
interpolate_in (suc fuel) values (c ∷ s) st =
    on_piece (λ p. interpolate_in fuel values p.rest (record st { out = st.out ++ p.taken }))
      (λ r.
        fill none
          (λ v. interpolate_in fuel values r (record { out = st.out ++ v; used = st.used + 1 }))
          (get_elem? values st.used))
      (piece_at c s)

-- Every round takes a byte, so the length of the text is enough fuel.
unfoldable pub interpolate : Bytes → List Bytes → ℕ → Option Bytes
unfolding interpolate_in
interpolate sql values expected = do
  st ← interpolate_in (length sql) values sql (record { out = []; used = 0 })
  if st.used == expected then some st.out else none
