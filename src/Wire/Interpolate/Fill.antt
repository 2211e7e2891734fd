-- ===== src/Wire/Interpolate/Fill.antt =====
-- `interpolate` against a specification: the statement cut into copied texts and placeholders.
use avraham_sql_tools.Base.{
  ℕ, zero, suc, ◌+◌, ◌-◌, ◌≤◌, inl, inr, List, [], ◌∷◌, ◌++◌, Option, none, some, ◌≡◌, refl, ◌∙◌,
  ap, arith, append_assoc, append-nil, ◌==◌, leb, le→leb, if◌then◌else◌, Bytes, codes, length,
  get_elem?, drop, replicate, length-replicate, drop-get_elem?, get_elem?-lt, get_elem?-none,
  Option-cases,
}
use avraham_sql_tools.Wire.Interpolate.{
  Span, put, quoted_span, line_span, block_span, char_span, comment_span, Piece, copy, placeholder,
  piece_at, Filled, on_piece, fill, interpolate_in, interpolate,
}

-- A copied text, or a placeholder.
abbrev pub Part : Type 0
Part = Option Bytes

parts_in : ℕ → Bytes → List Part
parts_in fuel [] = []
parts_in zero (c ∷ s) = []
parts_in (suc fuel) (c ∷ s) =
    on_piece (λ p. some p.taken ∷ parts_in fuel p.rest) (λ r. none ∷ parts_in fuel r) (piece_at c s)

unfoldable pub parts : Bytes → List Part
unfolding parts_in
parts sql = parts_in (length sql) sql

abbrev pub placeholders : List Part → ℕ
placeholders [] = 0
placeholders (none ∷ ps) = suc (placeholders ps)
placeholders (some t ∷ ps) = placeholders ps

-- The parts with the values put in for the placeholders, in order.
abbrev pub text : List Bytes → List Part → Bytes
text values [] = []
text values (some t ∷ ps) = t ++ text values ps
text [] (none ∷ ps) = text [] ps
text (v ∷ values) (none ∷ ps) = v ++ text values ps

-- A span is a cut of the text that it scans.
abbrev Cuts : Bytes → Span → Type 0
Cuts s p = (p.taken ++ p.rest ≡ s) × (length p.rest ≤ length s)

Cuts-put : (c : ℕ) (s : Bytes) (p : Span) → Cuts s p → Cuts (c ∷ s) (put c p)
Cuts-put c s p (e, l) = (ap (◌∷◌ c) e, omega arith)

quoted_span-Cuts : (q : ℕ) (s : Bytes) → Cuts s (quoted_span q s)
unfolding quoted_span
quoted_span-Cuts q [] = (refl, omega arith)
quoted_span-Cuts q (c ∷ []) = (refl, omega arith)
quoted_span-Cuts q (c ∷ d ∷ s) = ground (arith, quoted_span-Cuts q s, quoted_span-Cuts q (d ∷ s))

line_span-Cuts : (s : Bytes) → Cuts s (line_span s)
unfolding line_span
line_span-Cuts [] = (refl, omega arith)
line_span-Cuts (c ∷ s) = ground (arith, line_span-Cuts s)

block_span-Cuts : (s : Bytes) → Cuts s (block_span s)
unfolding block_span
block_span-Cuts [] = (refl, omega arith)
block_span-Cuts (c ∷ []) = (refl, omega arith)
block_span-Cuts (c ∷ d ∷ s) = ground (arith, block_span-Cuts (d ∷ s))

char_span-Cuts : (s : Bytes) → Cuts s (char_span s)
unfolding char_span
char_span-Cuts [] = (refl, omega arith)
char_span-Cuts (c ∷ s) = ground (arith, char_span-Cuts s)

comment_span-Cuts : (s : Bytes) → Cuts s (comment_span s)
unfolding comment_span
comment_span-Cuts [] = (refl, omega arith)
comment_span-Cuts (c ∷ s) = Cuts-put c s (block_span s) (block_span-Cuts s)

-- What a round takes, and that it takes a byte at least.
abbrev Takes : ℕ → Bytes → Piece → Type 0
Takes c s (copy p) = (p.taken ++ p.rest ≡ c ∷ s) × (length p.rest ≤ length s)
Takes c s (placeholder r) = (c ≡ b'?') × (r ≡ s)

piece_at-Takes : (c : ℕ) (s : Bytes) → Takes c s (piece_at c s)
unfolding piece_at
piece_at-Takes c s =
    ground (arith, quoted_span-Cuts c s, line_span-Cuts s, comment_span-Cuts s, char_span-Cuts s)

text_next :
    (k : ℕ) (v : Bytes) (ps : List Part)
    → 1 ≤ k
    → text (replicate k v) (none ∷ ps) ≡ v ++ text (replicate (k - 1) v) ps
text_next zero v ps h = absurd (omega arith)
text_next (suc k) v ps h = let same : suc k - 1 ≡ k = omega arith in rw same refl

abbrev copied : ℕ → Span → List Part
copied f p = some p.taken ∷ parts_in f p.rest

abbrev held : ℕ → Bytes → List Part
held f r = none ∷ parts_in f r

-- Cutting loses nothing: with `?` for each placeholder the parts spell the statement.
text-parts_in :
    (f k : ℕ) (s : Bytes)
    → length s ≤ f
    → placeholders (parts_in f s) ≤ k
    → text (replicate k (codes "?")) (parts_in f s) ≡ s
unfolding parts_in
text-parts_in zero k [] p q = refl
text-parts_in zero k (c ∷ s) p q = absurd (omega arith)
text-parts_in (suc f) k [] p q = refl
text-parts_in (suc f) k (c ∷ s) p q =
    (elim (piece_at c s)
        as (λ x.
          Takes c s x
          → placeholders (on_piece (copied f) (held f) x) ≤ k
          → text (replicate k (codes "?")) (on_piece (copied f) (held f) x) ≡ c ∷ s) [
            | copy y ↦ λ t h. ap (◌++◌ y.taken) (text-parts_in f k y.rest (omega arith) h) ∙ t.0
            | placeholder r ↦ λ t h.
                text_next k (codes "?") (parts_in f r) (omega arith)
                ∙ ap (◌∷◌ b'?') (text-parts_in f (k - 1) r (rw t.1 (omega arith)) (omega arith))
                ∙ rw (t.0, t.1)
          ])
      (piece_at-Takes c s) q

-- The result of the loop, by the parts that are left.
abbrev filled : List Bytes → List Part → Filled → Option Filled
filled values ps st =
    if leb (st.used + placeholders ps) (length values)
    then some
        (record { out = st.out ++ text (drop st.used values) ps; used = st.used + placeholders ps })
    else none

filled-copy :
    (values : List Bytes) (t : Bytes) (ps : List Part) (st : Filled)
    → filled values ps (record st { out = st.out ++ t }) ≡ filled values (some t ∷ ps) st
filled-copy values t ps st = rw (append_assoc st.out t (text (drop st.used values) ps)) refl

filled-none :
    (values : List Bytes) (ps : List Part) (st : Filled)
    → get_elem? values st.used ≡ none
    → none ≡ filled values (none ∷ ps) st
filled-none values ps st e = ground (arith, get_elem?-none values st.used e)

filled-some :
    (values : List Bytes) (ps : List Part) (st : Filled) {v : Bytes}
    → get_elem? values st.used ≡ some v
    → filled values ps (record { out = st.out ++ v; used = st.used + 1 })
      ≡ filled values (none ∷ ps) st
filled-some values ps st {v} e =
    let next : st.used + 1 ≡ suc st.used = omega arith in
    let count : suc st.used + placeholders ps ≡ st.used + suc (placeholders ps) = omega arith in
    rw
      (
        next,
        count,
        drop-get_elem? values st.used e,
        append_assoc st.out v (text (drop (suc st.used) values) ps),
      )
      refl

filled-nil :
    (values : List Bytes) (st : Filled) → st.used ≤ length values → some st ≡ filled values [] st
filled-nil values st h =
    let same : st.used + 0 ≡ st.used = omega arith in
    rw (same, le→leb st.used (length values) h, append-nil) refl

abbrev again_copy : ℕ → List Bytes → Filled → Span → Option Filled
again_copy f values st p = interpolate_in f values p.rest (record st { out = st.out ++ p.taken })

abbrev again_held : ℕ → List Bytes → Filled → Bytes → Option Filled
again_held f values st r =
    fill none (λ v. interpolate_in f values r (record { out = st.out ++ v; used = st.used + 1 }))
      (get_elem? values st.used)

interpolate_in-filled :
    (f : ℕ) (values : List Bytes) (s : Bytes) (st : Filled)
    → length s ≤ f
    → st.used ≤ length values
    → interpolate_in f values s st ≡ filled values (parts_in f s) st
unfolding interpolate_in parts_in
interpolate_in-filled zero values [] st p q = filled-nil values st q
interpolate_in-filled zero values (c ∷ s) st p q = absurd (omega arith)
interpolate_in-filled (suc f) values [] st p q = filled-nil values st q
interpolate_in-filled (suc f) values (c ∷ s) st p q =
    (elim (piece_at c s)
        as (λ x.
          Takes c s x
          → on_piece (again_copy f values st) (again_held f values st) x
            ≡ filled values (on_piece (copied f) (held f) x) st) [
              | copy y ↦ λ t.
                  interpolate_in-filled f values y.rest (record st { out = st.out ++ y.taken })
                    (omega arith) q
                  ∙ filled-copy values y.taken (parts_in f y.rest) st
              | placeholder r ↦ λ t. elim (Option-cases (get_elem? values st.used)) [
                | inl e ↦ rw (e, again_held, fill) (filled-none values (parts_in f r) st e)
                | inr (v, e) ↦
                    rw (e, again_held, fill)
                      (interpolate_in-filled f values r
                          (record { out = st.out ++ v; used = st.used + 1 }) (rw t.1 (omega arith))
                          (omega (arith, get_elem?-lt values st.used e))
                        ∙ filled-some values (parts_in f r) st e)
              ]
            ])
      (piece_at-Takes c s)

-- `interpolate` gives a result exactly when the statement has `expected` placeholders and there is a
-- value for each, and the result is the statement with the values put in for them, in order.
pub interpolate-text :
    (sql : Bytes) (values : List Bytes) (expected : ℕ)
    → interpolate sql values expected ≡ (
        if leb (placeholders (parts sql)) (length values)
        then (if placeholders (parts sql) == expected then some (text values (parts sql)) else none)
        else none)
unfolding interpolate parts
interpolate-text sql values expected =
    rw
      (interpolate_in-filled (length sql) values sql (record { out = []; used = 0 }) (omega arith)
        (omega arith))
      (ground (arith))

-- With `?` itself for every placeholder, `interpolate` gives the statement back.
pub interpolate_self :
    (sql : Bytes)
    → let n = placeholders (parts sql) in interpolate sql (replicate n (codes "?")) n ≡ some sql
unfolding parts
interpolate_self sql =
    let n = placeholders (parts sql) in
    rw (interpolate-text sql (replicate n (codes "?")) n, length-replicate n (codes "?"))
      (ground (arith, text-parts_in (length sql) n sql))
