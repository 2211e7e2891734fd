-- ===== src/Slowlog/Statements.antt =====
-- The text of a statement of a slow log: its lines joined, and what is cut off at its end.
use avraham_sql_tools.Base.{
  ℕ, Bool, true, false, not, ◌&&◌, none, some, List, [], ◌∷◌, ◌++◌, append_assoc, ◌≡◌, ◌<◌, refl,
  sym, ap, ◌∙◌, arith, ◌==◌, Bytes, All, All-append, Option,
}
use avraham_sql_tools.Slowlog.Parser.{add_line, statement_text}
use avraham_sql_tools.Slowlog.Values.{trimmed_end}
use avraham_sql_tools.Utf8.{ascii_space, trim_end}
use avraham_sql_tools.Wire.UseTarget.{strip_last, strip_first}
use mathlib.Core.List.{reverse, reverse-append, reverse-reverse, reverse-cons}

-- Lines one after the other, with a newline between two of them.
unfoldable pub join : Bytes → List Bytes → Bytes
join line [] = line
join line (next ∷ lines) = line ++ b'\n' ∷ join next lines

-- The buffer behind more lines.
unfoldable pub add_lines : Bytes → List Bytes → Bytes
add_lines b [] = b
add_lines b (line ∷ lines) = add_lines (add_line b line) lines

join-append : (a b : Bytes) (lines : List Bytes) → join (a ++ b) lines ≡ a ++ join b lines
unfolding join
join-append a b [] = refl
join-append a b (next ∷ lines) = append_assoc a b (b'\n' ∷ join next lines)

pub add_lines-join :
    (c : ℕ) (b : Bytes) (lines : List Bytes) → add_lines (c ∷ b) lines ≡ join (c ∷ b) lines
unfolding add_lines join
add_lines-join c b [] = refl
add_lines-join c b (line ∷ lines) =
    add_lines-join c (b ++ b'\n' ∷ line) lines
    ∙ join-append (c ∷ b) (b'\n' ∷ line) lines
    ∙ ap (◌++◌ (c ∷ b)) (join-append (b'\n' ∷ []) line lines)

abbrev pub IsSpace : ℕ → Type 0
IsSpace c = ascii_space c ≡ true

-- An ASCII character that is not white space.
abbrev pub IsShown : ℕ → Type 0
IsShown c = (c < 128) × (ascii_space c ≡ false)

trim_end-blanks : (w r : Bytes) → All IsSpace w → trim_end (w ++ r) ≡ trim_end r
unfolding trim_end
trim_end-blanks [] r h = refl
trim_end-blanks (a ∷ w) r (ha, h) = skip (w ++ r) ∙ trim_end-blanks w r h
  where
    skip : (s : Bytes) → trim_end (a ∷ s) ≡ trim_end s
    skip [] = rw ha refl
    skip (b ∷ []) = rw ha refl
    skip (b ∷ c ∷ s) = rw ha refl

trim_end-shown : (c : ℕ) (r : Bytes) → IsShown c → trim_end (c ∷ r) ≡ c ∷ r
unfolding trim_end
trim_end-shown c [] (small, h) = rw h refl
trim_end-shown c (b ∷ []) (small, h) = ground arith
trim_end-shown c (b ∷ a ∷ r) (small, h) = ground arith

All-reverse : (w : Bytes) → All IsSpace w → All IsSpace (reverse w)
All-reverse [] h = h
All-reverse (c ∷ w) (hc, h) =
    rw (reverse-cons c w) (All-append IsSpace (reverse w) (c ∷ []) (All-reverse w h) (hc, tt))

trimmed_end-blanks : (p w : Bytes) → All IsSpace w → trimmed_end (p ++ w) ≡ trimmed_end p
trimmed_end-blanks p w h =
    ap (λ r. reverse (trim_end r)) (reverse-append p w)
    ∙ ap reverse (trim_end-blanks (reverse w) (reverse p) (All-reverse w h))

trimmed_end-shown : (p : Bytes) (c : ℕ) → IsShown c → trimmed_end (p ++ c ∷ []) ≡ p ++ c ∷ []
trimmed_end-shown p c h =
    ap (λ r. reverse (trim_end r)) (reverse-append p (c ∷ []))
    ∙ ap reverse (trim_end-shown c (reverse p) h)
    ∙ reverse-cons c (reverse p)
    ∙ ap (λ r. r ++ c ∷ []) (reverse-reverse p)

-- `strip_last` of a semicolon, from the bytes in reverse.
abbrev unreversed : Bytes → Option Bytes
unreversed r = elim (strip_first b';' r) [ none ↦ none | some t ↦ some (reverse t) ]

strip_last-other : (p : Bytes) (c : ℕ) → c == b';' ≡ false → strip_last b';' (p ++ c ∷ []) ≡ none
unfolding strip_last
strip_last-other p c h = ap unreversed (reverse-append p (c ∷ [])) ∙ rw (unreversed, h) refl

strip_last-semicolon : (p : Bytes) → strip_last b';' (p ++ b';' ∷ []) ≡ some p
unfolding strip_last
strip_last-semicolon p = ap unreversed (reverse-append p (b';' ∷ [])) ∙ ap some (reverse-reverse p)

-- A semicolon, or nothing.
abbrev pub closing : Bool → Bytes
closing true = b';' ∷ []
closing false = []

-- What `statement_text` makes of the text without the blanks at its end.
abbrev cut : Bytes → Bytes
cut q = elim (strip_last b';' q) [ none ↦ q | some t ↦ trimmed_end t ]

pub statement_text-closing :
    (p : Bytes) (c : ℕ) (v : Bytes) (closed : Bool) (w : Bytes)
    → IsShown c
    → (not closed && c == b';') ≡ false
    → All IsSpace v
    → All IsSpace w
    → statement_text ((p ++ c ∷ []) ++ (v ++ (closing closed ++ w))) ≡ p ++ c ∷ []
unfolding statement_text
statement_text-closing p c v true w hc other hv hw =
    let q = p ++ c ∷ [] in
    let apart : q ++ (v ++ (b';' ∷ w)) ≡ ((q ++ v) ++ b';' ∷ []) ++ w =
      sym (append_assoc q v (b';' ∷ w)) ∙ sym (append_assoc (q ++ v) (b';' ∷ []) w) in
    ap (λ t. cut (trimmed_end t)) apart
    ∙ ap cut (
        trimmed_end-blanks ((q ++ v) ++ b';' ∷ []) w hw
        ∙ trimmed_end-shown (q ++ v) b';' (omega arith, refl))
    ∙ rw (cut, strip_last-semicolon (q ++ v)) (trimmed_end-blanks q v hv ∙ trimmed_end-shown p c hc)
statement_text-closing p c v false w hc other hv hw =
    let q = p ++ c ∷ [] in
    ap (λ t. cut (trimmed_end t)) (sym (append_assoc q v w))
    ∙ ap cut
        (trimmed_end-blanks (q ++ v) w hw ∙ trimmed_end-blanks q v hv ∙ trimmed_end-shown p c hc)
    ∙ rw (cut, strip_last-other p c other) refl
