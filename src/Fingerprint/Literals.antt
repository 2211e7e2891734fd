-- ===== src/Fingerprint/Literals.antt =====
-- The fingerprint of a query does not depend on what its string literals hold.
use avraham_sql_tools.Ascii.{is_digit, is_whitespace, to_lower}
use avraham_sql_tools.Base.{
  ℕ, Bool, true, not, ◌&&◌, ◌||◌, List, [], ◌∷◌, ◌++◌, false, ◌≡◌, refl, sym, ap, ◌∙◌, arith, ◌==◌,
  ltb, if◌then◌else◌, Bytes, All,
}
use avraham_sql_tools.Fingerprint.Scan.{
  skip_string_body, skip_string, push_lossy_lower, push_space, step_at, scan,
}
use avraham_sql_tools.Fingerprint.Bounds.{scan-cons}
use avraham_sql_tools.Fingerprint.Normalize.{finish, fingerprint}

-- What stands in a string literal, one after the other: a character that is neither the quote nor a
-- backslash, a backslash with the character that it escapes, or the quote twice.
pub data Piece : Type 0 where
  character escaped : ℕ → Piece
  doubled : Piece

-- The quote of a literal and what it holds.
abbrev pub Literal : Type 0
Literal = ℕ × List Piece

abbrev IsPiece : ℕ → Piece → Type 0
IsPiece q (character c) = (c == q || c == b'\\') ≡ false
IsPiece q (escaped c) = Unit
IsPiece q doubled = Unit

-- A literal in single or in double quotes.
abbrev IsLiteral : Literal → Type 0
IsLiteral (q, ps) = ((q == b'\'' || q == b'"') ≡ true) × All (IsPiece q) ps

-- The bytes behind the opening quote, with `rest` behind the literal.
pub inside : ℕ → List Piece → Bytes → Bytes
inside q [] rest = q ∷ rest
inside q (character c ∷ ps) rest = c ∷ inside q ps rest
inside q (escaped c ∷ ps) rest = b'\\' ∷ c ∷ inside q ps rest
inside q (doubled ∷ ps) rest = q ∷ q ∷ inside q ps rest

abbrev pub literal : Literal → Bytes → Bytes
literal (q, ps) rest = q ∷ inside q ps rest

-- What is behind a literal does not begin with a quote.
abbrev NoQuotes : Bytes → Type 0
NoQuotes [] = Unit
NoQuotes (d ∷ s) = (d == b'\'' || d == b'"') ≡ false

skip_string_body-character :
    (q c : ℕ) (ps : List Piece) (rest : Bytes)
    → (c == q || c == b'\\') ≡ false
    → skip_string_body q (c ∷ inside q ps rest) ≡ skip_string_body q (inside q ps rest)
unfolding skip_string_body inside
skip_string_body-character q c [] rest h = ground arith
skip_string_body-character q c (character d ∷ ps) rest h = ground arith
skip_string_body-character q c (escaped d ∷ ps) rest h = ground arith
skip_string_body-character q c (doubled ∷ ps) rest h = ground arith

skip_string_body-escaped :
    (q c : ℕ) (t : Bytes) → skip_string_body q (b'\\' ∷ c ∷ t) ≡ skip_string_body q t
unfolding skip_string_body
skip_string_body-escaped q c t = refl

skip_string_body-doubled :
    (q : ℕ) (t : Bytes) → skip_string_body q (q ∷ q ∷ t) ≡ skip_string_body q t
unfolding skip_string_body
skip_string_body-doubled q t = ground arith

skip_string_body-inside :
    (q : ℕ) (ps : List Piece) (rest : Bytes)
    → (q == b'\'' || q == b'"') ≡ true
    → All (IsPiece q) ps
    → NoQuotes rest
    → skip_string_body q (inside q ps rest) ≡ rest
unfolding inside
skip_string_body-inside q [] [] hq h end = unfold skip_string_body in refl
skip_string_body-inside q [] (d ∷ rest) hq h end = unfold skip_string_body in ground arith
skip_string_body-inside q (character c ∷ ps) rest hq (hc, h) end =
    skip_string_body-character q c ps rest hc ∙ skip_string_body-inside q ps rest hq h end
skip_string_body-inside q (escaped c ∷ ps) rest hq (hc, h) end =
    skip_string_body-escaped q c (inside q ps rest) ∙ skip_string_body-inside q ps rest hq h end
skip_string_body-inside q (doubled ∷ ps) rest hq (hc, h) end =
    skip_string_body-doubled q (inside q ps rest) ∙ skip_string_body-inside q ps rest hq h end

step_at-quote :
    (q : ℕ) (s out : Bytes)
    → (q == b'\'' || q == b'"') ≡ true
    → step_at q s out ≡ record { rest = skip_string_body q s; out = b'?' ∷ out }
unfolding step_at skip_string
step_at-quote q s out h = ground arith

scan-literal :
    (v : Literal) (rest out : Bytes)
    → IsLiteral v
    → NoQuotes rest
    → scan (literal v rest) out ≡ scan rest (b'?' ∷ out)
scan-literal (q, ps) rest out (hq, h) end =
    scan-cons q (inside q ps rest) out
    ∙ ap (λ t. scan t.rest t.out) (step_at-quote q (inside q ps rest) out hq)
    ∙ ap (λ t. scan t (b'?' ∷ out)) (skip_string_body-inside q ps rest hq h end)

-- A byte of which the main loop takes no other along: neither a quote, nor a digit or a period, nor
-- the begin of a comment or of a longer character.
abbrev pub plain : ℕ → Bool
plain c =
    ltb c 0x80
    && not (is_digit c)
    && not
        (c == b'\'' || c == b'"' || c == b'`' || c == b'/' || c == b'-' || c == b'#' || c == b'.')

push_plain : ℕ → Bytes → Bytes
unfolding push_space to_lower
push_plain c out = if is_whitespace c then push_space out else to_lower c ∷ out

push_lossy_lower_ascii :
    (c : ℕ) (s out : Bytes)
    → ltb c 0x80 ≡ true
    → push_lossy_lower c s out ≡ record { rest = s; out = to_lower c ∷ out }
unfolding push_lossy_lower
push_lossy_lower_ascii c s out h = rw h refl

step_at-plain :
    (c : ℕ) (s out : Bytes)
    → plain c ≡ true
    → step_at c s out ≡ record { rest = s; out = push_plain c out }
unfolding step_at push_plain
step_at-plain c s out h = ground (arith, push_lossy_lower_ascii c s out)

pushed : Bytes → Bytes → Bytes
pushed [] out = out
pushed (c ∷ p) out = pushed p (push_plain c out)

scan-plain :
    (p s out : Bytes) → All (λ c. plain c ≡ true) p → scan (p ++ s) out ≡ scan s (pushed p out)
unfolding pushed
scan-plain [] s out h = refl
scan-plain (c ∷ p) s out (hc, hp) =
    scan-cons c (p ++ s) out
    ∙ ap (λ t. scan t.rest t.out) (step_at-plain c (p ++ s) out hc)
    ∙ scan-plain p s (push_plain c out) hp

-- A text with a hole for a literal behind it: a byte at least, so that no two literals touch.
abbrev pub Text : Type 0
Text = ℕ × Bytes

abbrev PlainText : Text → Type 0
PlainText (c, p) = All (λ x. plain x ≡ true) (c ∷ p)

-- The query of these texts, with these literals in the holes, and the empty string where there are no
-- more of them.
pub fill : List Text → List Literal → Bytes → Bytes
fill [] values end = end
fill ((c, p) ∷ texts) [] end = (c ∷ p) ++ literal (b'\'', []) (fill texts [] end)
fill ((c, p) ∷ texts) (v ∷ values) end = (c ∷ p) ++ literal v (fill texts values end)

-- The output of the main loop on such a query.
outline : List Text → Bytes → Bytes → Bytes
outline [] end out = scan end out
outline ((c, p) ∷ texts) end out = outline texts end (b'?' ∷ pushed (c ∷ p) out)

fill-NoQuotes :
    (texts : List Text) (values : List Literal) (end : Bytes)
    → All PlainText texts
    → NoQuotes end
    → NoQuotes (fill texts values end)
unfolding fill
fill-NoQuotes [] values end h q = q
fill-NoQuotes ((c, p) ∷ texts) [] end h q = ground (arith, h.0.0)
fill-NoQuotes ((c, p) ∷ texts) (v ∷ values) end h q = ground (arith, h.0.0)

scan-fill :
    (texts : List Text) (values : List Literal) (end out : Bytes)
    → All PlainText texts
    → All IsLiteral values
    → NoQuotes end
    → scan (fill texts values end) out ≡ outline texts end out
unfolding fill outline
scan-fill [] values end out h hv q = refl
scan-fill ((c, p) ∷ texts) [] end out (hp, h) hv q =
    scan-plain (c ∷ p) (literal (b'\'', []) (fill texts [] end)) out hp
    ∙ scan-literal (b'\'', []) (fill texts [] end) (pushed (c ∷ p) out) (refl, tt)
        (fill-NoQuotes texts [] end h q)
    ∙ scan-fill texts [] end (b'?' ∷ pushed (c ∷ p) out) h hv q
scan-fill ((c, p) ∷ texts) (v ∷ values) end out (hp, h) (one, hv) q =
    scan-plain (c ∷ p) (literal v (fill texts values end)) out hp
    ∙ scan-literal v (fill texts values end) (pushed (c ∷ p) out) one
        (fill-NoQuotes texts values end h q)
    ∙ scan-fill texts values end (b'?' ∷ pushed (c ∷ p) out) h hv q

-- Two queries that differ only in their string literals have the same fingerprint. A literal is in
-- single or in double quotes, the two may differ in that, and holds any characters, escapes with a
-- backslash and doubled quotes. Before each literal stands plain text, not empty: ASCII without a digit,
-- a period, a quote, `/`, `-` and `#`. What follows the last one is any text that does not begin with
-- a single or a double quote.
pub fingerprint-fill :
    (texts : List Text) (values others : List Literal) (end : Bytes)
    → All PlainText texts
    → All IsLiteral values
    → All IsLiteral others
    → NoQuotes end
    → fingerprint (fill texts values end) ≡ fingerprint (fill texts others end)
unfolding fingerprint
fingerprint-fill texts values others end h hv ho q =
    ap finish (scan-fill texts values end [] h hv q ∙ sym (scan-fill texts others end [] h ho q))
