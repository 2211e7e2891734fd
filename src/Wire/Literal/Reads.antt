-- ===== src/Wire/Literal/Reads.antt =====
-- How a literal of `string_literal` and `bytes_literal` is read back: by MySQL's rules, and by the
-- scanners of the program, which find its end.
use avraham_sql_tools.Base.{
  ℕ, ◌+◌, ◌-◌, ◌*◌, ◌/◌, ◌%◌, ◌<◌, false, [], ◌∷◌, ◌++◌, append_assoc, Option, none, some, ◌≡◌, ◌≢◌,
  refl, ◌∙◌, ap, arith, ◌==◌, ltb, if◌then◌else◌, Bytes, All,
}
use avraham_sql_tools.Classify.Lexer
use avraham_sql_tools.Wire.Literal.{escape_char, escape, string_literal, hex_digit, hex}

-- The character that MySQL reads for a backslash and `c`. (`\%` and `\_`, which keep their backslash
-- there, are written by no function here.)
abbrev unescaped : ℕ → ℕ
unescaped c =
    if c == b'0'
    then 0
    else if c == b'n'
    then b'\n'
    else if c == b'r'
    then b'\r'
    else if c == b't'
    then b'\t'
    else if c == b'b'
    then 8
    else if c == b'Z'
    then 0x1a
    else c

abbrev cons_to : ℕ → Option (Bytes × Bytes) → Option (Bytes × Bytes)
cons_to c none = none
cons_to c (some (v, r)) = some (c ∷ v, r)

-- MySQL's reading of a single-quoted string behind its opening quote: the value and what follows.
pub read_body : Bytes → Option (Bytes × Bytes)
read_body [] = none
read_body (c ∷ []) = if c == b'\'' then some ([], []) else none
read_body (c ∷ d ∷ s) =
    let two = cons_to (if c == b'\\' then unescaped d else c) (read_body s) in
    let one = cons_to c (read_body (d ∷ s)) in
    if c == b'\\'
    then two
    else if c == b'\''
    then (if d == b'\'' then two else some ([], d ∷ s))
    else one

pub read_string : Bytes → Option (Bytes × Bytes)
unfolding read_body
read_string [] = none
read_string (c ∷ s) = if c == b'\'' then read_body s else none

-- What follows the literal does not go on with a quote.
abbrev pub NoQuote : Bytes → Type 0
NoQuote rest = Lexer.next_is b'\'' rest ≡ false

read_body-escape_char :
    (c d : ℕ) (s : Bytes) → read_body (escape_char c ++ d ∷ s) ≡ cons_to c (read_body (d ∷ s))
unfolding read_body escape_char
read_body-escape_char c d s = ground arith

read_body_end : (rest : Bytes) → NoQuote rest → read_body (b'\'' ∷ rest) ≡ some ([], rest)
unfolding read_body
read_body_end [] h = refl
read_body_end (d ∷ s) h = rw h refl

-- An escaped text is not empty unless the text is, so a next byte is there to look at.
read_body-step :
    (c : ℕ) (t : Bytes) → t ≢ [] → read_body (escape_char c ++ t) ≡ cons_to c (read_body t)
read_body-step c [] h = absurd (h refl)
read_body-step c (d ∷ t) h = read_body-escape_char c d t

pub end-ne-nil : (s : Bytes) (q : ℕ) (rest : Bytes) → s ++ q ∷ rest ≢ []
end-ne-nil [] q rest h = cc
end-ne-nil (c ∷ s) q rest h = cc

read_body-escape :
    (s rest : Bytes) → NoQuote rest → read_body (escape s ++ b'\'' ∷ rest) ≡ some (s, rest)
unfolding escape
read_body-escape [] rest h = read_body_end rest h
read_body-escape (c ∷ s) rest h = rw (append_assoc (escape_char c) (escape s) (b'\'' ∷ rest)) (
    read_body-step c (escape s ++ b'\'' ∷ rest) (end-ne-nil (escape s) b'\'' rest)
    ∙ ap (cons_to c) (read_body-escape s rest h))

pub literal-append :
    (s rest : Bytes) → string_literal s ++ rest ≡ b'\'' ∷ (escape s ++ b'\'' ∷ rest)
unfolding string_literal
literal-append s rest = ap (◌∷◌ b'\'') (append_assoc (escape s) (b'\'' ∷ []) rest)

-- MySQL reads the literal of a string as that string and stops behind it, whatever bytes the string
-- holds, if no quote follows the literal.
pub read_string-string_literal :
    (s rest : Bytes) → NoQuote rest → read_string (string_literal s ++ rest) ≡ some (s, rest)
unfolding read_string
read_string-string_literal s rest h = rw (literal-append s rest) (read_body-escape s rest h)

skip_body-step :
    (c : ℕ) (t : Bytes)
    → t ≢ []
    → Lexer.skip_body b'\'' (escape_char c ++ t) ≡ Lexer.skip_body b'\'' t
unfolding Lexer.skip_body escape_char
skip_body-step c [] h = absurd (h refl)
skip_body-step c (d ∷ t) h = ground arith

skip_body-escape :
    (s rest : Bytes) → NoQuote rest → Lexer.skip_body b'\'' (escape s ++ b'\'' ∷ rest) ≡ rest
unfolding escape
skip_body-escape [] [] h = unfold Lexer.skip_body in refl
skip_body-escape [] (d ∷ rest) h = unfold Lexer.skip_body in rw h refl
skip_body-escape (c ∷ s) rest h = rw (append_assoc (escape_char c) (escape s) (b'\'' ∷ rest)) (
    skip_body-step c (escape s ++ b'\'' ∷ rest) (end-ne-nil (escape s) b'\'' rest)
    ∙ skip_body-escape s rest h)

-- The safety gate's scanner skips the literal of any string as one quoted string, and goes on
-- behind it, if no quote follows.
pub skip_quoted-string_literal :
    (s rest : Bytes) → NoQuote rest → Lexer.skip_quoted (string_literal s ++ rest) ≡ rest
unfolding Lexer.skip_quoted
skip_quoted-string_literal s rest h = rw (literal-append s rest) (skip_body-escape s rest h)

abbrev hex_value : ℕ → ℕ
hex_value c = if ltb c b'A' then c - b'0' else c - b'A' + 10

pub unhex : Bytes → Bytes
unhex [] = []
unhex (c ∷ []) = []
unhex (c ∷ d ∷ s) = (hex_value c * 16 + hex_value d) ∷ unhex s

hex_value-hex_digit : (d : ℕ) → d < 16 → hex_value (hex_digit d) ≡ d
unfolding hex_digit
hex_value-hex_digit d h = ground arith

-- The digits of `hex` give the bytes back, for bytes below 256.
pub unhex-hex : (b : Bytes) → All (λ x. x < 256) b → unhex (hex b) ≡ b
unfolding unhex hex
unhex-hex [] _ = refl
unhex-hex (x ∷ b) (hx, hb) =
    rw
      (
        hex_value-hex_digit (x / 16) (omega arith),
        hex_value-hex_digit (x % 16) (omega arith),
        unhex-hex b hb,
      )
      (ap (λ v. v ∷ b) (omega arith))
