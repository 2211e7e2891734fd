-- ===== src/Fingerprint/Scan.antt =====
-- The main loop of `fingerprint` and its helpers. A position `i` in `b` is the list of the bytes from
-- `i` on. The output string is kept in reverse, so that its last byte is at hand.
use avraham_sql_tools.Ascii.{is_digit, is_alphanumeric, is_whitespace, to_lower}
use avraham_sql_tools.Base.{
  ℕ, zero, suc, Bool, true, false, ◌&&◌, ◌||◌, [], ◌∷◌, ◌++◌, ◌==◌, leb, ltb, min, if◌then◌else◌,
  Bytes, length, take, drop,
}
use avraham_sql_tools.Utf8.{is_utf8, trim_end}
use mathlib.Core.List.{reverse}

-- The bytes from `i` on, and the output in reverse.
pub record State : Type 0 where
  pub rest : Bytes
  pub out : Bytes

abbrev pub next_is : ℕ → Bytes → Bool
next_is c [] = false
next_is c (d ∷ s) = d == c

abbrev pub next_digit : Bytes → Bool
next_digit [] = false
next_digit (d ∷ s) = is_digit d

-- The loop of `skip_string`, behind the opening quote; a step past the end ends it as `n`.
unfoldable pub skip_string_body : ℕ → Bytes → Bytes
skip_string_body quote [] = []
skip_string_body quote (c ∷ []) = []
skip_string_body quote (c ∷ d ∷ s) =
    let two = skip_string_body quote s in
    let one = skip_string_body quote (d ∷ s) in
    if c == b'\\' then two else if c == quote then (if d == quote then two else d ∷ s) else one

unfoldable pub skip_string : Bytes → Bytes
unfolding skip_string_body
skip_string [] = []
skip_string (quote ∷ s) = skip_string_body quote s

-- `while i < n && b[i].is_ascii_digit()`
unfoldable pub skip_digits : Bytes → Bytes
unfolding is_digit
skip_digits [] = []
skip_digits (c ∷ s) = if is_digit c then skip_digits s else c ∷ s

abbrev is_hex_digit : ℕ → Bool
is_hex_digit c = is_digit c || (leb b'a' c && leb c b'f') || (leb b'A' c && leb c b'F')

unfoldable pub skip_hex : Bytes → Bytes
unfolding is_digit
skip_hex [] = []
skip_hex (c ∷ s) = if is_hex_digit c then skip_hex s else c ∷ s

-- `.` and the digits behind it.
unfoldable pub skip_fraction : Bytes → Bytes
unfolding skip_digits
skip_fraction [] = []
skip_fraction (c ∷ s) = if c == b'.' then skip_digits s else c ∷ s

abbrev skip_sign : Bytes → Bytes
skip_sign [] = []
skip_sign (c ∷ s) = if c == b'+' || c == b'-' then s else c ∷ s

-- `(c | 0x20) == b'e'` holds of `e` and `E` alone.
unfoldable pub skip_exponent : Bytes → Bytes
unfolding skip_digits is_digit
skip_exponent [] = []
skip_exponent (c ∷ s) =
    if (c == b'e' || c == b'E') && next_digit (skip_sign s)
    then skip_digits (skip_sign s)
    else c ∷ s

abbrev is_x : Bytes → Bool
is_x [] = false
is_x (c ∷ s) = c == b'x' || c == b'X'

unfoldable pub skip_number : Bytes → Bytes
unfolding skip_hex skip_digits skip_fraction skip_exponent
skip_number [] = []
skip_number (c ∷ s) =
    if c == b'0' && is_x s
    then skip_hex (drop 1 s)
    else skip_exponent (skip_fraction (skip_digits (c ∷ s)))

unfoldable pub utf8_len : ℕ → ℕ
utf8_len first =
    if leb 0xc0 first && leb first 0xdf
    then 2
    else if leb 0xe0 first && leb first 0xef
    then 3
    else if leb 0xf0 first && leb first 0xf7
    then 4
    else 1

-- U+FFFD in UTF-8, in reverse.
abbrev replacement : Bytes
replacement = 0xbd ∷ 0xbf ∷ 0xef ∷ []

-- `push_lossy_lower` at `b[i] = c`, with `s` the bytes behind it.
unfoldable pub push_lossy_lower : ℕ → Bytes → Bytes → State
unfolding to_lower utf8_len
push_lossy_lower c s out =
    let len = min (utf8_len c) (length (c ∷ s)) in
    let chunk = take len (c ∷ s) in
    if ltb c 0x80
    then record { rest = s; out = to_lower c ∷ out }
    else if is_utf8 chunk
    then record { rest = drop len (c ∷ s); out = reverse chunk ++ out }
    else record { rest = s; out = replacement ++ out }

-- The last character of the output: a byte of 0x80 or more ends one that is not ASCII.
unfoldable pub ends_with_ident_char : Bytes → Bool
unfolding is_alphanumeric
ends_with_ident_char [] = false
ends_with_ident_char (c ∷ out) = is_alphanumeric c || c == b'_' || c == b'$' || leb 0x80 c

unfoldable pub push_space : Bytes → Bytes
push_space [] = []
push_space (c ∷ out) = if c == b' ' then c ∷ out else b' ' ∷ c ∷ out

-- The characters after which a sign cannot be a binary operator.
unfoldable pub is_operator : ℕ → Bool
is_operator c =
    c == b'('
    || c == b','
    || c == b'='
    || c == b'<'
    || c == b'>'
    || c == b'+'
    || c == b'-'
    || c == b'*'
    || c == b'/'
    || c == b'%'

unfoldable pub sign_is_unary : Bytes → Bool
unfolding is_operator
sign_is_unary [] = true
sign_is_unary (c ∷ out) = is_operator c

-- `fold_sign`, where `t` is the output with its white space at the end trimmed.
unfoldable pub fold_sign_at : Bytes → Bytes → Bytes
unfolding sign_is_unary
fold_sign_at out [] = out
fold_sign_at out (c ∷ t) =
    if c == b'-' || c == b'+' then (if sign_is_unary (trim_end t) then t else out) else out

unfoldable pub fold_sign : Bytes → Bytes
unfolding fold_sign_at
fold_sign out = fold_sign_at out (trim_end out)

-- `while i < n && b[i] != b'\n'`
unfoldable pub skip_line : Bytes → Bytes
skip_line [] = []
skip_line (c ∷ s) = if c == b'\n' then c ∷ s else skip_line s

-- Behind `/*`, up to `*/` and past it.
unfoldable pub skip_block : Bytes → Bytes
skip_block [] = []
skip_block (c ∷ []) = []
skip_block (c ∷ d ∷ s) = if c == b'*' && d == b'/' then s else skip_block (d ∷ s)

unfoldable pub ends_dashes : Bytes → Bool
unfolding is_whitespace
ends_dashes [] = true
ends_dashes (c ∷ s) = is_whitespace c

unfoldable pub dash_comment : Bytes → Bool
unfolding ends_dashes
dash_comment [] = false
dash_comment (d ∷ s) = d == b'-' && ends_dashes s

-- The loop behind an opening backtick, on fuel; each round takes a byte at least.
unfoldable pub backtick_in : ℕ → Bytes → Bytes → State
unfolding push_lossy_lower
backtick_in fuel [] out = record { rest = []; out = out }
backtick_in zero (c ∷ s) out = record { rest = c ∷ s; out = out }
backtick_in (suc fuel) (c ∷ s) out =
    let doubled = backtick_in fuel (drop 1 s) (b'`' ∷ b'`' ∷ out) in
    let pushed = push_lossy_lower c s out in
    let other = backtick_in fuel pushed.rest pushed.out in
    if c == b'`'
    then (if next_is b'`' s then doubled else record { rest = s; out = b'`' ∷ out })
    else other

-- A number, or a digit inside an identifier such as `t1`.
unfoldable pub number_at : ℕ → Bytes → Bytes → State
unfolding skip_number fold_sign ends_with_ident_char to_lower
number_at c s out =
    if ends_with_ident_char out
    then record { rest = s; out = to_lower c ∷ out }
    else record { rest = skip_number (c ∷ s); out = b'?' ∷ fold_sign out }

-- The `match` at `b[i] = c`, with `s` the bytes behind it.
unfoldable pub step_at : ℕ → Bytes → Bytes → State
step_at c s out =
    if c == b'\'' || c == b'"'
    then record { rest = skip_string (c ∷ s); out = b'?' ∷ out }
    else if c == b'`'
    then backtick_in (length s) s (b'`' ∷ out)
    else if c == b'/' && next_is b'*' s
    then record { rest = skip_block (drop 1 s); out = push_space out }
    else if c == b'-' && dash_comment s
    then record { rest = skip_line s; out = out }
    else if c == b'#'
    then record { rest = skip_line s; out = out }
    else if is_whitespace c
    then record { rest = s; out = push_space out }
    else if is_digit c || (c == b'.' && next_digit s)
    then number_at c s out
    else push_lossy_lower c s out

-- The main loop, on fuel; each round takes a byte at least.
unfoldable pub scan_in : ℕ → Bytes → Bytes → Bytes
scan_in fuel [] out = out
scan_in zero (c ∷ s) out = out
scan_in (suc fuel) (c ∷ s) out = let next = step_at c s out in scan_in fuel next.rest next.out

-- The output of the main loop, in reverse.
unfoldable pub scan : Bytes → Bytes → Bytes
unfolding scan_in
scan b out = scan_in (length b) b out
