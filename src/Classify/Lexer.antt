-- ===== src/Classify/Lexer.antt =====
-- The skips of classify.rs. A position `i` in `b` is the list of the bytes from `i` on, so
-- `i < n` is "not empty", `b[i + 1]` the second byte and `n` the empty list.
use avraham_sql_tools.Ascii.{is_digit, is_alphabetic, is_alphanumeric, is_whitespace}
use avraham_sql_tools.Base.{
  ℕ, Bool, true, false, not, ◌&&◌, ◌||◌, [], ◌∷◌, ◌==◌, if◌then◌else◌, Bytes,
}

abbrev pub is_quote : ℕ → Bool
is_quote c = c == b'\'' || c == b'"' || c == b'`'

-- The loop of `skip_quoted`, behind the opening quote. A step of two at the last byte leaves
-- `i = n + 1`, which the loop ends as `n`.
unfoldable pub skip_body : ℕ → Bytes → Bytes
skip_body quote [] = []
skip_body quote (c ∷ []) = []
skip_body quote (c ∷ d ∷ s) =
    let two = skip_body quote s in
    let one = skip_body quote (d ∷ s) in
    if c == b'\\' && not (quote == b'`')
    then two
    else if c == quote
    then (if d == quote then two else d ∷ s)
    else one

-- `skip_quoted(b, i)`, which is called at a quote.
unfoldable pub skip_quoted : Bytes → Bytes
unfolding skip_body
skip_quoted [] = []
skip_quoted (quote ∷ s) = skip_body quote s

-- `while i < n && b[i] != b'\n'`
unfoldable pub skip_line : Bytes → Bytes
skip_line [] = []
skip_line (c ∷ s) = if c == b'\n' then c ∷ s else skip_line s

-- `while i < n && b[i].is_ascii_digit()`
unfoldable pub skip_digits : Bytes → Bytes
skip_digits [] = []
skip_digits (c ∷ s) = if is_digit c then skip_digits s else c ∷ s

-- Behind `/*`: the loop up to `*/`, and `(i + 2).min(n)`.
unfoldable pub skip_block : Bytes → Bytes
skip_block [] = []
skip_block (c ∷ []) = []
skip_block (c ∷ d ∷ s) = if c == b'*' && d == b'/' then s else skip_block (d ∷ s)

-- `i < n && b[i] == c`
abbrev pub next_is : ℕ → Bytes → Bool
next_is c [] = false
next_is c (d ∷ s) = d == c

-- At `b[i..]` behind `/`: the comment, or what is inert of a `/*! ... */` comment.
unfoldable pub skip_comment : Bytes → Bytes
unfolding skip_block skip_digits
skip_comment [] = []
skip_comment (star ∷ []) = []
skip_comment (star ∷ c ∷ s) = if c == b'!' then skip_digits s else skip_block (c ∷ s)

-- `i >= n || b[i].is_ascii_whitespace()`
unfoldable pub ends_dashes : Bytes → Bool
ends_dashes [] = true
ends_dashes (c ∷ s) = is_whitespace c

-- At the bytes behind a first `-`: does a `--` comment begin there?
unfoldable pub dash_comment : Bytes → Bool
unfolding ends_dashes
dash_comment [] = false
dash_comment (d ∷ s) = d == b'-' && ends_dashes s

unfoldable pub is_word_start : ℕ → Bool
is_word_start c = is_alphabetic c || c == b'_'

unfoldable pub is_word_byte : ℕ → Bool
is_word_byte c = is_alphanumeric c || c == b'_' || c == b'$'

-- `b[start..i]` and `b[i..]` around the loop that reads a word.
unfoldable pub word_of : Bytes → Bytes
word_of [] = []
word_of (c ∷ s) = if is_word_byte c then c ∷ word_of s else []

unfoldable pub after_word : Bytes → Bytes
after_word [] = []
after_word (c ∷ s) = if is_word_byte c then after_word s else c ∷ s
