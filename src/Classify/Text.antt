-- ===== src/Classify/Text.antt =====
-- What the gate makes of batches and of comments.
use avraham_sql_tools.Ascii.{is_whitespace, is_digit, is_alphabetic}
use avraham_sql_tools.Base.{
  ℕ, Bool, true, false, ◌||◌, ◌&&◌, ◌∙◌, [], ◌∷◌, ◌++◌, ◌≡◌, refl, ap, arith, ◌==◌, Bytes, codes,
  All,
}
use avraham_sql_tools.Classify.Bounds.{next_word_step, trails, trails_step}
use avraham_sql_tools.Classify.Gate.{write, on, trail_at, classify, has_trailing_statement}
use avraham_sql_tools.Classify.Lexer.{
  is_quote, skip_digits, skip_block, next_is, skip_comment, is_word_start, skip_line, dash_comment,
}
use avraham_sql_tools.Classify.Scanner.{new, go, scan_at}

-- Behind a dash: another one, and then white space or the end of the text.
abbrev starts_dashes : Bytes → Bool
starts_dashes [] = false
starts_dashes (d ∷ []) = d == b'-'
starts_dashes (d ∷ e ∷ s) = d == b'-' && is_whitespace e

dash_comment-starts_dashes : (s : Bytes) → dash_comment s ≡ starts_dashes s
unfolding dash_comment avraham_sql_tools.Classify.Lexer.ends_dashes
dash_comment-starts_dashes [] = refl
dash_comment-starts_dashes (d ∷ []) = ground arith
dash_comment-starts_dashes (d ∷ e ∷ s) = refl

-- A comment begins at `c`, with `s` behind it: a block comment, one with `#`, or dashes.
abbrev opens_comment : ℕ → Bytes → Bool
opens_comment c s = (c == b'/' && next_is b'*' s) || c == b'#' || (c == b'-' && starts_dashes s)

-- No byte of `p` begins a string or a comment, where `s` is behind `p`.
abbrev IsCode : Bytes → Bytes → Type 0
IsCode [] s = Unit
IsCode (c ∷ p) s =
    ((c == b'\'' || c == b'"' || c == b'`' || opens_comment c (p ++ s)) ≡ false) × IsCode p s

-- A byte that is no white space, no `;` and no beginning of a comment.
abbrev pub Starts : ℕ → Bytes → Type 0
Starts c s = (is_whitespace c || c == b';' || opens_comment c s) ≡ false

abbrev pub IsBlank : ℕ → Type 0
IsBlank c = is_whitespace c ≡ true

trails-blank :
    (ws : Bytes) (c : ℕ) (q : Bytes)
    → All IsBlank ws
    → Starts c q
    → trails (ws ++ c ∷ q) true ≡ true
unfolding trail_at
trails-blank [] c q _ h =
    rw (trails_step c q true) (ground (arith, h, dash_comment-starts_dashes q))
trails-blank (w ∷ ws) c q (hw, hs) h =
    rw (trails_step w (ws ++ c ∷ q) true) (ground (arith, trails-blank ws c q hs h, not_mark))
  where
    not_mark : (w == b'/' || w == b'#' || w == b'-') ≡ false
    not_mark = unfold is_whitespace in ground arith

trails-IsCode :
    (p s : Bytes) (after : Bool)
    → IsCode p (b';' ∷ s)
    → trails s true ≡ true
    → trails (p ++ b';' ∷ s) after ≡ true
unfolding trail_at
trails-IsCode [] s after _ h = rw (trails_step b';' s after) (unfold is_whitespace in h)
trails-IsCode (c ∷ p) s after (hc, hp) h = rw (trails_step c (p ++ b';' ∷ s) after) (
    ground (
      arith,
      hc,
      dash_comment-starts_dashes (p ++ b';' ∷ s),
      trails-IsCode p s after hp h,
      trails-IsCode p s true hp h,
    ))

-- A text with a `;` followed, after blanks, by a second statement is a write, whatever the first
-- statement is, where no string, quoted name or comment begins before the `;`. The second statement begins with any
-- byte that is no white space, no other `;` and no beginning of a comment.
pub classify_batch :
    (p ws : Bytes) (c : ℕ) (q : Bytes)
    → IsCode p (b';' ∷ (ws ++ c ∷ q))
    → All IsBlank ws
    → Starts c q
    → classify (p ++ b';' ∷ (ws ++ c ∷ q)) ≡ write
unfolding classify has_trailing_statement
classify_batch p ws c q hp hw h =
    rw (trails-IsCode p (ws ++ c ∷ q) false hp (trails-blank ws c q hw h)) refl

abbrev NoStar : ℕ → Type 0
NoStar c = (c == b'*') ≡ false

skip_block-body : (body s : Bytes) → All NoStar body → skip_block (body ++ b'*' ∷ b'/' ∷ s) ≡ s
unfolding skip_block
skip_block-body [] s _ = refl
skip_block-body (c ∷ []) s h = ground arith
skip_block-body (c ∷ d ∷ body) s (h, hs) = ground (arith, skip_block-body (d ∷ body) s hs)

classify_skip :
    (c : ℕ) (s r : Bytes)
    → trail_at c s false ≡ on false r
    → scan_at c s (new (c ∷ s)) ≡ go (new r)
    → classify (c ∷ s) ≡ classify r
unfolding classify has_trailing_statement
classify_skip c s r h k =
    rw (trails_step c s false, h, next_word_step c s (new (c ∷ s)) refl, k) refl

skip_comment-body :
    (body s : Bytes)
    → All NoStar body
    → next_is b'!' body ≡ false
    → skip_comment (b'*' ∷ (body ++ b'*' ∷ b'/' ∷ s)) ≡ s
unfolding skip_comment skip_block
skip_comment-body [] s _ _ = refl
skip_comment-body (c ∷ body) s h n = rw n (skip_block-body (c ∷ body) s h)

abbrev NoNewline : ℕ → Type 0
NoNewline c = (c == b'\n') ≡ false

skip_line-body : (body s : Bytes) → All NoNewline body → skip_line (body ++ b'\n' ∷ s) ≡ b'\n' ∷ s
unfolding skip_line
skip_line-body [] s _ = refl
skip_line-body (c ∷ body) s (h, hs) = rw h (skip_line-body body s hs)

classify_newline : (s : Bytes) → classify (b'\n' ∷ s) ≡ classify s
unfolding trail_at scan_at is_whitespace is_word_start is_alphabetic
classify_newline s = classify_skip b'\n' s s refl refl

-- The kinds of comments.
pub data Comment : Type 0 where
  block hash dashes : Bytes → Comment

-- What the comment may hold: a block no `*`, and no `!` at its front, which would make it one that MySQL
-- executes; the others no newline, and behind two dashes there is a blank.
abbrev IsComment : Comment → Type 0
IsComment (block body) = All NoStar body × (next_is b'!' body ≡ false)
IsComment (hash body) = All NoNewline body
IsComment (dashes body) = All NoNewline body

-- The bytes of a comment, the newline at its end included.
abbrev pub comment_text : Comment → Bytes → Bytes
comment_text (block body) s = b'/' ∷ b'*' ∷ (body ++ b'*' ∷ b'/' ∷ s)
comment_text (hash body) s = b'#' ∷ (body ++ b'\n' ∷ s)
comment_text (dashes body) s = b'-' ∷ b'-' ∷ b' ' ∷ (body ++ b'\n' ∷ s)

-- A comment before a statement does not change the statement's class: a block comment with no `*` in it
-- and no `!` at its front, one from `#` up to the newline, or one from two dashes and a space up to the
-- newline.
pub classify_comment :
    (c : Comment) (s : Bytes) → IsComment c → classify (comment_text c s) ≡ classify s
unfolding trail_at scan_at skip_line dash_comment avraham_sql_tools.Classify.Lexer.ends_dashes
    is_whitespace
classify_comment (block body) s (hb, hn) =
    classify_skip b'/' (b'*' ∷ (body ++ b'*' ∷ b'/' ∷ s)) s
      (ap (on false) (skip_comment-body body s hb hn))
      (ap (λ r. go (new r)) (skip_comment-body body s hb hn))
classify_comment (hash body) s h =
    classify_skip b'#' (body ++ b'\n' ∷ s) (b'\n' ∷ s) (ap (on false) (skip_line-body body s h))
      (ap (λ r. go (new r)) (skip_line-body body s h))
    ∙ classify_newline s
classify_comment (dashes body) s h =
    classify_skip b'-' (b'-' ∷ b' ' ∷ (body ++ b'\n' ∷ s)) (b'\n' ∷ s)
      (ap (on false) (skip_line-body body s h)) (ap (λ r. go (new r)) (skip_line-body body s h))
    ∙ classify_newline s

abbrev IsDigit : ℕ → Type 0
IsDigit c = is_digit c ≡ true

skip_digits-version :
    (v : Bytes) (c : ℕ) (s : Bytes)
    → All IsDigit v
    → is_digit c ≡ false
    → skip_digits (v ++ c ∷ s) ≡ c ∷ s
unfolding skip_digits
skip_digits-version [] c s _ h = rw h refl
skip_digits-version (d ∷ v) c s (hd, hv) h = rw hd (skip_digits-version v c s hv h)

-- The inside of a version-conditional comment, which MySQL executes, is classified as the statement
-- that it is: only the opener and the version digits are skipped.
pub classify_version_comment :
    (v : Bytes) (c : ℕ) (s : Bytes)
    → All IsDigit v
    → is_digit c ≡ false
    → classify (codes "/*!" ++ (v ++ c ∷ s)) ≡ classify (c ∷ s)
unfolding trail_at scan_at
classify_version_comment v c s hv h =
    classify_skip b'/' (b'*' ∷ b'!' ∷ (v ++ c ∷ s)) (c ∷ s) (ap (on false) skipped)
      (ap (λ r. go (new r)) skipped)
  where
    skipped : skip_comment (b'*' ∷ b'!' ∷ (v ++ c ∷ s)) ≡ c ∷ s
    skipped = unfold skip_comment in skip_digits-version v c s hv h
