-- ===== src/Classify/Scanner.antt =====
-- `TokenScanner` of classify.rs.
use avraham_sql_tools.Ascii.{to_lower}
use avraham_sql_tools.Base.{
  ℕ, zero, suc, ◌+◌, ◌-◌, ◌%◌, ◌^◌, ◌&&◌, [], ◌∷◌, Option, none, some, map, ◌==◌, if◌then◌else◌,
  Bytes, length,
}
use avraham_sql_tools.Classify.Lexer.{
  is_quote, skip_quoted, skip_line, next_is, skip_comment, dash_comment, is_word_start, word_of,
  after_word,
}

-- `b` and `i` are the bytes from `i` on. The depths are the bit patterns of an `i32`.
pub record TokenScanner : Type 0 where
  pub rest : Bytes
  pub depth : ℕ
  pub word_depth : ℕ

abbrev pub i32_mod : ℕ
i32_mod = 2 ^ 32

abbrev pub new : Bytes → TokenScanner
new sql = record { rest = sql; depth = 0; word_depth = 0 }

-- What one round of the loop of `next_word` does: go on, or yield a word.
pub data Round : Type 0 where
  go : TokenScanner → Round
  word : Bytes → TokenScanner → Round

abbrev pub resume {ℓ} : {R : Type ℓ} → (TokenScanner → R) → (Bytes → TokenScanner → R) → Round → R
resume again yield (go t) = again t
resume again yield (word w t) = yield w t

-- The `match` at `b[i] = c`, with `s` the bytes behind it.
unfoldable pub scan_at : ℕ → Bytes → TokenScanner → Round
scan_at c s t =
    if c == b'('
    then go (record t { rest = s; depth = (t.depth + 1) % i32_mod })
    else if c == b')'
    then go (record t { rest = s; depth = (t.depth + i32_mod - 1) % i32_mod })
    else if is_quote c
    then go (record t { rest = skip_quoted (c ∷ s) })
    else if c == b'/' && next_is b'*' s
    then go (record t { rest = skip_comment s })
    else if c == b'-' && dash_comment s
    then go (record t { rest = skip_line (c ∷ s) })
    else if c == b'#'
    then go (record t { rest = skip_line (c ∷ s) })
    else if is_word_start c
    then word (map to_lower (word_of (c ∷ s)))
        (record t { rest = after_word (c ∷ s); word_depth = t.depth })
    else go (record t { rest = s })

-- One call of `next_word` with `fuel` rounds.
-- The loop of `next_word`, on fuel, over the bytes from `i` on.
unfoldable pub next_word_in : ℕ → Bytes → TokenScanner → Option (Bytes × TokenScanner)
next_word_in fuel [] t = none
next_word_in zero (c ∷ s) t = none
next_word_in (suc fuel) (c ∷ s) t =
    resume (λ t'. next_word_in fuel t'.rest t') (λ w t'. some (w, t')) (scan_at c s t)

-- Every round consumes a byte, so the length of the text is enough fuel.
unfoldable pub next_word : TokenScanner → Option (Bytes × TokenScanner)
unfolding next_word_in scan_at
next_word t = next_word_in (length t.rest) t.rest t
