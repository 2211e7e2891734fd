-- ===== src/Classify/Case.antt =====
-- Letter case: the scans of classify.rs read a text and its lower-case form alike.
use avraham_sql_tools.Ascii.{is_whitespace, is_digit, is_alphabetic, is_alphanumeric, to_lower}
use avraham_sql_tools.Base.{
  ℕ, zero, suc, ◌≤◌, Bool, true, false, [], ◌∷◌, Option, none, some, map, ◌≡◌, refl, ◌∙◌, ap, sym,
  arith, inl, inr, List-cases, ◌==◌, Bytes, length,
}
use avraham_sql_tools.Classify.Bounds.{
  Consumes, scan_at-Consumes, next_word_step, next_word_end, ConsumesTrail, trail_at-Consumes,
  trails, trails_step,
}
use avraham_sql_tools.Classify.Gate.{
  Trail, found, on, proceed, trail_at, classify, has_trailing_statement,
}
use avraham_sql_tools.Classify.Lexer.{
  is_quote, skip_body, skip_quoted, skip_line, skip_digits, skip_block, next_is, skip_comment,
  dash_comment, is_word_start, is_word_byte, word_of, after_word,
}
use avraham_sql_tools.Classify.Tokens.{
  tokens, tokens_cons, tokens_end, NextWord-cases, classify-class_of,
}
use avraham_sql_tools.Classify.Scanner.{
  TokenScanner, new, Round, go, word, resume, scan_at, next_word,
}

-- `str::to_ascii_lowercase`
abbrev pub lower : Bytes → Bytes
lower = map to_lower

eq_lower : (c k : ℕ) → is_alphabetic k ≡ false → (to_lower c == k) ≡ (c == k)
unfolding to_lower is_alphabetic
eq_lower c k h = ground arith

to_lower_idem : (c : ℕ) → to_lower (to_lower c) ≡ to_lower c
unfolding to_lower
to_lower_idem c = ground arith

lower_idem : (s : Bytes) → lower (lower s) ≡ lower s
lower_idem [] = refl
lower_idem (c ∷ s) = cc (to_lower_idem c, lower_idem s)

is_word_byte-lower : (c : ℕ) → is_word_byte (to_lower c) ≡ is_word_byte c
unfolding is_word_byte is_alphanumeric to_lower
is_word_byte-lower c = ground arith

is_word_start-lower : (c : ℕ) → is_word_start (to_lower c) ≡ is_word_start c
unfolding is_word_start to_lower is_alphabetic
is_word_start-lower c = ground arith

is_digit-lower : (c : ℕ) → is_digit (to_lower c) ≡ is_digit c
unfolding is_digit to_lower
is_digit-lower c = ground arith

is_whitespace-lower : (c : ℕ) → is_whitespace (to_lower c) ≡ is_whitespace c
unfolding is_whitespace to_lower
is_whitespace-lower c = ground arith

skip_body-lower :
    (q : ℕ) (s : Bytes) → is_alphabetic q ≡ false → skip_body q (lower s) ≡ lower (skip_body q s)
unfolding skip_body
skip_body-lower q [] h = refl
skip_body-lower q (c ∷ []) h = refl
skip_body-lower q (c ∷ d ∷ s) h =
    rw (eq_lower c q h, eq_lower d q h, eq_lower c b'\\' (unfold is_alphabetic in refl))
      (ground (arith, skip_body-lower q s h, skip_body-lower q (d ∷ s) h))

skip_line-lower : (s : Bytes) → skip_line (lower s) ≡ lower (skip_line s)
unfolding skip_line to_lower
skip_line-lower [] = refl
skip_line-lower (c ∷ s) = ground (arith, skip_line-lower s)

skip_digits-lower : (s : Bytes) → skip_digits (lower s) ≡ lower (skip_digits s)
unfolding skip_digits
skip_digits-lower [] = refl
skip_digits-lower (c ∷ s) = ground (arith, is_digit-lower c, skip_digits-lower s)

skip_block-lower : (s : Bytes) → skip_block (lower s) ≡ lower (skip_block s)
unfolding skip_block to_lower
skip_block-lower [] = refl
skip_block-lower (c ∷ []) = refl
skip_block-lower (c ∷ d ∷ s) = ground (arith, skip_block-lower (d ∷ s))

skip_comment-lower : (s : Bytes) → skip_comment (lower s) ≡ lower (skip_comment s)
unfolding skip_comment to_lower
skip_comment-lower [] = refl
skip_comment-lower (c ∷ []) = refl
skip_comment-lower (c ∷ d ∷ s) = ground (arith, skip_block-lower (d ∷ s), skip_digits-lower s)

dash_comment-lower : (s : Bytes) → dash_comment (lower s) ≡ dash_comment s
unfolding dash_comment to_lower
dash_comment-lower [] = refl
dash_comment-lower (c ∷ []) = ground arith
dash_comment-lower (c ∷ d ∷ s) = ground (arith, is_whitespace-lower d)

word_of-lower : (s : Bytes) → lower (word_of (lower s)) ≡ lower (word_of s)
unfolding word_of
word_of-lower [] = refl
word_of-lower (c ∷ s) = ground (arith, is_word_byte-lower c, to_lower_idem c, word_of-lower s)

after_word-lower : (s : Bytes) → after_word (lower s) ≡ lower (after_word s)
unfolding after_word
after_word-lower [] = refl
after_word-lower (c ∷ s) = ground (arith, is_word_byte-lower c, after_word-lower s)

next_is-lower : (k : ℕ) (s : Bytes) → is_alphabetic k ≡ false → next_is k (lower s) ≡ next_is k s
next_is-lower k [] h = refl
next_is-lower k (c ∷ s) h = eq_lower c k h

skip_quoted-lower :
    (c : ℕ) (s : Bytes)
    → is_quote c ≡ true
    → skip_quoted (to_lower c ∷ lower s) ≡ lower (skip_quoted (c ∷ s))
unfolding skip_quoted
skip_quoted-lower c s h =
    let same : to_lower c ≡ c = unfold to_lower in ground arith in
    rw same (skip_body-lower c s (unfold is_alphabetic in ground arith))

abbrev lower_trail : Trail → Trail
lower_trail found = found
lower_trail (on b s) = on b (lower s)

trail_at-lower :
    (c : ℕ) (s : Bytes) (b : Bool)
    → trail_at (to_lower c) (lower s) b ≡ lower_trail (trail_at c s b)
unfolding trail_at is_alphabetic
trail_at-lower c s b =
    rw
      (
        eq_lower c b'/' refl,
        eq_lower c b'#' refl,
        eq_lower c b'-' refl,
        eq_lower c b';' refl,
        eq_lower c b'\'' refl,
        eq_lower c b'"' refl,
        eq_lower c b'`' refl,
        next_is-lower b'*' s refl,
        dash_comment-lower s,
        is_whitespace-lower c,
      )
      (ground (arith, skip_comment-lower s, skip_line-lower (c ∷ s), skip_quoted-lower c s))

trails-lower : (k : ℕ) (s : Bytes) (b : Bool) → length s ≤ k → trails (lower s) b ≡ trails s b
trails-lower k [] b p = refl
trails-lower zero (c ∷ s) b p = absurd (omega arith)
trails-lower (suc k) (c ∷ s) b p =
    trails_step (to_lower c) (lower s) b
    ∙ ap (proceed (λ b' s'. trails s' b')) (trail_at-lower c s b)
    ∙ (elim (trail_at c s b)
          as (λ r.
            ConsumesTrail s r
            → proceed (λ b' s'. trails s' b') (lower_trail r) ≡ proceed (λ b' s'. trails s' b') r) [
              | found ↦ λ h. refl
              | on b' s' ↦ λ h. trails-lower k s' b' (omega arith)
            ])
        (trail_at-Consumes c s b)
    ∙ sym (trails_step c s b)

abbrev lowered : TokenScanner → TokenScanner
lowered t = record t { rest = lower t.rest }

abbrev lower_round : Round → Round
lower_round (go t) = go (lowered t)
lower_round (word w t) = word w (lowered t)

scan_at-lower :
    (c : ℕ) (s : Bytes) (t : TokenScanner)
    → scan_at (to_lower c) (lower s) (lowered t) ≡ lower_round (scan_at c s t)
unfolding scan_at is_alphabetic
scan_at-lower c s t =
    rw
      (
        eq_lower c b'(' refl,
        eq_lower c b')' refl,
        eq_lower c b'/' refl,
        eq_lower c b'#' refl,
        eq_lower c b'-' refl,
        eq_lower c b'\'' refl,
        eq_lower c b'"' refl,
        eq_lower c b'`' refl,
        next_is-lower b'*' s refl,
        dash_comment-lower s,
        is_word_start-lower c,
      )
      (ground (
        arith,
        skip_comment-lower s,
        skip_line-lower (c ∷ s),
        skip_quoted-lower c s,
        word_of-lower (c ∷ s),
        after_word-lower (c ∷ s),
      ))

abbrev lower_next : Option (Bytes × TokenScanner) → Option (Bytes × TokenScanner)
lower_next none = none
lower_next (some (w, t)) = some (w, lowered t)

next_word-lower :
    (k : ℕ) (t : TokenScanner)
    → length t.rest ≤ k
    → next_word (lowered t) ≡ lower_next (next_word t)
next_word-lower zero t p = elim (List-cases t.rest) [
  | inl e ↦ next_word_end (lowered t) (ap lower e) ∙ sym (ap lower_next (next_word_end t e))
  | inr (c, s, e) ↦ absurd (unfold_length e)
]
  where
    unfold_length : {c : ℕ} {s : Bytes} → t.rest ≡ c ∷ s → ⊥
    unfold_length e = omega (arith, ap length e)
next_word-lower (suc k) t p = elim (List-cases t.rest) [
  | inl e ↦ next_word_end (lowered t) (ap lower e) ∙ sym (ap lower_next (next_word_end t e))
  | inr (c, s, e) ↦
      next_word_step (to_lower c) (lower s) (lowered t) (ap lower e)
      ∙ ap (resume next_word (λ w t'. some (w, t'))) (scan_at-lower c s t)
      ∙ (elim (scan_at c s t)
            as (λ r.
              Consumes s r
              → resume next_word (λ w t'. some (w, t')) (lower_round r)
                ≡ lower_next (resume next_word (λ w t'. some (w, t')) r)) [
                  | go u ↦ λ h. next_word-lower k u (omega (arith, ap length e))
                  | word w u ↦ λ h. refl
                ])
          (scan_at-Consumes c s t)
      ∙ sym (ap lower_next (next_word_step c s t e))
]

tokens-lower : (k : ℕ) (t : TokenScanner) → length t.rest ≤ k → tokens (lowered t) ≡ tokens t
tokens-lower zero t p = elim (NextWord-cases t) [
  | inl e ↦
      tokens_end (lowered t) (next_word-lower zero t p ∙ ap lower_next e) ∙ sym (tokens_end t e)
  | inr (w, t', e, lt) ↦ absurd (omega arith)
]
tokens-lower (suc k) t p = elim (NextWord-cases t) [
  | inl e ↦
      tokens_end (lowered t) (next_word-lower (length t.rest) t (omega arith) ∙ ap lower_next e)
      ∙ sym (tokens_end t e)
  | inr (w, t', e, lt) ↦
      tokens_cons (lowered t) (next_word-lower (length t.rest) t (omega arith) ∙ ap lower_next e)
      ∙ ap (◌∷◌ (w, t'.word_depth)) (tokens-lower k t' (omega arith))
      ∙ sym (tokens_cons t e)
]

-- The class of a statement does not depend on the case of its letters.
pub classify-lower : (sql : Bytes) → classify (lower sql) ≡ classify sql
unfolding has_trailing_statement
classify-lower sql =
    classify-class_of (lower sql)
    ∙ rw
        (
          trails-lower (length sql) sql false (omega arith),
          tokens-lower (length sql) (new sql) (omega arith),
        )
        refl
    ∙ sym (classify-class_of sql)
