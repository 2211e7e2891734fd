-- ===== src/Classify/Bounds.antt =====
-- Every step of the scans of classify.rs consumes bytes, so their fuel is enough.
use avraham_sql_tools.Ascii.{is_whitespace}
use avraham_sql_tools.Base.{
  ℕ, zero, suc, ◌≤◌, ◌<◌, Bool, true, false, [], ◌∷◌, Option, none, some, ◌≡◌, refl, arith, ◌==◌,
  Bytes, length,
}
use avraham_sql_tools.Classify.Lexer.{
  skip_body, skip_quoted, skip_line, skip_digits, skip_block, skip_comment, is_word_start,
  is_word_byte, after_word,
}
use avraham_sql_tools.Classify.Scanner.{
  TokenScanner, Round, go, word, resume, scan_at, next_word_in, next_word,
}
use avraham_sql_tools.Classify.Gate.{Trail, found, on, proceed, trail_at, trail_in}

pub length-skip_body : (q : ℕ) (s : Bytes) → length (skip_body q s) ≤ length s
unfolding skip_body
length-skip_body q [] = omega arith
length-skip_body q (c ∷ []) = omega arith
length-skip_body q (c ∷ d ∷ s) = ground (arith, length-skip_body q s, length-skip_body q (d ∷ s))

pub length-skip_line : (s : Bytes) → length (skip_line s) ≤ length s
unfolding skip_line
length-skip_line [] = omega arith
length-skip_line (c ∷ s) = ground (arith, length-skip_line s)

length-skip_digits : (s : Bytes) → length (skip_digits s) ≤ length s
unfolding skip_digits
length-skip_digits [] = omega arith
length-skip_digits (c ∷ s) = ground (arith, length-skip_digits s)

length-skip_block : (s : Bytes) → length (skip_block s) ≤ length s
unfolding skip_block
length-skip_block [] = omega arith
length-skip_block (c ∷ []) = omega arith
length-skip_block (c ∷ d ∷ s) = ground (arith, length-skip_block (d ∷ s))

length-skip_comment : (s : Bytes) → length (skip_comment s) ≤ length s
unfolding skip_comment
length-skip_comment [] = omega arith
length-skip_comment (c ∷ []) = omega arith
length-skip_comment (c ∷ d ∷ s) = ground (arith, length-skip_block (d ∷ s), length-skip_digits s)

pub length-after_word : (s : Bytes) → length (after_word s) ≤ length s
unfolding after_word
length-after_word [] = omega arith
length-after_word (c ∷ s) = ground (arith, length-after_word s)

pub is_word_byte-start : (c : ℕ) → is_word_start c ≡ true → is_word_byte c ≡ true
unfolding is_word_start is_word_byte avraham_sql_tools.Ascii.is_alphanumeric
is_word_byte-start c h = ground arith

abbrev pub Consumes : Bytes → Round → Type 0
Consumes s (go t) = length t.rest ≤ length s
Consumes s (word w t) = length t.rest ≤ length s

pub scan_at-Consumes : (c : ℕ) (s : Bytes) (t : TokenScanner) → Consumes s (scan_at c s t)
unfolding scan_at skip_quoted
scan_at-Consumes c s t = ground (
  arith,
  length-skip_body c s,
  length-skip_comment s,
  line (c ∷ s),
  length-skip_line s,
  length-after_word s,
  is_word_byte-start c,
  line_tail,
  word_tail,
)
  where
    line : (s : Bytes) → length (skip_line s) ≤ length s
    line s = length-skip_line s

    line_tail : (c == b'\n') ≡ false → skip_line (c ∷ s) ≡ skip_line s
    line_tail h = unfold skip_line in rw h

    word_tail : is_word_byte c ≡ true → after_word (c ∷ s) ≡ after_word s
    word_tail h = unfold after_word in rw h

abbrev again : ℕ → TokenScanner → Option (Bytes × TokenScanner)
again f t = next_word_in f t.rest t

abbrev yield : Bytes → TokenScanner → Option (Bytes × TokenScanner)
yield w t = some (w, t)

pub next_word_in-fuel :
    (f g : ℕ) (s : Bytes) (t : TokenScanner)
    → length s ≤ f
    → length s ≤ g
    → next_word_in f s t ≡ next_word_in g s t
unfolding next_word_in
next_word_in-fuel zero zero s t p q = refl
next_word_in-fuel zero (suc g) [] t p q = refl
next_word_in-fuel zero (suc g) (c ∷ s) t p q = absurd (omega arith)
next_word_in-fuel (suc f) zero [] t p q = refl
next_word_in-fuel (suc f) zero (c ∷ s) t p q = absurd (omega arith)
next_word_in-fuel (suc f) (suc g) [] t p q = refl
next_word_in-fuel (suc f) (suc g) (c ∷ s) t p q =
    (elim (scan_at c s t)
        as (λ r. Consumes s r → resume (again f) yield r ≡ resume (again g) yield r) [
          | go t' ↦ λ h. next_word_in-fuel f g t'.rest t' (omega arith) (omega arith)
          | word w t' ↦ λ h. refl
        ])
      (scan_at-Consumes c s t)

-- `next_word` goes round its loop: it skips on, or yields the word that it is at.
pub next_word_step :
    (c : ℕ) (s : Bytes) (t : TokenScanner)
    → t.rest ≡ c ∷ s
    → next_word t ≡ resume next_word (λ w t'. some (w, t')) (scan_at c s t)
unfolding next_word
next_word_step c s t e = rw e (
    unfold next_word_in in
    (elim (scan_at c s t)
        as (λ r. Consumes s r → resume (again (length s)) yield r ≡ resume next_word yield r) [
          | go t' ↦ λ h. next_word_in-fuel (length s) (length t'.rest) t'.rest t' h (omega arith)
          | word w t' ↦ λ h. refl
        ])
      (scan_at-Consumes c s t))

pub next_word_end : (t : TokenScanner) → t.rest ≡ [] → next_word t ≡ none
unfolding next_word next_word_in
next_word_end t e = rw e refl

next_word_in-lt :
    (f : ℕ) (s : Bytes) (t : TokenScanner) {w : Bytes} {t' : TokenScanner}
    → next_word_in f s t ≡ some (w, t')
    → length t'.rest < length s
unfolding next_word_in
next_word_in-lt zero [] t h = cc
next_word_in-lt zero (c ∷ s) t h = cc
next_word_in-lt (suc f) [] t h = cc
next_word_in-lt (suc f) (c ∷ s) t {w} {t'} h =
    (elim (scan_at c s t)
        as (λ r.
          Consumes s r
          → resume (again f) yield r ≡ some (w, t')
          → length t'.rest < suc (length s)) [
            | go u ↦ λ k e. omega (arith, next_word_in-lt f u.rest u e)
            | word v u ↦ λ k e. ground arith
          ])
      (scan_at-Consumes c s t) h

-- A word that is yielded has been consumed.
pub next_word-lt :
    (t : TokenScanner) {w : Bytes} {t' : TokenScanner}
    → next_word t ≡ some (w, t')
    → length t'.rest < length t.rest
unfolding next_word
next_word-lt t h = next_word_in-lt (length t.rest) t.rest t h

abbrev pub ConsumesTrail : Bytes → Trail → Type 0
ConsumesTrail s found = Unit
ConsumesTrail s (on flag s') = length s' ≤ length s

pub trail_at-Consumes : (c : ℕ) (s : Bytes) (after : Bool) → ConsumesTrail s (trail_at c s after)
unfolding trail_at skip_quoted
trail_at-Consumes c s after =
    ground (arith, length-skip_body c s, length-skip_comment s, length-skip_line s, line_tail)
  where
    line_tail : (c == b'\n') ≡ false → skip_line (c ∷ s) ≡ skip_line s
    line_tail h = unfold skip_line in rw h

pub trail_in-fuel :
    (f g : ℕ) (s : Bytes) (after : Bool)
    → length s ≤ f
    → length s ≤ g
    → trail_in f s after ≡ trail_in g s after
unfolding trail_in
trail_in-fuel zero zero s after p q = refl
trail_in-fuel zero (suc g) [] after p q = refl
trail_in-fuel zero (suc g) (c ∷ s) after p q = absurd (omega arith)
trail_in-fuel (suc f) zero [] after p q = refl
trail_in-fuel (suc f) zero (c ∷ s) after p q = absurd (omega arith)
trail_in-fuel (suc f) (suc g) [] after p q = refl
trail_in-fuel (suc f) (suc g) (c ∷ s) after p q =
    (elim (trail_at c s after)
        as (λ r.
          ConsumesTrail s r
          → proceed (λ b s'. trail_in f s' b) r ≡ proceed (λ b s'. trail_in g s' b) r) [
            | found ↦ λ h. refl
            | on b s' ↦ λ h. trail_in-fuel f g s' b (omega arith) (omega arith)
          ])
      (trail_at-Consumes c s after)

-- The loop of `has_trailing_statement` from the bytes `s` on.
abbrev pub trails : Bytes → Bool → Bool
trails s after = trail_in (length s) s after

pub trails_step :
    (c : ℕ) (s : Bytes) (after : Bool)
    → trails (c ∷ s) after ≡ proceed (λ b s'. trails s' b) (trail_at c s after)
unfolding trail_in
trails_step c s after =
    (elim (trail_at c s after)
        as (λ r.
          ConsumesTrail s r
          → proceed (λ b s'. trail_in (length s) s' b) r ≡ proceed (λ b s'. trails s' b) r) [
            | found ↦ λ h. refl
            | on b s' ↦ λ h. trail_in-fuel (length s) (length s') s' b h (omega arith)
          ])
      (trail_at-Consumes c s after)
