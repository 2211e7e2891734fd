-- ===== src/Classify/Volatile/Before.antt =====
-- `is_nondeterministic` finds a source of nondeterminism behind any text without quotes.
use avraham_sql_tools.Base.{
  ℕ, zero, suc, ◌≤◌, Bool, true, false, ◌&&◌, ◌||◌, [], ◌∷◌, ◌++◌, ◌≡◌, refl, sym, ap, ◌∙◌, arith,
  ◌==◌, Bytes, codes, bytes_eq, length, if_known, if_lem,
}
use avraham_sql_tools.Classify.Bounds.{is_word_byte-start, length-after_word}
use avraham_sql_tools.Classify.Lexer.{
  is_quote, next_is, is_word_start, is_word_byte, word_of, after_word,
}
use avraham_sql_tools.Classify.Volatile.{
  is_volatile, Sighting, on_sighting, sighting_at, volatile_in, is_nondeterministic,
}
use avraham_sql_tools.Classify.Volatile.Sources.{Source, source_text, IsSource, volatile_in-source}

-- A text without a quote, whose last byte is none of a word.
abbrev IsBefore : Bytes → Type 0
IsBefore [] = Unit
IsBefore (c ∷ []) = ((c == b'\'' || c == b'"' || c == b'`') ≡ false) × (is_word_byte c ≡ false)
IsBefore (c ∷ d ∷ p) = ((c == b'\'' || c == b'"' || c == b'`') ≡ false) × IsBefore (d ∷ p)

-- The text from here on is found volatile whatever the loop has seen.
abbrev IsVolatile : Bytes → Type 0
IsVolatile t =
    (fuel : ℕ) (limit order : Bool) → length t ≤ fuel → volatile_in fuel t limit order ≡ true

-- Also behind the rest of a word that the text begins with, if it begins before the source.
abbrev IsVolatileBehind : Bytes → Bytes → Type 0
IsVolatileBehind [] t = Unit
IsVolatileBehind (c ∷ p) t = IsVolatile (after_word (c ∷ (p ++ t)))

after_word-shorter :
    (c : ℕ) (s : Bytes) (fuel : ℕ)
    → is_word_byte c ≡ true
    → length s ≤ fuel
    → length (after_word (c ∷ s)) ≤ fuel
unfolding after_word
after_word-shorter c s fuel word h = rw word (omega (arith, length-after_word s))

Bool-apart : (true ≡ false) → ⊥
Bool-apart h = ground (arith, h)

behind_word :
    (c : ℕ) (p t : Bytes)
    → is_word_byte c ≡ true
    → IsBefore (c ∷ p)
    → IsVolatileBehind p t
    → IsVolatile (after_word (c ∷ (p ++ t)))
unfolding after_word
behind_word c [] t word h later = absurd (Bool-apart (sym word ∙ h.1))
behind_word c (d ∷ p) t word h later =
    λ fuel limit order enough. rw word (later fuel limit order (rw word at enough))

or_true : (b : Bool) → (b || true) ≡ true
or_true true = refl
or_true false = refl

tail_IsBefore : (c : ℕ) (p : Bytes) → IsBefore (c ∷ p) → IsBefore p
tail_IsBefore c [] h = tt
tail_IsBefore c (d ∷ p) h = h.1

no_quote : (c : ℕ) (p : Bytes) → IsBefore (c ∷ p) → is_quote c ≡ false
no_quote c [] h = h.0
no_quote c (d ∷ p) h = h.0

IsVolatile-step :
    (c : ℕ) (p t : Bytes)
    → IsBefore (c ∷ p)
    → IsVolatile (p ++ t)
    → IsVolatileBehind p t
    → IsVolatile (c ∷ (p ++ t))
unfolding volatile_in sighting_at
IsVolatile-step c p t h v later zero limit order enough = absurd (omega arith)
IsVolatile-step c p t h v later (suc fuel) limit order enough =
    let Yes = λ (r : Sighting).
      on_sighting true
        (λ w u.
          is_volatile w u
          || volatile_in fuel u (limit || bytes_eq w (codes "limit"))
              (order || bytes_eq w (codes "order")))
        (λ u. volatile_in fuel u limit order) r
      ≡ true in
    let shorter = length-after_word (p ++ t) in
    if_known Yes (is_quote c) (λ quote. absurd (Bool-apart (sym quote ∙ no_quote c p h)))
      (λ _. if_lem Yes (c == b'@' && next_is b'@' (p ++ t)) refl (
        if_known Yes (is_word_start c)
          (λ first.
            ap (λ b. is_volatile (word_of (c ∷ (p ++ t))) (after_word (c ∷ (p ++ t))) || b)
              (behind_word c p t (is_word_byte-start c first) h later fuel _ _
                (after_word-shorter c (p ++ t) fuel (is_word_byte-start c first) (omega arith)))
            ∙ or_true (is_volatile (word_of (c ∷ (p ++ t))) (after_word (c ∷ (p ++ t)))))
          (λ _. v fuel limit order (omega arith))))

IsVolatile-before :
    (p t : Bytes) → IsBefore p → IsVolatile t → IsVolatile (p ++ t) × IsVolatileBehind p t
unfolding after_word
IsVolatile-before [] t h v = (v, tt)
IsVolatile-before (c ∷ p) t h v =
    let r = IsVolatile-before p t (tail_IsBefore c p h) v in
    let here = IsVolatile-step c p t h r.0 r.1 in
    (
      here,
      if_known IsVolatile (is_word_byte c)
          (λ word. rw (after_word, word) at (behind_word c p t word h r.1)) (λ _. here),
    )

-- A text is nondeterministic where it has a source: a `@@`, one of the words that need no parentheses, a
-- call of one of the functions, or UNIX_TIMESTAMP without an argument. What is before the source holds no
-- quote and does not end in a byte of a word, and what is behind a bare word does not begin with one;
-- the names are in lower case, as in a fingerprint.
pub is_nondeterministic-source_text :
    (p : Bytes) (src : Source) (s : Bytes)
    → IsBefore p
    → IsSource src s
    → is_nondeterministic (p ++ source_text src s) ≡ true
unfolding is_nondeterministic
is_nondeterministic-source_text p src s hp hs =
    (IsVolatile-before p (source_text src s) hp
        (λ fuel limit order enough. volatile_in-source fuel src s limit order enough hs)).0
      (length (p ++ source_text src s)) false false (omega arith)
