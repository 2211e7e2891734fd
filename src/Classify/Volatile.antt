-- ===== src/Classify/Volatile.antt =====
-- `is_nondeterministic` of classify.rs, which reads the text of a fingerprint.
pub mod Sources
pub mod Before
use avraham_sql_tools.Ascii.{is_whitespace}
use avraham_sql_tools.Base.{
  ℕ, zero, suc, Bool, true, false, not, ◌&&◌, ◌||◌, List, [], ◌∷◌, ◌==◌, if◌then◌else◌, Bytes,
  codes, bytes_eq, length,
}
use avraham_sql_tools.Classify.Lexer.{
  skip_quoted, is_quote, next_is, is_word_start, word_of, after_word,
}
use avraham_sql_tools.Classify.Gate.{is_one_of}

abbrev pub volatile_funcs : List Bytes
volatile_funcs =
    codes "now"
    ∷ codes "sysdate"
    ∷ codes "curdate"
    ∷ codes "curtime"
    ∷ codes "rand"
    ∷ codes "uuid"
    ∷ codes "uuid_short"
    ∷ codes "last_insert_id"
    ∷ codes "connection_id"
    ∷ codes "found_rows"
    ∷ codes "row_count"
    ∷ codes "benchmark"
    ∷ codes "get_lock"
    ∷ codes "release_lock"
    ∷ codes "is_free_lock"
    ∷ codes "is_used_lock"
    ∷ codes "version"
    ∷ codes "sleep"
    ∷ []

abbrev pub volatile_words : List Bytes
volatile_words =
    codes "current_timestamp"
    ∷ codes "current_date"
    ∷ codes "current_time"
    ∷ codes "localtime"
    ∷ codes "localtimestamp"
    ∷ codes "utc_timestamp"
    ∷ codes "utc_date"
    ∷ codes "utc_time"
    ∷ codes "information_schema"
    ∷ codes "performance_schema"
    ∷ []

unfoldable pub skip_blanks : Bytes → Bytes
unfolding is_whitespace
skip_blanks [] = []
skip_blanks (c ∷ s) = if is_whitespace c then skip_blanks s else c ∷ s

-- At `b[j]`: an opening parenthesis, and behind it, after blanks, the closing one.
unfoldable pub no_arguments : Bytes → Bool
unfolding skip_blanks
no_arguments [] = false
no_arguments (c ∷ s) = c == b'(' && next_is b')' (skip_blanks s)

-- Whether the loop returns at this name, with `s` the bytes behind it.
unfoldable pub is_volatile : Bytes → Bytes → Bool
unfolding is_one_of skip_blanks no_arguments bytes_eq
is_volatile w s =
    let called = next_is b'(' (skip_blanks s) in
    is_one_of w volatile_words
    || (called && is_one_of w volatile_funcs)
    || (bytes_eq w (codes "unix_timestamp") && no_arguments (skip_blanks s))

-- One round of the loop: `@@`, a name and the bytes behind it, or bytes that are passed over.
pub data Sighting : Type 0 where
  variable : Sighting
  name : Bytes → Bytes → Sighting
  pass : Bytes → Sighting

unfoldable pub sighting_at : ℕ → Bytes → Sighting
unfolding word_of after_word skip_quoted is_word_start
sighting_at c s =
    if is_quote c
    then pass (skip_quoted (c ∷ s))
    else if c == b'@' && next_is b'@' s
    then variable
    else if is_word_start c
    then name (word_of (c ∷ s)) (after_word (c ∷ s))
    else pass s

abbrev pub on_sighting {ℓ} : {R : Type ℓ} → R → (Bytes → Bytes → R) → (Bytes → R) → Sighting → R
on_sighting v f g variable = v
on_sighting v f g (name w s) = f w s
on_sighting v f g (pass s) = g s

-- The loop, on fuel, with `has_limit` and `has_order`.
unfoldable pub volatile_in : ℕ → Bytes → Bool → Bool → Bool
unfolding sighting_at is_volatile bytes_eq
volatile_in fuel [] has_limit has_order = has_limit && not has_order
volatile_in zero (c ∷ s) has_limit has_order = has_limit && not has_order
volatile_in (suc fuel) (c ∷ s) has_limit has_order =
    on_sighting true
      (λ w t.
        is_volatile w t
        || volatile_in fuel t (has_limit || bytes_eq w (codes "limit"))
            (has_order || bytes_eq w (codes "order")))
      (λ t. volatile_in fuel t has_limit has_order) (sighting_at c s)

unfoldable pub is_nondeterministic : Bytes → Bool
unfolding volatile_in
is_nondeterministic fingerprint = volatile_in (length fingerprint) fingerprint false false
