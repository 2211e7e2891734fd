-- ===== src/Classify/Volatile/Sources.antt =====
-- The sources of nondeterminism that `is_nondeterministic` finds in a text.
use avraham_sql_tools.Ascii.{is_whitespace, is_alphabetic, is_alphanumeric, is_digit}
use avraham_sql_tools.Base.{
  ℕ, zero, suc, ◌≤◌, Bool, true, false, ◌&&◌, ◌||◌, List, [], ◌∷◌, ◌++◌, ◌≡◌, refl, ap, ◌∙◌, arith,
  ◌==◌, Bytes, codes, bytes_eq, bytes_eq_iff, length, All, Bool-cases, inl, inr,
}
use avraham_sql_tools.Classify.Bounds.{is_word_byte-start}
use avraham_sql_tools.Classify.Gate.{is_one_of}
use avraham_sql_tools.Classify.Lexer.{is_quote, is_word_start, is_word_byte, word_of, after_word}
use avraham_sql_tools.Classify.Reads.{among}
use avraham_sql_tools.Classify.Volatile.{
  volatile_funcs, volatile_words, is_volatile, skip_blanks, no_arguments, sighting_at, name,
  volatile_in,
}

-- The functions whose result changes from call to call or belongs to the connection.
abbrev pub calls : List Bytes
calls =
    codes "now"
    ∷ codes "sysdate"
    ∷ codes "curdate"
    ∷ codes "curtime"
    ∷ codes "rand"
    ∷ codes "uuid"
    ∷ codes "uuid_short"
    ∷ codes "last_insert_id"
    ∷ codes "connection_id"
    ∷ codes "found_rows"
    ∷ codes "row_count"
    ∷ codes "benchmark"
    ∷ codes "get_lock"
    ∷ codes "release_lock"
    ∷ codes "is_free_lock"
    ∷ codes "is_used_lock"
    ∷ codes "version"
    ∷ codes "sleep"
    ∷ []

-- The words that need no parentheses.
abbrev bare_words : List Bytes
bare_words =
    codes "current_timestamp"
    ∷ codes "current_date"
    ∷ codes "current_time"
    ∷ codes "localtime"
    ∷ codes "localtimestamp"
    ∷ codes "utc_timestamp"
    ∷ codes "utc_date"
    ∷ codes "utc_time"
    ∷ codes "information_schema"
    ∷ codes "performance_schema"
    ∷ []

-- A server variable, a bare word, a call with blanks before its parenthesis, and UNIX_TIMESTAMP without
-- an argument, with blanks before and in its parentheses.
pub data Source : Type 0 where
  server_variable : Source
  bare : Bytes → Source
  call : Bytes → Bytes → Source
  unix_timestamp : Bytes → Bytes → Source

-- Its bytes, with `s` behind them.
abbrev pub source_text : Source → Bytes → Bytes
source_text server_variable s = b'@' ∷ b'@' ∷ s
source_text (bare w) s = w ++ s
source_text (call w ws) s = w ++ (ws ++ b'(' ∷ s)
source_text (unix_timestamp ws vs) s = codes "unix_timestamp" ++ (ws ++ b'(' ∷ (vs ++ b')' ∷ s))

abbrev pub IsBlank : ℕ → Type 0
IsBlank c = is_whitespace c ≡ true

-- No byte of a word is at the front.
abbrev NoWord : Bytes → Type 0
NoWord [] = Unit
NoWord (c ∷ s) = is_word_byte c ≡ false

abbrev pub IsSource : Source → Bytes → Type 0
IsSource server_variable s = Unit
IsSource (bare w) s = (among w bare_words ≡ true) × NoWord s
IsSource (call w ws) s = (among w calls ≡ true) × All IsBlank ws
IsSource (unix_timestamp ws vs) s = All IsBlank ws × All IsBlank vs

all_word : Bytes → Bool
all_word [] = true
all_word (c ∷ s) = is_word_byte c && all_word s

is_name : Bytes → Bool
is_name [] = false
is_name (c ∷ s) = is_word_start c && all_word s

all_names : List Bytes → Bool
all_names [] = true
all_names (v ∷ vs) = is_name v && all_names vs

among-all_names :
    (w : Bytes) (vs : List Bytes) → all_names vs ≡ true → among w vs ≡ true → is_name w ≡ true
unfolding among all_names
among-all_names w [] h k = ground arith
among-all_names w (v ∷ vs) h k = elim (Bool-cases (bytes_eq w v)) [
  | inl same ↦ ap is_name ((bytes_eq_iff w v).0 same) ∙ ground (arith, h)
  | inr other ↦ among-all_names w vs (ground (arith, h)) (ground (arith, k, other))
]

is_one_of-among : (w : Bytes) (vs : List Bytes) → is_one_of w vs ≡ among w vs
unfolding is_one_of among
is_one_of-among w [] = refl
is_one_of-among w (v ∷ vs) = ap (◌||◌ (bytes_eq w v)) (is_one_of-among w vs)

word_of-append :
    (w t : Bytes)
    → all_word w ≡ true
    → NoWord t
    → (word_of (w ++ t) ≡ w) × (after_word (w ++ t) ≡ t)
unfolding word_of after_word all_word
word_of-append [] [] h n = (refl, refl)
word_of-append [] (c ∷ t) h n = (rw n refl, rw n refl)
word_of-append (c ∷ w) t h n = ground (arith, word_of-append w t)

skip_blanks-append :
    (ws : Bytes) (c : ℕ) (s : Bytes)
    → All IsBlank ws
    → is_whitespace c ≡ false
    → skip_blanks (ws ++ c ∷ s) ≡ c ∷ s
unfolding skip_blanks
skip_blanks-append [] c s _ h = rw h refl
skip_blanks-append (d ∷ ws) c s (hd, hs) h = rw hd (skip_blanks-append ws c s hs h)

NoWord-blanks : (ws s : Bytes) → All IsBlank ws → NoWord (ws ++ b'(' ∷ s)
unfolding is_word_byte is_alphanumeric is_whitespace is_digit
NoWord-blanks [] s h = refl
NoWord-blanks (c ∷ ws) s (hc, h) = ground arith

sighting_at-name :
    (c : ℕ) (w t : Bytes)
    → is_name (c ∷ w) ≡ true
    → NoWord t
    → sighting_at c (w ++ t) ≡ name (c ∷ w) t
unfolding sighting_at is_name all_word
sighting_at-name c w t h n =
    let first : is_word_start c ≡ true = ground (arith, h) in
    let whole : all_word (c ∷ w) ≡ true = ground (arith, h, is_word_byte-start c) in
    let apart = word_of-append (c ∷ w) t whole n in
    rw (not_quote first, not_at first, first, apart.0, apart.1) refl
  where
    not_quote : is_word_start c ≡ true → is_quote c ≡ false
    not_quote h = unfold is_word_start is_alphabetic in ground arith

    not_at : is_word_start c ≡ true → (c == b'@') ≡ false
    not_at h = unfold is_word_start is_alphabetic in ground arith

-- At a name that makes the answer yes, with any fuel that reaches it.
volatile_in-name :
    (fuel : ℕ) (w t : Bytes) (limit order : Bool)
    → length (w ++ t) ≤ fuel
    → is_name w ≡ true
    → NoWord t
    → is_volatile w t ≡ true
    → volatile_in fuel (w ++ t) limit order ≡ true
unfolding volatile_in is_name
volatile_in-name fuel [] t limit order enough h n v = ground arith
volatile_in-name zero (c ∷ w) t limit order enough h n v = absurd (omega arith)
volatile_in-name (suc fuel) (c ∷ w) t limit order enough h n v =
    rw (sighting_at-name c w t h n, v) refl

among-bare_words : (w : Bytes) → among w bare_words ≡ true → is_name w ≡ true
unfolding all_names is_name all_word is_word_start is_word_byte is_alphabetic is_alphanumeric
    is_digit
among-bare_words w h = among-all_names w bare_words refl h

among-calls : (w : Bytes) → among w calls ≡ true → is_name w ≡ true
unfolding all_names is_name all_word is_word_start is_word_byte is_alphabetic is_alphanumeric
    is_digit
among-calls w h = among-all_names w calls refl h

is_volatile-bare : (w s : Bytes) → among w bare_words ≡ true → is_volatile w s ≡ true
unfolding is_volatile
is_volatile-bare w s h = rw (is_one_of-among w volatile_words ∙ h) refl

is_volatile-call :
    (w ws s : Bytes) → among w calls ≡ true → All IsBlank ws → is_volatile w (ws ++ b'(' ∷ s) ≡ true
unfolding is_volatile
is_volatile-call w ws s h blank =
    let opened = skip_blanks-append ws b'(' s blank (unfold is_whitespace in refl) in
    let listed = is_one_of-among w volatile_funcs ∙ h in rw (opened, listed) (ground arith)

is_volatile-unix_timestamp :
    (ws vs s : Bytes)
    → All IsBlank ws
    → All IsBlank vs
    → is_volatile (codes "unix_timestamp") (ws ++ b'(' ∷ (vs ++ b')' ∷ s)) ≡ true
unfolding is_volatile no_arguments bytes_eq is_one_of
is_volatile-unix_timestamp ws vs s hw hv =
    let opened = skip_blanks-append ws b'(' (vs ++ b')' ∷ s) hw (unfold is_whitespace in refl) in
    let closed = skip_blanks-append vs b')' s hv (unfold is_whitespace in refl) in
    rw (opened, closed) refl

pub volatile_in-source :
    (fuel : ℕ) (src : Source) (s : Bytes) (limit order : Bool)
    → length (source_text src s) ≤ fuel
    → IsSource src s
    → volatile_in fuel (source_text src s) limit order ≡ true
unfolding volatile_in sighting_at is_name all_word is_word_start is_word_byte is_alphabetic
    is_alphanumeric is_digit
volatile_in-source zero server_variable s limit order enough h = absurd (omega arith)
volatile_in-source (suc fuel) server_variable s limit order enough h = refl
volatile_in-source fuel (bare w) s limit order enough (h, n) =
    volatile_in-name fuel w s limit order enough (among-bare_words w h) n (is_volatile-bare w s h)
volatile_in-source fuel (call w ws) s limit order enough (h, blank) =
    volatile_in-name fuel w (ws ++ b'(' ∷ s) limit order enough (among-calls w h)
      (NoWord-blanks ws s blank) (is_volatile-call w ws s h blank)
volatile_in-source fuel (unix_timestamp ws vs) s limit order enough (hw, hv) =
    volatile_in-name fuel (codes "unix_timestamp") (ws ++ b'(' ∷ (vs ++ b')' ∷ s)) limit order
      enough refl (NoWord-blanks ws (vs ++ b')' ∷ s) hw) (is_volatile-unix_timestamp ws vs s hw hv)
