-- ===== src/Tests/Volatile.antt =====
-- Runs of `is_nondeterministic`, and its theorem at a concrete input.
use avraham_sql_tools.Ascii.{is_alphabetic, is_alphanumeric, is_whitespace, is_digit}
use avraham_sql_tools.Base.{true, false, ◌≡◌, refl, arith, codes, bytes_eq, ◌++◌}
use avraham_sql_tools.Classify.Lexer.{skip_quoted, is_word_byte, is_word_start, word_of, after_word}
use avraham_sql_tools.Classify.Volatile.{is_nondeterministic, skip_blanks, no_arguments}
use avraham_sql_tools.Classify.Reads.{among}
use avraham_sql_tools.Classify.Volatile.Before.{is_nondeterministic-source_text}
use avraham_sql_tools.Classify.Volatile.Sources.{Source, call, source_text}

runs : Unit {0}
unfolding is_nondeterministic is_alphabetic is_alphanumeric is_whitespace is_digit bytes_eq
    skip_quoted is_word_byte is_word_start word_of after_word skip_blanks no_arguments
runs = tt

answers :
    (is_nondeterministic (codes "select now ( ) from t") ≡ true)
    × (is_nondeterministic (codes "select now from t") ≡ false)
    × (is_nondeterministic (codes "select unix_timestamp( )") ≡ true)
    × (is_nondeterministic (codes "select unix_timestamp(?)") ≡ false)
    × (is_nondeterministic (codes "select `rand(` from t limit ?") ≡ true)
    × (is_nondeterministic (codes "select a from t order by a limit ?") ≡ false)
unfolding runs
answers = (refl, refl, refl, refl, refl, refl)

abbrev now_call : Source
now_call = call (codes "now") (codes " ")

is_nondeterministic-source_text_example :
    is_nondeterministic (codes "select 2a, " ++ source_text now_call (codes ") from t")) ≡ true
unfolding among bytes_eq is_whitespace is_word_byte is_alphanumeric is_digit
is_nondeterministic-source_text_example =
    is_nondeterministic-source_text (codes "select 2a, ") now_call (codes ") from t") (ground arith)
      (refl, (refl, tt))
