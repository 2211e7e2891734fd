-- ===== src/Tests/Gate.antt =====
-- Runs of classify.rs; several inputs are those of its own tests.
use avraham_sql_tools.Ascii.{is_digit, is_whitespace, is_alphabetic, is_alphanumeric, to_lower}
use avraham_sql_tools.Base.{arith, ◌≡◌, refl, true, false, codes, ◌++◌, ◌∷◌, Bytes}
use avraham_sql_tools.Classify.Gate.{read, write, classify, is_use_statement, should_execute}
use avraham_sql_tools.Classify.Case.{lower, classify-lower}
use avraham_sql_tools.Classify.Lexer.{
  skip_comment, skip_line, skip_quoted, dash_comment, word_of, after_word, is_word_byte,
  is_word_start,
}
use avraham_sql_tools.Classify.Scanner.{next_word}
use avraham_sql_tools.Classify.Text.{
  classify_batch, dashes, comment_text, classify_comment, classify_version_comment,
}

-- Opens all that a run of `classify` computes with.
runs : Unit {0}
unfolding classify should_execute is_use_statement next_word skip_comment skip_line skip_quoted
    dash_comment word_of after_word is_word_byte is_word_start is_digit is_whitespace is_alphabetic
    is_alphanumeric to_lower
runs = tt

verbs :
    (classify (codes "  SELECT 1; -- x") ≡ read)
    × (classify (codes "SELECT 1; DROP TABLE t") ≡ write)
    × (classify (codes "/*! DROP TABLE t */") ≡ write)
    × (classify (codes "WITH c AS (SELECT 1) UPDATE t SET a=1") ≡ write)
    × (classify (codes "explain analyze format=tree select 1") ≡ read)
    × (classify (codes "select 'a;b' into outfile '/tmp/x'") ≡ write)
    × (classify (codes "SET GLOBAL x = 1") ≡ write)
    × (classify (codes "SET NAMES utf8mb4") ≡ read)
    × (is_use_statement (codes "-- pick\nUSE app") ≡ true)
    × (should_execute (codes "DELETE FROM t") false ≡ false)
unfolding runs
verbs = (refl, refl, refl, refl, refl, refl, refl, refl, refl, refl)

abbrev cte : Bytes
cte = codes "WITH c AS (SELECT 1) DELETE FROM t"

classify-lower_example : classify (lower cte) ≡ classify cte
classify-lower_example = classify-lower cte

classify_batch_example :
    classify (codes "SELECT 1-1/2" ++ b';' ∷ (codes " " ++ b'(' ∷ codes "SELECT 2)")) ≡ write
unfolding runs
classify_batch_example =
    classify_batch (codes "SELECT 1-1/2") (codes " ") b'(' (codes "SELECT 2)") (ground arith)
      (ground arith) refl

classify_comment_example :
    classify (comment_text (dashes (codes "hint")) (codes "SELECT 1")) ≡ classify (codes "SELECT 1")
classify_comment_example =
    classify_comment (dashes (codes "hint")) (codes "SELECT 1") (ground arith)

classify_version_comment_example :
    classify (codes "/*!" ++ (codes "50700" ++ b' ' ∷ codes "DROP TABLE t */"))
    ≡ classify (b' ' ∷ codes "DROP TABLE t */")
unfolding is_digit
classify_version_comment_example =
    classify_version_comment (codes "50700") b' ' (codes "DROP TABLE t */") (ground arith) refl
