-- ===== src/Tests/Shapes.antt =====
-- Tests and examples of the fingerprints.
use avraham_sql_tools.Fingerprint.Collapse.Groups.{placeholders, in_list_end-group}
use avraham_sql_tools.Base.{
  none, some, replicate, ◌++◌, List, [], ◌∷◌, ◌≡◌, ◌↔◌, refl, arith, codes, bytes_eq,
}
use avraham_sql_tools.Ascii.{is_digit, is_whitespace, is_alphanumeric, is_alphabetic, to_lower}
use avraham_sql_tools.Utf8.{trim_start, trim_end}
use avraham_sql_tools.Fingerprint.Scan.{
  skip_string, skip_line, skip_block, dash_comment, backtick_in, push_space, push_lossy_lower,
  is_operator, skip_fraction, skip_exponent, step_at, number_at,
}
use avraham_sql_tools.Fingerprint.Collapse.{is_ident_byte, is_boundary, in_list_end}
use avraham_sql_tools.Fingerprint.Normalize.{new, intern, fingerprint}
use avraham_sql_tools.Fingerprint.Normalize.Registry.{
  Interned, new-IsWell, intern-Interned, intern_iff,
}
use avraham_sql_tools.Fingerprint.Literals.{
  Text, Literal, character, escaped, doubled, fill, fingerprint-fill,
}

runs : Unit {0}
unfolding fingerprint intern new is_boundary placeholders bytes_eq trim_start trim_end is_digit
    is_whitespace is_alphanumeric is_alphabetic to_lower skip_string skip_line skip_block
    dash_comment backtick_in push_space push_lossy_lower is_operator skip_fraction skip_exponent
    is_ident_byte step_at number_at
runs = tt

shapes :
    (fingerprint (codes "SELECT * FROM t1 WHERE id = -5 AND name = 'O\\'Brien';")
      ≡ codes "select * from t1 where id = ? and name = ?")
    × (fingerprint (codes "INSERT INTO t VALUES (1, 'a'), (2, 3.5e-2) ; ")
        ≡ codes "insert into t values (?+)")
    × (fingerprint (codes "SELECT 1  /* c */ FROM `T` WHERE x IN (1,2, 3) -- end")
        ≡ codes "select ? from `t` where x in (?+)")
unfolding runs
shapes = (refl, refl, refl)

abbrev texts : List Text
texts = (b'a', codes "=") ∷ (b' ', codes "or b=") ∷ []

abbrev values : List Literal
values =
    (b'\'', character b'x' ∷ [])
    ∷ (b'"', character b'y' ∷ escaped b'"' ∷ character b'\'' ∷ doubled ∷ [])
    ∷ []

fingerprint-fill_example :
    fingerprint (fill texts values (codes " in (1)"))
    ≡ fingerprint (fill texts ((b'\'', character b'u' ∷ []) ∷ []) (codes " in (1)"))
unfolding is_digit
fingerprint-fill_example =
    fingerprint-fill texts values ((b'\'', character b'u' ∷ []) ∷ []) (codes " in (1)")
      ((refl, (refl, tt)), ((refl, (refl, (refl, (refl, (refl, (refl, tt)))))), tt))
      ((refl, (refl, tt)), ((refl, (refl, (tt, (refl, (tt, tt))))), tt)) ((refl, (refl, tt)), tt)
      refl

intern-Interned_example :
    Interned new (fingerprint (codes "select 1")) (intern new (codes "select 1"))
unfolding new
intern-Interned_example = intern-Interned new (codes "select 1") new-IsWell (omega arith)

intern_iff_example :
    ((intern new (codes "select 1")).1
      ≡ (intern (intern new (codes "select 1")).0 (codes "select 2")).1)
    ↔ (fingerprint (codes "select 1") ≡ fingerprint (codes "select 2"))
unfolding runs
intern_iff_example =
    intern_iff new (codes "select 1") (codes "select 2") new-IsWell (omega arith) (omega arith)

in_list_end-group_example :
    in_list_end none
      (codes "in" ++ (replicate 2 b' ' ++ b'(' ∷ (codes "?, ?" ++ b')' ∷ codes " x")))
    ≡ some (codes " x")
unfolding runs
in_list_end-group_example =
    in_list_end-group none 2 (codes "?, ?") (codes " x") refl (ground arith) (ground arith)
