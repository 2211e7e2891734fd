-- ===== src/Wire/UseTarget.antt =====
-- `parse_use_target` of mysqlproto.rs.
use avraham_sql_tools.Ascii.{to_lower}
use avraham_sql_tools.Base.{
  ℕ, [], ◌∷◌, map, Option, none, some, ◌==◌, if◌then◌else◌, Bytes, codes, bytes_eq,
}
use avraham_sql_tools.Utf8.Split.{split_once_space, trim}
use mathlib.Core.List.{reverse}

abbrev pub strip_first : ℕ → Bytes → Option Bytes
strip_first c [] = none
strip_first c (d ∷ s) = if d == c then some s else none

-- `strip_suffix` of one character.
unfoldable pub strip_last : ℕ → Bytes → Option Bytes
strip_last c s = elim (strip_first c (reverse s)) [ none ↦ none | some t ↦ some (reverse t) ]

abbrev pub unwrap_or : Bytes → Option Bytes → Bytes
unwrap_or d none = d
unwrap_or d (some s) = s

-- "``" becomes "`".
unfoldable pub undouble : Bytes → Bytes
undouble [] = []
undouble (c ∷ []) = c ∷ []
undouble (c ∷ d ∷ s) =
    let two = c ∷ undouble s in
    let one = c ∷ undouble (d ∷ s) in if c == b'`' then (if d == b'`' then two else one) else one

-- "`" becomes "``".
unfoldable pub double : Bytes → Bytes
double [] = []
double (c ∷ s) = if c == b'`' then b'`' ∷ b'`' ∷ double s else c ∷ double s

abbrev pub non_empty : Bytes → Option Bytes
non_empty [] = none
non_empty (c ∷ s) = some (c ∷ s)

-- The name behind `USE`, trimmed.
unfoldable pub database : Bytes → Option Bytes
unfolding strip_last undouble
database target = elim (strip_first b'`' target) [
  | none ↦ non_empty target
  | some inner ↦ elim (strip_last b'`' inner) [
    | none ↦ none
    | some name ↦ non_empty (undouble name)
  ]
]

unfoldable pub parse_use_target : Bytes → Option Bytes
unfolding trim strip_last split_once_space to_lower bytes_eq database
parse_use_target sql =
    let rest = trim (unwrap_or (trim sql) (strip_last b';' (trim sql))) in
    elim (split_once_space rest) [
      | none ↦ none
      | some (kw, target) ↦
          if bytes_eq (map to_lower kw) (codes "use") then database (trim target) else none
    ]
