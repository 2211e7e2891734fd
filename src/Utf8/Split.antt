-- ===== src/Utf8/Split.antt =====
-- `str::split_once(char::is_whitespace)` and `str::trim`.
use avraham_sql_tools.Base.{ℕ, [], ◌∷◌, Option, none, some, if◌then◌else◌, Bytes}
use avraham_sql_tools.Utf8.{ascii_space, space_two, space_three, trim_start, trim_end}
use mathlib.Core.List.{reverse}

abbrev pub Parts : Type 0
Parts = Option (Bytes × Bytes)

abbrev pub put_before : ℕ → Parts → Parts
put_before c none = none
put_before c (some (a, b)) = some (c ∷ a, b)

unfoldable pub split_once_space : Bytes → Parts
split_once_space [] = none
split_once_space (a ∷ []) = if ascii_space a then some ([], []) else none
split_once_space (a ∷ b ∷ []) =
    let later = put_before a (split_once_space (b ∷ [])) in
    if ascii_space a then some ([], b ∷ []) else if space_two a b then some ([], []) else later
split_once_space (a ∷ b ∷ c ∷ s) =
    let later = put_before a (split_once_space (b ∷ c ∷ s)) in
    if ascii_space a
    then some ([], b ∷ c ∷ s)
    else if space_two a b
    then some ([], c ∷ s)
    else if space_three a b c
    then some ([], s)
    else later

unfoldable pub trim : Bytes → Bytes
unfolding trim_start trim_end
trim s = trim_start (reverse (trim_end (reverse s)))
