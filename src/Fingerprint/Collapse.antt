-- ===== src/Fingerprint/Collapse.antt =====
-- `collapse_in_lists` and `collapse_values_lists`: a position `i` in `b` is the list of the bytes from
-- `i` on, with the byte in front of it, if there is one.
pub mod Groups
use avraham_sql_tools.Ascii.{is_alphanumeric}
use avraham_sql_tools.Base.{
  ℕ, zero, suc, Bool, true, not, ◌&&◌, ◌||◌, Option, none, some, [], ◌∷◌, ◌++◌, ◌==◌, ltb,
  if◌then◌else◌, Bytes, codes, bytes_eq, length, take, drop,
}

unfoldable pub is_ident_byte : ℕ → Bool
unfolding is_alphanumeric
is_ident_byte c = is_alphanumeric c || c == b'_' || c == b'$'

-- Whether a word can end at this byte, or at an end of the text.
unfoldable pub is_boundary : Option ℕ → Bool
unfolding is_ident_byte
is_boundary none = true
is_boundary (some c) = not (is_ident_byte c) && not (c == b'`')

abbrev pub first : Bytes → Option ℕ
first [] = none
first (c ∷ b) = some c

unfoldable pub word_at : Option ℕ → Bytes → Bytes → Bool
unfolding bytes_eq is_boundary
word_at before b word =
    bytes_eq (take (length word) b) word
    && is_boundary before
    && is_boundary (first (drop (length word) b))

unfoldable pub skip_spaces : Bytes → Bytes
skip_spaces [] = []
skip_spaces (c ∷ s) = if c == b' ' then skip_spaces s else c ∷ s

-- The loop of `placeholder_group_end` behind the opening parenthesis.
unfoldable pub group_loop : ℕ → Bytes → Option Bytes
group_loop placeholders [] = none
group_loop placeholders (c ∷ s) =
    let counted = group_loop (suc placeholders) s in
    let passed = group_loop placeholders s in
    if c == b'?'
    then counted
    else if c == b',' || c == b' '
    then passed
    else if c == b')' && ltb 0 placeholders
    then some s
    else none

-- The bytes past a group of placeholders, where one opens here.
unfoldable pub placeholder_group_end : Bytes → Option Bytes
unfolding group_loop
placeholder_group_end [] = none
placeholder_group_end (c ∷ s) = if c == b'(' then group_loop 0 s else none

unfoldable pub in_list_end : Option ℕ → Bytes → Option Bytes
unfolding word_at skip_spaces placeholder_group_end
in_list_end before b =
    if word_at before b (codes "in") then placeholder_group_end (skip_spaces (drop 2 b)) else none

-- The loop of `collapse_in_lists`, on fuel; each round takes a byte at least. A list that was
-- collapsed has ended in a parenthesis.
unfoldable pub collapse_in : ℕ → Option ℕ → Bytes → Bytes
unfolding in_list_end
collapse_in zero before b = []
collapse_in (suc fuel) before [] = []
collapse_in (suc fuel) before (c ∷ s) = elim (in_list_end before (c ∷ s)) [
  | none ↦ c ∷ collapse_in fuel (some c) s
  | some end ↦ codes "in (?+)" ++ collapse_in fuel (some b')') end
]

unfoldable pub collapse_in_lists : Bytes → Bytes
unfolding collapse_in
collapse_in_lists b = collapse_in (length b) none b

-- Behind a first tuple a comma may stand in front of the next.
unfoldable pub skip_comma : ℕ → Bytes → Bytes
unfolding skip_spaces
skip_comma zero m = m
skip_comma (suc tuples) [] = []
skip_comma (suc tuples) (c ∷ m) = if c == b',' then skip_spaces m else c ∷ m

-- The loop over tuples, on fuel: the number of them, and the bytes past the last one.
unfoldable pub tuples_in : ℕ → ℕ → Bytes → ℕ × Bytes
unfolding skip_comma skip_spaces placeholder_group_end
tuples_in zero tuples k = (tuples, k)
tuples_in (suc fuel) tuples k = elim (placeholder_group_end (skip_comma tuples (skip_spaces k))) [
  | none ↦ (tuples, k)
  | some end ↦ tuples_in fuel (suc tuples) end
]

abbrev some_tuples : ℕ × Bytes → Option Bytes
some_tuples (tuples, k) = if ltb 0 tuples then some k else none

unfoldable pub values_end : Option ℕ → Bytes → Option Bytes
unfolding word_at tuples_in
values_end before b =
    if word_at before b (codes "values")
    then some_tuples (tuples_in (length b) 0 (drop 6 b))
    else none

unfoldable pub collapse_values : ℕ → Option ℕ → Bytes → Bytes
unfolding values_end
collapse_values zero before b = []
collapse_values (suc fuel) before [] = []
collapse_values (suc fuel) before (c ∷ s) = elim (values_end before (c ∷ s)) [
  | none ↦ c ∷ collapse_values fuel (some c) s
  | some end ↦ codes "values (?+)" ++ collapse_values fuel (some b')') end
]

unfoldable pub collapse_values_lists : Bytes → Bytes
unfolding collapse_values
collapse_values_lists b = collapse_values (length b) none b
