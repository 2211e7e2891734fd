-- ===== src/Utf8/Search.antt =====
-- Methods of Rust's `str` that look for a text, cut one off, or read a number.
use avraham_sql_tools.Ascii.{is_digit}
use avraham_sql_tools.Base.{
  ℕ, zero, suc, ◌+◌, ◌-◌, ◌*◌, ◌^◌, Bool, true, false, Option, none, some, List, [], ◌∷◌, ◌==◌, ltb,
  if◌then◌else◌, Bytes, length,
}
use avraham_sql_tools.Utf8.Split.{split_once_space}
use avraham_sql_tools.Utf8.{trim_start}
use mathlib.Core.List.{reverse}

-- `strip_prefix`
unfoldable pub strip_prefix : Bytes → Bytes → Option Bytes
strip_prefix [] s = some s
strip_prefix (p ∷ ps) [] = none
strip_prefix (p ∷ ps) (c ∷ s) = let more = strip_prefix ps s in if c == p then more else none

abbrev pub is_some : {A : Type 0} → Option A → Bool
is_some none = false
is_some (some x) = true

abbrev pub starts_with : Bytes → Bytes → Bool
starts_with p s = is_some (strip_prefix p s)

abbrev pub ends_with : Bytes → Bytes → Bool
ends_with p s = starts_with (reverse p) (reverse s)

-- Behind the first place where a text stands: `find`, and the slice from its end.
unfoldable pub find_behind : Bytes → Bytes → Option Bytes
unfolding strip_prefix
find_behind p [] = strip_prefix p []
find_behind p (c ∷ s) = elim (strip_prefix p (c ∷ s)) [
  | some rest ↦ some rest
  | none ↦ find_behind p s
]

-- Behind the last one: `rfind`.
unfoldable pub rfind_behind : Bytes → Bytes → Option Bytes
unfolding strip_prefix
rfind_behind p [] = strip_prefix p []
rfind_behind p (c ∷ s) = elim (rfind_behind p s) [
  | some rest ↦ some rest
  | none ↦ strip_prefix p (c ∷ s)
]

abbrev pub contains : Bytes → Bytes → Bool
contains p s = is_some (find_behind p s)

-- The text in front of the first `c`, where there is one.
unfoldable pub until : ℕ → Bytes → Option Bytes
until c [] = none
until c (d ∷ s) =
    let more : Option Bytes = elim (until c s) [ none ↦ none | some t ↦ some (d ∷ t) ] in
    if d == c then some [] else more

-- `split(c).next()`
abbrev pub first_part : ℕ → Bytes → Bytes
first_part c s = elim (until c s) [ none ↦ s | some t ↦ t ]

-- `split(c)`
unfoldable pub split_at_char : ℕ → Bytes → List Bytes
split_at_char c [] = [] ∷ []
split_at_char c (d ∷ s) =
    let more = split_at_char c s in
    if d == c then [] ∷ more else elim more [ [] ↦ (d ∷ []) ∷ [] | p ∷ ps ↦ (d ∷ p) ∷ ps ]

-- `trim_start_matches` of a character.
unfoldable pub drop_char : ℕ → Bytes → Bytes
drop_char c [] = []
drop_char c (d ∷ s) = let more = drop_char c s in if d == c then more else d ∷ s

-- `trim_end_matches` of a character.
abbrev pub drop_char_end : ℕ → Bytes → Bytes
drop_char_end c s = reverse (drop_char c (reverse s))

-- `split_whitespace`, on fuel: each word takes a byte at least.
unfoldable pub words_in : ℕ → Bytes → List Bytes
unfolding split_once_space trim_start
words_in zero s = []
words_in (suc fuel) s = elim (trim_start s) [
  | [] ↦ []
  | c ∷ t ↦ elim (split_once_space (c ∷ t)) [
    | none ↦ (c ∷ t) ∷ []
    | some (word, rest) ↦ word ∷ words_in fuel rest
  ]
]

unfoldable pub split_whitespace : Bytes → List Bytes
unfolding words_in
split_whitespace s = words_in (length s) s

-- The digits of a number.
unfoldable pub digits_value : ℕ → Bytes → Option ℕ
unfolding is_digit
digits_value n [] = some n
digits_value n (c ∷ s) =
    let more = digits_value (n * 10 + (c - b'0')) s in if is_digit c then more else none

abbrev pub bounded : ℕ → Option ℕ → Option ℕ
bounded bits none = none
bounded bits (some n) = if ltb n (2 ^ bits) then some n else none

abbrev pub some_digits : Bytes → Option ℕ
some_digits [] = none
some_digits (c ∷ s) = digits_value 0 (c ∷ s)

abbrev pub without_plus : Bytes → Bytes
without_plus [] = []
without_plus (c ∷ s) = if c == b'+' then s else c ∷ s

-- `parse` of an unsigned integer: a `+` may stand before the digits.
unfoldable pub parse_unsigned : ℕ → Bytes → Option ℕ
unfolding digits_value
parse_unsigned bits s = bounded bits (some_digits (without_plus s))
