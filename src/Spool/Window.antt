-- ===== src/Spool/Window.antt =====
-- `TimeWindow::parse` of spool.rs. The crate time is a parameter: the seconds and the microseconds of
-- a time in RFC 3339.
use avraham_sql_tools.Int.{ℤ, pos, negated, leb_int, plus, saturating_mul}
use avraham_sql_tools.Base.{
  ℕ, ◌^◌, Option, none, some, [], ◌∷◌, ◌==◌, ltb, leb, if◌then◌else◌, Bytes, codes,
}
use avraham_sql_tools.Spool.{TimeWindow}
use avraham_sql_tools.Utf8.Search.{strip_prefix, some_digits, digits_value}

pub data WindowError : Type 0 where
  no_range no_bound_time out_of_order no_bounds : WindowError

pub data Parsed (A : Type 0) : Type 0 where
  ok : A → Parsed A
  err : WindowError → Parsed A

-- `split_once("..")`: the text in front, and the text behind.
unfoldable pub split_range : Bytes → Option (Bytes × Bytes)
unfolding strip_prefix
split_range [] = none
split_range (c ∷ s) = elim (strip_prefix (codes "..") (c ∷ s)) [
  | some rest ↦ some ([], rest)
  | none ↦ elim (split_range s) [ none ↦ none | some (a, b) ↦ some (c ∷ a, b) ]
]

abbrev pub positive : Option ℕ → Option ℤ
positive none = none
positive (some n) = if ltb n (2 ^ 63) then some (pos n) else none

abbrev pub negative : Option ℕ → Option ℤ
negative none = none
negative (some n) = if leb n (2 ^ 63) then some (negated n) else none

-- `parse::<i64>`
unfoldable pub parse_i64 : Bytes → Option ℤ
unfolding digits_value
parse_i64 [] = none
parse_i64 (c ∷ s) =
    if c == b'-'
    then negative (some_digits s)
    else if c == b'+'
    then positive (some_digits s)
    else positive (some_digits (c ∷ s))

abbrev pub to_micros : Option (ℤ × ℕ) → Parsed (Option ℤ)
to_micros none = err no_bound_time
to_micros (some (secs, micros)) = ok (some (plus (saturating_mul secs 1000000) micros))

abbrev pub bound_of : Option ℤ → Option (ℤ × ℕ) → Parsed (Option ℤ)
bound_of none time = to_micros time
bound_of (some secs) time = ok (some (saturating_mul secs 1000000))

-- Starts that are not before their ends, and no bounds at all, are errors.
abbrev pub checked : TimeWindow → Option ℤ → Option ℤ → Parsed TimeWindow
checked w none none = err no_bounds
checked w (some a) none = ok w
checked w none (some b) = ok w
checked w (some a) (some b) = if leb_int b a then err out_of_order else ok w

module _ (parse_rfc3339 : Bytes → Option (ℤ × ℕ)) where
  unfoldable pub parse_bound : Bytes → Parsed (Option ℤ)
  unfolding parse_i64
  parse_bound [] = ok none
  parse_bound (c ∷ s) = bound_of (parse_i64 (c ∷ s)) (parse_rfc3339 (c ∷ s))

  unfoldable pub parse : Bytes → Parsed TimeWindow
  unfolding split_range parse_bound leb_int
  parse s = elim (split_range s) [
    | none ↦ err no_range
    | some (a, b) ↦ elim (parse_bound a) [
      | err e ↦ err e
      | ok start ↦ elim (parse_bound b) [
        | err e ↦ err e
        | ok end ↦ checked (record { raw = s; start_micros = start; end_micros = end }) start end
      ]
    ]
  ]
