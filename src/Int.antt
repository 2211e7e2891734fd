-- ===== src/Int.antt =====
-- Signed integers over the native numbers, under the library's names.
use avraham_sql_tools.Base.{
  ℕ, zero, suc, ◌+◌, ◌-◌, ◌*◌, Bool, true, false, not, ltb, leb, if◌then◌else◌,
}

-- `negsuc n` is `-(n + 1)`.
pub data ℤ : Type 0 where
  pos negsuc : ℕ → ℤ

abbrev pub negated : ℕ → ℤ
negated zero = pos zero
negated (suc n) = negsuc n

unfoldable pub leb_int : ℤ → ℤ → Bool
leb_int (pos a) (pos b) = leb a b
leb_int (pos a) (negsuc b) = false
leb_int (negsuc a) (pos b) = true
leb_int (negsuc a) (negsuc b) = leb b a

abbrev pub ltb_int : ℤ → ℤ → Bool
ltb_int a b = not (leb_int b a)

abbrev pub min_int : ℤ → ℤ → ℤ
min_int a b = if leb_int a b then a else b

-- The sum with a number.
abbrev pub plus : ℤ → ℕ → ℤ
plus (pos a) n = pos (a + n)
plus (negsuc a) n = if leb n a then negsuc (a - n) else pos (n - (a + 1))

-- `saturating_mul` of `i64` by a positive number.
abbrev pub saturating_mul : ℤ → ℕ → ℤ
saturating_mul (pos a) n =
    if ltb (a * n) 0x8000000000000000 then pos (a * n) else pos 0x7fffffffffffffff
saturating_mul (negsuc a) n =
    if leb ((a + 1) * n) 0x8000000000000000
    then negated ((a + 1) * n)
    else negsuc 0x7fffffffffffffff
