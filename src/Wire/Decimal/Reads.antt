-- ===== src/Wire/Decimal/Reads.antt =====
-- The decimal text of a number reads back as the number.
use avraham_sql_tools.Base.{
  ℕ, zero, suc, ◌+◌, ◌-◌, ◌*◌, ◌/◌, ◌%◌, ◌^◌, ◌<◌, [], ◌∷◌, ◌++◌, ◌≡◌, refl, ◌∙◌, arith, ltb,
  Bool-cases, inl, inr, Bytes,
}
use avraham_sql_tools.Wire.Decimal.{digit, digits_in, decimal}
use native.Mathlib.Nat.{pow-suc}

-- The value of decimal digits behind a number.
unfoldable pub value_in : ℕ → Bytes → ℕ
value_in acc [] = acc
value_in acc (c ∷ s) = value_in (acc * 10 + (c - b'0')) s

unfoldable pub value : Bytes → ℕ
value s = value_in 0 s

value_in-append :
    (acc c : ℕ) (s : Bytes) → value_in acc (s ++ c ∷ []) ≡ value_in acc s * 10 + (c - b'0')
unfolding value_in
value_in-append acc c [] = refl
value_in-append acc c (d ∷ s) = value_in-append (acc * 10 + (d - b'0')) c s

tenth : (n k : ℕ) → n < 10 ^ suc k → n / 10 < 10 ^ k
tenth n k h = let e = rw pow-suc at h in omega (arith, e)

value-digits_in : (k n : ℕ) → n < 10 ^ k → value_in 0 (digits_in k n) ≡ n
unfolding digits_in value_in
value-digits_in zero n h = omega arith
value-digits_in (suc k) n h = elim (Bool-cases (ltb n 10)) [
  | inl one ↦ rw one (omega arith)
  | inr more ↦ rw more (
      value_in-append 0 (digit (n % 10)) (digits_in k (n / 10))
      ∙ omega (arith, value-digits_in k (n / 10) (tenth n k h)))
]

pub value-decimal : (n : ℕ) → n < 10 ^ 20 → value (decimal n) ≡ n
unfolding value decimal
value-decimal n h = value-digits_in 20 n h
