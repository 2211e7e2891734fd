-- ===== src/Wire/Values/Integers.antt =====
-- The integers that `decode_binary_value` reads, and the texts that it writes for them.
use avraham_sql_tools.Base.{
  ℕ, zero, suc, ◌+◌, ◌-◌, ◌*◌, ◌/◌, ◌%◌, ◌^◌, ◌<◌, ◌≤◌, Bool, true, false, some, [], ◌∷◌, ◌++◌, ◌≡◌,
  refl, sym, ap, ◌∙◌, arith, ◌==◌, ltb, if◌then◌else◌, Bool-cases, inl, inr, Bytes,
}
use avraham_sql_tools.Int.{ℤ, pos, negsuc, negated}
use avraham_sql_tools.Wire.Decimal.{digit, digits_in, decimal, signed, integer}
use avraham_sql_tools.Wire.Decimal.Reads.{value, value_in, value-decimal}
use avraham_sql_tools.Wire.Reader.Encode.{to_le, le_int-to_le}
use avraham_sql_tools.Wire.Values.{integer_value}
use native.Mathlib.Nat.{pow-le-pow_right, pow-succ'}
use native.Mathlib.Numerals.{towards_suc}

abbrev starts_minus : Bytes → Bool
starts_minus [] = false
starts_minus (c ∷ s) = c == b'-'

starts_minus-append :
    (s : Bytes) (d : ℕ) → starts_minus s ≡ false → starts_minus (s ++ digit d ∷ []) ≡ false
starts_minus-append [] d h = ground arith
starts_minus-append (c ∷ s) d h = h

starts_minus-digits_in : (k n : ℕ) → starts_minus (digits_in k n) ≡ false
unfolding digits_in
starts_minus-digits_in zero n = refl
starts_minus-digits_in (suc k) n = elim (Bool-cases (ltb n 10)) [
  | inl one ↦ rw one (ground arith)
  | inr more ↦
      rw more
        (starts_minus-append (digits_in k (n / 10)) (n % 10) (starts_minus-digits_in k (n / 10)))
]

-- The number that a decimal text stands for.
pub read_integer : Bytes → ℤ
read_integer [] = pos 0
read_integer (c ∷ s) = if c == b'-' then negated (value s) else pos (value (c ∷ s))

read_integer_plain : (s : Bytes) → starts_minus s ≡ false → read_integer s ≡ pos (value s)
unfolding read_integer
read_integer_plain [] h = unfold value value_in in refl
read_integer_plain (c ∷ s) h = rw h refl

read_integer-decimal : (v : ℕ) → v < 10 ^ 20 → read_integer (decimal v) ≡ pos v
read_integer-decimal v h =
    read_integer_plain (decimal v) (unfold decimal in starts_minus-digits_in 20 v)
    ∙ ap pos (value-decimal v h)

-- The number that `bits` bits stand for in two's complement.
unfoldable pub of_bits : ℕ → ℕ → ℤ
of_bits bits v = if ltb v (2 ^ (bits - 1)) then pos v else negsuc (2 ^ bits - v - 1)

negated_more : (m k : ℕ) → m ≡ suc k → negated m ≡ negsuc k
negated_more m k h = rw h refl

read_integer-signed :
    (bits v : ℕ) → v < 2 ^ bits → 2 ^ bits < 10 ^ 20 → read_integer (signed bits v) ≡ of_bits bits v
unfolding signed of_bits
read_integer-signed bits v h small = elim (Bool-cases (ltb v (2 ^ (bits - 1)))) [
  | inl plain ↦ rw plain (read_integer-decimal v (omega arith))
  | inr minus ↦ rw minus (
      unfold read_integer in
      (ap negated (value-decimal (2 ^ bits - v) (omega arith))
        ∙ negated_more (2 ^ bits - v) (2 ^ bits - v - 1) (omega arith)))
]

pow_add_eight : (m : ℕ) → 2 ^ (m + 8) ≡ 256 * 2 ^ m
pow_add_eight m = simp towards_suc (omega arith)

pow_bytes : (n : ℕ) → 2 ^ (8 * n) ≡ 256 ^ n
pow_bytes zero = refl
pow_bytes (suc n) =
    let more : 8 * suc n ≡ 8 * n + 8 = omega arith in
    rw more (pow_add_eight (8 * n) ∙ ap (◌*◌ 256) (pow_bytes n) ∙ sym (pow-succ' 256 n))

-- An integer of up to 8 bytes is read whole, the bytes behind it left, and the text that stands for it
-- in the statement reads as the number that the bytes stand for: unsigned, or in two's complement with
-- its sign.
pub integer_value-to_le :
    (n v : ℕ) (unsigned : Bool) (r : Bytes)
    → n ≤ 8
    → v < 256 ^ n
    → (integer_value n unsigned (to_le n v ++ r) ≡ some (integer unsigned (8 * n) v, r))
      × (read_integer (integer unsigned (8 * n) v)
          ≡ (if unsigned then pos v else of_bits (8 * n) v))
unfolding integer_value integer
integer_value-to_le n v unsigned r h small =
    let same : 2 ^ (8 * n) ≡ 256 ^ n = pow_bytes n in
    let bound : 256 ^ n ≤ 256 ^ 8 = pow-le-pow_right (omega arith) h in
    (
      rw (le_int-to_le n v r small) refl,
      elim unsigned
          as (λ u.
            read_integer (if u then decimal v else signed (8 * n) v)
            ≡ (if u then pos v else of_bits (8 * n) v)) [
              | true ↦ read_integer-decimal v (omega arith)
              | false ↦ read_integer-signed (8 * n) v (omega arith) (omega arith)
            ],
    )
