-- ===== src/Fingerprint/Bounds.antt =====
-- Every round of the main loop of `fingerprint` takes a byte at least, so its fuel is enough.
use avraham_sql_tools.Ascii.{is_digit}
use avraham_sql_tools.Base.{
  ℕ, zero, suc, ◌≤◌, min, true, ◌&&◌, ◌||◌, [], ◌∷◌, ◌≡◌, refl, arith, ◌==◌, Bytes, length, drop,
  length-drop, inl, inr, Bool-cases,
}
use avraham_sql_tools.Fingerprint.Scan.{
  next_digit, skip_string_body, skip_string, skip_digits, skip_hex, skip_fraction, skip_exponent,
  skip_number, utf8_len, push_lossy_lower, skip_line, skip_block, backtick_in, number_at, step_at,
  scan_in, scan,
}

length-skip_string_body : (q : ℕ) (s : Bytes) → length (skip_string_body q s) ≤ length s
unfolding skip_string_body
length-skip_string_body q [] = omega arith
length-skip_string_body q (c ∷ []) = omega arith
length-skip_string_body q (c ∷ d ∷ s) =
    ground (arith, length-skip_string_body q s, length-skip_string_body q (d ∷ s))

length-skip_digits : (s : Bytes) → length (skip_digits s) ≤ length s
unfolding skip_digits
length-skip_digits [] = omega arith
length-skip_digits (c ∷ s) = ground (arith, length-skip_digits s)

length-skip_hex : (s : Bytes) → length (skip_hex s) ≤ length s
unfolding skip_hex
length-skip_hex [] = omega arith
length-skip_hex (c ∷ s) = grind (arith, length-skip_hex s)

length-skip_fraction : (s : Bytes) → length (skip_fraction s) ≤ length s
unfolding skip_fraction
length-skip_fraction [] = omega arith
length-skip_fraction (c ∷ s) = ground (arith, length-skip_digits s)

length-skip_exponent : (s : Bytes) → length (skip_exponent s) ≤ length s
unfolding skip_exponent
length-skip_exponent [] = omega arith
length-skip_exponent (c ∷ []) = ground arith
length-skip_exponent (c ∷ d ∷ s) = ground (arith, length-skip_digits s, length-skip_digits (d ∷ s))

length-skip_real : (t : Bytes) → length (skip_exponent (skip_fraction t)) ≤ length t
length-skip_real t = omega (arith, length-skip_exponent (skip_fraction t), length-skip_fraction t)

-- The text of a number is a byte at least.
length-skip_number :
    (c : ℕ) (s : Bytes)
    → (is_digit c || (c == b'.' && next_digit s)) ≡ true
    → length (skip_number (c ∷ s)) ≤ length s
unfolding skip_number skip_digits skip_fraction
length-skip_number c s h = elim (Bool-cases (is_digit c)) [
  | inl digit ↦ ground (
    arith,
    length-skip_real (skip_digits s),
    length-skip_digits s,
    length-skip_hex (drop 1 s),
    length-drop 1 s,
  )
  | inr other ↦ ground (
    arith,
    length-skip_exponent (skip_digits s),
    length-skip_digits s,
    length-skip_hex (drop 1 s),
    length-drop 1 s,
  )
]

length-push_lossy_lower :
    (c : ℕ) (s out : Bytes) → length (push_lossy_lower c s out).rest ≤ length s
unfolding push_lossy_lower utf8_len
length-push_lossy_lower c s out =
    grind (arith, length-drop (min (utf8_len c) (length (c ∷ s))) (c ∷ s))

length-skip_line : (s : Bytes) → length (skip_line s) ≤ length s
unfolding skip_line
length-skip_line [] = omega arith
length-skip_line (c ∷ s) = ground (arith, length-skip_line s)

length-skip_block : (s : Bytes) → length (skip_block s) ≤ length s
unfolding skip_block
length-skip_block [] = omega arith
length-skip_block (c ∷ []) = omega arith
length-skip_block (c ∷ d ∷ s) = ground (arith, length-skip_block (d ∷ s))

length-backtick_in : (fuel : ℕ) (s out : Bytes) → length (backtick_in fuel s out).rest ≤ length s
unfolding backtick_in
length-backtick_in zero [] out = omega arith
length-backtick_in (suc fuel) [] out = omega arith
length-backtick_in zero (c ∷ s) out = omega arith
length-backtick_in (suc fuel) (c ∷ s) out =
    let pushed = push_lossy_lower c s out in
    ground (
      arith,
      length-drop 1 s,
      length-push_lossy_lower c s out,
      length-backtick_in fuel (drop 1 s) (b'`' ∷ b'`' ∷ out),
      length-backtick_in fuel pushed.rest pushed.out,
    )

length-number_at :
    (c : ℕ) (s out : Bytes)
    → (is_digit c || (c == b'.' && next_digit s)) ≡ true
    → length (number_at c s out).rest ≤ length s
unfolding number_at
length-number_at c s out h = grind (arith, length-skip_number c s h)

pub length-step_at : (c : ℕ) (s out : Bytes) → length (step_at c s out).rest ≤ length s
unfolding step_at skip_string
length-step_at c s out =
    let number = is_digit c || (c == b'.' && next_digit s) in
    elim (Bool-cases number) [
      | inl h ↦ ground (
        arith,
        length-skip_string_body c s,
        length-backtick_in (length s) s (b'`' ∷ out),
        length-skip_block (drop 1 s),
        length-drop 1 s,
        length-skip_line s,
        length-number_at c s out h,
      )
      | inr h ↦ ground (
        arith,
        length-skip_string_body c s,
        length-backtick_in (length s) s (b'`' ∷ out),
        length-skip_block (drop 1 s),
        length-drop 1 s,
        length-skip_line s,
        length-push_lossy_lower c s out,
      )
    ]

pub scan_in-fuel :
    (f g : ℕ) (s out : Bytes) → length s ≤ f → length s ≤ g → scan_in f s out ≡ scan_in g s out
unfolding scan_in
scan_in-fuel zero zero s out p q = refl
scan_in-fuel zero (suc g) [] out p q = refl
scan_in-fuel zero (suc g) (c ∷ s) out p q = absurd (omega arith)
scan_in-fuel (suc f) zero [] out p q = refl
scan_in-fuel (suc f) zero (c ∷ s) out p q = absurd (omega arith)
scan_in-fuel (suc f) (suc g) [] out p q = refl
scan_in-fuel (suc f) (suc g) (c ∷ s) out p q =
    let next = step_at c s out in
    let shorter = length-step_at c s out in
    scan_in-fuel f g next.rest next.out (omega arith) (omega arith)

-- One round of the main loop.
pub scan-cons :
    (c : ℕ) (s out : Bytes) → scan (c ∷ s) out ≡ scan (step_at c s out).rest (step_at c s out).out
unfolding scan scan_in
scan-cons c s out =
    let next = step_at c s out in
    let shorter = length-step_at c s out in
    scan_in-fuel (length s) (length next.rest) next.rest next.out shorter (omega arith)
