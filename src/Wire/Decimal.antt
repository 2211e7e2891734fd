-- ===== src/Wire/Decimal.antt =====
-- Numbers as `to_string` and `format!` write them.
pub mod Reads
use avraham_sql_tools.Base.{
  ℕ, zero, suc, ◌+◌, ◌-◌, ◌*◌, ◌/◌, ◌%◌, ◌^◌, Bool, [], ◌∷◌, ◌++◌, ltb, if◌then◌else◌, Bytes,
  length, replicate,
}

abbrev pub digit : ℕ → ℕ
digit d = b'0' + d

-- On fuel, one for each digit.
unfoldable pub digits_in : ℕ → ℕ → Bytes
digits_in zero n = []
digits_in (suc fuel) n =
    let more = digits_in fuel (n / 10) ++ digit (n % 10) ∷ [] in
    if ltb n 10 then digit n ∷ [] else more

-- A number of 64 bits has 20 digits at most.
unfoldable pub decimal : ℕ → Bytes
unfolding digits_in
decimal n = digits_in 20 n

-- `{:0w}`
unfoldable pub padded : ℕ → ℕ → Bytes
unfolding decimal
padded w n = replicate (w - length (decimal n)) b'0' ++ decimal n

-- A number of `bits` bits as a signed one: `(v as i32).to_string()` and its kin.
unfoldable pub signed : ℕ → ℕ → Bytes
unfolding decimal
signed bits v = if ltb v (2 ^ (bits - 1)) then decimal v else b'-' ∷ decimal (2 ^ bits - v)

unfoldable pub integer : Bool → ℕ → ℕ → Bytes
unfolding decimal signed
integer unsigned bits v = if unsigned then decimal v else signed bits v
