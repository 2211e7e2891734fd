-- ===== src/Ascii.antt =====
-- The byte classes of Rust's `u8` that the scanners use.
use avraham_sql_tools.Base.{ℕ, ◌+◌, Bool, ◌&&◌, ◌||◌, ◌==◌, leb, if◌then◌else◌}

abbrev within : ℕ → ℕ → ℕ → Bool
within lo hi c = leb lo c && leb c hi

unfoldable pub is_digit : ℕ → Bool
is_digit c = within b'0' b'9' c

unfoldable pub is_alphabetic : ℕ → Bool
is_alphabetic c = within b'a' b'z' c || within b'A' b'Z' c

unfoldable pub is_alphanumeric : ℕ → Bool
unfolding is_digit is_alphabetic
is_alphanumeric c = is_alphabetic c || is_digit c

-- space, \t, \n, form feed and \r
unfoldable pub is_whitespace : ℕ → Bool
is_whitespace c = c == 0x20 || c == 0x09 || c == 0x0a || c == 0x0c || c == 0x0d

unfoldable pub to_lower : ℕ → ℕ
to_lower c = if within b'A' b'Z' c then c + 32 else c
