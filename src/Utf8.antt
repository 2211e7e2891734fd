-- ===== src/Utf8.antt =====
-- What the Rust standard library says of UTF-8 text, which the program calls: `from_utf8` and the
-- white space that `trim` removes. A `str` is the list of its bytes.
pub mod Lossy
pub mod Split
pub mod Search
use avraham_sql_tools.Base.{
  ℕ, Bool, true, false, ◌&&◌, ◌||◌, List, [], ◌∷◌, Option, none, some, ◌==◌, ltb, leb,
  if◌then◌else◌, Bytes,
}

abbrev pub within : ℕ → ℕ → ℕ → Bool
within lo hi c = leb lo c && leb c hi

abbrev pub Range : Type 0
Range = ℕ × ℕ

abbrev tail_byte : Range
tail_byte = (0x80, 0xbf)

-- The ranges of the bytes that must follow a first byte; `none` where no sequence begins.
unfoldable pub followers : ℕ → Option (List Range)
followers c =
    if ltb c 0x80
    then some []
    else if within 0xc2 0xdf c
    then some (tail_byte ∷ [])
    else if c == 0xe0
    then some ((0xa0, 0xbf) ∷ tail_byte ∷ [])
    else if c == 0xed
    then some ((0x80, 0x9f) ∷ tail_byte ∷ [])
    else if within 0xe1 0xef c
    then some (tail_byte ∷ tail_byte ∷ [])
    else if c == 0xf0
    then some ((0x90, 0xbf) ∷ tail_byte ∷ tail_byte ∷ [])
    else if within 0xf1 0xf3 c
    then some (tail_byte ∷ tail_byte ∷ tail_byte ∷ [])
    else if c == 0xf4
    then some ((0x80, 0x8f) ∷ tail_byte ∷ tail_byte ∷ [])
    else none

abbrev ranges : Option (List Range) → List Range
ranges none = []
ranges (some rs) = rs

abbrev begins : Option (List Range) → Bool
begins none = false
begins (some rs) = true

utf8_from : List Range → Bytes → Bool
unfolding followers
utf8_from [] [] = true
utf8_from (r ∷ rs) [] = false
utf8_from (r ∷ rs) (c ∷ s) = within r.0 r.1 c && utf8_from rs s
utf8_from [] (c ∷ s) = begins (followers c) && utf8_from (ranges (followers c)) s

-- `std::str::from_utf8(b).is_ok()`: the well-formed sequences of the Unicode standard, which leave
-- out overlong forms, surrogates and what lies above U+10FFFF.
unfoldable pub is_utf8 : Bytes → Bool
unfolding utf8_from
is_utf8 = utf8_from []

-- ASCII characters that `char::is_whitespace` holds of: U+0009 to U+000D and the space.
abbrev pub ascii_space : ℕ → Bool
ascii_space c = within 0x09 0x0d c || c == 0x20

-- The third byte of a white space character that begins with E2 80.
abbrev pub general_space : ℕ → Bool
general_space c = within 0x80 0x8a c || c == 0xa8 || c == 0xa9 || c == 0xaf

-- A white space character of two bytes, U+0085 or U+00A0, and one of three: U+1680, U+2000 to
-- U+200A, U+2028, U+2029, U+202F, U+205F or U+3000.
abbrev pub space_two : ℕ → ℕ → Bool
space_two a b = a == 0xc2 && (b == 0x85 || b == 0xa0)

abbrev pub space_three : ℕ → ℕ → ℕ → Bool
space_three a b c =
    (a == 0xe1 && b == 0x9a && c == 0x80)
    || (a == 0xe2 && b == 0x80 && general_space c)
    || (a == 0xe2 && b == 0x81 && c == 0x9f)
    || (a == 0xe3 && b == 0x80 && c == 0x80)

-- `str::trim_start`
unfoldable pub trim_start : Bytes → Bytes
trim_start [] = []
trim_start (a ∷ []) = if ascii_space a then [] else a ∷ []
trim_start (a ∷ b ∷ []) =
    let one = trim_start (b ∷ []) in
    if ascii_space a then one else if space_two a b then [] else a ∷ b ∷ []
trim_start (a ∷ b ∷ c ∷ s) =
    let one = trim_start (b ∷ c ∷ s) in
    let two = trim_start (c ∷ s) in
    let three = trim_start s in
    if ascii_space a
    then one
    else if space_two a b
    then two
    else if space_three a b c
    then three
    else a ∷ b ∷ c ∷ s

-- `str::trim_end` on the bytes in reverse.
unfoldable pub trim_end : Bytes → Bytes
trim_end [] = []
trim_end (a ∷ []) = if ascii_space a then [] else a ∷ []
trim_end (b ∷ a ∷ []) =
    let one = trim_end (a ∷ []) in
    if ascii_space b then one else if space_two a b then [] else b ∷ a ∷ []
trim_end (c ∷ b ∷ a ∷ s) =
    let one = trim_end (b ∷ a ∷ s) in
    let two = trim_end (a ∷ s) in
    let three = trim_end s in
    if ascii_space c
    then one
    else if space_two b c
    then two
    else if space_three a b c
    then three
    else c ∷ b ∷ a ∷ s
