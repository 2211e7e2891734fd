-- ===== src/Wire/Reader/Encode.antt =====
-- The primitives of the wire protocol written out, and `Reader` reads each of them back.
use avraham_sql_tools.Utf8.Lossy.{from_utf8_lossy}
use avraham_sql_tools.Base.{
  ℕ, zero, suc, ◌+◌, ◌*◌, ◌/◌, ◌%◌, ◌^◌, ◌<◌, true, false, [], ◌∷◌, ◌++◌, some, ◌≡◌, refl, ap,
  arith, ◌==◌, leb, ltb, ltb→lt, le→leb, Bool-cases, inl, inr, if◌then◌else◌, Bytes, length,
  take_prefix, drop_prefix, length-append, All, append_assoc,
}
use avraham_sql_tools.Wire.Reader.{
  take_bytes, cstring, from_le, le_int, lenenc_int, lenenc_bytes, skip, high_caps, greeting_caps,
  parse_greeting,
}
use native.Mathlib.Nat.{pow-suc}

-- The `n` low bytes of a number, the lowest first.
unfoldable pub to_le : ℕ → ℕ → Bytes
to_le zero v = []
to_le (suc n) v = (v % 256) ∷ to_le n (v / 256)

pub lenenc : ℕ → Bytes
lenenc v =
    if leb v 0xfa
    then v ∷ []
    else if ltb v 0x10000
    then 0xfc ∷ to_le 2 v
    else if ltb v 0x1000000
    then 0xfd ∷ to_le 3 v
    else 0xfe ∷ to_le 8 v

pub length-to_le : (n v : ℕ) → length (to_le n v) ≡ n
unfolding to_le
length-to_le zero v = refl
length-to_le (suc n) v = ap suc (length-to_le n (v / 256))

pub from_le-to_le : (n v : ℕ) → v < 256 ^ n → from_le (to_le n v) ≡ v
unfolding to_le from_le
from_le-to_le zero v h = omega arith
from_le-to_le (suc n) v h = omega (arith, from_le-to_le n (v / 256) (bound n v (rw pow-suc at h)))
  where
    bound : (n v : ℕ) → v < 256 ^ n * 256 → v / 256 < 256 ^ n
    bound n v h = omega arith

pub take_bytes-append : (s r : Bytes) → take_bytes (length s) (s ++ r) ≡ some (s, r)
unfolding take_bytes
take_bytes-append s r =
    rw
      (
        le→leb (length s) (length (s ++ r)) (omega (arith, length-append s r)),
        take_prefix s r,
        drop_prefix s r,
      )
      refl

pub le_int-to_le : (n v : ℕ) (r : Bytes) → v < 256 ^ n → le_int n (to_le n v ++ r) ≡ some (v, r)
le_int-to_le n v r h =
    rw (rw (length-to_le n v) at (take_bytes-append (to_le n v) r)) (rw (from_le-to_le n v h) refl)

lenenc_int-two :
    (v : ℕ) (r : Bytes) → v < 0x10000 → lenenc_int (0xfc ∷ (to_le 2 v ++ r)) ≡ some (v, r)
unfolding lenenc_int
lenenc_int-two v r h = le_int-to_le 2 v r (omega arith)

lenenc_int-three :
    (v : ℕ) (r : Bytes) → v < 0x1000000 → lenenc_int (0xfd ∷ (to_le 3 v ++ r)) ≡ some (v, r)
unfolding lenenc_int
lenenc_int-three v r h = le_int-to_le 3 v r (omega arith)

lenenc_int-eight :
    (v : ℕ) (r : Bytes) → v < 2 ^ 64 → lenenc_int (0xfe ∷ (to_le 8 v ++ r)) ≡ some (v, r)
unfolding lenenc_int
lenenc_int-eight v r h = le_int-to_le 8 v r (omega arith)

lenenc_int-one : (v : ℕ) (r : Bytes) → leb v 0xfa ≡ true → lenenc_int (v ∷ r) ≡ some (v, r)
unfolding lenenc_int
lenenc_int-one v r h = rw h refl

-- A length-encoded integer below 2 ^ 64 is read back, in each of its four forms, with the bytes
-- behind it.
pub lenenc_int-lenenc : (v : ℕ) (r : Bytes) → v < 2 ^ 64 → lenenc_int (lenenc v ++ r) ≡ some (v, r)
unfolding lenenc
lenenc_int-lenenc v r h = elim (Bool-cases (leb v 0xfa)) [
  | inl one ↦ rw one (lenenc_int-one v r one)
  | inr more ↦ rw more (elim (Bool-cases (ltb v 0x10000)) [
    | inl two ↦ rw two (lenenc_int-two v r (ltb→lt _ _ two))
    | inr more ↦ rw more (elim (Bool-cases (ltb v 0x1000000)) [
      | inl three ↦ rw three (lenenc_int-three v r (ltb→lt _ _ three))
      | inr more ↦ rw more (lenenc_int-eight v r h)
    ])
  ])
]

pub lenenc_string : Bytes → Bytes
lenenc_string s = lenenc (length s) ++ s

-- A length-encoded byte string of less than 2 ^ 64 bytes is read back, whatever bytes it holds, with
-- the bytes behind it.
pub lenenc_bytes-lenenc_string :
    (s r : Bytes) → length s < 2 ^ 64 → lenenc_bytes (lenenc_string s ++ r) ≡ some (s, r)
unfolding lenenc_bytes lenenc_string
lenenc_bytes-lenenc_string s r h =
    rw (append_assoc (lenenc (length s)) s r, lenenc_int-lenenc (length s) (s ++ r) h)
      (take_bytes-append s r)

abbrev pub NoNul : Bytes → Type 0
NoNul = All (λ c. (c == 0) ≡ false)

cstring-append : (s r : Bytes) → NoNul s → cstring (s ++ 0 ∷ r) ≡ some (s, r)
unfolding cstring
cstring-append [] r _ = refl
cstring-append (c ∷ s) r (hc, hs) = rw (hc, cstring-append s r hs) refl

-- The greeting of a server of protocol version 10, up to the capability bytes.
pub greeting : Bytes → ℕ → Bytes → ℕ → Bytes → ℕ → Bytes → Bytes
greeting version thread_id scramble low middle high rest =
    10
    ∷ (version
        ++ 0
          ∷ (to_le 4 thread_id
              ++ (scramble ++ (to_le 2 low ++ (middle ++ (to_le 2 high ++ rest))))))

skip_prefix : (n : ℕ) (s r : Bytes) → length s ≡ n → skip n (s ++ r) ≡ r
unfolding skip
skip_prefix n s r h = rw (← h) (drop_prefix s r)

take_bytes-to_le : (n v : ℕ) (r : Bytes) → take_bytes n (to_le n v ++ r) ≡ some (to_le n v, r)
take_bytes-to_le n v r = rw (length-to_le n v) at (take_bytes-append (to_le n v) r)

high_caps-append :
    (middle rest : Bytes) (high : ℕ)
    → length middle ≡ 3
    → high < 2 ^ 16
    → high_caps (middle ++ (to_le 2 high ++ rest)) ≡ high * 2 ^ 16
unfolding high_caps
high_caps-append middle rest high hm hh =
    rw
      (
        skip_prefix 3 middle (to_le 2 high ++ rest) hm,
        take_bytes-to_le 2 high rest,
        high_caps,
        from_le-to_le 2 high hh,
      )
      refl

greeting_caps-greeting :
    (scramble middle rest : Bytes) (low high : ℕ)
    → length scramble ≡ 9
    → length middle ≡ 3
    → low < 2 ^ 16
    → high < 2 ^ 16
    → greeting_caps (scramble ++ (to_le 2 low ++ (middle ++ (to_le 2 high ++ rest))))
      ≡ low + high * 2 ^ 16
unfolding greeting_caps
greeting_caps-greeting scramble middle rest low high hs hm hl hh =
    rw
      (
        skip_prefix 9 scramble (to_le 2 low ++ (middle ++ (to_le 2 high ++ rest))) hs,
        take_bytes-to_le 2 low (middle ++ (to_le 2 high ++ rest)),
        greeting_caps,
        from_le-to_le 2 low hl,
        high_caps-append middle rest high hm hh,
      )
      refl

-- A greeting is read back: the version, which has no NUL, as text, with U+FFFD for what in it is not
-- UTF-8, the 32-bit thread id and both 16-bit halves
-- of the capability flags, whatever the 9 bytes of scramble and filler, the 3 of charset and status
-- and the rest are.
pub parse_greeting-greeting :
    (version scramble middle rest : Bytes) (thread_id low high : ℕ)
    → NoNul version
    → thread_id < 2 ^ 32
    → length scramble ≡ 9
    → length middle ≡ 3
    → low < 2 ^ 16
    → high < 2 ^ 16
    → parse_greeting (greeting version thread_id scramble low middle high rest)
      ≡ some (record {
        version = from_utf8_lossy version;
        thread_id = thread_id;
        caps = low + high * 2 ^ 16;
      })
unfolding parse_greeting greeting
parse_greeting-greeting version scramble middle rest thread_id low high hv ht hs hm hl hh =
    let tail = scramble ++ (to_le 2 low ++ (middle ++ (to_le 2 high ++ rest))) in
    rw
      (
        cstring-append version (to_le 4 thread_id ++ tail) hv,
        le_int-to_le 4 thread_id tail ht,
        greeting_caps-greeting scramble middle rest low high hs hm hl hh,
      )
      refl
