-- ===== src/Pcap/Seq/Slices.antt =====
-- Stretches of an unbounded byte stream.
use avraham_sql_tools.Base.{
  ℕ, zero, suc, ◌+◌, ◌-◌, ◌≤◌, [], ◌∷◌, ◌++◌, ◌≡◌, refl, ◌∙◌, ap, arith, Bytes, length, drop,
}

-- The byte at each relative offset.
abbrev pub Stream : Type 0
Stream = ℕ → ℕ

-- `n` bytes of the stream from offset `a` on.
unfoldable pub slice : Stream → ℕ → ℕ → Bytes
slice s a zero = []
slice s a (suc n) = s a ∷ slice s (a + 1) n

pub length-slice : (s : Stream) (a n : ℕ) → length (slice s a n) ≡ n
unfolding slice
length-slice s a zero = refl
length-slice s a (suc n) = ap suc (length-slice s (a + 1) n)

pub drop-slice : (s : Stream) (k a n : ℕ) → k ≤ n → drop k (slice s a n) ≡ slice s (a + k) (n - k)
unfolding slice
drop-slice s zero a n h =
    let e : a + 0 ≡ a = omega arith in let e' : n - 0 ≡ n = omega arith in rw (e, e') refl
drop-slice s (suc k) a zero h = absurd (omega arith)
drop-slice s (suc k) a (suc n) h =
    let e : a + suc k ≡ a + 1 + k = omega arith in
    let e' : suc n - suc k ≡ n - k = omega arith in
    rw (e, e') (drop-slice s k (a + 1) n (omega arith))

pub slice-append : (s : Stream) (a m n : ℕ) → slice s a m ++ slice s (a + m) n ≡ slice s a (m + n)
unfolding slice
slice-append s a zero n =
    let e : a + 0 ≡ a = omega arith in let e' : 0 + n ≡ n = omega arith in rw (e, e') refl
slice-append s a (suc m) n =
    let e : a + suc m ≡ a + 1 + m = omega arith in
    let e' : suc m + n ≡ suc (m + n) = omega arith in
    rw (e, e') (ap (◌∷◌ (s a)) (slice-append s (a + 1) m n))

pub slice-nil : (s : Stream) (a n : ℕ) → n ≡ 0 → slice s a n ≡ []
unfolding slice
slice-nil s a n h = rw h refl

-- Two stretches that meet make one.
pub slice_join :
    (s : Stream) (a b c : ℕ)
    → a ≤ b
    → b ≤ c
    → slice s a (b - a) ++ slice s b (c - b) ≡ slice s a (c - a)
slice_join s a b c h k =
    let e : b ≡ a + (b - a) = omega arith in
    let e' : c - a ≡ b - a + (c - b) = omega arith in
    ap (λ x. slice s a (b - a) ++ slice s x (c - b)) e
    ∙ slice-append s a (b - a) (c - b)
    ∙ rw e' refl
