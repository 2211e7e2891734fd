-- ===== src/Pcap/Seq/Rel.antt =====
-- The map from wrapped 32-bit sequence numbers to offsets in the stream.
use avraham_sql_tools.Base.{ℕ, ◌+◌, ◌-◌, ◌/◌, ◌%◌, ◌^◌, ◌≤◌, ◌<◌, ◌≡◌, arith, ◌⊎◌, inl, inr}
use avraham_sql_tools.Pcap.Seq.{SeqStream, u32_mod, u64_mod, closer, candidate, rel}

abbrev IsFar : ℕ → ℕ → ℕ → Type 0
IsFar base o x = (x ≡ o) ⊎ ((x + 2 ^ 31 ≤ base) ⊎ (base + 2 ^ 31 ≤ x))

module _ (base o : ℕ) (ahead : o < base + 2 ^ 31) (behind : base < o + 2 ^ 31) where
  closer-left : (x : ℕ) → IsFar base o x → closer base o x ≡ o
  unfolding closer
  closer-left x h = ground arith

  closer-right : (x : ℕ) → IsFar base o x → closer base x o ≡ o
  unfolding closer
  closer-right x h = ground arith

  closer-IsFar : (x y : ℕ) → IsFar base o x → IsFar base o y → IsFar base o (closer base x y)
  unfolding closer
  closer-IsFar x y h k = ground arith

low_lem :
    (isn o : ℕ) → isn < u32_mod → ((isn + o) % u32_mod + u32_mod - isn) % u32_mod ≡ o % u32_mod
low_lem isn o h = omega arith

-- The offset nearest to `base` among those with the same low half.
nearest : ℕ → ℕ → ℕ
nearest base low =
    let k = base / u32_mod in
    closer base (closer base (candidate k low) (candidate ((k + u64_mod - 1) % u64_mod) low))
      (candidate ((k + 1) % u64_mod) low)

module _ (base o : ℕ) (base_fits : base < 2 ^ 63) (o_fits : o < 2 ^ 63) (ahead : o < base + 2 ^ 31)
    (behind : base < o + 2 ^ 31) where
  candidate_at : o / u32_mod ≡ base / u32_mod → candidate (base / u32_mod) (o % u32_mod) ≡ o
  candidate_at e = omega arith

  candidate_below :
      o / u32_mod + 1 ≡ base / u32_mod
      → candidate ((base / u32_mod + u64_mod - 1) % u64_mod) (o % u32_mod) ≡ o
  candidate_below e = omega arith

  candidate_above :
      o / u32_mod ≡ base / u32_mod + 1
      → candidate ((base / u32_mod + 1) % u64_mod) (o % u32_mod) ≡ o
  candidate_above e = omega arith

  halves :
      (o / u32_mod ≡ base / u32_mod)
      ⊎ (o / u32_mod + 1 ≡ base / u32_mod)
      ⊎ (o / u32_mod ≡ base / u32_mod + 1)
  halves = ground arith

  -- A candidate has the same low half as `o`, so it is `o` or far away from it.
  candidate-IsFar : (kk : ℕ) → IsFar base o (candidate kk (o % u32_mod))
  candidate-IsFar kk = ground arith

  nearest_lem : nearest base (o % u32_mod) ≡ o
  unfolding nearest
  nearest_lem =
      let k = base / u32_mod in
      let far = candidate-IsFar in
      let left = closer-left base o ahead behind in
      let right = closer-right base o ahead behind in
      elim halves [
        | inl e ↦
            rw (candidate_at e, left _ (far ((k + u64_mod - 1) % u64_mod)))
              (left _ (far ((k + 1) % u64_mod)))
        | inr r ↦ elim r [
          | inl e ↦ rw (candidate_below e, right _ (far k)) (left _ (far ((k + 1) % u64_mod)))
          | inr e ↦ rw (candidate_above e) (
              right _
                (closer-IsFar base o ahead behind _ _ (far k) (far ((k + u64_mod - 1) % u64_mod))))
        ]
      ]

-- A sequence number is mapped to the offset that it stands for, through every wraparound, if that
-- offset is less than 2 ^ 31 bytes away from the next expected byte.
pub rel_exact :
    (st : SeqStream) (o : ℕ)
    → st.isn < u32_mod
    → st.next_rel < 2 ^ 63
    → o < 2 ^ 63
    → o < st.next_rel + 2 ^ 31
    → st.next_rel < o + 2 ^ 31
    → rel st ((st.isn + o) % u32_mod) ≡ o
unfolding rel
rel_exact st o hi hb ho ha hd =
    rw (low_lem st.isn o hi) (unfold nearest in nearest_lem st.next_rel o hb ho ha hd)
