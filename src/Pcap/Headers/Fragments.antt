-- ===== src/Pcap/Headers/Fragments.antt =====
-- What the header parsers of pcap.rs make of fragments and of VLAN tags.
use avraham_sql_tools.Base.{
  ℕ, zero, suc, ◌/◌, true, false, none, [], ◌∷◌, ◌++◌, ◌≡◌, ◌≢◌, ◌<◌, leb, ==_iff, refl, sym, arith,
  ◌==◌, ltb, Bool-cases, inl, inr, ◌⊎◌, ◌∙◌, Bytes, length, drop, drop_prefix, length-append,
}
use avraham_sql_tools.Pcap.Headers.{
  byte_at, ethertype_at, strip_ethernet, has_fragment_bits, is_ip_fragment, parse_v4, parse_v6,
  skip_extensions, parse_version, parse_ip_tcp, strip_link,
}

parse_v4-fragment : (ip : Bytes) → has_fragment_bits ip ≡ true → parse_v4 ip ≡ none
unfolding parse_v4
parse_v4-fragment ip h = ground (arith, h)

skip_extensions-fragment :
    (fuel : ℕ) (next : ℕ) (s : Bytes) → next ≡ 44 → skip_extensions fuel next s ≡ none
unfolding skip_extensions
skip_extensions-fragment zero next s h = rw h refl
skip_extensions-fragment (suc fuel) next s h = rw h refl

parse_v6-fragment : (ip : Bytes) → byte_at 6 ip ≡ 44 → parse_v6 ip ≡ none
unfolding parse_v6
parse_v6-fragment ip h =
    rw (skip_extensions-fragment (length ip) (byte_at 6 ip) (drop 40 ip) h) (ground arith)

true-ne-false : true ≢ false
true-ne-false e = cc

fragment_v4 :
    (c : ℕ) (s : Bytes)
    → (c / 16 == 4) ≡ true
    → is_ip_fragment (c ∷ s) ≡ true
    → has_fragment_bits (c ∷ s) ≡ true
unfolding is_ip_fragment
fragment_v4 c s v h =
    let six : (c / 16 == 6) ≡ false = ground arith in
    elim (Bool-cases (leb 8 (length (c ∷ s)))) [
      | inl long ↦ rw (v, long) at h
      | inr short ↦ absurd (true-ne-false (sym (rw (v, short, six) at h)))
    ]

fragment_v6 :
    (c : ℕ) (s : Bytes)
    → (c / 16 == 4) ≡ false
    → (c / 16 == 6) ≡ true
    → is_ip_fragment (c ∷ s) ≡ true
    → byte_at 6 (c ∷ s) ≡ 44
unfolding is_ip_fragment
fragment_v6 c s v w h = elim (Bool-cases (leb 40 (length (c ∷ s)))) [
  | inl long ↦ (==_iff (byte_at 6 (c ∷ s)) 44).0 (rw (v, w, long) at h)
  | inr short ↦ absurd (true-ne-false (sym (rw (v, w, short) at h)))
]

parse_version-fragment :
    (c : ℕ) (s : Bytes) → is_ip_fragment (c ∷ s) ≡ true → parse_version (c / 16) (c ∷ s) ≡ none
unfolding parse_version
parse_version-fragment c s h = elim (Bool-cases (c / 16 == 4)) [
  | inl v ↦ rw v (parse_v4-fragment (c ∷ s) (fragment_v4 c s v h))
  | inr v ↦ elim (Bool-cases (c / 16 == 6)) [
    | inl w ↦ rw (v, w) (parse_v6-fragment (c ∷ s) (fragment_v6 c s v w h))
    | inr w ↦ rw (v, w) refl
  ]
]

-- A datagram that is counted as a fragment is never taken for a TCP segment.
pub parse_ip_tcp-fragment : (ip : Bytes) → is_ip_fragment ip ≡ true → parse_ip_tcp ip ≡ none
unfolding parse_ip_tcp
parse_ip_tcp-fragment [] h = refl
parse_ip_tcp-fragment (c ∷ s) h = rw (parse_version-fragment c s h) refl

ethertype_at-short : (r : Bytes) → length r < 2 → ethertype_at r ≡ none
unfolding ethertype_at
ethertype_at-short [] h = refl
ethertype_at-short (a ∷ []) h = refl
ethertype_at-short (a ∷ b ∷ r) h = absurd (omega arith)

-- The two bytes of the ethertype of a VLAN tag, 802.1Q or QinQ.
abbrev IsTag : ℕ → ℕ → Type 0
IsTag x y = ((x ≡ 0x81) × (y ≡ 0)) ⊎ ((x ≡ 0x88) × (y ≡ 0xa8))

ethertype_at-tagged :
    (x y a b : ℕ) (r : Bytes) → IsTag x y → ethertype_at (x ∷ y ∷ a ∷ b ∷ r) ≡ ethertype_at r
unfolding ethertype_at
ethertype_at-tagged x y a b r (inl (h, k)) = rw (h, k) refl
ethertype_at-tagged x y a b r (inr (h, k)) = rw (h, k) refl

-- A VLAN tag, 802.1Q or QinQ, behind the two hardware addresses of an Ethernet frame makes no
-- difference to what is taken from the frame.
pub strip_link_tagged :
    (macs r : Bytes) (x y a b : ℕ)
    → IsTag x y
    → length macs ≡ 12
    → strip_link 1 (macs ++ x ∷ y ∷ a ∷ b ∷ r) ≡ strip_link 1 (macs ++ r)
unfolding strip_link strip_ethernet
strip_link_tagged macs r x y a b tag h =
    let whole = length-append macs (x ∷ y ∷ a ∷ b ∷ r) in
    let bare = length-append macs r in
    let same = ethertype_at-tagged x y a b r tag in
    let long : ltb (length (macs ++ x ∷ y ∷ a ∷ b ∷ r)) 14 ≡ false = ground arith in
    elim (Bool-cases (ltb (length (macs ++ r)) 14)) [
      | inl short ↦
          rw (long, short, ← h, drop_prefix macs (x ∷ y ∷ a ∷ b ∷ r))
            (same ∙ ethertype_at-short r (ground arith))
      | inr full ↦
          rw (long, full, ← h, drop_prefix macs (x ∷ y ∷ a ∷ b ∷ r), drop_prefix macs r) same
    ]
