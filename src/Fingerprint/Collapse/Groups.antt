-- ===== src/Fingerprint/Collapse/Groups.antt =====
-- The groups of placeholders that the collapses of fingerprint.rs recognise.
use avraham_sql_tools.Base.{
  ℕ, zero, suc, Bool, true, false, ◌||◌, Option, some, [], ◌∷◌, ◌++◌, ◌≡◌, refl, arith, ◌==◌, ltb,
  Bytes, codes, All, replicate, bytes_eq,
}
use avraham_sql_tools.Fingerprint.Collapse.{
  is_boundary, word_at, skip_spaces, group_loop, placeholder_group_end, in_list_end,
}

-- What a group may hold.
abbrev pub is_group_byte : ℕ → Bool
is_group_byte c = c == b'?' || c == b',' || c == b' '

unfoldable pub placeholders : Bytes → ℕ
placeholders [] = 0
placeholders (c ∷ s) =
    let rest = placeholders s in elim (c == b'?') [ true ↦ suc rest | false ↦ rest ]

group_loop-group :
    (n : ℕ) (body rest : Bytes)
    → All (λ c. is_group_byte c ≡ true) body
    → ltb 0 n ≡ true
    → group_loop n (body ++ b')' ∷ rest) ≡ some rest
unfolding group_loop
group_loop-group n [] rest h p = rw p refl
group_loop-group n (c ∷ body) rest (hc, h) p =
    ground
      (arith, group_loop-group n body rest h p, group_loop-group (suc n) body rest h (ground arith))

group_loop-first :
    (body rest : Bytes)
    → All (λ c. is_group_byte c ≡ true) body
    → ltb 0 (placeholders body) ≡ true
    → group_loop 0 (body ++ b')' ∷ rest) ≡ some rest
unfolding group_loop placeholders
group_loop-first [] rest h p = ground arith
group_loop-first (c ∷ body) rest (hc, h) p =
    ground (arith, group_loop-first body rest h, group_loop-group 1 body rest h refl)

skip_spaces-group : (n : ℕ) (s : Bytes) → skip_spaces (replicate n b' ' ++ b'(' ∷ s) ≡ b'(' ∷ s
unfolding skip_spaces
skip_spaces-group zero s = refl
skip_spaces-group (suc n) s = skip_spaces-group n s

-- The word IN at a word boundary, any spaces and a group in parentheses are taken as one list, up to
-- its closing parenthesis, whatever placeholders, commas and spaces the group holds, if there is a
-- placeholder among them.
pub in_list_end-group :
    (before : Option ℕ) (n : ℕ) (body rest : Bytes)
    → is_boundary before ≡ true
    → All (λ c. is_group_byte c ≡ true) body
    → ltb 0 (placeholders body) ≡ true
    → in_list_end before (codes "in" ++ (replicate n b' ' ++ b'(' ∷ (body ++ b')' ∷ rest)))
      ≡ some rest
unfolding in_list_end word_at placeholder_group_end bytes_eq
in_list_end-group before zero body rest b h p =
    unfold is_boundary skip_spaces in rw b (group_loop-first body rest h p)
in_list_end-group before (suc n) body rest b h p =
    unfold is_boundary in
    rw (b, skip_spaces-group (suc n) (body ++ b')' ∷ rest)) (group_loop-first body rest h p)
