-- ===== src/Fingerprint/Normalize/Registry.antt =====
-- The ids of `FingerprintRegistry`: they stand for classes one to one, and do not change.
use avraham_sql_tools.Base.{
  ℕ, zero, suc, ◌%◌, ◌^◌, ◌<◌, ◌≡◌, ◌⊎◌, ◌↔◌, refl, sym, ap, ◌∙◌, none, some, List, [], ◌∷◌, ◌++◌,
  append-nil, Bytes, length, get_elem?, bytes_eq, bytes_eq_iff, bytes_eq_refl, arith, inl, inr,
  Bool-cases, Option-cases,
}
use avraham_sql_tools.Fingerprint.Normalize.{
  FingerprintRegistry, new, get, insert, intern_text, intern, fingerprint,
}

-- The map and the list of texts say the same.
abbrev pub IsWell : FingerprintRegistry → Type 0
IsWell r = (key : Bytes) (id : ℕ) → (get key r.ids ≡ some id) ↔ (get_elem? r.texts id ≡ some key)

get_elem?-last : (xs : List Bytes) (x : Bytes) → get_elem? (xs ++ x ∷ []) (length xs) ≡ some x
get_elem?-last [] x = refl
get_elem?-last (y ∷ xs) x = get_elem?-last xs x

get_elem?-keeps :
    (xs ys : List Bytes) (y : Bytes) (i : ℕ)
    → get_elem? xs i ≡ some y
    → get_elem? (xs ++ ys) i ≡ some y
get_elem?-keeps [] ys y i h = cc
get_elem?-keeps (z ∷ xs) ys y zero h = h
get_elem?-keeps (z ∷ xs) ys y (suc i) h = get_elem?-keeps xs ys y i h

get_elem?-cases :
    (xs : List Bytes) (x y : Bytes) (i : ℕ)
    → get_elem? (xs ++ x ∷ []) i ≡ some y
    → (get_elem? xs i ≡ some y) ⊎ ((i ≡ length xs) × (x ≡ y))
get_elem?-cases [] x y zero h = inr (refl, cc)
get_elem?-cases [] x y (suc i) h = cc
get_elem?-cases (z ∷ xs) x y zero h = inl h
get_elem?-cases (z ∷ xs) x y (suc i) h = elim (get_elem?-cases xs x y i h) [
  | inl old ↦ inl old
  | inr (e, same) ↦ inr (ap suc e, same)
]

get-insert : (key : Bytes) (id : ℕ) (m : List (Bytes × ℕ)) → get key (insert key id m) ≡ some id
unfolding get
get-insert key id m = rw (bytes_eq_refl key) refl

-- What the map says once a new class is there.
get-insert-cases :
    (key fp : Bytes) (id : ℕ) (m : List (Bytes × ℕ))
    → ((key ≡ fp) × (get key (insert fp id m) ≡ some id)) ⊎ (get key (insert fp id m) ≡ get key m)
unfolding get
get-insert-cases key fp id m = elim (Bool-cases (bytes_eq key fp)) [
  | inl same ↦ inl ((bytes_eq_iff key fp).0 same, rw same refl)
  | inr other ↦ inr (rw other refl)
]

intern_text_known :
    (r : FingerprintRegistry) (fp : Bytes) (id : ℕ)
    → get fp r.ids ≡ some id
    → intern_text r fp ≡ (r, id)
unfolding intern_text
intern_text_known r fp id there = rw (there, intern_text) refl

abbrev added : FingerprintRegistry → Bytes → FingerprintRegistry
added r fp = record { ids = insert fp (length r.texts) r.ids; texts = r.texts ++ fp ∷ [] }

-- Fewer classes than a 32-bit id can number.
abbrev pub Room : FingerprintRegistry → Type 0
Room r = length r.texts < 2 ^ 32

intern_text_new :
    (r : FingerprintRegistry) (fp : Bytes)
    → Room r
    → get fp r.ids ≡ none
    → intern_text r fp ≡ (added r fp, length r.texts)
unfolding intern_text
intern_text_new r fp room missing =
    let small : length r.texts % 2 ^ 32 ≡ length r.texts = omega arith in
    rw (missing, intern_text) (rw small refl)

added-IsWell :
    (r : FingerprintRegistry) (fp : Bytes) → IsWell r → get fp r.ids ≡ none → IsWell (added r fp)
added-IsWell r fp w missing key id = (
  (λ found. elim (get-insert-cases key fp (length r.texts) r.ids) [
    | inl (same, here) ↦
        let place : length r.texts ≡ id = cc in let last = get_elem?-last r.texts fp in cc
    | inr old ↦ get_elem?-keeps r.texts (fp ∷ []) key id ((w key id).0 (sym old ∙ found))
  ]),
  (λ found. elim (get_elem?-cases r.texts fp key id found) [
    | inl old ↦ elim (get-insert-cases key fp (length r.texts) r.ids) [
      | inl (same, here) ↦ let there = (w key id).1 old in cc
      | inr kept ↦ kept ∙ (w key id).1 old
    ]
    | inr (last, same) ↦ let there = get-insert fp (length r.texts) r.ids in cc
  ]),
)

-- What `intern` promises of the registry and of the id that it returns.
abbrev pub Interned : FingerprintRegistry → Bytes → FingerprintRegistry × ℕ → Type 0
Interned r fp (after, id) =
    IsWell after
    × (get_elem? after.texts id ≡ some fp)
    × (extra : List Bytes) × (after.texts ≡ r.texts ++ extra)

intern_text-Interned :
    (r : FingerprintRegistry) (fp : Bytes) → IsWell r → Room r → Interned r fp (intern_text r fp)
intern_text-Interned r fp w room = elim (Option-cases (get fp r.ids)) [
  | inr (id, there) ↦
      rw (intern_text_known r fp id there) (w, (w fp id).0 there, [], sym (append-nil r.texts))
  | inl missing ↦
      rw (intern_text_new r fp room missing)
        (added-IsWell r fp w missing, get_elem?-last r.texts fp, fp ∷ [], refl)
]

-- Interning a query keeps the registry's map and list in agreement, leaves the texts in the list at
-- their places, and returns the place of the query's fingerprint in the list, where the map and the
-- list agree before and there are fewer than 2 ^ 32 classes.
pub intern-Interned :
    (r : FingerprintRegistry) (query : Bytes)
    → IsWell r
    → Room r
    → Interned r (fingerprint query) (intern r query)
unfolding intern
intern-Interned r query w room = intern_text-Interned r (fingerprint query) w room

-- Two queries get the same id when their fingerprints are the same, and only then, where the map
-- and the list agree before the first one and there are fewer than 2 ^ 32 classes before each.
pub intern_iff :
    (r : FingerprintRegistry) (p q : Bytes)
    → IsWell r
    → Room r
    → Room (intern r p).0
    → ((intern r p).1 ≡ (intern (intern r p).0 q).1) ↔ (fingerprint p ≡ fingerprint q)
intern_iff r p q w room room' =
    let (w1, place1, more1, keep1) = intern-Interned r p w room in
    let (w2, place2, more2, keep2) = intern-Interned (intern r p).0 q w1 room' in
    let kept = get_elem?-keeps (intern r p).0.texts more2 (fingerprint p) (intern r p).1 place1 in
    let known1 =
      (w2 (fingerprint p) (intern r p).1).1 (ap (λ l. get_elem? l (intern r p).1) keep2 ∙ kept) in
    let known2 = (w2 (fingerprint q) (intern (intern r p).0 q).1).1 place2 in
    ((λ same. cc), (λ same. cc))

pub new-IsWell : IsWell new
unfolding new get
new-IsWell key id = ((λ h. cc), (λ h. cc))
