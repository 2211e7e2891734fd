-- ===== src/Fingerprint/Normalize.antt =====
-- `fingerprint` and `FingerprintRegistry`. A `HashMap` is an association list.
pub mod Registry
use avraham_sql_tools.Base.{
  ℕ, zero, suc, ◌+◌, ◌%◌, ◌^◌, Option, none, some, List, [], ◌∷◌, ◌++◌, ◌==◌, if◌then◌else◌, Bytes,
  length, bytes_eq,
}
use avraham_sql_tools.Utf8.{trim_start, trim_end}
use avraham_sql_tools.Fingerprint.Scan.{scan}
use avraham_sql_tools.Fingerprint.Collapse.{collapse_in_lists, collapse_values_lists}
use mathlib.Core.List.{reverse}

-- `while s.ends_with(';')`, on a text in reverse and on fuel.
unfoldable pub strip_semicolons : ℕ → Bytes → Bytes
unfolding trim_end
strip_semicolons zero s = s
strip_semicolons (suc fuel) [] = []
strip_semicolons (suc fuel) (c ∷ s) =
    let stripped = strip_semicolons fuel (trim_end s) in if c == b';' then stripped else c ∷ s

-- What follows the main loop, on its output in reverse.
unfoldable pub finish : Bytes → Bytes
unfolding strip_semicolons trim_start trim_end collapse_in_lists collapse_values_lists
finish out =
    let trimmed = reverse (trim_start (reverse (trim_end out))) in
    let s = reverse (strip_semicolons (length trimmed) trimmed) in
    collapse_values_lists (collapse_in_lists s)

unfoldable pub fingerprint : Bytes → Bytes
unfolding finish scan
fingerprint query = finish (scan query [])

pub record FingerprintRegistry : Type 0 where
  pub ids : List (Bytes × ℕ)
  pub texts : List Bytes

unfoldable pub new : FingerprintRegistry
new = record { ids = []; texts = [] }

-- `HashMap::get`
unfoldable pub get : Bytes → List (Bytes × ℕ) → Option ℕ
unfolding bytes_eq
get key [] = none
get key ((k, id) ∷ m) = if bytes_eq key k then some id else get key m

-- `HashMap::insert` of a key that is not there.
abbrev pub insert : Bytes → ℕ → List (Bytes × ℕ) → List (Bytes × ℕ)
insert key id m = (key, id) ∷ m

-- A class that is not there yet gets the next number, which is kept in 32 bits.
unfoldable pub intern_text : FingerprintRegistry → Bytes → FingerprintRegistry × ℕ
unfolding get
intern_text r fp = elim (get fp r.ids) [
  | some id ↦ (r, id)
  | none ↦
      let id = length r.texts % 2 ^ 32 in
      (record { ids = insert fp id r.ids; texts = r.texts ++ fp ∷ [] }, id)
]

unfoldable pub intern : FingerprintRegistry → Bytes → FingerprintRegistry × ℕ
unfolding intern_text fingerprint
intern r query = intern_text r (fingerprint query)
