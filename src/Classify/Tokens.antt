-- ===== src/Classify/Tokens.antt =====
-- The gate read as a function of the token list: what `classify` decides, apart from how it scans.
use avraham_sql_tools.Base.{
  ℕ, zero, suc, ◌≤◌, ◌<◌, ◌⊎◌, inl, inr, Option-cases, Bool, false, ◌&&◌, ◌||◌, List, [], ◌∷◌, none,
  some, ◌≡◌, refl, ◌∙◌, ap, arith, ◌==◌, if◌then◌else◌, Bytes, codes, length, bytes_eq,
}
use avraham_sql_tools.Classify.Bounds.{next_word-lt}
use avraham_sql_tools.Classify.Gate.{
  QueryClass, read, write, is_one_of, exports, plain_reads, explains, server_sets, dml,
  explain_options, explain_reads, select_loop, classify_select_tail, with_loop, classify_with_tail,
  explain_loop, classify_explain_analyze_tail, classify_explain, classify_set, classify_first,
  has_trailing_statement, classify,
}
use avraham_sql_tools.Classify.Scanner.{TokenScanner, new, next_word}

-- A word with the parenthesis depth at its start.
abbrev pub Token : Type 0
Token = Bytes × ℕ

tokens_in : ℕ → TokenScanner → List Token
tokens_in zero t = []
tokens_in (suc f) t = elim (next_word t) [
  | none ↦ []
  | some (w, t') ↦ (w, t'.word_depth) ∷ tokens_in f t'
]

-- All the words that `next_word` yields from here on.
pub tokens : TokenScanner → List Token
tokens t = tokens_in (length t.rest) t

-- INTO is followed at once by OUTFILE or DUMPFILE.
abbrev pub writes_file : List Token → Bool
writes_file [] = false
writes_file (a ∷ []) = false
writes_file (a ∷ b ∷ ts) =
    (is_one_of b.0 exports && bytes_eq a.0 (codes "into")) || writes_file (b ∷ ts)

abbrev read_unless : Bool → QueryClass
read_unless b = if b then write else read

-- The first SELECT or DML verb outside all parentheses decides.
abbrev pub with_class : List Token → QueryClass
with_class [] = write
with_class (a ∷ ts) =
    if a.1 == 0
    then (if bytes_eq a.0 (codes "select")
        then read_unless (writes_file ts)
        else if is_one_of a.0 dml
        then write
        else with_class ts)
    else with_class ts

abbrev pub analyze_class : List Token → QueryClass
analyze_class [] = write
analyze_class (a ∷ ts) =
    if is_one_of a.0 explain_options
    then analyze_class ts
    else if is_one_of a.0 explain_reads
    then read_unless (writes_file ts)
    else if bytes_eq a.0 (codes "with")
    then with_class ts
    else write

abbrev pub explain_class : List Token → QueryClass
explain_class [] = read
explain_class (a ∷ ts) = if bytes_eq a.0 (codes "analyze") then analyze_class ts else read

abbrev pub set_class : List Token → QueryClass
set_class [] = read
set_class (a ∷ ts) = if is_one_of a.0 server_sets then write else read

-- The class of a single statement by its words.
abbrev pub class_of : List Token → QueryClass
class_of [] = write
class_of (a ∷ ts) =
    if bytes_eq a.0 (codes "select")
    then read_unless (writes_file ts)
    else if is_one_of a.0 plain_reads
    then read
    else if is_one_of a.0 explains
    then explain_class ts
    else if bytes_eq a.0 (codes "set")
    then set_class ts
    else if bytes_eq a.0 (codes "with")
    then with_class ts
    else write

abbrev pub NextWord : TokenScanner → Type 0
NextWord t =
    (next_word t ≡ none)
    ⊎ ((w : Bytes) × (t' : TokenScanner) × (next_word t ≡ some (w, t'))
        × (length t'.rest < length t.rest))

pub NextWord-cases : (t : TokenScanner) → NextWord t
NextWord-cases t = elim (Option-cases (next_word t)) [
  | inl e ↦ inl e
  | inr ((w, t'), e) ↦ inr (w, t', e, next_word-lt t e)
]

tokens_in-fuel :
    (f g : ℕ) (t : TokenScanner)
    → length t.rest ≤ f
    → length t.rest ≤ g
    → tokens_in f t ≡ tokens_in g t
unfolding tokens_in
tokens_in-fuel zero zero t p q = refl
tokens_in-fuel zero (suc g) t p q = elim (NextWord-cases t) [
  | inl e ↦ rw (e, tokens_in) refl
  | inr (w, t', e, lt) ↦ absurd (omega arith)
]
tokens_in-fuel (suc f) zero t p q = elim (NextWord-cases t) [
  | inl e ↦ rw (e, tokens_in) refl
  | inr (w, t', e, lt) ↦ absurd (omega arith)
]
tokens_in-fuel (suc f) (suc g) t p q = elim (NextWord-cases t) [
  | inl e ↦ rw (e, tokens_in) refl
  | inr (w, t', e, lt) ↦
      rw (e, tokens_in)
        (ap (◌∷◌ (w, t'.word_depth)) (tokens_in-fuel f g t' (omega arith) (omega arith)))
]

pub tokens_end : (t : TokenScanner) → next_word t ≡ none → tokens t ≡ []
unfolding tokens
tokens_end t e =
    tokens_in-fuel (length t.rest) (suc (length t.rest)) t (omega arith) (omega arith)
    ∙ unfold tokens_in in rw (e, tokens_in) refl

pub tokens_cons :
    (t : TokenScanner) {w : Bytes} {t' : TokenScanner}
    → next_word t ≡ some (w, t')
    → tokens t ≡ (w, t'.word_depth) ∷ tokens t'
unfolding tokens
tokens_cons t {w} {t'} e = elim (NextWord-cases t) [
  | inl e' ↦ cc
  | inr (w', u, e', lt) ↦
      let same : t' ≡ u = ground arith in
      tokens_in-fuel (length t.rest) (suc (length t.rest)) t (omega arith) (omega arith)
      ∙ unfold tokens_in in
        rw (e, tokens_in)
          (ap (◌∷◌ (w, t'.word_depth)) (
            tokens_in-fuel (length t.rest) (length t'.rest) t' (rw same (omega arith))
              (omega arith)))
]

select_class : Bool → List Token → QueryClass
select_class after [] = read
select_class after (a ∷ ts) =
    let rest = select_class (bytes_eq a.0 (codes "into")) ts in
    if is_one_of a.0 exports && after then write else rest

select_loop-class :
    (f : ℕ) (after : Bool) (t : TokenScanner)
    → length t.rest ≤ f
    → select_loop f after t ≡ select_class after (tokens t)
unfolding select_loop select_class
select_loop-class zero after t p = elim (NextWord-cases t) [
  | inl e ↦ rw (tokens_end t e) refl
  | inr (w, t', e, lt) ↦ absurd (omega arith)
]
select_loop-class (suc f) after t p = elim (NextWord-cases t) [
  | inl e ↦ rw (e, select_loop, tokens_end t e) refl
  | inr (w, t', e, lt) ↦
      rw
        (
          e,
          select_loop,
          tokens_cons t e,
          select_loop-class f (bytes_eq w (codes "into")) t' (omega arith),
        )
        refl
]

select_class-writes_file :
    (a : Token) (ts : List Token)
    → select_class (bytes_eq a.0 (codes "into")) ts ≡ read_unless (writes_file (a ∷ ts))
unfolding select_class
select_class-writes_file a [] = refl
select_class-writes_file a (b ∷ ts) = ground (arith, select_class-writes_file b ts)

select_class_lem : (ts : List Token) → select_class false ts ≡ read_unless (writes_file ts)
unfolding select_class
select_class_lem [] = refl
select_class_lem (a ∷ ts) = ground (arith, select_class-writes_file a ts)

classify_select_tail_lem :
    (t : TokenScanner) → classify_select_tail t ≡ read_unless (writes_file (tokens t))
unfolding classify_select_tail
classify_select_tail_lem t =
    select_loop-class (length t.rest) false t (omega arith) ∙ select_class_lem (tokens t)

with_loop-class :
    (f : ℕ) (t : TokenScanner) → length t.rest ≤ f → with_loop f t ≡ with_class (tokens t)
unfolding with_loop
with_loop-class zero t p = elim (NextWord-cases t) [
  | inl e ↦ rw (tokens_end t e) refl
  | inr (w, t', e, lt) ↦ absurd (omega arith)
]
with_loop-class (suc f) t p = elim (NextWord-cases t) [
  | inl e ↦ rw (e, with_loop, tokens_end t e) refl
  | inr (w, t', e, lt) ↦
      rw
        (
          e,
          with_loop,
          tokens_cons t e,
          with_loop-class f t' (omega arith),
          classify_select_tail_lem t',
        )
        refl
]

classify_with_tail_lem : (t : TokenScanner) → classify_with_tail t ≡ with_class (tokens t)
unfolding classify_with_tail
classify_with_tail_lem t = with_loop-class (length t.rest) t (omega arith)

explain_loop-class :
    (f : ℕ) (t : TokenScanner) → length t.rest ≤ f → explain_loop f t ≡ analyze_class (tokens t)
unfolding explain_loop
explain_loop-class zero t p = elim (NextWord-cases t) [
  | inl e ↦ rw (tokens_end t e) refl
  | inr (w, t', e, lt) ↦ absurd (omega arith)
]
explain_loop-class (suc f) t p = elim (NextWord-cases t) [
  | inl e ↦ rw (e, explain_loop, tokens_end t e) refl
  | inr (w, t', e, lt) ↦
      rw
        (
          e,
          explain_loop,
          tokens_cons t e,
          explain_loop-class f t' (omega arith),
          classify_select_tail_lem t',
          classify_with_tail_lem t',
        )
        refl
]

classify_explain_lem :
    (t : TokenScanner) → classify_explain (next_word t) ≡ explain_class (tokens t)
unfolding classify_explain classify_explain_analyze_tail
classify_explain_lem t = elim (NextWord-cases t) [
  | inl e ↦ rw (e, tokens_end t e) refl
  | inr (w, t', e, lt) ↦
      rw (e, tokens_cons t e, explain_loop-class (length t'.rest) t' (omega arith)) refl
]

classify_set_lem : (t : TokenScanner) → classify_set (next_word t) ≡ set_class (tokens t)
unfolding classify_set
classify_set_lem t = elim (NextWord-cases t) [
  | inl e ↦ rw (e, tokens_end t e) refl
  | inr (w, t', e, lt) ↦ rw (e, tokens_cons t e) refl
]

classify_first_lem : (t : TokenScanner) → classify_first (next_word t) ≡ class_of (tokens t)
unfolding classify_first
classify_first_lem t = elim (NextWord-cases t) [
  | inl e ↦ rw (e, tokens_end t e) refl
  | inr (w, t', e, lt) ↦
      rw
        (
          e,
          tokens_cons t e,
          classify_select_tail_lem t',
          classify_explain_lem t',
          classify_set_lem t',
          classify_with_tail_lem t',
        )
        refl
]

pub classify-class_of :
    (sql : Bytes)
    → classify sql ≡ (if has_trailing_statement sql then write else class_of (tokens (new sql)))
unfolding classify
classify-class_of sql = rw (classify_first_lem (new sql)) refl
