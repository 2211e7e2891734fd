-- ===== src/Spool/Reads.antt =====
-- A session's region of a spool, read back by `next_event` until it is over.
use avraham_sql_tools.Base.{
  ℕ, zero, suc, ◌+◌, ◌^◌, ◌≤◌, ◌<◌, true, false, Option, none, some, List, [], ◌∷◌, ◌++◌,
  append_assoc, ◌≡◌, refl, sym, ap, ◌∙◌, arith, leb, ltb, Bytes, length, length-append, take, drop,
  take_prefix, drop_prefix, All, le→leb,
}
use mathlib.Core.Option.{some-injective, none-ne-some}
use avraham_sql_tools.Base.{Option-cases, inl, inr}
use avraham_sql_tools.Spool.Cursor.{
  Serde, record_of, encode_record, SpoolCursor, Next, over, event, cannot_read, overruns, corrupt,
  decoded, next_record, next_event, read_at,
}
use avraham_sql_tools.Spool.{Event}
use avraham_sql_tools.Wire.Reader.Encode.{to_le, length-to_le, from_le-to_le}
use avraham_sql_tools.Wire.Reader.{from_le}

-- The events of a region, by calls of `next_event`; `none` where one is an error. It is on fuel: an
-- event takes one call, and the end of the region another.
unfoldable pub read_events : Serde → ℕ → SpoolCursor → Option (List Event)
unfolding next_event
read_events serde zero c = none
read_events serde (suc fuel) c = elim (next_event serde c) [
  | over ↦ some []
  | event e c' ↦ elim (read_events serde fuel c') [ none ↦ none | some es ↦ some (e ∷ es) ]
  | cannot_read ↦ none
  | overruns ↦ none
  | corrupt ↦ none
]

-- The records of events, one behind the other.
unfoldable pub encode_records : Serde → List Event → Option Bytes
unfolding encode_record
encode_records serde [] = some []
encode_records serde (e ∷ es) = elim (encode_record serde e) [
  | none ↦ none
  | some r ↦ elim (encode_records serde es) [ none ↦ none | some rs ↦ some (r ++ rs) ]
]

read_at-middle :
    (p m q file : Bytes) → file ≡ p ++ (m ++ q) → read_at (length p) (length m) file ≡ some m
unfolding read_at
read_at-middle p m q file e =
    let total : length file ≡ length p + (length m + length q) =
      ap length e ∙ length-append p (m ++ q) ∙ ap (◌+◌ (length p)) (length-append m q) in
    let fits = le→leb (length p + length m) (length file) (omega (arith, total)) in
    let middle : take (length m) (drop (length p) file) ≡ m =
      ap (λ f. take (length m) (drop (length p) f)) e
      ∙ ap (take (length m)) (drop_prefix p (m ++ q))
      ∙ take_prefix m q in
    rw (fits, middle) refl

decoded_known :
    (serde : Serde) (n : ℕ) (b : Bytes) (c : SpoolCursor) (e : Event)
    → serde.from_slice b ≡ some e
    → decoded serde n b c ≡ event e (record c { at = c.at + (4 + n) })
decoded_known serde n b c e known =
    ap
      (λ o. elim o as (λ _. Next) [
        | none ↦ corrupt
        | some e' ↦ event e' (record c { at = c.at + (4 + n) })
      ])
      known

next_record_fits :
    (serde : Serde) (n : ℕ) (b : Bytes) (c : SpoolCursor) (e : Event)
    → ltb c.end (c.at + (4 + n)) ≡ false
    → read_at (c.at + 4) n c.file ≡ some b
    → serde.from_slice b ≡ some e
    → next_record serde n c ≡ event e (record c { at = c.at + (4 + n) })
next_record_fits serde n b c e inside body known =
    rw (inside, body) (decoded_known serde n b c e known)

-- A cursor in front of a record gives its event, and is behind it then.
next_event-record_of :
    (serde : Serde) (p b q file : Bytes) (end : ℕ) (e : Event)
    → file ≡ p ++ (record_of b ++ q)
    → length p + (4 + length b) ≤ end
    → length b < 2 ^ 32
    → serde.from_slice b ≡ some e
    → next_event serde (record { file = file; at = length p; end = end })
      ≡ event e (record { file = file; at = length p + (4 + length b); end = end })
unfolding next_event
next_event-record_of serde p b q file end e there fits small known =
    let n = length b in
    let started : leb end (length p) ≡ false = ground (arith, fits) in
    let inside : ltb end (length p + (4 + n)) ≡ false = ground (arith, fits) in
    let there1 : file ≡ p ++ (to_le 4 n ++ (b ++ q)) =
      there ∙ ap (◌++◌ p) (append_assoc (to_le 4 n) b q) in
    let size : read_at (length p) 4 file ≡ some (to_le 4 n) =
      rw (length-to_le 4 n) at (read_at-middle p (to_le 4 n) (b ++ q) file there1) in
    let behind : length (p ++ to_le 4 n) ≡ length p + 4 =
      length-append p (to_le 4 n) ∙ ap (◌+◌ (length p)) (length-to_le 4 n) in
    let body : read_at (length p + 4) n file ≡ some b = rw behind at (
      read_at-middle (p ++ to_le 4 n) b q file
        (there1 ∙ sym (append_assoc p (to_le 4 n) (b ++ q)))) in
    let decoded_size : from_le (to_le 4 n) ≡ n = from_le-to_le 4 n (omega arith) in
    let c : SpoolCursor = record { file = file; at = length p; end = end } in
    rw (started, size)
      (ap (λ k. next_record serde k c) decoded_size
        ∙ next_record_fits serde n b c e inside body known)

-- JSON is read back, and has less than 2^32 bytes.
abbrev pub IsReadable : Serde → Event → Type 0
IsReadable serde e =
    (b : Bytes) → serde.to_vec e ≡ some b → (serde.from_slice b ≡ some e) × (length b < 2 ^ 32)

read_events-next :
    (serde : Serde) (fuel : ℕ) (c c' : SpoolCursor) (e : Event) (es : List Event)
    → next_event serde c ≡ event e c'
    → read_events serde fuel c' ≡ some es
    → read_events serde (suc fuel) c ≡ some (e ∷ es)
unfolding read_events
read_events-next serde fuel c c' e es h k =
    ap
      (λ n. elim n as (λ _. Option (List Event)) [
        | over ↦ some []
        | event f d ↦ elim (read_events serde fuel d) [ none ↦ none | some fs ↦ some (f ∷ fs) ]
        | cannot_read ↦ none
        | overruns ↦ none
        | corrupt ↦ none
      ])
      h
    ∙ ap (λ o. elim o as (λ _. Option (List Event)) [ none ↦ none | some fs ↦ some (e ∷ fs) ]) k

read_events-over :
    (serde : Serde) (fuel : ℕ) (c : SpoolCursor)
    → leb c.end c.at ≡ true
    → read_events serde (suc fuel) c ≡ some []
unfolding read_events next_event
read_events-over serde fuel c h = rw (h, read_events, next_event) refl

-- The record of an event, and those of the events behind it.
encode_records-cases :
    (serde : Serde) (e : Event) (es : List Event) (bytes : Bytes)
    → encode_records serde (e ∷ es) ≡ some bytes
    → (b : Bytes) × (rs : Bytes) × (serde.to_vec e ≡ some b)
      × (encode_records serde es ≡ some rs)
      × (bytes ≡ record_of b ++ rs)
unfolding encode_records encode_record
encode_records-cases serde e es bytes h = elim (Option-cases (serde.to_vec e)) [
  | inl fails ↦ absurd (none-ne-some bytes (rw (fails, encode_records, encode_record) at h))
  | inr (b, j) ↦ elim (Option-cases (encode_records serde es)) [
    | inl fails ↦ absurd (none-ne-some bytes (rw (j, fails, encode_records, encode_record) at h))
    | inr (rs, k) ↦
        (b, rs, j, k, sym (some-injective _ _ (rw (j, k, encode_records, encode_record) at h)))
  ]
]

-- Where JSON reads each of the events back and has less than 2^32 bytes for it, a region that holds
-- their records, anywhere in a file, is read back as these events, in their
-- order, and the cursor then says that it is over: no call fails, and one call for each event and one
-- for the end are enough.
pub read_events-encode_records :
    (serde : Serde) (es : List Event) (before bytes after file : Bytes)
    → encode_records serde es ≡ some bytes
    → All (IsReadable serde) es
    → file ≡ before ++ (bytes ++ after)
    → read_events serde
        (suc (length es))
        (record { file = file; at = length before; end = length before + length bytes })
      ≡ some es
unfolding encode_records
read_events-encode_records serde [] before bytes after file h readable there =
    let empty : length bytes ≡ 0 = ap length (sym (some-injective [] bytes h)) in
    let ended : leb (length before + length bytes) (length before) ≡ true = ground (arith, empty) in
    read_events-over serde 0 _ ended
read_events-encode_records serde (e ∷ es) before bytes after file h (readable, later) there =
    let (b, rs, json, rest, split) = encode_records-cases serde e es bytes h in
    let (known, small) = readable b json in
    let p = before ++ record_of b in
    let end = length before + length bytes in
    let one : length (record_of b) ≡ 4 + length b =
      length-append (to_le 4 (length b)) b ∙ ap (λ n. n + length b) (length-to_le 4 (length b)) in
    let size : length bytes ≡ 4 + length b + length rs =
      ap length split ∙ length-append (record_of b) rs ∙ ap (λ n. n + length rs) one in
    let at_p : length p ≡ length before + (4 + length b) =
      length-append before (record_of b) ∙ ap (◌+◌ (length before)) one in
    let end_p : length p + length rs ≡ end = omega (arith, size, at_p) in
    let there_b : file ≡ before ++ (record_of b ++ (rs ++ after)) =
      there
      ∙ ap (λ s. before ++ (s ++ after)) split
      ∙ ap (◌++◌ before) (append_assoc (record_of b) rs after) in
    let there_p : file ≡ p ++ (rs ++ after) =
      there_b ∙ sym (append_assoc before (record_of b) (rs ++ after)) in
    let more = read_events-encode_records serde es p rs after file rest later there_p in
    read_events-next serde (suc (length es)) _
      (record { file = file; at = length before + (4 + length b); end = end }) e es
      (next_event-record_of serde before b (rs ++ after) file end e there_b (omega (arith, size))
        small known)
      (rw at_p at (rw end_p at more))
