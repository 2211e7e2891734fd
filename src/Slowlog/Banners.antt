-- ===== src/Slowlog/Banners.antt =====
-- What all lines of a slow log leave alone: the dialect that a banner has named, and a parser between
-- two statements.
use avraham_sql_tools.Base.{
  true, false, none, some, List, [], ◌∷◌, ◌≡◌, refl, sym, ap, ◌∙◌, Bytes, Option-cases, inl, inr,
}
use avraham_sql_tools.Slowlog.Entries.{push_lines}
use avraham_sql_tools.Slowlog.Headers.{handle_banner}
use avraham_sql_tools.Slowlog.Parser.{
  append_query_line, Outcome, take_query, start_query, consume_text, consume_meta_line, starts,
  ends_query, push, push_line, use_of, on_use, on_timestamp,
}
use avraham_sql_tools.Slowlog.Values.{parse_set_timestamp}
use avraham_sql_tools.Slowlog.{Dialect, SlowLogParser, Outside, new}
use avraham_sql_tools.Utf8.Split.{trim}
use avraham_sql_tools.Base.{if_lem, if_known}
use avraham_sql_tools.Wire.UseTarget.{strip_last, unwrap_or}
use mathlib.Core.Bool.{true≢false}
use avraham_sql_tools.Slowlog.Meta.{
  Labelled, IsClean, statement, Meta, handle_header-Meta, handle_banner-Meta,
}

-- Text lines keep the label, and only a line that begins a statement touches its parts.
record Text (st st' : SlowLogParser) : Type 0 where
  label : (d : Dialect) → Labelled d st → Labelled d st'
  clean : st'.in_query ≡ false → statement st' ≡ statement st

Meta-Text : (st st' : SlowLogParser) → Meta st st' → Text st st'
Meta-Text st st' m = record { label = m.label; clean = λ h. m.same }

start_query-Text : (line : Bytes) (st : SlowLogParser) → Text st (start_query line st)
unfolding append_query_line
start_query-Text line st = record { label = λ d l. l; clean = λ h. absurd (true≢false h) }

consume_text-Text :
    (env : Outside) (line t : Bytes) (st : SlowLogParser) → Text st (consume_text env line t st)
unfolding consume_text
consume_text-Text env line [] st = record { label = λ d l. l; clean = λ h. refl }
consume_text-Text env line (c ∷ t) st =
    elim (use_of st.set_ts_micros (c ∷ t))
      as (λ o. Text st (on_use o (on_timestamp (parse_set_timestamp env (c ∷ t)) line st) st)) [
        | some db ↦ record { label = λ d l. l; clean = λ h. refl }
        | none ↦ elim (parse_set_timestamp env (c ∷ t)) as (λ o. Text st (on_timestamp o line st)) [
          | some ts ↦ record { label = λ d l. l; clean = λ h. refl }
          | none ↦ start_query-Text line st
        ]
      ]

consume_meta_line-Text :
    (env : Outside) (line : Bytes) (st : SlowLogParser) → Text st (consume_meta_line env line st)
unfolding consume_meta_line
consume_meta_line-Text env line st =
    if_lem (Text st) (starts b'#' line) (Meta-Text st _ (handle_header-Meta env line st))
      (elim (Option-cases (handle_banner line st)) [
        | inl none_ ↦ rw none_ (consume_text-Text env line (trim line) st)
        | inr (st', e) ↦ rw e (Meta-Text st st' (handle_banner-Meta line st st' e))
      ])

-- Both claims on a parser after a line.
abbrev Sound : SlowLogParser → SlowLogParser → Type 0
Sound st st' = ((d : Dialect) → Labelled d st → Labelled d st') × IsClean st'

take_query-Sound : (st : SlowLogParser) → IsClean st → Sound st (take_query st).0
unfolding take_query
take_query-Sound st w =
    if_lem (λ (o : Outcome). Sound st o.0) st.in_query (λ d l. l, λ h. (refl, refl)) (λ d l. l, w)

Text-Sound :
    (st st' : SlowLogParser) → st.in_query ≡ false → IsClean st → Text st st' → Sound st st'
Text-Sound st st' idle w t = (
  t.label,
  λ h.
      let e = t.clean h in
      let clean = w idle in (ap (λ s. s.1.0) e ∙ clean.0, ap (λ s. s.1.1) e ∙ clean.1),
)

take_query-idle : (st : SlowLogParser) → (take_query st).0.in_query ≡ false
unfolding take_query
take_query-idle st =
    if_known (λ (o : Outcome). o.0.in_query ≡ false) st.in_query (λ busy. refl) (λ idle. idle)

consume_meta_line-Sound :
    (env : Outside) (line : Bytes) (st st' : SlowLogParser)
    → st'.in_query ≡ false
    → Sound st st'
    → Sound st (consume_meta_line env line st')
consume_meta_line-Sound env line st st' idle (label, clean) =
    let r =
      Text-Sound st' (consume_meta_line env line st') idle clean
        (consume_meta_line-Text env line st') in
    (λ d l. r.0 d (label d l), r.1)

append_query_line-Sound :
    (line : Bytes) (st : SlowLogParser) → st.in_query ≡ true → Sound st (append_query_line line st)
unfolding append_query_line
append_query_line-Sound line st busy = (λ d l. l, λ h. absurd (true≢false (sym busy ∙ h)))

push-Sound :
    (env : Outside) (line : Bytes) (st : SlowLogParser) → IsClean st → Sound st (push env line st).0
unfolding push
push-Sound env line st w =
    let done = take_query st in
    if_known (λ (o : Outcome). Sound st o.0) st.in_query
      (λ busy.
        if_lem (λ (o : Outcome). Sound st o.0) (ends_query st.sql_state line)
          (consume_meta_line-Sound env line st done.0 (take_query-idle st) (take_query-Sound st w))
          (append_query_line-Sound line st busy))
      (λ idle. consume_meta_line-Sound env line st st idle (λ d l. l, w))

push_line-Sound :
    (env : Outside) (line : Bytes) (st : SlowLogParser)
    → IsClean st
    → Sound st (push_line env line st).0
unfolding push_line
push_line-Sound env line st w = push-Sound env (unwrap_or line (strip_last b'\r' line)) st w

push_lines-Sound :
    (env : Outside) (lines : List Bytes) (st : SlowLogParser)
    → IsClean st
    → Sound st (push_lines env lines st).0
unfolding push_lines
push_lines-Sound env [] st w = (λ d l. l, w)
push_lines-Sound env (line ∷ lines) st w =
    let one = push_line-Sound env line st w in
    let more = push_lines-Sound env lines (push_line env line st).0 one.1 in
    (λ d l. more.0 d (one.0 d l), more.1)

-- Whatever the lines of a log are, a parser that is between two statements, from a new one on, has an
-- empty buffer and no string or comment open.
pub push_lines-IsClean : (env : Outside) (lines : List Bytes) → IsClean (push_lines env lines new).0
push_lines-IsClean env lines = (push_lines-Sound env lines new (λ h. (refl, refl))).1

-- From a parser that holds nothing of a statement between statements, the dialect that a banner has
-- named stays, whatever the lines behind it are: neither the format of a
-- time, nor the fields of an entry, nor a later banner changes it.
pub push_lines-Labelled :
    (env : Outside) (lines : List Bytes) (st : SlowLogParser) (d : Dialect)
    → IsClean st
    → Labelled d st
    → Labelled d (push_lines env lines st).0
push_lines-Labelled env lines st d w l = (push_lines-Sound env lines st w).0 d l
