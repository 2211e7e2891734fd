-- ===== src/Slowlog/Meta.antt =====
-- What the header and banner lines of a slow log leave alone.
use avraham_sql_tools.Base.{
  ℕ, Bool, true, false, not, ◌&&◌, Option, none, some, List, [], ◌∷◌, ◌≡◌, refl, ap, ◌∙◌,
  if◌then◌else◌, Bytes, codes, Bool-cases, inl, inr,
}
use avraham_sql_tools.Slowlog.Headers.{
  user_name, set_thread, host_thread, set_user, handle_user_host, set_query_time, handle_pair,
  is_key, handle_pairs, handle_kv_line, set_time, is_extra, admin_command, handle_other,
  handle_header, observe_version, restart, is_column_header, handle_banner,
}
use avraham_sql_tools.Slowlog.Values.{is_restart_banner, parse_time_value}
use avraham_sql_tools.Slowlog.{
  Dialect, SqlState, normal, SlowLogParser, Outside, observe_banner_dialect, observe_time_dialect,
  observe_log_slow_extra, first_dialect, may_refine,
}
use avraham_sql_tools.Utf8.Search.{
  parse_unsigned, strip_prefix, split_whitespace, first_part, starts_with, drop_char,
}
use avraham_sql_tools.Utf8.Split.{trim}
use avraham_sql_tools.Utf8.{trim_start}
use avraham_sql_tools.Base.{if_lem}
use avraham_sql_tools.Wire.UseTarget.{strip_last}
use mathlib.Core.Option.{some-injective, none-ne-some}
use mathlib.Core.Path.{subst}

-- The dialect is one that a banner has named.
abbrev pub Labelled : Dialect → SlowLogParser → Type 0
Labelled d st = (st.dialect_from_banner ≡ true) × (st.dialect ≡ some d)

-- Between two statements nothing is left of the one before.
abbrev pub IsClean : SlowLogParser → Type 0
IsClean st = st.in_query ≡ false → (st.buf ≡ []) × (st.sql_state ≡ normal)

abbrev pub statement : SlowLogParser → Bool × (Bytes × SqlState)
statement st = (st.in_query, (st.buf, st.sql_state))

-- A step that keeps a banner's dialect, and leaves the statement in progress alone.
pub record Meta (st st' : SlowLogParser) : Type 0 where
  pub label : (d : Dialect) → Labelled d st → Labelled d st'
  pub same : statement st' ≡ statement st

pub Meta-refl : (st : SlowLogParser) → Meta st st
Meta-refl st = record { label = λ d l. l; same = refl }

Meta-trans : (a b c : SlowLogParser) → Meta a b → Meta b c → Meta a c
Meta-trans a b c m n = record { label = λ d l. n.label d (m.label d l); same = n.same ∙ m.same }

set_thread-Meta : (o : Option ℕ) (st : SlowLogParser) → Meta st (set_thread o st)
set_thread-Meta none st = Meta-refl st
set_thread-Meta (some id) st = record { label = λ d l. l; same = refl }

set_user-Meta : (u : Bytes) (st : SlowLogParser) → Meta st (set_user u st)
set_user-Meta [] st = Meta-refl st
set_user-Meta (c ∷ u) st = record { label = λ d l. l; same = refl }

set_query_time-Meta : (o : Option ℕ) (st : SlowLogParser) → Meta st (set_query_time o st)
set_query_time-Meta none st = Meta-refl st
set_query_time-Meta (some f) st = record { label = λ d l. l; same = refl }

observe_banner_dialect-Meta :
    (d : Dialect) (st : SlowLogParser) → Meta st (observe_banner_dialect d st)
unfolding observe_banner_dialect
observe_banner_dialect-Meta d st = record {
  label = λ e l. rw l.0 (refl, l.1);
  same = if_lem (λ s. statement s ≡ statement st) (not st.dialect_from_banner) refl refl;
}

first_dialect-some : (d e : Dialect) (o : Option Dialect) → o ≡ some e → first_dialect d o ≡ some e
first_dialect-some d e o h = ap (first_dialect d) h

observe_time_dialect-Meta : (d : Dialect) (st : SlowLogParser) → Meta st (observe_time_dialect d st)
unfolding observe_time_dialect
observe_time_dialect-Meta d st = record {
  label = λ e l. (l.0, first_dialect-some d e st.dialect l.1);
  same = refl;
}

observe_log_slow_extra-Meta : (st : SlowLogParser) → Meta st (observe_log_slow_extra st)
unfolding observe_log_slow_extra
observe_log_slow_extra-Meta st = record {
  label = λ e l. rw l.0 (refl, l.1);
  same =
      if_lem (λ s. statement s ≡ statement st) (not st.dialect_from_banner && may_refine st.dialect)
        refl refl;
}

set_time-Meta : (o : Option (ℕ × Dialect)) (st : SlowLogParser) → Meta st (set_time o st)
set_time-Meta none st = Meta-refl st
set_time-Meta (some (micros, d)) st =
    let timed = record st { time_micros = some micros } in
    Meta-trans st timed (observe_time_dialect d timed) (record { label = λ e l. l; same = refl })
      (observe_time_dialect-Meta d timed)

handle_user_host-Meta : (rest : Bytes) (st : SlowLogParser) → Meta st (handle_user_host rest st)
unfolding handle_user_host
handle_user_host-Meta rest st =
    let name = user_name (trim (first_part b'@' rest)) in
    Meta-trans st (set_user name st) (set_thread (host_thread rest) (set_user name st))
      (set_user-Meta name st) (set_thread-Meta (host_thread rest) (set_user name st))

handle_pair-Meta :
    (env : Outside) (key v : Bytes) (st : SlowLogParser) → Meta st (handle_pair env key v st)
unfolding handle_pair
handle_pair-Meta env key v st = if_lem (Meta st) _ (set_query_time-Meta (env.parse_f64 v) st) (
    if_lem (Meta st) _ (set_thread-Meta (parse_unsigned 64 v) st)
      (if_lem (Meta st) _ (record { label = λ d l. l; same = refl }) (Meta-refl st)))

handle_pairs-Meta :
    (env : Outside) (toks : List Bytes) (st : SlowLogParser) → Meta st (handle_pairs env toks st)
unfolding handle_pairs
handle_pairs-Meta env [] st = Meta-refl st
handle_pairs-Meta env (t ∷ []) st = Meta-refl st
handle_pairs-Meta env (t ∷ v ∷ toks) st =
    elim (strip_last b':' t)
      as (λ o. Meta st (elim o [
        | none ↦ handle_pairs env (v ∷ toks) st
        | some key ↦ elim (is_key v) [
          | true ↦ handle_pairs env (v ∷ toks) st
          | false ↦ handle_pairs env toks (handle_pair env key v st)
        ]
      ])) [
        | none ↦ handle_pairs-Meta env (v ∷ toks) st
        | some key ↦
            elim (is_key v)
              as (λ b. Meta st (elim b [
                | true ↦ handle_pairs env (v ∷ toks) st
                | false ↦ handle_pairs env toks (handle_pair env key v st)
              ])) [
                | true ↦ handle_pairs-Meta env (v ∷ toks) st
                | false ↦
                    let st' = handle_pair env key v st in
                    Meta-trans st st' (handle_pairs env toks st') (handle_pair-Meta env key v st)
                      (handle_pairs-Meta env toks st')
              ]
      ]

handle_kv_line-Meta :
    (env : Outside) (line : Bytes) (st : SlowLogParser) → Meta st (handle_kv_line env line st)
unfolding handle_kv_line
handle_kv_line-Meta env line st =
    handle_pairs-Meta env (split_whitespace (trim_start (drop_char b'#' line))) st

handle_other-Meta :
    (env : Outside) (line : Bytes) (st : SlowLogParser) → Meta st (handle_other env line st)
handle_other-Meta env line st =
    let st' = if is_extra line then observe_log_slow_extra st else st in
    Meta-trans st st' (handle_kv_line env line st')
      (if_lem (Meta st) (is_extra line) (observe_log_slow_extra-Meta st) (Meta-refl st))
      (handle_kv_line-Meta env line st')

pub handle_header-Meta :
    (env : Outside) (line : Bytes) (st : SlowLogParser) → Meta st (handle_header env line st)
unfolding handle_header
handle_header-Meta env line st =
    elim (strip_prefix (codes "# Time: ") line)
      as (λ o. Meta st (elim o [
        | some rest ↦ set_time (parse_time_value env (trim rest)) st
        | none ↦ elim (strip_prefix (codes "# User@Host: ") line) [
          | some rest ↦ handle_user_host rest st
          | none ↦
              if starts_with (codes "# administrator command:") line
              then admin_command st
              else handle_other env line st
        ]
      ])) [
        | some rest ↦ set_time-Meta (parse_time_value env (trim rest)) st
        | none ↦
            elim (strip_prefix (codes "# User@Host: ") line)
              as (λ o. Meta st (elim o [
                | some rest ↦ handle_user_host rest st
                | none ↦
                    if starts_with (codes "# administrator command:") line
                    then admin_command st
                    else handle_other env line st
              ])) [
                | some rest ↦ handle_user_host-Meta rest st
                | none ↦
                    if_lem (Meta st) (starts_with (codes "# administrator command:") line)
                      (record { label = λ d l. l; same = refl }) (handle_other-Meta env line st)
              ]
      ]

observe_version-Meta : (o : Option Dialect) (st : SlowLogParser) → Meta st (observe_version o st)
observe_version-Meta none st = Meta-refl st
observe_version-Meta (some d) st = observe_banner_dialect-Meta d st

restart-Meta : (line : Bytes) (st : SlowLogParser) → Meta st (restart line st)
unfolding restart
restart-Meta line st = record {
  label = λ d l. (observe_version-Meta _ _).label d l;
  same = (observe_version-Meta _ _).same;
}

-- A banner or a column header.
pub handle_banner-Meta :
    (line : Bytes) (st st' : SlowLogParser) → handle_banner line st ≡ some st' → Meta st st'
unfolding handle_banner
handle_banner-Meta line st st' h = elim (Bool-cases (is_restart_banner line)) [
  | inl banner ↦ subst (Meta st) (some-injective _ _ (rw banner at h)) (restart-Meta line st)
  | inr other ↦ elim (Bool-cases (is_column_header line)) [
    | inl columns ↦ subst (Meta st) (some-injective _ _ (rw (other, columns) at h)) (Meta-refl st)
    | inr text ↦ absurd (none-ne-some st' (rw (other, text) at h))
  ]
]
