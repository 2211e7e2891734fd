-- ===== src/Slowlog/Entries.antt =====
-- Whole entries of a slow log: the lines of a statement, and what they come out as.
use mathlib.Core.List.{cons≢nil}
use avraham_sql_tools.Base.{
  ◌++◌, Bool, not, ◌&&◌, ℕ, zero, suc, true, false, none, some, List, [], ◌∷◌, ◌==◌, ◌≡◌, refl, sym,
  ap, ◌∙◌, Bytes, length, All,
}
use avraham_sql_tools.Slowlog.Headers.{handle_banner, is_column_header}
use avraham_sql_tools.Slowlog.Parser.{
  scan_step, scan_in, scan_sql_state, append_query_line, statement_text, parsed, Outcome,
  take_query, start_query, consume_text, consume_meta_line, starts, ends_query, push, push_line,
  use_of, on_use, on_timestamp, or_number, or_else_text,
}
use avraham_sql_tools.Slowlog.Statements.{
  join, add_lines, add_lines-join, IsShown, IsSpace, closing, statement_text-closing,
}
use avraham_sql_tools.Slowlog.Values.{is_restart_banner, is_entry_header, parse_set_timestamp}
use avraham_sql_tools.Slowlog.{ParsedQuery, SqlState, normal, in_string, SlowLogParser, Outside}
use avraham_sql_tools.Utf8.Split.{trim}
use avraham_sql_tools.Wire.UseTarget.{strip_last, unwrap_or}

-- The lines of a log one after the other.
unfoldable pub push_lines : Outside → List Bytes → SlowLogParser → SlowLogParser × List ParsedQuery
unfolding push_line
push_lines env [] st = (st, [])
push_lines env (line ∷ lines) st =
    let r = push_line env line st in
    let more = push_lines env lines r.0 in
    (more.0, elim r.1 [ none ↦ more.1 | some q ↦ q ∷ more.1 ])

push_lines-quiet :
    (env : Outside) (line : Bytes) (lines : List Bytes) (st st1 st2 : SlowLogParser)
    → push_line env line st ≡ (st1, none)
    → push_lines env lines st1 ≡ (st2, [])
    → push_lines env (line ∷ lines) st ≡ (st2, [])
unfolding push_lines
push_lines-quiet env line lines st st1 st2 h k =
    ap
      (λ (r : Outcome). (
        (push_lines env lines r.0).0,
        elim r.1 [
          | none ↦ (push_lines env lines r.0).1
          | some q ↦ q ∷ (push_lines env lines r.0).1
        ],
      ))
      h
    ∙ k

abbrev NoReturn : Bytes → Type 0
NoReturn line = strip_last b'\r' line ≡ none

push_line-push :
    (env : Outside) (line : Bytes) (st : SlowLogParser)
    → NoReturn line
    → push_line env line st ≡ push env line st
unfolding push_line
push_line-push env line st h = ap (λ o. push env (unwrap_or line o) st) h

-- The lines of a statement, behind a line that ends in `state`: none of them ends the statement.
unfoldable pub Continues : SqlState → List Bytes → Type 0
Continues state [] = Unit
Continues state (line ∷ lines) =
    NoReturn line × (ends_query state line ≡ false) × Continues (scan_sql_state state line) lines

-- The state of the scan behind more lines.
unfoldable pub scan_lines : SqlState → List Bytes → SqlState
scan_lines state [] = state
scan_lines state (line ∷ lines) = scan_lines (scan_sql_state state line) lines

push_appends :
    (env : Outside) (line : Bytes) (st : SlowLogParser)
    → st.in_query ≡ true
    → ends_query st.sql_state line ≡ false
    → push env line st ≡ (append_query_line line st, none)
unfolding push
push_appends env line st h k = rw (h, k) refl

appended : List Bytes → SlowLogParser → SlowLogParser
appended lines st = record st {
  buf = add_lines st.buf lines;
  sql_state = scan_lines st.sql_state lines;
}

push_lines-Continues :
    (env : Outside) (lines : List Bytes) (st : SlowLogParser)
    → st.in_query ≡ true
    → Continues st.sql_state lines
    → push_lines env lines st ≡ (appended lines st, [])
unfolding push_lines Continues appended add_lines scan_lines append_query_line
push_lines-Continues env [] st h c = refl
push_lines-Continues env (line ∷ lines) st h (no_return, stays, later) =
    push_lines-quiet env line lines st (append_query_line line st) (appended (line ∷ lines) st)
      (push_line-push env line st no_return ∙ push_appends env line st h stays)
      (push_lines-Continues env lines (append_query_line line st) h later)

push_ends :
    (env : Outside) (header : Bytes) (st : SlowLogParser)
    → st.in_query ≡ true
    → ends_query st.sql_state header ≡ true
    → (push env header st).1 ≡ parsed st (statement_text st.buf)
unfolding push take_query
push_ends env header st h k = rw (h, k) refl

-- A line that begins a statement.
pub record Begins (env : Outside) (line : Bytes) : Type 0 where
  pub no_return : NoReturn line
  pub no_header : starts b'#' line ≡ false
  pub no_banner : is_restart_banner line ≡ false
  pub no_columns : is_column_header line ≡ false
  pub first : ℕ
  pub trimmed : Bytes
  pub not_blank : trim line ≡ first ∷ trimmed
  pub no_timestamp : parse_set_timestamp env (first ∷ trimmed) ≡ none

consume_text-start_query :
    (env : Outside) (line t : Bytes) (c ts : ℕ) (st : SlowLogParser)
    → parse_set_timestamp env (c ∷ t) ≡ none
    → st.set_ts_micros ≡ some ts
    → consume_text env line (c ∷ t) st ≡ start_query line st
unfolding consume_text
consume_text-start_query env line t c ts st h stamped =
    ap (λ o. on_use (use_of o (c ∷ t)) (on_timestamp (parse_set_timestamp env (c ∷ t)) line st) st)
      stamped
    ∙ ap (λ o. on_timestamp o line st) h

push-Begins :
    (env : Outside) (line : Bytes) (st : SlowLogParser) (ts : ℕ)
    → Begins env line
    → st.in_query ≡ false
    → st.set_ts_micros ≡ some ts
    → push_line env line st ≡ (start_query line st, none)
unfolding push consume_meta_line handle_banner
push-Begins env line st ts b idle stamped =
    push_line-push env line st b.no_return
    ∙ rw (idle, b.no_header, b.no_banner, b.no_columns, b.not_blank)
        (ap (λ s. (s, none))
          (consume_text-start_query env line b.trimmed b.first ts st b.no_timestamp stamped))

-- The query of an entry with this text, which has set its timestamp.
abbrev pub entry : SlowLogParser → ℕ → Bytes → ParsedQuery
entry st ts text = record {
  ts_micros = ts;
  thread_id = or_number st.thread_id 0;
  user = st.user;
  db = or_else_text st.schema st.current_db;
  query = text;
  query_time = st.query_time;
}

parsed-entry :
    (st : SlowLogParser) (ts : ℕ) (p : Bytes) (c : ℕ)
    → st.set_ts_micros ≡ some ts
    → parsed st (p ++ c ∷ []) ≡ some (entry st ts (p ++ c ∷ []))
parsed-entry st ts [] c h =
    ap (λ o. some (entry st (or_number o (or_number st.time_micros 0)) (c ∷ []))) h
parsed-entry st ts (d ∷ p) c h =
    ap (λ o. some (entry st (or_number o (or_number st.time_micros 0)) (d ∷ (p ++ c ∷ [])))) h

Begins-not_empty :
    (env : Outside) (line : Bytes) → Begins env line → (c : ℕ) × (s : Bytes) × (line ≡ c ∷ s)
unfolding trim
Begins-not_empty env [] b = absurd (cons≢nil (sym b.not_blank))
Begins-not_empty env (c ∷ s) b = (c, s, refl)

-- Behind `SET timestamp`, the lines of a statement give out nothing, and the next header gives it
-- out with the fields that the entry has set: the lines with a newline between two of them, less the
-- white space and one semicolon at the end, where the text is ASCII from the last character that is
-- kept. The first line is not blank, no `#` line, banner, column header or `SET timestamp`. No line
-- ends in a carriage return, and no line but the first may look like the end of the statement, except
-- inside a string or a comment, and behind the last one there is no string or comment open.
pub push_line-push_lines :
    (env : Outside) (line : Bytes) (lines : List Bytes) (header : Bytes) (st : SlowLogParser)
    (ts : ℕ) (p : Bytes) (c : ℕ) (v : Bytes) (closed : Bool) (w : Bytes)
    → Begins env line
    → Continues (scan_sql_state normal line) lines
    → scan_lines (scan_sql_state normal line) lines ≡ normal
    → NoReturn header
    → is_entry_header header ≡ true
    → st.in_query ≡ false
    → st.set_ts_micros ≡ some ts
    → join line lines ≡ (p ++ c ∷ []) ++ (v ++ (closing closed ++ w))
    → IsShown c
    → (not closed && c == b';') ≡ false
    → All IsSpace v
    → All IsSpace w
    → let r = push_lines env (line ∷ lines) st in
      (r.1 ≡ []) × ((push_line env header r.0).1 ≡ some (entry st ts (p ++ c ∷ [])))
unfolding appended append_query_line
push_line-push_lines env line lines header st ts p c v closed w b continues ends whole is_header
      idle stamped text shown other hv hw =
    let last = appended lines (start_query line st) in
    let e =
      push_lines-quiet env line lines st (start_query line st) last
        (push-Begins env line st ts b idle stamped)
        (push_lines-Continues env lines (start_query line st) refl continues) in
    (
      ap (λ r. r.1) e,
      ap (λ r. (push_line env header r.0).1) e
          ∙ ap (λ o. o.1) (push_line-push env header last whole)
          ∙ push_ends env header last refl (rw (ends, is_header) refl)
          ∙ ap (λ t. parsed st (statement_text t)) (joined (Begins-not_empty env line b) ∙ text)
          ∙ ap (parsed st) (statement_text-closing p c v closed w shown other hv hw)
          ∙ parsed-entry st ts p c stamped,
    )
  where
    joined : ((d : ℕ) × (s : Bytes) × (line ≡ d ∷ s)) → add_lines line lines ≡ join line lines
    joined (d, s, h) = rw h (add_lines-join d s lines)

-- No byte of a text closes or escapes in a string in `q`.
abbrev IsInside : ℕ → Bytes → Type 0
IsInside q = All (λ c. (c == q ≡ false) × (c == b'\\' ≡ false))

scan_step-inside :
    (q c : ℕ) (s : Bytes)
    → c == q ≡ false
    → c == b'\\' ≡ false
    → scan_step (in_string q) c s ≡ some (in_string q, s)
unfolding scan_step
scan_step-inside q c s other plain = rw (plain, other) refl

scan_inside : (q n : ℕ) (s : Bytes) → IsInside q s → scan_in n (in_string q) s ≡ in_string q
unfolding scan_in
scan_inside q zero s h = refl
scan_inside q (suc n) [] h = refl
scan_inside q (suc n) (c ∷ s) ((other, plain), hs) =
    rw (scan_step-inside q c s other plain, scan_in) (scan_inside q n s hs)

Continues-inside :
    (q : ℕ) (lines : List Bytes)
    → All (λ line. NoReturn line × IsInside q line) lines
    → Continues (in_string q) lines × (scan_lines (in_string q) lines ≡ in_string q)
unfolding Continues scan_lines scan_sql_state
Continues-inside q [] h = (tt, refl)
Continues-inside q (line ∷ lines) ((whole, inside), hs) =
    let same = scan_inside q (length line) line inside in
    let more = Continues-inside q lines hs in rw same ((whole, refl, more.0), more.1)

-- While a string in `q` is open, lines without that quote, without a backslash and without a carriage
-- return at their end are all text of the statement, also those that look like headers or banners:
-- nothing comes out, and the parser is as before but for its buffer, which holds the text that was
-- there, not empty, and then the lines, each behind a newline.
pub push_lines_inside :
    (env : Outside) (q : ℕ) (lines : List Bytes) (st : SlowLogParser) (c : ℕ) (b : Bytes)
    → st.in_query ≡ true
    → st.sql_state ≡ in_string q
    → st.buf ≡ c ∷ b
    → All (λ line. NoReturn line × IsInside q line) lines
    → push_lines env lines st ≡ (record st { buf = join (c ∷ b) lines }, [])
unfolding appended
push_lines_inside env q lines st c b h opened kept inside =
    let r = Continues-inside q lines inside in
    push_lines-Continues env lines st h (rw opened r.0)
    ∙ ap (λ s. (record st { buf = add_lines st.buf lines; sql_state = s }, []))
        (ap (λ s. scan_lines s lines) opened ∙ r.1 ∙ sym opened)
    ∙ ap (λ t. (record st { buf = t }, []))
        (ap (λ t. add_lines t lines) kept ∙ add_lines-join c b lines)
