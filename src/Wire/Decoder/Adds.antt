-- ===== src/Wire/Decoder/Adds.antt =====
-- What each operation of `ConnDecoder` adds to the statements in flight.
use avraham_sql_tools.Base.{
  if_lem, ℕ, not, ◌||◌, Option, none, some, List, [], ◌∷◌, ◌++◌, append_assoc, append-nil, ◌≡◌,
  refl, sym, ap, ◌∙◌, arith, leb, length, ltb, take, ◌+◌, Bytes,
}
use mathlib.Core.Option
use avraham_sql_tools.Utf8.Lossy.{from_utf8_lossy}
use avraham_sql_tools.Wire.Decoder.{
  ConnDecoder, ProtoEvent, PreparedStmt, Pending, event, prepare, silent, InFlight, push_pending,
  queue_event, ignore_command,
}
use avraham_sql_tools.Wire.Decoder.Command.{
  on_login, on_query, on_execute, send_long_data, close_stmt, reset_stmt, login_names, has_bit,
  protocol_41,
}
use avraham_sql_tools.Wire.Decoder.Execute.{expand}
use avraham_sql_tools.Wire.Reader.{from_le}

-- The time and the text of a statement.
abbrev pub Statement : Type 0
Statement = ℕ × Bytes

abbrev pub key : ProtoEvent → Statement
key ev = (ev.ts_micros, ev.query)

abbrev pub statement_of : Pending → List Statement
statement_of (event ev) = key ev ∷ []
statement_of (prepare sql) = []
statement_of silent = []

-- The statements in flight.
unfoldable pub statements : List InFlight → List Statement
statements [] = []
statements (f ∷ fs) = statement_of f.pending ++ statements fs

abbrev pub stated : ℕ → Option Bytes → List Statement
stated ts none = []
stated ts (some query) = (ts, query) ∷ []

statements-append :
    (fs : List InFlight) (f : InFlight)
    → statements (fs ++ f ∷ []) ≡ statements fs ++ statement_of f.pending
unfolding statements
statements-append [] f = append-nil (statement_of f.pending)
statements-append (g ∷ fs) f =
    ap (◌++◌ (statement_of g.pending)) (statements-append fs f)
    ∙ sym (append_assoc (statement_of g.pending) (statements fs) (statement_of f.pending))

-- One more request in flight, with these statements.
abbrev pub Adds : ConnDecoder → ConnDecoder → List Statement → Type 0
Adds st st' new = statements st'.pending ≡ statements st.pending ++ new

pub push_pending-Adds :
    (seq : ℕ) (p : Pending) (st : ConnDecoder) → Adds st (push_pending seq p st) (statement_of p)
unfolding push_pending
push_pending-Adds seq p st = statements-append st.pending (record { resp_seq = seq; pending = p })

pub queue_event-Adds :
    (seq ts : ℕ) (query : Bytes) (st : ConnDecoder)
    → Adds st (queue_event seq ts query st) ((ts, query) ∷ [])
unfolding queue_event push_pending
queue_event-Adds seq ts query st = statements-append st.pending _

-- Handlers that leave the requests in flight as they are.
abbrev pub Keeps : ConnDecoder → ConnDecoder → Type 0
Keeps st st' = st'.pending ≡ st.pending

pub Keeps-Adds : (st st' : ConnDecoder) → Keeps st st' → Adds st st' []
Keeps-Adds st st' k = ap statements k ∙ sym (append-nil (statements st.pending))

pub expand-Keeps :
    (st : ConnDecoder) (id : ℕ) (stmt : PreparedStmt) (r : ConnDecoder × Option (List Bytes))
    → Keeps st r.0
    → Keeps st (expand id stmt r).0
unfolding expand
expand-Keeps st id stmt (st', none) k = k
expand-Keeps st id stmt (st', some values) k = k

pub Adds-after :
    (st st' st'' : ConnDecoder) (new : List Statement)
    → Keeps st st'
    → Adds st' st'' new
    → Adds st st'' new
Adds-after st st' st'' new k a = a ∙ ap (λ l. statements l ++ new) k

abbrev pub counted : ConnDecoder → ConnDecoder
counted st = record st {
  stats = record st.stats { statements_expanded = st.stats.statements_expanded + 1 };
}

abbrev uncounted : ConnDecoder → ConnDecoder
uncounted st = record st {
  stats = record st.stats { statements_inexpandable = st.stats.statements_inexpandable + 1 };
}

pub on_execute-Adds :
    (seq ts : ℕ) (st : ConnDecoder) (r : ConnDecoder × Option Bytes)
    → Keeps st r.0
    → Adds st (on_execute seq ts r) (stated ts r.1)
unfolding on_execute
on_execute-Adds seq ts st (st', some query) k =
    Adds-after st (counted st') (on_execute seq ts (st', some query)) ((ts, query) ∷ []) k
      (queue_event-Adds seq ts query (counted st'))
on_execute-Adds seq ts st (st', none) k =
    Adds-after st (uncounted st') (on_execute seq ts (st', none)) [] k
      (push_pending-Adds seq silent (uncounted st'))

pub on_query-Adds :
    (seq ts : ℕ) (text : Option Bytes) (st : ConnDecoder)
    → Adds st (on_query seq ts text st) (stated ts (Option.map from_utf8_lossy text))
unfolding on_query
on_query-Adds seq ts (some text) st = queue_event-Adds seq ts (from_utf8_lossy text) st
on_query-Adds seq ts none st = push_pending-Adds seq silent (ignore_command st)

pub send_long_data-Keeps : (p : Bytes) (st : ConnDecoder) → Keeps st (send_long_data p st)
unfolding send_long_data
send_long_data-Keeps p st = if_lem (Keeps st) (leb 6 (length p)) refl refl

pub close_stmt-Keeps : (p : Bytes) (st : ConnDecoder) → Keeps st (close_stmt p st)
unfolding close_stmt
close_stmt-Keeps p st = if_lem (Keeps st) (leb 4 (length p)) refl refl

pub reset_stmt-Keeps : (p : Bytes) (st : ConnDecoder) → Keeps st (reset_stmt p st)
unfolding reset_stmt
reset_stmt-Keeps p st = if_lem (Keeps st) (leb 4 (length p)) refl refl

login_names-Keeps : (caps : ℕ) (p : Bytes) (st : ConnDecoder) → Keeps st (login_names caps p st)
unfolding login_names
login_names-Keeps caps p st = ground arith

pub on_login-Keeps : (st : ConnDecoder) (p : Bytes) → Keeps st (on_login st p)
unfolding on_login
on_login-Keeps st p =
    let names = λ (s : ConnDecoder). login_names-Keeps (from_le (take 4 p)) p s in
    if_lem (Keeps st) (ltb (length p) 4) refl (
      if_lem (Keeps st) (not (has_bit protocol_41 (from_le (take 4 p)))) refl (
        if_lem (Keeps st) (has_bit 11 (from_le (take 4 p))) refl (
          if_lem (Keeps st) (has_bit 5 (from_le (take 4 p)) || has_bit 26 (from_le (take 4 p))) refl
            (names _))))
