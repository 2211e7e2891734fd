-- ===== src/Wire/Decoder/Order.antt =====
-- The order of the events of `ConnDecoder`: each statement that the client sends comes out once, in
-- the order of sending.
use avraham_sql_tools.Base.{
  if_lem, if_both, ℕ, Bool, true, ◌&&◌, Option, none, some, List, [], ◌∷◌, ◌++◌, append-nil, ◌≡◌,
  refl, sym, ap, ◌∙◌, arith, ◌==◌, if◌then◌else◌, inl, inr, Bool-cases, Option-cases, Bytes,
}
use mathlib.Core.Option
use avraham_sql_tools.Utf8.Lossy.{from_utf8_lossy}
use avraham_sql_tools.Wire.Decoder.{
  ConnDecoder, PreparedStmt, prepare, silent, bad_handshake, greeting, login, established, next_seq,
  push_pending, ignore_command,
}
use avraham_sql_tools.Wire.Decoder.Command.{
  use_text, on_login, on_init_db, send_long_data, close_stmt, reset_stmt, settle_response,
  run_command, on_payload, on_command,
}
use avraham_sql_tools.Wire.Decoder.Execute.{
  com_query_text, decode_execute, bound_values, execute_values, execute_stmt, execute_counted,
  bitmap_size, execute_head, param_count, has_count,
}
use avraham_sql_tools.Wire.Reader.{take_bytes, lenenc_int}
use avraham_sql_tools.Wire.Decoder.Handlers.{on_client_packet}
use avraham_sql_tools.Wire.Packets.{LogicalPacket}
use avraham_sql_tools.Wire.Decoder.Adds.{
  Statement, statements, stated, Adds, push_pending-Adds, queue_event-Adds, Keeps, Keeps-Adds,
  expand-Keeps, Adds-after, counted, on_execute-Adds, on_query-Adds, send_long_data-Keeps,
  close_stmt-Keeps, reset_stmt-Keeps, on_login-Keeps,
}

module _ (float_text : Bytes → Bytes) where
  bound_values-Keeps :
      (st : ConnDecoder) (id : ℕ) (stmt : PreparedStmt) (named : Bool) (count : ℕ)
      (bitmap r : Bytes)
      → Keeps st (bound_values float_text st id stmt named count bitmap r).0
  unfolding bound_values
  bound_values-Keeps st id stmt named count bitmap r = ground arith

  execute_values-Keeps :
      (st : ConnDecoder) (id : ℕ) (stmt : PreparedStmt) (named : Bool) (count : ℕ) (r : Bytes)
      → Keeps st (execute_values float_text st id stmt named count r).0
  unfolding execute_values
  execute_values-Keeps st id stmt named count r = elim (Bool-cases (count == 0)) [
    | inl none_at_all ↦ rw none_at_all refl
    | inr some_of ↦ elim (Option-cases (take_bytes (bitmap_size count) r)) [
      | inl short ↦ rw (some_of, short) refl
      | inr ((bitmap, r'), e) ↦
          rw (some_of, e) (bound_values-Keeps st id stmt named count bitmap r')
    ]
  ]

  execute_counted-Keeps :
      (st : ConnDecoder) (id : ℕ) (stmt : PreparedStmt) (counted : Bool) (r : Bytes)
      → Keeps st (execute_counted float_text st id stmt counted r).0
  unfolding execute_counted
  execute_counted-Keeps st id stmt counted r = elim (Option-cases (param_count counted stmt r)) [
    | inl bad ↦ rw (bad, execute_counted) refl
    | inr ((count, r'), e) ↦
        rw (e, execute_counted)
          (expand-Keeps st id stmt (execute_values float_text st id stmt counted count r')
            (execute_values-Keeps st id stmt counted count r'))
  ]

  decode_execute-Keeps :
      (st : ConnDecoder) (p : Bytes) → Keeps st (decode_execute float_text st p).0
  unfolding decode_execute
  decode_execute-Keeps st p = elim (Option-cases (execute_head st p)) [
    | inl bad ↦ rw (bad, decode_execute) refl
    | inr ((id, (flags, (stmt, r))), e) ↦
        rw (e, decode_execute)
          (unfold execute_stmt in execute_counted-Keeps st id stmt (has_count st flags) r)
  ]

  -- The text behind the attributes of a COM_QUERY, which are a count of 0 and one set of them; how
  -- other attributes are skipped is taken from `com_query_text`.
  behind_attributes : ConnDecoder → Bytes → Option Bytes
  behind_attributes st [] = com_query_text float_text st []
  behind_attributes st (n ∷ []) = com_query_text float_text st (n ∷ [])
  behind_attributes st (n ∷ sets ∷ text) =
      if n == 0 && sets == 1 then some text else com_query_text float_text st (n ∷ sets ∷ text)

  -- The text of a COM_QUERY: the payload, or what is behind the attributes where the client sends them.
  sent_text : ConnDecoder → Bytes → Option Bytes
  sent_text st p =
      if st.query_attrs then behind_attributes (record st { query_attrs = true }) p else some p

  com_query_text-no_attributes :
      (st : ConnDecoder) (n sets : ℕ) (text : Bytes)
      → n ≡ 0
      → sets ≡ 1
      → com_query_text float_text (record st { query_attrs = true }) (n ∷ sets ∷ text) ≡ some text
  unfolding com_query_text lenenc_int
  com_query_text-no_attributes st n sets text h k = rw (h, k) refl

  com_query_text-behind_attributes :
      (st : ConnDecoder) (p : Bytes)
      → com_query_text float_text (record st { query_attrs = true }) p
        ≡ behind_attributes (record st { query_attrs = true }) p
  unfolding behind_attributes
  com_query_text-behind_attributes st [] = refl
  com_query_text-behind_attributes st (n ∷ []) = refl
  com_query_text-behind_attributes st (n ∷ sets ∷ text) = elim (Bool-cases (n == 0 && sets == 1)) [
    | inr some_of ↦ rw some_of refl
    | inl none_of ↦
        rw none_of (com_query_text-no_attributes st n sets text (ground arith) (ground arith))
  ]

  com_query_text-sent_text :
      (st : ConnDecoder) (p : Bytes) → com_query_text float_text st p ≡ sent_text st p
  unfolding sent_text com_query_text
  com_query_text-sent_text st p =
      ap (λ o. if st.query_attrs then o else some p) (com_query_text-behind_attributes st p)

  -- The statement that a command carries, if it carries one: the text of a query, the USE that stands
  -- for a COM_INIT_DB, and the expanded text of a prepared statement.
  command_text : ℕ → ConnDecoder → Bytes → Option Bytes
  command_text cmd st p =
      if cmd == 0x03
      then Option.map from_utf8_lossy (sent_text st p)
      else if cmd == 0x02
      then some (use_text (from_utf8_lossy p))
      else if cmd == 0x16
      then none
      else if cmd == 0x17
      then (decode_execute float_text st p).1
      else none

  payload_text : ConnDecoder → Bytes → Option Bytes
  payload_text st [] = none
  payload_text st (cmd ∷ p) = command_text cmd st p

  abbrev Carries : ℕ → ConnDecoder → ConnDecoder → Option Bytes → Type 0
  Carries ts st st' text = Adds st st' (stated ts text)

  silent_command-Carries :
      (cmd seq ts : ℕ) (p : Bytes) (st : ConnDecoder)
      → Carries ts st
          (if cmd == 0x18
            then send_long_data p st
            else if cmd == 0x19
            then close_stmt p st
            else if cmd == 0x1a
            then push_pending seq silent (reset_stmt p st)
            else if cmd == 0x01
            then record st { finished = true }
            else push_pending seq silent (ignore_command st))
          none
  silent_command-Carries cmd seq ts p st =
      let Silent = λ (st' : ConnDecoder). Adds st st' [] in
      if_lem Silent (cmd == 0x18) (Keeps-Adds st (send_long_data p st) (send_long_data-Keeps p st))
        (if_lem Silent (cmd == 0x19) (Keeps-Adds st (close_stmt p st) (close_stmt-Keeps p st)) (
          if_lem Silent (cmd == 0x1a)
            (Adds-after st (reset_stmt p st) (push_pending seq silent (reset_stmt p st)) []
              (reset_stmt-Keeps p st) (push_pending-Adds seq silent (reset_stmt p st)))
            (if_lem Silent (cmd == 0x01) (sym (append-nil (statements st.pending)))
              (push_pending-Adds seq silent (ignore_command st)))))

  run_command-Carries :
      (cmd seq ts : ℕ) (p : Bytes) (st : ConnDecoder)
      → Carries ts st (run_command float_text cmd seq ts p st) (command_text cmd st p)
  unfolding run_command command_text
  run_command-Carries cmd seq ts p st =
      if_both (Carries ts st) (cmd == 0x03)
        (on_query-Adds seq ts (com_query_text float_text st p) st
          ∙ ap (λ o. statements st.pending ++ stated ts (Option.map from_utf8_lossy o))
              (com_query_text-sent_text st p))
        (if_both (Carries ts st) (cmd == 0x02)
          (unfold on_init_db in
            queue_event-Adds seq ts (use_text (from_utf8_lossy p))
              (record st { db = some (from_utf8_lossy p) }))
          (if_both (Carries ts st) (cmd == 0x16)
            (push_pending-Adds seq (prepare (from_utf8_lossy p)) st)
            (if_both (Carries ts st) (cmd == 0x17)
              (on_execute-Adds seq ts st (decode_execute float_text st p)
                (decode_execute-Keeps st p))
              (silent_command-Carries cmd seq ts p st))))

  on_payload-Carries :
      (seq ts : ℕ) (p : Bytes) (st : ConnDecoder)
      → Carries ts st (on_payload float_text seq ts p st) (payload_text st p)
  unfolding on_payload payload_text
  on_payload-Carries seq ts [] st = sym (append-nil (statements st.pending))
  on_payload-Carries seq ts (cmd ∷ p) st = run_command-Carries cmd seq ts p st

  -- The statements that a packet from the client carries, with its time: those of a command, which
  -- begins with the sequence number 0, in the command phase.
  pub asked_by : ConnDecoder → LogicalPacket → List Statement
  asked_by st pkt = elim st.phase [
    | greeting ↦ []
    | login ↦ []
    | established ↦
        if pkt.first_seq == 0
        then stated pkt.ts_micros (payload_text (settle_response st) pkt.payload)
        else []
  ]

  pub on_client_packet-Adds :
      (st : ConnDecoder) (pkt : LogicalPacket)
      → Adds st (on_client_packet float_text st pkt) (asked_by st pkt)
  unfolding on_client_packet asked_by
  on_client_packet-Adds st pkt =
      elim st.phase
        as (λ ph.
          Adds st
            (elim ph [
              | greeting ↦ record st { disposition = bad_handshake }
              | login ↦ on_login st pkt.payload
              | established ↦ if pkt.first_seq == 0 then on_command float_text st pkt else st
            ])
            (elim ph [
              | greeting ↦ []
              | login ↦ []
              | established ↦
                  if pkt.first_seq == 0
                  then stated pkt.ts_micros (payload_text (settle_response st) pkt.payload)
                  else []
            ])) [
              | greeting ↦ sym (append-nil (statements st.pending))
              | login ↦ Keeps-Adds st (on_login st pkt.payload) (on_login-Keeps st pkt.payload)
              | established ↦
                  if_both (Adds st) (pkt.first_seq == 0)
                    (unfold on_command in
                      on_payload-Carries (next_seq pkt.last_seq) pkt.ts_micros pkt.payload
                        (settle_response st))
                    (sym (append-nil (statements st.pending)))
            ]
