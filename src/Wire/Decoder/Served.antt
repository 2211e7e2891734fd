-- ===== src/Wire/Decoder/Served.antt =====
-- The statements of a connection, from the packets that carry them to the events that come out.
use avraham_sql_tools.Base.{
  ◌||◌, ℕ, false, ◌||◌, none, some, List, [], ◌∷◌, ◌++◌, map, append_assoc, append-nil, ◌≡◌, refl,
  sym, ap, ◌∙◌, arith, ◌==◌, if◌then◌else◌, Bytes, map-append_lem,
}
use avraham_sql_tools.Wire.Decoder.{
  ConnDecoder, new, ProtoEvent, Pending, event, prepare, silent, InFlight, Dir, client, server,
  bad_handshake, greeting, login, established, decoding, next_seq,
}
use avraham_sql_tools.Wire.Decoder.Handlers.{
  Outcome, on_greeting, on_prepared, on_response, on_fresh_packet, continues, on_established_packet,
  on_server_packet, on_client_packet, missing, finish, take_chunk, on_packet, on_packets, on_chunk,
  on_data,
}
use avraham_sql_tools.Wire.Decoder.Adds.{Statement, key, statement_of, statements}
use avraham_sql_tools.Wire.Decoder.Order.{asked_by, on_client_packet-Adds}
use avraham_sql_tools.Base.{if_lem, if_both}
use avraham_sql_tools.Wire.Packets.{LogicalPacket}
use avraham_sql_tools.Wire.Reader.{parse_greeting}

abbrev pub keys : List ProtoEvent → List Statement
keys = map key

-- The statements in flight before are those that came out, and those in flight after.
abbrev Serves : List InFlight → Outcome → Type 0
Serves fs o = statements fs ≡ keys o.1 ++ statements o.0.pending

on_prepared-pending :
    (sql p : Bytes) (st : ConnDecoder) → (on_prepared sql p st).pending ≡ st.pending
unfolding on_prepared
on_prepared-pending sql p st = ground arith

on_response-Serves :
    (p : Pending) (pkt : LogicalPacket) (st : ConnDecoder)
    → (statement_of p ++ statements st.pending)
      ≡ keys (on_response p pkt st).1 ++ statements (on_response p pkt st).0.pending
unfolding on_response
on_response-Serves (event ev) pkt st = refl
on_response-Serves (prepare sql) pkt st =
    ap statements (sym (on_prepared-pending sql pkt.payload st))
on_response-Serves silent pkt st = refl

on_fresh_packet-Serves :
    (fs : List InFlight) (pkt : LogicalPacket) (st : ConnDecoder)
    → st.pending ≡ fs
    → Serves fs (on_fresh_packet fs pkt st)
unfolding on_fresh_packet statements
on_fresh_packet-Serves [] pkt st h = ap statements (sym h)
on_fresh_packet-Serves (f ∷ fs) pkt st h =
    if_lem (Serves (f ∷ fs)) (f.resp_seq == pkt.first_seq)
      (on_response-Serves f.pending pkt
        (record st { server_cont_seq = some (next_seq pkt.last_seq); pending = fs }))
      (ap statements (sym h))

on_server_packet-Serves :
    (st : ConnDecoder) (pkt : LogicalPacket) → Serves st.pending (on_server_packet st pkt)
unfolding on_server_packet on_established_packet
on_server_packet-Serves st pkt =
    elim st.phase
      as (λ ph. Serves st.pending (elim ph [
        | greeting ↦ (on_greeting st (parse_greeting pkt.payload), [])
        | login ↦ (record st { disposition = bad_handshake }, [])
        | established ↦
            if continues st.server_cont_seq pkt.first_seq
            then (record st { server_cont_seq = some (next_seq pkt.last_seq) }, [])
            else on_fresh_packet st.pending pkt st
      ])) [
        | greeting ↦
            unfold on_greeting in
            elim (parse_greeting pkt.payload) as (λ g. Serves st.pending (on_greeting st g, [])) [
              | none ↦ refl
              | some g ↦ refl
            ]
        | login ↦ refl
        | established ↦
            if_lem (Serves st.pending) (continues st.server_cont_seq pkt.first_seq) refl
              (on_fresh_packet-Serves st.pending pkt st refl)
      ]

keys-missing : (fs : List InFlight) → keys (missing fs) ≡ statements fs
unfolding missing statements
keys-missing [] = refl
keys-missing (f ∷ fs) =
    elim f.pending
      as (λ p.
        keys (elim p [
          | event ev ↦ record ev { response_seen = false; latency = 0 } ∷ missing fs
          | prepare sql ↦ missing fs
          | silent ↦ missing fs
        ])
        ≡ statement_of p ++ statements fs) [
          | event ev ↦ ap (◌∷◌ (key ev)) (keys-missing fs)
          | prepare sql ↦ keys-missing fs
          | silent ↦ keys-missing fs
        ]

-- The bytes of one direction that arrive at a time.
pub record Chunk : Type 0 where
  pub dir : Dir
  pub ts : ℕ
  pub bytes : Bytes

module _ (float_text : Bytes → Bytes) where
  -- The statements that a list of packets carries, up to where the decoder stops.
  pub asked_in : Dir → ConnDecoder → List LogicalPacket → List Statement
  asked_in server st pkts = []
  asked_in client st [] = []
  asked_in client st (pkt ∷ pkts) =
      let st' = on_client_packet float_text st pkt in
      let more = asked_in client st' pkts in
      if decoding st' then asked_by float_text st pkt ++ more else asked_by float_text st pkt

  -- The statements in flight before and those asked for are those that came out and those in flight
  -- after, in that order.
  abbrev pub Balanced : List InFlight → List Statement → Outcome → Type 0
  Balanced fs asked o = statements fs ++ asked ≡ keys o.1 ++ statements o.0.pending

  on_packets-Balanced :
      (dir : Dir) (st : ConnDecoder) (pkts : List LogicalPacket)
      → Balanced st.pending (asked_in dir st pkts) (on_packets float_text dir st pkts)
  unfolding on_packets asked_in on_packet
  on_packets-Balanced client st [] = append-nil (statements st.pending)
  on_packets-Balanced server st [] = append-nil (statements st.pending)
  on_packets-Balanced client st (pkt ∷ pkts) =
      let st' = on_client_packet float_text st pkt in
      let asked = asked_by float_text st pkt in
      let adds = on_client_packet-Adds float_text st pkt in
      if_both (Balanced st.pending) (decoding st')
        (sym (append_assoc (statements st.pending) asked (asked_in client st' pkts))
          ∙ ap (λ l. l ++ asked_in client st' pkts) (sym adds)
          ∙ on_packets-Balanced client st' pkts)
        (sym adds)
  on_packets-Balanced server st (pkt ∷ pkts) =
      let r = on_server_packet st pkt in
      let more = on_packets float_text server r.0 pkts in
      let serves = on_server_packet-Serves st pkt in
      if_lem (Balanced st.pending []) (decoding r.0)
        (append-nil (statements st.pending)
          ∙ serves
          ∙ ap (◌++◌ (keys r.1))
              (sym (append-nil (statements r.0.pending)) ∙ on_packets-Balanced server r.0 pkts)
          ∙ sym (append_assoc (keys r.1) (keys more.1) (statements more.0.pending))
          ∙ ap (λ l. l ++ statements more.0.pending) (sym (map-append_lem key r.1 more.1)))
        (append-nil (statements st.pending) ∙ serves)

  -- The statements that a chunk brings.
  pub asked_on : Chunk → ConnDecoder → List Statement
  asked_on c st =
      let r = take_chunk c.dir c.ts c.bytes st in
      if decoding st
      then (if r.0.client_packets.broken || r.0.server_packets.broken
          then []
          else asked_in c.dir r.0 r.1)
      else []

  take_chunk-pending :
      (dir : Dir) (ts : ℕ) (b : Bytes) (st : ConnDecoder)
      → (take_chunk dir ts b st).0.pending ≡ st.pending
  unfolding take_chunk
  take_chunk-pending client ts b st = refl
  take_chunk-pending server ts b st = refl

  on_data-Balanced :
      (c : Chunk) (st : ConnDecoder)
      → Balanced st.pending (asked_on c st) (on_data float_text c.dir c.ts c.bytes st)
  unfolding on_data asked_on on_chunk
  on_data-Balanced c st =
      let r = take_chunk c.dir c.ts c.bytes st in
      let same = take_chunk-pending c.dir c.ts c.bytes st in
      if_both (Balanced st.pending) (decoding st)
        (if_both (Balanced st.pending) (r.0.client_packets.broken || r.0.server_packets.broken)
          (append-nil (statements st.pending) ∙ ap statements (sym same))
          (ap (λ l. statements l ++ asked_in c.dir r.0 r.1) (sym same)
            ∙ on_packets-Balanced c.dir r.0 r.1))
        (append-nil (statements st.pending))

  -- A connection: its chunks in the order of their arrival.
  unfoldable pub converse : ConnDecoder → List Chunk → Outcome
  converse st [] = (st, [])
  converse st (c ∷ cs) =
      let r = on_data float_text c.dir c.ts c.bytes st in
      let more = converse r.0 cs in (more.0, r.1 ++ more.1)

  -- The statements that it brings: those of the client's packets in the command phase, up to where the
  -- decoder stops reading, which is at TLS, at a handshake that it cannot read, at a stream that
  -- breaks and at a COM_QUIT.
  unfoldable pub asked : ConnDecoder → List Chunk → List Statement
  asked st [] = []
  asked st (c ∷ cs) = asked_on c st ++ asked (on_data float_text c.dir c.ts c.bytes st).0 cs

  -- However the chunks of a connection come, the events that came out and the statements still in
  -- flight are, in order, the statements in flight before and those of the client's packets in the
  -- command phase: the text of each COM_QUERY whose attributes can be skipped, the USE of each
  -- COM_INIT_DB and each execute that can be expanded. Packets behind the point where the decoder stops
  -- (a handshake that it cannot follow, TLS, compression, a broken stream, a COM_QUIT) do not count.
  pub converse-Balanced :
      (st : ConnDecoder) (cs : List Chunk) → Balanced st.pending (asked st cs) (converse st cs)
  unfolding converse asked
  converse-Balanced st [] = append-nil (statements st.pending)
  converse-Balanced st (c ∷ cs) =
      let r = on_data float_text c.dir c.ts c.bytes st in
      let more = converse r.0 cs in
      sym (append_assoc (statements st.pending) (asked_on c st) (asked r.0 cs))
      ∙ ap (λ l. l ++ asked r.0 cs) (on_data-Balanced c st)
      ∙ append_assoc (keys r.1) (statements r.0.pending) (asked r.0 cs)
      ∙ ap (◌++◌ (keys r.1)) (converse-Balanced r.0 cs)
      ∙ sym (append_assoc (keys r.1) (keys more.1) (statements more.0.pending))
      ∙ ap (λ l. l ++ statements more.0.pending) (sym (map-append_lem key r.1 more.1))

  -- A connection that ends without a COM_QUIT gives out one event, in the order of sending and with a
  -- response or without, for each statement of the client's packets that the decoder reads: the text of
  -- each COM_QUERY whose attributes can be skipped, the USE of each COM_INIT_DB and each execute that can
  -- be expanded, in the command phase and before the point where it stops, if it does (a handshake that
  -- it cannot follow, TLS, compression, a broken stream).
  pub converse-finish :
      (cs : List Chunk)
      → (converse new cs).0.finished ≡ false
      → keys ((converse new cs).1 ++ (finish (converse new cs).0).1) ≡ asked new cs
  unfolding finish asked statements
  converse-finish cs open_end =
      let r = converse new cs in
      let last : keys (finish r.0).1 ≡ statements r.0.pending =
        unfold finish in rw open_end (keys-missing r.0.pending) in
      map-append_lem key r.1 (finish r.0).1
      ∙ ap (◌++◌ (keys r.1)) last
      ∙ sym (converse-Balanced new cs)
