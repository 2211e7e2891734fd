-- ===== src/Pcap/Engine/Accounts.antt =====
-- Each connection that `PcapEngine` has counted is counted once more when it is over.
use avraham_sql_tools.Base.{
  ℕ, ◌+◌, Bool, true, false, Option, none, some, [], ◌∷◌, ◌++◌, ◌≡◌, refl, sym, ap, ◌∙◌, arith,
  if◌then◌else◌, inl, inr, Bool-cases, bytes_eq_refl,
}
use mathlib.Core.Option.{some-injective, none-ne-some}
use avraham_sql_tools.Pcap.Engine.{
  PcapStats, FlowKey, ConnState, PcapEngine, Conns, same_flow, conn_at, store, remove, Drained,
  is_used, synthetic_id, new_session_id, session_of, drain_events, count_conn, accumulate, finalize,
  lost_packets, is_empty, nothing, close_conn,
}
use avraham_sql_tools.Base.{if_lem}
use avraham_sql_tools.Wire.Decoder.Handlers
use avraham_sql_tools.Wire.Decoder.{
  ConnStats, Disposition, active, tls, compressed, bad_handshake, broken,
}

-- The connections that are over.
abbrev pub done : PcapStats → ℕ
done s =
    s.connections_decoded + s.connections_tls_skipped + s.connections_compressed_skipped
    + s.connections_midstream_skipped + s.connections_broken

abbrev pub is_open : ConnState → ℕ
is_open c = if c.finished then 0 else 1

unfoldable pub live : Conns → ℕ
live [] = 0
live ((k, c) ∷ m) = is_open c + live m

-- The counters of connections, apart from those that are live.
abbrev pub SameCounts : PcapStats → PcapStats → Type 0
SameCounts s s' = (s'.connections ≡ s.connections) × (done s' ≡ done s)

abbrev pub IsBalanced : PcapEngine → Type 0
IsBalanced eng = eng.stats.connections ≡ done eng.stats + live eng.conns

same_flow_refl : (k : FlowKey) → same_flow k k ≡ true
same_flow_refl k = ground (arith, bytes_eq_refl k.client.addr, bytes_eq_refl k.server.addr)

pub conn_at-store : (k : FlowKey) (c : ConnState) (m : Conns) → conn_at k (store k c m) ≡ some c
unfolding conn_at store
conn_at-store k c [] = rw (same_flow_refl k) refl
conn_at-store k c ((j, d) ∷ m) = elim (Bool-cases (same_flow j k)) [
  | inl same ↦ rw same (rw same refl)
  | inr other ↦ rw other (rw other (conn_at-store k c m))
]

pub live-store :
    (k : FlowKey) (old c : ConnState) (m : Conns)
    → conn_at k m ≡ some old
    → live (store k c m) + is_open old ≡ live m + is_open c
unfolding conn_at store live
live-store k old c [] h = cc
live-store k old c ((j, d) ∷ m) h = elim (Bool-cases (same_flow j k)) [
  | inl same ↦ let e : d ≡ old = some-injective d old (rw same at h) in rw (same, ← e) (omega arith)
  | inr other ↦ rw other (omega (arith, live-store k old c m (rw other at h)))
]

pub live-store_new :
    (k : FlowKey) (c : ConnState) (m : Conns)
    → conn_at k m ≡ none
    → live (store k c m) ≡ live m + is_open c
unfolding conn_at store live
live-store_new k c [] h = omega arith
live-store_new k c ((j, d) ∷ m) h = elim (Bool-cases (same_flow j k)) [
  | inl same ↦ absurd (none-ne-some d (sym (rw same at h)))
  | inr other ↦ rw other (omega (arith, live-store_new k c m (rw other at h)))
]

pub live-remove :
    (k : FlowKey) (old : ConnState) (m : Conns)
    → conn_at k m ≡ some old
    → live (remove k m) + is_open old ≡ live m
unfolding conn_at remove live
live-remove k old [] h = cc
live-remove k old ((j, d) ∷ m) h = elim (Bool-cases (same_flow j k)) [
  | inl same ↦ let e : d ≡ old = some-injective d old (rw same at h) in rw (same, ← e) (omega arith)
  | inr other ↦ rw other (omega (arith, live-remove k old m (rw other at h)))
]

count_conn-done :
    (d : Disposition) (lost : Bool) (s : PcapStats)
    → (done (count_conn d lost s) ≡ done s + 1)
      × ((count_conn d lost s).connections ≡ s.connections)
unfolding count_conn
count_conn-done active true s = (omega arith, refl)
count_conn-done active false s = (omega arith, refl)
count_conn-done tls lost s = (omega arith, refl)
count_conn-done compressed lost s = (omega arith, refl)
count_conn-done bad_handshake lost s = (omega arith, refl)
count_conn-done broken lost s = (omega arith, refl)

session_of-same :
    (eng : PcapEngine) (sid thread_id : Option ℕ)
    → ((session_of eng sid thread_id).0.stats ≡ eng.stats)
      × ((session_of eng sid thread_id).0.conns ≡ eng.conns)
unfolding session_of new_session_id synthetic_id
session_of-same eng (some sid) t = (refl, refl)
session_of-same eng none none = (refl, refl)
session_of-same eng none (some t) = elim (Bool-cases (is_used t eng.used_session_ids)) [
  | inl taken ↦ rw taken (refl, refl)
  | inr free ↦ rw free (refl, refl)
]

-- What draining leaves alone.
pub record Drains (eng : PcapEngine) (c : ConnState) (d : Drained) : Type 0 where
  pub same_stats : d.eng.stats ≡ eng.stats
  pub same_conns : d.eng.conns ≡ eng.conns
  pub same_finished : d.conn.finished ≡ c.finished

pub drain_events-Drains : (eng : PcapEngine) (c : ConnState) → Drains eng c (drain_events eng c)
unfolding drain_events
drain_events-Drains eng c =
    let s = session_of-same eng c.session_id c.dec.thread_id in
    if_lem (Drains eng c) (is_empty eng.evbuf)
      (record { same_stats = refl; same_conns = refl; same_finished = refl })
      (record { same_stats = s.0; same_conns = s.1; same_finished = refl })

is_open_over : (c : ConnState) → c.finished ≡ true → is_open c ≡ 0
is_open_over c h = ap (λ b. if b then 0 else 1) h

is_open_live : (c : ConnState) → c.finished ≡ false → is_open c ≡ 1
is_open_live c h = ap (λ b. if b then 0 else 1) h

-- What finalizing a connection does to the counts.
pub record Finalizes (eng : PcapEngine) (c : ConnState) (d : Drained) : Type 0 where
  pub kept_conns : d.eng.conns ≡ eng.conns
  pub same_connections : d.eng.stats.connections ≡ eng.stats.connections
  pub counted : done d.eng.stats ≡ done eng.stats + is_open c
  pub over : is_open d.conn ≡ 0

accumulate-SameCounts : (k : ConnStats) (s : PcapStats) → SameCounts s (accumulate k s)
unfolding accumulate
accumulate-SameCounts k s = (refl, refl)

close_conn-Finalizes :
    (eng : PcapEngine) (c : ConnState) → c.finished ≡ false → Finalizes eng c (close_conn eng c)
unfolding close_conn
close_conn-Finalizes eng c h =
    let last = Handlers.finish c.dec in
    let eng' = record eng { evbuf = eng.evbuf ++ last.1 } in
    let c' = record c { finished = true; dec = last.0 } in
    let d = drain_events eng' c' in
    let drains = drain_events-Drains eng' c' in
    let counted = count_conn-done d.conn.dec.disposition (lost_packets d.conn) d.eng.stats in
    let added =
      accumulate-SameCounts d.conn.dec.stats
        (count_conn d.conn.dec.disposition (lost_packets d.conn) d.eng.stats) in
    record {
      kept_conns = drains.same_conns;
      same_connections = added.0 ∙ counted.1 ∙ ap (λ s. s.connections) drains.same_stats;
      counted =
          added.1
          ∙ counted.0
          ∙ ap (λ s. done s + 1) drains.same_stats
          ∙ ap (◌+◌ (done eng.stats)) (sym (is_open_live c h));
      over = is_open_over d.conn drains.same_finished;
    }

pub finalize-Finalizes : (eng : PcapEngine) (c : ConnState) → Finalizes eng c (finalize eng c)
unfolding finalize
finalize-Finalizes eng c =
    (elim c.finished
        as (λ b. c.finished ≡ b → Finalizes eng c (if b then nothing eng c else close_conn eng c)) [
          | true ↦ λ over. record {
            kept_conns = refl;
            same_connections = refl;
            counted = let e = is_open_over c over in omega (arith, e);
            over = is_open_over c over;
          }
          | false ↦ λ live_. close_conn-Finalizes eng c live_
        ])
      refl
