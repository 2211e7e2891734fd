-- ===== src/Pcap/Engine/Balance.antt =====
-- The steps of `on_packet` of `PcapEngine` and the counts of connections.
use avraham_sql_tools.Base.{
  ℕ, ◌+◌, Bool, ◌||◌, Option, none, some, ◌≡◌, refl, ap, ◌∙◌, arith, if◌then◌else◌, Bytes, ltb,
  length, not, ◌&&◌,
}
use avraham_sql_tools.Pcap.Engine.{
  PcapStats, FlowKey, ConnState, new_conn, PcapEngine, conn_at, remove, Drained, drain_events,
  finalize,
}
use avraham_sql_tools.Pcap.Engine.Accounts.{
  done, is_open, live, IsBalanced, SameCounts, conn_at-store, live-store, live-store_new,
  live-remove, drain_events-Drains, finalize-Finalizes,
}
use avraham_sql_tools.Pcap.Engine.Steps.{
  Result, replace_conn, replace_old, is_fresh_syn, is_syn_retransmit, entry, syn_to, data_to,
  add_version, contains_text, record_version, fin_from, close_or_drain, put_back, is_closed,
  is_done_decoding,
}
use avraham_sql_tools.Pcap.Headers.{TcpSegment}
use avraham_sql_tools.Base.{if_lem}
use avraham_sql_tools.Wire.Decoder.{Dir, client, server}

abbrev pub Balances : Result → Type 0
Balances r = IsBalanced r.0

replace_conn-IsBalanced :
    (key : FlowKey) (o : Option ConnState) (seg : TcpSegment) (eng : PcapEngine)
    → conn_at key eng.conns ≡ o
    → IsBalanced eng
    → Balances (replace_conn key o seg eng)
unfolding replace_conn
replace_conn-IsBalanced key none seg eng h w = w
replace_conn-IsBalanced key (some old) seg eng h w =
    let bare = record eng { conns = remove key eng.conns } in
    let f = finalize-Finalizes bare old in
    if_lem Balances (is_syn_retransmit seg old) w (
      omega (
        arith,
        w,
        f.same_connections,
        f.counted,
        ap live f.kept_conns,
        live-remove key old eng.conns h,
      ))

pub replace_old-IsBalanced :
    (key : FlowKey) (dir : Dir) (seg : TcpSegment) (eng : PcapEngine)
    → IsBalanced eng
    → Balances (replace_old key dir seg eng)
unfolding replace_old
replace_old-IsBalanced key dir seg eng w =
    if_lem Balances (is_fresh_syn seg dir)
      (replace_conn-IsBalanced key (conn_at key eng.conns) seg eng refl w) w

-- A connection that is in the table of a balanced engine.
pub record Entered (key : FlowKey) (r : PcapEngine × ConnState) : Type 0 where
  pub there : conn_at key r.0.conns ≡ some r.1
  pub balanced : IsBalanced r.0

pub entry-Entered :
    (key : FlowKey) (o : Option ConnState) (eng : PcapEngine)
    → conn_at key eng.conns ≡ o
    → IsBalanced eng
    → Entered key (entry key o eng)
unfolding entry
entry-Entered key (some c) eng h w = record { there = h; balanced = w }
entry-Entered key none eng h w = record {
  there = conn_at-store key new_conn eng.conns;
  balanced = let more = live-store_new key new_conn eng.conns h in omega (arith, w, more);
}

-- Steps that leave the counts, the table and the end of the connection alone.
pub record Keeps (eng : PcapEngine) (c : ConnState) (r : PcapEngine × ConnState) : Type 0 where
  pub same_counts : SameCounts eng.stats r.0.stats
  pub same_conns : r.0.conns ≡ eng.conns
  pub same_finished : r.1.finished ≡ c.finished

pub syn_to-finished :
    (dir : Dir) (seg : TcpSegment) (c : ConnState) → (syn_to dir seg c).finished ≡ c.finished
unfolding syn_to
syn_to-finished client seg c = if_lem (λ (x : ConnState). x.finished ≡ c.finished) seg.syn refl refl
syn_to-finished server seg c = if_lem (λ (x : ConnState). x.finished ≡ c.finished) seg.syn refl refl

pub data_to-finished :
    (dir : Dir) (ts : ℕ) (seg : TcpSegment) (c : ConnState)
    → (data_to dir ts seg c).0.finished ≡ c.finished
unfolding data_to
data_to-finished client ts seg c = refl
data_to-finished server ts seg c = refl

pub fin_from-finished :
    (dir : Dir) (fin : Bool) (c : ConnState) → (fin_from dir fin c).finished ≡ c.finished
unfolding fin_from
fin_from-finished client fin c = refl
fin_from-finished server fin c = refl

add_version-SameCounts : (v : Bytes) (s : PcapStats) → SameCounts s (add_version v s)
unfolding add_version
add_version-SameCounts v s =
    if_lem (SameCounts s)
      (not (contains_text v s.server_versions) && ltb (length s.server_versions) 8) (refl, refl)
      (refl, refl)

pub record_version-Keeps :
    (v : Option Bytes) (eng : PcapEngine) (c : ConnState) → Keeps eng c (record_version v eng c)
unfolding record_version
record_version-Keeps none eng c = record {
  same_counts = (refl, refl);
  same_conns = refl;
  same_finished = refl;
}
record_version-Keeps (some v) eng c =
    if_lem (Keeps eng c) c.version_recorded
      (record { same_counts = (refl, refl); same_conns = refl; same_finished = refl })
      (record {
        same_counts = add_version-SameCounts v eng.stats;
        same_conns = refl;
        same_finished = refl;
      })

-- The end of `on_packet`: what is over is counted, and what is not stays live.
record Closes (eng : PcapEngine) (c : ConnState) (d : Drained) : Type 0 where
  kept_conns : d.eng.conns ≡ eng.conns
  same_connections : d.eng.stats.connections ≡ eng.stats.connections
  counted : done d.eng.stats + is_open d.conn ≡ done eng.stats + is_open c

finalize-Closes : (eng : PcapEngine) (c : ConnState) → Closes eng c (finalize eng c)
finalize-Closes eng c =
    let f = finalize-Finalizes eng c in
    record {
      kept_conns = f.kept_conns;
      same_connections = f.same_connections;
      counted = omega (arith, f.counted, f.over);
    }

drain_events-Closes : (eng : PcapEngine) (c : ConnState) → Closes eng c (drain_events eng c)
drain_events-Closes eng c =
    let d = drain_events-Drains eng c in
    let e : is_open (drain_events eng c).conn ≡ is_open c =
      ap (λ b. if b then 0 else 1) d.same_finished in
    record {
      kept_conns = d.same_conns;
      same_connections = ap (λ s. s.connections) d.same_stats;
      counted = omega (arith, ap done d.same_stats, e);
    }

put_back-IsBalanced :
    (key : FlowKey) (eng : PcapEngine) (old c : ConnState) (d : Drained)
    → IsBalanced eng
    → conn_at key eng.conns ≡ some old
    → c.finished ≡ old.finished
    → Closes eng c d
    → Balances (put_back key d)
put_back-IsBalanced key eng old c d w there same f =
    let e : is_open c ≡ is_open old = ap (λ b. if b then 0 else 1) same in
    let stored = live-store key old d.conn d.eng.conns (ap (conn_at key) f.kept_conns ∙ there) in
    omega (arith, w, f.same_connections, f.counted, ap live f.kept_conns, e, stored)

pub close_or_drain-IsBalanced :
    (key : FlowKey) (seg : TcpSegment) (eng : PcapEngine) (old c : ConnState)
    → IsBalanced eng
    → conn_at key eng.conns ≡ some old
    → c.finished ≡ old.finished
    → Balances (close_or_drain key seg eng c)
unfolding close_or_drain
close_or_drain-IsBalanced key seg eng old c w there same =
    put_back-IsBalanced key eng old c _ w there same (
      if_lem (Closes eng c) (is_closed seg c || is_done_decoding c) (finalize-Closes eng c)
        (drain_events-Closes eng c))
