-- ===== src/Pcap/Engine/Runs.antt =====
-- `on_packet` and `finish` of `PcapEngine` and the counts of connections, over all of a capture.
use avraham_sql_tools.Base.{
  ℕ, ◌+◌, Bool, true, false, none, some, List, [], ◌∷◌, ◌≡◌, refl, ap, ◌∙◌, arith, if◌then◌else◌,
  Bytes,
}
use avraham_sql_tools.Pcap.Engine.{
  FlowKey, ConnState, PcapEngine, Conns, new, conn_at, finalize, finish_conns, finish,
}
use avraham_sql_tools.Pcap.Engine.Accounts.{done, live, IsBalanced, finalize-Finalizes}
use avraham_sql_tools.Pcap.Engine.Steps.{
  flow_of, count_packet, replace_old, entry, syn_to, record_version, fin_from, deliver, on_live,
  on_entry, on_segment, on_tcp, count_fragment, on_ip, on_packet,
}
use avraham_sql_tools.Pcap.Headers.{TcpSegment, strip_link, is_ip_fragment, parse_ip_tcp}
use avraham_sql_tools.Base.{if_lem}
use avraham_sql_tools.Wire.Decoder.{Dir}
use avraham_sql_tools.Pcap.Engine.Balance.{
  Balances, Entered, Keeps, replace_old-IsBalanced, entry-Entered, data_to-finished,
  syn_to-finished, fin_from-finished, record_version-Keeps, close_or_drain-IsBalanced,
}

count_fragment-IsBalanced :
    (ip : Bytes) (eng : PcapEngine) → IsBalanced eng → IsBalanced (count_fragment ip eng)
unfolding is_ip_fragment
count_fragment-IsBalanced ip eng w =
    (elim (is_ip_fragment ip)
      as (λ b. IsBalanced (
        if b
        then record eng {
          stats = record eng.stats { ip_fragments_skipped = eng.stats.ip_fragments_skipped + 1 };
        }
        else eng)) [ true ↦ w | false ↦ w ])

-- A segment of a connection that is in the table.
module _ (float_text : Bytes → Bytes) where
  deliver-Keeps :
      (dir : Dir) (ts : ℕ) (seg : TcpSegment) (eng : PcapEngine) (c : ConnState)
      → Keeps eng c (deliver float_text dir ts seg eng c)
  unfolding deliver
  deliver-Keeps dir ts seg eng c = record {
    same_counts = (refl, refl);
    same_conns = refl;
    same_finished = data_to-finished dir ts seg c;
  }

  on_live-IsBalanced :
      (key : FlowKey) (dir : Dir) (ts : ℕ) (seg : TcpSegment) (eng : PcapEngine) (c : ConnState)
      → Entered key (eng, c)
      → Balances (on_live float_text key dir ts seg eng c)
  unfolding on_live
  on_live-IsBalanced key dir ts seg eng c e =
      let c1 = syn_to dir seg c in
      let r = deliver float_text dir ts seg eng c1 in
      let delivered = deliver-Keeps dir ts seg eng c1 in
      let v = r.1.dec.server_version in
      let versioned = record_version-Keeps v r.0 r.1 in
      let r' = record_version v r.0 r.1 in
      let same = versioned.same_conns ∙ delivered.same_conns in
      let w = e.balanced in
      close_or_drain-IsBalanced key seg r'.0 c (fin_from dir seg.fin r'.1)
        (omega (arith, w, delivered.same_counts, versioned.same_counts, ap live same))
        (ap (conn_at key) same ∙ e.there)
        (fin_from-finished dir seg.fin r'.1
          ∙ versioned.same_finished
          ∙ delivered.same_finished
          ∙ syn_to-finished dir seg c)

  on_entry-IsBalanced :
      (key : FlowKey) (dir : Dir) (ts : ℕ) (seg : TcpSegment) (r : PcapEngine × ConnState)
      → Entered key r
      → Balances (on_entry float_text key dir ts seg r)
  unfolding on_entry
  on_entry-IsBalanced key dir ts seg (eng, c) e =
      if_lem Balances c.finished e.balanced (on_live-IsBalanced key dir ts seg eng c e)

  on_segment-IsBalanced :
      (key : FlowKey) (dir : Dir) (ts : ℕ) (seg : TcpSegment) (eng : PcapEngine)
      → IsBalanced eng
      → Balances (on_segment float_text key dir ts seg eng)
  unfolding on_segment
  on_segment-IsBalanced key dir ts seg eng w =
      let replaced = (replace_old key dir seg eng).0 in
      let o = conn_at key replaced.conns in
      on_entry-IsBalanced key dir ts seg (entry key o replaced)
        (entry-Entered key o replaced refl (replace_old-IsBalanced key dir seg eng w))

  on_tcp-IsBalanced :
      (ts : ℕ) (truncated : Bool) (seg : TcpSegment) (eng : PcapEngine)
      → IsBalanced eng
      → Balances (on_tcp float_text ts truncated seg eng)
  unfolding on_tcp
  on_tcp-IsBalanced ts truncated seg eng w =
      elim (flow_of eng.port seg)
        as (λ o. Balances (elim o [
          | none ↦ (eng, [])
          | some (key, dir) ↦ on_segment float_text key dir ts seg (count_packet truncated eng)
        ])) [
          | none ↦ w
          | some (key, dir) ↦ on_segment-IsBalanced key dir ts seg (count_packet truncated eng) w
        ]

  on_ip-IsBalanced :
      (ts : ℕ) (truncated : Bool) (ip : Bytes) (eng : PcapEngine)
      → IsBalanced eng
      → Balances (on_ip float_text ts truncated ip eng)
  unfolding on_ip
  on_ip-IsBalanced ts truncated ip eng w =
      elim (parse_ip_tcp ip)
        as (λ o. Balances (elim o [
          | none ↦ (count_fragment ip eng, [])
          | some seg ↦ on_tcp float_text ts truncated seg eng
        ])) [
          | none ↦ count_fragment-IsBalanced ip eng w
          | some seg ↦ on_tcp-IsBalanced ts truncated seg eng w
        ]

  -- Whatever the frame is, handling it keeps the number of connections counted equal to the number
  -- of those that are over, each in one of the five classes, plus the number of those that are
  -- live in the table.
  pub on_packet-IsBalanced :
      (ts linktype : ℕ) (frame : Bytes) (truncated : Bool) (eng : PcapEngine)
      → IsBalanced eng
      → IsBalanced (on_packet float_text ts linktype frame truncated eng).0
  unfolding on_packet
  on_packet-IsBalanced ts linktype frame truncated eng w =
      elim (strip_link linktype frame)
        as (λ o.
          Balances (elim o [ none ↦ (eng, []) | some ip ↦ on_ip float_text ts truncated ip eng ])) [
            | none ↦ w
            | some ip ↦ on_ip-IsBalanced ts truncated ip eng w
          ]

  -- From a new engine, the frames of a capture one after the other.
  unfoldable pub on_frames : List (ℕ × ℕ × Bytes × Bool) → PcapEngine → PcapEngine
  on_frames [] eng = eng
  on_frames ((ts, linktype, frame, truncated) ∷ frames) eng =
      on_frames frames (on_packet float_text ts linktype frame truncated eng).0

  on_frames-IsBalanced :
      (frames : List (ℕ × ℕ × Bytes × Bool)) (eng : PcapEngine)
      → IsBalanced eng
      → IsBalanced (on_frames frames eng)
  unfolding on_frames
  on_frames-IsBalanced [] eng w = w
  on_frames-IsBalanced ((ts, linktype, frame, truncated) ∷ frames) eng w =
      on_frames-IsBalanced frames (on_packet float_text ts linktype frame truncated eng).0
        (on_packet-IsBalanced ts linktype frame truncated eng w)

  finish_conns-counts :
      (m : Conns) (eng : PcapEngine)
      → ((finish_conns m eng).0.stats.connections ≡ eng.stats.connections)
        × (done (finish_conns m eng).0.stats ≡ done eng.stats + live m)
  unfolding finish_conns live
  finish_conns-counts [] eng = (refl, omega arith)
  finish_conns-counts ((k, c) ∷ m) eng =
      let f = finalize-Finalizes eng c in
      let rest = finish_conns-counts m (finalize eng c).eng in
      (rest.0 ∙ f.same_connections, omega (arith, rest.1, f.counted))

  -- After any frames and the end of the capture, each connection that was counted is in exactly
  -- one of the five classes: decoded, TLS, compressed, midstream or broken.
  pub finish-on_frames :
      (port : ℕ) (frames : List (ℕ × ℕ × Bytes × Bool))
      → let end = (finish (on_frames frames (new port))).0 in end.stats.connections ≡ done end.stats
  unfolding finish live
  finish-on_frames port frames =
      let eng = on_frames frames (new port) in
      let w = on_frames-IsBalanced frames (new port) refl in
      let rest = finish_conns-counts eng.conns (record eng { conns = [] }) in omega (arith, w, rest)
