-- ===== src/Tests/Headers.antt =====
-- Runs of the header parsers of pcap.rs, and their theorems at concrete inputs.
use avraham_sql_tools.Base.{[], ◌∷◌, ◌++◌, Option, none, some, ◌≡◌, refl, Bytes, replicate, inr}
use avraham_sql_tools.Pcap.Headers.{
  strip_link, is_ip_fragment, parse_ip_tcp, byte_at, has_fragment_bits, TcpSegment,
}
use avraham_sql_tools.Pcap.Headers.Fragments.{parse_ip_tcp-fragment, strip_link_tagged}

-- An IPv4 datagram of 20 bytes of header, with the flag MF.
abbrev fragment : Bytes
fragment = 0x45 ∷ 0 ∷ 0 ∷ 40 ∷ 0 ∷ 1 ∷ 0x20 ∷ 0 ∷ 64 ∷ 6 ∷ replicate 30 0

-- A whole one, from port 1000 to port 3306, with SYN set and two bytes of payload behind the headers.
abbrev segment : Bytes
segment =
    0x45
      ∷ 0
      ∷ 0
      ∷ 42
      ∷ 0
      ∷ 1
      ∷ 0
      ∷ 0
      ∷ 64
      ∷ 6
      ∷ 0
      ∷ 0
      ∷ 10
      ∷ 0
      ∷ 0
      ∷ 1
      ∷ 10
      ∷ 0
      ∷ 0
      ∷ 2
      ∷ 0x03
      ∷ 0xe8
      ∷ 0x0c
      ∷ 0xea
      ∷ 0
      ∷ 0
      ∷ 1
      ∷ 0
      ∷ 0
      ∷ 0
      ∷ 0
      ∷ 0
      ∷ 0x50
      ∷ 2
      ∷ replicate 6 0
    ++ 7 ∷ 8 ∷ 9 ∷ []

abbrev payload_at_port : Option TcpSegment → Bytes
payload_at_port none = []
payload_at_port (some t) = t.dst.port ∷ t.seq ∷ t.payload

parsed : payload_at_port (parse_ip_tcp segment) ≡ 3306 ∷ 256 ∷ 7 ∷ 8 ∷ []
unfolding parse_ip_tcp byte_at
parsed = refl

parse_ip_tcp-fragment_example : parse_ip_tcp fragment ≡ none
unfolding is_ip_fragment has_fragment_bits byte_at
parse_ip_tcp-fragment_example = parse_ip_tcp-fragment fragment refl

strip_link_tagged_example :
    strip_link 1 (replicate 12 1 ++ 0x88 ∷ 0xa8 ∷ 0 ∷ 5 ∷ 8 ∷ 0 ∷ fragment)
    ≡ strip_link 1 (replicate 12 1 ++ 8 ∷ 0 ∷ fragment)
strip_link_tagged_example =
    strip_link_tagged (replicate 12 1) (8 ∷ 0 ∷ fragment) 0x88 0xa8 0 5 (inr (refl, refl)) refl
