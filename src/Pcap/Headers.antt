-- ===== src/Pcap/Headers.antt =====
-- The link, IP and TCP headers of pcap.rs. A link type is a number; the negative ones, which the
-- source also refuses, are left out.
pub mod Fragments
use avraham_sql_tools.Base.{
  ℕ, zero, suc, ◌+◌, ◌-◌, ◌*◌, ◌/◌, ◌%◌, min, Bool, true, false, not, ◌&&◌, ◌||◌, Option, none,
  some, ◌>>=◌, [], ◌∷◌, ◌++◌, ◌==◌, ltb, leb, if◌then◌else◌, Bytes, length, take, drop, replicate,
}

-- `b[i]`, which the source reads behind a test of the length.
unfoldable pub byte_at : ℕ → Bytes → ℕ
byte_at i [] = 0
byte_at zero (c ∷ b) = c
byte_at (suc i) (c ∷ b) = byte_at i b

-- `u16::from_be_bytes` and `u32::from_be_bytes`
abbrev pub be16 : ℕ → ℕ → ℕ
be16 a b = a * 256 + b

abbrev pub be32 : ℕ → ℕ → ℕ → ℕ → ℕ
be32 a b c d = be16 a b * 65536 + be16 c d

abbrev pub is_vlan : ℕ → Bool
is_vlan ethertype = ethertype == 0x8100 || ethertype == 0x88a8

abbrev pub network : ℕ → Bytes → Option Bytes
network ethertype s = if ethertype == 0x0800 || ethertype == 0x86dd then some s else none

-- At `frame[off..]`: the ethertype, behind any VLAN tags.
unfoldable pub ethertype_at : Bytes → Option Bytes
ethertype_at (a ∷ b ∷ c ∷ d ∷ s) =
    let untagged = ethertype_at s in
    if is_vlan (be16 a b) then untagged else network (be16 a b) (c ∷ d ∷ s)
ethertype_at (a ∷ b ∷ s) = if is_vlan (be16 a b) then none else network (be16 a b) s
ethertype_at _ = none

unfoldable pub strip_ethernet : Bytes → Option Bytes
unfolding ethertype_at
strip_ethernet frame = if ltb (length frame) 14 then none else ethertype_at (drop 12 frame)

unfoldable pub strip_link : ℕ → Bytes → Option Bytes
unfolding strip_ethernet byte_at
strip_link linktype frame =
    if linktype == 1
    then strip_ethernet frame
    else if linktype == 113
    then (if ltb (length frame) 16
        then none
        else network (be16 (byte_at 14 frame) (byte_at 15 frame)) (drop 16 frame))
    else if linktype == 276
    then (if ltb (length frame) 20
        then none
        else network (be16 (byte_at 0 frame) (byte_at 1 frame)) (drop 20 frame))
    else if linktype == 101
    then some frame
    else if linktype == 0 || linktype == 108
    then (if ltb (length frame) 4 then none else some (drop 4 frame))
    else none

-- `frag & 0x3fff != 0`: the flag MF or an offset.
unfoldable pub has_fragment_bits : Bytes → Bool
unfolding byte_at
has_fragment_bits ip = not (be16 (byte_at 6 ip) (byte_at 7 ip) % 0x4000 == 0)

unfoldable pub is_ip_fragment : Bytes → Bool
unfolding has_fragment_bits byte_at
is_ip_fragment [] = false
is_ip_fragment (c ∷ s) =
    if c / 16 == 4 && leb 8 (length (c ∷ s))
    then has_fragment_bits (c ∷ s)
    else if c / 16 == 6 && leb 40 (length (c ∷ s))
    then byte_at 6 (c ∷ s) == 44
    else false

pub record Endpoint : Type 0 where
  pub addr : Bytes
  pub port : ℕ

pub record TcpSegment : Type 0 where
  pub src : Endpoint
  pub dst : Endpoint
  pub seq : ℕ
  pub fin : Bool
  pub syn : Bool
  pub rst : Bool
  pub ack : Bool
  pub payload : Bytes

unfoldable pub v4mapped : Bytes → Bytes
v4mapped a = replicate 10 0 ++ 0xff ∷ 0xff ∷ take 4 a

-- The two addresses, and the bytes of the TCP segment.
pub record Datagram : Type 0 where
  pub from : Bytes
  pub to : Bytes
  pub tcp : Bytes

-- The arm of version 4.
unfoldable pub parse_v4 : Bytes → Option Datagram
unfolding byte_at v4mapped has_fragment_bits
parse_v4 ip =
    let ihl = byte_at 0 ip % 16 * 4 in
    let total = be16 (byte_at 2 ip) (byte_at 3 ip) in
    let end = if leb ihl total && leb total (length ip) then total else length ip in
    if ltb (length ip) 20
    then none
    else if ltb ihl 20 || ltb (length ip) ihl
    then none
    else if has_fragment_bits ip
    then none
    else if not (byte_at 9 ip == 6)
    then none
    else some (record {
      from = v4mapped (drop 12 ip);
      to = v4mapped (drop 16 ip);
      tcp = drop ihl (take end ip);
    })

-- The loop over the extension headers, on fuel, at `s = ip[off..]`: the bytes from the TCP header on.
-- Each header takes eight bytes at least.
unfoldable pub skip_extensions : ℕ → ℕ → Bytes → Option Bytes
unfolding byte_at
skip_extensions zero next s = if next == 6 then some s else none
skip_extensions (suc fuel) next s =
    let size = (byte_at 1 s + 1) * 8 in
    let behind = skip_extensions fuel (byte_at 0 s) (drop size s) in
    if next == 6
    then some s
    else if next == 0 || next == 43 || next == 60
    then (if ltb (length s) 8 || ltb (length s) size then none else behind)
    else none

-- The arm of version 6; `end - off` bytes of `s = ip[off..]` are the TCP segment.
unfoldable pub parse_v6 : Bytes → Option Datagram
unfolding byte_at skip_extensions
parse_v6 ip =
    let payload_len = be16 (byte_at 4 ip) (byte_at 5 ip) in
    let end = min (40 + payload_len) (length ip) in
    if ltb (length ip) 40 then none else (do
      s ← skip_extensions (length ip) (byte_at 6 ip) (drop 40 ip)
      if ltb end (length ip - length s)
          then none
          else some (record {
            from = take 16 (drop 8 ip);
            to = take 16 (drop 24 ip);
            tcp = take (end - (length ip - length s)) s;
          }))

-- The TCP header.
unfoldable pub parse_tcp : Datagram → Option TcpSegment
unfolding byte_at
parse_tcp d =
    let doff = byte_at 12 d.tcp / 16 * 4 in
    let flags = byte_at 13 d.tcp in
    if ltb (length d.tcp) 20
    then none
    else if ltb doff 20 || ltb (length d.tcp) doff
    then none
    else some (record {
      src = record { addr = d.from; port = be16 (byte_at 0 d.tcp) (byte_at 1 d.tcp) };
      dst = record { addr = d.to; port = be16 (byte_at 2 d.tcp) (byte_at 3 d.tcp) };
      seq = be32 (byte_at 4 d.tcp) (byte_at 5 d.tcp) (byte_at 6 d.tcp) (byte_at 7 d.tcp);
      fin = flags % 2 == 1;
      syn = flags / 2 % 2 == 1;
      rst = flags / 4 % 2 == 1;
      ack = flags / 16 % 2 == 1;
      payload = drop doff d.tcp;
    })

unfoldable pub parse_version : ℕ → Bytes → Option Datagram
unfolding parse_v4 parse_v6
parse_version version ip =
    if version == 4 then parse_v4 ip else if version == 6 then parse_v6 ip else none

unfoldable pub parse_ip_tcp : Bytes → Option TcpSegment
unfolding parse_version parse_tcp
parse_ip_tcp [] = none
parse_ip_tcp (c ∷ s) = parse_version (c / 16) (c ∷ s) >>= parse_tcp
