-- ===== src/Packet/Decode.antt =====
-- The layers of src/packet_decode.c. Pointers into the packet are offsets from its start.
use dpdk_based_nids.Prelude.{
  ℕ, ◌+◌, ◌*◌, ◌/◌, ◌%◌, Bool, true, false, ◌||◌, List, Option, none, some, ◌==◌, ltb,
  if◌then◌else◌, sub32, to_u16, add32, Run, ok, ◌>>=◌,
}
use dpdk_based_nids.Packet.Memory.{read8, read_be16}

-- The bits of `flags`.
pub record PacketFlags : Type 0 where
  pub decoded_eth : Bool
  pub decoded_ipv4 : Bool
  pub decoded_ipv6 : Bool
  pub decoded_tcp : Bool
  pub decoded_udp : Bool
  pub decoded_icmp : Bool
  pub error : Bool

-- `packet_info_t`. `ip_hdr` is the union of `ipv4_hdr` and `ipv6_hdr`, `l4_hdr` that of the three
-- transport headers.
pub record PacketInfo : Type 0 where
  pub eth_hdr : Option ℕ
  pub ether_type : ℕ
  pub ip_version : ℕ
  pub ip_hdr : Option ℕ
  pub ip_proto : ℕ
  pub ip_len : ℕ
  pub l4_hdr : Option ℕ
  pub src_port : ℕ
  pub dst_port : ℕ
  pub payload : Option ℕ
  pub payload_len : ℕ
  pub flags : PacketFlags

-- As `memset` leaves it.
abbrev pub no_info : PacketInfo
no_info = record {
  eth_hdr = none;
  ether_type = 0;
  ip_version = 0;
  ip_hdr = none;
  ip_proto = 0;
  ip_len = 0;
  l4_hdr = none;
  src_port = 0;
  dst_port = 0;
  payload = none;
  payload_len = 0;
  flags = record {
    decoded_eth = false;
    decoded_ipv4 = false;
    decoded_ipv6 = false;
    decoded_tcp = false;
    decoded_udp = false;
    decoded_icmp = false;
    error = false;
  };
}

-- The sizes of the headers on the wire.
abbrev pub ether_size : ℕ
ether_size = 14

abbrev pub ipv4_size : ℕ
ipv4_size = 20

abbrev pub ipv6_size : ℕ
ipv6_size = 40

abbrev pub tcp_size : ℕ
tcp_size = 20

abbrev pub udp_size : ℕ
udp_size = 8

abbrev pub icmp_size : ℕ
icmp_size = 8

-- What a layer's function leaves, with its return value: the header's length, or `none` for -1.
abbrev pub Layer : Type 0
Layer = Run (PacketInfo × Option ℕ)

-- The header does not fit: set PKT_ERROR and return -1.
abbrev pub bad : PacketInfo → PacketInfo × Option ℕ
bad p = (record p { flags = record (p.flags) { error = true } }, none)

-- Each layer gets the offset of its header, and the length that the caller computed. The header
-- of Ethernet, whose function returns 0, is as long as its `sizeof`, which the caller adds.
unfoldable pub decode_ethernet : List ℕ → PacketInfo → ℕ → ℕ → Layer
unfolding read_be16
decode_ethernet mem p at len = if ltb len ether_size then ok (bad p) else do
  ether_type ← read_be16 mem (at + 12)
  ok (
    record p {
      eth_hdr = some at;
      ether_type = ether_type;
      flags = record (p.flags) { decoded_eth = true };
    },
    some ether_size,
  )

unfoldable pub decode_ipv4 : List ℕ → PacketInfo → ℕ → ℕ → Layer
unfolding read8 read_be16
decode_ipv4 mem p at len = if ltb len ipv4_size then ok (bad p) else do
  proto ← read8 mem (at + 9)
  total_length ← read_be16 mem (at + 2)
  version_ihl ← read8 mem at
  let q = record p {
    ip_hdr = some at;
    ip_version = 4;
    ip_proto = proto;
    ip_len = total_length;
    flags = record (p.flags) { decoded_ipv4 = true };
  }
  let ihl = version_ihl % 16 * 4
  ok (if ltb ihl ipv4_size then bad q else (q, some ihl))

unfoldable pub decode_ipv6 : List ℕ → PacketInfo → ℕ → ℕ → Layer
unfolding read8 read_be16
decode_ipv6 mem p at len = if ltb len ipv6_size then ok (bad p) else do
  proto ← read8 mem (at + 6)
  payload_len ← read_be16 mem (at + 4)
  ok (
    record p {
      ip_hdr = some at;
      ip_version = 6;
      ip_proto = proto;
      ip_len = to_u16 (payload_len + ipv6_size);
      flags = record (p.flags) { decoded_ipv6 = true };
    },
    some ipv6_size,
  )

unfoldable pub decode_tcp : List ℕ → PacketInfo → ℕ → ℕ → Layer
unfolding read8 read_be16
decode_tcp mem p at len = if ltb len tcp_size then ok (bad p) else do
  src ← read_be16 mem at
  dst ← read_be16 mem (at + 2)
  data_off ← read8 mem (at + 12)
  let q = record p {
    l4_hdr = some at;
    src_port = src;
    dst_port = dst;
    flags = record (p.flags) { decoded_tcp = true };
  }
  let tcp_hdr_len = data_off / 16 % 16 * 4
  ok (if ltb tcp_hdr_len tcp_size then bad q else (q, some tcp_hdr_len))

unfoldable pub decode_udp : List ℕ → PacketInfo → ℕ → ℕ → Layer
unfolding read_be16
decode_udp mem p at len = if ltb len udp_size then ok (bad p) else do
  src ← read_be16 mem at
  dst ← read_be16 mem (at + 2)
  ok (
    record p {
      l4_hdr = some at;
      src_port = src;
      dst_port = dst;
      flags = record (p.flags) { decoded_udp = true };
    },
    some udp_size,
  )

unfoldable pub decode_icmp : List ℕ → PacketInfo → ℕ → ℕ → Layer
decode_icmp mem p at len =
    if ltb len icmp_size
    then ok (bad p)
    else ok (
      record p {
        l4_hdr = some at;
        src_port = 0;
        dst_port = 0;
        flags = record (p.flags) { decoded_icmp = true };
      },
      some icmp_size,
    )

-- The packet's information, and true for the return value 0 of `decode_packet`.
abbrev pub Decoded : Type 0
Decoded = PacketInfo × Bool

-- Return -1 if the layer did; else go on behind its header.
abbrev pub then_at : ℕ → (PacketInfo → ℕ → Run Decoded) → PacketInfo × Option ℕ → Run Decoded
then_at at next (p, none) = ok (p, false)
then_at at next (p, some n) = next p (add32 at n)

-- Behind the transport header.
unfoldable pub set_payload : ℕ → PacketInfo → ℕ → Run Decoded
set_payload pkt_len p at =
    if ltb at pkt_len
    then ok (record p { payload = some at; payload_len = to_u16 (sub32 pkt_len at) }, true)
    else ok (p, true)

unfoldable pub decode_transport : List ℕ → ℕ → PacketInfo → ℕ → Run Decoded
unfolding set_payload
decode_transport mem pkt_len p at =
    let len = sub32 pkt_len at in
    if p.ip_proto == 6
    then decode_tcp mem p at len >>= then_at at (set_payload pkt_len)
    else if p.ip_proto == 17
    then decode_udp mem p at len >>= then_at at (set_payload pkt_len)
    else if p.ip_proto == 1 || p.ip_proto == 58
    then decode_icmp mem p at len >>= then_at at (set_payload pkt_len)
    else ok (p, true)

unfoldable pub decode_network : List ℕ → ℕ → PacketInfo → ℕ → Run Decoded
decode_network mem pkt_len p at =
    let len = sub32 pkt_len at in
    if p.ether_type == 0x0800
    then decode_ipv4 mem p at len >>= then_at at (decode_transport mem pkt_len)
    else if p.ether_type == 0x86dd
    then decode_ipv6 mem p at len >>= then_at at (decode_transport mem pkt_len)
    else ok (p, true)

-- `mem` is the memory at `rte_pktmbuf_mtod`, `pkt_len` what `rte_pktmbuf_pkt_len` returns; the
-- two pointers are not NULL. ARP and unknown types end like each other.
unfoldable pub decode_packet : List ℕ → ℕ → Run Decoded
decode_packet mem pkt_len =
    if pkt_len == 0
    then ok (no_info, false)
    else decode_ethernet mem no_info 0 pkt_len >>= then_at 0 (decode_network mem pkt_len)
