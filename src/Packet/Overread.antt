-- ===== src/Packet/Overread.antt =====
-- IPv4 packets whose header is longer than the packet.
use dpdk_based_nids.Packet.Decode.{
  PacketInfo, ether_size, ipv4_size, tcp_size, udp_size, decode_ethernet, decode_ipv4, decode_tcp,
  decode_udp, decode_transport, decode_network, decode_packet,
}
use dpdk_based_nids.Packet.Memory.{read8, read_be16, read_be16-lt, read_be16-ge}
use dpdk_based_nids.Prelude.{
  ℕ, ◌+◌, ◌*◌, ◌%◌, ◌^◌, ◌≤◌, ◌<◌, ◌≡◌, ◌⊎◌, refl, arith, true, false, inl, inr, List, length, ltb,
  ◌==◌, sub32, add32, ok, fault, out_of_bounds,
}

-- Behind the end of the packet the rest of it seems to be nearly 2 ^ 32 bytes long.
decode_transport-overread :
    (mem : List ℕ) (pkt_len at : ℕ) (p : PacketInfo)
    → length mem ≤ at
    → pkt_len < at
    → at ≤ pkt_len + 60
    → at < 2 ^ 32
    → (p.ip_proto ≡ 6) ⊎ (p.ip_proto ≡ 17)
    → decode_transport mem pkt_len p at ≡ fault out_of_bounds
unfolding decode_transport decode_tcp decode_udp
decode_transport-overread mem pkt_len at p past over near small (inl tcp) =
    let is_tcp : (p.ip_proto == 6) ≡ true = ground arith in
    let long : ltb (sub32 pkt_len at) tcp_size ≡ false = ground arith in
    rw is_tcp (rw long (rw (read_be16-ge mem at past) refl))
decode_transport-overread mem pkt_len at p past over near small (inr udp) =
    let no_tcp : (p.ip_proto == 6) ≡ false = ground arith in
    let is_udp : (p.ip_proto == 17) ≡ true = ground arith in
    let long : ltb (sub32 pkt_len at) udp_size ≡ false = ground arith in
    rw no_tcp (rw is_udp (rw long (rw (read_be16-ge mem at past) refl)))

-- A packet of at least 34 bytes that is IPv4 and TCP or UDP, with a header length field that
-- leads behind the end of the packet, makes `decode_packet` read behind the packet's memory.
pub decode_packet-overread :
    (mem : List ℕ) (v proto : ℕ)
    → 34 ≤ length mem
    → length mem < 14 + v % 16 * 4
    → read_be16 mem 12 ≡ ok 0x0800
    → read8 mem 14 ≡ ok v
    → read8 mem 23 ≡ ok proto
    → (proto ≡ 6) ⊎ (proto ≡ 17)
    → decode_packet mem (length mem) ≡ fault out_of_bounds
unfolding decode_packet decode_ethernet decode_network decode_ipv4
decode_packet-overread mem v proto long over v4 ihl is_proto transport =
    let n = length mem in
    let nonempty : (n == 0) ≡ false = ground arith in
    let ether : ltb n ether_size ≡ false = ground arith in
    let ip : ltb (sub32 n 14) ipv4_size ≡ false = ground arith in
    let (total, t) = read_be16-lt mem 16 (omega arith) in
    let options : ltb (v % 16 * 4) ipv4_size ≡ false = ground arith in
    let end : add32 14 (v % 16 * 4) ≡ 14 + v % 16 * 4 = omega arith in
    rw nonempty (
      rw ether (
        rw v4 (
          rw ip (
            rw is_proto (
              rw t (
                rw ihl (
                  rw options (
                    rw end (
                      decode_transport-overread mem n (14 + v % 16 * 4) _ (omega arith) over
                        (omega arith) (omega arith) transport)))))))))
