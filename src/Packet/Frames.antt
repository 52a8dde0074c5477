-- ===== src/Packet/Frames.antt =====
-- Ethernet frames with IPv4 and TCP, built field by field, and what decoding makes of them.
use dpdk_based_nids.Packet.Decode.{
  ether_size, ipv4_size, tcp_size, decode_ethernet, decode_ipv4, decode_tcp, decode_transport,
  decode_network, decode_packet,
}
use dpdk_based_nids.Prelude.{
  ℕ, zero, suc, ◌+◌, ◌-◌, ◌*◌, ◌/◌, ◌%◌, ◌^◌, ◌≤◌, ◌<◌, ◌≡◌, refl, ap, ◌∙◌, arith, true, false,
  List, [], ◌∷◌, ◌++◌, some, get_elem?, length, length-append, ltb, ◌==◌, sub32, add32, to_u16, ok,
}

pub get_elem?-append :
    (xs ys : List ℕ) (n k : ℕ) → n ≡ length xs + k → get_elem? (xs ++ ys) n ≡ get_elem? ys k
get_elem?-append [] ys n k h = let e : n ≡ k = omega arith in ap (get_elem? ys) e
get_elem?-append (x ∷ xs) ys zero k h = absurd (omega arith)
get_elem?-append (x ∷ xs) ys (suc n) k h = get_elem?-append xs ys n k (omega arith)

-- A frame with an IPv4 header without options. `between` stands for the identification, the
-- fragment fields and the time to live, `behind` for what follows the TCP data offset.
pub record TcpFrame : Type 0 where
  pub macs : List ℕ
  pub tos : ℕ
  pub total_hi : ℕ
  pub total_lo : ℕ
  pub between : List ℕ
  pub checksum_hi : ℕ
  pub checksum_lo : ℕ
  pub addresses : List ℕ
  pub src_hi : ℕ
  pub src_lo : ℕ
  pub dst_hi : ℕ
  pub dst_lo : ℕ
  pub seq_ack : List ℕ
  pub data_off : ℕ
  pub behind : List ℕ

pub record IsFrame (f : TcpFrame) : Type 0 where
  pub macs_len : length f.macs ≡ 12
  pub between_len : length f.between ≡ 5
  pub addresses_len : length f.addresses ≡ 8
  pub seq_ack_len : length f.seq_ack ≡ 8
  pub behind_len : 7 ≤ length f.behind

abbrev pub tcp_bytes : TcpFrame → List ℕ
tcp_bytes f = f.src_hi ∷ f.src_lo ∷ f.dst_hi ∷ f.dst_lo ∷ (f.seq_ack ++ (f.data_off ∷ f.behind))

abbrev pub ip_tail : TcpFrame → List ℕ
ip_tail f = 6 ∷ f.checksum_hi ∷ f.checksum_lo ∷ (f.addresses ++ tcp_bytes f)

abbrev pub ip_bytes : TcpFrame → List ℕ
ip_bytes f = 0x45 ∷ f.tos ∷ f.total_hi ∷ f.total_lo ∷ (f.between ++ ip_tail f)

abbrev pub frame_bytes : TcpFrame → List ℕ
frame_bytes f = f.macs ++ (0x08 ∷ 0x00 ∷ ip_bytes f)

module _ (f : TcpFrame) (w : IsFrame f) where
  in_ip :
      (n k : ℕ) → n ≡ 12 + k → get_elem? (frame_bytes f) n ≡ get_elem? (0x08 ∷ 0x00 ∷ ip_bytes f) k
  in_ip n k h = get_elem?-append f.macs _ n k (omega (arith, w.macs_len))

  in_tail : (n k : ℕ) → n ≡ 5 + k → get_elem? (f.between ++ ip_tail f) n ≡ get_elem? (ip_tail f) k
  in_tail n k h = get_elem?-append f.between _ n k (omega (arith, w.between_len))

  in_tcp :
      (n k : ℕ) → n ≡ 8 + k → get_elem? (f.addresses ++ tcp_bytes f) n ≡ get_elem? (tcp_bytes f) k
  in_tcp n k h = get_elem?-append f.addresses _ n k (omega (arith, w.addresses_len))

  at_proto : get_elem? (frame_bytes f) 23 ≡ some 6
  at_proto = in_ip 23 11 refl ∙ in_tail 5 0 refl

  at_ports :
      (get_elem? (frame_bytes f) 34 ≡ some f.src_hi)
      × (get_elem? (frame_bytes f) 35 ≡ some f.src_lo)
      × (get_elem? (frame_bytes f) 36 ≡ some f.dst_hi)
      × (get_elem? (frame_bytes f) 37 ≡ some f.dst_lo)
  at_ports = (
    in_ip 34 22 refl ∙ in_tail 16 11 refl ∙ in_tcp 8 0 refl,
    in_ip 35 23 refl ∙ in_tail 17 12 refl ∙ in_tcp 9 1 refl,
    in_ip 36 24 refl ∙ in_tail 18 13 refl ∙ in_tcp 10 2 refl,
    in_ip 37 25 refl ∙ in_tail 19 14 refl ∙ in_tcp 11 3 refl,
  )

  at_data_off : get_elem? (frame_bytes f) 46 ≡ some f.data_off
  at_data_off =
      in_ip 46 34 refl
      ∙ in_tail 28 23 refl
      ∙ in_tcp 20 12 refl
      ∙ get_elem?-append f.seq_ack _ 8 0 (omega (arith, w.seq_ack_len))

  length-frame : length (frame_bytes f) ≡ 47 + length f.behind
  length-frame = omega (
    arith,
    length-append f.macs (0x08 ∷ 0x00 ∷ ip_bytes f),
    length-append f.between (ip_tail f),
    length-append f.addresses (tcp_bytes f),
    length-append f.seq_ack (f.data_off ∷ f.behind),
    w.macs_len,
    w.between_len,
    w.addresses_len,
    w.seq_ack_len,
  )

-- The length of the TCP header that the data offset states.
abbrev pub tcp_header : TcpFrame → ℕ
tcp_header f = f.data_off / 16 % 16 * 4

-- Decoding an IPv4 frame without options finds the TCP header at offset 34, its ports, and the
-- IP total length. Where the TCP header that the data offset states is at least 20 bytes and ends
-- before the frame does, the payload is all that follows up to the end of the frame, cut to
-- 16 bits in length, whatever the IP total length says.
pub decode_packet-frame :
    (f : TcpFrame)
    → IsFrame f
    → 20 ≤ tcp_header f
    → 34 + tcp_header f < length (frame_bytes f)
    → length (frame_bytes f) < 2 ^ 32
    → decode_packet (frame_bytes f) (length (frame_bytes f))
      ≡ ok (
        record {
          eth_hdr = some 0;
          ether_type = 0x0800;
          ip_version = 4;
          ip_hdr = some 14;
          ip_proto = 6;
          ip_len = f.total_hi * 256 + f.total_lo;
          l4_hdr = some 34;
          src_port = f.src_hi * 256 + f.src_lo;
          dst_port = f.dst_hi * 256 + f.dst_lo;
          payload = some (34 + tcp_header f);
          payload_len = to_u16 (length (frame_bytes f) - (34 + tcp_header f));
          flags = record {
            decoded_eth = true;
            decoded_ipv4 = true;
            decoded_ipv6 = false;
            decoded_tcp = true;
            decoded_udp = false;
            decoded_icmp = false;
            error = false;
          };
        },
        true,
      )
unfolding decode_packet decode_ethernet decode_network decode_ipv4 decode_transport decode_tcp
decode_packet-frame f w header payload small =
    let n = length (frame_bytes f) in
    let long = length-frame f w in
    let nonempty : (n == 0) ≡ false = ground arith in
    let ether : ltb n ether_size ≡ false = ground arith in
    let ip : ltb (sub32 n 14) ipv4_size ≡ false = ground arith in
    let tcp : ltb (sub32 n 34) tcp_size ≡ false = ground arith in
    let good : ltb (tcp_header f) tcp_size ≡ false = ground arith in
    let end : add32 34 (tcp_header f) ≡ 34 + tcp_header f = omega arith in
    let more : ltb (34 + tcp_header f) n ≡ true = ground arith in
    let rest : sub32 n (34 + tcp_header f) ≡ n - (34 + tcp_header f) = omega arith in
    let p = at_ports f w in
    rw nonempty (
      rw ether (
        rw (in_ip f w 12 0 refl, in_ip f w 13 1 refl)
          (rw ip (
            rw (at_proto f w) (
              rw (in_ip f w 16 4 refl, in_ip f w 17 5 refl, in_ip f w 14 2 refl)
                (rw tcp (
                  rw (p.0, p.1, p.2, p.3, at_data_off f w)
                    (rw good (rw end (rw more (rw rest refl)))))))))))
