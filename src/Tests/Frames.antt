-- ===== src/Tests/Frames.antt =====
-- src/packet_decode.c and the TCP state machine of src/flow.c at concrete packets.
use dpdk_based_nids.Flow.State.{tcp_none}
use dpdk_based_nids.Flow.Tcp.Trace.{run, is_open, has_handshake, established_by_handshake}
use dpdk_based_nids.Flow.Tcp.{TcpFlags, flags_of, next_state}
use dpdk_based_nids.Packet.Decode.{Decoded, decode_packet}
use dpdk_based_nids.Packet.Frames.{TcpFrame, frame_bytes, decode_packet-frame}
use dpdk_based_nids.Packet.Memory.{read8, read_be16}
use dpdk_based_nids.Packet.Overread.{decode_packet-overread}
use dpdk_based_nids.Packet.Safety.{IsWhole, IsDecoded, decode_packet-IsDecoded}
use dpdk_based_nids.Prelude.{
  ℕ, ◌≡◌, refl, arith, inl, Bool, true, false, List, [], ◌∷◌, ◌++◌, some, ok, fault, out_of_bounds,
}

abbrev zeros : List ℕ
zeros = 0 ∷ 0 ∷ 0 ∷ 0 ∷ 0 ∷ 0 ∷ 0 ∷ []

-- An ACK from port 80 to port 8080 with six bytes of Ethernet padding; its IP total length is 40.
abbrev padded : TcpFrame
padded = record {
  macs = 0 ∷ 0 ∷ 0 ∷ 0 ∷ 0 ∷ zeros;
  tos = 0;
  total_hi = 0;
  total_lo = 40;
  between = 0 ∷ 1 ∷ 0 ∷ 0 ∷ 64 ∷ [];
  checksum_hi = 0;
  checksum_lo = 0;
  addresses = 10 ∷ 0 ∷ 0 ∷ 1 ∷ 10 ∷ 0 ∷ 0 ∷ 2 ∷ [];
  src_hi = 0;
  src_lo = 80;
  dst_hi = 31;
  dst_lo = 144;
  seq_ack = 0 ∷ zeros;
  data_off = 80;
  behind = 16 ∷ 0 ∷ 0 ∷ 0 ∷ 0 ∷ zeros ++ (0 ∷ []);
}

abbrev padded_bytes : List ℕ
padded_bytes = frame_bytes padded

decode_packet-frame_example :
    decode_packet padded_bytes 60
    ≡ ok (
      record {
        eth_hdr = some 0;
        ether_type = 0x0800;
        ip_version = 4;
        ip_hdr = some 14;
        ip_proto = 6;
        ip_len = 40;
        l4_hdr = some 34;
        src_port = 80;
        dst_port = 8080;
        payload = some 54;
        payload_len = 6;
        flags = record {
          decoded_eth = true;
          decoded_ipv4 = true;
          decoded_ipv6 = false;
          decoded_tcp = true;
          decoded_udp = false;
          decoded_icmp = false;
          error = false;
        };
      },
      true,
    )
decode_packet-frame_example =
    decode_packet-frame padded
      (record {
        macs_len = refl;
        between_len = refl;
        addresses_len = refl;
        seq_ack_len = refl;
        behind_len = omega arith;
      })
      (omega arith) (omega arith) (omega arith)

-- The first byte of the IP header is 0x45.
padded-IsWhole : IsWhole padded_bytes 60
unfolding read8
padded-IsWhole = record {
  held = omega arith;
  some_bytes = omega arith;
  small = omega arith;
  ip_header = λ e v h. let five : v ≡ 0x45 = cc in omega arith;
}

decode_packet-IsDecoded_example :
    (d : Decoded) × (decode_packet padded_bytes 60 ≡ ok d) × IsDecoded 60 d
decode_packet-IsDecoded_example = decode_packet-IsDecoded padded_bytes 60 padded-IsWhole

-- 34 bytes whose IP header claims 60 bytes.
abbrev short_packet : List ℕ
short_packet =
    (0 ∷ 0 ∷ 0 ∷ 0 ∷ 0 ∷ zeros) ++ (8 ∷ 0 ∷ 0x4F ∷ 0 ∷ zeros ++ (6 ∷ 0 ∷ 0 ∷ zeros ++ (0 ∷ [])))

decode_packet-overread_example : decode_packet short_packet 34 ≡ fault out_of_bounds
unfolding read8 read_be16
decode_packet-overread_example =
    decode_packet-overread short_packet 0x4F 6 (omega arith) (omega arith) refl refl refl (inl refl)

-- SYN, SYN and ACK, ACK, and a FIN from the client.
abbrev session : List (TcpFlags × Bool)
session = (flags_of 2, true) ∷ (flags_of 18, false) ∷ (flags_of 16, true) ∷ (flags_of 17, true) ∷ []

session-is_open : is_open (run tcp_none session) ≡ true
unfolding run next_state flags_of
session-is_open = refl

established_by_handshake_example : has_handshake session ≡ true
established_by_handshake_example = established_by_handshake session session-is_open
