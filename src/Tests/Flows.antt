-- ===== src/Tests/Flows.antt =====
-- The flow table of src/flow.c at concrete packets.
use mathlib.Core.Path.{subst}
use dpdk_based_nids.Flow.Match.{hash_input, flow_hash_calculate}
use dpdk_based_nids.Flow.State.{tcp_established, TcpSession, Flow, TcpHeader, FlowPacket, FlowTable}
use dpdk_based_nids.Flow.Table.Count.{IsBounded, flow_get-IsBounded}
use dpdk_based_nids.Flow.Table.Expiry.{
  IsRecent, Swept, total, IsCounted, flow_cleanup_expired-IsCounted,
}
use dpdk_based_nids.Flow.Table.Lookup.{SameEnds, flow_get-again}
use dpdk_based_nids.Flow.Table.{
  config_of, no_stats, find_flow, new_flow, session_for, insert_flow, create_flow, flow_get,
  flow_cleanup_expired,
}
use dpdk_based_nids.Flow.Update.Sound.{Tracks, IsSent, flow_update-Tracks}
use dpdk_based_nids.Flow.Update.{flow_update}
use dpdk_based_nids.Prelude.{
  ℕ, ◌+◌, ◌<◌, All, Bool-cases, ◌≡◌, refl, arith, inl, inr, true, false, List, [], ◌∷◌, none, some,
  ◌==◌, ok, if◌then◌else◌,
}
use dpdk_based_nids.Stream.State.{Reassembler, start}
use dpdk_based_nids.Tests.Reassembly.{sent, plenty, waiting, waiting-Reassembles}

-- The sum of the words in the place of a CRC.
abbrev pub sum : List ℕ → ℕ
sum [] = 0
sum (w ∷ ws) = w + sum ws

-- NTP between 10.0.0.1 and 10.0.0.2, port 123 on both ends.
abbrev pub request : FlowPacket
request = record {
  ip_version = 4;
  src_ip = 0x0A000001 ∷ [];
  dst_ip = 0x0A000002 ∷ [];
  ip_proto = 17;
  src_port = 123;
  dst_port = 123;
  tcp_hdr = none;
  payload = none;
  payload_len = 0;
}

abbrev pub empty_table : FlowTable
empty_table = record {
  live = true;
  buckets = λ i. [];
  config = config_of 4 2;
  stats = no_stats;
  callocs = 0;
  reassembler = start;
}

request_hash : ℕ
request_hash = flow_hash_calculate sum request

request_flow : Flow
unfolding request_hash
request_flow = new_flow 0 100 request_hash request (config_of 4 2) none

one_flow : FlowTable
one_flow = (flow_get plenty plenty sum 100 request empty_table).1

got_request : flow_get plenty plenty sum 100 request empty_table ≡ (some request_flow, one_flow)
unfolding one_flow request_flow request_hash flow_get find_flow create_flow insert_flow session_for
    flow_hash_calculate hash_input
got_request = refl

-- The next packet between the two ends carries the bytes of "ntp".
abbrev next_request : FlowPacket
next_request = record request { payload = some (110 ∷ 116 ∷ 112 ∷ []); payload_len = 3 }

next_request-SameEnds : SameEnds request next_request
next_request-SameEnds = record {
  version = refl;
  src = refl;
  dst = refl;
  proto = refl;
  sport = refl;
  dport = refl;
}

flow_get-again_example :
    (f' : Flow) × ((flow_get plenty plenty sum 101 next_request one_flow).0 ≡ some f')
    × (f'.id ≡ request_flow.id)
    × ((flow_get plenty plenty sum 101 next_request one_flow).1.stats ≡ one_flow.stats)
flow_get-again_example =
    flow_get-again plenty plenty sum 100 101 request next_request empty_table one_flow request_flow
      (inl refl) next_request-SameEnds got_request

empty-IsBounded : IsBounded empty_table
unfolding total
empty-IsBounded = record {
  counted = record { counted = refl; word = omega arith };
  within = omega arith;
}

flow_get-IsBounded_example :
    IsBounded (flow_get plenty plenty sum 100 request empty_table).1
    × ((flow_get plenty plenty sum 100 request empty_table).1.config ≡ config_of 4 2)
flow_get-IsBounded_example =
    flow_get-IsBounded plenty plenty sum 100 request empty_table (omega arith) (omega arith)
      empty-IsBounded

-- A TCP flow whose client has sent two bytes, and two more that wait behind a gap.
abbrev open_session : TcpSession
open_session = record {
  state = tcp_established;
  seg_cnt = 4;
  byte_cnt = 4;
  toserver_sb = some waiting;
  toclient_sb = none;
}

abbrev pub web_flow : Flow
web_flow = record {
  id = 0;
  src_addr = 0x0A000001 ∷ 0 ∷ 0 ∷ 0 ∷ [];
  dst_addr = 0x0A000002 ∷ 0 ∷ 0 ∷ 0 ∷ [];
  src_port = 40000;
  dst_port = 80;
  proto = 6;
  flags = record { ipv4 = true; ipv6 = false; to_src_seen = true; to_dst_seen = true };
  flow_hash = 5;
  start_ts = 100;
  last_ts = 100;
  timeout_policy = 3600;
  tcp = some open_session;
  toserver_pkt_cnt = 3;
  toclient_pkt_cnt = 1;
  toserver_byte_cnt = 4;
  toclient_byte_cnt = 0;
  use_cnt = 0;
}

abbrev gap_header : TcpHeader
gap_header = record { tcp_flags = 16; sent_seq = 1002 }

abbrev gap_packet : FlowPacket
gap_packet = record {
  ip_version = 4;
  src_ip = 0x0A000001 ∷ [];
  dst_ip = 0x0A000002 ∷ [];
  ip_proto = 6;
  src_port = 40000;
  dst_port = 80;
  tcp_hdr = some gap_header;
  payload = some (234 ∷ 235 ∷ []);
  payload_len = 2;
}

gap_sent : (h : TcpHeader) → some gap_header ≡ some h → IsSent sent h gap_packet
gap_sent h e =
    let same : gap_header ≡ h = cc in
    subst (λ x. IsSent sent x gap_packet) same
      (record { seq_lt = omega arith; len_lt = omega arith; carries = refl })

flow_update-Tracks_example :
    (r : Flow × Reassembler) × (flow_update plenty
        (config_of 4 2)
        130
        web_flow
        gap_packet
        true
        start
      ≡ ok r)
    × Tracks sent sent r.0.tcp
flow_update-Tracks_example =
    flow_update-Tracks plenty sent sent (config_of 4 2) 130 web_flow gap_packet true start
      (inr (refl, waiting-Reassembles), tt)
      (record { segments = omega arith; buffer = omega arith }) gap_sent

-- The flow is idle since second 100, and the table holds nothing else.
abbrev idle_table : FlowTable
idle_table = record empty_table {
  buckets = λ i. if i == 2 then web_flow ∷ [] else [];
  stats = record no_stats { flows_created = 1; flows_active = 1 };
}

idle-IsCounted : IsCounted idle_table
unfolding total
idle-IsCounted = record { counted = refl; word = omega arith }

idle-IsRecent : (j : ℕ) → All (IsRecent 3701) (idle_table.buckets j)
idle-IsRecent j = elim (Bool-cases (j == 2)) [
  | inl here ↦ rw here ((omega arith, omega arith), tt)
  | inr away ↦ rw away tt
]

flow_cleanup_expired-IsCounted_example :
    let (removed, t') = flow_cleanup_expired 3701 idle_table in
    ((j : ℕ) → j < 4 → Swept 3701 (idle_table.buckets j) (t'.buckets j))
    × (removed + t'.stats.flows_active ≡ 1)
    × IsCounted t'
flow_cleanup_expired-IsCounted_example =
    flow_cleanup_expired-IsCounted 3701 idle_table refl idle-IsCounted (λ j lt. idle-IsRecent j)
