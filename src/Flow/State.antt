-- ===== src/Flow/State.antt =====
-- The structures of src/flow.h, and what src/flow.c reads of a decoded packet.
use dpdk_based_nids.Prelude.{ℕ, Bool, List, Option}
use dpdk_based_nids.Stream.State.{StreamBuffer, Reassembler}

pub data TcpState : Type 0 where
  tcp_none tcp_listen tcp_syn_sent tcp_syn_recv tcp_established tcp_fin_wait1 : TcpState
  tcp_fin_wait2 tcp_time_wait tcp_close_wait tcp_last_ack tcp_closing tcp_closed : TcpState

-- `tcp_session_t`, less the fields that src/flow.c only clears.
pub record TcpSession : Type 0 where
  pub state : TcpState
  pub seg_cnt : ℕ
  pub byte_cnt : ℕ
  pub toserver_sb : Option StreamBuffer
  pub toclient_sb : Option StreamBuffer

-- The bits of `flags`.
pub record FlowFlags : Type 0 where
  pub ipv4 : Bool
  pub ipv6 : Bool
  pub to_src_seen : Bool
  pub to_dst_seen : Bool

-- `flow_t`. `id` stands for its address, an address is the list of its four words, a time its
-- seconds. `tcp` is `protoctx.tcp`; the fields of protocol detection and the lock are left out.
pub record Flow : Type 0 where
  pub id : ℕ
  pub src_addr : List ℕ
  pub dst_addr : List ℕ
  pub src_port : ℕ
  pub dst_port : ℕ
  pub proto : ℕ
  pub flags : FlowFlags
  pub flow_hash : ℕ
  pub start_ts : ℕ
  pub last_ts : ℕ
  pub timeout_policy : ℕ
  pub tcp : Option TcpSession
  pub toserver_pkt_cnt : ℕ
  pub toclient_pkt_cnt : ℕ
  pub toserver_byte_cnt : ℕ
  pub toclient_byte_cnt : ℕ
  pub use_cnt : ℕ

-- What is read through `pkt_info`: the addresses as words of the IP header (one for IPv4, four
-- for IPv6), and the TCP header if `tcp_hdr` is not NULL.
pub record TcpHeader : Type 0 where
  pub tcp_flags : ℕ
  pub sent_seq : ℕ

pub record FlowPacket : Type 0 where
  pub ip_version : ℕ
  pub src_ip : List ℕ
  pub dst_ip : List ℕ
  pub ip_proto : ℕ
  pub src_port : ℕ
  pub dst_port : ℕ
  pub tcp_hdr : Option TcpHeader
  pub payload : Option (List ℕ)
  pub payload_len : ℕ

pub record FlowConfig : Type 0 where
  pub hash_size : ℕ
  pub max_flows : ℕ
  pub timeout_new : ℕ
  pub timeout_est : ℕ
  pub flow_memcap : ℕ

pub record FlowStats : Type 0 where
  pub flows_created : ℕ
  pub flows_removed : ℕ
  pub flows_timeout : ℕ
  pub flows_active : ℕ

-- The file-level state: whether `flow_hash_table` is not NULL, its chains by their index, the
-- number of calls of `calloc` so far, and the state of the reassembly.
pub record FlowTable : Type 0 where
  pub live : Bool
  pub buckets : ℕ → List Flow
  pub config : FlowConfig
  pub stats : FlowStats
  pub callocs : ℕ
  pub reassembler : Reassembler
