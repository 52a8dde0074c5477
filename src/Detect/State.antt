-- ===== src/Detect/State.antt =====
-- The structures of src/app_proto.h and src/proto_detect.h.
use dpdk_based_nids.Flow.State.{Flow}
use dpdk_based_nids.Prelude.{ℕ, Bool, List, Run}

pub data AppProto : Type 0 where
  unknown http tls dns smtp imap pop3 ftp ftp_data ssh telnet mysql pgsql redis : AppProto
  mqtt amqp smb nfs dhcp failed : AppProto

pub data Confidence : Type 0 where
  low medium high certain : Confidence

pub record DetectResult : Type 0 where
  pub protocol : AppProto
  pub confidence : Confidence
  pub reverse_flow : Bool

-- `pattern` is the `pattern_len` bytes of the pattern.
pub record ProtoPattern : Type 0 where
  pub protocol : AppProto
  pub pattern : List ℕ
  pub depth : ℕ
  pub offset : ℕ
  pub case_sensitive : Bool

-- A probing function reads the flow, the direction (true for to the server), the data and its
-- length; it gives a protocol and what it leaves in `*reverse_flow`.
abbrev pub ProbingParser : Type 0
ProbingParser = Flow → Bool → List ℕ → ℕ → Bool → Run (AppProto × Bool)

-- The two bits of `direction` are the last two flags.
pub record ProtoProber : Type 0 where
  pub protocol : AppProto
  pub port : ℕ
  pub min_depth : ℕ
  pub max_depth : ℕ
  pub parser_fn : ProbingParser
  pub to_server : Bool
  pub to_client : Bool

pub record DetectCtx : Type 0 where
  pub patterns_ts : List ProtoPattern
  pub patterns_tc : List ProtoPattern
  pub probers : List ProtoProber
  pub by_pattern : ℕ
  pub by_prober : ℕ
  pub by_port : ℕ
  pub failures : ℕ

pub record DetectConfig : Type 0 where
  pub max_inspect_depth : ℕ
  pub enable_port_detection : Bool
  pub enable_pattern_matching : Bool
  pub enable_probing_parsers : Bool

-- The initialiser of `global_config`.
abbrev pub default_detect : DetectConfig
default_detect = record {
  max_inspect_depth = 4096;
  enable_port_detection = Bool.true;
  enable_pattern_matching = Bool.true;
  enable_probing_parsers = Bool.true;
}
