-- ===== src/Stream/State.antt =====
-- The structures of src/stream_reassemble.h and the file-level state of src/stream_reassemble.c.
use dpdk_based_nids.Prelude.{
  ℕ, Bool, true, false, List, [], Option, none, add64, sub64, ltb, if◌then◌else◌,
}

pub data OsPolicy : Type 0 where
  bsd linux windows first last : OsPolicy

-- The two groups of cases of each `switch` on the policy: true for "favor new data".
abbrev pub favors_new : OsPolicy → Bool
favors_new OsPolicy.bsd = false
favors_new OsPolicy.linux = true
favors_new OsPolicy.windows = true
favors_new OsPolicy.first = false
favors_new OsPolicy.last = true

-- `payload` is the whole allocation, of which the first `payload_len` bytes count.
pub record TcpSegment : Type 0 where
  pub seq : ℕ
  pub payload_len : ℕ
  pub payload : List ℕ

-- `buffer` is the field `data`, `none` for NULL. Otherwise it lists the bytes of the allocation that have been
-- written; the bytes behind them are not initialised, and nothing reads them.
pub record StreamBuffer : Type 0 where
  pub buffer : Option (List ℕ)
  pub size : ℕ
  pub data_len : ℕ
  pub base_seq : ℕ
  pub next_seq : ℕ
  pub seg_list : List TcpSegment
  pub seg_count : ℕ
  pub os_policy : OsPolicy
  pub max_buffer_size : ℕ
  pub total_reassembled : ℕ
  pub overlap_count : ℕ
  pub gap_count : ℕ

pub record StreamConfig : Type 0 where
  pub max_buffer_size : ℕ
  pub max_segments : ℕ
  pub default_policy : OsPolicy

-- `reassembly_stats`
pub record Stats : Type 0 where
  pub segments_inserted : ℕ
  pub segments_in_order : ℕ
  pub segments_out_of_order : ℕ
  pub segments_overlap : ℕ
  pub segments_dropped : ℕ
  pub bytes_reassembled : ℕ
  pub memory_used : ℕ
  pub memory_peak : ℕ

-- `global_config` and `reassembly_stats`, with the number of calls of `rte_malloc` so far.
pub record Reassembler : Type 0 where
  pub config : StreamConfig
  pub stats : Stats
  pub mallocs : ℕ

-- The initialisers of the two statics.
abbrev pub default_config : StreamConfig
default_config = record {
  max_buffer_size = 262144;
  max_segments = 100;
  default_policy = OsPolicy.linux;
}

abbrev pub start : Reassembler
start = record {
  config = default_config;
  stats = record {
    segments_inserted = 0;
    segments_in_order = 0;
    segments_out_of_order = 0;
    segments_overlap = 0;
    segments_dropped = 0;
    bytes_reassembled = 0;
    memory_used = 0;
    memory_peak = 0;
  };
  mallocs = 0;
}

-- All bytes 0, as `memset` leaves it.
abbrev pub zeroed : StreamBuffer
zeroed = record {
  buffer = none;
  size = 0;
  data_len = 0;
  base_seq = 0;
  next_seq = 0;
  seg_list = [];
  seg_count = 0;
  os_policy = OsPolicy.bsd;
  max_buffer_size = 0;
  total_reassembled = 0;
  overlap_count = 0;
  gap_count = 0;
}

-- `memory_used += n`, and the update of the peak.
unfoldable pub use_memory : ℕ → Reassembler → Reassembler
use_memory n g =
    let used = add64 g.stats.memory_used n in
    record g {
      stats = record (g.stats) {
        memory_used = used;
        memory_peak = if ltb g.stats.memory_peak used then used else g.stats.memory_peak;
      };
    }

-- `memory_used -= n`
unfoldable pub release_memory : ℕ → Reassembler → Reassembler
release_memory n g = record g {
  stats = record (g.stats) { memory_used = sub64 g.stats.memory_used n };
}

unfoldable pub count_dropped : Reassembler → Reassembler
count_dropped g = record g {
  stats = record (g.stats) { segments_dropped = add64 g.stats.segments_dropped 1 };
}

-- `stream_reassemble_init`; `none` is a NULL argument.
unfoldable pub stream_reassemble_init : Option StreamConfig → Reassembler → Reassembler
stream_reassemble_init none g = g
stream_reassemble_init (Option.some c) g = record g { config = c }
