-- ===== src/Stream/Spec.antt =====
-- What reassembly promises: the sender's bytes, each at its sequence number.
pub mod Slice
use dpdk_based_nids.Prelude.{ℕ, ◌+◌, ◌^◌, ◌≤◌, ◌<◌, ◌≡◌, List, All, length, take, add32}
use dpdk_based_nids.Stream.Queue.Process.{bytes_of}
use dpdk_based_nids.Stream.Spec.Slice.{slice}
use dpdk_based_nids.Stream.State.{TcpSegment, StreamBuffer}

-- The segment holds the stream's bytes from its sequence number on.
pub record IsCopy (s : ℕ → ℕ) (seg : TcpSegment) : Type 0 where
  pub seq_lt : seg.seq < 2 ^ 32
  pub len_lt : seg.payload_len < 2 ^ 16
  pub bytes : take seg.payload_len seg.payload ≡ slice s seg.seq seg.payload_len

-- The buffer holds the stream's bytes from `base_seq` to `next_seq`, within its allocation.
pub record IsFilled (s : ℕ → ℕ) (sb : StreamBuffer) : Type 0 where
  pub base_lt : sb.base_seq < 2 ^ 32
  pub next_eq : sb.next_seq ≡ add32 sb.base_seq sb.data_len
  pub fits : sb.data_len ≤ sb.max_buffer_size
  pub sized : sb.max_buffer_size ≡ sb.size
  pub small : sb.max_buffer_size + 2 ^ 16 ≤ 2 ^ 32
  pub bytes : take sb.data_len (bytes_of sb.buffer) ≡ slice s sb.base_seq sb.data_len

-- A queue of copies, with its count.
pub record IsQueue (s : ℕ → ℕ) (list : List TcpSegment) (n : ℕ) : Type 0 where
  pub counted : n ≡ length list
  pub count_lt : n < 2 ^ 32
  pub copies : All (IsCopy s) list

abbrev pub Reassembles : (ℕ → ℕ) → StreamBuffer → Type 0
Reassembles s sb = IsFilled s sb × IsQueue s sb.seg_list sb.seg_count

-- What an insertion leaves as it was in `o`, and what can only grow.
pub record Extends (o sb : StreamBuffer) : Type 0 where
  pub policy : sb.os_policy ≡ o.os_policy
  pub base : sb.base_seq ≡ o.base_seq
  pub grows : o.data_len ≤ sb.data_len

abbrev pub Advanced : (ℕ → ℕ) → StreamBuffer → StreamBuffer → Type 0
Advanced s o sb = Reassembles s sb × Extends o sb
