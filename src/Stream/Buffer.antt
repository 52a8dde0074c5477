-- ===== src/Stream/Buffer.antt =====
-- The operations on stream buffers of src/stream_reassemble.c. Pointers to a stream buffer are
-- not NULL here.
pub mod Insert
use dpdk_based_nids.Prelude.{
  ℕ, ◌+◌, ◌-◌, Bool, true, false, List, [], ◌∷◌, ◌++◌, Option, none, some, ◌==◌, ltb, if◌then◌else◌,
  sub32, add32, take, drop,
}
use dpdk_based_nids.Stream.Queue.Overlap.{move_front}
use dpdk_based_nids.Stream.Queue.Process.{bytes_of, process_segment_queue}
use dpdk_based_nids.Stream.Segment.{rte_malloc, segment_free}
use dpdk_based_nids.Stream.State.{
  OsPolicy, TcpSegment, StreamBuffer, Reassembler, zeroed, use_memory, release_memory,
}

module _ (grants : ℕ → Bool) where
  -- True for the return value 0. The contents of the new buffer are not initialised.
  unfoldable pub stream_buffer_init : ℕ → OsPolicy → Reassembler → Bool × StreamBuffer × Reassembler
  unfolding rte_malloc use_memory
  stream_buffer_init initial_seq policy g =
      let size = g.config.max_buffer_size in
      let (got, g₁) = rte_malloc grants g in
      if got
      then (
        true,
        record zeroed {
          size = size;
          buffer = some [];
          base_seq = initial_seq;
          next_seq = initial_seq;
          os_policy = policy;
          max_buffer_size = g.config.max_buffer_size;
        },
        use_memory size g₁,
      )
      else (false, record zeroed { size = size }, g₁)

unfoldable pub free_segments : List TcpSegment → Reassembler → Reassembler
free_segments [] g = g
free_segments (seg ∷ rest) g = free_segments rest (segment_free seg g)

-- The buffer itself, if there is one.
abbrev pub release_data : Option (List ℕ) → ℕ → Reassembler → Reassembler
release_data none size g = g
release_data (some _) size g = release_memory size g

unfoldable pub stream_buffer_free : StreamBuffer → Reassembler → StreamBuffer × Reassembler
unfolding release_memory
stream_buffer_free sb g = (zeroed, release_data sb.buffer sb.size (free_segments sb.seg_list g))

unfoldable pub stream_buffer_data_available : StreamBuffer → ℕ
stream_buffer_data_available sb = sb.data_len

abbrev pub first_bytes : ℕ → Option (List ℕ) → Option (List ℕ)
first_bytes n none = none
first_bytes n (some b) = some (take n b)

-- The bytes at the pointer that is returned, as far as `*data_len` counts them.
unfoldable pub stream_buffer_get_data : StreamBuffer → Option (List ℕ)
stream_buffer_get_data sb = first_bytes sb.data_len sb.buffer

-- Slide the buffer by `n` bytes, at most `sb.data_len`.
unfoldable pub slide : ℕ → List ℕ → StreamBuffer → StreamBuffer
unfolding move_front
slide n b sb = record sb {
  buffer = some (if ltb n sb.data_len then move_front n (sb.data_len - n) b else b);
  data_len = sub32 sb.data_len n;
  base_seq = add32 sb.base_seq n;
}

-- `consume_len`, at most `sb->data_len`.
unfoldable pub consume_count : StreamBuffer → ℕ → ℕ
consume_count sb consume_len = if ltb sb.data_len consume_len then sb.data_len else consume_len

-- With an empty queue there is nothing to process.
unfoldable pub after_slide : StreamBuffer → Reassembler → Bool × StreamBuffer × Reassembler
after_slide sb g = let (sb', g', _) = process_segment_queue sb g in (true, sb', g')

-- Behind the checks of `sb->data`, the first argument.
abbrev pub consume_at :
    Option (List ℕ) → StreamBuffer → ℕ → Reassembler → Bool × StreamBuffer × Reassembler
consume_at none sb n g = (false, sb, g)
consume_at (some b) sb n g = after_slide (slide n b sb) g

-- True for the return value 0.
unfoldable pub stream_buffer_consume :
    StreamBuffer → ℕ → Reassembler → Bool × StreamBuffer × Reassembler
stream_buffer_consume sb consume_len g =
    if consume_len == 0
    then (false, sb, g)
    else consume_at sb.buffer sb (consume_count sb consume_len) g
