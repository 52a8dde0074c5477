-- ===== src/Stream/Queue/Process.antt =====
-- `process_segment_queue` of src/stream_reassemble.c.
use dpdk_based_nids.Prelude.{
  ℕ, ◌+◌, ◌^◌, Bool, not, ◌&&◌, List, [], ◌∷◌, ◌++◌, Option, none, some, add32, sub32, add64,
  length, take, drop, ◌==◌, ltb, if◌then◌else◌,
}
use dpdk_based_nids.Stream.Segment.{segment_free}
use dpdk_based_nids.Stream.State.{TcpSegment, StreamBuffer, Reassembler, count_dropped}

-- The memory at `old` after `memcpy(old + at, new, n)`, with the `n` bytes given.
unfoldable pub write_at : ℕ → List ℕ → List ℕ → List ℕ
write_at at new old = take at old ++ (new ++ drop (at + length new) old)

abbrev pub bytes_of : Option (List ℕ) → List ℕ
bytes_of none = []
bytes_of (some b) = b

-- The test for room in the buffer, negated.
unfoldable pub is_full : StreamBuffer → ℕ → Bool
is_full sb n = ltb sb.max_buffer_size (add32 sb.data_len n)

-- The copy to the end of the buffer, with the three counters that follow it.
unfoldable pub append_payload : StreamBuffer → List ℕ → ℕ → StreamBuffer
unfolding write_at
append_payload sb payload n = record sb {
  buffer = some (write_at sb.data_len (take n payload) (bytes_of sb.buffer));
  data_len = add32 sb.data_len n;
  next_seq = add32 sb.next_seq n;
  total_reassembled = add64 sb.total_reassembled n;
}

-- The stream buffer, the file-level state and `reassembled_bytes`.
abbrev pub Processed : Type 0
Processed = StreamBuffer × Reassembler × ℕ

pub data Round : Type 0 where
  leave : Processed → Round
  again : Processed → Round

-- `*pprev = seg->next; segment_free(seg); sb->seg_count--` at the head of the list.
unfoldable pub remove_head : List TcpSegment → StreamBuffer → StreamBuffer
remove_head rest sb = record sb { seg_list = rest; seg_count = sub32 sb.seg_count 1 }

-- `(int32_t)(a - b) > 0`
unfoldable pub gap_positive : ℕ → ℕ → Bool
gap_positive a b = ltb 0 (sub32 a b) && ltb (sub32 a b) (2 ^ 31)

-- One round, at the head `seg` of the list.
unfoldable pub process_head : TcpSegment → List TcpSegment → StreamBuffer → Reassembler → ℕ → Round
unfolding count_dropped
process_head seg rest sb g n =
    if not (seg.seq == sb.next_seq)
    then if gap_positive seg.seq sb.next_seq
      then leave (record sb { gap_count = add64 sb.gap_count 1 }, g, n)
      else again (remove_head rest sb, segment_free seg g, n)
    else if is_full sb seg.payload_len
    then leave (sb, count_dropped g, n)
    else again (
      remove_head rest (append_payload sb seg.payload seg.payload_len),
      segment_free seg g,
      n + seg.payload_len,
    )

abbrev pub run_round : (StreamBuffer → Reassembler → ℕ → Processed) → Round → Processed
run_round next (leave r) = r
run_round next (again (sb, g, n)) = next sb g n

-- The loop, over `sb.seg_list`.
unfoldable pub process_loop : List TcpSegment → StreamBuffer → Reassembler → ℕ → Processed
process_loop [] sb g n = (sb, g, n)
process_loop (seg ∷ rest) sb g n = run_round (process_loop rest) (process_head seg rest sb g n)

unfoldable pub process_segment_queue : StreamBuffer → Reassembler → Processed
process_segment_queue sb g = process_loop sb.seg_list sb g 0
