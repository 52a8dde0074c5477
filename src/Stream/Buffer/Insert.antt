-- ===== src/Stream/Buffer/Insert.antt =====
-- `stream_buffer_insert_segment` of src/stream_reassemble.c.
use dpdk_based_nids.Prelude.{
  ℕ, ◌+◌, ◌-◌, ◌^◌, Bool, true, false, List, Option, none, some, ◌==◌, leb, if◌then◌else◌, add32,
  sub32, add64, to_u16, drop, Run, ok, ◌>>=◌,
}
use dpdk_based_nids.Stream.Queue.Insert.{Queued, insert_segment_queue}
use dpdk_based_nids.Stream.Queue.Process.{is_full, append_payload, process_segment_queue}
use dpdk_based_nids.Stream.Segment.{segment_alloc}
use dpdk_based_nids.Stream.Seq.{seq_compare, is_lt, is_le}
use dpdk_based_nids.Stream.State.{TcpSegment, StreamBuffer, Reassembler, count_dropped}

-- The bytes of a segment that are still to be handled.
pub record Piece : Type 0 where
  pub seq : ℕ
  pub payload : List ℕ
  pub payload_len : ℕ

-- `payload += k; payload_len -= k; seq = start`
abbrev pub skip_to : ℕ → ℕ → Piece → Piece
skip_to start k p = record {
  seq = start;
  payload = drop k p.payload;
  payload_len = to_u16 (p.payload_len + 2 ^ 32 - k);
}

-- What lies before `base_seq` is cut off; `none` if nothing is left.
unfoldable pub clip_to_window : ℕ → Piece → Option Piece
clip_to_window base_seq p =
    if is_le (seq_compare (add32 p.seq p.payload_len) base_seq)
    then none
    else if is_lt (seq_compare p.seq base_seq)
    then (let skip = sub32 base_seq p.seq in
        if leb p.payload_len skip then none else some (skip_to base_seq skip p))
    else some p

-- `handle_buffer_overlap`; the flag says that the two overlap counters are stepped.
unfoldable pub handle_buffer_overlap : ℕ → Piece → Bool × Piece
handle_buffer_overlap next_seq p =
    if is_lt (seq_compare p.seq next_seq)
    then if is_le (seq_compare (add32 p.seq p.payload_len) next_seq)
      then (false, record p { payload_len = 0 })
      else (true, skip_to next_seq (sub32 next_seq p.seq) p)
    else (false, p)

-- The two counters of `handle_buffer_overlap`.
abbrev pub count_overlap : Bool → StreamBuffer → StreamBuffer
count_overlap true sb = record sb { overlap_count = add64 sb.overlap_count 1 }
count_overlap false sb = sb

abbrev pub count_stats_overlap : Bool → Reassembler → Reassembler
count_stats_overlap true g = record g {
  stats = record (g.stats) { segments_overlap = add64 g.stats.segments_overlap 1 };
}
count_stats_overlap false g = g

unfoldable pub count_inserted : Reassembler → Reassembler
count_inserted g = record g {
  stats = record (g.stats) { segments_inserted = add64 g.stats.segments_inserted 1 };
}

unfoldable pub count_in_order : Reassembler → Reassembler
count_in_order g = record g {
  stats = record (g.stats) { segments_in_order = add64 g.stats.segments_in_order 1 };
}

unfoldable pub count_out_of_order : Reassembler → Reassembler
count_out_of_order g = record g {
  stats = record (g.stats) { segments_out_of_order = add64 g.stats.segments_out_of_order 1 };
}

unfoldable pub count_bytes : ℕ → Reassembler → Reassembler
count_bytes n g = record g {
  stats = record (g.stats) { bytes_reassembled = add64 g.stats.bytes_reassembled n };
}

-- The return value, `none` for -1, and the state.
abbrev pub Inserted : Type 0
Inserted = Option ℕ × StreamBuffer × Reassembler

-- The branch for the next expected segment.
unfoldable pub insert_in_order : StreamBuffer → Piece → Reassembler → Inserted
unfolding count_dropped count_in_order count_bytes
insert_in_order sb p g =
    let g₁ = count_in_order g in
    let (sb', g', _) =
      process_segment_queue (append_payload sb p.payload p.payload_len)
        (count_bytes p.payload_len g₁) in
    if is_full sb p.payload_len then (none, sb, count_dropped g₁) else (some p.payload_len, sb', g')

-- The end of the branch below: try to reassemble, unless the segment was not queued.
unfoldable pub finish_insert : Queued → Inserted
finish_insert (done, sb, g) =
    let (sb', g', n) = process_segment_queue sb g in
    if done then (some n, sb', g') else (none, sb, g)

module _ (grants : ℕ → Bool) where
  unfoldable pub after_alloc : StreamBuffer → Option TcpSegment → Reassembler → Run Inserted
  unfolding count_dropped
  after_alloc sb none g = ok (none, sb, count_dropped g)
  after_alloc sb (some seg) g = insert_segment_queue grants sb seg g >>= λ q. ok (finish_insert q)

  -- A new segment for the queue, behind `handle_buffer_overlap`.
  unfoldable pub enqueue : StreamBuffer → Piece → Reassembler → Run Inserted
  enqueue sb p g =
      let (got, g₁) = segment_alloc grants p.seq p.payload p.payload_len g in after_alloc sb got g₁

  unfoldable pub insert_trimmed : StreamBuffer → Piece → Reassembler → Run Inserted
  insert_trimmed sb p g = if p.payload_len == 0 then ok (some 0, sb, g) else enqueue sb p g

  -- The branch for a segment that is not the next expected one.
  unfoldable pub insert_out_of_order : StreamBuffer → Piece → Reassembler → Run Inserted
  insert_out_of_order sb p g =
      let (trimmed, p') = handle_buffer_overlap sb.next_seq p in
      insert_trimmed (count_overlap trimmed sb) p'
        (count_stats_overlap trimmed (count_out_of_order g))

  unfoldable pub insert_clipped : StreamBuffer → Option Piece → Reassembler → Run Inserted
  insert_clipped sb none g = ok (some 0, sb, g)
  insert_clipped sb (some p) g =
      if p.seq == sb.next_seq then ok (insert_in_order sb p g) else insert_out_of_order sb p g

  -- Behind the checks of the arguments.
  unfoldable pub insert_piece : StreamBuffer → Piece → Reassembler → Run Inserted
  insert_piece sb p g = insert_clipped sb (clip_to_window sb.base_seq p) (count_inserted g)

  -- Behind the checks of `sb->data`, the first argument.
  abbrev pub insert_at : Option (List ℕ) → StreamBuffer → Piece → Reassembler → Run Inserted
  insert_at none sb p g = ok (none, sb, g)
  insert_at (some _) sb p g = insert_piece sb p g

  -- `payload` is `none` for NULL.
  unfoldable pub stream_buffer_insert_segment :
      StreamBuffer → ℕ → Option (List ℕ) → ℕ → Reassembler → Run Inserted
  stream_buffer_insert_segment sb seq none payload_len g = ok (none, sb, g)
  stream_buffer_insert_segment sb seq (some payload) payload_len g =
      if payload_len == 0
      then ok (none, sb, g)
      else insert_at sb.buffer sb
          (record { seq = seq; payload = payload; payload_len = payload_len }) g
