-- ===== src/Stream/Queue/Insert.antt =====
-- `insert_segment_queue` of src/stream_reassemble.c.
use dpdk_based_nids.Prelude.{
  ℕ, Bool, true, false, ◌&&◌, List, [], ◌∷◌, Option, none, some, add32, ◌==◌, leb, ltb,
  if◌then◌else◌, Run, ok, fault, use_after_free,
}
use dpdk_based_nids.Stream.Queue.Merge.{try_merge_segments}
use dpdk_based_nids.Stream.Queue.Overlap.{Rest, Overlaps, freed, kept, handle_queue_overlaps}
use dpdk_based_nids.Stream.Segment.{segment_free}
use dpdk_based_nids.Stream.Seq.{seq_compare, is_lt}
use dpdk_based_nids.Stream.State.{TcpSegment, StreamBuffer, Reassembler, count_dropped}

-- The new list, or `none` for an exact duplicate.
unfoldable pub insert_sorted : TcpSegment → List TcpSegment → Option (List TcpSegment)
insert_sorted fresh [] = some (fresh ∷ [])
insert_sorted fresh (curr ∷ rest) =
    if fresh.seq == curr.seq && fresh.payload_len == curr.payload_len
    then none
    else if is_lt (seq_compare fresh.seq curr.seq)
    then some (fresh ∷ curr ∷ rest)
    else elim (insert_sorted fresh rest) [ none ↦ none | some l ↦ some (curr ∷ l) ]

abbrev pub with_rest : StreamBuffer → Rest → StreamBuffer
with_rest sb r = record sb { seg_list = r.list; seg_count = r.count; overlap_count = r.overlaps }

-- The result is true for the return value 0 and false for -1.
abbrev pub Queued : Type 0
Queued = Bool × StreamBuffer × Reassembler

module _ (grants : ℕ → Bool) where
  -- Link the segment at the place found, and merge; drop it if it is a duplicate.
  unfoldable pub link_segment :
      StreamBuffer → TcpSegment → Reassembler → Option (List TcpSegment) → Queued
  link_segment sb fresh g none = (true, sb, segment_free fresh g)
  link_segment sb fresh g (some list) =
      let sb₁ = record sb { seg_list = list; seg_count = add32 sb.seg_count 1 } in
      let (sb₂, g₂) = try_merge_segments grants sb₁ g in
      if ltb 10 sb₁.seg_count then (true, sb₂, g₂) else (true, sb₁, g)

  -- Behind the overlap handling. Where that has freed the segment, the code goes on to read
  -- `new_seg->payload_len`.
  unfoldable pub place_segment : StreamBuffer → Overlaps → Run Queued
  place_segment sb (freed r) = fault use_after_free
  place_segment sb (kept fresh r) =
      if fresh.payload_len == 0
      then ok (true, with_rest sb r, segment_free fresh r.reassembler)
      else ok (link_segment (with_rest sb r) fresh r.reassembler (insert_sorted fresh r.list))

  unfoldable pub insert_segment_queue : StreamBuffer → TcpSegment → Reassembler → Run Queued
  unfolding count_dropped
  insert_segment_queue sb new_seg g =
      if leb g.config.max_segments sb.seg_count
      then ok (false, sb, count_dropped (segment_free new_seg g))
      else place_segment sb (handle_queue_overlaps sb new_seg g)
