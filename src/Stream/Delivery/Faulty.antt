-- ===== src/Stream/Delivery/Faulty.antt =====
-- Inputs on which the queue loses data or the length of a segment.
use dpdk_based_nids.Prelude.{
  ℕ, ◌+◌, ◌-◌, ◌^◌, ◌≤◌, ◌<◌, ◌≡◌, refl, arith, Bool, true, false, List, [], ◌∷◌, some, add32,
  sub32, to_u16, ltb, ◌==◌,
}
use dpdk_based_nids.Stream.Buffer.Insert.{insert_in_order, count_in_order, count_bytes}
use dpdk_based_nids.Stream.Queue.Merge.{merged, merged_payload, merge_pair}
use dpdk_based_nids.Stream.Queue.Process.{
  is_full, append_payload, remove_head, gap_positive, process_head, process_loop,
  process_segment_queue,
}
use dpdk_based_nids.Stream.Segment.{segment_free}
use dpdk_based_nids.Stream.Seq.{seq_compare, is_le, is_ge}
use dpdk_based_nids.Stream.State.{TcpSegment, StreamBuffer, Reassembler}

-- A head of the queue that starts before `next_seq` is removed.
process_segment_queue-late :
    (sb : StreamBuffer) (seg : TcpSegment) (g : Reassembler)
    → sb.seg_list ≡ seg ∷ []
    → (seg.seq == sb.next_seq) ≡ false
    → gap_positive seg.seq sb.next_seq ≡ false
    → process_segment_queue sb g ≡ (remove_head [] sb, segment_free seg g, 0)
unfolding process_segment_queue process_loop process_head
process_segment_queue-late sb seg g e away late = simp (e, away, late)

-- Where one segment waits `c` bytes ahead of `next_seq` and a segment of `n` bytes arrives at
-- `next_seq` that ends within it, the waiting segment is thrown away: the queue is empty, and the
-- data ends `n` bytes further on, although the waiting segment held bytes beyond.
pub overlapped_tail_lost :
    (sb : StreamBuffer) (seg : TcpSegment) (c n : ℕ) (payload : List ℕ) (g : Reassembler)
    → sb.seg_list ≡ seg ∷ []
    → sb.next_seq < 2 ^ 32
    → seg.seq ≡ add32 sb.next_seq c
    → c < n
    → n < c + seg.payload_len
    → n < 2 ^ 16
    → sb.data_len + n ≤ sb.max_buffer_size
    → sb.max_buffer_size < 2 ^ 32
    → let r =
        insert_in_order sb (record { seq = sb.next_seq; payload = payload; payload_len = n }) g in
      (r.0 ≡ some n) × (r.1.seg_list ≡ []) × (r.1.data_len ≡ sb.data_len + n)
unfolding insert_in_order is_full append_payload remove_head
overlapped_tail_lost sb seg c n payload g e lt at inside beyond small fits max =
    let room : ltb sb.max_buffer_size (add32 sb.data_len n) ≡ false = ground arith in
    let sb₁ = append_payload sb payload n in
    let away : (seg.seq == add32 sb.next_seq n) ≡ false = ground arith in
    let past : gap_positive seg.seq (add32 sb.next_seq n) ≡ false =
      unfold gap_positive in ground arith in
    let late = process_segment_queue-late sb₁ seg (count_bytes n (count_in_order g)) e away past in
    rw room (rw late (refl, refl, omega arith))

-- Two segments that touch and hold 2 ^ 16 bytes or more together are merged into one whose
-- 16-bit length is 2 ^ 16 less than the bytes they held.
pub merged_length_wraps :
    (grants : ℕ → Bool) (curr next : TcpSegment) (g : Reassembler)
    → curr.seq < 2 ^ 32
    → curr.payload_len < 2 ^ 16
    → next.payload_len < 2 ^ 16
    → next.seq ≡ add32 curr.seq curr.payload_len
    → 2 ^ 16 ≤ curr.payload_len + next.payload_len
    → grants g.mallocs ≡ true
    → merge_pair grants curr next g
      ≡ merged
          (record {
            seq = curr.seq;
            payload_len = curr.payload_len + next.payload_len - 2 ^ 16;
            payload = merged_payload curr next;
          })
          (record g { mallocs = g.mallocs + 1 })
unfolding merge_pair
merged_length_wraps grants curr next g lt a b at big got =
    let touch : is_ge (seq_compare (add32 curr.seq curr.payload_len) next.seq) ≡ true =
      unfold seq_compare in ground arith in
    let beyond : is_le
          (seq_compare (add32 next.seq next.payload_len) (add32 curr.seq curr.payload_len))
        ≡ false =
      unfold seq_compare in ground arith in
    let len : to_u16 (sub32 (add32 next.seq next.payload_len) curr.seq)
        ≡ curr.payload_len + next.payload_len - 2 ^ 16 =
      omega arith in
    rw touch (rw beyond (rw got (rw len refl)))
