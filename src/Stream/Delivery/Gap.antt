-- ===== src/Stream/Delivery/Gap.antt =====
-- Two segments that arrive in the wrong order.
use dpdk_based_nids.Prelude.{
  ℕ, ◌+◌, ◌^◌, ◌≤◌, ◌<◌, ◌≡◌, ◌≢◌, refl, sym, ◌∙◌, ap, arith, Bool, true, false, List, [], ◌∷◌,
  none, some, take, add32, sub32, add64, ltb, leb, ◌==◌, ok,
}
use dpdk_based_nids.Stream.Buffer.Insert.{
  Piece, Inserted, handle_buffer_overlap, insert_in_order, insert_out_of_order, insert_trimmed,
  insert_clipped, enqueue, after_alloc, finish_insert, count_inserted, count_in_order, count_bytes,
  count_out_of_order, stream_buffer_insert_segment,
}
use dpdk_based_nids.Stream.Buffer.{first_bytes, stream_buffer_get_data}
use dpdk_based_nids.Stream.Delivery.InOrder.{insert_inside}
use dpdk_based_nids.Stream.Queue.Insert.{
  insert_sorted, link_segment, place_segment, insert_segment_queue,
}
use dpdk_based_nids.Stream.Queue.Overlap.{overlap_loop, handle_queue_overlaps}
use dpdk_based_nids.Stream.Queue.Process.{
  bytes_of, is_full, append_payload, remove_head, gap_positive, process_head, process_loop,
  process_segment_queue,
}
use dpdk_based_nids.Stream.Segment.{segment_alloc, segment_free, segment_size}
use dpdk_based_nids.Stream.Seq.{seq_compare}
use dpdk_based_nids.Stream.Sound.Buffer.{IsPiece, insert_in_order-Advanced}
use dpdk_based_nids.Stream.Spec.Slice.{slice}
use dpdk_based_nids.Stream.Spec.{IsFilled, Reassembles}
use dpdk_based_nids.Stream.State.{TcpSegment, StreamBuffer, Reassembler, use_memory}

-- Into an empty queue a segment goes as it is.
insert_segment_queue-empty :
    (grants : ℕ → Bool) (sb : StreamBuffer) (seg : TcpSegment) (g : Reassembler)
    → sb.seg_list ≡ []
    → sb.seg_count ≡ 0
    → 0 < g.config.max_segments
    → 0 < seg.payload_len
    → insert_segment_queue grants sb seg g
      ≡ ok (true, record sb { seg_list = seg ∷ []; seg_count = 1 }, g)
unfolding insert_segment_queue handle_queue_overlaps overlap_loop place_segment insert_sorted
    link_segment
insert_segment_queue-empty grants sb seg g e z room pos =
    let free : leb g.config.max_segments 0 ≡ false = ground arith in
    let some_len : (seg.payload_len == 0) ≡ false = ground arith in simp (e, z, free, some_len)

-- A head of the queue behind a gap stays there.
process_segment_queue-gap :
    (sb : StreamBuffer) (seg : TcpSegment) (rest : List TcpSegment) (g : Reassembler) (a : ℕ)
    → sb.seg_list ≡ seg ∷ rest
    → sb.next_seq < 2 ^ 32
    → seg.seq ≡ add32 sb.next_seq a
    → 0 < a
    → a < 2 ^ 31
    → process_segment_queue sb g ≡ (record sb { gap_count = add64 sb.gap_count 1 }, g, 0)
unfolding process_segment_queue process_loop process_head gap_positive
process_segment_queue-gap sb seg rest g a e lt at pos small =
    let away : (seg.seq == sb.next_seq) ≡ false = ground arith in
    let gap : ltb 0 (sub32 seg.seq sb.next_seq) ≡ true = ground arith in
    let gap' : ltb (sub32 seg.seq sb.next_seq) (2 ^ 31) ≡ true = ground arith in
    simp (e, away, gap, gap')

-- Ahead of `next_seq` nothing is cut off.
handle_buffer_overlap-ahead :
    (next_seq a : ℕ) (p : Piece)
    → next_seq < 2 ^ 32
    → p.seq ≡ add32 next_seq a
    → 0 < a
    → a < 2 ^ 31
    → (handle_buffer_overlap next_seq p ≡ (false, p)) × ((p.seq == next_seq) ≡ false)
unfolding handle_buffer_overlap seq_compare
handle_buffer_overlap-ahead next_seq a p lt e pos small = (ground arith, ground arith)

-- The segment that `segment_alloc` makes.
abbrev pub new_segment : ℕ → List ℕ → ℕ → TcpSegment
new_segment seq payload n = record { seq = seq; payload_len = n; payload = take n payload }

-- Two calls of `rte_malloc` have succeeded.
unfoldable pub allocated : ℕ → Reassembler → Reassembler
unfolding use_memory
allocated n g = use_memory (segment_size + n) (record g { mallocs = g.mallocs + 1 + 1 })

module _ (grants : ℕ → Bool) where
  segment_alloc_lem :
      (seq n : ℕ) (payload : List ℕ) (g : Reassembler)
      → grants g.mallocs ≡ true
      → grants (g.mallocs + 1) ≡ true
      → segment_alloc grants seq payload n g ≡ (some (new_segment seq payload n), allocated n g)
  unfolding segment_alloc allocated
  segment_alloc_lem seq n payload g a b = simp (a, b)

  -- A segment `a` bytes ahead of `next_seq` that reaches an empty queue is answered by 0 and
  -- queued whole; the data does not change, and a gap is counted. The buffer is to hold less than
  -- 2 ^ 31 bytes up to the segment's end, and both calls of `rte_malloc` are to succeed.
  pub segment_ahead_queued :
      (s : ℕ → ℕ) (sb : StreamBuffer) (a n : ℕ) (payload : List ℕ) (g : Reassembler)
      → IsFilled s sb
      → sb.buffer ≢ none
      → sb.seg_list ≡ []
      → sb.seg_count ≡ 0
      → 0 < a
      → 0 < n
      → sb.data_len + a + n < 2 ^ 31
      → 0 < g.config.max_segments
      → grants g.mallocs ≡ true
      → grants (g.mallocs + 1) ≡ true
      → let seq = add32 sb.next_seq a in
        stream_buffer_insert_segment grants sb seq (some payload) n g
        ≡ ok (
          some 0,
          record sb {
            seg_list = new_segment seq payload n ∷ [];
            seg_count = 1;
            gap_count = add64 sb.gap_count 1;
          },
          allocated n (count_out_of_order (count_inserted g)),
        )
  unfolding insert_clipped insert_out_of_order insert_trimmed enqueue after_alloc finish_insert
      count_out_of_order count_inserted
  segment_ahead_queued s sb a n payload g f live empty zero_count apos npos small room g₁ g₂ =
      let seq = add32 sb.next_seq a in
      let p : Piece = record { seq = seq; payload = payload; payload_len = n } in
      let h =
        handle_buffer_overlap-ahead sb.next_seq a p (omega (arith, f.next_eq)) refl apos
          (omega arith) in
      let some_len : (n == 0) ≡ false = ground arith in
      let seg = new_segment seq payload n in
      let g' = count_out_of_order (count_inserted g) in
      let limit : 0 < (allocated n g').config.max_segments = unfold allocated in room in
      insert_inside grants sb seq (sb.data_len + a) n payload g live f.base_lt
        (omega (arith, f.next_eq)) npos (omega arith)
      ∙ rw h.1 (
          rw h.0 (
            rw some_len (
              rw (segment_alloc_lem seq n payload g' g₁ g₂) (
                rw
                  (insert_segment_queue-empty grants sb seg (allocated n g') empty zero_count limit
                    npos)
                  (rw
                    (process_segment_queue-gap (record sb { seg_list = seg ∷ []; seg_count = 1 })
                      seg [] (allocated n g') a refl (omega (arith, f.next_eq)) refl apos
                      (omega arith))
                    refl)))))

-- A head of the queue at `next_seq` that fits is moved to the buffer.
process_segment_queue-next :
    (sb : StreamBuffer) (seg : TcpSegment) (g : Reassembler)
    → sb.seg_list ≡ seg ∷ []
    → seg.seq ≡ sb.next_seq
    → is_full sb seg.payload_len ≡ false
    → process_segment_queue sb g ≡ (
      remove_head [] (append_payload sb seg.payload seg.payload_len),
      segment_free seg g,
      0 + seg.payload_len,
    )
unfolding process_segment_queue process_loop process_head
process_segment_queue-next sb seg g e at room =
    let here : (seg.seq == sb.next_seq) ≡ true = ground arith in simp (e, here, room)

-- The data of a reassembly is the stream's, from `base_seq` on.
pub get_data-slice :
    (s : ℕ → ℕ) (sb : StreamBuffer) (b : List ℕ)
    → IsFilled s sb
    → sb.buffer ≡ some b
    → stream_buffer_get_data sb ≡ some (slice s sb.base_seq sb.data_len)
unfolding stream_buffer_get_data
get_data-slice s sb b f e =
    ap (first_bytes sb.data_len) e
    ∙ ap some (ap (λ o. take sb.data_len (bytes_of o)) (sym e) ∙ f.bytes)

-- The buffer behind the copies of two payloads.
filled : StreamBuffer → List ℕ → ℕ → TcpSegment → StreamBuffer
unfolding append_payload remove_head
filled sb payload a seg =
    remove_head [] (append_payload (append_payload sb payload a) seg.payload seg.payload_len)

insert_in_order-filled :
    (sb : StreamBuffer) (seg : TcpSegment) (a : ℕ) (payload : List ℕ) (g : Reassembler)
    → sb.seg_list ≡ seg ∷ []
    → seg.seq ≡ add32 sb.next_seq a
    → sb.data_len + a + seg.payload_len < 2 ^ 31
    → sb.data_len + a + seg.payload_len ≤ sb.max_buffer_size
    → insert_in_order sb (record { seq = sb.next_seq; payload = payload; payload_len = a }) g
      ≡ (some a, filled sb payload a seg, segment_free seg (count_bytes a (count_in_order g)))
unfolding insert_in_order filled is_full
insert_in_order-filled sb seg a payload g e at window fits =
    let sb₁ = append_payload sb payload a in
    let room : ltb sb.max_buffer_size (add32 sb.data_len a) ≡ false = ground arith in
    let room₁ : ltb sb.max_buffer_size (add32 (add32 sb.data_len a) seg.payload_len) ≡ false =
      ground arith in
    rw room (rw (process_segment_queue-next sb₁ seg (count_bytes a (count_in_order g)) e at room₁))

module _ (grants : ℕ → Bool) where
  -- Where one segment waits behind a gap of `a` bytes and the segment for the gap arrives, the
  -- reader gets the sender's bytes of both, behind those it had, and the queue is empty. The
  -- three together are to fit the buffer and end less than 2 ^ 31 bytes behind `base_seq`.
  pub gap_filled :
      (s : ℕ → ℕ) (sb : StreamBuffer) (seg : TcpSegment) (a : ℕ) (payload : List ℕ)
      (g : Reassembler)
      → Reassembles s sb
      → sb.buffer ≢ none
      → sb.seg_list ≡ seg ∷ []
      → seg.seq ≡ add32 sb.next_seq a
      → 0 < a
      → a < 2 ^ 16
      → sb.data_len + a + seg.payload_len < 2 ^ 31
      → sb.data_len + a + seg.payload_len ≤ sb.max_buffer_size
      → take a payload ≡ slice s sb.next_seq a
      → (r : Inserted) × (stream_buffer_insert_segment grants sb sb.next_seq (some payload) a g
          ≡ ok r)
        × (r.0 ≡ some a)
        × (stream_buffer_get_data r.1
            ≡ some (slice s sb.base_seq (sb.data_len + a + seg.payload_len)))
        × (r.1.seg_list ≡ [])
  unfolding filled insert_clipped
  gap_filled s sb seg a payload g r live e at pos small window fits bytes =
      let p : Piece = record { seq = sb.next_seq; payload = payload; payload_len = a } in
      let c : IsPiece s p = record {
        seq_lt = omega (arith, r.0.next_eq);
        len_lt = small;
        bytes = bytes;
      } in
      let run = insert_in_order-filled sb seg a payload (count_inserted g) e at window fits in
      let kept = rw run at (insert_in_order-Advanced s sb p (count_inserted g) r c refl) in
      let len : (filled sb payload a seg).data_len ≡ sb.data_len + a + seg.payload_len =
        omega arith in
      let here : (sb.next_seq == sb.next_seq) ≡ true = ground arith in
      (
        (
          some a,
          filled sb payload a seg,
          segment_free seg (count_bytes a (count_in_order (count_inserted g))),
        ),
        insert_inside grants sb sb.next_seq sb.data_len a payload g live r.0.base_lt r.0.next_eq pos
              (omega arith)
            ∙ rw here (ap ok run),
        refl,
        get_data-slice s (filled sb payload a seg) _ kept.0.0 refl
            ∙ ap some (ap (slice s sb.base_seq) len),
        refl,
      )
