-- ===== src/Stream/Delivery/InOrder.antt =====
-- Segments at the next expected sequence number, and segments that bring nothing new.
use dpdk_based_nids.Prelude.{
  ℕ, ◌+◌, ◌^◌, ◌≤◌, ◌<◌, ◌≡◌, ◌≢◌, refl, ◌∙◌, ap, arith, Bool, true, false, List, ◌++◌, Option,
  none, some, length, take, length-take, add32, ltb, ◌==◌, ok,
}
use dpdk_based_nids.Stream.Buffer.Insert.{
  Piece, clip_to_window, handle_buffer_overlap, insert_in_order, insert_out_of_order,
  insert_trimmed, insert_clipped, insert_piece, insert_at, count_inserted, count_in_order,
  count_out_of_order, stream_buffer_insert_segment,
}
use dpdk_based_nids.Stream.Buffer.{stream_buffer_get_data}
use dpdk_based_nids.Stream.Queue.Process.{bytes_of, is_full, append_payload}
use dpdk_based_nids.Stream.Seq.{seq_compare}
use dpdk_based_nids.Stream.Sound.Process.{take-write_at, IsFilled-length}
use dpdk_based_nids.Stream.Spec.{IsFilled}
use dpdk_based_nids.Stream.State.{StreamBuffer, Reassembler, count_dropped}

-- A segment at offset `k` of the buffer is within the window, as long as its end is less than
-- 2 ^ 31 from the base.
pub clip_inside :
    (base_seq k : ℕ) (p : Piece)
    → base_seq < 2 ^ 32
    → p.seq ≡ add32 base_seq k
    → 0 < p.payload_len
    → k + p.payload_len < 2 ^ 31
    → clip_to_window base_seq p ≡ some p
unfolding clip_to_window seq_compare
clip_inside base_seq k p lt e pos small = ground arith

-- The whole segment has been reassembled before.
handled_before :
    (base_seq k m : ℕ) (p : Piece)
    → base_seq < 2 ^ 32
    → p.seq ≡ add32 base_seq k
    → 0 < p.payload_len
    → k + p.payload_len ≤ m
    → m < 2 ^ 31
    → (handle_buffer_overlap (add32 base_seq m) p ≡ (false, record p { payload_len = 0 }))
      × ((p.seq == add32 base_seq m) ≡ false)
unfolding handle_buffer_overlap seq_compare
handled_before base_seq k m p lt e pos le small = (ground arith, ground arith)

module _ (grants : ℕ → Bool) where
  insert_at_live :
      (buffer : Option (List ℕ)) (sb : StreamBuffer) (p : Piece) (g : Reassembler)
      → buffer ≢ none
      → insert_at grants buffer sb p g ≡ insert_piece grants sb p g
  insert_at_live none sb p g live = absurd (live refl)
  insert_at_live (some b) sb p g live = refl

  -- A segment in the window goes to the branch for its place, with the insertion counted.
  pub insert_inside :
      (sb : StreamBuffer) (seq k n : ℕ) (payload : List ℕ) (g : Reassembler)
      → sb.buffer ≢ none
      → sb.base_seq < 2 ^ 32
      → seq ≡ add32 sb.base_seq k
      → 0 < n
      → k + n < 2 ^ 31
      → stream_buffer_insert_segment grants sb seq (some payload) n g
        ≡ insert_clipped grants sb
            (some (record { seq = seq; payload = payload; payload_len = n }))
            (count_inserted g)
  unfolding stream_buffer_insert_segment insert_piece
  insert_inside sb seq k n payload g live lt e pos small =
      let p : Piece = record { seq = seq; payload = payload; payload_len = n } in
      let z : (n == 0) ≡ false = ground arith in
      rw z (
        insert_at_live sb.buffer sb p g live
        ∙ ap (λ c. insert_clipped grants sb c (count_inserted g))
            (clip_inside sb.base_seq k p lt e pos small))

  -- A segment that lies wholly between `base_seq` and `next_seq` (a retransmission) is answered by
  -- 0 and leaves the stream buffer exactly as it was, under every policy, as long as the buffer
  -- holds less than 2 ^ 31 bytes.
  pub retransmission_ignored :
      (s : ℕ → ℕ) (sb : StreamBuffer) (k n : ℕ) (payload : List ℕ) (g : Reassembler)
      → IsFilled s sb
      → sb.buffer ≢ none
      → 0 < n
      → k + n ≤ sb.data_len
      → sb.data_len < 2 ^ 31
      → stream_buffer_insert_segment grants sb (add32 sb.base_seq k) (some payload) n g
        ≡ ok (some 0, sb, count_out_of_order (count_inserted g))
  unfolding insert_clipped insert_out_of_order insert_trimmed
  retransmission_ignored s sb k n payload g f live pos le small =
      let seq = add32 sb.base_seq k in
      let p : Piece = record { seq = seq; payload = payload; payload_len = n } in
      let h = handled_before sb.base_seq k sb.data_len p f.base_lt refl pos le small in
      insert_inside sb seq k n payload g live f.base_lt refl pos (omega arith)
      ∙ simp (f.next_eq, h.1, h.0)

  -- A segment at `next_seq` that does not fit the buffer is answered by -1; the stream buffer
  -- stays as it was, and the segment is counted as dropped.
  pub in_order_full :
      (s : ℕ → ℕ) (sb : StreamBuffer) (n : ℕ) (payload : List ℕ) (g : Reassembler)
      → IsFilled s sb
      → sb.buffer ≢ none
      → 0 < n
      → n < 2 ^ 16
      → sb.data_len + n < 2 ^ 31
      → sb.max_buffer_size < sb.data_len + n
      → stream_buffer_insert_segment grants sb sb.next_seq (some payload) n g
        ≡ ok (none, sb, count_dropped (count_in_order (count_inserted g)))
  unfolding insert_clipped insert_in_order is_full
  in_order_full s sb n payload g f live pos small fit over =
      let here : (sb.next_seq == sb.next_seq) ≡ true = ground arith in
      let full : ltb sb.max_buffer_size (add32 sb.data_len n) ≡ true = ground arith in
      insert_inside sb sb.next_seq sb.data_len n payload g live f.base_lt f.next_eq pos fit
      ∙ rw here (rw full refl)

-- The data that a reader gets after a copy to the end of the buffer.
pub get_data-append_payload :
    (s : ℕ → ℕ) (sb : StreamBuffer) (payload : List ℕ) (n : ℕ)
    → IsFilled s sb
    → n ≤ length payload
    → is_full sb n ≡ false
    → n < 2 ^ 16
    → stream_buffer_get_data (append_payload sb payload n)
      ≡ some (take sb.data_len (bytes_of sb.buffer) ++ take n payload)
unfolding stream_buffer_get_data append_payload is_full
get_data-append_payload s sb payload n f long room small =
    let len : length (take n payload) ≡ n = omega (arith, length-take n payload) in
    let sum : add32 sb.data_len n ≡ sb.data_len + length (take n payload) =
      omega (arith, f.fits, f.small) in
    rw sum (
      ap some
        (take-write_at sb.data_len (take n payload) (bytes_of sb.buffer) (IsFilled-length s sb f)))
