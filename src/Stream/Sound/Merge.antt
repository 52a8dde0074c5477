-- ===== src/Stream/Sound/Merge.antt =====
-- `try_merge_segments`: a merged segment is a copy of the stream.
use mathlib.Core.Path.{ap₂}
use dpdk_based_nids.Prelude.{
  ℕ, suc, ◌+◌, ◌-◌, ◌^◌, ◌≤◌, ◌<◌, ◌≡◌, ap, ◌∙◌, arith, Bool, true, false, inl, inr, Bool-cases,
  List, [], ◌∷◌, ◌++◌, All, length, take_all, add32, sub32, to_u16, lt→ltb,
}
use dpdk_based_nids.Stream.Queue.Merge.{
  Merge, contained, merged, separate, merged_payload, Merged, after_merge, merge_pair, merge_from,
  try_merge_list, try_merge_segments,
}
use dpdk_based_nids.Stream.Segment.{segment_free}
use dpdk_based_nids.Stream.Seq.Order.{ge_bounds, gt_bounds, gt_of_not_le}
use dpdk_based_nids.Stream.Seq.{seq_compare, is_ge, is_le}
use dpdk_based_nids.Stream.Sound.Segment.{take_of_copy, drop_of_copy}
use dpdk_based_nids.Stream.Spec.Slice.{slice, slice-append, length-slice}
use dpdk_based_nids.Stream.Spec.{IsCopy, IsQueue, Extends, Reassembles}
use dpdk_based_nids.Stream.State.{TcpSegment, StreamBuffer, Reassembler}

abbrev end_of : TcpSegment → ℕ
end_of seg = add32 seg.seq seg.payload_len

abbrev overlap : TcpSegment → TcpSegment → ℕ
overlap curr next = sub32 (end_of curr) next.seq

module _ (s : ℕ → ℕ) (curr next : TcpSegment) (c : IsCopy s curr) (d : IsCopy s next)
    (touch : is_ge (seq_compare (add32 curr.seq curr.payload_len) next.seq) ≡ true)
    (beyond : is_le
        (seq_compare (add32 next.seq next.payload_len) (add32 curr.seq curr.payload_len))
      ≡ false) where
  -- The overlap lies within `next`, and the merged length is exact.
  cut :
      (overlap curr next < next.payload_len)
      × (sub32 (end_of next) curr.seq ≡ curr.payload_len + (next.payload_len - overlap curr next))
  cut =
      let g =
        gt_bounds (end_of next) (end_of curr) (omega arith) (omega arith) (gt_of_not_le _ beyond) in
      let h = ge_bounds (end_of curr) next.seq (omega arith) d.seq_lt touch in
      (
        omega (arith, g, h, c.seq_lt, d.seq_lt, c.len_lt, d.len_lt),
        omega (arith, g, h, c.seq_lt, d.seq_lt, c.len_lt, d.len_lt),
      )

  merged_payload-slice :
      merged_payload curr next
      ≡ slice s curr.seq (curr.payload_len + (next.payload_len - overlap curr next))
  unfolding merged_payload
  merged_payload-slice =
      let rest = next.payload_len - overlap curr next in
      rw (lt→ltb _ _ cut.0) (
        ap₂ (◌++◌) c.bytes (
          drop_of_copy s next.seq (end_of curr) next.payload_len (overlap curr next) rest
            next.payload (omega (arith, cut)) (omega (arith, d.seq_lt)) d.bytes)
        ∙ slice-append s curr.seq (end_of curr) curr.payload_len rest (omega arith))

  -- Also where the sum of the lengths does not fit 16 bits and is cut.
  merged-IsCopy : IsCopy s (record {
    seq = curr.seq;
    payload_len = to_u16 (sub32 (end_of next) curr.seq);
    payload = merged_payload curr next;
  })
  merged-IsCopy =
      let n = curr.payload_len + (next.payload_len - overlap curr next) in
      record {
        seq_lt = c.seq_lt;
        len_lt = omega arith;
        bytes = take_of_copy s curr.seq n _ (merged_payload curr next) (omega (arith, cut)) (
            take_all (merged_payload curr next) n
              (omega (arith, ap length merged_payload-slice, length-slice s curr.seq n))
            ∙ merged_payload-slice);
      }

-- A list of copies behind `k` other segments, no longer than `m`.
abbrev MergedKeeps : (ℕ → ℕ) → ℕ → ℕ → Merged → Type 0
MergedKeeps s k m r = (r.1 ≡ k + length r.0) × (length r.0 ≤ m) × All (IsCopy s) r.0

module _ (s : ℕ → ℕ) where
  abbrev MergeKeeps : Merge → Type 0
  MergeKeeps contained = Unit
  MergeKeeps (merged both g) = IsCopy s both
  MergeKeeps (separate g) = Unit

  module _ (curr next : TcpSegment) (c : IsCopy s curr) (rest : List TcpSegment)
      (loop : TcpSegment → ℕ → Reassembler → Merged)
      (ih : (curr : TcpSegment) (k n : ℕ) (g : Reassembler)
        → IsCopy s curr
        → n ≡ k + suc (length rest)
        → n < 2 ^ 32
        → MergedKeeps s k (suc (length rest)) (loop curr n g)) where
    after_merge-keeps :
        (k n : ℕ) (m : Merge) (g : Reassembler)
        → IsCopy s next
        → MergeKeeps m
        → n ≡ k + suc (suc (length rest))
        → n < 2 ^ 32
        → MergedKeeps s k (suc (suc (length rest))) (after_merge loop curr next n m g)
    after_merge-keeps k n contained g d h e lt =
        let r = ih curr k (sub32 n 1) (segment_free next g) c (omega arith) (omega arith) in
        (r.0, omega (arith, r.1), r.2)
    after_merge-keeps k n (merged both g₁) g d h e lt =
        let r = ih both k (sub32 n 1) (segment_free next g₁) h (omega arith) (omega arith) in
        (r.0, omega (arith, r.1), r.2)
    after_merge-keeps k n (separate g₁) g d h e lt =
        let r = ih next (k + 1) n g₁ d (omega arith) lt in
        (omega (arith, r.0), omega (arith, r.1), (c, r.2))

  module _ (grants : ℕ → Bool) where
    merge_pair-keeps :
        (curr next : TcpSegment) (g : Reassembler)
        → IsCopy s curr
        → IsCopy s next
        → MergeKeeps (merge_pair grants curr next g)
    unfolding merge_pair
    merge_pair-keeps curr next g c d =
        elim (Bool-cases (is_ge (seq_compare (end_of curr) next.seq))) [
          | inr apart ↦ rw apart tt
          | inl touch ↦ elim (Bool-cases (is_le (seq_compare (end_of next) (end_of curr)))) [
            | inl inside ↦ rw touch (rw inside tt)
            | inr beyond ↦ elim (Bool-cases (grants g.mallocs)) [
              | inl got ↦ rw touch (rw beyond (rw got (merged-IsCopy s curr next c d touch beyond)))
              | inr failed ↦ rw touch (rw beyond (rw failed tt))
            ]
          ]
        ]

    merge_from-keeps :
        (rest : List TcpSegment) (curr : TcpSegment) (k n : ℕ) (g : Reassembler)
        → All (IsCopy s) rest
        → IsCopy s curr
        → n ≡ k + suc (length rest)
        → n < 2 ^ 32
        → MergedKeeps s k (suc (length rest)) (merge_from grants rest curr n g)
    unfolding merge_from
    merge_from-keeps [] curr k n g ds c e lt = (e, omega arith, (c, tt))
    merge_from-keeps (next ∷ rest) curr k n g ds c e lt =
        after_merge-keeps curr next c rest (merge_from grants rest)
          (λ curr k n g. merge_from-keeps rest curr k n g ds.1) k n (merge_pair grants curr next g)
          g ds.0 (merge_pair-keeps curr next g c ds.0) e lt

    try_merge_list-keeps :
        (list : List TcpSegment) (n : ℕ) (g : Reassembler)
        → IsQueue s list n
        → MergedKeeps s 0 (length list) (try_merge_list grants list n g)
    unfolding try_merge_list
    try_merge_list-keeps [] n g q = (q.counted, omega arith, tt)
    try_merge_list-keeps (curr ∷ rest) n g q =
        merge_from-keeps rest curr 0 n g q.copies.1 q.copies.0 (omega arith) q.count_lt

    -- Merging keeps the buffer, and the queue is one of copies, no longer than before.
    pub try_merge_segments-Reassembles :
        (sb : StreamBuffer) (g : Reassembler)
        → Reassembles s sb
        → let sb' = (try_merge_segments grants sb g).0 in
          Reassembles s sb' × (sb'.seg_count ≤ sb.seg_count)
    unfolding try_merge_segments
    try_merge_segments-Reassembles sb g (f, q) =
        let r = try_merge_list-keeps sb.seg_list sb.seg_count g q in
        (
          (
            ground arith,
            record {
              counted = omega (arith, r.0);
              count_lt = omega (arith, r.0, r.1, q.counted, q.count_lt);
              copies = r.2;
            },
          ),
          omega (arith, r.0, r.1, q.counted),
        )

    pub try_merge_segments-Extends :
        (o sb : StreamBuffer) (g : Reassembler)
        → Extends o sb
        → Extends o (try_merge_segments grants sb g).0
    unfolding try_merge_segments
    try_merge_segments-Extends o sb g x = ground arith
