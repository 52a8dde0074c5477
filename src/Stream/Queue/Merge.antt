-- ===== src/Stream/Queue/Merge.antt =====
-- `try_merge_segments` of src/stream_reassemble.c.
use dpdk_based_nids.Prelude.{
  ℕ, ◌-◌, Bool, List, [], ◌∷◌, ◌++◌, add32, sub32, to_u16, take, drop, ltb, if◌then◌else◌,
}
use dpdk_based_nids.Stream.Segment.{rte_malloc, segment_free}
use dpdk_based_nids.Stream.Seq.{seq_compare, is_ge, is_le}
use dpdk_based_nids.Stream.State.{TcpSegment, StreamBuffer, Reassembler}

-- What one round of the loop does with `curr` and `next`.
pub data Merge : Type 0 where
  contained : Merge
  merged : TcpSegment → Reassembler → Merge
  separate : Reassembler → Merge

-- The new allocation: `curr`'s bytes, and `next`'s from `overlap` on.
unfoldable pub merged_payload : TcpSegment → TcpSegment → List ℕ
merged_payload curr next =
    let overlap = sub32 (add32 curr.seq curr.payload_len) next.seq in
    take curr.payload_len curr.payload
    ++ (if ltb overlap next.payload_len
        then take (next.payload_len - overlap) (drop overlap next.payload)
        else [])

-- The list from `curr` on, `seg_count` and the file-level state.
abbrev pub Merged : Type 0
Merged = List TcpSegment × ℕ × Reassembler

-- The rest of a round, given the loop over the segments behind `next`.
abbrev pub after_merge :
    (TcpSegment → ℕ → Reassembler → Merged)
    → TcpSegment
    → TcpSegment
    → ℕ
    → Merge
    → Reassembler
    → Merged
after_merge loop curr next n contained g = loop curr (sub32 n 1) (segment_free next g)
after_merge loop curr next n (merged both g₁) g = loop both (sub32 n 1) (segment_free next g₁)
after_merge loop curr next n (separate g₁) g =
    let (list, n', g') = loop next n g₁ in (curr ∷ list, n', g')

module _ (grants : ℕ → Bool) where
  unfoldable pub merge_pair : TcpSegment → TcpSegment → Reassembler → Merge
  unfolding rte_malloc merged_payload
  merge_pair curr next g =
      let curr_end = add32 curr.seq curr.payload_len in
      let next_end = add32 next.seq next.payload_len in
      let (got, g₁) = rte_malloc grants g in
      if is_ge (seq_compare curr_end next.seq)
      then if is_le (seq_compare next_end curr_end)
        then contained
        else if got
        then merged
            (record {
              seq = curr.seq;
              payload_len = to_u16 (sub32 next_end curr.seq);
              payload = merged_payload curr next;
            })
            g₁
        else separate g₁
      else separate g

  -- The loop over the segments behind `curr`.
  unfoldable pub merge_from : List TcpSegment → TcpSegment → ℕ → Reassembler → Merged
  merge_from [] curr n g = (curr ∷ [], n, g)
  merge_from (next ∷ rest) curr n g =
      after_merge (merge_from rest) curr next n (merge_pair curr next g) g

  unfoldable pub try_merge_list : List TcpSegment → ℕ → Reassembler → Merged
  unfolding merge_from
  try_merge_list [] n g = ([], n, g)
  try_merge_list (curr ∷ rest) n g = merge_from rest curr n g

  unfoldable pub try_merge_segments : StreamBuffer → Reassembler → StreamBuffer × Reassembler
  try_merge_segments sb g =
      let (list, n, g') = try_merge_list sb.seg_list sb.seg_count g in
      (record sb { seg_list = list; seg_count = n }, g')
