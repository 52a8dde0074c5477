-- ===== src/Stream/Queue/Overlap.antt =====
-- `handle_queue_overlaps` of src/stream_reassemble.c.
use dpdk_based_nids.Prelude.{
  ℕ, ◌+◌, ◌-◌, ◌^◌, Bool, ◌&&◌, List, [], ◌∷◌, ◌++◌, add32, sub32, add64, to_u16, take, drop,
  if◌then◌else◌,
}
use dpdk_based_nids.Stream.Segment.{segment_free}
use dpdk_based_nids.Stream.Seq.{seq_compare, is_lt, is_le, is_gt, is_ge}
use dpdk_based_nids.Stream.State.{TcpSegment, StreamBuffer, Reassembler, OsPolicy, favors_new}

-- `memmove(p, p + k, n)` within one allocation.
unfoldable pub move_front : ℕ → ℕ → List ℕ → List ℕ
move_front k n p = take n (drop k p) ++ drop n p

-- `seq += k` up to `new_seq`, the payload moved to the front, `payload_len -= k`.
unfoldable pub trim_start : ℕ → ℕ → TcpSegment → TcpSegment
unfolding move_front
trim_start new_seq k seg = record {
  seq = new_seq;
  payload_len = to_u16 (seg.payload_len + 2 ^ 32 - k);
  payload = move_front k (seg.payload_len - k) seg.payload;
}

-- The new segment, the current one of the queue and `overlap_count`.
pub record Pair : Type 0 where
  pub fresh : TcpSegment
  pub curr : TcpSegment
  pub overlaps : ℕ

-- Case 1: `new_seg` contains `curr`.
unfoldable pub contains : TcpSegment → ℕ → TcpSegment → ℕ → Bool
contains fresh new_end curr curr_end =
    is_le (seq_compare fresh.seq curr.seq) && is_ge (seq_compare new_end curr_end)

-- Case 2: `new_seg` overlaps the start of `curr`.
unfoldable pub hits_start : ℕ → ℕ → Pair → Bool
hits_start new_end curr_end p =
    is_lt (seq_compare p.fresh.seq p.curr.seq)
    && is_gt (seq_compare new_end p.curr.seq)
    && is_lt (seq_compare new_end curr_end)

unfoldable pub overlap_start : OsPolicy → ℕ → ℕ → Pair → Pair
overlap_start policy new_end curr_end p =
    if hits_start new_end curr_end p
    then if favors_new policy
      then record p {
        curr = trim_start new_end (sub32 new_end p.curr.seq) p.curr;
        overlaps = add64 p.overlaps 1;
      }
      else record p {
        fresh = record (p.fresh) { payload_len = to_u16 (sub32 p.curr.seq p.fresh.seq) };
        overlaps = add64 p.overlaps 1;
      }
    else p

-- Case 3: `new_seg` overlaps the end of `curr`.
unfoldable pub hits_end : ℕ → ℕ → Pair → Bool
hits_end new_end curr_end p =
    is_gt (seq_compare p.fresh.seq p.curr.seq)
    && is_lt (seq_compare p.fresh.seq curr_end)
    && is_ge (seq_compare new_end curr_end)

unfoldable pub overlap_end : OsPolicy → ℕ → ℕ → Pair → Pair
overlap_end policy new_end curr_end p =
    if hits_end new_end curr_end p
    then if favors_new policy
      then record p {
        curr = record (p.curr) { payload_len = to_u16 (sub32 p.fresh.seq p.curr.seq) };
        overlaps = add64 p.overlaps 1;
      }
      else record p {
        fresh = trim_start curr_end (sub32 curr_end p.fresh.seq) p.fresh;
        overlaps = add64 p.overlaps 1;
      }
    else p

pub data Met : Type 0 where
  remove_curr : Met
  free_new : Met
  keep : Pair → Met

-- One round of the loop. `curr_end` and `new_end` are not computed again when a segment is trimmed.
unfoldable pub meet : OsPolicy → ℕ → TcpSegment → TcpSegment → ℕ → Met
meet policy new_end fresh curr overlaps =
    let curr_end = add32 curr.seq curr.payload_len in
    if contains fresh new_end curr curr_end
    then if favors_new policy then remove_curr else free_new
    else keep (
        overlap_end policy new_end curr_end (
          overlap_start policy new_end curr_end
            (record { fresh = fresh; curr = curr; overlaps = overlaps })))

-- What the loop leaves: the queue, its count, `overlap_count`, the file-level state.
pub record Rest : Type 0 where
  pub list : List TcpSegment
  pub count : ℕ
  pub overlaps : ℕ
  pub reassembler : Reassembler

-- `freed`: the caller's `new_seg` has been freed.
pub data Overlaps : Type 0 where
  freed : Rest → Overlaps
  kept : TcpSegment → Rest → Overlaps

abbrev pub behind : TcpSegment → Overlaps → Overlaps
behind c (freed r) = freed (record r { list = c ∷ r.list })
behind c (kept s r) = kept s (record r { list = c ∷ r.list })

-- The rest of a round, given the loop over the rest of the list.
abbrev pub after_meet :
    TcpSegment
    → List TcpSegment
    → TcpSegment
    → ℕ
    → ℕ
    → Reassembler
    → (TcpSegment → ℕ → ℕ → Reassembler → Overlaps)
    → Met
    → Overlaps
after_meet curr rest fresh n o g next remove_curr =
    next fresh (sub32 n 1) (add64 o 1) (segment_free curr g)
after_meet curr rest fresh n o g next free_new =
    freed
      (record { list = curr ∷ rest; count = n; overlaps = o; reassembler = segment_free fresh g })
after_meet curr rest fresh n o g next (keep p) = behind p.curr (next p.fresh n p.overlaps g)

-- The loop over the queue, with its count and `overlap_count`.
unfoldable pub overlap_loop :
    OsPolicy → ℕ → List TcpSegment → TcpSegment → ℕ → ℕ → Reassembler → Overlaps
overlap_loop policy new_end [] fresh n o g =
    kept fresh (record { list = []; count = n; overlaps = o; reassembler = g })
overlap_loop policy new_end (curr ∷ rest) fresh n o g =
    after_meet curr rest fresh n o g (overlap_loop policy new_end rest)
      (meet policy new_end fresh curr o)

unfoldable pub handle_queue_overlaps : StreamBuffer → TcpSegment → Reassembler → Overlaps
handle_queue_overlaps sb new_seg g =
    overlap_loop sb.os_policy (add32 new_seg.seq new_seg.payload_len) sb.seg_list new_seg
      sb.seg_count sb.overlap_count g
