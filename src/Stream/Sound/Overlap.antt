-- ===== src/Stream/Sound/Overlap.antt =====
-- `handle_queue_overlaps` under the policies that favor new data.
use dpdk_based_nids.Prelude.{
  ℕ, ◌+◌, ◌^◌, ◌≤◌, ◌<◌, ◌≡◌, suc, All, refl, arith, true, inl, inr, Bool-cases, List, [], ◌∷◌,
  length, add32, sub32, add64, to_u16,
}
use dpdk_based_nids.Stream.Queue.Overlap.{
  Pair, Met, remove_curr, free_new, keep, Overlaps, freed, kept, behind, after_meet, hits_start,
  hits_end, overlap_start, overlap_end, trim_start, contains, meet, overlap_loop,
  handle_queue_overlaps,
}
use dpdk_based_nids.Stream.Segment.{segment_free}
use dpdk_based_nids.Stream.Seq.Order.{gt_bounds, lt_bounds}
use dpdk_based_nids.Stream.Sound.Segment.{trim_end-IsCopy, trim_start-IsCopy}
use dpdk_based_nids.Stream.Spec.{IsCopy, IsQueue}
use dpdk_based_nids.Stream.State.{TcpSegment, StreamBuffer, Reassembler, OsPolicy, favors_new}

-- What stands where a test of case 2 or case 3 has passed.
module _ (new_end curr_end : ℕ) (p : Pair) (fresh_lt : p.fresh.seq < 2 ^ 32)
    (seq_lt : p.curr.seq < 2 ^ 32) (len_lt : p.curr.payload_len < 2 ^ 16)
    (end_lt : new_end < 2 ^ 32) (end_eq : add32 p.curr.seq p.curr.payload_len ≡ curr_end) where
  start_cut : hits_start new_end curr_end p ≡ true → sub32 new_end p.curr.seq ≤ p.curr.payload_len
  unfolding hits_start
  start_cut e =
      ground (arith, gt_bounds new_end p.curr.seq end_lt seq_lt, lt_bounds new_end curr_end end_lt)

  end_cut : hits_end new_end curr_end p ≡ true → sub32 p.fresh.seq p.curr.seq ≤ p.curr.payload_len
  unfolding hits_end
  end_cut e = ground (
    arith,
    gt_bounds p.fresh.seq p.curr.seq fresh_lt seq_lt,
    lt_bounds p.fresh.seq curr_end fresh_lt,
  )

trim_start-end :
    {s : ℕ → ℕ} (seg : TcpSegment) (new_seq seg_end : ℕ)
    → IsCopy s seg
    → new_seq < 2 ^ 32
    → add32 seg.seq seg.payload_len ≡ seg_end
    → sub32 new_seq seg.seq ≤ seg.payload_len
    → let t = trim_start new_seq (sub32 new_seq seg.seq) seg in add32 t.seq t.payload_len ≡ seg_end
unfolding trim_start
trim_start-end seg new_seq seg_end c lt e h = omega (arith, c.seq_lt, c.len_lt)

-- The loop ends with the new segment as it was, and a queue of copies behind `k` others.
abbrev pub OverlapKeeps : (ℕ → ℕ) → TcpSegment → ℕ → ℕ → Overlaps → Type 0
OverlapKeeps s fresh k m (freed r) = ⊥
OverlapKeeps s fresh k m (kept seg r) =
    (seg ≡ fresh) × (r.count ≡ k + length r.list) × (length r.list ≤ m) × All (IsCopy s) r.list

module _ (s : ℕ → ℕ) (fresh : TcpSegment) where
  behind-keeps :
      (k m : ℕ) (curr : TcpSegment) (o : Overlaps)
      → IsCopy s curr
      → OverlapKeeps s fresh (k + 1) m o
      → OverlapKeeps s fresh k (suc m) (behind curr o)
  behind-keeps k m curr (freed r) c h = h
  behind-keeps k m curr (kept seg r) c h = (h.0, omega arith, omega arith, (c, h.3))

  OverlapKeeps-le :
      (k m : ℕ) (o : Overlaps) → OverlapKeeps s fresh k m o → OverlapKeeps s fresh k (suc m) o
  OverlapKeeps-le k m (freed r) h = h
  OverlapKeeps-le k m (kept seg r) h = (h.0, h.1, omega arith, h.3)

module _ (s : ℕ → ℕ) (policy : OsPolicy) (new : favors_new policy ≡ true) where
  -- The pair after cases 2 and 3: the new segment as it was, the old one a copy up to `curr_end`.
  record IsTrimmed (curr_end : ℕ) (fresh : TcpSegment) (p : Pair) : Type 0 where
    copy : IsCopy s p.curr
    same : p.fresh ≡ fresh
    ends : add32 p.curr.seq p.curr.payload_len ≡ curr_end

  module _ (new_end curr_end : ℕ) (fresh : TcpSegment) (fresh_lt : fresh.seq < 2 ^ 32)
      (end_lt : new_end < 2 ^ 32) where
    overlap_start-IsTrimmed :
        (p : Pair)
        → IsTrimmed curr_end fresh p
        → IsTrimmed curr_end fresh (overlap_start policy new_end curr_end p)
    unfolding overlap_start
    overlap_start-IsTrimmed p t = elim (Bool-cases (hits_start new_end curr_end p)) [
      | inr miss ↦ rw miss t
      | inl hit ↦
          let cut =
            start_cut new_end curr_end p (rw t.same fresh_lt) t.copy.seq_lt t.copy.len_lt end_lt
              t.ends hit in
          rw hit (
            rw new (record {
              copy =
                  trim_start-IsCopy s p.curr new_end (sub32 new_end p.curr.seq) t.copy end_lt refl
                    cut;
              same = t.same;
              ends = trim_start-end p.curr new_end curr_end t.copy end_lt t.ends cut;
            }))
    ]

    overlap_end-IsCopy :
        (p : Pair)
        → IsTrimmed curr_end fresh p
        → let p' = overlap_end policy new_end curr_end p in IsCopy s p'.curr × (p'.fresh ≡ fresh)
    unfolding overlap_end
    overlap_end-IsCopy p t = elim (Bool-cases (hits_end new_end curr_end p)) [
      | inr miss ↦ rw miss (t.copy, t.same)
      | inl hit ↦
          let cut =
            end_cut new_end curr_end p (rw t.same fresh_lt) t.copy.seq_lt t.copy.len_lt end_lt
              t.ends hit in
          let len : to_u16 (sub32 p.fresh.seq p.curr.seq) ≤ p.curr.payload_len =
            omega (arith, t.copy.len_lt) in
          rw hit (
            rw new
              (trim_end-IsCopy s p.curr (to_u16 (sub32 p.fresh.seq p.curr.seq)) t.copy len, t.same))
    ]

  module _ (new_end : ℕ) (fresh : TcpSegment) (fresh_lt : fresh.seq < 2 ^ 32)
      (end_lt : new_end < 2 ^ 32) where
    -- One round never frees the new segment, and keeps a copy.
    abbrev MetKeeps : Met → Type 0
    MetKeeps remove_curr = Unit
    MetKeeps free_new = ⊥
    MetKeeps (keep p) = IsCopy s p.curr × (p.fresh ≡ fresh)

    meet-keeps :
        (curr : TcpSegment) (o : ℕ) → IsCopy s curr → MetKeeps (meet policy new_end fresh curr o)
    unfolding meet
    meet-keeps curr o c =
        let curr_end = add32 curr.seq curr.payload_len in
        let p : Pair = record { fresh = fresh; curr = curr; overlaps = o } in
        let t : IsTrimmed curr_end fresh p = record { copy = c; same = refl; ends = refl } in
        elim (Bool-cases (contains fresh new_end curr curr_end)) [
          | inl inside ↦ rw inside (rw new tt)
          | inr beside ↦ rw beside (
              overlap_end-IsCopy new_end curr_end fresh fresh_lt end_lt _
                (overlap_start-IsTrimmed new_end curr_end fresh fresh_lt end_lt p t))
        ]

    module _ (curr : TcpSegment) (rest : List TcpSegment) (c : IsCopy s curr)
        (next : TcpSegment → ℕ → ℕ → Reassembler → Overlaps)
        (ih : (k n o : ℕ) (g : Reassembler)
          → n ≡ k + length rest
          → n < 2 ^ 32
          → OverlapKeeps s fresh k (length rest) (next fresh n o g)) where
      after_meet-keeps :
          (k n o : ℕ) (g : Reassembler) (met : Met)
          → MetKeeps met
          → n ≡ k + suc (length rest)
          → n < 2 ^ 32
          → OverlapKeeps s fresh k (suc (length rest)) (after_meet curr rest fresh n o g next met)
      after_meet-keeps k n o g remove_curr h e lt =
          OverlapKeeps-le s fresh k (length rest) _
            (ih k (sub32 n 1) (add64 o 1) (segment_free curr g) (omega arith) (omega arith))
      after_meet-keeps k n o g free_new h e lt = absurd h
      after_meet-keeps k n o g (keep p) h e lt =
          behind-keeps s fresh k (length rest) p.curr _ h.0
            (rw h.1 (ih (k + 1) n p.overlaps g (omega arith) lt))

    overlap_loop-keeps :
        (list : List TcpSegment) (k n o : ℕ) (g : Reassembler)
        → All (IsCopy s) list
        → n ≡ k + length list
        → n < 2 ^ 32
        → OverlapKeeps s fresh k (length list) (overlap_loop policy new_end list fresh n o g)
    unfolding overlap_loop
    overlap_loop-keeps [] k n o g c e lt = (refl, e, omega arith, tt)
    overlap_loop-keeps (curr ∷ rest) k n o g c e lt =
        after_meet-keeps curr rest c.0 (overlap_loop policy new_end rest)
          (λ k n o g e lt. overlap_loop-keeps rest k n o g c.1 e lt) k n o g
          (meet policy new_end fresh curr o) (meet-keeps curr o c.0) e lt

-- The new segment stays as it was, and the queue is one of copies, no longer than before.
pub handle_queue_overlaps-keeps :
    (s : ℕ → ℕ) (sb : StreamBuffer) (fresh : TcpSegment) (g : Reassembler)
    → favors_new sb.os_policy ≡ true
    → fresh.seq < 2 ^ 32
    → IsQueue s sb.seg_list sb.seg_count
    → OverlapKeeps s fresh 0 (length sb.seg_list) (handle_queue_overlaps sb fresh g)
unfolding handle_queue_overlaps
handle_queue_overlaps-keeps s sb fresh g new lt q =
    overlap_loop-keeps s sb.os_policy new (add32 fresh.seq fresh.payload_len) fresh lt (omega arith)
      sb.seg_list 0 sb.seg_count sb.overlap_count g q.copies (omega (arith, q.counted)) q.count_lt
