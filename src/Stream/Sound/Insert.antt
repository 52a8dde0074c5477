-- ===== src/Stream/Sound/Insert.antt =====
-- `insert_segment_queue` under the policies that favor new data.
use dpdk_based_nids.Prelude.{
  ℕ, suc, ◌+◌, ◌^◌, ◌<◌, ◌≡◌, refl, arith, Bool, true, ◌&&◌, inl, inr, Bool-cases, List, [], ◌∷◌,
  All, Option, none, some, length, add32, ◌==◌, leb, ltb, Ensures,
}
use dpdk_based_nids.Stream.Queue.Insert.{
  insert_sorted, with_rest, link_segment, place_segment, insert_segment_queue,
}
use dpdk_based_nids.Stream.Queue.Overlap.{Overlaps, freed, kept, handle_queue_overlaps}
use dpdk_based_nids.Stream.Seq.{seq_compare, is_lt}
use dpdk_based_nids.Stream.Sound.Merge.{try_merge_segments-Reassembles, try_merge_segments-Extends}
use dpdk_based_nids.Stream.Sound.Overlap.{OverlapKeeps, handle_queue_overlaps-keeps}
use dpdk_based_nids.Stream.Spec.{IsCopy, IsQueue, IsFilled, Reassembles, Extends, Advanced}
use dpdk_based_nids.Stream.State.{TcpSegment, StreamBuffer, Reassembler, favors_new}

module _ (s : ℕ → ℕ) where
  abbrev SortedKeeps : ℕ → Option (List TcpSegment) → Type 0
  SortedKeeps n none = Unit
  SortedKeeps n (some l) = (length l ≡ suc n) × All (IsCopy s) l

  behind-keeps :
      (n : ℕ) (curr : TcpSegment) (o : Option (List TcpSegment))
      → IsCopy s curr
      → SortedKeeps n o
      → SortedKeeps (suc n) (elim o [ none ↦ none | some l ↦ some (curr ∷ l) ])
  behind-keeps n curr none c h = tt
  behind-keeps n curr (some l) c h = (omega arith, (c, h.1))

  insert_sorted-keeps :
      (fresh : TcpSegment) (list : List TcpSegment)
      → IsCopy s fresh
      → All (IsCopy s) list
      → SortedKeeps (length list) (insert_sorted fresh list)
  unfolding insert_sorted
  insert_sorted-keeps fresh [] c d = (refl, (c, tt))
  insert_sorted-keeps fresh (curr ∷ rest) c d =
      elim (Bool-cases (fresh.seq == curr.seq && fresh.payload_len == curr.payload_len)) [
        | inl same ↦ rw same tt
        | inr new ↦ elim (Bool-cases (is_lt (seq_compare fresh.seq curr.seq))) [
          | inl before ↦ rw new (rw before (refl, (c, d)))
          | inr after ↦ rw new (
              rw after
                (behind-keeps (length rest) curr _ d.0 (insert_sorted-keeps fresh rest c d.1)))
        ]
      ]

  module _ (grants : ℕ → Bool) (o : StreamBuffer) where
    link_segment-Advanced :
        (sb : StreamBuffer) (fresh : TcpSegment) (g : Reassembler) (l : Option (List TcpSegment))
        → IsFilled s sb
        → IsQueue s sb.seg_list sb.seg_count
        → Extends o sb
        → sb.seg_count + 1 < 2 ^ 32
        → SortedKeeps (length sb.seg_list) l
        → Advanced s o (link_segment grants sb fresh g l).1
    unfolding link_segment
    link_segment-Advanced sb fresh g none f q x room h = ((f, q), x)
    link_segment-Advanced sb fresh g (some list) f q x room h =
        let sb₁ = record sb { seg_list = list; seg_count = add32 sb.seg_count 1 } in
        let r₁ : Reassembles s sb₁ = (
          ground arith,
          record { counted = omega (arith, q.counted, h.0); count_lt = omega arith; copies = h.1 },
        ) in
        elim (Bool-cases (ltb 10 (add32 sb.seg_count 1))) [
          | inr few ↦ rw few (r₁, ground arith)
          | inl many ↦ rw many (
            (try_merge_segments-Reassembles s grants sb₁ g r₁).0,
            try_merge_segments-Extends s grants o sb₁ g (ground arith),
          )
        ]

    place_segment-Advanced :
        (sb : StreamBuffer) (fresh : TcpSegment) (v : Overlaps)
        → IsCopy s fresh
        → IsFilled s sb
        → Extends o sb
        → sb.seg_count + 1 < 2 ^ 32
        → IsQueue s sb.seg_list sb.seg_count
        → OverlapKeeps s fresh 0 (length sb.seg_list) v
        → Ensures (λ r. Advanced s o r.1) (place_segment grants sb v)
    unfolding place_segment
    place_segment-Advanced sb fresh (freed r) c f x room q h = absurd h
    place_segment-Advanced sb fresh (kept seg r) c f x room q h =
        let f₁ : IsFilled s (with_rest sb r) = ground arith in
        let x₁ : Extends o (with_rest sb r) = ground arith in
        let q₁ : IsQueue s r.list r.count = record {
          counted = omega (arith, h.1);
          count_lt = omega (arith, h.1, h.2, q.counted);
          copies = h.3;
        } in
        elim (Bool-cases (seg.payload_len == 0)) [
          | inl empty ↦ rw empty ((f₁, q₁), x₁)
          | inr bytes ↦ rw bytes (
              link_segment-Advanced (with_rest sb r) seg r.reassembler _ f₁ q₁ x₁
                (omega (arith, h.1, h.2, q.counted))
                (insert_sorted-keeps seg r.list (rw h.0 c) h.3))
        ]

    pub insert_segment_queue-Advanced :
        (sb : StreamBuffer) (fresh : TcpSegment) (g : Reassembler)
        → favors_new sb.os_policy ≡ true
        → g.config.max_segments < 2 ^ 32
        → IsCopy s fresh
        → Advanced s o sb
        → Ensures (λ r. Advanced s o r.1) (insert_segment_queue grants sb fresh g)
    unfolding insert_segment_queue
    insert_segment_queue-Advanced sb fresh g new limit c r =
        elim (Bool-cases (leb g.config.max_segments sb.seg_count)) [
          | inl full ↦ rw full r
          | inr room ↦ rw room (
              place_segment-Advanced sb fresh (handle_queue_overlaps sb fresh g) c r.0.0 r.1
                (ground arith) r.0.1 (handle_queue_overlaps-keeps s sb fresh g new c.seq_lt r.0.1))
        ]
