-- ===== src/Stream/Segment.antt =====
-- Segments of src/stream_reassemble.c: `segment_alloc`, `segment_free`.
use dpdk_based_nids.Prelude.{ℕ, ◌+◌, Bool, List, Option, none, some, take, if◌then◌else◌}
use dpdk_based_nids.Stream.State.{TcpSegment, Reassembler, use_memory, release_memory}

-- sizeof(tcp_segment_t) with 8-byte pointers
abbrev pub segment_size : ℕ
segment_size = 24

-- `grants n` says whether the n-th call of `rte_malloc` returns memory.
module _ (grants : ℕ → Bool) where
  unfoldable pub rte_malloc : Reassembler → Bool × Reassembler
  rte_malloc g = (grants g.mallocs, record g { mallocs = g.mallocs + 1 })

  unfoldable pub segment_alloc : ℕ → List ℕ → ℕ → Reassembler → Option TcpSegment × Reassembler
  unfolding rte_malloc use_memory
  segment_alloc seq payload payload_len g =
      let (got_seg, g₁) = rte_malloc g in
      let (got_payload, g₂) = rte_malloc g₁ in
      if got_seg
      then if got_payload
        then (
          some
              (record { seq = seq; payload_len = payload_len; payload = take payload_len payload }),
          use_memory (segment_size + payload_len) g₂,
        )
        else (none, g₂)
      else (none, g₁)

-- The segment and its payload leave the heap; only the statistics see it.
unfoldable pub segment_free : TcpSegment → Reassembler → Reassembler
unfolding release_memory
segment_free seg g = release_memory segment_size (release_memory seg.payload_len g)
