-- ===== src/Stream/Memory.antt =====
-- The `memory_used` statistic of src/stream_reassemble.c.
use dpdk_based_nids.Prelude.{ℕ, ◌+◌, ◌^◌, ◌≤◌, ◌<◌, ◌≡◌, refl, arith, Bool, true, List, some}
use dpdk_based_nids.Stream.Delivery.Gap.{new_segment}
use dpdk_based_nids.Stream.Queue.Overlap.{trim_start}
use dpdk_based_nids.Stream.Segment.{segment_size, segment_alloc, segment_free}
use dpdk_based_nids.Stream.State.{TcpSegment, Reassembler}

abbrev pub used : Reassembler → ℕ
used g = g.stats.memory_used

-- A segment that is freed as it was allocated gives back exactly what its allocation took from
-- the statistic, as long as that does not overflow.
pub segment_free-segment_alloc :
    (grants : ℕ → Bool) (seq n : ℕ) (payload : List ℕ) (g : Reassembler)
    → grants g.mallocs ≡ true
    → grants (g.mallocs + 1) ≡ true
    → n < 2 ^ 16
    → used g + segment_size + n < 2 ^ 64
    → let (got, g') = segment_alloc grants seq payload n g in
      (got ≡ some (new_segment seq payload n))
      × (used g' ≡ used g + segment_size + n)
      × (used (segment_free (new_segment seq payload n) g') ≡ used g)
unfolding segment_alloc segment_free
segment_free-segment_alloc grants seq n payload g a b small word =
    rw a (rw b (refl, omega arith, omega arith))

-- A segment whose start has been trimmed by `k` bytes gives back `k` bytes less than it held.
pub trimmed_segment_leaks :
    (seg : TcpSegment) (new_seq k : ℕ) (g : Reassembler)
    → seg.payload_len < 2 ^ 16
    → k ≤ seg.payload_len
    → segment_size + seg.payload_len ≤ used g
    → used g < 2 ^ 64
    → used (segment_free (trim_start new_seq k seg) g) ≡ used (segment_free seg g) + k
unfolding segment_free trim_start
trimmed_segment_leaks seg new_seq k g small le held word = omega arith
