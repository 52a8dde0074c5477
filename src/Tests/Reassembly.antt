-- ===== src/Tests/Reassembly.antt =====
-- The stream of src/stream_reassemble.c at concrete segments.
use dpdk_based_nids.Prelude.{
  ℕ, ◌%◌, ◌^◌, ◌<◌, ◌≤◌, ◌≡◌, ◌≢◌, ◌↔◌, refl, arith, Bool, true, List, [], ◌∷◌, none, some, add32,
  add64, ok,
}
use Prim.Native.Nat.{min}
use dpdk_based_nids.Stream.Buffer.Insert.{
  Inserted, insert_in_order, count_inserted, count_in_order, count_out_of_order,
  stream_buffer_insert_segment,
}
use dpdk_based_nids.Stream.Buffer.{stream_buffer_get_data, stream_buffer_consume}
use dpdk_based_nids.Stream.Delivery.Faulty.{overlapped_tail_lost, merged_length_wraps}
use dpdk_based_nids.Stream.Delivery.Gap.{new_segment, allocated, segment_ahead_queued, gap_filled}
use dpdk_based_nids.Stream.Delivery.InOrder.{retransmission_ignored, in_order_full}
use dpdk_based_nids.Stream.Queue.Merge.{merged, merged_payload, merge_pair}
use dpdk_based_nids.Stream.Seq.Order.{seq_compare_lem}
use dpdk_based_nids.Stream.Seq.{seq_compare, is_lt, is_le}
use dpdk_based_nids.Stream.Sound.Buffer.{insert_segment-Reassembles}
use dpdk_based_nids.Stream.Sound.Consume.{Consumed, stream_buffer_consume-Consumed}
use dpdk_based_nids.Stream.Spec.Slice.{slice}
use dpdk_based_nids.Stream.Spec.{IsFilled, Reassembles, Advanced}
use dpdk_based_nids.Stream.State.{TcpSegment, StreamBuffer, OsPolicy, start, count_dropped}

-- The byte at a sequence number is its remainder modulo 256, and memory never runs out.
abbrev pub sent : ℕ → ℕ
sent i = i % 256

abbrev pub plenty : ℕ → Bool
plenty _ = true

-- Two bytes have been reassembled; under `waiting` a segment of two bytes waits behind a gap of
-- two.
abbrev pub ready : StreamBuffer
ready = record {
  buffer = some (232 ∷ 233 ∷ []);
  size = 64;
  data_len = 2;
  base_seq = 1000;
  next_seq = 1002;
  seg_list = [];
  seg_count = 0;
  os_policy = OsPolicy.linux;
  max_buffer_size = 64;
  total_reassembled = 2;
  overlap_count = 0;
  gap_count = 0;
}

abbrev ahead : TcpSegment
ahead = record { seq = 1004; payload_len = 2; payload = 236 ∷ 237 ∷ [] }

abbrev pub waiting : StreamBuffer
waiting = record ready { seg_list = ahead ∷ []; seg_count = 1 }

abbrev tight : StreamBuffer
tight = record ready { size = 3; max_buffer_size = 3 }

ready-IsFilled : IsFilled sent ready
ready-IsFilled = record {
  base_lt = omega arith;
  next_eq = refl;
  fits = omega arith;
  sized = refl;
  small = omega arith;
  bytes = refl;
}

tight-IsFilled : IsFilled sent tight
tight-IsFilled = record {
  base_lt = omega arith;
  next_eq = refl;
  fits = omega arith;
  sized = refl;
  small = omega arith;
  bytes = refl;
}

pub waiting-Reassembles : Reassembles sent waiting
waiting-Reassembles = (
  record {
    base_lt = omega arith;
    next_eq = refl;
    fits = omega arith;
    sized = refl;
    small = omega arith;
    bytes = refl;
  },
  record {
    counted = refl;
    count_lt = omega arith;
    copies = (record { seq_lt = omega arith; len_lt = omega arith; bytes = refl }, tt);
  },
)

live : (b : List ℕ) → some b ≢ none
live b = λ e. cc

seq_compare_lem_example :
    ((is_lt (seq_compare (4294967290 % 2 ^ 32) (4294967300 % 2 ^ 32)) ≡ true)
      ↔ (4294967290 < 4294967300))
    × ((is_le (seq_compare (4294967290 % 2 ^ 32) (4294967300 % 2 ^ 32)) ≡ true)
        ↔ (4294967290 ≤ 4294967300))
seq_compare_lem_example = seq_compare_lem 4294967290 4294967300 (omega arith) (omega arith)

-- The segment fills the gap and overlaps the segment that waits.
insert_segment-Reassembles_example :
    (r : Inserted) × (stream_buffer_insert_segment plenty waiting 1002
        (some (234 ∷ 235 ∷ 236 ∷ []))
        3
        start
      ≡ ok r)
    × Advanced sent waiting r.1
insert_segment-Reassembles_example =
    insert_segment-Reassembles sent plenty waiting 1002 (234 ∷ 235 ∷ 236 ∷ []) 3 start refl
      (omega arith) waiting-Reassembles (omega arith) (omega arith) refl

stream_buffer_consume-Consumed_example :
    Consumed sent waiting (min 1 2) (stream_buffer_consume waiting 1 start)
stream_buffer_consume-Consumed_example =
    stream_buffer_consume-Consumed sent waiting 1 start (ground arith) (live _) waiting-Reassembles

retransmission_ignored_example :
    stream_buffer_insert_segment plenty ready (add32 1000 0) (some (232 ∷ 233 ∷ [])) 2 start
    ≡ ok (some 0, ready, count_out_of_order (count_inserted start))
retransmission_ignored_example =
    retransmission_ignored plenty sent ready 0 2 (232 ∷ 233 ∷ []) start ready-IsFilled (live _)
      (omega arith) (omega arith) (omega arith)

in_order_full_example :
    stream_buffer_insert_segment plenty tight 1002 (some (234 ∷ 235 ∷ [])) 2 start
    ≡ ok (none, tight, count_dropped (count_in_order (count_inserted start)))
in_order_full_example =
    in_order_full plenty sent tight 2 (234 ∷ 235 ∷ []) start tight-IsFilled (live _) (omega arith)
      (omega arith) (omega arith) (omega arith)

segment_ahead_queued_example :
    stream_buffer_insert_segment plenty ready (add32 1002 2) (some (236 ∷ 237 ∷ [])) 2 start
    ≡ ok (
      some 0,
      record ready {
        seg_list = new_segment (add32 1002 2) (236 ∷ 237 ∷ []) 2 ∷ [];
        seg_count = 1;
        gap_count = add64 0 1;
      },
      allocated 2 (count_out_of_order (count_inserted start)),
    )
segment_ahead_queued_example =
    segment_ahead_queued plenty sent ready 2 2 (236 ∷ 237 ∷ []) start ready-IsFilled (live _) refl
      refl (omega arith) (omega arith) (omega arith) (omega arith) refl refl

gap_filled_example :
    (r : Inserted) × (stream_buffer_insert_segment plenty waiting 1002
        (some (234 ∷ 235 ∷ []))
        2
        start
      ≡ ok r)
    × (r.0 ≡ some 2)
    × (stream_buffer_get_data r.1 ≡ some (slice sent 1000 6))
    × (r.1.seg_list ≡ [])
gap_filled_example =
    gap_filled plenty sent waiting ahead 2 (234 ∷ 235 ∷ []) start waiting-Reassembles (live _) refl
      refl (omega arith) (omega arith) (omega arith) (omega arith) refl

overlapped_tail_lost_example :
    let r =
      insert_in_order waiting
        (record { seq = 1002; payload = 234 ∷ 235 ∷ 236 ∷ []; payload_len = 3 })
        start in
    (r.0 ≡ some 3) × (r.1.seg_list ≡ []) × (r.1.data_len ≡ 5)
overlapped_tail_lost_example =
    overlapped_tail_lost waiting ahead 2 3 (234 ∷ 235 ∷ 236 ∷ []) start refl (omega arith) refl
      (omega arith) (omega arith) (omega arith) (omega arith) (omega arith)

-- Two segments of 40,000 bytes that touch; the bytes themselves do not matter here.
abbrev long_at : ℕ → TcpSegment
long_at seq = record { seq = seq; payload_len = 40000; payload = [] }

merged_length_wraps_example :
    merge_pair plenty (long_at 1000) (long_at 41000) start
    ≡ merged
        (record {
          seq = 1000;
          payload_len = 14464;
          payload = merged_payload (long_at 1000) (long_at 41000);
        })
        (record start { mallocs = 1 })
merged_length_wraps_example =
    merged_length_wraps plenty (long_at 1000) (long_at 41000) start (omega arith) (omega arith)
      (omega arith) refl (omega arith) refl
