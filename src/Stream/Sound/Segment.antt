-- ===== src/Stream/Sound/Segment.antt =====
-- Cutting a segment leaves a copy of the stream.
use dpdk_based_nids.Prelude.{
  ℕ, ◌+◌, ◌-◌, ◌^◌, ◌%◌, ◌≤◌, ◌<◌, ◌≡◌, sym, ap, ◌∙◌, arith, List, ◌++◌, length, take, drop,
  take-append, take-take, take-drop, length-take, length-drop, sub32, to_u16,
}
use dpdk_based_nids.Stream.Queue.Overlap.{move_front, trim_start}
use dpdk_based_nids.Stream.Spec.Slice.{slice, take-slice, drop-slice, slice_congr, length-slice}
use dpdk_based_nids.Stream.Spec.{IsCopy}
use dpdk_based_nids.Stream.State.{TcpSegment}

module _ (s : ℕ → ℕ) where
  -- A piece of bytes that copy the stream.
  pub take_of_copy :
      (p : ℕ) (n k : ℕ) (payload : List ℕ)
      → k ≤ n
      → take n payload ≡ slice s p n
      → take k payload ≡ slice s p k
  take_of_copy p n k payload h e =
      sym (take-take k n payload h) ∙ ap (take k) e ∙ take-slice s k n p h

  pub drop_of_copy :
      (p q n k m : ℕ) (payload : List ℕ)
      → k + m ≡ n
      → q % 2 ^ 32 ≡ (p + k) % 2 ^ 32
      → take n payload ≡ slice s p n
      → take m (drop k payload) ≡ slice s q m
  drop_of_copy p q n k m payload h e c =
      take-drop k m n payload h
      ∙ ap (drop k) c
      ∙ drop-slice s k m n p h
      ∙ slice_congr s (p + k) q m (sym e)

  pub IsCopy-length : (seg : TcpSegment) → IsCopy s seg → seg.payload_len ≤ length seg.payload
  IsCopy-length seg c = omega (
    arith,
    length-take seg.payload_len seg.payload,
    ap length c.bytes,
    length-slice s seg.seq seg.payload_len,
  )

  pub trim_end-IsCopy :
      (seg : TcpSegment) (n : ℕ)
      → IsCopy s seg
      → n ≤ seg.payload_len
      → IsCopy s (record seg { payload_len = n })
  trim_end-IsCopy seg n c h = record {
    seq_lt = c.seq_lt;
    len_lt = omega arith;
    bytes = take_of_copy seg.seq seg.payload_len n seg.payload h c.bytes;
  }

  take-move_front :
      (k n : ℕ) (p : List ℕ) → k + n ≤ length p → take n (move_front k n p) ≡ take n (drop k p)
  unfolding move_front
  take-move_front k n p h =
      let e : length (take n (drop k p)) ≡ n =
        omega (arith, length-take n (drop k p), length-drop k p) in
      ap (λ j. take j (take n (drop k p) ++ drop n p)) (sym e)
      ∙ take-append (take n (drop k p)) (drop n p)

  pub move_front_of_copy :
      (p q n k m : ℕ) (payload : List ℕ)
      → k + m ≡ n
      → q % 2 ^ 32 ≡ (p + k) % 2 ^ 32
      → n ≤ length payload
      → take n payload ≡ slice s p n
      → take m (move_front k m payload) ≡ slice s q m
  move_front_of_copy p q n k m payload h e long c =
      take-move_front k m payload (omega arith) ∙ drop_of_copy p q n k m payload h e c

  pub trim_start-IsCopy :
      (seg : TcpSegment) (new_seq k : ℕ)
      → IsCopy s seg
      → new_seq < 2 ^ 32
      → k ≡ sub32 new_seq seg.seq
      → k ≤ seg.payload_len
      → IsCopy s (trim_start new_seq k seg)
  unfolding trim_start
  trim_start-IsCopy seg new_seq k c lt e h =
      let len : to_u16 (seg.payload_len + 2 ^ 32 - k) ≡ seg.payload_len - k =
        omega (arith, c.len_lt) in
      record {
        seq_lt = lt;
        len_lt = omega arith;
        bytes = rw len (
            move_front_of_copy seg.seq new_seq seg.payload_len k (seg.payload_len - k) seg.payload
              (omega arith) (omega (arith, c.seq_lt)) (IsCopy-length seg c) c.bytes);
      }
