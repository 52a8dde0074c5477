-- ===== src/Stream/Sound/Process.antt =====
-- `process_segment_queue` and the copy to the buffer.
use mathlib.Core.Path.{ap₂}
use dpdk_based_nids.Prelude.{
  ℕ, ◌+◌, ◌^◌, ◌≤◌, ◌<◌, ◌≡◌, refl, ap, ◌∙◌, arith, false, List, [], ◌∷◌, ◌++◌, ◌==◌, inl, inr,
  ==_iff, Bool-cases, append_assoc, length, take, take-append, length-append, length-take, add32,
}
use dpdk_based_nids.Stream.Queue.Process.{
  write_at, bytes_of, is_full, append_payload, Round, leave, again, remove_head, gap_positive,
  Processed, run_round, process_head, process_loop, process_segment_queue,
}
use dpdk_based_nids.Stream.Spec.Slice.{slice, slice-append, length-slice}
use dpdk_based_nids.Stream.Spec.{IsFilled, IsQueue, Extends, Advanced}
use dpdk_based_nids.Stream.State.{TcpSegment, StreamBuffer, Reassembler}

-- Written behind the `at` bytes that count, `new` is what follows them.
pub take-write_at :
    (at : ℕ) (new old : List ℕ)
    → at ≤ length old
    → take (at + length new) (write_at at new old) ≡ take at old ++ new
unfolding write_at
take-write_at at new old h =
    let e : length (take at old ++ new) ≡ at + length new =
      omega (arith, length-append (take at old) new, length-take at old) in
    rw (← append_assoc) (rw (← e) (take-append (take at old ++ new) _))

module _ (s : ℕ → ℕ) where
  pub IsFilled-length :
      (sb : StreamBuffer) → IsFilled s sb → sb.data_len ≤ length (bytes_of sb.buffer)
  IsFilled-length sb f = omega (
    arith,
    length-take sb.data_len (bytes_of sb.buffer),
    ap length f.bytes,
    length-slice s sb.base_seq sb.data_len,
  )

  pub append_payload-IsFilled :
      (sb : StreamBuffer) (payload : List ℕ) (n : ℕ)
      → IsFilled s sb
      → n < 2 ^ 16
      → take n payload ≡ slice s sb.next_seq n
      → is_full sb n ≡ false
      → IsFilled s (append_payload sb payload n)
  unfolding append_payload is_full
  append_payload-IsFilled sb payload n f small copy room =
      let len : length (take n payload) ≡ n = ap length copy ∙ length-slice s sb.next_seq n in
      let sum : add32 sb.data_len n ≡ sb.data_len + length (take n payload) = omega arith in
      record {
        base_lt = f.base_lt;
        next_eq = omega arith;
        fits = ground arith;
        sized = f.sized;
        small = f.small;
        bytes = rw sum (
            take-write_at sb.data_len (take n payload) (bytes_of sb.buffer) (IsFilled-length sb f)
            ∙ ap₂ (◌++◌) f.bytes copy
            ∙ slice-append s sb.base_seq sb.next_seq sb.data_len n (omega arith)
            ∙ ap (slice s sb.base_seq) (omega arith));
      }

  -- The fields that the list and its count are not among stay as they are.
  pub remove_head-IsFilled :
      (rest : List TcpSegment) (sb : StreamBuffer)
      → IsFilled s sb
      → IsFilled s (remove_head rest sb)
  unfolding remove_head
  remove_head-IsFilled rest sb f = ground arith

module _ (s : ℕ → ℕ) (o : StreamBuffer) where
  -- What one round leaves for the rest of the list.
  abbrev RoundAdvanced : List TcpSegment → Round → Type 0
  RoundAdvanced rest (leave r) = Advanced s o r.0
  RoundAdvanced rest (again r) = Advanced s o r.0 × (r.0.seg_list ≡ rest)

  remove_head-Advanced :
      (seg : TcpSegment) (rest : List TcpSegment) (sb : StreamBuffer)
      → IsFilled s sb
      → Extends o sb
      → IsQueue s (seg ∷ rest) sb.seg_count
      → Advanced s o (remove_head rest sb) × ((remove_head rest sb).seg_list ≡ rest)
  unfolding remove_head
  remove_head-Advanced seg rest sb f x q = (
    (
      (
        remove_head-IsFilled s rest sb f,
        record { counted = omega arith; count_lt = omega arith; copies = q.copies.1 },
      ),
      record { policy = x.policy; base = x.base; grows = x.grows },
    ),
    refl,
  )

  pub append_payload-Extends :
      (sb : StreamBuffer) (payload : List ℕ) (n : ℕ)
      → IsFilled s sb
      → n < 2 ^ 16
      → Extends o sb
      → Extends o (append_payload sb payload n)
  unfolding append_payload
  append_payload-Extends sb payload n f small x = record {
    policy = x.policy;
    base = x.base;
    grows = omega (arith, f.fits, f.small, x.grows);
  }

  process_head-Advanced :
      (seg : TcpSegment) (rest : List TcpSegment) (sb : StreamBuffer) (g : Reassembler) (n : ℕ)
      → IsFilled s sb
      → IsQueue s sb.seg_list sb.seg_count
      → Extends o sb
      → IsQueue s (seg ∷ rest) sb.seg_count
      → RoundAdvanced rest (process_head seg rest sb g n)
  unfolding process_head append_payload
  process_head-Advanced seg rest sb g n f q x q' = elim (Bool-cases (seg.seq == sb.next_seq)) [
    | inl here ↦ elim (Bool-cases (is_full sb seg.payload_len)) [
      | inl full ↦ rw here (rw full ((f, q), x))
      | inr room ↦ rw here (
          rw room (
            remove_head-Advanced seg rest (append_payload sb seg.payload seg.payload_len)
              (append_payload-IsFilled s sb seg.payload seg.payload_len f q'.copies.0.len_lt
                (rw (← (==_iff seg.seq sb.next_seq).0 here) q'.copies.0.bytes) room)
              (append_payload-Extends sb seg.payload seg.payload_len f q'.copies.0.len_lt x) q'))
    ]
    | inr away ↦ elim (Bool-cases (gap_positive seg.seq sb.next_seq)) [
      | inl gap ↦ rw away (rw gap ((ground arith, q), ground arith))
      | inr late ↦ rw away (rw late (remove_head-Advanced seg rest sb f x q'))
    ]
  ]

  run_round-Advanced :
      (next : StreamBuffer → Reassembler → ℕ → Processed) (rest : List TcpSegment) (round : Round)
      → RoundAdvanced rest round
      → ((sb : StreamBuffer) (g : Reassembler) (n : ℕ)
          → Advanced s o sb
          → sb.seg_list ≡ rest
          → Advanced s o (next sb g n).0)
      → Advanced s o (run_round next round).0
  run_round-Advanced next rest (leave p) h ih = h
  run_round-Advanced next rest (again (sb, g, n)) h ih = ih sb g n h.0 h.1

  process_loop-Advanced :
      (list : List TcpSegment) (sb : StreamBuffer) (g : Reassembler) (n : ℕ)
      → Advanced s o sb
      → sb.seg_list ≡ list
      → Advanced s o (process_loop list sb g n).0
  unfolding process_loop
  process_loop-Advanced [] sb g n r e = r
  process_loop-Advanced (seg ∷ rest) sb g n r e =
      run_round-Advanced (process_loop rest) rest (process_head seg rest sb g n)
        (process_head-Advanced seg rest sb g n r.0.0 r.0.1 r.1 (rw e at r.0.1))
        (process_loop-Advanced rest)

  pub process_segment_queue-Advanced :
      (sb : StreamBuffer) (g : Reassembler)
      → Advanced s o sb
      → Advanced s o (process_segment_queue sb g).0
  unfolding process_segment_queue
  process_segment_queue-Advanced sb g r = process_loop-Advanced sb.seg_list sb g 0 r refl
