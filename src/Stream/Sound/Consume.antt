-- ===== src/Stream/Sound/Consume.antt =====
-- `stream_buffer_init` and `stream_buffer_consume`.
use Prim.Native.Nat.{min}
use dpdk_based_nids.Prelude.{
  if◌then◌else◌, ◌≢◌, ℕ, ◌+◌, ◌-◌, ◌^◌, ◌≤◌, ◌<◌, ◌≡◌, refl, arith, Bool, true, false, inl, inr,
  Bool-cases, List, Option, none, some, length, take, take_zero, add32, sub32, ltb, ◌==◌,
}
use dpdk_based_nids.Stream.Buffer.{
  stream_buffer_init, slide, after_slide, consume_count, consume_at, stream_buffer_consume,
}
use dpdk_based_nids.Stream.Queue.Process.{bytes_of}
use dpdk_based_nids.Stream.Sound.Process.{IsFilled-length, process_segment_queue-Advanced}
use dpdk_based_nids.Stream.Sound.Segment.{move_front_of_copy}
use dpdk_based_nids.Stream.Spec.Slice.{slice}
use dpdk_based_nids.Stream.Spec.{Reassembles}
use dpdk_based_nids.Stream.State.{StreamBuffer, Reassembler, OsPolicy}

-- A new stream buffer, where `rte_malloc` gives memory, is an empty reassembly of every stream,
-- at the initial sequence number.
pub stream_buffer_init-Reassembles :
    (s : ℕ → ℕ) (grants : ℕ → Bool) (initial_seq : ℕ) (policy : OsPolicy) (g : Reassembler)
    → initial_seq < 2 ^ 32
    → g.config.max_buffer_size + 2 ^ 16 ≤ 2 ^ 32
    → grants g.mallocs ≡ true
    → let r = stream_buffer_init grants initial_seq policy g in
      (r.0 ≡ true) × Reassembles s r.1 × (r.1.next_seq ≡ initial_seq) × (r.1.data_len ≡ 0)
unfolding stream_buffer_init
stream_buffer_init-Reassembles s grants initial_seq policy g lt small got = rw got (
  refl,
  (
    record {
      base_lt = lt;
      next_eq = omega arith;
      fits = omega arith;
      sized = refl;
      small = small;
      bytes = refl;
    },
    record { counted = refl; count_lt = omega arith; copies = tt },
  ),
  refl,
  refl,
)

module _ (s : ℕ → ℕ) where
  slide-Reassembles :
      (sb : StreamBuffer) (b : List ℕ) (n : ℕ)
      → take sb.data_len b ≡ slice s sb.base_seq sb.data_len
      → sb.data_len ≤ length b
      → n ≤ sb.data_len
      → Reassembles s sb
      → Reassembles s (slide n b sb)
  unfolding slide
  slide-Reassembles sb b n c long h (f, q) =
      let len : sub32 sb.data_len n ≡ sb.data_len - n = omega (arith, f.fits, f.small) in
      (
        record {
          base_lt = omega arith;
          next_eq = omega (arith, f.fits, f.small, f.next_eq);
          fits = omega (arith, f.fits);
          sized = f.sized;
          small = f.small;
          bytes = rw len (elim (Bool-cases (ltb n sb.data_len)) [
            | inl part ↦ rw part (
                move_front_of_copy s sb.base_seq (add32 sb.base_seq n) sb.data_len n
                  (sb.data_len - n) b (omega arith) (omega arith) long c)
            | inr all ↦
                let zero_left : sb.data_len - n ≡ 0 = ground arith in
                rw all (rw zero_left (take_zero b 0 refl))
          ]);
        },
        q,
      )

  -- What is left after `n` bytes have been consumed.
  pub record Consumed (sb : StreamBuffer) (n : ℕ) (r : Bool × StreamBuffer × Reassembler)
      : Type 0 where
    pub done : r.0 ≡ true
    pub reassembles : Reassembles s r.1
    pub base : r.1.base_seq ≡ add32 sb.base_seq n
    pub left : sb.data_len - n ≤ r.1.data_len

  consume_at-Consumed :
      (buffer : Option (List ℕ)) (sb : StreamBuffer) (n : ℕ) (g : Reassembler)
      → buffer ≢ none
      → take sb.data_len (bytes_of buffer) ≡ slice s sb.base_seq sb.data_len
      → sb.data_len ≤ length (bytes_of buffer)
      → n ≤ sb.data_len
      → Reassembles s sb
      → Consumed sb n (consume_at buffer sb n g)
  unfolding after_slide slide
  consume_at-Consumed none sb n g live c long h r = absurd (live refl)
  consume_at-Consumed (some b) sb n g live c long h r =
      let sb₁ = slide n b sb in
      let p = process_segment_queue-Advanced s sb₁ sb₁ g (
        slide-Reassembles sb b n c long h r,
        record { policy = refl; base = refl; grows = omega arith },
      ) in
      record {
        done = refl;
        reassembles = p.0;
        base = p.1.base;
        left = omega (arith, p.1.grows, r.0.fits, r.0.small);
      }

  -- Consuming from an allocated stream buffer that copies the sender's stream `s` succeeds for a
  -- length other than 0. It moves `base_seq` on by the length, or by all the data where that is
  -- less, drops no further bytes, and leaves a stream buffer that copies `s` from there.
  pub stream_buffer_consume-Consumed :
      (sb : StreamBuffer) (consume_len : ℕ) (g : Reassembler)
      → consume_len ≢ 0
      → sb.buffer ≢ none
      → Reassembles s sb
      → Consumed sb (min consume_len sb.data_len) (stream_buffer_consume sb consume_len g)
  unfolding stream_buffer_consume consume_count
  stream_buffer_consume-Consumed sb consume_len g some_len live r =
      let e : (consume_len == 0) ≡ false = ground arith in
      let k : (if ltb sb.data_len consume_len then sb.data_len else consume_len)
          ≡ min consume_len sb.data_len =
        ground arith in
      rw e (
        rw k (
          consume_at-Consumed sb.buffer sb _ g live r.0.bytes (IsFilled-length s sb r.0)
            (omega arith) r))
