-- ===== src/Stream/Sound/Buffer.antt =====
-- `stream_buffer_insert_segment`, under the policies that favor new data.
use dpdk_based_nids.Prelude.{
  ℕ, ◌+◌, ◌-◌, ◌^◌, ◌≤◌, ◌<◌, ◌≡◌, refl, ◌∙◌, arith, Bool, true, false, inl, inr, Bool-cases, List,
  Option, none, some, take, take-take, add32, sub32, ◌==◌, ==_iff, leb, ok, Ensures, Ensures-bind,
  Ensures-ok, to_u16,
}
use dpdk_based_nids.Stream.Buffer.Insert.{
  Piece, skip_to, clip_to_window, handle_buffer_overlap, Inserted, insert_in_order, finish_insert,
  after_alloc, enqueue, count_inserted, count_out_of_order, count_overlap, count_stats_overlap,
  insert_trimmed, insert_out_of_order, insert_clipped, insert_piece, insert_at,
  stream_buffer_insert_segment,
}
use dpdk_based_nids.Stream.Queue.Insert.{Queued, insert_segment_queue}
use dpdk_based_nids.Stream.Queue.Process.{is_full, append_payload}
use dpdk_based_nids.Stream.Segment.{segment_alloc}
use dpdk_based_nids.Stream.Seq.Order.{lt_bounds, gt_bounds, gt_of_not_le}
use dpdk_based_nids.Stream.Seq.{seq_compare, is_lt, is_le}
use dpdk_based_nids.Stream.Sound.Insert.{insert_segment_queue-Advanced}
use dpdk_based_nids.Stream.Sound.Process.{
  append_payload-IsFilled, append_payload-Extends, process_segment_queue-Advanced,
}
use dpdk_based_nids.Stream.Sound.Segment.{drop_of_copy}
use dpdk_based_nids.Stream.Spec.Slice.{slice}
use dpdk_based_nids.Stream.Spec.{IsCopy, Reassembles, Extends, Advanced}
use dpdk_based_nids.Stream.State.{TcpSegment, StreamBuffer, Reassembler, favors_new}

Extends-refl : (sb : StreamBuffer) → Extends sb sb
Extends-refl sb = record { policy = refl; base = refl; grows = omega arith }

config-count_stats_overlap :
    (b : Bool) (g : Reassembler) → (count_stats_overlap b g).config ≡ g.config
config-count_stats_overlap true g = refl
config-count_stats_overlap false g = refl

module _ (s : ℕ → ℕ) where
  -- The piece holds the stream's bytes from its sequence number on.
  pub record IsPiece (p : Piece) : Type 0 where
    pub seq_lt : p.seq < 2 ^ 32
    pub len_lt : p.payload_len < 2 ^ 16
    pub bytes : take p.payload_len p.payload ≡ slice s p.seq p.payload_len

  skip_to-IsPiece :
      (p : Piece) (new_seq : ℕ)
      → IsPiece p
      → new_seq < 2 ^ 32
      → sub32 new_seq p.seq ≤ p.payload_len
      → IsPiece (skip_to new_seq (sub32 new_seq p.seq) p)
  skip_to-IsPiece p new_seq c lt h =
      let k = sub32 new_seq p.seq in
      let len : to_u16 (p.payload_len + 2 ^ 32 - k) ≡ p.payload_len - k = omega (arith, c.len_lt) in
      record {
        seq_lt = lt;
        len_lt = omega arith;
        bytes = rw len (
            drop_of_copy s p.seq new_seq p.payload_len k (p.payload_len - k) p.payload (omega arith)
              (omega (arith, c.seq_lt)) c.bytes);
      }

  abbrev ClipKeeps : Option Piece → Type 0
  ClipKeeps none = Unit
  ClipKeeps (some p) = IsPiece p

  clip_to_window-keeps :
      (base_seq : ℕ) (p : Piece)
      → base_seq < 2 ^ 32
      → IsPiece p
      → ClipKeeps (clip_to_window base_seq p)
  unfolding clip_to_window
  clip_to_window-keeps base_seq p lt c =
      elim (Bool-cases (is_le (seq_compare (add32 p.seq p.payload_len) base_seq))) [
        | inl gone ↦ rw gone tt
        | inr left ↦ elim (Bool-cases (is_lt (seq_compare p.seq base_seq))) [
          | inr inside ↦ rw left (rw inside c)
          | inl before ↦ elim (Bool-cases (leb p.payload_len (sub32 base_seq p.seq))) [
            | inl all ↦ rw left (rw before (rw all tt))
            | inr part ↦
                rw left (rw before (rw part (skip_to-IsPiece p base_seq c lt (ground arith))))
          ]
        ]
      ]

  handle_buffer_overlap-IsPiece :
      (next_seq : ℕ) (p : Piece)
      → next_seq < 2 ^ 32
      → IsPiece p
      → IsPiece (handle_buffer_overlap next_seq p).1
  unfolding handle_buffer_overlap
  handle_buffer_overlap-IsPiece next_seq p lt c =
      let end = add32 p.seq p.payload_len in
      elim (Bool-cases (is_lt (seq_compare p.seq next_seq))) [
        | inr behind ↦ rw behind c
        | inl before ↦ elim (Bool-cases (is_le (seq_compare end next_seq))) [
          | inl old ↦
              rw before (rw old (record { seq_lt = c.seq_lt; len_lt = omega arith; bytes = refl }))
          | inr part ↦
              let a = lt_bounds p.seq next_seq c.seq_lt lt before in
              let b = gt_bounds end next_seq (omega arith) lt (gt_of_not_le _ part) in
              rw before (
                rw part (skip_to-IsPiece p next_seq c lt (omega (arith, a, b, c.seq_lt, c.len_lt))))
        ]
      ]

  pub insert_in_order-Advanced :
      (sb : StreamBuffer) (p : Piece) (g : Reassembler)
      → Reassembles s sb
      → IsPiece p
      → p.seq ≡ sb.next_seq
      → Advanced s sb (insert_in_order sb p g).1
  unfolding insert_in_order
  insert_in_order-Advanced sb p g r c e = elim (Bool-cases (is_full sb p.payload_len)) [
    | inl full ↦ rw full (r, Extends-refl sb)
    | inr room ↦ rw room (
        process_segment_queue-Advanced s sb (append_payload sb p.payload p.payload_len) _ (
          (
            append_payload-IsFilled s sb p.payload p.payload_len r.0 c.len_lt (rw (← e) c.bytes)
                room,
            unfold append_payload in r.1,
          ),
          append_payload-Extends s sb sb p.payload p.payload_len r.0 c.len_lt (Extends-refl sb),
        ))
  ]

  abbrev AllocKeeps : Option TcpSegment → Type 0
  AllocKeeps none = Unit
  AllocKeeps (some seg) = IsCopy s seg

  module _ (grants : ℕ → Bool) where
    segment_alloc-keeps :
        (p : Piece) (g : Reassembler)
        → IsPiece p
        → AllocKeeps (segment_alloc grants p.seq p.payload p.payload_len g).0
          × ((segment_alloc grants p.seq p.payload p.payload_len g).1.config ≡ g.config)
    unfolding segment_alloc
    segment_alloc-keeps p g c = elim (Bool-cases (grants g.mallocs)) [
      | inr no_seg ↦ rw no_seg (tt, refl)
      | inl seg ↦ elim (Bool-cases (grants (g.mallocs + 1))) [
        | inr no_payload ↦ rw seg (rw no_payload (tt, refl))
        | inl payload ↦ rw seg (
            rw payload (
              record {
                seq_lt = c.seq_lt;
                len_lt = c.len_lt;
                bytes = take-take p.payload_len p.payload_len p.payload (omega arith) ∙ c.bytes;
              },
              refl,
            ))
      ]
    ]

    module _ (o : StreamBuffer) where
      finish_insert-Advanced : (q : Queued) → Advanced s o q.1 → Advanced s o (finish_insert q).1
      unfolding finish_insert
      finish_insert-Advanced (true, sb, g) r = process_segment_queue-Advanced s o sb g r
      finish_insert-Advanced (false, sb, g) r = r

      after_alloc-Advanced :
          (sb : StreamBuffer) (got : Option TcpSegment) (g : Reassembler)
          → favors_new sb.os_policy ≡ true
          → g.config.max_segments < 2 ^ 32
          → Advanced s o sb
          → AllocKeeps got
          → Ensures (λ r. Advanced s o r.1) (after_alloc grants sb got g)
      unfolding after_alloc
      after_alloc-Advanced sb none g new limit r c = r
      after_alloc-Advanced sb (some seg) g new limit r c =
          Ensures-bind (λ q. Advanced s o q.1) (λ i. Advanced s o i.1)
            (insert_segment_queue grants sb seg g) (λ q. ok (finish_insert q))
            (insert_segment_queue-Advanced s grants o sb seg g new limit c r) finish_insert-Advanced

      enqueue-Advanced :
          (sb : StreamBuffer) (p : Piece) (g : Reassembler)
          → favors_new sb.os_policy ≡ true
          → g.config.max_segments < 2 ^ 32
          → Advanced s o sb
          → IsPiece p
          → Ensures (λ r. Advanced s o r.1) (enqueue grants sb p g)
      unfolding enqueue
      enqueue-Advanced sb p g new limit r c =
          let a = segment_alloc-keeps p g c in after_alloc-Advanced sb _ _ new (rw a.1 limit) r a.0

      insert_trimmed-Advanced :
          (sb : StreamBuffer) (p : Piece) (g : Reassembler)
          → favors_new sb.os_policy ≡ true
          → g.config.max_segments < 2 ^ 32
          → Advanced s o sb
          → IsPiece p
          → Ensures (λ r. Advanced s o r.1) (insert_trimmed grants sb p g)
      unfolding insert_trimmed
      insert_trimmed-Advanced sb p g new limit r c = elim (Bool-cases (p.payload_len == 0)) [
        | inl empty ↦ rw empty r
        | inr bytes ↦ rw bytes (enqueue-Advanced sb p g new limit r c)
      ]

      count_overlap-Advanced :
          (b : Bool) (sb : StreamBuffer)
          → Advanced s o sb
          → Advanced s o (count_overlap b sb) × ((count_overlap b sb).os_policy ≡ sb.os_policy)
      count_overlap-Advanced true sb ((f, q), x) = (((ground arith, q), ground arith), refl)
      count_overlap-Advanced false sb r = (r, refl)

      insert_out_of_order-Advanced :
          (sb : StreamBuffer) (p : Piece) (g : Reassembler)
          → favors_new sb.os_policy ≡ true
          → g.config.max_segments < 2 ^ 32
          → Advanced s o sb
          → IsPiece p
          → Ensures (λ r. Advanced s o r.1) (insert_out_of_order grants sb p g)
      unfolding insert_out_of_order count_out_of_order
      insert_out_of_order-Advanced sb p g new limit r c =
          let h = handle_buffer_overlap sb.next_seq p in
          let k = count_overlap-Advanced h.0 sb r in
          insert_trimmed-Advanced (count_overlap h.0 sb) h.1 _ (rw k.1 new)
            (rw (config-count_stats_overlap h.0 _) limit) k.0
            (handle_buffer_overlap-IsPiece sb.next_seq p (omega (arith, r.0.0.next_eq)) c)

    insert_clipped-Advanced :
        (sb : StreamBuffer) (p : Option Piece) (g : Reassembler)
        → favors_new sb.os_policy ≡ true
        → g.config.max_segments < 2 ^ 32
        → Reassembles s sb
        → ClipKeeps p
        → Ensures (λ r. Advanced s sb r.1) (insert_clipped grants sb p g)
    unfolding insert_clipped
    insert_clipped-Advanced sb none g new limit r c = (r, Extends-refl sb)
    insert_clipped-Advanced sb (some p) g new limit r c = elim (Bool-cases (p.seq == sb.next_seq)) [
      | inl here ↦ rw here (insert_in_order-Advanced sb p g r c ((==_iff p.seq sb.next_seq).0 here))
      | inr away ↦ rw away (insert_out_of_order-Advanced sb sb p g new limit (r, Extends-refl sb) c)
    ]

    insert_at-Ensures :
        (buffer : Option (List ℕ)) (sb : StreamBuffer) (p : Piece) (g : Reassembler)
        → favors_new sb.os_policy ≡ true
        → g.config.max_segments < 2 ^ 32
        → Reassembles s sb
        → IsPiece p
        → Ensures (λ r. Advanced s sb r.1) (insert_at grants buffer sb p g)
    unfolding insert_piece count_inserted
    insert_at-Ensures none sb p g new limit r c = (r, Extends-refl sb)
    insert_at-Ensures (some b) sb p g new limit r c =
        insert_clipped-Advanced sb (clip_to_window sb.base_seq p) _ new limit r
          (clip_to_window-keeps sb.base_seq p r.0.base_lt c)

    insert_segment-Ensures :
        (sb : StreamBuffer) (seq : ℕ) (payload : List ℕ) (payload_len : ℕ) (g : Reassembler)
        → favors_new sb.os_policy ≡ true
        → g.config.max_segments < 2 ^ 32
        → Reassembles s sb
        → seq < 2 ^ 32
        → payload_len < 2 ^ 16
        → take payload_len payload ≡ slice s seq payload_len
        → Ensures
            (λ r. Advanced s sb r.1)
            (stream_buffer_insert_segment grants sb seq (some payload) payload_len g)
    unfolding stream_buffer_insert_segment
    insert_segment-Ensures sb seq payload payload_len g new limit r seq_lt len_lt bytes =
        let p : Piece = record { seq = seq; payload = payload; payload_len = payload_len } in
        let c : IsPiece p = record { seq_lt = seq_lt; len_lt = len_lt; bytes = bytes } in
        elim (Bool-cases (payload_len == 0)) [
          | inl empty ↦ rw empty (r, Extends-refl sb)
          | inr full ↦ rw full (insert_at-Ensures sb.buffer sb p g new limit r c)
        ]

    -- Under a policy that favors new data, inserting any segment that copies the sender's stream
    -- `s` causes no undefined behaviour. It leaves a stream buffer whose contents and queue again
    -- copy `s` at their sequence numbers, with the same policy and `base_seq`, and whose data has
    -- not become shorter. This holds whatever calls of `rte_malloc` fail.
    pub insert_segment-Reassembles :
        (sb : StreamBuffer) (seq : ℕ) (payload : List ℕ) (payload_len : ℕ) (g : Reassembler)
        → favors_new sb.os_policy ≡ true
        → g.config.max_segments < 2 ^ 32
        → Reassembles s sb
        → seq < 2 ^ 32
        → payload_len < 2 ^ 16
        → take payload_len payload ≡ slice s seq payload_len
        → (r : Inserted) × (stream_buffer_insert_segment grants sb seq (some payload) payload_len g
            ≡ ok r)
          × Advanced s sb r.1
    insert_segment-Reassembles sb seq payload payload_len g new limit r seq_lt len_lt bytes =
        Ensures-ok (λ r. Advanced s sb r.1)
          (stream_buffer_insert_segment grants sb seq (some payload) payload_len g)
          (insert_segment-Ensures sb seq payload payload_len g new limit r seq_lt len_lt bytes)
