-- ===== src/Flow/Update/Sound.antt =====
-- A flow's stream buffers stay copies of what its two ends send.
use dpdk_based_nids.Flow.State.{TcpSession, Flow, TcpHeader, FlowPacket, FlowConfig}
use dpdk_based_nids.Flow.Tcp.{flags_of}
use dpdk_based_nids.Flow.Update.{
  count_packet, step_session, is_syn_sent, is_syn_recv, is_established, is_unset, begin_at,
  begin_stream, deliver_at, deliver, update_session, update_tcp, flow_update,
}
use dpdk_based_nids.Prelude.{
  ℕ, ◌+◌, ◌^◌, ◌<◌, ◌≤◌, ◌≡◌, ◌⊎◌, refl, sym, inl, inr, Bool, true, false, Bool-cases, List, Option,
  none, some, take, ltb, ◌==◌, ◌&&◌, ok, Ensures, Ensures-bind, Ensures-ok,
}
use dpdk_based_nids.Stream.Buffer.Insert.{stream_buffer_insert_segment}
use dpdk_based_nids.Stream.Buffer.{stream_buffer_init}
use dpdk_based_nids.Stream.Segment.{rte_malloc}
use dpdk_based_nids.Stream.Sound.Buffer.{insert_segment-Reassembles}
use dpdk_based_nids.Stream.Sound.Consume.{stream_buffer_init-Reassembles}
use dpdk_based_nids.Stream.Spec.Slice.{slice}
use dpdk_based_nids.Stream.Spec.{Reassembles}
use dpdk_based_nids.Stream.State.{StreamBuffer, Reassembler, OsPolicy, favors_new, use_memory}

-- A buffer that is not allocated or not set up, or that copies the stream.
abbrev pub IsTracked : (ℕ → ℕ) → Option StreamBuffer → Type 0
IsTracked s none = Unit
IsTracked s (some sb) = (is_unset sb ≡ true) ⊎ ((favors_new sb.os_policy ≡ true) × Reassembles s sb)

-- `up` is what the client sends, `down` what the server sends.
abbrev pub TracksSession : (ℕ → ℕ) → (ℕ → ℕ) → TcpSession → Type 0
TracksSession up down s = IsTracked up s.toserver_sb × IsTracked down s.toclient_sb

abbrev pub Tracks : (ℕ → ℕ) → (ℕ → ℕ) → Option TcpSession → Type 0
Tracks up down none = Unit
Tracks up down (some s) = TracksSession up down s

-- The payload, if there is one, is the bytes of the stream at the sequence number.
abbrev pub Carries : (ℕ → ℕ) → ℕ → Option (List ℕ) → ℕ → Type 0
Carries s seq none n = Unit
Carries s seq (some payload) n = take n payload ≡ slice s seq n

abbrev pub side : Bool → (ℕ → ℕ) → (ℕ → ℕ) → ℕ → ℕ
side true up down = up
side false up down = down

pub record IsSent (s : ℕ → ℕ) (h : TcpHeader) (p : FlowPacket) : Type 0 where
  pub seq_lt : h.sent_seq < 2 ^ 32
  pub len_lt : p.payload_len < 2 ^ 16
  pub carries : Carries s h.sent_seq p.payload p.payload_len

pub record IsConfigured (g : Reassembler) : Type 0 where
  pub segments : g.config.max_segments < 2 ^ 32
  pub buffer : g.config.max_buffer_size + 2 ^ 16 ≤ 2 ^ 32

module _ (grants : ℕ → Bool) where
  init-IsTracked :
      (s : ℕ → ℕ) (seq : ℕ) (g : Reassembler)
      → seq < 2 ^ 32
      → IsConfigured g
      → IsTracked s (some (stream_buffer_init grants seq OsPolicy.linux g).1)
  unfolding stream_buffer_init
  init-IsTracked s seq g lt c = elim (Bool-cases (grants g.mallocs)) [
    | inl got ↦
        let r = stream_buffer_init-Reassembles s grants seq OsPolicy.linux g lt c.buffer got in
        inr (rw got refl, r.1)
    | inr failed ↦ inl (rw failed refl)
  ]

  init-config :
      (seq : ℕ) (g : Reassembler)
      → (stream_buffer_init grants seq OsPolicy.linux g).2.config ≡ g.config
  unfolding stream_buffer_init rte_malloc use_memory
  init-config seq g = elim (Bool-cases (grants g.mallocs)) [
    | inl got ↦ rw got refl
    | inr failed ↦ rw failed refl
  ]

  abbrev Began : (ℕ → ℕ) → Reassembler → Option StreamBuffer × Reassembler → Type 0
  Began s g r = IsTracked s r.0 × (r.1.config ≡ g.config)

  begin_at-keeps :
      (s : ℕ → ℕ) (here : Bool) (seq : ℕ) (sb : StreamBuffer) (g : Reassembler)
      → seq < 2 ^ 32
      → IsConfigured g
      → IsTracked s (some sb)
      → Began s g (begin_at grants here seq sb g)
  unfolding begin_at
  begin_at-keeps s false seq sb g lt c h = (h, refl)
  begin_at-keeps s true seq sb g lt c h = (init-IsTracked s seq g lt c, init-config seq g)

  begin_stream-keeps :
      (s : ℕ → ℕ) (here : Bool) (seq : ℕ) (o : Option StreamBuffer) (g : Reassembler)
      → seq < 2 ^ 32
      → IsConfigured g
      → IsTracked s o
      → Began s g (begin_stream grants here seq o g)
  unfolding begin_stream
  begin_stream-keeps s here seq none g lt c h = (tt, refl)
  begin_stream-keeps s here seq (some sb) g lt c h =
      begin_at-keeps s (here && is_unset sb) seq sb g lt c h

  abbrev IsDelivered : (ℕ → ℕ) → Option StreamBuffer × Reassembler → Type 0
  IsDelivered s r = IsTracked s r.0

  insert-IsTracked :
      (s : ℕ → ℕ) (sb : StreamBuffer) (seq : ℕ) (payload : Option (List ℕ)) (n : ℕ)
      (g : Reassembler)
      → favors_new sb.os_policy ≡ true
      → Reassembles s sb
      → IsConfigured g
      → seq < 2 ^ 32
      → n < 2 ^ 16
      → Carries s seq payload n
      → Ensures
          (λ r. IsTracked s (some r.1))
          (stream_buffer_insert_segment grants sb seq payload n g)
  unfolding stream_buffer_insert_segment
  insert-IsTracked s sb seq none n g new r c lt small e = inr (new, r)
  insert-IsTracked s sb seq (some payload) n g new r c lt small e =
      let (r', e', a) =
        insert_segment-Reassembles s grants sb seq payload n g new c.segments r lt small e in
      rw e' (inr (rw a.1.policy new, a.0))

  deliver_at-tracked :
      (s : ℕ → ℕ) (o : Option StreamBuffer) (h : TcpHeader) (p : FlowPacket) (g : Reassembler)
      → IsTracked s o
      → IsConfigured g
      → IsSent s h p
      → Ensures (IsDelivered s) (deliver_at grants o h.sent_seq p g)
  unfolding deliver_at
  deliver_at-tracked s none h p g t c w = tt
  deliver_at-tracked s (some sb) h p g (inl unset) c w = rw unset (inl unset)
  deliver_at-tracked s (some sb) h p g (inr (new, r)) c w = elim (Bool-cases (is_unset sb)) [
    | inl unset ↦ rw unset (inl unset)
    | inr set ↦ rw set (
        Ensures-bind (λ r. IsTracked s (some r.1)) (IsDelivered s)
          (stream_buffer_insert_segment grants sb h.sent_seq p.payload p.payload_len g) _
          (insert-IsTracked s sb h.sent_seq p.payload p.payload_len g new r c w.seq_lt w.len_lt
            w.carries)
          (λ r t. t))
  ]

  module _ (up down : ℕ → ℕ) where
    abbrev Updated : TcpSession × Reassembler → Type 0
    Updated r = TracksSession up down r.0

    deliver-tracked :
        (now toserver : Bool) (h : TcpHeader) (p : FlowPacket) (s : TcpSession) (g : Reassembler)
        → TracksSession up down s
        → IsConfigured g
        → IsSent (side toserver up down) h p
        → Ensures Updated (deliver grants now toserver h.sent_seq p s g)
    unfolding deliver
    deliver-tracked false toserver h p s g t c w = t
    deliver-tracked true true h p s g t c w =
        Ensures-bind (IsDelivered up) Updated (deliver_at grants s.toserver_sb h.sent_seq p g) _
          (deliver_at-tracked up s.toserver_sb h p g t.0 c w) (λ r k. (k, t.1))
    deliver-tracked true false h p s g t c w =
        Ensures-bind (IsDelivered down) Updated (deliver_at grants s.toclient_sb h.sent_seq p g) _
          (deliver_at-tracked down s.toclient_sb h p g t.1 c w) (λ r k. (t.0, k))

    update_session-tracked :
        (h : TcpHeader) (p : FlowPacket) (toserver : Bool) (s : TcpSession) (g : Reassembler)
        → TracksSession up down s
        → IsConfigured g
        → IsSent (side toserver up down) h p
        → Ensures Updated (update_session grants h p toserver s g)
    unfolding update_session
    update_session-tracked h p toserver s g t c w =
        let s₁ = step_session (flags_of h.tcp_flags) p toserver s in
        let a =
          begin_stream-keeps up (is_syn_sent s₁.state) h.sent_seq s.toserver_sb g w.seq_lt c t.0 in
        let g₁ = (begin_stream grants (is_syn_sent s₁.state) h.sent_seq s.toserver_sb g).1 in
        let c₁ : IsConfigured g₁ = record {
          segments = rw a.1 c.segments;
          buffer = rw a.1 c.buffer;
        } in
        let b =
          begin_stream-keeps down (is_syn_recv s₁.state) h.sent_seq s.toclient_sb g₁ w.seq_lt c₁
            t.1 in
        let g₂ = (begin_stream grants (is_syn_recv s₁.state) h.sent_seq s.toclient_sb g₁).1 in
        let c₂ : IsConfigured g₂ = record {
          segments = rw b.1 c₁.segments;
          buffer = rw b.1 c₁.buffer;
        } in
        deliver-tracked (ltb 0 p.payload_len && is_established s₁.state) toserver h p _ g₂
          (a.0, b.0) c₂ w

    abbrev UpdatedFlow : Flow × Reassembler → Type 0
    UpdatedFlow r = Tracks up down r.0.tcp

    update_tcp-tracked :
        (c : FlowConfig) (p : FlowPacket) (toserver : Bool) (o : Option TcpSession)
        (h : Option TcpHeader) (f : Flow) (g : Reassembler)
        → o ≡ f.tcp
        → Tracks up down o
        → IsConfigured g
        → ((h' : TcpHeader) → h ≡ some h' → IsSent (side toserver up down) h' p)
        → Ensures UpdatedFlow (update_tcp grants c p toserver o h f g)
    unfolding update_tcp
    update_tcp-tracked c p toserver none h f g e t k w = rw (sym e) tt
    update_tcp-tracked c p toserver (some s) none f g e t k w = rw (sym e) t
    update_tcp-tracked c p toserver (some s) (some h) f g e t k w =
        Ensures-bind Updated UpdatedFlow (update_session grants h p toserver s g) _
          (update_session-tracked h p toserver s g t k (w h refl)) (λ r u. u)

    count_packet-tcp :
        (now : ℕ) (p : FlowPacket) (toserver : Bool) (f : Flow)
        → (count_packet now p toserver f).tcp ≡ f.tcp
    unfolding count_packet
    count_packet-tcp now p true f = refl
    count_packet-tcp now p false f = refl

    flow_update-Ensures :
        (c : FlowConfig) (now : ℕ) (f : Flow) (p : FlowPacket) (toserver : Bool) (g : Reassembler)
        → Tracks up down f.tcp
        → IsConfigured g
        → ((h : TcpHeader) → p.tcp_hdr ≡ some h → IsSent (side toserver up down) h p)
        → Ensures UpdatedFlow (flow_update grants c now f p toserver g)
    unfolding flow_update
    flow_update-Ensures c now f p toserver g t k w =
        let e = count_packet-tcp now p toserver f in
        elim (Bool-cases (f.proto == 6)) [
          | inl tcp ↦ rw tcp (update_tcp-tracked c p toserver f.tcp p.tcp_hdr _ g (sym e) t k w)
          | inr other ↦ rw other (rw e t)
        ]

    -- If both stream buffers of a flow copy what their side sends (or are not set up yet), and a
    -- packet carries bytes of its side's stream, then updating the flow with the packet causes no
    -- undefined behaviour, and again both stream buffers copy what their side sends. This holds
    -- in every TCP state, for all flags, and whatever calls of `rte_malloc` fail.
    pub flow_update-Tracks :
        (c : FlowConfig) (now : ℕ) (f : Flow) (p : FlowPacket) (toserver : Bool) (g : Reassembler)
        → Tracks up down f.tcp
        → IsConfigured g
        → ((h : TcpHeader) → p.tcp_hdr ≡ some h → IsSent (side toserver up down) h p)
        → (r : Flow × Reassembler) × (flow_update grants c now f p toserver g ≡ ok r)
          × Tracks up down r.0.tcp
    flow_update-Tracks c now f p toserver g t k w =
        Ensures-ok UpdatedFlow (flow_update grants c now f p toserver g)
          (flow_update-Ensures c now f p toserver g t k w)
