-- ===== src/Flow/Update.antt =====
-- `flow_update` and `flow_release` of src/flow.c. The flow is the one the caller holds; `now` is
-- what `gettimeofday` gives, and the flag `toserver` is `direction == FLOW_DIR_TOSERVER`.
pub mod Sound
use dpdk_based_nids.Flow.State.{
  TcpState, tcp_syn_sent, tcp_syn_recv, tcp_established, TcpSession, Flow, TcpHeader, FlowPacket,
  FlowConfig,
}
use dpdk_based_nids.Flow.Tcp.{TcpFlags, flags_of, next_state, establishes}
use dpdk_based_nids.Prelude.{
  ℕ, ◌-◌, Bool, true, false, List, Option, none, some, ltb, ◌==◌, ◌&&◌, if◌then◌else◌, add64, Run,
  ok, ◌>>=◌,
}
use dpdk_based_nids.Stream.Buffer.Insert.{Inserted, stream_buffer_insert_segment}
use dpdk_based_nids.Stream.Buffer.{stream_buffer_init}
use dpdk_based_nids.Stream.State.{StreamBuffer, Reassembler, OsPolicy}

-- The time, the counters of the direction and its flag.
unfoldable pub count_packet : ℕ → FlowPacket → Bool → Flow → Flow
count_packet now p true f = record f {
  last_ts = now;
  toserver_pkt_cnt = add64 f.toserver_pkt_cnt 1;
  toserver_byte_cnt = add64 f.toserver_byte_cnt p.payload_len;
  flags = record (f.flags) { to_dst_seen = true };
}
count_packet now p false f = record f {
  last_ts = now;
  toclient_pkt_cnt = add64 f.toclient_pkt_cnt 1;
  toclient_byte_cnt = add64 f.toclient_byte_cnt p.payload_len;
  flags = record (f.flags) { to_src_seen = true };
}

-- The `switch` and the counters behind it.
unfoldable pub step_session : TcpFlags → FlowPacket → Bool → TcpSession → TcpSession
step_session fl p toserver s = record s {
  state = next_state s.state fl toserver;
  seg_cnt = add64 s.seg_cnt 1;
  byte_cnt = add64 s.byte_cnt p.payload_len;
}

unfoldable pub set_timeout : FlowConfig → Bool → Flow → Flow
set_timeout c true f = record f { timeout_policy = c.timeout_est }
set_timeout c false f = f

abbrev pub is_syn_sent : TcpState → Bool
is_syn_sent tcp_syn_sent = true
is_syn_sent _ = false

abbrev pub is_syn_recv : TcpState → Bool
is_syn_recv tcp_syn_recv = true
is_syn_recv _ = false

abbrev pub is_established : TcpState → Bool
is_established tcp_established = true
is_established _ = false

-- `data == NULL`
abbrev pub is_unset : StreamBuffer → Bool
is_unset sb = elim (sb.buffer) [ none ↦ true | some _ ↦ false ]

module _ (grants : ℕ → Bool) where
  unfoldable pub begin_at :
      Bool → ℕ → StreamBuffer → Reassembler → Option StreamBuffer × Reassembler
  begin_at true seq sb g = let r = stream_buffer_init grants seq OsPolicy.linux g in (some r.1, r.2)
  begin_at false seq sb g = (some sb, g)

  -- One of the two initialisations; `here` is its test of the state. The result of
  -- `stream_buffer_init` is not looked at.
  unfoldable pub begin_stream :
      Bool → ℕ → Option StreamBuffer → Reassembler → Option StreamBuffer × Reassembler
  begin_stream here seq none g = (none, g)
  begin_stream here seq (some sb) g = begin_at (here && is_unset sb) seq sb g

  -- A failed insertion is only logged.
  unfoldable pub deliver_at :
      Option StreamBuffer → ℕ → FlowPacket → Reassembler → Run (Option StreamBuffer × Reassembler)
  deliver_at none seq p g = ok (none, g)
  deliver_at (some sb) seq p g = if is_unset sb then ok (some sb, g) else (do
    r ← stream_buffer_insert_segment grants sb seq p.payload p.payload_len g
    ok (some r.1, r.2))

  -- The insertion, under its test, into the buffer of the direction.
  unfoldable pub deliver :
      Bool → Bool → ℕ → FlowPacket → TcpSession → Reassembler → Run (TcpSession × Reassembler)
  deliver false toserver seq p s g = ok (s, g)
  deliver true true seq p s g = do
    (o, g') ← deliver_at s.toserver_sb seq p g
    ok (record s { toserver_sb = o }, g')
  deliver true false seq p s g = do
    (o, g') ← deliver_at s.toclient_sb seq p g
    ok (record s { toclient_sb = o }, g')

  unfoldable pub update_session :
      TcpHeader → FlowPacket → Bool → TcpSession → Reassembler → Run (TcpSession × Reassembler)
  update_session h p toserver s g =
      let s₁ = step_session (flags_of h.tcp_flags) p toserver s in
      let (up, g₁) = begin_stream (is_syn_sent s₁.state) h.sent_seq s.toserver_sb g in
      let (down, g₂) = begin_stream (is_syn_recv s₁.state) h.sent_seq s.toclient_sb g₁ in
      deliver (ltb 0 p.payload_len && is_established s₁.state) toserver h.sent_seq p
        (record s₁ { toserver_sb = up; toclient_sb = down }) g₂

  unfoldable pub update_tcp :
      FlowConfig
      → FlowPacket
      → Bool
      → Option TcpSession
      → Option TcpHeader
      → Flow
      → Reassembler
      → Run (Flow × Reassembler)
  update_tcp c p toserver none h f g = ok (f, g)
  update_tcp c p toserver (some s) none f g = ok (f, g)
  update_tcp c p toserver (some s) (some h) f g = do
    (s', g') ← update_session h p toserver s g
    ok (record (set_timeout c (establishes s.state (flags_of h.tcp_flags)) f) { tcp = some s' }, g')

  unfoldable pub flow_update :
      FlowConfig → ℕ → Flow → FlowPacket → Bool → Reassembler → Run (Flow × Reassembler)
  flow_update c now f p toserver g =
      let f₁ = count_packet now p toserver f in
      if f.proto == 6 then update_tcp c p toserver f.tcp p.tcp_hdr f₁ g else ok (f₁, g)

unfoldable pub flow_release : Flow → Flow
flow_release f = if ltb 0 f.use_cnt then record f { use_cnt = f.use_cnt - 1 } else f
