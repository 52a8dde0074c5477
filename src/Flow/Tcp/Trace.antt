-- ===== src/Flow/Tcp/Trace.antt =====
-- Runs of the TCP state machine over the packets of a flow.
use dpdk_based_nids.Flow.State.{
  TcpState, tcp_none, tcp_listen, tcp_syn_sent, tcp_syn_recv, tcp_established, tcp_fin_wait1,
  tcp_fin_wait2, tcp_time_wait, tcp_close_wait, tcp_last_ack, tcp_closing, tcp_closed,
}
use dpdk_based_nids.Flow.Tcp.{TcpFlags, next_state}
use dpdk_based_nids.Prelude.{◌≡◌, refl, arith, Bool, true, false, List, [], ◌∷◌, ◌&&◌, ◌||◌}

-- The states after the packets given by their flags and directions.
unfoldable pub run : TcpState → List (TcpFlags × Bool) → TcpState
run s [] = s
run s ((f, d) ∷ ps) = run (next_state s f d) ps

-- The packets begin a handshake: a packet with SYN, and one with ACK behind it.
abbrev pub has_ack : List (TcpFlags × Bool) → Bool
has_ack [] = false
has_ack ((f, d) ∷ ps) = f.ack || has_ack ps

abbrev pub has_handshake : List (TcpFlags × Bool) → Bool
has_handshake [] = false
has_handshake ((f, d) ∷ ps) = (f.syn && has_ack ps) || has_handshake ps

-- The states of a connection that has been established.
abbrev pub is_open : TcpState → Bool
is_open tcp_established = true
is_open tcp_fin_wait1 = true
is_open tcp_fin_wait2 = true
is_open tcp_closing = true
is_open tcp_time_wait = true
is_open tcp_close_wait = true
is_open tcp_last_ack = true
is_open _ = false

-- Once closed, a session stays closed, whatever packets come.
run-closed : (ps : List (TcpFlags × Bool)) → run tcp_closed ps ≡ tcp_closed
unfolding run next_state
run-closed [] = refl
run-closed ((f, d) ∷ ps) = run-closed ps

closed_not_open : (ps : List (TcpFlags × Bool)) → is_open (run tcp_closed ps) ≡ false
closed_not_open ps = rw (run-closed ps)

listen_not_open : (ps : List (TcpFlags × Bool)) → is_open (run tcp_listen ps) ≡ false
unfolding run next_state
listen_not_open [] = refl
listen_not_open ((f, d) ∷ ps) = listen_not_open ps

recv-has_ack :
    (ps : List (TcpFlags × Bool)) → is_open (run tcp_syn_recv ps) ≡ true → has_ack ps ≡ true
unfolding run next_state
recv-has_ack [] h = cc
recv-has_ack ((f, d) ∷ ps) h = ground (arith, recv-has_ack ps, closed_not_open ps)

sent-has_ack :
    (ps : List (TcpFlags × Bool)) → is_open (run tcp_syn_sent ps) ≡ true → has_ack ps ≡ true
unfolding run next_state
sent-has_ack [] h = cc
sent-has_ack ((f, d) ∷ ps) h = ground (arith, sent-has_ack ps, recv-has_ack ps, closed_not_open ps)

-- A session that has left the handshake (established, or closing in any way but a reset of the
-- handshake) has seen a packet with SYN and, behind it, a packet with ACK.
pub established_by_handshake :
    (ps : List (TcpFlags × Bool)) → is_open (run tcp_none ps) ≡ true → has_handshake ps ≡ true
unfolding run next_state
established_by_handshake [] h = cc
established_by_handshake ((f, d) ∷ ps) h =
    ground
      (arith, established_by_handshake ps, sent-has_ack ps, recv-has_ack ps, closed_not_open ps)
