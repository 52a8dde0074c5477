-- ===== src/Flow/Tcp.antt =====
-- The TCP state machine in `flow_update` of src/flow.c.
pub mod Trace
use dpdk_based_nids.Flow.State.{
  TcpState, tcp_none, tcp_listen, tcp_syn_sent, tcp_syn_recv, tcp_established, tcp_fin_wait1,
  tcp_fin_wait2, tcp_time_wait, tcp_close_wait, tcp_last_ack, tcp_closing, tcp_closed,
}
use dpdk_based_nids.Prelude.{ℕ, ◌/◌, ◌%◌, Bool, true, false, ◌&&◌, ◌==◌, if◌then◌else◌}

-- The bits of `tcp_flags`.
pub record TcpFlags : Type 0 where
  pub fin : Bool
  pub syn : Bool
  pub rst : Bool
  pub ack : Bool

unfoldable pub flags_of : ℕ → TcpFlags
flags_of b = record {
  fin = b % 2 == 1;
  syn = b / 2 % 2 == 1;
  rst = b / 4 % 2 == 1;
  ack = b / 16 % 2 == 1;
}

-- The `switch` on the state; the flag `toserver` is `direction == FLOW_DIR_TOSERVER`.
unfoldable pub next_state : TcpState → TcpFlags → Bool → TcpState
next_state tcp_none f toserver =
    if f.syn
    then if f.ack then tcp_syn_recv else tcp_syn_sent
    else if f.rst
    then tcp_closed
    else tcp_none
next_state tcp_syn_sent f toserver =
    if f.syn && f.ack
    then tcp_syn_recv
    else if f.syn
    then tcp_syn_recv
    else if f.rst
    then tcp_closed
    else tcp_syn_sent
next_state tcp_syn_recv f toserver =
    if f.ack then tcp_established else if f.rst then tcp_closed else tcp_syn_recv
next_state tcp_established f toserver =
    if f.fin
    then if toserver then tcp_fin_wait1 else tcp_close_wait
    else if f.rst
    then tcp_closed
    else tcp_established
next_state tcp_fin_wait1 f toserver =
    if f.fin
    then if f.ack then tcp_time_wait else tcp_closing
    else if f.ack
    then tcp_fin_wait2
    else if f.rst
    then tcp_closed
    else tcp_fin_wait1
next_state tcp_fin_wait2 f toserver =
    if f.fin then tcp_time_wait else if f.rst then tcp_closed else tcp_fin_wait2
next_state tcp_closing f toserver =
    if f.ack then tcp_time_wait else if f.rst then tcp_closed else tcp_closing
next_state tcp_time_wait f toserver = if f.rst then tcp_closed else tcp_time_wait
next_state tcp_close_wait f toserver =
    if f.fin then tcp_last_ack else if f.rst then tcp_closed else tcp_close_wait
next_state tcp_last_ack f toserver =
    if f.ack then tcp_closed else if f.rst then tcp_closed else tcp_last_ack
next_state tcp_closed f toserver = tcp_closed
next_state tcp_listen f toserver = tcp_listen

-- The handshake ends here: the branch that sets `timeout_policy` to `timeout_est`.
unfoldable pub establishes : TcpState → TcpFlags → Bool
establishes tcp_syn_recv f = f.ack
establishes _ f = false
