-- ===== src/Tcp/Process.antt =====
-- tcp/tcp_state.c: a segment that arrives, by the state of its socket.
-- A result `none` is that of Text.
pub mod Backlog
use tapip.Base.{
  ℕ, ◌∷◌, Option, none, some, Bool, true, false, ◌==◌, ltb, leb, if◌then◌else◌, ◌&&◌, ◌||◌, add32,
}
use tapip.Base.Ints.{incr, lebℤ}
use tapip.Sock.{unlink}
use tapip.Tcp.{
  TcpState, closed, listen, syn_recv, established, Segment, Parent, no_parent, child_of,
  dead_parent, TcpSock, Tcp, pkb_freed, woken, on_accept, on_connect, fault, modify, emit,
  tcp_set_state,
}
use tapip.Tcp.Out.{tcp_send_reset, tcp_send_ack, tcp_send_synack}

-- free_pkb(pkb)
abbrev pub discard : Tcp → Tcp
discard st = emit st pkb_freed

-- tcp_closed; `none` is a null pointer to the socket.
unfoldable pub tcp_closed : Tcp → Option ℕ → Segment → Tcp
tcp_closed st none seg = discard (tcp_send_reset st none seg)
tcp_closed st (some i) seg = discard st

-- the update of the control block by a SYN in SYN-SENT
abbrev pub take_syn : Segment → TcpSock → TcpSock
take_syn seg tsk = record tsk {
  irs = seg.seg_seq;
  rcv_nxt = add32 seg.seg_seq 1;
  snd_una = if seg.tcphdr.ack then seg.seg_ack else tsk.snd_una;
}

-- __tcp_update_window
abbrev pub update_window : Segment → TcpSock → TcpSock
update_window seg tsk = record tsk {
  snd_wnd = seg.wnd;
  snd_wl1 = seg.seg_seq;
  snd_wl2 = seg.seg_ack;
}

-- wake_up(tsk->wait_connect), which does not test the pointer
abbrev pub wake_connect : Tcp → ℕ → Tcp
wake_connect st i = emit st (if (st.socks i).wait_connect then woken on_connect i else fault)

-- wake_up after a test of the pointer
abbrev pub signal_connect : Tcp → ℕ → Tcp
signal_connect st i = if (st.socks i).wait_connect then emit st (woken on_connect i) else st

-- the fourth check of tcp_synsent; in a simultaneous open the packet is not freed
unfoldable pub synsent_syn : Tcp → ℕ → Segment → Tcp
synsent_syn st i seg =
    let st' = modify st i (take_syn seg) in
    let open_ = modify (tcp_set_state st' i established) i (update_window seg) in
    if ltb (st'.socks i).iss (st'.socks i).snd_una
    then discard (wake_connect (tcp_send_ack open_ i (some seg)) i)
    else tcp_send_synack (tcp_set_state st' i syn_recv) i seg

-- the test of the first check: the acknowledgement is of nothing that was sent
abbrev pub is_bad_ack : TcpSock → Segment → Bool
is_bad_ack tsk seg = seg.tcphdr.ack && (leb seg.seg_ack tsk.iss || ltb tsk.snd_nxt seg.seg_ack)

unfoldable pub tcp_synsent : Tcp → ℕ → Segment → Tcp
tcp_synsent st i seg =
    let h = seg.tcphdr in
    if is_bad_ack (st.socks i) seg
    then discard (tcp_send_reset st (some i) seg)
    else if h.rst
    then discard (if h.ack then signal_connect (tcp_set_state st i closed) i else st)
    else if h.syn
    then synsent_syn st i seg
    else discard st

-- tcp_accept_queue_full
abbrev pub tcp_accept_queue_full : TcpSock → Bool
tcp_accept_queue_full tsk = lebℤ tsk.backlog tsk.accept_backlog

-- The counter that goes up is that of the child.
unfoldable pub tcp_accept_enqueue : Tcp → ℕ → ℕ → Tcp
tcp_accept_enqueue st i p =
    let st' =
      if (st.socks i).linked
      then modify st p (λ tsk. record tsk {
        listen_queue = unlink i tsk.listen_queue;
        accept_queue = unlink i tsk.accept_queue;
      })
      else st in
    let st'' = modify st' p (λ tsk. record tsk { accept_queue = i ∷ tsk.accept_queue }) in
    modify st'' i (λ tsk. record tsk { linked = true; accept_backlog = incr tsk.accept_backlog })

-- the child is queued, and the thread that accepts is woken without a test of the pointer
abbrev pub queue_child : Tcp → ℕ → ℕ → Tcp
queue_child st i p =
    let st' = tcp_accept_enqueue st i p in
    emit st' (if (st'.socks p).wait_accept then woken on_accept p else fault)

-- tcp_synrecv_ack for a parent in a state
unfoldable pub synrecv_at : Tcp → ℕ → ℕ → TcpState → Bool × Tcp
synrecv_at st i p listen =
    if tcp_accept_queue_full (st.socks p) then (false, st) else (true, queue_child st i p)
synrecv_at st i p _ = (false, st)

-- tcp_synrecv_ack for the field parent; `true` is the result 0, `false` the result -1.
unfoldable pub synrecv_by : Tcp → ℕ → Parent → Bool × Tcp
synrecv_by st i no_parent = (false, emit st fault)
synrecv_by st i dead_parent = (false, emit st fault)
synrecv_by st i (child_of p) = synrecv_at st i p (st.socks p).state

unfoldable pub tcp_synrecv_ack : Tcp → ℕ → Bool × Tcp
tcp_synrecv_ack st i = synrecv_by st i (st.socks i).parent

-- seq_check: `true` when the segment is acceptable
unfoldable pub seq_check : Segment → TcpSock → Bool
seq_check seg tsk =
    let rcv_end = add32 tsk.rcv_nxt (if tsk.rcv_wnd == 0 then 1 else tsk.rcv_wnd) in
    ltb seg.seg_seq rcv_end && leb tsk.rcv_nxt seg.lastseq

unfoldable pub tcp_update_window : Segment → TcpSock → TcpSock
tcp_update_window seg tsk =
    if (leb tsk.snd_una seg.seg_ack && leb seg.seg_ack tsk.snd_nxt)
      && (ltb tsk.snd_wl1 seg.seg_seq
          || (tsk.snd_wl1 == seg.seg_seq && leb tsk.snd_wl2 seg.seg_ack))
    then update_window seg tsk
    else tsk

-- What one of the checks of tcp_process comes to: the next check, or the label `drop`.
pub data Check : Type 0 where
  next : Tcp → Check
  dropped : Tcp → Check
