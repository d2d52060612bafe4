-- ===== src/Tcp/Step.antt =====
-- tcp_process of tcp/tcp_state.c and tcp_recv of tcp/tcp_in.c: the checks on a segment, in order.
-- A result `none` is that of Text.
pub mod Graph
pub mod Diagram
pub mod Quiet
pub mod Moves
pub mod Passive
pub mod Drive
pub mod Keep
pub mod Ready
pub mod Returns
pub mod Takes
use tapip.Base.{
  ℕ, ◌+◌, ◌-◌, List, [], ◌∷◌, Option, none, some, Bool, true, false, ◌==◌, ltb, leb, if◌then◌else◌,
  ◌&&◌, ◌||◌, not, add32,
}
use tapip.Net.{Ip, iphlen}
use tapip.Checksum.{tcp_chksum}
use tapip.Tcp.{
  TcpHdr, TcpState, closed, listen, syn_recv, syn_sent, established, close_wait, last_ack,
  fin_wait1, fin_wait2, closing, time_wait, Segment, Parent, no_parent, child_of, dead_parent,
  TcpSock, Tcp, modify, tcp_set_state, free_sock,
}
use tapip.Tcp.Hdr.{tcp_hrd_sz, tcphlen, read_hdr, tcp_segment_init}
use tapip.Tcp.Hash.{tcp_lookup_sock, tcp_unhash}
use tapip.Tcp.Port.{tcp_unbhash}
use tapip.Tcp.Out.{tcp_send_reset, tcp_send_ack}
use tapip.Tcp.Text.{tcp_recv_text, tcp_recv_notify}
use tapip.Tcp.Timer.{tcp_set_timewait_timer, restart_timewait}
use tapip.Tcp.Listen.{tcp_listen}
use tapip.Tcp.Process.{
  discard, tcp_closed, update_window, signal_connect, tcp_synsent, tcp_synrecv_ack, seq_check,
  tcp_update_window, Check, next, dropped,
}

-- the reset of a socket in SYN-RECV, by its parent, and of one in another state
abbrev pub abort_child : Tcp → ℕ → Parent → Tcp
abort_child st i no_parent = signal_connect st i
abort_child st i (child_of p) = tcp_unhash st i
abort_child st i dead_parent = tcp_unhash st i

abbrev pub abort_in : Tcp → ℕ → TcpState → Tcp
abort_in st i syn_recv = abort_child st i (st.socks i).parent
abort_in st i _ = st

-- The second check, for a reset: the connection is aborted.
unfoldable pub abort : Tcp → ℕ → Tcp
abort st i =
    tcp_unbhash (tcp_unhash (tcp_set_state (abort_in st i (st.socks i).state) i closed) i) i

-- a child that is still in SYN-RECV leaves the hash table
abbrev pub drop_child : Tcp → ℕ → Parent → Tcp
drop_child st i no_parent = st
drop_child st i (child_of p) = tcp_unhash st i
drop_child st i dead_parent = tcp_unhash st i

abbrev pub drop_child_in : Tcp → ℕ → TcpState → Tcp
drop_child_in st i syn_recv = drop_child st i (st.socks i).parent
drop_child_in st i _ = st

-- The fourth check, for a SYN: the socket is closed and a reference is given up, and the next checks
-- follow.
unfoldable pub refuse_syn : Tcp → ℕ → Segment → Tcp
refuse_syn st i seg =
    let st' = tcp_send_reset st (some i) seg in
    free_sock (tcp_set_state (drop_child_in st' i (st'.socks i).state) i closed) i

-- the socket of a child once its parent has queued it
abbrev pub take_ack : Segment → TcpSock → TcpSock
take_ack seg tsk = record tsk { snd_una = seg.seg_ack }

unfoldable pub ack_synrecv : Tcp → ℕ → Segment → Check
ack_synrecv st i seg =
    let tsk = st.socks i in
    let (ok, st') = tcp_synrecv_ack st i in
    let opened =
      tcp_set_state (modify (modify st' i (take_ack seg)) i (update_window seg)) i established in
    if leb tsk.snd_una seg.seg_ack && leb seg.seg_ack tsk.snd_nxt
    then if ok then next opened else dropped st'
    else dropped (tcp_send_reset st (some i) seg)

-- what an acknowledgement of new data does, by state
unfoldable pub acked : Tcp → ℕ → Segment → TcpState → Check
acked st i seg fin_wait1 = next (modify (tcp_set_state st i fin_wait2) i (tcp_update_window seg))
acked st i seg closing = dropped (tcp_set_timewait_timer st i)
acked st i seg last_ack = dropped (tcp_unbhash (tcp_unhash (tcp_set_state st i closed) i) i)
acked st i seg _ = next (modify st i (tcp_update_window seg))

unfoldable pub ack_open : Tcp → ℕ → Segment → TcpState → Check
ack_open st i seg s =
    let tsk = st.socks i in
    let fresh = acked (modify st i (take_ack seg)) i seg s in
    if ltb tsk.snd_una seg.seg_ack && leb seg.seg_ack tsk.snd_nxt
    then fresh
    else if ltb tsk.snd_nxt seg.seg_ack
    then dropped st
    else next (modify st i (tcp_update_window seg))

-- The fifth check, with the state of the socket.
unfoldable pub ack_check : Tcp → ℕ → Segment → TcpState → Check
ack_check st i seg syn_recv = ack_synrecv st i seg
ack_check st i seg established = ack_open st i seg established
ack_check st i seg close_wait = ack_open st i seg close_wait
ack_check st i seg last_ack = ack_open st i seg last_ack
ack_check st i seg fin_wait1 = ack_open st i seg fin_wait1
ack_check st i seg closing = ack_open st i seg closing
ack_check st i seg closed = next st
ack_check st i seg listen = next st
ack_check st i seg syn_sent = next st
ack_check st i seg fin_wait2 = next st
ack_check st i seg time_wait = next st

-- the states in which text is taken
abbrev pub takes_text : TcpState → Bool
takes_text established = true
takes_text fin_wait1 = true
takes_text fin_wait2 = true
takes_text closed = false
takes_text listen = false
takes_text syn_recv = false
takes_text syn_sent = false
takes_text close_wait = false
takes_text last_ack = false
takes_text closing = false
takes_text time_wait = false

-- The seventh check.
unfoldable pub text_check : Tcp → ℕ → Segment → Option (Tcp × Segment)
text_check st i seg =
    if takes_text (st.socks i).state && (seg.tcphdr.psh || ltb 0 seg.dlen)
    then tcp_recv_text st i seg
    else some (st, seg)

-- the switch of the eighth check
unfoldable pub fin_state : Tcp → ℕ → TcpState → Tcp
fin_state st i syn_recv =
    tcp_recv_notify (modify (tcp_set_state st i close_wait) i (λ tsk. record tsk { f_push = true }))
      i
fin_state st i established =
    tcp_recv_notify (modify (tcp_set_state st i close_wait) i (λ tsk. record tsk { f_push = true }))
      i
fin_state st i fin_wait1 = tcp_set_state st i closing
fin_state st i time_wait = restart_timewait st i
fin_state st i fin_wait2 = tcp_set_timewait_timer st i
fin_state st i closed = st
fin_state st i listen = st
fin_state st i syn_sent = st
fin_state st i close_wait = st
fin_state st i last_ack = st
fin_state st i closing = st

-- rcv.nxt over the FIN, which is to be acknowledged
abbrev pub take_fin : Segment → TcpSock → TcpSock
take_fin seg tsk = record tsk { rcv_nxt = add32 seg.seg_seq 1; f_acknow = true }

-- The eighth check.
unfoldable pub fin_check : Tcp → ℕ → Segment → Tcp
fin_check st i seg =
    if seg.tcphdr.fin then modify (fin_state st i (st.socks i).state) i (take_fin seg) else st

-- the label `drop`
unfoldable pub drop_label : Tcp → ℕ → Segment → Tcp
drop_label st i seg =
    let tsk = st.socks i in
    discard (if tsk.f_acknow || tsk.f_ackdelay then tcp_send_ack st i (some seg) else st)

-- the checks behind the fifth
unfoldable pub text_and_fin : Tcp → ℕ → Segment → Option Tcp
text_and_fin st i seg = elim (text_check st i seg) [
  | none ↦ none
  | some (st', seg') ↦ some (drop_label (fin_check st' i seg') i seg')
]

-- what follows the fifth check
abbrev pub after_ack : ℕ → Segment → Check → Option Tcp
after_ack i seg (dropped st) = some (drop_label st i seg)
after_ack i seg (next st) = text_and_fin st i seg

unfoldable pub ack_and_on : Tcp → ℕ → Segment → Option Tcp
ack_and_on st i seg =
    if seg.tcphdr.ack
    then after_ack i seg (ack_check st i seg (st.socks i).state)
    else some (drop_label st i seg)

abbrev pub ask_ack : TcpSock → TcpSock
ask_ack tsk = record tsk { f_acknow = true }

-- tcp_process in the states that have no handler of their own
unfoldable pub process_open : Tcp → ℕ → Segment → Option Tcp
process_open st i seg =
    let h = seg.tcphdr in
    if not (seq_check seg (st.socks i))
    then some (drop_label (if h.rst then st else modify st i ask_ack) i seg)
    else if h.rst
    then some (drop_label (abort st i) i seg)
    else ack_and_on (if h.syn then refuse_syn st i seg else st) i seg

unfoldable pub process_by : Tcp → ℕ → Segment → TcpState → Option Tcp
process_by st i seg closed = some (tcp_closed st (some i) seg)
process_by st i seg listen = some (tcp_listen st i seg)
process_by st i seg syn_sent = some (tcp_synsent st i seg)
process_by st i seg _ = process_open st i seg

-- The socket that tcp_lookup_sock has found, or none.
unfoldable pub tcp_process : Tcp → Option ℕ → Segment → Option Tcp
tcp_process st none seg = some (tcp_closed st none seg)
tcp_process st (some i) seg = process_by st i seg (st.socks i).state

unfoldable pub tcp_recv : Tcp → Ip → TcpHdr → Option Tcp
tcp_recv st iphdr h =
    let (sk, st') = tcp_lookup_sock st iphdr.ip_src iphdr.ip_dst h.src h.dst in
    elim (tcp_process st' sk (tcp_segment_init iphdr h)) [
      | none ↦ none
      | some st'' ↦ some (elim sk [ none ↦ st'' | some i ↦ free_sock st'' i ])
    ]

-- The packet's IP header is in host order, and its length field reaches past the header.
unfoldable pub tcp_in : Tcp → Ip → Option Tcp
tcp_in st iphdr =
    let tcplen = iphdr.ip_len - iphlen iphdr in
    let h = read_hdr iphdr.ip_data in
    if (ltb tcplen tcp_hrd_sz || ltb tcplen (tcphlen h))
      || not (tcp_chksum iphdr.ip_src iphdr.ip_dst tcplen iphdr.ip_data == 0)
    then some (discard st)
    else tcp_recv st iphdr h
