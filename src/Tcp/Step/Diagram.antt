-- ===== src/Tcp/Step/Diagram.antt =====
-- The state diagram that segments drive, after RFC 793: the state that a segment leads each socket to.
use tapip.Base.{
  Bool, true, false, ℕ, ◌≡◌, ◌==◌, Option, none, some, if◌then◌else◌, ltb, leb, ◌&&◌, ◌||◌, not,
}
use tapip.Base.Ints.{lebℤ}
use tapip.Tcp.{
  TcpState, closed, listen, syn_recv, syn_sent, established, close_wait, last_ack, fin_wait1,
  fin_wait2, closing, time_wait, Segment, Parent, no_parent, child_of, dead_parent, TcpSock, Tcp,
}
use tapip.Tcp.Process.{seq_check}
use tapip.Tcp.Step.Graph.{state_of}

-- the peer closes its side
abbrev pub peer_closes : TcpState → TcpState
peer_closes established = close_wait
peer_closes fin_wait1 = closing
peer_closes fin_wait2 = time_wait
peer_closes closed = closed
peer_closes listen = listen
peer_closes syn_recv = close_wait
peer_closes syn_sent = syn_sent
peer_closes close_wait = close_wait
peer_closes last_ack = last_ack
peer_closes closing = closing
peer_closes time_wait = time_wait

abbrev pub with_fin : Segment → TcpState → TcpState
with_fin seg s = if seg.tcphdr.fin then peer_closes s else s

-- all that was sent is acknowledged, a FIN included
abbrev pub acknowledged : TcpState → TcpState
acknowledged fin_wait1 = fin_wait2
acknowledged closing = time_wait
acknowledged last_ack = closed
acknowledged closed = closed
acknowledged listen = listen
acknowledged syn_recv = syn_recv
acknowledged syn_sent = syn_sent
acknowledged established = established
acknowledged close_wait = close_wait
acknowledged fin_wait2 = fin_wait2
acknowledged time_wait = time_wait

-- an acknowledgement in the states that await one: of something new, of what was never sent, or of
-- nothing new
abbrev pub by_ack : TcpSock → Segment → TcpState → TcpState
by_ack tsk seg s =
    if ltb tsk.snd_una seg.seg_ack && leb seg.seg_ack tsk.snd_nxt
    then with_fin seg (acknowledged s)
    else if ltb tsk.snd_nxt seg.seg_ack
    then s
    else with_fin seg s

abbrev pub listens : TcpState → Bool
listens listen = true
listens closed = false
listens syn_recv = false
listens syn_sent = false
listens established = false
listens close_wait = false
listens last_ack = false
listens fin_wait1 = false
listens fin_wait2 = false
listens closing = false
listens time_wait = false

-- the parent listens and can queue one more
abbrev pub can_queue : Tcp → Parent → Bool
can_queue st no_parent = false
can_queue st dead_parent = false
can_queue st (child_of p) =
    listens (state_of st p) && not (lebℤ (st.socks p).backlog (st.socks p).accept_backlog)

-- an acceptable segment with an ACK
abbrev pub answered : Tcp → ℕ → Segment → TcpState → TcpState
answered st i seg syn_recv =
    if leb (st.socks i).snd_una seg.seg_ack && leb seg.seg_ack (st.socks i).snd_nxt
    then if can_queue st (st.socks i).parent then with_fin seg established else syn_recv
    else syn_recv
answered st i seg established = by_ack (st.socks i) seg established
answered st i seg close_wait = by_ack (st.socks i) seg close_wait
answered st i seg last_ack = by_ack (st.socks i) seg last_ack
answered st i seg fin_wait1 = by_ack (st.socks i) seg fin_wait1
answered st i seg closing = by_ack (st.socks i) seg closing
answered st i seg fin_wait2 = with_fin seg fin_wait2
answered st i seg time_wait = with_fin seg time_wait
answered st i seg closed = closed
answered st i seg listen = listen
answered st i seg syn_sent = syn_sent

-- a segment for a socket behind the first two segments of its handshake
abbrev pub after_segment : Tcp → ℕ → Segment → TcpState → TcpState
after_segment st i seg s =
    if not (seq_check seg (st.socks i))
    then s
    else if seg.tcphdr.rst
    then closed
    else if seg.tcphdr.syn
    then closed
    else if seg.tcphdr.ack
    then answered st i seg s
    else s

-- a segment in answer to a SYN: with a SYN of its own it opens the connection, whole if it
-- acknowledges the SYN
abbrev pub after_syn_sent : TcpSock → Segment → TcpState
after_syn_sent tsk seg =
    let una = if seg.tcphdr.ack then seg.seg_ack else tsk.snd_una in
    if seg.tcphdr.ack && (leb seg.seg_ack tsk.iss || ltb tsk.snd_nxt seg.seg_ack)
    then syn_sent
    else if seg.tcphdr.rst
    then if seg.tcphdr.ack then closed else syn_sent
    else if seg.tcphdr.syn
    then if ltb tsk.iss una then established else syn_recv
    else syn_sent

-- the state of socket i set, and those of all others left
abbrev pub with_state : Tcp → ℕ → TcpState → ℕ → TcpState
with_state st i s j = if j == i then s else state_of st j

-- A listening socket begins a child for a segment that has a SYN and neither RST nor ACK.
abbrev pub with_child : Tcp → Segment → ℕ → TcpState
with_child st seg j =
    if seg.tcphdr.rst
    then state_of st j
    else if seg.tcphdr.ack
    then state_of st j
    else if seg.tcphdr.syn
    then with_state st st.next_sk syn_recv j
    else state_of st j

abbrev pub next_by : Tcp → ℕ → Segment → TcpState → ℕ → TcpState
next_by st i seg closed = state_of st
next_by st i seg listen = with_child st seg
next_by st i seg syn_sent = with_state st i (after_syn_sent (st.socks i) seg)
next_by st i seg syn_recv = with_state st i (after_segment st i seg syn_recv)
next_by st i seg established = with_state st i (after_segment st i seg established)
next_by st i seg close_wait = with_state st i (after_segment st i seg close_wait)
next_by st i seg last_ack = with_state st i (after_segment st i seg last_ack)
next_by st i seg fin_wait1 = with_state st i (after_segment st i seg fin_wait1)
next_by st i seg fin_wait2 = with_state st i (after_segment st i seg fin_wait2)
next_by st i seg closing = with_state st i (after_segment st i seg closing)
next_by st i seg time_wait = with_state st i (after_segment st i seg time_wait)

-- the state of every socket after a segment for a socket, or for none
abbrev pub next_state : Tcp → Option ℕ → Segment → ℕ → TcpState
next_state st none seg = state_of st
next_state st (some i) seg = next_by st i seg (state_of st i)

-- The states of all sockets are the ones given.
pub record Goes (to : ℕ → TcpState) (st' : Tcp) : Type 0 where
  pub goes : (j : ℕ) → state_of st' j ≡ to j
