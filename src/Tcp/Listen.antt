-- ===== src/Tcp/Listen.antt =====
-- tcp/tcp_state.c and tcp/tcp_sock.c: new sockets, and a segment for a listening socket.
use tapip.Base.{ℕ, ◌+◌, [], ◌∷◌, Option, none, some, true, false, ◌==◌, if◌then◌else◌, ◌||◌, add32}
use tapip.Base.Ints.{pos}
use tapip.Checksum.{ip_p_tcp}
use tapip.Tcp.{
  closed, syn_recv, Segment, no_parent, child_of, TcpSock, Tcp, pkb_freed, modify, emit,
  get_tcp_sock, alloc_new_iss, tcp_default_window,
}
use tapip.Tcp.Hash.{tcp_hash}
use tapip.Tcp.Out.{tcp_send_reset, tcp_send_synack}

-- the memory of a new socket, with zeros but for what tcp_alloc_sock stores
abbrev pub fresh_sock : TcpSock
fresh_sock = record {
  sk = record {
    protocol = 0;
    sk_saddr = 0;
    sk_daddr = 0;
    sk_sport = 0;
    sk_dport = 0;
    sk_dst = none;
    recv_queue = [];
    recv_wait = false;
    hash = 0;
    hashed = false;
    refcnt = 0;
    released = false;
  };
  bhashed = false;
  bhash = 0;
  accept_backlog = pos 0;
  backlog = pos 0;
  listen_queue = [];
  accept_queue = [];
  linked = false;
  timeout = 0;
  wait_accept = false;
  wait_connect = false;
  parent = no_parent;
  f_push = false;
  f_acknow = false;
  f_ackdelay = false;
  rcv_buf = none;
  rcv_reass = [];
  snd_una = 0;
  snd_nxt = 0;
  snd_wnd = 0;
  snd_up = 0;
  snd_wl1 = 0;
  snd_wl2 = 0;
  iss = 0;
  rcv_nxt = 0;
  rcv_wnd = tcp_default_window;
  rcv_up = 0;
  irs = 0;
  state = closed;
}

-- tcp_alloc_sock for a protocol that it takes: the new socket is the number that comes first.
unfoldable pub new_sock : Tcp → ℕ × Tcp
new_sock st = (
  st.next_sk,
  modify (record st { next_sk = st.next_sk + 1; tcp_id = st.tcp_id + 1 }) st.next_sk
      (λ old. fresh_sock),
)

unfoldable pub tcp_alloc_sock : Tcp → ℕ → Option ℕ × Tcp
tcp_alloc_sock st protocol =
    let (i, st') = new_sock st in
    if protocol == 0 || protocol == ip_p_tcp then (some i, st') else (none, st)

-- the fields of a child that the segment gives
abbrev pub child_fields : Segment → TcpSock → TcpSock
child_fields seg tsk = record tsk {
  sk = record (tsk.sk) {
    sk_saddr = seg.ip_dst;
    sk_daddr = seg.ip_src;
    sk_sport = seg.tcphdr.dst;
    sk_dport = seg.tcphdr.src;
  };
  state = syn_recv;
}

-- the end of tcp_listen_child_sock: the child keeps a reference to its parent, and is queued there
unfoldable pub adopt : Tcp → ℕ → ℕ → Tcp
adopt st i c =
    let st' =
      modify (get_tcp_sock st i) c (λ tsk. record tsk { parent = child_of i; linked = true }) in
    get_tcp_sock (modify st' i (λ tsk. record tsk { listen_queue = c ∷ tsk.listen_queue })) c

-- A listening socket's protocol is one that tcp_alloc_sock took, so a child is made.
unfoldable pub tcp_listen_child_sock : Tcp → ℕ → Segment → Option ℕ × Tcp
tcp_listen_child_sock st i seg =
    let (c, st') = new_sock st in
    let (ok, st'') = tcp_hash (modify st' c (child_fields seg)) c in
    let freed = modify st'' c (λ tsk. record tsk { sk = record (tsk.sk) { released = true } }) in
    if ok then (some c, adopt st'' i c) else (none, freed)

-- the sequence numbers of a child, in front of the SYN+ACK and behind it
abbrev pub first_syn : Segment → ℕ → TcpSock → TcpSock
first_syn seg iss tsk = record tsk { irs = seg.seg_seq; iss = iss; rcv_nxt = add32 seg.seg_seq 1 }

abbrev pub after_synack : TcpSock → TcpSock
after_synack tsk = record tsk { snd_nxt = add32 tsk.iss 1; snd_una = tsk.iss }

unfoldable pub start_child : Tcp → ℕ → Segment → Tcp
start_child st c seg =
    let (iss, st') = alloc_new_iss st in
    modify (tcp_send_synack (modify st' c (first_syn seg iss)) c seg) c after_synack

abbrev pub start_if : Tcp → Option ℕ → Segment → Tcp
start_if st none seg = st
start_if st (some c) seg = start_child st c seg

unfoldable pub tcp_listen : Tcp → ℕ → Segment → Tcp
tcp_listen st i seg =
    let h = seg.tcphdr in
    let (child, st') = tcp_listen_child_sock st i seg in
    emit
      (if h.rst
        then st
        else if h.ack
        then tcp_send_reset st (some i) seg
        else if h.syn
        then start_if st' child seg
        else st)
      pkb_freed
