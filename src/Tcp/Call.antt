-- ===== src/Tcp/Call.antt =====
-- tcp/tcp_sock.c: the calls of the socket layer. A call that sleeps is cut in two: the part up to
-- sleep_on, and the part behind it, which takes the state that the sleeper finds.
pub mod Read
use tapip.Base.{
  ℕ, zero, suc, ◌-◌, List, [], ◌∷◌, ◌++◌, Option, none, some, Bool, true, false, ◌==◌, ltb, leb,
  if◌then◌else◌, ◌&&◌, ◌||◌, not, add32,
}
use tapip.Base.Ints.{ℤ, pos, decr, lebℤ}
use tapip.Cbuf.{Cbuf, used, read_cbuf}
use tapip.Tcp.{
  TcpState, closed, listen, syn_recv, syn_sent, established, close_wait, last_ack, fin_wait1,
  fin_wait2, closing, time_wait, no_parent, child_of, dead_parent, TcpSock, Tcp, fault, modify,
  emit, tcp_set_state, free_sock, alloc_new_iss,
}
use tapip.Tcp.Hash.{tcp_hash, tcp_unhash}
use tapip.Tcp.Port.{tcp_unbhash}
use tapip.Tcp.Out.{tcp_send_syn, tcp_send_fin}
use tapip.Tcp.Text.{tcp_free_buf, tcp_free_reass_head}
use tapip.Tcp.Send.{tcp_send_text}

-- the fields that tcp_connect sets in front of tcp_hash
abbrev pub connecting : ℕ → ℕ → ℕ → TcpSock → TcpSock
connecting daddr dport iss tsk = record tsk {
  sk = record (tsk.sk) { sk_daddr = daddr; sk_dport = dport };
  state = syn_sent;
  iss = iss;
  snd_una = iss;
  snd_nxt = add32 iss 1;
}

-- tcp_pre_wait_connect
abbrev pub tcp_pre_wait_connect : TcpSock → TcpSock
tcp_pre_wait_connect tsk = record tsk { wait_connect = true }

-- tcp_connect up to sleep_on; `false` means that it has returned -1 before.
unfoldable pub tcp_connect : Tcp → ℕ → ℕ → ℕ → Bool × Tcp
tcp_connect st i daddr dport =
    let (iss, st') = alloc_new_iss st in
    let (ok, st'') = tcp_hash (modify st' i (connecting daddr dport iss)) i in
    let sent = tcp_send_syn (modify st'' i tcp_pre_wait_connect) i none in
    elim ((st.socks i).state) [
      | closed ↦ if ok then (true, sent) else (false, tcp_set_state st'' i closed)
      | _ ↦ (false, st)
    ]

-- The rest of tcp_connect, with the result of sleep_on; `true` is the result 0, `false` the result -1.
unfoldable pub tcp_connect_woken : Tcp → ℕ → Bool → Bool × Tcp
tcp_connect_woken st i ok =
    let st' = modify st i (λ tsk. record tsk { wait_connect = false }) in
    let failed : Bool × Tcp = (false, tcp_set_state (tcp_unbhash (tcp_unhash st' i) i) i closed) in
    elim ((st.socks i).state) [ established ↦ if ok then (true, st') else failed | _ ↦ failed ]

abbrev pub tcp_max_backlog : ℕ
tcp_max_backlog = 128

abbrev pub start_listen : ℤ → TcpSock → TcpSock
start_listen backlog tsk = record tsk { backlog = backlog; state = listen }

-- tcp_listen; `true` is the result 0, `false` the result -1.
unfoldable pub tcp_listen : Tcp → ℕ → ℤ → Bool × Tcp
tcp_listen st i backlog =
    let st' = modify st i (start_listen backlog) in
    let (ok, hashed) = tcp_hash st' i in
    if (st.socks i).sk.sk_sport == 0 || not (lebℤ backlog (pos tcp_max_backlog))
    then (false, st)
    else elim ((st.socks i).state) [
      | closed ↦ (true, hashed)
      | listen ↦ (true, st')
      | _ ↦ (false, st)
    ]

-- tcp_accept_dequeue, with the child that stands first
unfoldable pub tcp_accept_dequeue : Tcp → ℕ → ℕ → List ℕ → Tcp
tcp_accept_dequeue st i c rest =
    modify (modify st c (λ tsk. record tsk { linked = false })) i
      (λ tsk. record tsk { accept_queue = rest; accept_backlog = decr tsk.accept_backlog })

-- free_sock(&newtsk->parent->sk); newtsk->parent = TCP_DEAD_PARENT
unfoldable pub leave_parent : Tcp → ℕ → Tcp
leave_parent st c =
    let st' : Tcp = elim ((st.socks c).parent) [
      | child_of p ↦ free_sock st p
      | _ ↦ emit st fault
    ] in
    modify st' c (λ tsk. record tsk { parent = dead_parent })

-- One look at the accept queue. `none` means that the caller sleeps on wait_accept and looks again.
unfoldable pub tcp_accept : Tcp → ℕ → Option (ℕ × Tcp)
tcp_accept st i = elim ((st.socks i).accept_queue) [
  | [] ↦ none
  | c ∷ rest ↦ some (c, leave_parent (free_sock (tcp_accept_dequeue st i c rest) c) c)
]

-- one round of tcp_clear_listen_queue, for a child in SYN-RECV
unfoldable pub clear_child : Tcp → ℕ → Tcp
clear_child st c =
    let st' : Tcp = elim ((st.socks c).parent) [
      | child_of p ↦ free_sock st p
      | _ ↦ emit st fault
    ] in
    free_sock (tcp_unhash (modify st' c (λ tsk. record tsk { parent = no_parent })) c) c

unfoldable pub clear_listen : Tcp → List ℕ → Tcp
clear_listen st [] = st
clear_listen st (c ∷ queue) =
    let st' = modify st c (λ tsk. record tsk { linked = false }) in
    let st'' : Tcp = elim ((st.socks c).state) [ syn_recv ↦ clear_child st' c | _ ↦ st' ] in
    clear_listen st'' queue

unfoldable pub tcp_clear_listen_queue : Tcp → ℕ → Tcp
tcp_clear_listen_queue st i =
    let queue = (st.socks i).listen_queue in
    clear_listen (modify st i (λ tsk. record tsk { listen_queue = [] })) queue

-- tsk->state = s; tcp_send_fin(tsk); tsk->snd_nxt++
unfoldable pub close_to : Tcp → ℕ → TcpState → Tcp
close_to st i s =
    modify (tcp_send_fin (tcp_set_state st i s) i) i
      (λ tsk. record tsk { snd_nxt = add32 tsk.snd_nxt 1 })

unfoldable pub close_listen : Tcp → ℕ → Tcp
close_listen st i =
    tcp_set_state (tcp_unbhash (tcp_unhash (tcp_clear_listen_queue st i) i) i) i closed

-- the switch of tcp_close
unfoldable pub close_state : Tcp → ℕ → TcpState → Tcp
close_state st i listen = close_listen st i
close_state st i established = close_to st i fin_wait1
close_state st i close_wait = close_to st i last_ack
close_state st i closed = st
close_state st i syn_recv = st
close_state st i syn_sent = st
close_state st i last_ack = st
close_state st i fin_wait1 = st
close_state st i fin_wait2 = st
close_state st i closing = st
close_state st i time_wait = st

unfoldable pub tcp_close : Tcp → ℕ → Tcp
tcp_close st i =
    modify (close_state st i (st.socks i).state) i (λ tsk. tcp_free_reass_head (tcp_free_buf tsk))

-- The result is that of tcp_send_text.
unfoldable pub tcp_send_buf : Tcp → ℕ → List ℕ → ℕ → Option (Option ℕ × Tcp)
tcp_send_buf st i buf len = elim ((st.socks i).state) [
  | established ↦ tcp_send_text st i buf len
  | close_wait ↦ tcp_send_text st i buf len
  | _ ↦ some (none, st)
]

-- CBUFUSED, of a buffer that may not be there
abbrev pub waiting : TcpSock → ℕ
waiting tsk = elim (tsk.rcv_buf) [ none ↦ 0 | some c ↦ used c ]

-- How far tcp_recv_buf gets: back to the user with the bytes copied, or to sleep with them.
pub data Recv : Type 0 where
  returns : List ℕ → TcpSock → Recv
  sleeps : List ℕ → TcpSock → Recv

-- what a round stores after read_cbuf
abbrev pub took : TcpSock → ℕ → Option Cbuf → TcpSock
took tsk curlen buf = record tsk { rcv_buf = buf; rcv_wnd = add32 tsk.rcv_wnd curlen }

-- PUSH and nothing left in the buffer
abbrev pub is_pushed : TcpSock → Bool
is_pushed tsk = tsk.f_push && waiting tsk == 0

-- The loop from its test on. `got` are the bytes copied to the user, `left` the room left there. The
-- fuel 2 lets one round copy; `none` means that it ran out, or that read_cbuf does not return.
unfoldable pub recv_loop : ℕ → TcpSock → List ℕ → ℕ → Option Recv
recv_loop zero tsk got left = none
recv_loop (suc fuel) tsk got left =
    if ltb 0 left
    then elim (read_cbuf tsk.rcv_buf left) [
      | none ↦ none
      | some (curlen, bytes, buf) ↦
          let tsk' = took tsk curlen buf in
          let rest = recv_loop fuel tsk' (got ++ bytes) (left - curlen) in
          if not (tsk'.f_push || (ltb 0 (waiting tsk') || leb left curlen))
          then some (sleeps (got ++ bytes) tsk')
          else if is_pushed tsk'
          then some (returns (got ++ bytes) (record tsk' { f_push = false }))
          else rest
    ]
    else some (returns got tsk)

-- The part behind sleep_on, when it has returned 0.
unfoldable pub recv_woken : TcpSock → List ℕ → ℕ → Option Recv
recv_woken tsk got left =
    if not (tsk.f_push || ltb 0 (waiting tsk))
    then some (sleeps got tsk)
    else if is_pushed tsk
    then some (returns got (record tsk { f_push = false }))
    else recv_loop 2 tsk got left

-- the states in which a user may read
abbrev pub may_read : TcpSock → Bool
may_read tsk = elim (tsk.state) [
  | established ↦ true
  | fin_wait1 ↦ true
  | fin_wait2 ↦ true
  | close_wait ↦ ltb 0 (waiting tsk)
  | _ ↦ false
]

-- tcp_recv_buf up to its first sleep; the inner `none` is the result -1, the outer one that of the
-- loop.
unfoldable pub tcp_recv_buf : TcpSock → ℕ → Option (Option Recv)
tcp_recv_buf tsk len =
    if may_read tsk
    then elim (recv_loop 2 tsk [] len) [ none ↦ none | some r ↦ some (some r) ]
    else some none
