-- ===== src/Tcp/Step/Quiet.antt =====
-- The operations of TCP that leave the states of all sockets alone.
use tapip.Base.{
  false, true, List, ◌∷◌, ℕ, ◌≡◌, refl, Bool, if-cases, Option-cases, inl, inr, arith, Option, none,
  some,
}
use tapip.Sock
use tapip.Sock.{Sock, unlink}
use tapip.Base.Ints.{incr}
use tapip.Net.{Rtentry, Pkbuf}
use tapip.Route.{rt_output}
use tapip.Tcp.{
  Segment, TcpSock, Tcp, TcpEvent, modify, emit, get_tcp_sock, free_sock, Parent, no_parent,
  child_of, dead_parent, TcpState, listen, syn_recv,
}
use tapip.Tcp.Hash.{sock_del_hash, tcp_unhash}
use tapip.Tcp.Port.{tcp_unbhash}
use tapip.Tcp.Out.{
  fill_ip, cache_dst, init_by, route_of, give_out, tcp_init_pkb, send_between, tcp_send_out,
  tcp_send_reset, tcp_send_ack, tcp_send_synack,
}
use tapip.Tcp.Text.{recv_text, take_text, tcp_recv_notify, tcp_recv_text}
use tapip.Tcp.Text.State.{TextKeeps, recv_text-Keeps}
use tapip.Tcp.Process.{
  signal_connect, tcp_accept_queue_full, tcp_accept_enqueue, synrecv_at, synrecv_by,
  tcp_synrecv_ack,
}
use tapip.Tcp.Step.{abort_child, abort_in, drop_child, drop_child_in}
use tapip.Tcp.Step.Graph.{
  SameView, IsInner, state_IsInner, modify-Same, Same, Same-trans, Same-refl,
}

sk_unseen :
    {X : Type 0} {view : TcpSock → X} (inner : IsInner view) (tsk : TcpSock) (x : Sock)
    → view (record tsk { sk = x }) ≡ view tsk
sk_unseen inner tsk x =
    inner.unseen tsk x tsk.bhashed tsk.linked tsk.accept_backlog tsk.listen_queue tsk.accept_queue

bhashed_unseen :
    {X : Type 0} {view : TcpSock → X} (inner : IsInner view) (tsk : TcpSock) (b : Bool)
    → view (record tsk { bhashed = b }) ≡ view tsk
bhashed_unseen inner tsk b =
    inner.unseen tsk tsk.sk b tsk.linked tsk.accept_backlog tsk.listen_queue tsk.accept_queue

queues_unseen :
    {X : Type 0} {view : TcpSock → X} (inner : IsInner view) (tsk : TcpSock) (lq aq : List ℕ)
    → view (record tsk { listen_queue = lq; accept_queue = aq }) ≡ view tsk
queues_unseen inner tsk lq aq =
    inner.unseen tsk tsk.sk tsk.bhashed tsk.linked tsk.accept_backlog lq aq

abbrev InitSame : {X : Type 0} → (TcpSock → X) → Tcp → Option (Pkbuf × Tcp) → Type 0
InitSame view st none = Unit
InitSame view st (some r) = SameView view st r.1

module _ {X : Type 0} {view : TcpSock → X} ⦃inner : IsInner view⦄ where
  pub emit-Same : (st : Tcp) (e : TcpEvent) → SameView view st (emit st e)
  emit-Same st e = record { same = λ j. refl }

  pub get_tcp_sock-Same : (st : Tcp) (i : ℕ) → SameView view st (get_tcp_sock st i)
  unfolding get_tcp_sock
  get_tcp_sock-Same st i = modify-Same st i _ (λ tsk. sk_unseen inner tsk (Sock.get_sock tsk.sk))

  pub free_sock-Same : (st : Tcp) (i : ℕ) → SameView view st (free_sock st i)
  unfolding free_sock
  free_sock-Same st i = modify-Same st i _ (λ tsk. sk_unseen inner tsk (Sock.free_sock tsk.sk))

  pub tcp_unbhash-Same : (st : Tcp) (i : ℕ) → SameView view st (tcp_unbhash st i)
  unfolding tcp_unbhash
  tcp_unbhash-Same st i =
      if-cases (SameView view st) ((st.socks i).bhashed)
        (λ b.
          Same-trans
            (record {
              same =
                  (modify-Same st i (λ tsk. record tsk { bhashed = false })
                    (λ tsk. bhashed_unseen inner tsk false)).same;
            })
            (free_sock-Same _ i))
        (λ b. Same-refl)

  sock_del_hash-Same : (st : Tcp) (i : ℕ) → SameView view st (sock_del_hash st i)
  unfolding sock_del_hash
  sock_del_hash-Same st i =
      if-cases (SameView view st) ((st.socks i).sk.hashed)
        (λ b.
          Same-trans
            (record {
              same =
                  (modify-Same st i (λ tsk. record tsk { sk = record (tsk.sk) { hashed = false } })
                    (λ tsk. sk_unseen inner tsk (record (tsk.sk) { hashed = false }))).same;
            })
            (free_sock-Same _ i))
        (λ b. Same-refl)

  pub tcp_unhash-Same : (st : Tcp) (i : ℕ) → SameView view st (tcp_unhash st i)
  unfolding tcp_unhash
  tcp_unhash-Same st i =
      Same-trans (sock_del_hash-Same st i)
        (modify-Same _ i _ (λ tsk. sk_unseen inner tsk (record (tsk.sk) { hash = 0 })))

  cache-Same : (st : Tcp) (tsk : Option ℕ) (pkb' : Pkbuf) → SameView view st (cache_dst st tsk pkb')
  unfolding cache_dst
  cache-Same st none pkb' = Same-refl
  cache-Same st (some i) pkb' =
      modify-Same st i _ (λ tsk. sk_unseen inner tsk (record (tsk.sk) { sk_dst = pkb'.pk_rtdst }))

init_by-Same :
    {X : Type 0} (view : TcpSock → X) ⦃inner : IsInner view⦄ (st : Tcp) (tsk : Option ℕ)
    (dst : Option Rtentry) (pkb : Pkbuf) (saddr : ℕ)
    → InitSame view st (init_by st tsk dst pkb saddr)
unfolding init_by
init_by-Same view st tsk (some rt) pkb saddr = Same-refl
init_by-Same view st tsk none pkb saddr = elim (Option-cases (rt_output st.routes pkb)) [
  | inl e ↦ rw (e, init_by) tt
  | inr (pkb', e) ↦ rw (e, init_by) (cache-Same st tsk pkb')
]

module _ {X : Type 0} {view : TcpSock → X} ⦃inner : IsInner view⦄ where
  send_between-Same :
      (st : Tcp) (tsk : Option ℕ) (pkb : Pkbuf) (saddr daddr : ℕ)
      → SameView view st (send_between st tsk pkb saddr daddr)
  unfolding send_between tcp_init_pkb
  send_between-Same st tsk pkb saddr daddr =
      sent (init_by st tsk (route_of st tsk) (fill_ip st pkb daddr) saddr)
        (init_by-Same view st tsk (route_of st tsk) (fill_ip st pkb daddr) saddr)
    where
      sent : (o : Option (Pkbuf × Tcp)) → InitSame view st o → SameView view st (give_out st o)
      sent none p = emit-Same st _
      sent (some r) p = Same-trans p (emit-Same r.1 _)

  pub tcp_send_out-Same :
      (st : Tcp) (tsk : Option ℕ) (pkb : Pkbuf) (seg : Option Segment)
      → SameView view st (tcp_send_out st tsk pkb seg)
  unfolding tcp_send_out
  tcp_send_out-Same st tsk pkb (some seg) = send_between-Same st tsk pkb seg.ip_dst seg.ip_src
  tcp_send_out-Same st (some i) pkb none =
      send_between-Same st (some i) pkb (st.socks i).sk.sk_saddr (st.socks i).sk.sk_daddr
  tcp_send_out-Same st none pkb none = emit-Same st _

  pub tcp_send_reset-Same :
      (st : Tcp) (tsk : Option ℕ) (seg : Segment) → SameView view st (tcp_send_reset st tsk seg)
  unfolding tcp_send_reset
  tcp_send_reset-Same st tsk seg =
      if-cases (SameView view st) (seg.tcphdr.rst) (λ b. Same-refl)
        (λ b. tcp_send_out-Same st none _ _)

  pub tcp_send_ack-Same :
      (st : Tcp) (i : ℕ) (seg : Option Segment) → SameView view st (tcp_send_ack st i seg)
  unfolding tcp_send_ack
  tcp_send_ack-Same st i none = emit-Same st _
  tcp_send_ack-Same st i (some seg) =
      if-cases (SameView view st) (seg.tcphdr.rst) (λ b. Same-refl)
        (λ b. tcp_send_out-Same st (some i) _ _)

  pub tcp_send_synack-Same :
      (st : Tcp) (i : ℕ) (seg : Segment) → SameView view st (tcp_send_synack st i seg)
  unfolding tcp_send_synack
  tcp_send_synack-Same st i seg =
      if-cases (SameView view st) (seg.tcphdr.rst) (λ b. Same-refl)
        (λ b. tcp_send_out-Same st (some i) _ _)

  pub signal_connect-Same : (st : Tcp) (i : ℕ) → SameView view st (signal_connect st i)
  signal_connect-Same st i =
      if-cases (SameView view st) ((st.socks i).wait_connect) (λ b. emit-Same st _) (λ b. Same-refl)

  pub tcp_recv_notify-Same : (st : Tcp) (i : ℕ) → SameView view st (tcp_recv_notify st i)
  unfolding tcp_recv_notify
  tcp_recv_notify-Same st i =
      if-cases (SameView view st) ((st.socks i).sk.recv_wait) (λ b. emit-Same st _) (λ b. Same-refl)

  tcp_accept_enqueue-Same : (st : Tcp) (i p : ℕ) → SameView view st (tcp_accept_enqueue st i p)
  unfolding tcp_accept_enqueue
  tcp_accept_enqueue-Same st i p =
      Same-trans
        (if-cases (SameView view st) ((st.socks i).linked)
          (λ b. modify-Same st p _ (λ tsk.
            queues_unseen inner tsk (unlink i tsk.listen_queue) (unlink i tsk.accept_queue)))
          (λ b. Same-refl))
        (Same-trans
          (modify-Same _ p _
            (λ tsk. queues_unseen inner tsk tsk.listen_queue (i ∷ tsk.accept_queue)))
          (modify-Same _ i _ (λ tsk.
            inner.unseen tsk tsk.sk tsk.bhashed true (incr tsk.accept_backlog) tsk.listen_queue
              tsk.accept_queue)))

  synrecv_at-Same : (st : Tcp) (i p : ℕ) (s : TcpState) → SameView view st (synrecv_at st i p s).1
  unfolding synrecv_at
  synrecv_at-Same st i p listen =
      if-cases (λ (r : Bool × Tcp). SameView view st r.1) (tcp_accept_queue_full (st.socks p))
        (λ b. Same-refl) (λ b. Same-trans (tcp_accept_enqueue-Same st i p) (emit-Same _ _))
  synrecv_at-Same st i p _ = Same-refl

  synrecv_by-Same :
      (st : Tcp) (i : ℕ) (parent : Parent) → SameView view st (synrecv_by st i parent).1
  unfolding synrecv_by
  synrecv_by-Same st i no_parent = emit-Same st _
  synrecv_by-Same st i dead_parent = emit-Same st _
  synrecv_by-Same st i (child_of p) = synrecv_at-Same st i p (st.socks p).state

  pub tcp_synrecv_ack-Same : (st : Tcp) (i : ℕ) → SameView view st (tcp_synrecv_ack st i).1
  unfolding tcp_synrecv_ack
  tcp_synrecv_ack-Same st i = synrecv_by-Same st i (st.socks i).parent

  abort_child-Same : (st : Tcp) (i : ℕ) (p : Parent) → SameView view st (abort_child st i p)
  abort_child-Same st i no_parent = signal_connect-Same st i
  abort_child-Same st i (child_of p) = tcp_unhash-Same st i
  abort_child-Same st i dead_parent = tcp_unhash-Same st i

  pub abort_in-Same : (st : Tcp) (i : ℕ) (s : TcpState) → SameView view st (abort_in st i s)
  abort_in-Same st i syn_recv = abort_child-Same st i (st.socks i).parent
  abort_in-Same st i _ = Same-refl

  drop_child-Same : (st : Tcp) (i : ℕ) (p : Parent) → SameView view st (drop_child st i p)
  drop_child-Same st i no_parent = Same-refl
  drop_child-Same st i (child_of p) = tcp_unhash-Same st i
  drop_child-Same st i dead_parent = tcp_unhash-Same st i

  pub drop_child_in-Same :
      (st : Tcp) (i : ℕ) (s : TcpState) → SameView view st (drop_child_in st i s)
  drop_child_in-Same st i syn_recv = drop_child-Same st i (st.socks i).parent
  drop_child_in-Same st i _ = Same-refl

abbrev pub TextSame : Tcp → Option (Tcp × Segment) → Type 0
TextSame st none = Unit
TextSame st (some r) = Same st r.0

pub tcp_recv_text-Same : (st : Tcp) (i : ℕ) (seg : Segment) → TextSame st (tcp_recv_text st i seg)
unfolding tcp_recv_text
tcp_recv_text-Same st i seg =
    received (recv_text (st.socks i) seg) (recv_text-Keeps (st.socks i) seg)
  where
    stored : (tsk : TcpSock) → tsk.state ≡ (st.socks i).state → Same st (modify st i (λ old. tsk))
    stored tsk e = record { same = λ j. ground arith }

    received :
        (r : Option (TcpSock × Segment)) → TextKeeps (st.socks i) r → TextSame st (take_text st i r)
    received none k = tt
    received (some (tsk, seg')) k =
        if-cases (Same st) (tsk.f_push) (λ b. Same-trans (stored tsk k) (tcp_recv_notify-Same _ i))
          (λ b. stored tsk k)
