-- ===== src/Tcp/Step/Graph.antt =====
-- The states of sockets, and what leaves them or another view of all sockets alone.
use tapip.Base.{List, Bool, ℕ, ◌≡◌, refl, sym, ap, ◌∙◌, ◌==◌, if-cases, ==_iff}
use tapip.Base.Ints.{ℤ}
use tapip.Sock.{Sock}
use tapip.Tcp.{
  TcpState, syn_recv, established, close_wait, last_ack, fin_wait1, fin_wait2, closing, time_wait,
  TcpSock, Tcp, modify,
}

-- the states behind the first two segments of a handshake
pub data HasPeer : TcpState → Type 0 where
  syn_recv_peer : HasPeer syn_recv
  established_peer : HasPeer established
  close_wait_peer : HasPeer close_wait
  last_ack_peer : HasPeer last_ack
  fin_wait1_peer : HasPeer fin_wait1
  fin_wait2_peer : HasPeer fin_wait2
  closing_peer : HasPeer closing
  time_wait_peer : HasPeer time_wait

abbrev pub state_of : Tcp → ℕ → TcpState
state_of st j = (st.socks j).state

-- What a view shows of every socket has not changed.
pub record SameView {X : Type 0} (view : TcpSock → X) (st st' : Tcp) : Type 0 where
  pub same : (j : ℕ) → view (st'.socks j) ≡ view (st.socks j)

-- A view that does not see the fields that queues, chains and reference counts change.
pub record IsInner {X : Type 0} (view : TcpSock → X) : Type 0 where
  pub unseen :
      (tsk : TcpSock) (sk : Sock) (bhashed linked : Bool) (accept_backlog : ℤ)
      (listen_queue accept_queue : List ℕ)
      → view (record tsk {
        sk = sk;
        bhashed = bhashed;
        linked = linked;
        accept_backlog = accept_backlog;
        listen_queue = listen_queue;
        accept_queue = accept_queue;
      })
        ≡ view tsk

instance abbrev pub state_IsInner : IsInner (λ (tsk : TcpSock). tsk.state)
state_IsInner = record { unseen = λ tsk sk b l n lq aq. refl }

-- No socket's state has changed.
abbrev pub Same : Tcp → Tcp → Type 0
Same = SameView (λ tsk. tsk.state)

pub Same-trans :
    {X : Type 0} {view : TcpSock → X} {a b c : Tcp}
    → SameView view a b
    → SameView view b c
    → SameView view a c
Same-trans p q = record { same = λ j. q.same j ∙ p.same j }

pub Same-refl : {X : Type 0} {view : TcpSock → X} {a : Tcp} → SameView view a a
Same-refl = record { same = λ j. refl }

pub modify-Same :
    {X : Type 0} {view : TcpSock → X} (st : Tcp) (i : ℕ) (f : TcpSock → TcpSock)
    → ((tsk : TcpSock) → view (f tsk) ≡ view tsk)
    → SameView view st (modify st i f)
modify-Same {view = view} st i f h = record {
  same = λ j.
      if-cases (λ (tsk : TcpSock). view tsk ≡ view (st.socks j)) (j == i)
        (λ e. h (st.socks i) ∙ ap (λ k. view (st.socks k)) (sym ((==_iff j i).0 e))) (λ e. refl);
}
