-- ===== src/Tcp/Step/Moves.antt =====
-- The checks of tcp_process, against the state diagram.
use tapip.Base.{
  ℕ, Bool, ◌≡◌, refl, sym, ap, ◌∙◌, true, false, not, ◌==◌, ==_iff, ltb, leb, if-cases,
  if◌then◌else◌, ◌&&◌, ◌||◌, some, arith,
}
use mathlib.Core.Path.{subst}
use tapip.Tcp.{
  TcpState, closed, listen, syn_recv, syn_sent, established, close_wait, last_ack, fin_wait1,
  fin_wait2, closing, time_wait, Segment, Parent, no_parent, child_of, dead_parent, TcpSock, Tcp,
  modify, tcp_set_state,
}
use tapip.Tcp.Hash.{tcp_unhash}
use tapip.Tcp.Port.{tcp_unbhash}
use tapip.Tcp.Out.{tcp_send_reset}
use tapip.Tcp.Text.{tcp_recv_notify}
use tapip.Tcp.Timer.{tcp_set_timewait_timer}
use tapip.Tcp.Process.{
  update_window, queue_child, tcp_accept_queue_full, synrecv_at, synrecv_by, tcp_synrecv_ack,
  tcp_update_window, Check, next, dropped,
}
use tapip.Tcp.Step.{
  abort, refuse_syn, take_ack, ack_synrecv, acked, ack_open, ack_check, fin_state, take_fin,
  fin_check, drop_label,
}
use tapip.Tcp.Step.Diagram.{
  peer_closes, with_fin, acknowledged, by_ack, can_queue, answered, with_state, Goes, listens,
}
use tapip.Tcp.Step.Graph.{state_of, Same, Same-trans, Same-refl, state_IsInner, modify-Same}
use tapip.Tcp.Step.Quiet.{
  abort_in-Same, drop_child_in-Same, emit-Same, free_sock-Same, tcp_unbhash-Same, tcp_unhash-Same,
  tcp_send_reset-Same, tcp_send_ack-Same, tcp_recv_notify-Same, tcp_synrecv_ack-Same,
  get_tcp_sock-Same,
}

-- what follows a step leaves the states
pub quiet : {to : ℕ → TcpState} {b c : Tcp} → Goes to b → Same b c → Goes to c
quiet p q = record { goes = λ j. q.same j ∙ p.goes j }

pub after_quiet :
    {a b c : Tcp} (i : ℕ) (s : TcpState)
    → Same a b
    → Goes (with_state b i s) c
    → Goes (with_state a i s) c
after_quiet i s q p = record { goes = λ j. p.goes j ∙ ap (λ t. if j == i then s else t) (q.same j) }

-- The socket's state is set twice.
pub again :
    (a : Tcp) {b c : Tcp} (i : ℕ) (s t : TcpState)
    → Goes (with_state a i s) b
    → Goes (with_state b i t) c
    → Goes (with_state a i t) c
again a i s t p q = record { goes = λ j. ground (arith, p.goes j, q.goes j) }

-- the state that has been set
pub own : (a : Tcp) {b : Tcp} (i : ℕ) (s : TcpState) → Goes (with_state a i s) b → state_of b i ≡ s
own a i s p = ground (arith, p.goes i)

-- The socket stays where it is.
pub stay :
    (a : Tcp) {b : Tcp} (i : ℕ) (s : TcpState)
    → state_of a i ≡ s
    → Same a b
    → Goes (with_state a i s) b
stay a i s e q = record {
  goes = λ j.
      q.same j
      ∙ if-cases (λ t. state_of a j ≡ t) (j == i) (λ b. ap (state_of a) ((==_iff j i).0 b) ∙ e)
          (λ b. refl);
}

set : (st : Tcp) (i : ℕ) (s : TcpState) → Goes (with_state st i s) (tcp_set_state st i s)
unfolding tcp_set_state
set st i s = record { goes = λ j. ground arith }

-- A state that is set after quiet steps.
pub set_after :
    {st st' : Tcp} (i : ℕ) (s : TcpState)
    → Same st st'
    → Goes (with_state st i s) (tcp_set_state st' i s)
set_after {st} {st'} i s q = after_quiet i s q (set st' i s)

pub abort-Goes : (st : Tcp) (i : ℕ) → Goes (with_state st i closed) (abort st i)
unfolding abort
abort-Goes st i =
    quiet (quiet (set_after i closed (abort_in-Same st i (state_of st i))) (tcp_unhash-Same _ i))
      (tcp_unbhash-Same _ i)

pub refuse_syn-Goes :
    (st : Tcp) (i : ℕ) (seg : Segment) → Goes (with_state st i closed) (refuse_syn st i seg)
unfolding refuse_syn
refuse_syn-Goes st i seg =
    quiet
      (set_after i closed (
        Same-trans (tcp_send_reset-Same st (some i) seg) (
          drop_child_in-Same (tcp_send_reset st (some i) seg) i
            (state_of (tcp_send_reset st (some i) seg) i))))
      (free_sock-Same _ i)

-- What the fifth check comes to, when the segment in the end leads the socket to a state.
abbrev pub CheckGoes : Tcp → ℕ → Segment → TcpState → Check → Type 0
CheckGoes st i seg t (next st') =
    (s : TcpState) × Goes (with_state st i s) st' × (with_fin seg s ≡ t)
CheckGoes st i seg t (dropped st') = Goes (with_state st i t) st'

-- A FIN does not move a state that it does not close.
pub same_fin : (seg : Segment) (s : TcpState) → peer_closes s ≡ s → with_fin seg s ≡ s
same_fin seg s e = if-cases (λ t. t ≡ s) (seg.tcphdr.fin) (λ b. e) (λ b. refl)

tcp_synrecv_ack-can_queue :
    (st : Tcp) (i : ℕ) → (tcp_synrecv_ack st i).0 ≡ can_queue st (st.socks i).parent
unfolding tcp_synrecv_ack synrecv_by synrecv_at
tcp_synrecv_ack-can_queue st i = by_parent (st.socks i).parent
  where
    by_state :
        (p : ℕ) {s : TcpState}
        → s ≡ state_of st p
        → (listens s && not (tcp_accept_queue_full (st.socks p))) ≡ can_queue st (child_of p)
    by_state p e = ap (λ s. listens s && not (tcp_accept_queue_full (st.socks p))) e

    room :
        (full queued : Tcp) (b : Bool)
        → let r : Bool × Tcp = if b then (false, full) else (true, queued) in r.0 ≡ not b
    room full queued true = refl
    room full queued false = refl

    at_parent :
        (p : ℕ) (s : TcpState)
        → state_of st p ≡ s
        → (synrecv_at st i p s).0 ≡ can_queue st (child_of p)
    at_parent p listen e =
        room st (queue_child st i p) (tcp_accept_queue_full (st.socks p)) ∙ by_state p (sym e)
    at_parent p closed e = by_state p (sym e)
    at_parent p syn_recv e = by_state p (sym e)
    at_parent p syn_sent e = by_state p (sym e)
    at_parent p established e = by_state p (sym e)
    at_parent p close_wait e = by_state p (sym e)
    at_parent p last_ack e = by_state p (sym e)
    at_parent p fin_wait1 e = by_state p (sym e)
    at_parent p fin_wait2 e = by_state p (sym e)
    at_parent p closing e = by_state p (sym e)
    at_parent p time_wait e = by_state p (sym e)

    by_parent : (o : Parent) → (synrecv_by st i o).0 ≡ can_queue st o
    by_parent no_parent = refl
    by_parent dead_parent = refl
    by_parent (child_of p) = at_parent p (state_of st p) refl

ack_synrecv-Goes :
    (st : Tcp) (i : ℕ) (seg : Segment)
    → state_of st i ≡ syn_recv
    → CheckGoes st i seg (answered st i seg syn_recv) (ack_synrecv st i seg)
unfolding ack_synrecv
ack_synrecv-Goes st i seg e =
    let st' = (tcp_synrecv_ack st i).1 in
    let queued = tcp_synrecv_ack-Same st i in
    both (leb (st.socks i).snd_una seg.seg_ack && leb seg.seg_ack (st.socks i).snd_nxt)
      (tcp_synrecv_ack st i).0 (tcp_synrecv_ack-can_queue st i)
      (set_after i established (
        Same-trans queued (
          Same-trans (modify-Same st' i (take_ack seg) (λ tsk. refl))
            (modify-Same (modify st' i (take_ack seg)) i (update_window seg) (λ tsk. refl)))))
      (stay st i syn_recv e queued) (stay st i syn_recv e (tcp_send_reset-Same st (some i) seg))
  where
    both :
        {opened full reset : Tcp} (fits ok : Bool)
        → ok ≡ can_queue st (st.socks i).parent
        → Goes (with_state st i established) opened
        → Goes (with_state st i syn_recv) full
        → Goes (with_state st i syn_recv) reset
        → CheckGoes st i seg
            (if fits
              then if can_queue st (st.socks i).parent then with_fin seg established else syn_recv
              else syn_recv)
            (if fits then if ok then next opened else dropped full else dropped reset)
    both true true q o f r = rw (sym q) (established, o, refl)
    both true false q o f r = rw (sym q) f
    both false ok q o f r = r

tcp_update_window-state :
    (seg : Segment) (tsk : TcpSock) → (tcp_update_window seg tsk).state ≡ tsk.state
unfolding tcp_update_window
tcp_update_window-state seg tsk =
    if-cases (λ (t : TcpSock). t.state ≡ tsk.state)
      ((leb tsk.snd_una seg.seg_ack && leb seg.seg_ack tsk.snd_nxt)
        && (ltb tsk.snd_wl1 seg.seg_seq
            || (tsk.snd_wl1 == seg.seg_seq && leb tsk.snd_wl2 seg.seg_ack)))
      (λ b. refl) (λ b. refl)

pub window-Same : (st : Tcp) (i : ℕ) (seg : Segment) → Same st (modify st i (tcp_update_window seg))
window-Same st i seg = modify-Same st i (tcp_update_window seg) (tcp_update_window-state seg)

tcp_set_timewait_timer-Goes :
    (st : Tcp) (i : ℕ) → Goes (with_state st i time_wait) (tcp_set_timewait_timer st i)
unfolding tcp_set_timewait_timer
tcp_set_timewait_timer-Goes st i =
    quiet (quiet (set st i time_wait) (record { same = λ j. ground arith })) (get_tcp_sock-Same _ i)

acked-Goes :
    (st : Tcp) (i : ℕ) (seg : Segment) (s : TcpState)
    → state_of st i ≡ s
    → CheckGoes st i seg (with_fin seg (acknowledged s)) (acked st i seg s)
unfolding acked
acked-Goes st i seg fin_wait1 e =
    (fin_wait2, quiet (set st i fin_wait2) (window-Same _ i seg), refl)
acked-Goes st i seg closing e =
    subst (λ t. Goes (with_state st i t) (tcp_set_timewait_timer st i))
      (sym (same_fin seg time_wait refl)) (tcp_set_timewait_timer-Goes st i)
acked-Goes st i seg last_ack e =
    subst (λ t. Goes (with_state st i t) (tcp_unbhash (tcp_unhash (tcp_set_state st i closed) i) i))
      (sym (same_fin seg closed refl))
      (quiet (quiet (set st i closed) (tcp_unhash-Same _ i)) (tcp_unbhash-Same _ i))
acked-Goes st i seg closed e = (closed, stay st i closed e (window-Same st i seg), refl)
acked-Goes st i seg listen e = (listen, stay st i listen e (window-Same st i seg), refl)
acked-Goes st i seg syn_recv e = (syn_recv, stay st i syn_recv e (window-Same st i seg), refl)
acked-Goes st i seg syn_sent e = (syn_sent, stay st i syn_sent e (window-Same st i seg), refl)
acked-Goes st i seg established e =
    (established, stay st i established e (window-Same st i seg), refl)
acked-Goes st i seg close_wait e = (close_wait, stay st i close_wait e (window-Same st i seg), refl)
acked-Goes st i seg fin_wait2 e = (fin_wait2, stay st i fin_wait2 e (window-Same st i seg), refl)
acked-Goes st i seg time_wait e = (time_wait, stay st i time_wait e (window-Same st i seg), refl)

from_taken :
    (st : Tcp) (i : ℕ) (seg : Segment) (t : TcpState) (c : Check)
    → CheckGoes (modify st i (take_ack seg)) i seg t c
    → CheckGoes st i seg t c
from_taken st i seg t (next st') (s, p, e) =
    (s, after_quiet i s (modify-Same st i (take_ack seg) (λ tsk. refl)) p, e)
from_taken st i seg t (dropped st') p =
    after_quiet i t (modify-Same st i (take_ack seg) (λ tsk. refl)) p

ack_open-Goes :
    (st : Tcp) (i : ℕ) (seg : Segment) (s : TcpState)
    → state_of st i ≡ s
    → CheckGoes st i seg (by_ack (st.socks i) seg s) (ack_open st i seg s)
unfolding ack_open
ack_open-Goes st i seg s e =
    let tsk = st.socks i in
    let taken = modify st i (take_ack seg) in
    three (ltb tsk.snd_una seg.seg_ack && leb seg.seg_ack tsk.snd_nxt) (ltb tsk.snd_nxt seg.seg_ack)
      (acked taken i seg s)
      (from_taken st i seg (with_fin seg (acknowledged s)) (acked taken i seg s) (
        acked-Goes taken i seg s
          ((modify-Same {view = λ tsk. tsk.state} st i (take_ack seg) (λ tsk. refl)).same i ∙ e)))
  where
    three :
        (fresh high : Bool) (c : Check)
        → CheckGoes st i seg (with_fin seg (acknowledged s)) c
        → CheckGoes st i seg
            (if fresh then with_fin seg (acknowledged s) else if high then s else with_fin seg s)
            (if fresh
              then c
              else if high
              then dropped st
              else next (modify st i (tcp_update_window seg)))
    three true high c p = p
    three false true c p = stay st i s e Same-refl
    three false false c p = (s, stay st i s e (window-Same st i seg), refl)

pub ack_check-Goes :
    (st : Tcp) (i : ℕ) (seg : Segment) (s : TcpState)
    → state_of st i ≡ s
    → CheckGoes st i seg (answered st i seg s) (ack_check st i seg s)
unfolding ack_check
ack_check-Goes st i seg syn_recv e = ack_synrecv-Goes st i seg e
ack_check-Goes st i seg established e = ack_open-Goes st i seg established e
ack_check-Goes st i seg close_wait e = ack_open-Goes st i seg close_wait e
ack_check-Goes st i seg last_ack e = ack_open-Goes st i seg last_ack e
ack_check-Goes st i seg fin_wait1 e = ack_open-Goes st i seg fin_wait1 e
ack_check-Goes st i seg closing e = ack_open-Goes st i seg closing e
ack_check-Goes st i seg closed e = (closed, stay st i closed e Same-refl, same_fin seg closed refl)
ack_check-Goes st i seg listen e = (listen, stay st i listen e Same-refl, same_fin seg listen refl)
ack_check-Goes st i seg syn_sent e =
    (syn_sent, stay st i syn_sent e Same-refl, same_fin seg syn_sent refl)
ack_check-Goes st i seg fin_wait2 e = (fin_wait2, stay st i fin_wait2 e Same-refl, refl)
ack_check-Goes st i seg time_wait e = (time_wait, stay st i time_wait e Same-refl, refl)

-- the two states in which a FIN closes the peer's side
waits_close :
    (st : Tcp) (i : ℕ)
    → Goes (with_state st i close_wait) (
        tcp_recv_notify
          (modify (tcp_set_state st i close_wait) i (λ tsk. record tsk { f_push = true }))
          i)
waits_close st i =
    quiet
      (quiet (set st i close_wait)
        (modify-Same _ i (λ tsk. record tsk { f_push = true }) (λ tsk. refl)))
      (tcp_recv_notify-Same _ i)

fin_state-Goes :
    (st : Tcp) (i : ℕ) (s : TcpState)
    → state_of st i ≡ s
    → Goes (with_state st i (peer_closes s)) (fin_state st i s)
unfolding fin_state
fin_state-Goes st i syn_recv e = waits_close st i
fin_state-Goes st i established e = waits_close st i
fin_state-Goes st i fin_wait1 e = set st i closing
fin_state-Goes st i fin_wait2 e = tcp_set_timewait_timer-Goes st i
fin_state-Goes st i time_wait e = stay st i time_wait e (record { same = λ j. ground arith })
fin_state-Goes st i closed e = stay st i closed e Same-refl
fin_state-Goes st i listen e = stay st i listen e Same-refl
fin_state-Goes st i syn_sent e = stay st i syn_sent e Same-refl
fin_state-Goes st i close_wait e = stay st i close_wait e Same-refl
fin_state-Goes st i last_ack e = stay st i last_ack e Same-refl
fin_state-Goes st i closing e = stay st i closing e Same-refl

pub fin_check-Goes :
    (st : Tcp) (i : ℕ) (seg : Segment) (s : TcpState)
    → state_of st i ≡ s
    → Goes (with_state st i (with_fin seg s)) (fin_check st i seg)
unfolding fin_check
fin_check-Goes st i seg s e = by_fin (seg.tcphdr.fin) (
    quiet
      (subst (λ t. Goes (with_state st i (peer_closes s)) (fin_state st i t)) (sym e)
        (fin_state-Goes st i s e))
      (modify-Same _ i (take_fin seg) (λ tsk. refl)))
  where
    by_fin :
        {st' : Tcp} (b : Bool)
        → Goes (with_state st i (peer_closes s)) st'
        → Goes (with_state st i (if b then peer_closes s else s)) (if b then st' else st)
    by_fin true p = p
    by_fin false p = stay st i s e Same-refl

pub drop_label-Same : (st : Tcp) (i : ℕ) (seg : Segment) → Same st (drop_label st i seg)
unfolding drop_label
drop_label-Same st i seg =
    Same-trans
      (if-cases (Same st) ((st.socks i).f_acknow || (st.socks i).f_ackdelay)
        (λ b. tcp_send_ack-Same st i (some seg)) (λ b. Same-refl))
      (emit-Same _ _)
