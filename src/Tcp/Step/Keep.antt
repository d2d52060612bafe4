-- ===== src/Tcp/Step/Keep.antt =====
-- What tcp_process leaves of the receiving side of every socket, outside the text of a segment.
use tapip.Base.{false, ℕ, ◌≡◌, refl, List, Option, some, ◌==◌, ltb, leb, if-cases, ◌&&◌, ◌||◌}
use tapip.Cbuf.{Cbuf}
use tapip.Tcp.{
  TcpState, closed, listen, syn_recv, syn_sent, established, close_wait, last_ack, fin_wait1,
  fin_wait2, closing, time_wait, Segment, ReassHead, TcpSock, Tcp, modify, tcp_set_state,
}
use tapip.Tcp.Process.{update_window, tcp_synrecv_ack, tcp_update_window, Check, next, dropped}
use tapip.Tcp.Step.{
  fin_check, abort, refuse_syn, take_ack, ack_synrecv, acked, ack_open, ack_check, drop_label,
}
use tapip.Tcp.Step.Graph.{SameView, IsInner, Same-trans, Same-refl, modify-Same}
use tapip.Tcp.Step.Quiet.{
  emit-Same, free_sock-Same, tcp_unbhash-Same, tcp_unhash-Same, tcp_send_reset-Same,
  tcp_send_ack-Same, abort_in-Same, drop_child_in-Same, tcp_synrecv_ack-Same, get_tcp_sock-Same,
}
use tapip.Tcp.Timer.{tcp_set_timewait_timer, tcp_timewait_timeout}

-- the receive buffer, the window, the next number and the waiting text
abbrev pub recv_of : TcpSock → Option Cbuf × ℕ × ℕ × List ReassHead
recv_of tsk = (tsk.rcv_buf, tsk.rcv_wnd, tsk.rcv_nxt, tsk.rcv_reass)

instance abbrev pub recv_IsInner : IsInner recv_of
recv_IsInner = record { unseen = λ tsk sk b l n lq aq. refl }

abbrev pub Keeps : Tcp → Tcp → Type 0
Keeps = SameView recv_of

tcp_set_state-Keeps : (st : Tcp) (i : ℕ) (s : TcpState) → Keeps st (tcp_set_state st i s)
unfolding tcp_set_state
tcp_set_state-Keeps st i s = modify-Same st i (λ tsk. record tsk { state = s }) (λ tsk. refl)

tcp_update_window-recv :
    (seg : Segment) (tsk : TcpSock) → recv_of (tcp_update_window seg tsk) ≡ recv_of tsk
unfolding tcp_update_window
tcp_update_window-recv seg tsk =
    if-cases (λ (t : TcpSock). recv_of t ≡ recv_of tsk)
      ((leb tsk.snd_una seg.seg_ack && leb seg.seg_ack tsk.snd_nxt)
        && (ltb tsk.snd_wl1 seg.seg_seq
            || (tsk.snd_wl1 == seg.seg_seq && leb tsk.snd_wl2 seg.seg_ack)))
      (λ b. refl) (λ b. refl)

pub window-Keeps :
    (st : Tcp) (i : ℕ) (seg : Segment) → Keeps st (modify st i (tcp_update_window seg))
window-Keeps st i seg = modify-Same st i (tcp_update_window seg) (tcp_update_window-recv seg)

tcp_set_timewait_timer-Keeps : (st : Tcp) (i : ℕ) → Keeps st (tcp_set_timewait_timer st i)
unfolding tcp_set_timewait_timer
tcp_set_timewait_timer-Keeps st i = Same-trans (tcp_set_state-Keeps st i time_wait) (
    Same-trans
      (record {
        same =
            (modify-Same {view = recv_of} (tcp_set_state st i time_wait) i
              (λ tsk. record tsk { timeout = tcp_timewait_timeout }) (λ tsk. refl)).same;
      })
      (get_tcp_sock-Same _ i))

pub abort-Keeps : (st : Tcp) (i : ℕ) → Keeps st (abort st i)
unfolding abort
abort-Keeps st i =
    Same-trans
      (Same-trans
        (Same-trans (abort_in-Same st i (st.socks i).state) (tcp_set_state-Keeps _ i closed))
        (tcp_unhash-Same _ i))
      (tcp_unbhash-Same _ i)

pub refuse_syn-Keeps : (st : Tcp) (i : ℕ) (seg : Segment) → Keeps st (refuse_syn st i seg)
unfolding refuse_syn
refuse_syn-Keeps st i seg =
    Same-trans
      (Same-trans (Same-trans (tcp_send_reset-Same st (some i) seg) (drop_child_in-Same _ i _))
        (tcp_set_state-Keeps _ i closed))
      (free_sock-Same _ i)

pub drop_label-Keeps : (st : Tcp) (i : ℕ) (seg : Segment) → Keeps st (drop_label st i seg)
unfolding drop_label
drop_label-Keeps st i seg =
    Same-trans
      (if-cases (Keeps st) ((st.socks i).f_acknow || (st.socks i).f_ackdelay)
        (λ b. tcp_send_ack-Same st i (some seg)) (λ b. Same-refl))
      (emit-Same _ _)

-- Without a FIN the eighth check changes nothing.
pub fin_check_without :
    (st : Tcp) (i : ℕ) (seg : Segment) → seg.tcphdr.fin ≡ false → fin_check st i seg ≡ st
unfolding fin_check
fin_check_without st i seg f = rw f refl

abbrev pub CheckKeeps : Tcp → Check → Type 0
CheckKeeps st (next st') = Keeps st st'
CheckKeeps st (dropped st') = Keeps st st'

CheckKeeps-before : {st st' : Tcp} (c : Check) → Keeps st st' → CheckKeeps st' c → CheckKeeps st c
CheckKeeps-before (next st'') p q = Same-trans p q
CheckKeeps-before (dropped st'') p q = Same-trans p q

ack_synrecv-Keeps : (st : Tcp) (i : ℕ) (seg : Segment) → CheckKeeps st (ack_synrecv st i seg)
unfolding ack_synrecv
ack_synrecv-Keeps st i seg =
    let st' = (tcp_synrecv_ack st i).1 in
    let queued : Keeps st st' = tcp_synrecv_ack-Same st i in
    if-cases (CheckKeeps st)
      (leb (st.socks i).snd_una seg.seg_ack && leb seg.seg_ack (st.socks i).snd_nxt)
      (λ b.
        if-cases (CheckKeeps st) ((tcp_synrecv_ack st i).0)
          (λ ok. Same-trans queued (
            Same-trans (modify-Same st' i (take_ack seg) (λ tsk. refl)) (
              Same-trans
                (modify-Same (modify st' i (take_ack seg)) i (update_window seg) (λ tsk. refl))
                (tcp_set_state-Keeps _ i established))))
          (λ full. queued))
      (λ b. tcp_send_reset-Same st (some i) seg)

acked-Keeps : (st : Tcp) (i : ℕ) (seg : Segment) (s : TcpState) → CheckKeeps st (acked st i seg s)
unfolding acked
acked-Keeps st i seg fin_wait1 =
    Same-trans (tcp_set_state-Keeps st i fin_wait2) (window-Keeps _ i seg)
acked-Keeps st i seg closing = tcp_set_timewait_timer-Keeps st i
acked-Keeps st i seg last_ack =
    Same-trans (Same-trans (tcp_set_state-Keeps st i closed) (tcp_unhash-Same _ i))
      (tcp_unbhash-Same _ i)
acked-Keeps st i seg closed = window-Keeps st i seg
acked-Keeps st i seg listen = window-Keeps st i seg
acked-Keeps st i seg syn_recv = window-Keeps st i seg
acked-Keeps st i seg syn_sent = window-Keeps st i seg
acked-Keeps st i seg established = window-Keeps st i seg
acked-Keeps st i seg close_wait = window-Keeps st i seg
acked-Keeps st i seg fin_wait2 = window-Keeps st i seg
acked-Keeps st i seg time_wait = window-Keeps st i seg

ack_open-Keeps :
    (st : Tcp) (i : ℕ) (seg : Segment) (s : TcpState) → CheckKeeps st (ack_open st i seg s)
unfolding ack_open
ack_open-Keeps st i seg s =
    let tsk = st.socks i in
    if-cases (CheckKeeps st) (ltb tsk.snd_una seg.seg_ack && leb seg.seg_ack tsk.snd_nxt)
      (λ b.
        CheckKeeps-before (acked (modify st i (take_ack seg)) i seg s)
          (modify-Same st i (take_ack seg) (λ t. refl))
          (acked-Keeps (modify st i (take_ack seg)) i seg s))
      (λ b.
        if-cases (CheckKeeps st) (ltb tsk.snd_nxt seg.seg_ack) (λ c. Same-refl)
          (λ c. window-Keeps st i seg))

-- The check of the acknowledgement leaves the receiving side of every socket.
pub ack_check-Keeps :
    (st : Tcp) (i : ℕ) (seg : Segment) (s : TcpState) → CheckKeeps st (ack_check st i seg s)
unfolding ack_check
ack_check-Keeps st i seg syn_recv = ack_synrecv-Keeps st i seg
ack_check-Keeps st i seg established = ack_open-Keeps st i seg established
ack_check-Keeps st i seg close_wait = ack_open-Keeps st i seg close_wait
ack_check-Keeps st i seg last_ack = ack_open-Keeps st i seg last_ack
ack_check-Keeps st i seg fin_wait1 = ack_open-Keeps st i seg fin_wait1
ack_check-Keeps st i seg closing = ack_open-Keeps st i seg closing
ack_check-Keeps st i seg closed = Same-refl
ack_check-Keeps st i seg listen = Same-refl
ack_check-Keeps st i seg syn_sent = Same-refl
ack_check-Keeps st i seg fin_wait2 = Same-refl
ack_check-Keeps st i seg time_wait = Same-refl
