-- ===== src/Tcp/Step/Returns.antt =====
-- tcp_process returns, and what it hands to the user.
use tapip.Base.{
  ℕ, ◌≡◌, refl, sym, ap, ◌∙◌, Option, some, false, ltb, if-cases, ◌&&◌, ◌||◌, not, arith,
}
use mathlib.Core.Path.{subst}
use tapip.Tcp.{
  TcpState, closed, listen, syn_recv, syn_sent, established, close_wait, last_ack, fin_wait1,
  fin_wait2, closing, time_wait, Segment, TcpSock, Tcp, modify,
}
use tapip.Tcp.Process.{seq_check, Check, next, dropped}
use tapip.Tcp.Step.{
  abort, refuse_syn, ack_check, takes_text, text_check, text_and_fin, after_ack, ack_and_on,
  ask_ack, drop_label, process_open, tcp_process, process_by,
}
use tapip.Tcp.Step.Diagram.{next_state, Goes}
use tapip.Tcp.Step.Drive.{MayGo, tcp_process-Goes}
use tapip.Tcp.Step.Graph.{
  HasPeer, state_of, Same-trans, Same-refl, modify-Same, syn_recv_peer, established_peer,
  close_wait_peer, last_ack_peer, fin_wait1_peer, fin_wait2_peer, closing_peer, time_wait_peer,
}
use tapip.Tcp.Step.Keep.{
  recv_IsInner, Keeps, CheckKeeps, ack_check-Keeps, abort-Keeps, refuse_syn-Keeps,
  fin_check_without, drop_label-Keeps,
}
use tapip.Tcp.Step.Quiet.{tcp_recv_notify-Same}
use tapip.Tcp.Step.Ready.{IsReady, recv-IsReady, recv-HasReceived}
use tapip.Tcp.Text.{tcp_recv_text, take_text, tcp_recv_notify}
use tapip.Tcp.Text.Header.{HdrKeeps, recv_text-HdrKeeps}
use tapip.Tcp.Text.InOrder.{recv_text_in_order}
use tapip.Tcp.Text.Receive.{HasReceived, kept-HasReceived}
use tapip.Tcp.Text.Stream.{IsSegment}

module _ (stream : ℕ → ℕ) (i : ℕ) (seg : Segment) (t : IsSegment stream seg) where
  -- What a run comes to that began with a socket: it returns, and has received.
  Comes : TcpSock → Option Tcp → Type 0
  Comes old o =
      (st' : Tcp) × (o ≡ some st') × (seg.tcphdr.fin ≡ false → HasReceived stream old (st'.socks i))

  TextComes : TcpSock → Option (Tcp × Segment) → Type 0
  TextComes old o =
      (st' : Tcp) × (seg' : Segment) × (o ≡ some (st', seg'))
      × HasReceived stream old (st'.socks i)
      × (seg'.tcphdr ≡ seg.tcphdr)

  nothing : (tsk : TcpSock) → IsReady stream tsk → HasReceived stream tsk tsk
  nothing tsk v = kept-HasReceived stream tsk tsk.rcv_reass v.receiver.buffered v.receiver.apart

  -- A state that keeps the receiving side has received what the one before had.
  kept :
      (old : TcpSock) (st st' : Tcp)
      → Keeps st st'
      → HasReceived stream old (st.socks i)
      → HasReceived stream old (st'.socks i)
  kept old st st' k = recv-HasReceived stream old old (st.socks i) (st'.socks i) refl (k.same i)

  tcp_recv_text-Comes :
      (st : Tcp) → IsReady stream (st.socks i) → TextComes (st.socks i) (tcp_recv_text st i seg)
  unfolding tcp_recv_text TextComes
  tcp_recv_text-Comes st v =
      let tsk = st.socks i in
      let (tsk', seg', e, r) = recv_text_in_order stream tsk v.receiver v.in_order seg t in
      let st' = modify st i (λ old. tsk') in
      let stored : st'.socks i ≡ tsk' = ground arith in
      let here : HasReceived stream tsk (st'.socks i) =
        subst (HasReceived stream tsk) (sym stored) r in
      rw (e, take_text)
        (
          _,
          seg',
          refl,
          if-cases (λ (s : Tcp). HasReceived stream tsk (s.socks i)) (tsk'.f_push)
              (λ b. kept tsk st' (tcp_recv_notify st' i) (tcp_recv_notify-Same st' i) here)
              (λ b. here),
          subst (HdrKeeps seg) e (recv_text-HdrKeeps tsk seg),
        )

  text_check-Comes :
      (st : Tcp) → IsReady stream (st.socks i) → TextComes (st.socks i) (text_check st i seg)
  unfolding text_check TextComes
  text_check-Comes st v =
      if-cases (TextComes (st.socks i))
        (takes_text (st.socks i).state && (seg.tcphdr.psh || ltb 0 seg.dlen))
        (λ b. tcp_recv_text-Comes st v) (λ b. (st, seg, refl, nothing (st.socks i) v, refl))

  text_and_fin-Comes :
      (old : TcpSock) (st : Tcp)
      → TextComes old (text_check st i seg)
      → Comes old (text_and_fin st i seg)
  unfolding text_and_fin Comes TextComes
  text_and_fin-Comes old st (st', seg', e, r, h) =
      rw (e, text_and_fin)
        (
          _,
          refl,
          λ f.
              kept old st' _
                (subst (λ s. Keeps st' (drop_label s i seg'))
                  (sym (fin_check_without st' i seg' (ap (λ k. k.fin) h ∙ f)))
                  (drop_label-Keeps st' i seg'))
                r,
        )

  -- What a run has come to that began with a state whose receiving side was the same.
  before :
      (st st' : Tcp) (o : Option Tcp) → Keeps st st' → Comes (st'.socks i) o → Comes (st.socks i) o
  unfolding Comes
  before st st' o k (st'', e, r) = (
    st'',
    e,
    λ f.
        recv-HasReceived stream (st'.socks i) (st.socks i) (st''.socks i) (st''.socks i)
          (sym (k.same i)) refl (r f),
  )

  -- A run that only sends.
  dropped-Comes :
      (st st' : Tcp)
      → IsReady stream (st.socks i)
      → Keeps st st'
      → Comes (st.socks i) (some (drop_label st' i seg))
  unfolding Comes
  dropped-Comes st st' v k = (
    drop_label st' i seg,
    refl,
    λ f.
        kept (st.socks i) st (drop_label st' i seg) (Same-trans k (drop_label-Keeps st' i seg))
          (nothing (st.socks i) v),
  )

  text_and_fin_after :
      (st : Tcp) → IsReady stream (st.socks i) → Comes (st.socks i) (text_and_fin st i seg)
  text_and_fin_after st v = text_and_fin-Comes (st.socks i) st (text_check-Comes st v)

  after_ack-Comes :
      (st : Tcp) (c : Check)
      → IsReady stream (st.socks i)
      → CheckKeeps st c
      → Comes (st.socks i) (after_ack i seg c)
  after_ack-Comes st (next st') v k =
      before st st' (text_and_fin st' i seg) k
        (text_and_fin_after st' (recv-IsReady stream (st.socks i) (st'.socks i) (k.same i) v))
  after_ack-Comes st (dropped st') v k = dropped-Comes st st' v k

  ack_and_on-Comes :
      (st : Tcp) → IsReady stream (st.socks i) → Comes (st.socks i) (ack_and_on st i seg)
  unfolding ack_and_on
  ack_and_on-Comes st v =
      if-cases (Comes (st.socks i)) (seg.tcphdr.ack)
        (λ b.
          after_ack-Comes st (ack_check st i seg (st.socks i).state) v
            (ack_check-Keeps st i seg (st.socks i).state))
        (λ b. dropped-Comes st st v Same-refl)

  process_open-Comes :
      (st : Tcp) → IsReady stream (st.socks i) → Comes (st.socks i) (process_open st i seg)
  unfolding process_open
  process_open-Comes st v =
      if-cases (Comes (st.socks i)) (not (seq_check seg (st.socks i)))
        (λ b. dropped-Comes st _ v (
          if-cases (Keeps st) (seg.tcphdr.rst) (λ c. Same-refl)
            (λ c. modify-Same st i ask_ack (λ tsk. refl))))
        (λ b.
          if-cases (Comes (st.socks i)) (seg.tcphdr.rst)
            (λ c. dropped-Comes st (abort st i) v (abort-Keeps st i))
            (λ c.
              if-cases (λ (st' : Tcp). Comes (st.socks i) (ack_and_on st' i seg)) (seg.tcphdr.syn)
                (λ d.
                  let refused = refuse_syn st i seg in
                  let k = refuse_syn-Keeps st i seg in
                  before st refused (ack_and_on refused i seg) k (
                    ack_and_on-Comes refused
                      (recv-IsReady stream (st.socks i) (refused.socks i) (k.same i) v)))
                (λ d. ack_and_on-Comes st v)))

  open_state : (st : Tcp) (s : TcpState) → HasPeer s → process_by st i seg s ≡ process_open st i seg
  unfolding process_by
  open_state st syn_recv syn_recv_peer = refl
  open_state st established established_peer = refl
  open_state st close_wait close_wait_peer = refl
  open_state st last_ack last_ack_peer = refl
  open_state st fin_wait1 fin_wait1_peer = refl
  open_state st fin_wait2 fin_wait2_peer = refl
  open_state st closing closing_peer = refl
  open_state st time_wait time_wait_peer = refl
  open_state st closed h = elim h [ ]
  open_state st listen h = elim h [ ]
  open_state st syn_sent h = elim h [ ]

  -- Whatever segment of the sender's stream arrives without a FIN, its text ending below 2 ^ 32 so that
  -- sequence numbers do not wrap around, acceptable or not and with any other flags, for a socket behind
  -- its handshake that receives the stream and has no text waiting out of order: tcp_process returns;
  -- every socket is in the state that the diagram gives; and the receive buffer of the socket holds what
  -- it held and then the stream from the old value of rcv_nxt up to the new one, with the right edge of
  -- the window where it was. The number of the next socket has not been used, so its state counts as
  -- closed.
  pub tcp_process_delivers :
      (st : Tcp)
      → IsReady stream (st.socks i)
      → HasPeer (state_of st i)
      → seg.tcphdr.fin ≡ false
      → state_of st st.next_sk ≡ closed
      → (st' : Tcp) × (tcp_process st (some i) seg ≡ some st')
        × Goes (next_state st (some i) seg) st'
        × HasReceived stream (st.socks i) (st'.socks i)
  unfolding tcp_process Comes
  tcp_process_delivers st v h f fresh =
      let (st', e, r) = process_open-Comes st v in
      let e' : process_by st i seg (st.socks i).state ≡ some st' =
        open_state st (st.socks i).state h ∙ e in
      (
        st',
        e',
        subst (MayGo (next_state st (some i) seg)) e' (tcp_process-Goes st (some i) seg fresh),
        r f,
      )

  returned :
      (st : Tcp) → IsReady stream (st.socks i) → (st' : Tcp) × (process_open st i seg ≡ some st')
  unfolding Comes
  returned st v = let (st', e, r) = process_open-Comes st v in (st', e)

  process_by-returns :
      (st : Tcp) (s : TcpState)
      → IsReady stream (st.socks i)
      → (st' : Tcp) × (process_by st i seg s ≡ some st')
  unfolding process_by
  process_by-returns st closed v = (_, refl)
  process_by-returns st listen v = (_, refl)
  process_by-returns st syn_sent v = (_, refl)
  process_by-returns st syn_recv v = returned st v
  process_by-returns st established v = returned st v
  process_by-returns st close_wait v = returned st v
  process_by-returns st last_ack v = returned st v
  process_by-returns st fin_wait1 v = returned st v
  process_by-returns st fin_wait2 v = returned st v
  process_by-returns st closing v = returned st v
  process_by-returns st time_wait v = returned st v

  -- The same of a segment with a FIN or for a socket in any state: tcp_process returns, and every socket
  -- is in the state that the diagram gives.
  tcp_process-Returns :
      (st : Tcp)
      → IsReady stream (st.socks i)
      → state_of st st.next_sk ≡ closed
      → (st' : Tcp) × (tcp_process st (some i) seg ≡ some st')
        × Goes (next_state st (some i) seg) st'
  unfolding tcp_process
  tcp_process-Returns st v fresh =
      let (st', e) = process_by-returns st (st.socks i).state v in
      (
        st',
        e,
        subst (MayGo (next_state st (some i) seg)) e (tcp_process-Goes st (some i) seg fresh),
      )
