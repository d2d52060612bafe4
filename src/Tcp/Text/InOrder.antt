-- ===== src/Tcp/Text/InOrder.antt =====
-- tcp_recv_text while no text waits out of order.
use tapip.Base.{ℕ, ◌≤◌, ◌≡◌, refl, sym, add32, [], Option, none, some, ◌==◌, if-cases, ◌&&◌, arith}
use mathlib.Core.Path.{subst}
use tapip.Tcp.{Segment, TcpSock}
use tapip.Tcp.Text.{
  adjacent_head, reass_at, reass_place, tcp_segment_reass, recv_from, recv_text, is_empty,
}
use tapip.Tcp.Text.Stream.{IsSegment, Rest, adjacent_head-Rest}
use tapip.Tcp.Text.Receive.{IsReceiver, kept-HasReceived}
use tapip.Tcp.Text.Arrive.{TextReceived, place-Received, recv_later-Received, recv_next-Received}

module _ (stream : ℕ → ℕ) (tsk : TcpSock) (v : IsReceiver stream tsk)
    (none_wait : tsk.rcv_reass ≡ []) where
  reass_in_order :
      (seg : Segment)
      → IsSegment stream seg
      → tsk.rcv_nxt ≤ seg.seg_seq
      → TextReceived stream tsk (tcp_segment_reass tsk seg)
  unfolding tcp_segment_reass reass_place
  reass_in_order seg t h =
      let from = add32 tsk.snd_wnd tsk.snd_up in
      subst
        (λ l. TextReceived stream tsk (
          reass_at tsk seg (reass_place seg from l).0 (reass_place seg from l).1
            (reass_place seg from l).2))
        (sym none_wait) (place-Received stream tsk v seg (some seg) [] [] (t, h, tt))

  recv_from_in_order :
      (seg : Segment) (o : Option Segment)
      → Rest stream seg tsk.rcv_nxt o
      → TextReceived stream tsk (recv_from tsk seg o)
  unfolding recv_from
  recv_from_in_order seg none r =
      (tsk, seg, refl, kept-HasReceived stream tsk tsk.rcv_reass v.buffered v.apart)
  recv_from_in_order seg (some seg') r =
      if-cases (TextReceived stream tsk) (tsk.rcv_nxt == seg'.seg_seq && is_empty tsk.rcv_reass)
        (λ b. recv_next-Received stream tsk v seg' r.segment (ground arith) none_wait)
        (λ b. recv_later-Received stream tsk v seg' (reass_in_order seg' r.segment r.above))

  -- Without text that waits, tcp_recv_text returns whatever the send window is.
  pub recv_text_in_order :
      (seg : Segment) → IsSegment stream seg → TextReceived stream tsk (recv_text tsk seg)
  unfolding recv_text
  recv_text_in_order seg t =
      if-cases (TextReceived stream tsk) (tsk.rcv_wnd == 0)
        (λ z. (tsk, seg, refl, kept-HasReceived stream tsk tsk.rcv_reass v.buffered v.apart))
        (λ z.
          recv_from_in_order seg (adjacent_head seg tsk.rcv_nxt)
            (adjacent_head-Rest stream seg tsk.rcv_nxt t))
