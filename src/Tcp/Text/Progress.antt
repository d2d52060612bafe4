-- ===== src/Tcp/Text/Progress.antt =====
-- tcp_recv_text: new text in order is taken.
use tapip.Base.{
  ℕ, ◌+◌, ◌-◌, ◌≤◌, ◌<◌, ◌≡◌, refl, sym, ap, List, [], ◌++◌, some, Bool, true, false, ◌==◌, ltb,
  leb, Bool-cases, inl, inr, ◌&&◌, min, take, drop, length, length-drop, add32, arith,
}
use mathlib.Core.Path.{subst}
use tapip.Cbuf.Span.{contents}
use tapip.Tcp.{Segment, TcpSock}
use tapip.Tcp.Text.{buffer_of, adjacent_head, recv_from, recv_next, recv_text, pushed, is_empty}
use tapip.Tcp.Text.Window.{IsBuffered, HasWritten, tcp_write_buf-HasWritten}

-- What a socket has taken: n bytes are behind what the buffer held, and the window begins behind them.
pub record Took (tsk : TcpSock) (n : ℕ) (bytes : List ℕ) (tsk' : TcpSock) : Type 0 where
  pub appended : contents (buffer_of tsk') ≡ contents (buffer_of tsk) ++ take n bytes
  pub advanced : tsk'.rcv_nxt ≡ add32 tsk.rcv_nxt n
  pub shrunk : tsk'.rcv_wnd ≡ tsk.rcv_wnd - n

-- The flags do not matter.
pushed-Took :
    (b : Bool) {tsk tsk' : TcpSock} {n : ℕ} {bytes : List ℕ}
    → HasWritten tsk n bytes tsk'
    → Took tsk n bytes (record (pushed tsk' b) { f_ackdelay = true })
pushed-Took true w = record { appended = w.appended; advanced = w.advanced; shrunk = w.shrunk }
pushed-Took false w = record { appended = w.appended; advanced = w.advanced; shrunk = w.shrunk }

module _ (tsk : TcpSock) (b : IsBuffered tsk) (none_wait : tsk.rcv_reass ≡ []) where
  recv_from_next :
      (whole seg : Segment)
      → seg.dlen ≤ length seg.text
      → seg.seg_seq ≡ tsk.rcv_nxt
      → (tsk' : TcpSock) × (recv_from tsk whole (some seg) ≡ some (tsk', seg))
        × Took tsk (min tsk.rcv_wnd seg.dlen) seg.text tsk'
  unfolding recv_from recv_next
  recv_from_next whole seg h e =
      let (tsk', returns, w) = tcp_write_buf-HasWritten tsk seg.text seg.dlen b h in
      let here : (tsk.rcv_nxt == seg.seg_seq && is_empty tsk.rcv_reass) ≡ true =
        subst (λ l. (tsk.rcv_nxt == seg.seg_seq && is_empty l) ≡ true) (sym none_wait)
          (ground (arith, e)) in
      rw here (rw (returns, recv_next) (_, refl, pushed-Took _ w))

  -- A segment that begins at or below rcv_nxt and reaches above it is taken: as many of its new bytes
  -- as the window has room for are behind what the buffer held, and no others; rcv_nxt moves on by
  -- them, and the window shrinks by them. No text waits out of order, and the window is open.
  pub recv_text-Took :
      (seg : Segment)
      → seg.dlen ≤ length seg.text
      → seg.seg_seq ≤ tsk.rcv_nxt
      → tsk.rcv_nxt < seg.seg_seq + seg.dlen
      → 0 < tsk.rcv_wnd
      → (tsk' : TcpSock) × (seg' : Segment) × (recv_text tsk seg ≡ some (tsk', seg'))
        × Took tsk
            (min tsk.rcv_wnd (seg.seg_seq + seg.dlen - tsk.rcv_nxt))
            (drop (tsk.rcv_nxt - seg.seg_seq) seg.text)
            tsk'
  unfolding recv_text adjacent_head
  recv_text-Took seg h low high open_ =
      let z : (tsk.rcv_wnd == 0) ≡ false = ground arith in
      let d : ℕ = tsk.rcv_nxt - seg.seg_seq in
      rw z (elim (Bool-cases (ltb seg.seg_seq tsk.rcv_nxt)) [
        | inl l ↦
            let cut : Segment = record seg {
              dlen = seg.dlen - d;
              text = drop d seg.text;
              seg_seq = tsk.rcv_nxt;
            } in
            let (tsk', e, t) =
              recv_from_next seg cut (omega (arith, length-drop d seg.text)) refl in
            let more : leb seg.dlen d ≡ false = ground arith in
            rw l (
              rw more (
                tsk',
                cut,
                e,
                subst (λ n. Took tsk (min tsk.rcv_wnd n) (drop d seg.text) tsk') (omega arith) t,
              ))
        | inr l ↦
            let same : seg.seg_seq ≡ tsk.rcv_nxt = ground arith in
            let (tsk', e, t) = recv_from_next seg seg h same in
            let none_old : drop d seg.text ≡ seg.text =
              ap (λ n. drop n seg.text) {x = d} {y = 0} (omega arith) in
            rw l (
              tsk',
              seg,
              e,
              subst
                  (λ bytes.
                    Took tsk (min tsk.rcv_wnd (seg.seg_seq + seg.dlen - tsk.rcv_nxt)) bytes tsk')
                  (sym none_old)
                  (subst (λ n. Took tsk (min tsk.rcv_wnd n) seg.text tsk') (omega arith) t),
            )
      ])
