-- ===== src/Tcp/Step/Ready.antt =====
-- The receiving side of a socket, as a part of the socket that other fields do not touch.
use tapip.Base.{ℕ, ◌-◌, ◌++◌, ◌≡◌, sym, ap, ap₂, ◌∙◌, List, [], Option, none, some, arith}
use mathlib.Core.Path.{subst}
use tapip.Cbuf.{Cbuf, alloc_cbuf, used}
use tapip.Cbuf.Inv.{IsValid}
use tapip.Cbuf.Span.{contents}
use tapip.Tcp.{ReassHead, TcpSock}
use tapip.Tcp.Step.Keep.{recv_of, recv_IsInner}
use tapip.Tcp.Text.{buffer_of}
use tapip.Tcp.Text.Receive.{IsReceiver, HasReceived}
use tapip.Tcp.Text.Window.{IsBuffered}
use tapip.Tcp.Text.Stream.{stretch, AreApart}

pub buffer_of-recv : (a b : TcpSock) → recv_of b ≡ recv_of a → buffer_of b ≡ buffer_of a
buffer_of-recv a b e =
    ap
      (λ (r : Option Cbuf × ℕ × ℕ × List ReassHead). elim (r.0) [
        | none ↦ alloc_cbuf r.1
        | some c ↦ c
      ])
      e

pub recv-IsBuffered : (a b : TcpSock) → recv_of b ≡ recv_of a → IsBuffered a → IsBuffered b
recv-IsBuffered a b e v =
    let buf = buffer_of-recv a b e in
    record {
      valid = subst IsValid (sym buf) v.valid;
      window = omega (arith, v.window, ap (λ r. r.1) e, ap used buf, ap (λ (c : Cbuf). c.size) buf);
      bounded = omega (arith, v.bounded, ap (λ (c : Cbuf). c.size) buf);
      counted = omega (arith, v.counted, ap (λ r. r.2) e);
    }

module _ (stream : ℕ → ℕ) where
  -- A socket that receives the stream, and has no text that waits.
  pub record IsReady (tsk : TcpSock) : Type 0 where
    pub receiver : IsReceiver stream tsk
    pub in_order : tsk.rcv_reass ≡ []

  recv-IsReceiver :
      (a b : TcpSock) → recv_of b ≡ recv_of a → IsReceiver stream a → IsReceiver stream b
  recv-IsReceiver a b e v = record {
    buffered = recv-IsBuffered a b e v.buffered;
    apart =
        subst (AreApart stream b.rcv_nxt) (sym (ap (λ r. r.3) e))
          (subst (λ n. AreApart stream n a.rcv_reass) (sym (ap (λ r. r.2) e)) v.apart);
  }

  pub recv-IsReady : (a b : TcpSock) → recv_of b ≡ recv_of a → IsReady a → IsReady b
  recv-IsReady a b e v = record {
    receiver = recv-IsReceiver a b e v.receiver;
    in_order = ap (λ r. r.3) e ∙ v.in_order;
  }

  pub recv-HasReceived :
      (a a' b b' : TcpSock)
      → recv_of a' ≡ recv_of a
      → recv_of b' ≡ recv_of b
      → HasReceived stream a b
      → HasReceived stream a' b'
  recv-HasReceived a a' b b' e f h =
      let n : a'.rcv_nxt ≡ a.rcv_nxt = ap (λ r. r.2) e in
      let m : b'.rcv_nxt ≡ b.rcv_nxt = ap (λ r. r.2) f in
      record {
        receiver = recv-IsReceiver b b' f h.receiver;
        onward = omega (arith, h.onward, n, m);
        delivered =
            ap contents (buffer_of-recv b b' f)
            ∙ h.delivered
            ∙ ap₂ (λ (l r : List ℕ). l ++ r) (ap contents (sym (buffer_of-recv a a' e)))
                (ap₂ (stretch stream) (sym n) (ap₂ (λ (x y : ℕ). x - y) (sym m) (sym n)));
        edge = omega (arith, h.edge, n, m, ap (λ r. r.1) e, ap (λ r. r.1) f);
      }
