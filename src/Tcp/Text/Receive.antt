-- ===== src/Tcp/Text/Receive.antt =====
-- The third loop of tcp_segment_reass, against the stream of the sender.
use tapip.Base.{
  ℕ, ◌+◌, ◌-◌, ◌≤◌, ◌≡◌, refl, sym, ap, ◌∙◌, List, [], ◌∷◌, ◌++◌, Option, some, ltb, if-cases, min,
  arith,
}
use mathlib.Core.Path.{subst}
use mathlib.Core.List.{append_assoc, append-nil}
use tapip.Cbuf.Span.{contents}
use tapip.Tcp.{ReassHead, TcpSock}
use tapip.Tcp.Text.{buffer_of, write_reass}
use tapip.Tcp.Text.Window.{IsBuffered, HasWritten, tcp_write_buf-HasWritten}
use tapip.Tcp.Text.Stream.{stretch, stretch-add, IsText, take-IsText, AreApart, AreApart-le}

module _ (stream : ℕ → ℕ) where
  -- The receiver's state: a buffer whose room is the window, and entries that wait behind it.
  pub record IsReceiver (tsk : TcpSock) : Type 0 where
    pub buffered : IsBuffered tsk
    pub apart : AreApart stream tsk.rcv_nxt tsk.rcv_reass

  -- One state after another: what has come into the buffer is the stretch of the stream between the
  -- two values of rcv_nxt, and the right edge of the window has not moved.
  pub record HasReceived (tsk tsk' : TcpSock) : Type 0 where
    pub receiver : IsReceiver tsk'
    pub onward : tsk.rcv_nxt ≤ tsk'.rcv_nxt
    pub delivered :
        contents (buffer_of tsk')
        ≡ contents (buffer_of tsk) ++ stretch stream tsk.rcv_nxt (tsk'.rcv_nxt - tsk.rcv_nxt)
    pub edge : tsk'.rcv_nxt + tsk'.rcv_wnd ≡ tsk.rcv_nxt + tsk.rcv_wnd

  -- Nothing has been received, and the entries may be others.
  pub kept-HasReceived :
      (tsk : TcpSock) (trhs : List ReassHead)
      → IsBuffered tsk
      → AreApart stream tsk.rcv_nxt trhs
      → HasReceived tsk (record tsk { rcv_reass = trhs })
  kept-HasReceived tsk trhs b a = record {
    receiver = record {
      buffered = record {
        valid = b.valid;
        window = b.window;
        bounded = b.bounded;
        counted = b.counted;
      };
      apart = a;
    };
    onward = omega arith;
    delivered =
        sym (append-nil (contents (buffer_of tsk)))
        ∙ ap (λ n. contents (buffer_of tsk) ++ stretch stream tsk.rcv_nxt n) {x = 0} (omega arith);
    edge = refl;
  }

  -- The entries of the first state do not matter.
  moved :
      (tsk : TcpSock) (trhs : List ReassHead) (tsk' : TcpSock)
      → HasReceived tsk tsk'
      → HasReceived (record tsk { rcv_reass = trhs }) tsk'
  moved tsk trhs tsk' r = record {
    receiver = r.receiver;
    onward = r.onward;
    delivered = r.delivered;
    edge = r.edge;
  }

  HasReceived-trans : {a b c : TcpSock} → HasReceived a b → HasReceived b c → HasReceived a c
  HasReceived-trans {a} {b} {c} p q = record {
    receiver = q.receiver;
    onward = omega (arith, p.onward, q.onward);
    delivered =
        q.delivered
        ∙ ap (λ r. r ++ stretch stream b.rcv_nxt (c.rcv_nxt - b.rcv_nxt)) p.delivered
        ∙ append_assoc (contents (buffer_of a)) _ _
        ∙ ap (λ r. contents (buffer_of a) ++ r)
            (ap
                (λ i.
                  stretch stream a.rcv_nxt (b.rcv_nxt - a.rcv_nxt)
                  ++ stretch stream i (c.rcv_nxt - b.rcv_nxt))
                (omega (arith, p.onward))
              ∙ sym (
                  stretch-add stream a.rcv_nxt (b.rcv_nxt - a.rcv_nxt) (c.rcv_nxt - b.rcv_nxt)
                    (c.rcv_nxt - a.rcv_nxt) (omega (arith, p.onward, q.onward))));
    edge = q.edge ∙ p.edge;
  }

  -- n bytes of a text that begins at rcv_nxt have been written, and these entries are left.
  pub written-HasReceived :
      (tsk tsk' : TcpSock) (n len : ℕ) (bytes : List ℕ) (trhs : List ReassHead)
      → IsText stream tsk.rcv_nxt len bytes
      → n ≤ len
      → n ≤ tsk.rcv_wnd
      → HasWritten tsk n bytes tsk'
      → AreApart stream (tsk.rcv_nxt + n) trhs
      → HasReceived tsk (record tsk' { rcv_reass = trhs })
  written-HasReceived tsk tsk' n len bytes trhs t h room w a =
      let next : tsk'.rcv_nxt ≡ tsk.rcv_nxt + n = omega (arith, w.advanced, t.inside) in
      record {
        receiver = record {
          buffered = record {
            valid = w.buffered.valid;
            window = w.buffered.window;
            bounded = w.buffered.bounded;
            counted = w.buffered.counted;
          };
          apart = subst (λ i. AreApart stream i trhs) (sym next) a;
        };
        onward = omega (arith, next);
        delivered =
            w.appended
            ∙ ap (λ r. contents (buffer_of tsk) ++ r)
                (take-IsText stream n t h ∙ ap (stretch stream tsk.rcv_nxt) (omega (arith, next)));
        edge = omega (arith, next, w.shrunk);
      }

  -- What the third loop comes to.
  abbrev pub LoopReceived : TcpSock → Option (ℕ × TcpSock) → Type 0
  LoopReceived tsk r = (n : ℕ) × (tsk' : TcpSock) × (r ≡ some (n, tsk')) × HasReceived tsk tsk'

  pub write_reass-Received :
      (trhs : List ReassHead) (tsk : TcpSock)
      → IsBuffered tsk
      → AreApart stream tsk.rcv_nxt trhs
      → LoopReceived tsk (write_reass tsk trhs)
  unfolding write_reass
  write_reass-Received [] tsk b a =
      (0, record tsk { rcv_reass = [] }, refl, kept-HasReceived tsk [] b tt)
  write_reass-Received (trh ∷ trhs) tsk b a =
      if-cases (LoopReceived tsk) (ltb tsk.rcv_nxt trh.trh_seq)
        (λ l.
          (0, record tsk { rcv_reass = trh ∷ trhs }, refl, kept-HasReceived tsk (trh ∷ trhs) b a))
        (λ l.
          if-cases (LoopReceived tsk) (ltb trh.trh_seq tsk.rcv_nxt)
            (λ m. absurd (ground (arith, a.0)))
            (λ m.
              let e : trh.trh_seq ≡ tsk.rcv_nxt = ground arith in
              let t = subst (λ i. IsText stream i trh.trh_len trh.trh_data) e a.1 in
              let n : ℕ = min tsk.rcv_wnd trh.trh_len in
              let (tsk', returns, w) =
                tcp_write_buf-HasWritten tsk trh.trh_data trh.trh_len b t.enough in
              rw returns (
                if-cases (LoopReceived tsk) (ltb 0 n)
                  (λ p.
                    let first =
                      written-HasReceived tsk tsk' n trh.trh_len trh.trh_data trhs t (omega arith)
                        (omega arith) w (AreApart-le stream trhs (omega (arith, e)) a.2) in
                    let (k, tsk'', ok, r) =
                      write_reass-Received trhs tsk' w.buffered first.receiver.apart in
                    rw ok (n + k, tsk'', refl, HasReceived-trans first (moved tsk' trhs tsk'' r)))
                  (λ p. (
                    0,
                    record tsk' { rcv_reass = trh ∷ trhs },
                    refl,
                    written-HasReceived tsk tsk' n trh.trh_len trh.trh_data (trh ∷ trhs) t
                        (omega arith) (omega arith) w (ground (arith, e), a.1, a.2),
                  )))))
