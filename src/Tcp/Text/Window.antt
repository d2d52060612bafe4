-- ===== src/Tcp/Text/Window.antt =====
-- tcp_write_buf: the receive window is the room in the circular buffer.
use tapip.Base.{
  ℕ, ◌+◌, ◌-◌, ◌^◌, ◌≤◌, ◌<◌, ◌≡◌, refl, sym, ap, ap₂, ◌∙◌, length-append, length-take, List, ◌++◌,
  some, ltb, if◌then◌else◌, min, take, length, add32, arith, if-cases,
}
use tapip.Cbuf.{Cbuf, used, free}
use tapip.Cbuf.Inv.{IsValid}
use tapip.Cbuf.Span.{contents, length-span}
use tapip.Cbuf.Write.{write_cbuf-contents}
use tapip.Tcp.{TcpSock}
use tapip.Tcp.Text.{buffer_of, wrote, tcp_write_buf}

-- The buffer, or the one that the first text allocates, is valid, and the window is its room.
pub record IsBuffered (tsk : TcpSock) : Type 0 where
  pub valid : IsValid (buffer_of tsk)
  pub window : tsk.rcv_wnd + used (buffer_of tsk) ≡ (buffer_of tsk).size
  pub bounded : (buffer_of tsk).size < 2 ^ 16
  pub counted : tsk.rcv_nxt < 2 ^ 32

-- What tcp_write_buf has done with n bytes.
pub record HasWritten (tsk : TcpSock) (n : ℕ) (bytes : List ℕ) (tsk' : TcpSock) : Type 0 where
  pub buffered : IsBuffered tsk'
  pub appended : contents (buffer_of tsk') ≡ contents (buffer_of tsk) ++ take n bytes
  pub advanced : tsk'.rcv_nxt ≡ add32 tsk.rcv_nxt n
  pub shrunk : tsk'.rcv_wnd ≡ tsk.rcv_wnd - n
  pub same_reass : tsk'.rcv_reass ≡ tsk.rcv_reass

used-append :
    (c c' : Cbuf) (n : ℕ) (bytes : List ℕ)
    → contents c' ≡ contents c ++ take n bytes
    → n ≤ length bytes
    → used c' ≡ used c + n
used-append c c' n bytes e h =
    sym (length-span c'.buf c'.size c'.tail (used c'))
    ∙ ap length e
    ∙ length-append (contents c) (take n bytes)
    ∙ ap₂ ◌+◌ (length-span c.buf c.size c.tail (used c)) (omega (arith, length-take n bytes))

-- what is stored when n bytes have been written into c
abbrev pub stored : TcpSock → Cbuf → ℕ → TcpSock
stored tsk c n = if ltb 0 n then wrote tsk (some c) n else record tsk { rcv_buf = some c }

module _ {tsk : TcpSock} {n : ℕ} {bytes : List ℕ} {c : Cbuf} (b : IsBuffered tsk)
    (h : n ≤ tsk.rcv_wnd) (v : IsValid c)
    (e : contents c ≡ contents (buffer_of tsk) ++ take n bytes) (s : c.size ≡ (buffer_of tsk).size)
    (u : used c ≡ used (buffer_of tsk) + n) where
  wrote-HasWritten : HasWritten tsk n bytes (wrote tsk (some c) n)
  wrote-HasWritten = record {
    buffered = record {
      valid = v;
      window = omega (arith, b.window, b.bounded);
      bounded = omega (arith, b.bounded);
      counted = omega arith;
    };
    appended = e;
    advanced = refl;
    shrunk = omega (arith, b.window, b.bounded);
    same_reass = refl;
  }

  kept-HasWritten : n ≡ 0 → HasWritten tsk n bytes (record tsk { rcv_buf = some c })
  kept-HasWritten z = record {
    buffered = record {
      valid = v;
      window = omega (arith, b.window);
      bounded = omega (arith, b.bounded);
      counted = b.counted;
    };
    appended = e;
    advanced = omega (arith, b.counted);
    shrunk = omega arith;
    same_reass = refl;
  }

  stored-HasWritten : HasWritten tsk n bytes (stored tsk c n)
  stored-HasWritten =
      if-cases (HasWritten tsk n bytes) (ltb 0 n) (λ t. wrote-HasWritten)
        (λ f. kept-HasWritten (ground arith))

-- tcp_write_buf returns: it takes as many bytes as the window allows, appends them to the buffer, and
-- moves the window on by them.
pub tcp_write_buf-HasWritten :
    (tsk : TcpSock) (bytes : List ℕ) (len : ℕ)
    → IsBuffered tsk
    → len ≤ length bytes
    → (tsk' : TcpSock) × (tcp_write_buf tsk bytes len ≡ some (min tsk.rcv_wnd len, tsk'))
      × HasWritten tsk (min tsk.rcv_wnd len) bytes tsk'
unfolding tcp_write_buf
tcp_write_buf-HasWritten tsk bytes len b h =
    let n : ℕ = min tsk.rcv_wnd len in
    let room : min (free (buffer_of tsk)) len ≡ n = omega (arith, b.window, b.valid.live.ordered) in
    let (c, returns, v, e, s) = write_cbuf-contents bytes len b.valid h in
    let e' : contents c ≡ contents (buffer_of tsk) ++ take n bytes =
      e ∙ ap (λ k. contents (buffer_of tsk) ++ take k bytes) room in
    (
      stored tsk c n,
      rw (returns, tcp_write_buf) (ap (λ k. some (k, stored tsk c k)) room),
      stored-HasWritten b (omega arith) v e' s
          (used-append (buffer_of tsk) c n bytes e' (omega arith)),
    )
