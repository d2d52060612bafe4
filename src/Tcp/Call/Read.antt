-- ===== src/Tcp/Call/Read.antt =====
-- tcp_recv_buf: the bytes of the receive buffer on their way to the user.
use tapip.Base.{
  ℕ, zero, suc, ◌+◌, ◌-◌, ◌<◌, ◌≡◌, inl, inr, refl, sym, ap, ◌∙◌, List, [], ◌++◌, Option, none,
  some, true, false, ltb, leb, ◌||◌, not, if-cases, Option-cases, min, take, drop, length,
  length-take, length-drop, take-append-drop, add32, arith,
}
use mathlib.Core.Path.{subst}
use tapip.Cbuf.{Cbuf, alloc_cbuf, used, read_cbuf}
use tapip.Cbuf.Inv.{IsValid}
use tapip.Cbuf.Span.{contents, length-span}
use tapip.Cbuf.Read.{read_cbuf-contents}
use tapip.Tcp.{TcpSock}
use tapip.Tcp.Text.{buffer_of}
use tapip.Tcp.Text.Window.{IsBuffered}
use tapip.Tcp.Call.{
  waiting, Recv, returns, sleeps, took, is_pushed, recv_loop, tcp_recv_buf, may_read,
}

-- The user has got the oldest bytes, as many as there is room for, and the window has grown by them.
pub record HasRead (tsk : TcpSock) (len : ℕ) (got : List ℕ) (tsk' : TcpSock) : Type 0 where
  pub buffered : IsBuffered tsk'
  pub parted : contents (buffer_of tsk) ≡ got ++ contents (buffer_of tsk')
  pub count : length got ≡ min (used (buffer_of tsk)) len
  pub reopened : tsk'.rcv_wnd ≡ tsk.rcv_wnd + length got

-- what read_cbuf gives for the field rcv_buf
record ReadOf (tsk : TcpSock) (len : ℕ) : Type 0 where
  n : ℕ
  got : List ℕ
  buf : Option Cbuf
  returned : read_cbuf tsk.rcv_buf len ≡ some (n, got, buf)
  all : n ≡ length got
  left : waiting (took tsk n buf) ≡ used (buffer_of tsk) - n
  read : HasRead tsk len got (took tsk n buf)

read_nothing : (tsk : TcpSock) (len : ℕ) → IsBuffered tsk → tsk.rcv_buf ≡ none → ReadOf tsk len
unfolding read_cbuf alloc_cbuf
read_nothing tsk len b e =
    let u : used (buffer_of tsk) ≡ 0 = ap (λ o. used (buffer_of (record tsk { rcv_buf = o }))) e in
    let w : add32 tsk.rcv_wnd 0 ≡ tsk.rcv_wnd = omega (arith, b.window, b.bounded) in
    record {
      n = 0;
      got = [];
      buf = none;
      returned = ap (λ o. read_cbuf o len) e;
      all = refl;
      left = omega (arith, u);
      read = record {
        buffered =
            subst (λ wnd. IsBuffered (record tsk { rcv_buf = none; rcv_wnd = wnd })) (sym w)
              (subst (λ o. IsBuffered (record tsk { rcv_buf = o })) e b);
        parted = ap (λ o. contents (buffer_of (record tsk { rcv_buf = o }))) e;
        count = omega (arith, u);
        reopened = omega (arith, w);
      };
    }

read_some :
    (tsk : TcpSock) (len : ℕ) (c : Cbuf) → IsBuffered tsk → tsk.rcv_buf ≡ some c → ReadOf tsk len
read_some tsk len c b e =
    let same : buffer_of tsk ≡ c = ap (λ o. buffer_of (record tsk { rcv_buf = o })) e in
    let v : IsValid c = subst IsValid same b.valid in
    let n : ℕ = min (used c) len in
    let (c', returned, v', rest, size) = read_cbuf-contents len v in
    let u : used (buffer_of tsk) ≡ used c = ap used same in
    let s : (buffer_of tsk).size ≡ c.size = ap (λ d. d.size) same in
    let l : length (take n (contents c)) ≡ n =
      omega (arith, length-take n (contents c), length-span c.buf c.size c.tail (used c)) in
    let u' : used c' ≡ used c - n =
      sym (length-span c'.buf c'.size c'.tail (used c'))
      ∙ ap length rest
      ∙ length_rest n (contents c)
      ∙ ap (λ k. k - n) (length-span c.buf c.size c.tail (used c)) in
    record {
      n = n;
      got = take n (contents c);
      buf = some c';
      returned = ap (λ o. read_cbuf o len) e ∙ returned;
      all = sym l;
      left = omega (arith, u, u');
      read = record {
        buffered = record {
          valid = v';
          window = omega (arith, b.window, b.bounded, u, u', s, size);
          bounded = omega (arith, b.bounded, s, size);
          counted = b.counted;
        };
        parted =
            ap contents same
            ∙ sym (take-append-drop n (contents c))
            ∙ ap (λ r. take n (contents c) ++ r) (sym rest);
        count = omega (arith, l, u);
        reopened = omega (arith, l, b.window, b.bounded, u);
      };
    }
  where
    length_rest : (n : ℕ) (xs : List ℕ) → length (drop n xs) ≡ length xs - n
    length_rest n xs = length-drop n xs

read_of : (tsk : TcpSock) (len : ℕ) → IsBuffered tsk → ReadOf tsk len
read_of tsk len b = elim (Option-cases tsk.rcv_buf) [
  | inl e ↦ read_nothing tsk len b e
  | inr (c, e) ↦ read_some tsk len c b e
]

-- The user is given as much as was asked for, or what was there at a PUSH; the call sleeps only when
-- the buffer is empty, the user has less than was asked for, and there is no PUSH.
pub data IsRead (tsk : TcpSock) (len : ℕ) : Recv → Type 0 where
  filled :
      {got : List ℕ} {tsk' : TcpSock}
      → HasRead tsk len got tsk'
      → length got ≡ len
      → IsRead tsk len (returns got tsk')
  at_push :
      {got : List ℕ} {tsk' : TcpSock}
      → HasRead tsk len got tsk'
      → tsk.f_push ≡ true
      → waiting tsk' ≡ 0
      → IsRead tsk len (returns got tsk')
  must_wait :
      {got : List ℕ} {tsk' : TcpSock}
      → HasRead tsk len got tsk'
      → tsk.f_push ≡ false
      → waiting tsk' ≡ 0
      → length got < len
      → IsRead tsk len (sleeps got tsk')

abbrev pub Reads : TcpSock → ℕ → Option Recv → Type 0
Reads tsk len o = (r : Recv) × (o ≡ some r) × IsRead tsk len r

-- The flag PUSH does not matter for the buffer.
unpushed :
    {tsk : TcpSock} {len : ℕ} {got : List ℕ} {tsk' : TcpSock}
    → HasRead tsk len got tsk'
    → HasRead tsk len got (record tsk' { f_push = false })
unpushed r = record {
  buffered = record {
    valid = r.buffered.valid;
    window = r.buffered.window;
    bounded = r.buffered.bounded;
    counted = r.buffered.counted;
  };
  parted = r.parted;
  count = r.count;
  reopened = r.reopened;
}

-- the end of the loop when nothing is asked for any more
last_test :
    (tsk : TcpSock) (got : List ℕ) (left : ℕ)
    → left ≡ 0
    → recv_loop 1 tsk got left ≡ some (returns got tsk)
unfolding recv_loop
last_test tsk got left e = ap (λ k. recv_loop 1 tsk got k) e

read_round :
    (tsk : TcpSock) (len : ℕ) → 0 < len → ReadOf tsk len → Reads tsk len (recv_loop 2 tsk [] len)
unfolding recv_loop
read_round tsk len h r =
    let tsk' : TcpSock = took tsk r.n r.buf in
    let count = r.read.count in
    if-cases (Reads tsk len) (ltb 0 len)
      (λ b. rw r.returned (
        if-cases (Reads tsk len) (not (tsk'.f_push || (ltb 0 (waiting tsk') || leb len r.n)))
          (λ c. (
            sleeps r.got tsk',
            refl,
            must_wait r.read (ground arith) (ground arith) (ground (arith, r.all)),
          ))
          (λ c.
            if-cases (Reads tsk len) (is_pushed tsk')
              (λ d. (
                returns r.got (record tsk' { f_push = false }),
                refl,
                at_push (unpushed r.read) (ground arith) (ground arith),
              ))
              (λ d. (
                returns r.got tsk',
                last_test tsk' r.got (len - r.n) (ground (arith, r.all, r.left, count)),
                filled r.read (ground (arith, r.all, r.left, count)),
              )))))
      (λ b. absurd (ground arith))

recv_loop-Reads :
    (tsk : TcpSock) (len : ℕ) → IsBuffered tsk → Reads tsk len (recv_loop 2 tsk [] len)
unfolding recv_loop
recv_loop-Reads tsk zero b = (
  returns [] tsk,
  refl,
  filled (record { buffered = b; parted = refl; count = omega arith; reopened = omega arith }) refl,
)
recv_loop-Reads tsk (suc n) b = read_round tsk (suc n) (omega arith) (read_of tsk (suc n) b)

-- In a state in which a user may read, and with the window as the room of a valid buffer,
-- tcp_recv_buf gets back to the user or to sleep. The user then has the oldest bytes of the buffer in
-- order, as many as there are and were asked for, the others stay, and the window has grown by as
-- many. It sleeps only with an empty buffer, less than was asked for and no PUSH.
pub tcp_recv_buf-Reads :
    (tsk : TcpSock) (len : ℕ)
    → IsBuffered tsk
    → may_read tsk ≡ true
    → (r : Recv) × (tcp_recv_buf tsk len ≡ some (some r)) × IsRead tsk len r
unfolding tcp_recv_buf
tcp_recv_buf-Reads tsk len b h =
    let (r, e, ok) = recv_loop-Reads tsk len b in
    rw (h, tcp_recv_buf) (rw (e, tcp_recv_buf) (r, refl, ok))
