-- ===== src/Tcp/Step/Takes.antt =====
-- tcp_process: new text for an open connection is taken.
use tapip.Base.{
  ℕ, ◌+◌, ◌-◌, ◌++◌, ◌≤◌, ◌<◌, ◌≡◌, refl, sym, ap, ap₂, ◌∙◌, List, [], Option, some, true, false,
  ltb, leb, if-cases, Bool-cases, inl, inr, ◌&&◌, ◌||◌, not, min, take, drop, length, add32, arith,
}
use mathlib.Core.Path.{subst}
use tapip.Cbuf.Span.{contents}
use tapip.Tcp.{established, Segment, TcpSock, Tcp, modify}
use tapip.Tcp.Process.{seq_check, tcp_update_window, next}
use tapip.Tcp.Step.{
  take_ack, acked, ack_open, ack_check, takes_text, text_check, text_and_fin, after_ack, ack_and_on,
  fin_check, drop_label, process_open, process_by, tcp_process,
}
use tapip.Tcp.Step.Graph.{Same, Same-trans, modify-Same, state_of, state_IsInner}
use tapip.Tcp.Step.Keep.{
  recv_of, recv_IsInner, Keeps, window-Keeps, drop_label-Keeps, fin_check_without,
}
use tapip.Tcp.Step.Moves.{window-Same}
use tapip.Tcp.Step.Quiet.{tcp_recv_notify-Same}
use tapip.Tcp.Step.Ready.{buffer_of-recv, recv-IsBuffered}
use tapip.Tcp.Text.{tcp_recv_text, take_text, tcp_recv_notify}
use tapip.Tcp.Text.Header.{HdrKeeps, recv_text-HdrKeeps}
use tapip.Tcp.Text.Progress.{Took, recv_text-Took}
use tapip.Tcp.Text.Window.{IsBuffered}

recv-Took :
    (a a' b b' : TcpSock) {n : ℕ} {bytes : List ℕ}
    → recv_of a' ≡ recv_of a
    → recv_of b' ≡ recv_of b
    → Took a n bytes b
    → Took a' n bytes b'
recv-Took a a' b b' {n} {bytes} e f t = record {
  appended =
      ap contents (buffer_of-recv b b' f)
      ∙ t.appended
      ∙ ap (λ (l : List ℕ). l ++ take n bytes) (ap contents (sym (buffer_of-recv a a' e)));
  advanced = ap (λ r. r.2) f ∙ t.advanced ∙ ap (λ k. add32 k n) (sym (ap (λ r. r.2) e));
  shrunk = omega (arith, t.shrunk, ap (λ r. r.1) e, ap (λ r. r.1) f);
}

-- The check of an acknowledgement of what has been sent lets the segment through.
record Passes (st : Tcp) (i : ℕ) (seg : Segment) : Type 0 where
  after : Tcp
  passed : ack_open st i seg established ≡ next after
  keeps : Keeps st after
  same : Same st after

ack_open-Passes :
    (st : Tcp) (i : ℕ) (seg : Segment) → seg.seg_ack ≤ (st.socks i).snd_nxt → Passes st i seg
unfolding ack_open acked
ack_open-Passes st i seg h =
    let taken = modify st i (take_ack seg) in
    let late : ltb (st.socks i).snd_nxt seg.seg_ack ≡ false = ground arith in
    elim (Bool-cases
      (ltb (st.socks i).snd_una seg.seg_ack && leb seg.seg_ack (st.socks i).snd_nxt)) [
        | inl b ↦ record {
          after = modify taken i (tcp_update_window seg);
          passed = rw b refl;
          keeps =
              Same-trans (modify-Same st i (take_ack seg) (λ t. refl)) (window-Keeps taken i seg);
          same = Same-trans (modify-Same st i (take_ack seg) (λ t. refl)) (window-Same taken i seg);
        }
        | inr b ↦ record {
          after = modify st i (tcp_update_window seg);
          passed = rw b (rw late refl);
          keeps = window-Keeps st i seg;
          same = window-Same st i seg;
        }
      ]

-- the number of bytes that are taken, and those behind which they begin
abbrev pub room_for : TcpSock → Segment → ℕ
room_for tsk seg = min tsk.rcv_wnd (seg.seg_seq + seg.dlen - tsk.rcv_nxt)

abbrev pub new_bytes : TcpSock → Segment → List ℕ
new_bytes tsk seg = drop (tsk.rcv_nxt - seg.seg_seq) seg.text

-- A segment with new text in order for a socket with an open window and nothing out of order.
pub record HasNews (tsk : TcpSock) (seg : Segment) : Type 0 where
  pub buffered : IsBuffered tsk
  pub in_order : tsk.rcv_reass ≡ []
  pub enough : seg.dlen ≤ length seg.text
  pub low : seg.seg_seq ≤ tsk.rcv_nxt
  pub high : tsk.rcv_nxt < seg.seg_seq + seg.dlen
  pub open_ : 0 < tsk.rcv_wnd

recv-HasNews :
    (a b : TcpSock) (seg : Segment) → recv_of b ≡ recv_of a → HasNews a seg → HasNews b seg
recv-HasNews a b seg e v =
    let n = ap (λ r. r.2) e in
    record {
      buffered = recv-IsBuffered a b e v.buffered;
      in_order = ap (λ r. r.3) e ∙ v.in_order;
      enough = v.enough;
      low = omega (arith, v.low, n);
      high = omega (arith, v.high, n);
      open_ = omega (arith, v.open_, ap (λ r. r.1) e);
    }

module _ (i : ℕ) (seg : Segment) where
  -- What a run comes to that took the text.
  Takes : TcpSock → Option (Tcp × Segment) → Type 0
  Takes tsk o =
      (st' : Tcp) × (seg' : Segment) × (o ≡ some (st', seg'))
      × Took tsk (room_for tsk seg) (new_bytes tsk seg) (st'.socks i)
      × (seg'.tcphdr ≡ seg.tcphdr)

  tcp_recv_text-Takes :
      (st : Tcp) → HasNews (st.socks i) seg → Takes (st.socks i) (tcp_recv_text st i seg)
  unfolding tcp_recv_text Takes
  tcp_recv_text-Takes st v =
      let tsk = st.socks i in
      let (tsk', seg', e, t) =
        recv_text-Took tsk v.buffered v.in_order seg v.enough v.low v.high v.open_ in
      let st' = modify st i (λ old. tsk') in
      let stored : st'.socks i ≡ tsk' = ground arith in
      let here : Took tsk (room_for tsk seg) (new_bytes tsk seg) (st'.socks i) =
        subst (Took tsk (room_for tsk seg) (new_bytes tsk seg)) (sym stored) t in
      rw (e, take_text)
        (
          _,
          seg',
          refl,
          if-cases (λ (s : Tcp). Took tsk (room_for tsk seg) (new_bytes tsk seg) (s.socks i))
              (tsk'.f_push)
              (λ b.
                recv-Took tsk tsk (st'.socks i) ((tcp_recv_notify st' i).socks i) refl
                  ((tcp_recv_notify-Same {view = recv_of} st' i).same i) here)
              (λ b. here),
          subst (HdrKeeps seg) e (recv_text-HdrKeeps tsk seg),
        )

  text_check-Takes :
      (st : Tcp)
      → HasNews (st.socks i) seg
      → state_of st i ≡ established
      → Takes (st.socks i) (text_check st i seg)
  unfolding text_check
  text_check-Takes st v e =
      let some_text : ltb 0 seg.dlen ≡ true = ground (arith, v.low, v.high) in
      let taken : (takes_text (st.socks i).state && (seg.tcphdr.psh || ltb 0 seg.dlen)) ≡ true =
        ap (λ s. takes_text s && (seg.tcphdr.psh || ltb 0 seg.dlen)) e
        ∙ ground (arith, some_text) in
      rw taken (tcp_recv_text-Takes st v)

  -- The run ends with the text taken.
  Ends : TcpSock → Option Tcp → Type 0
  Ends tsk o =
      (st' : Tcp) × (o ≡ some st') × Took tsk (room_for tsk seg) (new_bytes tsk seg) (st'.socks i)

  text_and_fin-Ends :
      (tsk : TcpSock) (st : Tcp)
      → seg.tcphdr.fin ≡ false
      → Takes tsk (text_check st i seg)
      → Ends tsk (text_and_fin st i seg)
  unfolding text_and_fin Takes Ends
  text_and_fin-Ends tsk st f (st', seg', e, t, h) =
      let none_new : fin_check st' i seg' ≡ st' =
        fin_check_without st' i seg' (ap (λ k. k.fin) h ∙ f) in
      let k : Keeps st' (drop_label (fin_check st' i seg') i seg') =
        subst (λ s. Keeps st' (drop_label s i seg')) (sym none_new) (drop_label-Keeps st' i seg') in
      rw (e, text_and_fin) (_, refl, recv-Took tsk tsk (st'.socks i) _ refl (k.same i) t)

  -- The receiving side before was the same.
  Ends-before : (a b : TcpSock) (o : Option Tcp) → recv_of b ≡ recv_of a → Ends b o → Ends a o
  unfolding Ends
  Ends-before a b o e (st', r, t) =
      let w : a.rcv_wnd ≡ b.rcv_wnd = sym (ap (λ r. r.1) e) in
      let n : a.rcv_nxt ≡ b.rcv_nxt = sym (ap (λ r. r.2) e) in
      let room : room_for a seg ≡ room_for b seg =
        ap₂ (λ (x y : ℕ). min x (seg.seg_seq + seg.dlen - y)) w n in
      let bytes : new_bytes a seg ≡ new_bytes b seg =
        ap (λ (y : ℕ). drop (y - seg.seg_seq) seg.text) n in
      (
        st',
        r,
        subst (λ k. Took a k (new_bytes a seg) (st'.socks i)) (sym room)
            (subst (λ l. Took a (room_for b seg) l (st'.socks i)) (sym bytes)
              (recv-Took b a (st'.socks i) (st'.socks i) (sym e) refl t)),
      )

  ack_and_on-Ends :
      (st : Tcp)
      → HasNews (st.socks i) seg
      → state_of st i ≡ established
      → seg.tcphdr.ack ≡ true
      → seg.tcphdr.fin ≡ false
      → seg.seg_ack ≤ (st.socks i).snd_nxt
      → Ends (st.socks i) (ack_and_on st i seg)
  unfolding ack_and_on ack_check
  ack_and_on-Ends st v s ack fin h =
      let p = ack_open-Passes st i seg h in
      let news = recv-HasNews (st.socks i) (p.after.socks i) seg (p.keeps.same i) v in
      if-cases (Ends (st.socks i)) (seg.tcphdr.ack)
        (λ b.
          subst (λ t. Ends (st.socks i) (after_ack i seg (ack_check st i seg t))) (sym s)
            (subst (λ c. Ends (st.socks i) (after_ack i seg c)) (sym p.passed)
              (Ends-before (st.socks i) (p.after.socks i) (text_and_fin p.after i seg)
                (p.keeps.same i)
                (text_and_fin-Ends (p.after.socks i) p.after fin
                  (text_check-Takes p.after news (p.same.same i ∙ s))))))
        (λ b. absurd (ground arith))

  -- A segment with new text in order, acceptable, with ACK and without RST, SYN and FIN, that does not
  -- acknowledge what has not been sent, for an established connection with an open window and nothing
  -- out of order: tcp_process returns, and the receive buffer of the socket holds what it held and
  -- then as many of the new bytes as the window had room for; rcv_nxt is on by as many, and the
  -- window is smaller by as many.
  pub tcp_process-Took :
      (st : Tcp)
      → HasNews (st.socks i) seg
      → state_of st i ≡ established
      → seq_check seg (st.socks i) ≡ true
      → seg.tcphdr.rst ≡ false
      → seg.tcphdr.syn ≡ false
      → seg.tcphdr.ack ≡ true
      → seg.tcphdr.fin ≡ false
      → seg.seg_ack ≤ (st.socks i).snd_nxt
      → (st' : Tcp) × (tcp_process st (some i) seg ≡ some st')
        × Took (st.socks i) (room_for (st.socks i) seg) (new_bytes (st.socks i) seg) (st'.socks i)
  unfolding tcp_process process_by process_open Ends
  tcp_process-Took st v s ok rst syn ack fin h =
      subst (λ t. Ends (st.socks i) (process_by st i seg t)) (sym s)
        (if-cases (Ends (st.socks i)) (not (seq_check seg (st.socks i)))
          (λ b. absurd (ground arith))
          (λ b.
            if-cases (Ends (st.socks i)) (seg.tcphdr.rst) (λ c. absurd (ground arith))
              (λ c.
                if-cases (λ (st' : Tcp). Ends (st.socks i) (ack_and_on st' i seg)) (seg.tcphdr.syn)
                  (λ d. absurd (ground arith)) (λ d. ack_and_on-Ends st v s ack fin h))))
