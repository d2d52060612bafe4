-- ===== src/Tcp/Step/Drive.antt =====
-- tcp_process as a whole, against the state diagram.
use tapip.Base.{
  ℕ, true, false, ◌≡◌, refl, sym, ap, ◌∙◌, Bool, ltb, if◌then◌else◌, if-cases, ◌&&◌, ◌||◌, not,
  Option, none, some, inl, inr, Option-cases, arith,
}
use mathlib.Core.Path.{subst}
use tapip.Tcp.{
  TcpState, closed, listen, syn_recv, syn_sent, established, close_wait, last_ack, fin_wait1,
  fin_wait2, closing, time_wait, TcpHdr, Segment, TcpSock, Tcp, modify, tcp_set_state,
}
use tapip.Tcp.Process.{
  update_window, signal_connect, take_syn, is_bad_ack, synsent_syn, tcp_closed, tcp_synsent,
  discard, seq_check, Check, next, dropped,
}
use tapip.Tcp.Step.{
  abort, drop_label, fin_check, refuse_syn, ack_check, takes_text, text_check, text_and_fin,
  after_ack, ack_and_on, ask_ack, process_open,
}
use tapip.Tcp.Step.Diagram.{
  peer_closes, with_fin, answered, after_segment, after_syn_sent, with_state, next_by, next_state,
  Goes,
}
use tapip.Tcp.Step.Graph.{state_of, Same, Same-trans, Same-refl, state_IsInner, modify-Same}
use tapip.Tcp.Text.{tcp_recv_text, recv_text, take_text}
use tapip.Tcp.Text.Header.{HdrKeeps, recv_text-HdrKeeps}
use tapip.Tcp.Step.Passive.{tcp_listen-Goes}
use tapip.Tcp.Step.Quiet.{
  emit-Same, tcp_send_reset-Same, tcp_send_ack-Same, tcp_send_synack-Same, signal_connect-Same,
  TextSame, tcp_recv_text-Same,
}
use tapip.Tcp.Step.{process_by, tcp_process}
use tapip.Tcp.Step.Moves.{
  quiet, after_quiet, again, own, stay, set_after, abort-Goes, refuse_syn-Goes, CheckGoes,
  ack_check-Goes, fin_check-Goes, drop_label-Same,
}

-- What a step comes to, when it returns.
abbrev pub MayGo : (ℕ → TcpState) → Option Tcp → Type 0
MayGo to none = Unit
MayGo to (some st') = Goes to st'

MayGo-again :
    (st : Tcp) {st' : Tcp} (i : ℕ) (s t : TcpState) (o : Option Tcp)
    → Goes (with_state st i s) st'
    → MayGo (with_state st' i t) o
    → MayGo (with_state st i t) o
MayGo-again st i s t none p q = tt
MayGo-again st i s t (some st'') p q = again st i s t p q

text_check-Same : (st : Tcp) (i : ℕ) (seg : Segment) → TextSame st (text_check st i seg)
unfolding text_check
text_check-Same st i seg =
    if-cases (TextSame st) (takes_text (st.socks i).state && (seg.tcphdr.psh || ltb 0 seg.dlen))
      (λ b. tcp_recv_text-Same st i seg) (λ b. Same-refl)

-- the text that is taken leaves the FIN of the header
TextFin : Segment → Option (Tcp × Segment) → Type 0
TextFin seg none = Unit
TextFin seg (some (st', seg')) = seg'.tcphdr ≡ seg.tcphdr

text_check-Fin : (st : Tcp) (i : ℕ) (seg : Segment) → TextFin seg (text_check st i seg)
unfolding text_check tcp_recv_text TextFin
text_check-Fin st i seg =
    if-cases (TextFin seg) (takes_text (st.socks i).state && (seg.tcphdr.psh || ltb 0 seg.dlen))
      (λ b. taken (recv_text (st.socks i) seg) (recv_text-HdrKeeps (st.socks i) seg)) (λ b. refl)
  where
    taken : (r : Option (TcpSock × Segment)) → HdrKeeps seg r → TextFin seg (take_text st i r)
    taken none k = tt
    taken (some (tsk, seg')) k = k

text_and_fin-Goes :
    (st : Tcp) (i : ℕ) (seg : Segment) (s : TcpState)
    → state_of st i ≡ s
    → MayGo (with_state st i (with_fin seg s)) (text_and_fin st i seg)
unfolding text_and_fin TextFin
text_and_fin-Goes st i seg s e = elim (Option-cases (text_check st i seg)) [
  | inl n ↦ rw (n, text_and_fin) tt
  | inr ((st', seg'), r) ↦
      let q = subst (TextSame st) r (text_check-Same st i seg) in
      let h = subst (TextFin seg) r (text_check-Fin st i seg) in
      rw (r, text_and_fin)
        (quiet
          (after_quiet i (with_fin seg s) q (
            subst
              (λ fin.
                Goes (with_state st' i (if fin then peer_closes s else s)) (fin_check st' i seg'))
              (ap (λ (x : TcpHdr). x.fin) h) (fin_check-Goes st' i seg' s (q.same i ∙ e))))
          (drop_label-Same _ i seg'))
]

after_ack-Goes :
    (st : Tcp) (i : ℕ) (seg : Segment) (t : TcpState) (c : Check)
    → CheckGoes st i seg t c
    → MayGo (with_state st i t) (after_ack i seg c)
after_ack-Goes st i seg t (next st') (s, p, e) = MayGo-again st i s t (text_and_fin st' i seg) p (
    subst (λ u. MayGo (with_state st' i u) (text_and_fin st' i seg)) e
      (text_and_fin-Goes st' i seg s (own st i s p)))
after_ack-Goes st i seg t (dropped st') p = quiet p (drop_label-Same st' i seg)

ack_and_on-Goes :
    (st : Tcp) (i : ℕ) (seg : Segment) (s : TcpState)
    → state_of st i ≡ s
    → MayGo
        (with_state st i (if seg.tcphdr.ack then answered st i seg s else s))
        (ack_and_on st i seg)
unfolding ack_and_on
ack_and_on-Goes st i seg s e =
    by_flag (answered st i seg s) (after_ack i seg (ack_check st i seg (state_of st i)))
      (seg.tcphdr.ack)
      (after_ack-Goes st i seg (answered st i seg s) (ack_check st i seg (state_of st i)) (
        subst (λ t. CheckGoes st i seg (answered st i seg s) (ack_check st i seg t)) (sym e)
          (ack_check-Goes st i seg s e)))
      (stay st i s e (drop_label-Same st i seg))
  where
    by_flag :
        (t : TcpState) (o : Option Tcp) {st' : Tcp} (b : Bool)
        → MayGo (with_state st i t) o
        → Goes (with_state st i s) st'
        → MayGo (with_state st i (if b then t else s)) (if b then o else some st')
    by_flag t o true p q = p
    by_flag t o false p q = q

-- behind a SYN that is refused the checks that follow do nothing to the state
refused-Goes :
    (st : Tcp) (i : ℕ) (seg : Segment)
    → MayGo (with_state st i closed) (ack_and_on (refuse_syn st i seg) i seg)
refused-Goes st i seg =
    let st' = refuse_syn st i seg in
    let p = refuse_syn-Goes st i seg in
    MayGo-again st i closed closed (ack_and_on st' i seg) p (
      subst (λ t. MayGo (with_state st' i t) (ack_and_on st' i seg))
        (if-cases (λ t. t ≡ closed) (seg.tcphdr.ack) (λ b. refl) (λ b. refl))
        (ack_and_on-Goes st' i seg closed (own st i closed p)))

pub process_open-Goes :
    (st : Tcp) (i : ℕ) (seg : Segment) (s : TcpState)
    → state_of st i ≡ s
    → MayGo (with_state st i (after_segment st i seg s)) (process_open st i seg)
unfolding process_open
process_open-Goes st i seg s e =
    by_checks (if seg.tcphdr.ack then answered st i seg s else s) (not (seq_check seg (st.socks i)))
      (seg.tcphdr.rst) (seg.tcphdr.syn)
      (if-cases (λ st'. Goes (with_state st i s) (drop_label st' i seg)) (seg.tcphdr.rst)
        (λ b. stay st i s e (drop_label-Same st i seg))
        (λ b.
          quiet (stay st i s e (modify-Same st i ask_ack (λ tsk. refl)))
            (drop_label-Same (modify st i ask_ack) i seg)))
      (quiet (abort-Goes st i) (drop_label-Same (abort st i) i seg)) (refused-Goes st i seg)
      (ack_and_on-Goes st i seg s e)
  where
    by_checks :
        (t : TcpState) {outside aborted : Tcp} (out rst syn : Bool)
        → Goes (with_state st i s) outside
        → Goes (with_state st i closed) aborted
        → MayGo (with_state st i closed) (ack_and_on (refuse_syn st i seg) i seg)
        → MayGo (with_state st i t) (ack_and_on st i seg)
        → MayGo
            (with_state st i (if out then s else if rst then closed else if syn then closed else t))
            (if out
              then some outside
              else if rst
              then some aborted
              else ack_and_on (if syn then refuse_syn st i seg else st) i seg)
    by_checks t true rst syn p q r a = p
    by_checks t false true syn p q r a = q
    by_checks t false false true p q r a = r
    by_checks t false false false p q r a = a

synsent_syn-Goes :
    (st : Tcp) (i : ℕ) (seg : Segment)
    → let una = if seg.tcphdr.ack then seg.seg_ack else (st.socks i).snd_una in
      Goes
        (with_state st i (if ltb (st.socks i).iss una then established else syn_recv))
        (synsent_syn st i seg)
unfolding synsent_syn
synsent_syn-Goes st i seg =
    let st' = modify st i (take_syn seg) in
    let s : Same st st' = modify-Same st i (take_syn seg) (λ tsk. refl) in
    let una = if seg.tcphdr.ack then seg.seg_ack else (st.socks i).snd_una in
    let same_test : ltb (st'.socks i).iss (st'.socks i).snd_una ≡ ltb (st.socks i).iss una =
      ground arith in
    rw same_test (
      by_answer (ltb (st.socks i).iss una)
        (quiet
          (quiet
            (quiet
              (quiet (set_after i established s)
                (modify-Same (tcp_set_state st' i established) i (update_window seg) (λ tsk. refl)))
              (tcp_send_ack-Same _ i (some seg)))
            (emit-Same _ _))
          (emit-Same _ _))
        (quiet (set_after i syn_recv s) (tcp_send_synack-Same _ i seg)))
  where
    by_answer :
        {whole half : Tcp} (b : Bool)
        → Goes (with_state st i established) whole
        → Goes (with_state st i syn_recv) half
        → Goes (with_state st i (if b then established else syn_recv)) (if b then whole else half)
    by_answer true p q = p
    by_answer false p q = q

tcp_synsent-Goes :
    (st : Tcp) (i : ℕ) (seg : Segment)
    → state_of st i ≡ syn_sent
    → Goes (with_state st i (after_syn_sent (st.socks i) seg)) (tcp_synsent st i seg)
unfolding tcp_synsent
tcp_synsent-Goes st i seg e =
    by_checks _ (signal_connect (tcp_set_state st i closed) i) (is_bad_ack (st.socks i) seg)
      (seg.tcphdr.rst) (seg.tcphdr.ack) (seg.tcphdr.syn)
      (quiet (stay st i syn_sent e (tcp_send_reset-Same st (some i) seg)) (emit-Same _ _))
      (quiet
        (quiet (set_after i closed Same-refl) (signal_connect-Same (tcp_set_state st i closed) i))
        (emit-Same _ _))
      (stay st i syn_sent e (emit-Same _ _)) (synsent_syn-Goes st i seg)
  where
    by_checks :
        (t : TcpState) {bad : Tcp} (st' : Tcp) {opened : Tcp} (b rst ack syn : Bool)
        → Goes (with_state st i syn_sent) bad
        → Goes (with_state st i closed) (discard st')
        → Goes (with_state st i syn_sent) (discard st)
        → Goes (with_state st i t) opened
        → Goes
            (with_state st i (
              if b
              then syn_sent
              else if rst
              then if ack then closed else syn_sent
              else if syn
              then t
              else syn_sent))
            (if b
              then bad
              else if rst
              then discard (if ack then st' else st)
              else if syn
              then opened
              else discard st)
    by_checks t st' true rst ack syn p q r o = p
    by_checks t st' false true true syn p q r o = q
    by_checks t st' false true false syn p q r o = r
    by_checks t st' false false ack true p q r o = o
    by_checks t st' false false ack false p q r o = r

tcp_closed-Same : (st : Tcp) (tsk : Option ℕ) (seg : Segment) → Same st (tcp_closed st tsk seg)
unfolding tcp_closed
tcp_closed-Same st none seg = Same-trans (tcp_send_reset-Same st none seg) (emit-Same _ _)
tcp_closed-Same st (some i) seg = emit-Same st _

process_by-Goes :
    (st : Tcp) (i : ℕ) (seg : Segment) (s : TcpState)
    → state_of st i ≡ s
    → state_of st st.next_sk ≡ closed
    → MayGo (next_by st i seg s) (process_by st i seg s)
unfolding process_by
process_by-Goes st i seg closed e f = record { goes = (tcp_closed-Same st (some i) seg).same }
process_by-Goes st i seg listen e f = tcp_listen-Goes st i seg f
process_by-Goes st i seg syn_sent e f = tcp_synsent-Goes st i seg e
process_by-Goes st i seg syn_recv e f = process_open-Goes st i seg syn_recv e
process_by-Goes st i seg established e f = process_open-Goes st i seg established e
process_by-Goes st i seg close_wait e f = process_open-Goes st i seg close_wait e
process_by-Goes st i seg last_ack e f = process_open-Goes st i seg last_ack e
process_by-Goes st i seg fin_wait1 e f = process_open-Goes st i seg fin_wait1 e
process_by-Goes st i seg fin_wait2 e f = process_open-Goes st i seg fin_wait2 e
process_by-Goes st i seg closing e f = process_open-Goes st i seg closing e
process_by-Goes st i seg time_wait e f = process_open-Goes st i seg time_wait e

-- Whatever segment arrives, for a socket or for none: when tcp_process returns, every socket is in
-- exactly the state that the diagram gives. The socket of an acceptable segment is closed by RST and by
-- SYN, goes on by an ACK that it accepts (from SYN-RECV only while its parent can queue it) and then
-- by a FIN; a listening socket stays and begins one child; every other socket stays where it is. The
-- number of the next socket has not been used, so its state counts as closed.
pub tcp_process-Goes :
    (st : Tcp) (sk : Option ℕ) (seg : Segment)
    → state_of st st.next_sk ≡ closed
    → MayGo (next_state st sk seg) (tcp_process st sk seg)
unfolding tcp_process
tcp_process-Goes st none seg f = record { goes = (tcp_closed-Same st none seg).same }
tcp_process-Goes st (some i) seg f = process_by-Goes st i seg (st.socks i).state refl f
