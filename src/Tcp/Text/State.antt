-- ===== src/Tcp/Text/State.antt =====
-- Receiving text leaves the state of a socket alone.
use tapip.Base.{
  ℕ, ◌≡◌, refl, ◌∙◌, List, [], ◌∷◌, ◌++◌, Bool, true, false, ◌==◌, ltb, ◌&&◌, if-cases, Option,
  none, some, inl, inr, Option-cases, add32,
}
use mathlib.Core.Path.{subst}
use tapip.Cbuf.{write_cbuf}
use tapip.Tcp.{Segment, ReassHead, TcpSock}
use tapip.Tcp.Text.{
  buffer_of, tcp_write_buf, adjacent_head, reass_place, drop_covered, write_reass, pushed,
  insert_reass, reass_at, tcp_segment_reass, recv_next, recv_later, recv_from, recv_text, is_empty,
}

abbrev WriteKeeps : TcpSock → Option (ℕ × TcpSock) → Type 0
WriteKeeps tsk none = Unit
WriteKeeps tsk (some r) = r.1.state ≡ tsk.state

abbrev SockKeeps : TcpSock → Option TcpSock → Type 0
SockKeeps tsk none = Unit
SockKeeps tsk (some tsk') = tsk'.state ≡ tsk.state

abbrev pub TextKeeps : TcpSock → Option (TcpSock × Segment) → Type 0
TextKeeps tsk none = Unit
TextKeeps tsk (some r) = r.0.state ≡ tsk.state

pushed-state : (tsk : TcpSock) (b : Bool) → (pushed tsk b).state ≡ tsk.state
pushed-state tsk true = refl
pushed-state tsk false = refl

tcp_write_buf-Keeps :
    (tsk : TcpSock) (bytes : List ℕ) (len : ℕ) → WriteKeeps tsk (tcp_write_buf tsk bytes len)
unfolding tcp_write_buf
tcp_write_buf-Keeps tsk bytes len =
    elim (Option-cases (write_cbuf (some (buffer_of tsk)) bytes len)) [
      | inl e ↦ rw (e, tcp_write_buf) tt
      | inr ((rlen, buf), e) ↦
          rw (e, tcp_write_buf)
            (if-cases (λ (t : TcpSock). t.state ≡ tsk.state) (ltb 0 rlen) (λ b. refl) (λ b. refl))
    ]

write_reass-Keeps : (trhs : List ReassHead) (tsk : TcpSock) → WriteKeeps tsk (write_reass tsk trhs)
unfolding write_reass
write_reass-Keeps [] tsk = refl
write_reass-Keeps (trh ∷ trhs) tsk =
    if-cases (WriteKeeps tsk) (ltb tsk.rcv_nxt trh.trh_seq) (λ b. refl)
      (λ b.
        if-cases (WriteKeeps tsk) (ltb trh.trh_seq tsk.rcv_nxt) (λ c. tt)
          (λ c. elim (Option-cases (tcp_write_buf tsk trh.trh_data trh.trh_len)) [
            | inl e ↦ rw e tt
            | inr ((rlen, tsk'), e) ↦
                let k =
                  subst (WriteKeeps tsk) e (tcp_write_buf-Keeps tsk trh.trh_data trh.trh_len) in
                rw e (
                  if-cases (WriteKeeps tsk) (ltb 0 rlen)
                    (λ p. elim (Option-cases (write_reass tsk' trhs)) [
                      | inl e' ↦ rw e' tt
                      | inr ((len, tsk''), e') ↦
                          rw e' (subst (WriteKeeps tsk') e' (write_reass-Keeps trhs tsk') ∙ k)
                    ])
                    (λ p. k))
          ]))

insert_reass-Keeps :
    (tsk : TcpSock) (before : List ReassHead) (cut : Option Segment) (behind : List ReassHead)
    → SockKeeps tsk (insert_reass tsk before cut behind)
unfolding insert_reass
insert_reass-Keeps tsk before none behind = refl
insert_reass-Keeps tsk before (some seg) behind =
    let ctrh : ReassHead = record {
      trh_seq = seg.seg_seq;
      trh_len = seg.dlen;
      trh_data = seg.text;
    } in
    elim (Option-cases (write_reass tsk (before ++ (ctrh ∷ behind)))) [
      | inl e ↦ rw (e, insert_reass) tt
      | inr ((len, tsk'), e) ↦
          rw (e, insert_reass)
            (pushed-state tsk' (ltb 0 len && seg.tcphdr.psh)
              ∙ subst (WriteKeeps tsk) e (write_reass-Keeps (before ++ (ctrh ∷ behind)) tsk))
    ]

reass_at-Keeps :
    (tsk : TcpSock) (seg : Segment) (place : Option Segment) (before behind : List ReassHead)
    → TextKeeps tsk (reass_at tsk seg place before behind)
unfolding reass_at
reass_at-Keeps tsk seg none before behind = refl
reass_at-Keeps tsk seg (some seg') before behind =
    let c = drop_covered seg' behind in
    elim (Option-cases (insert_reass tsk before c.0 c.1)) [
      | inl e ↦ rw (e, reass_at) tt
      | inr (tsk', e) ↦
          rw (e, reass_at) (subst (SockKeeps tsk) e (insert_reass-Keeps tsk before c.0 c.1))
    ]

recv_later-Keeps : (tsk : TcpSock) (seg : Segment) → TextKeeps tsk (recv_later tsk seg)
unfolding recv_later tcp_segment_reass
recv_later-Keeps tsk seg =
    let r = reass_place seg (add32 tsk.snd_wnd tsk.snd_up) tsk.rcv_reass in
    elim (Option-cases (reass_at tsk seg r.0 r.1 r.2)) [
      | inl e ↦ rw (e, recv_later) tt
      | inr ((tsk', seg'), e) ↦
          rw (e, recv_later) (subst (TextKeeps tsk) e (reass_at-Keeps tsk seg r.0 r.1 r.2))
    ]

recv_next-Keeps : (tsk : TcpSock) (seg : Segment) → TextKeeps tsk (recv_next tsk seg)
unfolding recv_next
recv_next-Keeps tsk seg = elim (Option-cases (tcp_write_buf tsk seg.text seg.dlen)) [
  | inl e ↦ rw (e, recv_next) tt
  | inr ((rlen, tsk'), e) ↦
      rw (e, recv_next)
        (pushed-state tsk' (ltb 0 rlen && seg.tcphdr.psh)
          ∙ subst (WriteKeeps tsk) e (tcp_write_buf-Keeps tsk seg.text seg.dlen))
]

recv_from-Keeps :
    (tsk : TcpSock) (seg : Segment) (o : Option Segment) → TextKeeps tsk (recv_from tsk seg o)
unfolding recv_from
recv_from-Keeps tsk seg none = refl
recv_from-Keeps tsk seg (some seg') =
    if-cases (TextKeeps tsk) (tsk.rcv_nxt == seg'.seg_seq && is_empty tsk.rcv_reass)
      (λ b. recv_next-Keeps tsk seg') (λ b. recv_later-Keeps tsk seg')

pub recv_text-Keeps : (tsk : TcpSock) (seg : Segment) → TextKeeps tsk (recv_text tsk seg)
unfolding recv_text
recv_text-Keeps tsk seg =
    if-cases (TextKeeps tsk) (tsk.rcv_wnd == 0) (λ b. refl)
      (λ b. recv_from-Keeps tsk seg (adjacent_head seg tsk.rcv_nxt))
