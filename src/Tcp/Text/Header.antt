-- ===== src/Tcp/Text/Header.antt =====
-- The segment that tcp_recv_text returns has the header of the one given.
use tapip.Base.{
  ℕ, ◌-◌, ◌≡◌, refl, ◌∙◌, add32, sub32, List, [], ◌∷◌, Option, none, some, ◌==◌, ltb, leb, if-cases,
  ◌&&◌, Option-cases, inl, inr,
}
use mathlib.Core.Path.{subst}
use tapip.Tcp.{Segment, ReassHead, TcpSock}
use tapip.Tcp.Text.{
  adjacent_head, reass_at, reass_place, drop_covered, insert_reass, tcp_segment_reass, recv_from,
  recv_next, recv_later, recv_text, is_empty, tcp_write_buf,
}

-- the segment that is returned has the header of the one given
abbrev pub HdrKeeps : Segment → Option (TcpSock × Segment) → Type 0
HdrKeeps seg none = Unit {0}
HdrKeeps seg (some (tsk, seg')) = seg'.tcphdr ≡ seg.tcphdr

recv_next-HdrKeeps : (tsk : TcpSock) (seg : Segment) → HdrKeeps seg (recv_next tsk seg)
unfolding recv_next
recv_next-HdrKeeps tsk seg = elim (Option-cases (tcp_write_buf tsk seg.text seg.dlen)) [
  | inl e ↦ rw (e, recv_next) tt
  | inr (r, e) ↦ rw (e, recv_next) refl
]

-- what adjacent_head leaves of a segment has its header
abbrev HeadKeeps : Segment → Option Segment → Type 0
HeadKeeps seg none = Unit {0}
HeadKeeps seg (some seg') = seg'.tcphdr ≡ seg.tcphdr

adjacent_head-HeadKeeps : (seg : Segment) (nseq : ℕ) → HeadKeeps seg (adjacent_head seg nseq)
unfolding adjacent_head
adjacent_head-HeadKeeps seg nseq =
    if-cases (HeadKeeps seg) (ltb seg.seg_seq nseq)
      (λ b. if-cases (HeadKeeps seg) (leb seg.dlen (nseq - seg.seg_seq)) (λ c. tt) (λ c. refl))
      (λ b. refl)

reass_place-HeadKeeps :
    (seg : Segment) (prev_end : ℕ) (trhs : List ReassHead)
    → HeadKeeps seg (reass_place seg prev_end trhs).0
unfolding reass_place
reass_place-HeadKeeps seg prev_end [] = refl
reass_place-HeadKeeps seg prev_end (trh ∷ trhs) =
    if-cases (λ (r : Option Segment × List ReassHead × List ReassHead). HeadKeeps seg r.0)
      (ltb seg.seg_seq trh.trh_seq) (λ b. adjacent_head-HeadKeeps seg prev_end)
      (λ b. reass_place-HeadKeeps seg (add32 trh.trh_seq trh.trh_len) trhs)

drop_covered-HeadKeeps :
    (seg : Segment) (trhs : List ReassHead) → HeadKeeps seg (drop_covered seg trhs).0
unfolding drop_covered
drop_covered-HeadKeeps seg [] = refl
drop_covered-HeadKeeps seg (trh ∷ trhs) =
    let P : Option Segment × List ReassHead → Type 0 = λ r. HeadKeeps seg r.0 in
    let seg_end = add32 seg.seg_seq seg.dlen in
    if-cases P (ltb seg_end (add32 trh.trh_seq trh.trh_len))
      (λ b.
        if-cases P (ltb trh.trh_seq seg_end)
          (λ c. if-cases P (sub32 trh.trh_seq seg.seg_seq == 0) (λ d. tt) (λ d. refl)) (λ c. refl))
      (λ b. drop_covered-HeadKeeps seg trhs)

-- the segment that the second loop leaves, or what the code returns after its goto
cut-HdrKeeps :
    (seg : Segment) (cut : Option Segment)
    → HeadKeeps seg cut
    → let left : Segment = elim cut [ none ↦ record seg { dlen = 0 } | some seg'' ↦ seg'' ] in
      left.tcphdr ≡ seg.tcphdr
cut-HdrKeeps seg none k = refl
cut-HdrKeeps seg (some seg'') k = k

reass_at-HdrKeeps :
    (tsk : TcpSock) (seg : Segment) (place : Option Segment) (before behind : List ReassHead)
    → HeadKeeps seg place
    → HdrKeeps seg (reass_at tsk seg place before behind)
unfolding reass_at
reass_at-HdrKeeps tsk seg none before behind k = refl
reass_at-HdrKeeps tsk seg (some seg') before behind k =
    let c = drop_covered seg' behind in
    elim (Option-cases (insert_reass tsk before c.0 c.1)) [
      | inl e ↦ rw (e, reass_at) tt
      | inr (tsk', e) ↦
          rw (e, reass_at) (cut-HdrKeeps seg' c.0 (drop_covered-HeadKeeps seg' behind) ∙ k)
    ]

recv_later-HdrKeeps : (tsk : TcpSock) (seg : Segment) → HdrKeeps seg (recv_later tsk seg)
unfolding recv_later tcp_segment_reass
recv_later-HdrKeeps tsk seg =
    let from = add32 tsk.snd_wnd tsk.snd_up in
    let r = reass_place seg from tsk.rcv_reass in
    elim (Option-cases (reass_at tsk seg r.0 r.1 r.2)) [
      | inl e ↦ rw (e, recv_later) tt
      | inr ((tsk', seg'), e) ↦
          rw (e, recv_later)
            (subst (HdrKeeps seg) e (
              reass_at-HdrKeeps tsk seg r.0 r.1 r.2 (reass_place-HeadKeeps seg from tsk.rcv_reass)))
    ]

recv_from-HdrKeeps :
    (tsk : TcpSock) (seg : Segment) (o : Option Segment)
    → HeadKeeps seg o
    → HdrKeeps seg (recv_from tsk seg o)
unfolding recv_from
recv_from-HdrKeeps tsk seg none k = refl
recv_from-HdrKeeps tsk seg (some seg') k =
    if-cases (HdrKeeps seg) (tsk.rcv_nxt == seg'.seg_seq && is_empty tsk.rcv_reass)
      (λ b. same_hdr (recv_next tsk seg') (recv_next-HdrKeeps tsk seg'))
      (λ b. same_hdr (recv_later tsk seg') (recv_later-HdrKeeps tsk seg'))
  where
    same_hdr : (r : Option (TcpSock × Segment)) → HdrKeeps seg' r → HdrKeeps seg r
    same_hdr none h = tt
    same_hdr (some (t, s)) h = h ∙ k

pub recv_text-HdrKeeps : (tsk : TcpSock) (seg : Segment) → HdrKeeps seg (recv_text tsk seg)
unfolding recv_text
recv_text-HdrKeeps tsk seg =
    if-cases (HdrKeeps seg) (tsk.rcv_wnd == 0) (λ z. refl)
      (λ z.
        recv_from-HdrKeeps tsk seg (adjacent_head seg tsk.rcv_nxt)
          (adjacent_head-HeadKeeps seg tsk.rcv_nxt))
