-- ===== src/Tcp/Text.antt =====
-- tcp/tcp_text.c and tcp/tcp_reass.c: the text of segments on its way to the circular buffer.
-- A result `none` means that the code does not return: an assertion fails, or a loop does not end.
pub mod Window
pub mod Stream
pub mod Place
pub mod Receive
pub mod Arrive
pub mod InOrder
pub mod Header
pub mod Progress
pub mod State
use tapip.Base.{
  ℕ, zero, suc, ◌+◌, ◌-◌, ◌^◌, List, [], ◌∷◌, ◌++◌, Option, none, some, Bool, true, false, ◌==◌,
  ltb, leb, if◌then◌else◌, ◌&&◌, ◌||◌, min, drop, take, add32, sub32, htons, htonl,
}
use tapip.Net.{Rtentry, ip_hrd_sz}
use tapip.Cbuf.{Cbuf, alloc_cbuf, write_cbuf}
use tapip.Sock.{Sock}
use tapip.Tcp.{TcpHdr, Segment, ReassHead, TcpSock, Tcp, on_recv, woken, fault, modify, emit}
use tapip.Tcp.Hdr.{tcp_hrd_sz}
use tapip.Tcp.Out.{new_pkb, plain_hdr, tcp_send_out, tcp_send_ack}

unfoldable pub tcp_free_buf : TcpSock → TcpSock
tcp_free_buf tsk = record tsk { rcv_buf = none }

-- the packets behind the entries are freed with them
unfoldable pub tcp_free_reass_head : TcpSock → TcpSock
tcp_free_reass_head tsk = record tsk { rcv_reass = [] }

-- the buffer that the first text allocates
abbrev pub buffer_of : TcpSock → Cbuf
buffer_of tsk = elim (tsk.rcv_buf) [ none ↦ alloc_cbuf tsk.rcv_wnd | some c ↦ c ]

-- what tcp_write_buf stores when rlen bytes have been written
abbrev pub wrote : TcpSock → Option Cbuf → ℕ → TcpSock
wrote tsk buf rlen = record tsk {
  rcv_buf = buf;
  rcv_wnd = sub32 tsk.rcv_wnd rlen;
  rcv_nxt = add32 tsk.rcv_nxt rlen;
}

unfoldable pub tcp_write_buf : TcpSock → List ℕ → ℕ → Option (ℕ × TcpSock)
tcp_write_buf tsk bytes len = elim (write_cbuf (some (buffer_of tsk)) bytes len) [
  | none ↦ none
  | some (rlen, buf) ↦
      some (rlen, if ltb 0 rlen then wrote tsk buf rlen else record tsk { rcv_buf = buf })
]

-- ADJACENT_SEGMENT_HEAD; `none` is its goto.
unfoldable pub adjacent_head : Segment → ℕ → Option Segment
adjacent_head seg nseq =
    if ltb seg.seg_seq nseq
    then if leb seg.dlen (nseq - seg.seg_seq)
      then none
      else some (record seg {
        dlen = seg.dlen - (nseq - seg.seg_seq);
        text = drop (nseq - seg.seg_seq) seg.text;
        seg_seq = nseq;
      })
    else some seg

-- The first loop of tcp_segment_reass: the entries in front of the place of the segment, in their
-- order, and those behind it. `prev_end` is prev->seq + prev->len for the entry last passed.
unfoldable pub reass_place :
    Segment → ℕ → List ReassHead → Option Segment × List ReassHead × List ReassHead
reass_place seg prev_end [] = (some seg, [], [])
reass_place seg prev_end (trh ∷ trhs) =
    let (seg', before, behind) = reass_place seg (add32 trh.trh_seq trh.trh_len) trhs in
    if ltb seg.seg_seq trh.trh_seq
    then (adjacent_head seg prev_end, [], trh ∷ trhs)
    else (seg', trh ∷ before, behind)

-- The second loop: the entries that the segment covers are deleted, and the segment is cut where the
-- first entry that reaches further begins. `none` is its goto.
unfoldable pub drop_covered : Segment → List ReassHead → Option Segment × List ReassHead
drop_covered seg [] = (some seg, [])
drop_covered seg (trh ∷ trhs) =
    let rest = drop_covered seg trhs in
    let seg_end = add32 seg.seg_seq seg.dlen in
    if ltb seg_end (add32 trh.trh_seq trh.trh_len)
    then if ltb trh.trh_seq seg_end
      then if sub32 trh.trh_seq seg.seg_seq == 0
        then (none, trh ∷ trhs)
        else (some (record seg { dlen = sub32 trh.trh_seq seg.seg_seq }), trh ∷ trhs)
      else (some seg, trh ∷ trhs)
    else rest

-- The third loop: entries that have become adjacent go into the buffer. An entry is deleted as soon
-- as any of its bytes has been written. The number is that of the bytes written.
unfoldable pub write_reass : TcpSock → List ReassHead → Option (ℕ × TcpSock)
write_reass tsk [] = some (0, record tsk { rcv_reass = [] })
write_reass tsk (trh ∷ trhs) =
    let stopped : ℕ × TcpSock = (0, record tsk { rcv_reass = trh ∷ trhs }) in
    if ltb tsk.rcv_nxt trh.trh_seq
    then some stopped
    else if ltb trh.trh_seq tsk.rcv_nxt
    then none
    else elim (tcp_write_buf tsk trh.trh_data trh.trh_len) [
      | none ↦ none
      | some (rlen, tsk') ↦
          let rest = write_reass tsk' trhs in
          if ltb 0 rlen
          then elim rest [ none ↦ none | some (len, tsk'') ↦ some (rlen + len, tsk'') ]
          else some (0, record tsk' { rcv_reass = trh ∷ trhs })
    ]

abbrev pub pushed : TcpSock → Bool → TcpSock
pushed tsk b = if b then record tsk { f_push = true } else tsk

-- tcp_segment_reass with the segment as the first two loops leave it, or after their goto
unfoldable pub insert_reass :
    TcpSock → List ReassHead → Option Segment → List ReassHead → Option TcpSock
insert_reass tsk before none behind = some (record tsk { rcv_reass = before ++ behind })
insert_reass tsk before (some seg) behind =
    let ctrh : ReassHead = record {
      trh_seq = seg.seg_seq;
      trh_len = seg.dlen;
      trh_data = seg.text;
    } in
    elim (write_reass tsk (before ++ (ctrh ∷ behind))) [
      | none ↦ none
      | some (len, tsk') ↦ some (pushed tsk' (ltb 0 len && seg.tcphdr.psh))
    ]

-- the end of tcp_segment_reass, from the place that the first loop has found
unfoldable pub reass_at :
    TcpSock
    → Segment
    → Option Segment
    → List ReassHead
    → List ReassHead
    → Option (TcpSock × Segment)
reass_at tsk seg none before behind = some (tsk, seg)
reass_at tsk seg (some seg') before behind =
    let (cut, behind') = drop_covered seg' behind in
    elim (insert_reass tsk before cut behind') [
      | none ↦ none
      | some tsk' ↦ some (tsk', elim cut [ none ↦ record seg' { dlen = 0 } | some seg'' ↦ seg'' ])
    ]

-- In front of the first entry stands the head of the list, which lies in struct tcp_sock: what the
-- code reads there as prev->seq and prev->len are the fields snd_wnd and snd_up (with pointers of
-- 8 bytes). The segment is returned as the code leaves it.
unfoldable pub tcp_segment_reass : TcpSock → Segment → Option (TcpSock × Segment)
tcp_segment_reass tsk seg =
    let (place, before, behind) = reass_place seg (add32 tsk.snd_wnd tsk.snd_up) tsk.rcv_reass in
    reass_at tsk seg place before behind

-- the branch for text that is next in order
unfoldable pub recv_next : TcpSock → Segment → Option (TcpSock × Segment)
recv_next tsk seg = elim (tcp_write_buf tsk seg.text seg.dlen) [
  | none ↦ none
  | some (rlen, tsk') ↦
      some (record (pushed tsk' (ltb 0 rlen && seg.tcphdr.psh)) { f_ackdelay = true }, seg)
]

unfoldable pub recv_later : TcpSock → Segment → Option (TcpSock × Segment)
recv_later tsk seg = elim (tcp_segment_reass tsk seg) [
  | none ↦ none
  | some (tsk', seg') ↦ some (record tsk' { f_acknow = true }, seg')
]

abbrev pub is_empty {ℓ} : {A : Type ℓ} → List A → Bool
is_empty [] = true
is_empty (x ∷ xs) = false

-- tcp_recv_text behind ADJACENT_SEGMENT_HEAD
unfoldable pub recv_from : TcpSock → Segment → Option Segment → Option (TcpSock × Segment)
recv_from tsk seg none = some (tsk, seg)
recv_from tsk seg (some seg') =
    if tsk.rcv_nxt == seg'.seg_seq && is_empty tsk.rcv_reass
    then recv_next tsk seg'
    else recv_later tsk seg'

-- tcp_recv_text up to its label `out`
unfoldable pub recv_text : TcpSock → Segment → Option (TcpSock × Segment)
recv_text tsk seg =
    if tsk.rcv_wnd == 0 then some (tsk, seg) else recv_from tsk seg (adjacent_head seg tsk.rcv_nxt)

-- tcp_recv_notify
unfoldable pub tcp_recv_notify : Tcp → ℕ → Tcp
tcp_recv_notify st i = if (st.socks i).sk.recv_wait then emit st (woken on_recv i) else st

-- what tcp_recv_text has changed in the control block, and its label `out`
abbrev pub take_text : Tcp → ℕ → Option (TcpSock × Segment) → Option (Tcp × Segment)
take_text st i none = none
take_text st i (some (tsk, seg)) =
    let st' = modify st i (λ old. tsk) in
    some (if tsk.f_push then tcp_recv_notify st' i else st', seg)

unfoldable pub tcp_recv_text : Tcp → ℕ → Segment → Option (Tcp × Segment)
tcp_recv_text st i seg = take_text st i (recv_text (st.socks i) seg)
