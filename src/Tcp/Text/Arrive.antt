-- ===== src/Tcp/Text/Arrive.antt =====
-- tcp_recv_text, against the stream of the sender.
use tapip.Base.{
  ℕ, ◌≤◌, ◌≡◌, inr, refl, sym, ◌∙◌, List, [], ◌∷◌, ◌++◌, Option, none, some, Bool, true, false,
  ◌==◌, ltb, if◌then◌else◌, if-cases, ◌&&◌, min, add32, arith,
}
use mathlib.Core.Path.{subst}
use tapip.Tcp.{Segment, ReassHead, TcpSock}
use tapip.Tcp.Text.{
  adjacent_head, reass_place, drop_covered, insert_reass, reass_at, tcp_segment_reass, recv_next,
  recv_from, recv_later, recv_text, pushed, is_empty,
}
use tapip.Tcp.Text.Window.{tcp_write_buf-HasWritten}
use tapip.Tcp.Text.Stream.{
  IsText, IsSegment, AreApart-append, AreBefore, HasPlace, IsRest, Rest, adjacent_head-Rest,
}
use tapip.Tcp.Text.Place.{IsFound, reass_place-Found, IsCut, drop_covered-IsCut}
use tapip.Tcp.Text.Receive.{
  IsReceiver, HasReceived, kept-HasReceived, written-HasReceived, write_reass-Received,
}

module _ (stream : ℕ → ℕ) where
  -- The flags do not matter.
  flagged :
      (p k d : Bool) {tsk tsk' : TcpSock}
      → HasReceived stream tsk tsk'
      → HasReceived stream tsk (record tsk' { f_push = p; f_acknow = k; f_ackdelay = d })
  flagged p k d r = record {
    receiver = record {
      buffered = record {
        valid = r.receiver.buffered.valid;
        window = r.receiver.buffered.window;
        bounded = r.receiver.buffered.bounded;
        counted = r.receiver.buffered.counted;
      };
      apart = r.receiver.apart;
    };
    onward = r.onward;
    delivered = r.delivered;
    edge = r.edge;
  }

  pushed-HasReceived :
      (b : Bool) {tsk tsk' : TcpSock}
      → HasReceived stream tsk tsk'
      → HasReceived stream tsk (pushed tsk' b)
  pushed-HasReceived true {tsk} {tsk'} r = flagged true tsk'.f_acknow tsk'.f_ackdelay r
  pushed-HasReceived false r = r

  -- What the code that receives text comes to: it returns.
  abbrev pub TextReceived : TcpSock → Option (TcpSock × Segment) → Type 0
  TextReceived tsk r =
      (tsk' : TcpSock) × (seg' : Segment) × (r ≡ some (tsk', seg')) × HasReceived stream tsk tsk'

  abbrev pub SockReceived : TcpSock → Option TcpSock → Type 0
  SockReceived tsk r = (tsk' : TcpSock) × (r ≡ some tsk') × HasReceived stream tsk tsk'

  module _ (tsk : TcpSock) (v : IsReceiver stream tsk) where
    insert_reass-Received :
        (before : List ReassHead) (cut : Option Segment) (behind : List ReassHead) (at_ : ℕ)
        → AreBefore stream tsk.rcv_nxt before at_
        → IsCut stream at_ (cut, behind)
        → SockReceived tsk (insert_reass tsk before cut behind)
    unfolding insert_reass
    insert_reass-Received before none behind at_ b c = (
      record tsk { rcv_reass = before ++ behind },
      refl,
      kept-HasReceived stream tsk (before ++ behind) v.buffered
          (AreApart-append stream tsk.rcv_nxt before at_ behind b c),
    )
    insert_reass-Received before (some seg) behind at_ b c =
        let ctrh : ReassHead = record {
          trh_seq = seg.seg_seq;
          trh_len = seg.dlen;
          trh_data = seg.text;
        } in
        let (n, tsk', returns, r) =
          write_reass-Received stream (before ++ (ctrh ∷ behind)) tsk v.buffered (
            AreApart-append stream tsk.rcv_nxt before at_ (ctrh ∷ behind) b
              (omega (arith, c.1), c.0, c.2)) in
        rw (returns, insert_reass)
          (
            pushed tsk' (ltb 0 n && seg.tcphdr.psh),
            refl,
            pushed-HasReceived (ltb 0 n && seg.tcphdr.psh) r,
          )

    pub place-Received :
        (seg : Segment) (place : Option Segment) (before behind : List ReassHead)
        → IsFound stream tsk.rcv_nxt place before behind
        → TextReceived tsk (reass_at tsk seg place before behind)
    unfolding reass_at
    place-Received seg none before behind f =
        (tsk, seg, refl, kept-HasReceived stream tsk tsk.rcv_reass v.buffered v.apart)
    place-Received seg (some seg') before behind f =
        let c = drop_covered seg' behind in
        let (tsk', returns, r) =
          insert_reass-Received before c.0 c.1 seg'.seg_seq f.1
            (drop_covered-IsCut stream seg' behind f.0 f.2) in
        rw (returns, reass_at)
          (tsk', elim c.0 [ none ↦ record seg' { dlen = 0 } | some seg'' ↦ seg'' ], refl, r)

    tcp_segment_reass-Received :
        (seg : Segment)
        → IsSegment stream seg
        → tsk.rcv_nxt ≤ seg.seg_seq
        → add32 tsk.snd_wnd tsk.snd_up ≤ tsk.rcv_nxt
        → HasPlace stream tsk.rcv_nxt seg.seg_seq tsk.rcv_reass
        → TextReceived tsk (tcp_segment_reass tsk seg)
    unfolding tcp_segment_reass
    tcp_segment_reass-Received seg t h g p =
        let r = reass_place seg (add32 tsk.snd_wnd tsk.snd_up) tsk.rcv_reass in
        place-Received seg r.0 r.1 r.2 (
          reass_place-Found stream seg (add32 tsk.snd_wnd tsk.snd_up) tsk.rcv_nxt tsk.rcv_reass t
            v.apart (inr (g, h)) p)

    pub recv_later-Received :
        (seg : Segment)
        → TextReceived tsk (tcp_segment_reass tsk seg)
        → TextReceived tsk (recv_later tsk seg)
    unfolding recv_later
    recv_later-Received seg (tsk', seg', returns, r) =
        rw (returns, recv_later)
          (record tsk' { f_acknow = true }, seg', refl, flagged tsk'.f_push true tsk'.f_ackdelay r)

    pub recv_next-Received :
        (seg : Segment)
        → IsSegment stream seg
        → tsk.rcv_nxt ≡ seg.seg_seq
        → tsk.rcv_reass ≡ []
        → TextReceived tsk (recv_next tsk seg)
    unfolding recv_next
    recv_next-Received seg t e none_waits =
        let n : ℕ = min tsk.rcv_wnd seg.dlen in
        let t' = subst (λ i. IsText stream i seg.dlen seg.text) (sym e) t in
        let (tsk', returns, w) =
          tcp_write_buf-HasWritten tsk seg.text seg.dlen v.buffered t.enough in
        let b : Bool = ltb 0 n && seg.tcphdr.psh in
        let f : TcpSock = pushed tsk' b in
        rw (returns, recv_next)
          (
            record f { f_ackdelay = true },
            seg,
            refl,
            flagged f.f_push f.f_acknow true (
                pushed-HasReceived b (
                  subst (λ l. HasReceived stream tsk (record tsk' { rcv_reass = l }))
                    (sym (w.same_reass ∙ none_waits))
                    (written-HasReceived stream tsk tsk' n seg.dlen seg.text [] t' (omega arith)
                      (omega arith) w tt))),
          )

  pub is_empty-nil : (trhs : List ReassHead) → is_empty trhs ≡ true → trhs ≡ []
  is_empty-nil [] h = refl
  is_empty-nil (trh ∷ trhs) h = ground arith

  -- the number that the new part of a segment begins with
  abbrev pub new_from : ℕ → Segment → ℕ
  new_from nxt seg = if ltb seg.seg_seq nxt then nxt else seg.seg_seq

  new_from_lem :
      (nxt : ℕ) (seg seg' : Segment) → IsRest stream seg nxt seg' → new_from nxt seg ≡ seg'.seg_seq
  new_from_lem nxt seg seg' r = ground (arith, r.above, r.onward, r.least)

  recv_from-Received :
      (tsk : TcpSock) (seg : Segment) (o : Option Segment)
      → IsReceiver stream tsk
      → add32 tsk.snd_wnd tsk.snd_up ≤ tsk.rcv_nxt
      → Rest stream seg tsk.rcv_nxt o
      → HasPlace stream tsk.rcv_nxt (new_from tsk.rcv_nxt seg) tsk.rcv_reass
      → TextReceived tsk (recv_from tsk seg o)
  unfolding recv_from
  recv_from-Received tsk seg none v g r p =
      (tsk, seg, refl, kept-HasReceived stream tsk tsk.rcv_reass v.buffered v.apart)
  recv_from-Received tsk seg (some seg') v g r p =
      if-cases (TextReceived tsk) (tsk.rcv_nxt == seg'.seg_seq && is_empty tsk.rcv_reass)
        (λ b.
          recv_next-Received tsk v seg' r.segment (ground arith)
            (is_empty-nil tsk.rcv_reass (ground arith)))
        (λ b. recv_later-Received tsk v seg' (
          tcp_segment_reass-Received tsk v seg' r.segment r.above g (
            subst (λ i. HasPlace stream tsk.rcv_nxt i tsk.rcv_reass)
              (new_from_lem tsk.rcv_nxt seg seg' r) p)))

  -- Whatever part of the sender's stream a segment brings, tcp_recv_text returns; what it has put
  -- into the receive buffer is the stream from the old value of rcv_nxt up to the new one, and the
  -- right edge of the window stays where it is. The segment's place is in front of an entry that
  -- waits, or behind them all and not inside the last one, the send window with the urgent pointer
  -- is not above rcv_nxt, and sequence numbers do not wrap around.
  pub recv_text-Received :
      (tsk : TcpSock) (seg : Segment)
      → IsReceiver stream tsk
      → IsSegment stream seg
      → add32 tsk.snd_wnd tsk.snd_up ≤ tsk.rcv_nxt
      → HasPlace stream tsk.rcv_nxt (new_from tsk.rcv_nxt seg) tsk.rcv_reass
      → TextReceived tsk (recv_text tsk seg)
  unfolding recv_text
  recv_text-Received tsk seg v t g p =
      if-cases (TextReceived tsk) (tsk.rcv_wnd == 0)
        (λ z. (tsk, seg, refl, kept-HasReceived stream tsk tsk.rcv_reass v.buffered v.apart))
        (λ z.
          recv_from-Received tsk seg (adjacent_head seg tsk.rcv_nxt) v g
            (adjacent_head-Rest stream seg tsk.rcv_nxt t) p)
