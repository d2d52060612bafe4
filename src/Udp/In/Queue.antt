-- ===== src/Udp/In/Queue.antt =====
-- udp_recv: what a datagram does to the socket that it is for.
use tapip.Base.{ℕ, ◌+◌, ◌<◌, ◌≡◌, sym, ap, ◌∙◌, [], ◌∷◌, ◌++◌, some, Bool, true, false, arith}
use tapip.Net.{Pkbuf}
use mathlib.Core.Path.{subst}
use tapip.Sock
use tapip.Sock.{Sock}
use tapip.Udp.{Udp}
use tapip.Udp.Port.{udp_find_sock}
use tapip.Udp.In.{recv_queued, recv_sock, udp_recv}

recv_sock-queue :
    (st : Udp) (has_cb : ℕ → Bool) (pkb : Pkbuf) (i : ℕ)
    → has_cb i ≡ false
    → (st.socks i).recv_wait ≡ true
    → 0 < (st.socks i).refcnt
    → (((recv_sock st has_cb pkb (some i)).socks i).recv_queue
        ≡ (st.socks i).recv_queue ++ (pkb ∷ []))
      × (((recv_sock st has_cb pkb (some i)).socks i).refcnt ≡ (st.socks i).refcnt)
unfolding recv_sock recv_queued Sock.get_sock Sock.free_sock
recv_sock-queue st has_cb pkb i c w r = (ground (arith, c, w), ground (arith, c, w, r))

recv_sock-cb :
    (st : Udp) (has_cb : ℕ → Bool) (pkb : Pkbuf) (i : ℕ)
    → has_cb i ≡ true
    → ((recv_sock st has_cb pkb (some i)).socks i).refcnt ≡ (st.socks i).refcnt + 1
unfolding recv_sock Sock.get_sock
recv_sock-cb st has_cb pkb i c = ground (arith, c)

-- A datagram for a port that leads to a socket without a callback stands at the end of that socket's
-- receive queue, and the reference that the lookup took is given back, if the socket has a wait
-- structure and is referenced at all.
pub udp_recv-queue :
    (st : Udp) (has_cb : ℕ → Bool) (pkb : Pkbuf) (dst i : ℕ)
    → udp_find_sock st dst ≡ some i
    → has_cb i ≡ false
    → (st.socks i).recv_wait ≡ true
    → 0 < (st.socks i).refcnt
    → (((udp_recv st has_cb pkb dst).socks i).recv_queue ≡ (st.socks i).recv_queue ++ (pkb ∷ []))
      × (((udp_recv st has_cb pkb dst).socks i).refcnt ≡ (st.socks i).refcnt)
unfolding udp_recv
udp_recv-queue st has_cb pkb dst i e c w r =
    subst
      (λ o.
        (((recv_sock st has_cb pkb o).socks i).recv_queue ≡ (st.socks i).recv_queue ++ (pkb ∷ []))
        × (((recv_sock st has_cb pkb o).socks i).refcnt ≡ (st.socks i).refcnt))
      (sym e) (recv_sock-queue st has_cb pkb i c w r)

-- A datagram for a port that leads to a socket with a callback leaves one more reference behind.
udp_recv-refcnt :
    (st : Udp) (has_cb : ℕ → Bool) (pkb : Pkbuf) (dst i : ℕ)
    → udp_find_sock st dst ≡ some i
    → has_cb i ≡ true
    → ((udp_recv st has_cb pkb dst).socks i).refcnt ≡ (st.socks i).refcnt + 1
unfolding udp_recv
udp_recv-refcnt st has_cb pkb dst i e c =
    ap (λ o. ((recv_sock st has_cb pkb o).socks i).refcnt) e ∙ recv_sock-cb st has_cb pkb i c
