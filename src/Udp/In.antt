-- ===== src/Udp/In.antt =====
-- udp/udp.c: datagrams that arrive.
pub mod Queue
use tapip.Base.{
  ℕ, ◌+◌, ◌-◌, List, [], ◌∷◌, ◌++◌, Option, none, some, Bool, true, false, ◌==◌, ltb, not, ◌&&◌,
  ◌||◌, if◌then◌else◌, min, drop, htons,
}
use tapip.Net.{Ip, Pkbuf, iphlen}
use tapip.Checksum.{word_at, udp_chksum}
use tapip.Sock
use tapip.Sock.{Sock}
use tapip.Udp.{Udp, UdpEvent, pkb_freed, unreachable, called_back, woken, fault, modify, emit}
use tapip.Udp.Port.{udp_find_sock}

abbrev pub udp_hrd_sz : ℕ
udp_hrd_sz = 8

-- the packet at the end of the receive queue
abbrev pub queue_pkb : Pkbuf → Sock → Sock
queue_pkb pkb sk = record sk { recv_queue = sk.recv_queue ++ (pkb ∷ []) }

abbrev pub is_empty : List Pkbuf → Bool
is_empty [] = true
is_empty (pkb ∷ pkbs) = false

-- the receive queue, and the broadcast when it was empty; recv_wait is followed without a test
unfoldable pub recv_queued : Udp → ℕ → Pkbuf → Udp
recv_queued st i pkb =
    let queued = modify st i (queue_pkb pkb) in
    if not (st.socks i).recv_wait
    then emit st fault
    else if is_empty (st.socks i).recv_queue
    then emit queued (woken i)
    else queued

-- udp_recv with the socket that udp_lookup_sock has found, whose reference it has taken. `has_cb`
-- says whether the socket has a callback; a callback keeps the reference.
unfoldable pub recv_sock : Udp → (ℕ → Bool) → Pkbuf → Option ℕ → Udp
recv_sock st has_cb pkb none = emit (emit st (unreachable pkb)) (pkb_freed pkb)
recv_sock st has_cb pkb (some i) =
    let st' = modify st i Sock.get_sock in
    if has_cb i
    then emit (emit st' (called_back i pkb)) (pkb_freed pkb)
    else modify (recv_queued st' i pkb) i Sock.free_sock

unfoldable pub udp_recv : Udp → (ℕ → Bool) → Pkbuf → ℕ → Udp
udp_recv st has_cb pkb dst = recv_sock st has_cb pkb (udp_find_sock st dst)

-- The packet's IP header is in host order, and its length field reaches past the header.
unfoldable pub udp_in : Udp → (ℕ → Bool) → Pkbuf → Udp
udp_in st has_cb pkb =
    let iphdr = pkb.ip in
    let bytes = iphdr.ip_data in
    let given = iphdr.ip_len - iphlen iphdr in
    let length = htons (word_at (drop 4 bytes)) in
    if (ltb given udp_hrd_sz || ltb given length)
      || (not (word_at (drop 6 bytes) == 0)
          && not (udp_chksum iphdr.ip_src iphdr.ip_dst (min given length) bytes == 0))
    then emit st (pkb_freed pkb)
    else udp_recv st has_cb pkb (word_at (drop 2 bytes))
