-- ===== src/Socket/Life.antt =====
-- The life of a UDP socket through the calls of socket/socket.c: bound to a port, and closed.
use tapip.Base.{
  ℕ, ◌≤◌, ◌≡◌, ◌≢◌, refl, sym, ap, ◌∙◌, ◌++◌, map, List, [], ◌∷◌, some, true, false, ◌==◌,
  if◌then◌else◌, htons, arith,
}
use mathlib.Core.List.{append_assoc, append-nil}
use tapip.Net.{Pkbuf}
use tapip.Sock
use tapip.Sock.{Sock, unlink}
use tapip.Inet.{SockAddr, SockOps, Devices, local_address, free_all, sock_close, inet_close}
use tapip.Inet.Found.{udp_find_sock-inet_bind}
use tapip.Inet.Protocols.{udp_ops}
use tapip.Socket.{
  Socket, get_socket, do_free_socket, free_socket, socket_close, finish, bind_by, socket_bind,
}
use tapip.Udp.{Udp, modify, emit, pkb_freed, sock_del_hash}
use tapip.Udp.Port.{port_used, udp_find_sock, udp_update_best, udp_unset_sport, udp_unhash}
use tapip.Udp.Port.Bind.{IsOff}

-- A call gives back the reference that it has taken.
finish-get_socket :
    {S Got R : Type 0} (o : SockOps S Got) (sock : Socket) (r : R) (st : S)
    → 1 ≤ sock.refcnt
    → finish o (get_socket sock) (some (r, st)) ≡ some (r, sock, st)
unfolding free_socket get_socket
finish-get_socket o sock r st h = ground arith

-- _bind of a UDP socket that has no port and is on no chain, to an address of this host and a port
-- other than 0 that nobody uses, returns 0 and holds the socket no longer; then datagrams for the
-- port lead to the socket, and those for every other port where they led before.
pub udp_find_sock-socket_bind :
    (unset : ℕ × ℕ) (d : Devices) (sock : Socket) (st : Udp) (i : ℕ) (a : SockAddr)
    → 1 ≤ sock.refcnt
    → sock.has_ops ≡ true
    → sock.sk ≡ some i
    → (st.socks i).sk_sport ≡ 0
    → local_address d a.src_addr ≡ true
    → a.src_port ≢ 0
    → port_used st (htons a.src_port) ≡ false
    → ((k : ℕ) → IsOff i (st.head k))
    → (st' : Udp) × (socket_bind (udp_ops unset) d sock st a ≡ some (true, sock, st'))
      × (udp_find_sock st' a.src_port ≡ some i)
      × ((other : ℕ) → other ≢ a.src_port → udp_find_sock st' other ≡ udp_find_sock st other)
unfolding socket_bind get_socket
udp_find_sock-socket_bind unset d sock st i a held ops sk unbound l p free off =
    let (st', e, found, others) = udp_find_sock-inet_bind unset d st i a unbound l p free off in
    let inner : bind_by (udp_ops unset) d (get_socket sock) st a ≡ some (true, st') =
      rw (ops, sk) e in
    (
      st',
      ap (finish (udp_ops unset) (get_socket sock)) inner
          ∙ finish-get_socket (udp_ops unset) sock true st' held,
      found,
      others,
    )

-- Freeing packets leaves the sockets and the chains, and frees each packet in its order.
free_all-kept :
    (st : Udp) (pkbs : List Pkbuf)
    → ((free_all (λ s pkb. emit s (pkb_freed pkb)) st pkbs).socks ≡ st.socks)
      × ((free_all (λ s pkb. emit s (pkb_freed pkb)) st pkbs).head ≡ st.head)
      × ((free_all (λ s pkb. emit s (pkb_freed pkb)) st pkbs).out ≡ st.out ++ map pkb_freed pkbs)
unfolding free_all
free_all-kept st [] = (refl, refl, sym (append-nil st.out))
free_all-kept st (pkb ∷ pkbs) =
    let (socks, chains, out) = free_all-kept (emit st (pkb_freed pkb)) pkbs in
    (socks, chains, out ∙ append_assoc st.out (pkb_freed pkb ∷ []) (map pkb_freed pkbs))

-- What is left of a UDP socket that has been closed.
pub record IsReleased (i : ℕ) (st st' : Udp) : Type 0 where
  pub freed : (st'.socks i).released ≡ true
  pub others : (j : ℕ) → j ≢ i → st'.socks j ≡ st.socks j
  pub off :
      (k : ℕ) → st'.head k ≡ (if k == (st.socks i).hash then unlink i (st.head k) else st.head k)
  pub drained : (st'.socks i).recv_queue ≡ []
  pub pkbs_freed : st'.out ≡ st.out ++ map pkb_freed (st.socks i).recv_queue

-- udp_unhash takes the socket off its chain and gives the chain's reference back.
udp_unhash_lem :
    (st : Udp) (i : ℕ)
    → (st.socks i).hashed ≡ true
    → ((udp_unhash st i).socks i ≡ Sock.free_sock (record (st.socks i) { hashed = false }))
      × ((j : ℕ) → j ≢ i → (udp_unhash st i).socks j ≡ st.socks j)
      × ((k : ℕ)
          → (udp_unhash st i).head k
            ≡ (if k == (st.socks i).hash then unlink i (st.head k) else st.head k))
      × ((udp_unhash st i).out ≡ st.out)
unfolding udp_unhash sock_del_hash udp_unset_sport udp_update_best
udp_unhash_lem st i h = (ground arith, (λ j n. ground arith), (λ k. ground arith), ground arith)

-- _close of a UDP socket that the user alone holds, and whose sock only the socket and its chain hold,
-- frees the sock and exactly the packets that wait there, in order, takes it off its chain, and leaves every other sock
-- and every other chain.
pub socket_close-IsReleased :
    (unset : ℕ × ℕ) (sock : Socket) (st : Udp) (i : ℕ)
    → sock.refcnt ≡ 1
    → sock.has_ops ≡ true
    → sock.sk ≡ some i
    → (st.socks i).hashed ≡ true
    → (st.socks i).refcnt ≡ 2
    → IsReleased i st (socket_close (udp_ops unset) sock st).1
unfolding socket_close free_socket do_free_socket inet_close sock_close Sock.free_sock
socket_close-IsReleased unset sock st i alone ops sk h two =
    let silent = modify st i (λ sk. record sk { recv_wait = false }) in
    let (own, others, chains, out) = udp_unhash_lem silent i (ground arith) in
    let kept =
      free_all-kept (modify (udp_unhash silent i) i (λ sk. record sk { recv_queue = [] }))
        ((udp_unhash silent i).socks i).recv_queue in
    rw (alone, ops, sk)
      (record {
        freed = ground (arith, own, kept.0);
        others = λ j n. ground (arith, others j n, kept.0);
        off = λ k. ground (arith, chains k, kept.1);
        pkbs_freed = ground (arith, out, own, kept.2);
        drained = ground (arith, own, kept.0);
      })
