-- ===== src/Udp.antt =====
-- udp/udp_sock.c and udp/udp.c: the table of ports, and datagrams in and out.
-- A pointer to a socket is its number; the mutex of the table is not modelled.
pub mod Port
pub mod In
pub mod Send
mod Tests
use tapip.Base.{
  ℕ, ◌+◌, ◌%◌, ◌||◌, none, some, Option, List, [], ◌∷◌, ◌++◌, Bool, true, false, ◌==◌,
  if◌then◌else◌, u16,
}
use tapip.Base.Ints.{ℤ, pos}
use tapip.Net.{Pkbuf}
use tapip.Route.{Table}
use tapip.Sock
use tapip.Sock.{Sock, unlink}

-- What UDP does outside its own state, in order: a call of ip_send_out, a packet freed, a call of
-- icmp_send for an unreachable port, a socket's callback, the condition of recv_wait signalled,
-- and the mark of a null pointer that the code follows.
pub data UdpEvent : Type 0 where
  output : Pkbuf → UdpEvent
  pkb_freed : Pkbuf → UdpEvent
  unreachable : Pkbuf → UdpEvent
  called_back : ℕ → Pkbuf → UdpEvent
  woken : ℕ → UdpEvent
  fault : UdpEvent

-- udp_table with its slots as two functions, the sockets, udp_id, and the routing table that
-- rt_output reads
pub record Udp : Type 0 where
  pub socks : ℕ → Sock
  pub next_sk : ℕ
  pub head : ℕ → List ℕ
  pub slot_used : ℕ → ℤ
  pub best_slot : ℕ
  pub best_update : ℤ
  pub udp_id : ℕ
  pub routes : Table
  pub out : List UdpEvent

abbrev pub udp_hash_size : ℕ
udp_hash_size = 128

abbrev pub udp_best_update : ℤ
udp_best_update = pos 10

abbrev pub modify : Udp → ℕ → (Sock → Sock) → Udp
modify st i f = record st { socks = λ j. if j == i then f (st.socks i) else st.socks j }

abbrev pub emit : Udp → UdpEvent → Udp
emit st e = record st { out = st.out ++ (e ∷ []) }

abbrev pub set_used : Udp → ℕ → ℤ → Udp
set_used st h n = record st { slot_used = λ k. if k == h then n else st.slot_used k }

unfoldable pub udp_init : Udp → Udp
udp_init st = record st {
  head = λ k. [];
  slot_used = λ k. pos 0;
  best_slot = 0;
  best_update = udp_best_update;
  udp_id = 0;
}

-- the socket of udp_alloc_sock, as xzalloc makes it
abbrev pub new_udp : Sock
new_udp = record {
  protocol = 0;
  sk_saddr = 0;
  sk_daddr = 0;
  sk_sport = 0;
  sk_dport = 0;
  sk_dst = none;
  recv_queue = [];
  recv_wait = false;
  hash = 0;
  hashed = false;
  refcnt = 0;
  released = false;
}

unfoldable pub udp_alloc_sock : Udp → ℕ → Option ℕ × Udp
udp_alloc_sock st protocol =
    let i = st.next_sk in
    let st' = record st { next_sk = i + 1; udp_id = u16 (st.udp_id + 1) } in
    if protocol == 0 || protocol == 17 then (some i, modify st' i (λ sk. new_udp)) else (none, st)

-- sock_add_hash on the chain of a slot
unfoldable pub udp_hash : Udp → ℕ → Udp
udp_hash st i =
    let h = (st.socks i).hash in
    let st' = modify st i (λ sk. record (Sock.get_sock sk) { hashed = true }) in
    record st' { head = λ k. if k == h then i ∷ st.head k else st.head k }

unfoldable pub sock_del_hash : Udp → ℕ → Udp
sock_del_hash st i =
    let h = (st.socks i).hash in
    let st' = modify st i (λ sk. Sock.free_sock (record sk { hashed = false })) in
    if (st.socks i).hashed
    then record st' { head = λ k. if k == h then unlink i (st.head k) else st.head k }
    else st
