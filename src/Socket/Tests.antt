-- ===== src/Socket/Tests.antt =====
-- The calls of socket/socket.c at small examples.
use tapip.Base.{ℕ, ◌≡◌, ◌≢◌, refl, [], ◌∷◌, some, false, true, replicate, htons, arith}
use tapip.Base.Ints.{pos, lebℤ}
use tapip.Net.{Netdev}
use tapip.Sock
use tapip.Inet.{SockAddr, Devices, local_address, inet_socket}
use tapip.Inet.Protocols.{udp_ops}
use tapip.Socket.{Socket, get_socket, socket_new, socket_bind, socket_close}
use tapip.Socket.Held.{
  Shared, start, later, enters, closes, leaves, run_close, run_leave, IsHeld, Releases,
  Reach-Releases,
}
use tapip.Socket.Life.{udp_find_sock-socket_bind, IsReleased, socket_close-IsReleased}
use tapip.Wait.{wait_init}
use tapip.Udp.{Udp, new_udp, udp_alloc_sock, udp_hash}
use tapip.Udp.Port.{port_used, chain_has_port, take_port, udp_find_sock, udp_update_best}

abbrev nic : Netdev
nic = record {
  id = 1;
  net_mtu = 1500;
  net_ipaddr = 0x0100000a;
  net_mask = 0xffffff;
  net_hwaddr = replicate 6 1;
}

abbrev devices : Devices
devices = record { loop = nic; net_devices = nic ∷ [] }

abbrev empty : Udp
empty = record {
  socks = λ j. new_udp;
  next_sk = 0;
  head = λ k. [];
  slot_used = λ k. pos 0;
  best_slot = 0;
  best_update = pos 10;
  udp_id = 0;
  routes = [];
  out = [];
}

-- what _socket makes
abbrev one : Udp
one = (inet_socket (udp_ops (0, 0)) empty 0).1

abbrev sock : Socket
sock = record {
  family = 1;
  type = 2;
  sleep = record { notified = false; dead = false; sleep = false };
  has_ops = true;
  sk = some 0;
  refcnt = 1;
  freed = 0;
}

opened : socket_new (udp_ops (0, 0)) empty 1 0 ≡ (some sock, one)
unfolding socket_new inet_socket udp_alloc_sock wait_init
opened = refl

abbrev addr : SockAddr
addr = record { src_addr = 0x0100000a; dst_addr = 0; src_port = 0x3500; dst_port = 0 }

udp_find_sock-socket_bind_example :
    (st' : Udp) × (socket_bind (udp_ops (0, 0)) devices sock one addr ≡ some (true, sock, st'))
    × (udp_find_sock st' 0x3500 ≡ some 0)
    × ((other : ℕ) → other ≢ 0x3500 → udp_find_sock st' other ≡ udp_find_sock one other)
unfolding inet_socket udp_alloc_sock port_used chain_has_port local_address Sock.get_sock
udp_find_sock-socket_bind_example =
    udp_find_sock-socket_bind (0, 0) devices sock one 0 addr (omega arith) refl refl refl refl
      (omega arith) refl (λ k. tt)

abbrev bound : Udp
bound = take_port one 0 0x3500

socket_close-IsReleased_example : IsReleased 0 bound (socket_close (udp_ops (0, 0)) sock bound).1
unfolding inet_socket udp_alloc_sock take_port udp_hash udp_update_best Sock.get_sock htons lebℤ
socket_close-IsReleased_example =
    socket_close-IsReleased (0, 0) sock bound 0 refl refl refl refl refl

abbrev shared : Shared Udp
shared = record { sock = sock; st = one; inside = 0; open_ = true }

-- a call begins, another thread closes the socket, and the call ends
abbrev called : Shared Udp
called = record shared { sock = get_socket sock; inside = 1 }

abbrev closed : Shared Udp
closed = run_close (udp_ops (0, 0)) called

Reach-Releases_example :
    IsHeld (run_leave (udp_ops (0, 0)) closed 0)
    × Releases (udp_ops (0, 0)) closed (run_leave (udp_ops (0, 0)) closed 0)
Reach-Releases_example =
    Reach-Releases (udp_ops (0, 0)) shared closed (run_leave (udp_ops (0, 0)) closed 0) refl refl
      refl refl refl (later (later start (enters refl)) (closes refl)) (leaves 0 refl)
