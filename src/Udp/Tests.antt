-- ===== src/Udp/Tests.antt =====
-- UDP at small examples.
use tapip.Base.{ℕ, ◌≡◌, refl, [], ◌∷◌, ◌++◌, none, some, true, false, arith, htons, length}
use tapip.Base.Ints.{pos, incr, decr, lebℤ}
use tapip.Net.{Netdev, Rtentry, Pkbuf, pkt_none}
use tapip.Route.{rt_lookup, rt_output}
use tapip.Checksum.{checksum, udp_chksum}
use tapip.Sock
use tapip.Sock.{Sock, unlink}
use tapip.Udp.{Udp, udp_init, udp_hash, sock_del_hash}
use tapip.Udp.Port.{
  chain_has_port, port_used, best_loop, udp_get_best_port, udp_update_best, least_loop,
  udp_get_port_slow, better_loop, count_best, udp_get_port, take_port, udp_set_sport,
  udp_unset_sport, udp_unhash, find_port, udp_find_sock,
}
use tapip.Udp.In.{recv_queued, recv_sock, udp_recv, udp_in}
use tapip.Udp.In.Queue.{udp_recv-queue}
use tapip.Udp.Send.{udp_fill_ip, datagram, udp_init_pkb, send_bound, udp_send_buf}

abbrev device : Netdev
device = record {
  id = 1;
  net_mtu = 1500;
  net_ipaddr = 0x0100000a;
  net_mask = 0xffffff;
  net_hwaddr = [];
}

abbrev route : Rtentry
route = record {
  rt_net = 0;
  rt_netmask = 0;
  rt_gw = 0;
  rt_flags = 0;
  rt_metric = 0;
  rt_dev = device;
}

abbrev plain_sock : Sock
plain_sock = record {
  protocol = 17;
  sk_saddr = 0;
  sk_daddr = 0;
  sk_sport = 0;
  sk_dport = 0;
  sk_dst = none;
  recv_queue = [];
  recv_wait = true;
  hash = 0;
  hashed = false;
  refcnt = 1;
  released = false;
}

abbrev empty : Udp
empty = record {
  socks = λ j. plain_sock;
  head = λ k. [];
  next_sk = 0;
  slot_used = λ k. pos 0;
  best_slot = 0;
  best_update = pos 10;
  udp_id = 0;
  routes = route ∷ [];
  out = [];
}

nobody : port_used empty (htons (htons 53)) ≡ false
unfolding port_used chain_has_port
nobody = refl

-- socket 0 bound to port 53
abbrev bound : Udp
bound = (udp_set_sport empty 0 (htons 53)).1

abbrev pkb_for : ℕ → Pkbuf
pkb_for port = record {
  pk_pro = 0x0800;
  pk_type = pkt_none;
  pk_len = 44;
  pk_indev = none;
  pk_rtdst = none;
  ip = record {
    ip_hlen = 5;
    ip_ver = 4;
    ip_tos = 0;
    ip_len = 30;
    ip_id = 0;
    ip_fragoff = 0;
    ip_ttl = 64;
    ip_pro = 17;
    ip_cksum = 0;
    ip_src = 0x0200000a;
    ip_dst = 0x0100000a;
    ip_opts = [];
    ip_data = 0x13 ∷ 0x88 ∷ 0 ∷ port ∷ 0 ∷ 10 ∷ 0 ∷ 0 ∷ 7 ∷ 8 ∷ [];
  };
}

found : udp_find_sock bound (htons 53) ≡ some 0
unfolding udp_set_sport port_used chain_has_port take_port udp_update_best udp_hash Sock.get_sock
    udp_find_sock find_port lebℤ htons
found = refl

udp_recv-queue_example :
    (((udp_recv bound (λ k. false) (pkb_for 53) (htons 53)).socks 0).recv_queue
      ≡ (bound.socks 0).recv_queue ++ (pkb_for 53 ∷ []))
    × (((udp_recv bound (λ k. false) (pkb_for 53) (htons 53)).socks 0).refcnt
        ≡ (bound.socks 0).refcnt)
unfolding udp_set_sport port_used chain_has_port take_port udp_update_best udp_hash Sock.get_sock
    lebℤ htons
udp_recv-queue_example =
    udp_recv-queue bound (λ k. false) (pkb_for 53) (htons 53) 0 found refl refl (omega arith)

-- a datagram in, an answer from a socket that the table chooses a port for, and the first one closed
abbrev run : Udp
run =
    let got = udp_in (udp_init empty) (λ k. false) (pkb_for 53) in
    let bound = (udp_set_sport got 0 (htons 53)).1 in
    let got' = udp_in bound (λ k. false) (pkb_for 53) in
    let answered = (udp_send_buf got' (0, 0) 1 (1 ∷ 2 ∷ []) 2 (some (0x0200000a, htons 5000))).1 in
    udp_unhash answered 0

run_ends :
    ((run.socks 1).sk_sport ≡ htons 0x8000)
    × (length (run.socks 0).recv_queue ≡ 1)
    × (udp_find_sock run (htons 53) ≡ none)
    × (length run.out ≡ 4)
unfolding udp_init udp_set_sport udp_in udp_recv recv_sock recv_queued udp_send_buf udp_unhash
    udp_hash sock_del_hash chain_has_port port_used best_loop udp_get_best_port udp_update_best
    least_loop udp_get_port_slow better_loop count_best udp_get_port take_port udp_unset_sport
    find_port udp_find_sock udp_fill_ip datagram udp_init_pkb send_bound Sock.get_sock
    Sock.free_sock unlink incr decr lebℤ htons udp_chksum checksum rt_lookup rt_output
run_ends = (refl, refl, refl, refl)
