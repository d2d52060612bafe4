-- ===== src/Inet/Tests.antt =====
-- The calls of socket/inet.c at small examples.
use tapip.Base.{◌≡◌, refl, [], ◌∷◌, none, some, false, true, replicate, htons}
use tapip.Base.Ints.{pos}
use tapip.Net.{Netdev, Rtentry}
use tapip.Sock
use tapip.Sock.{Sock}
use tapip.Inet.{SockAddr, Devices, local_address, inet_socket, inet_bind, bind_port, inet_accept}
use tapip.Inet.Bind.{IsBound, inet_bind-IsBound}
use tapip.Inet.Laws.{udp_ops-BindLaws}
use tapip.Inet.Protocols.{udp_ops}
use tapip.Udp.{Udp, modify, new_udp, udp_alloc_sock}
use tapip.Udp.Port.{port_used, take_port, udp_set_sport, chain_has_port}

abbrev nic : Netdev
nic = record {
  id = 1;
  net_mtu = 1500;
  net_ipaddr = 0x0100000a;
  net_mask = 0xffffff;
  net_hwaddr = replicate 6 1;
}

abbrev loop : Netdev
loop = record {
  id = 0;
  net_mtu = 1500;
  net_ipaddr = 0x0100007f;
  net_mask = 0xff;
  net_hwaddr = replicate 6 0;
}

abbrev devices : Devices
devices = record { loop = loop; net_devices = nic ∷ [] }

abbrev local_net : Rtentry
local_net = record {
  rt_net = 0x0000000a;
  rt_netmask = 0xffffff;
  rt_gw = 0;
  rt_flags = 0;
  rt_metric = 0;
  rt_dev = nic;
}

abbrev empty : Udp
empty = record {
  socks = λ j. new_udp;
  next_sk = 0;
  head = λ k. [];
  slot_used = λ k. pos 0;
  best_slot = 0;
  best_update = pos 10;
  udp_id = 0;
  routes = local_net ∷ [];
  out = [];
}

-- one socket, as inet_socket leaves it
abbrev one : Udp
one = (inet_socket (udp_ops (0, 0)) empty 0).1

abbrev addr : SockAddr
addr = record { src_addr = 0x0100000a; dst_addr = 0x0200000a; src_port = 0x3500; dst_port = 0x3500 }

-- A protocol that UDP does not take is refused, and an accept on UDP calls a NULL pointer.
refused :
    ((inet_socket (udp_ops (0, 0)) empty 6).0 ≡ none)
    × (inet_accept (udp_ops (0, 0)) one (some 0) ≡ none)
    × (local_address devices 0x0300000a ≡ false)
    × (local_address devices 0x0500007f ≡ true)
unfolding inet_socket udp_alloc_sock inet_accept local_address
refused = (refl, refl, refl, refl)

abbrev after : Udp
after =
    modify (take_port (modify one 0 (λ sk. record sk { sk_saddr = addr.src_addr })) 0 addr.src_port)
      0 (λ sk. record sk { sk_daddr = 0; sk_dport = 0 })

inet_bind-IsBound_example : IsBound (udp_ops (0, 0)) devices after 0 addr
unfolding inet_bind bind_port inet_socket udp_alloc_sock udp_set_sport port_used local_address
    chain_has_port htons Sock.get_sock
inet_bind-IsBound_example = inet_bind-IsBound udp_ops-BindLaws devices one after 0 addr refl
