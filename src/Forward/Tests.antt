-- ===== src/Forward/Tests.antt =====
-- Forwarding at a small example.
use tapip.Base.{refl, [], ◌∷◌, some, replicate, arith}
use tapip.Net.{Netdev, Rtentry, Pkbuf, pkt_localhost, eth_p_ip}
use tapip.Arp.Cache.{arp_cache_init}
use tapip.Arp.Cache.Inv.{arp_cache_init-IsValid}
use tapip.Ip.Out.Returns.{Returns}
use tapip.Forward.{ip_forward}
use tapip.Forward.Safe.{ip_forward-Returns}

abbrev wan : Netdev
wan = record {
  id = 2;
  net_mtu = 1500;
  net_ipaddr = 0x01000014;
  net_mask = 0xff;
  net_hwaddr = replicate 6 3;
}

abbrev default_route : Rtentry
default_route = record {
  rt_net = 0;
  rt_netmask = 0;
  rt_gw = 0x02000014;
  rt_flags = 2;
  rt_metric = 0;
  rt_dev = wan;
}

abbrev transit : Pkbuf
transit = record {
  pk_pro = eth_p_ip;
  pk_type = pkt_localhost;
  pk_len = 62;
  pk_indev = some wan;
  pk_rtdst = some default_route;
  ip = record {
    ip_hlen = 5;
    ip_ver = 4;
    ip_tos = 0;
    ip_len = 0x3000;
    ip_id = 1;
    ip_fragoff = 0;
    ip_ttl = 1;
    ip_pro = 17;
    ip_cksum = 0;
    ip_src = 0x0300000a;
    ip_dst = 0x08080808;
    ip_opts = [];
    ip_data = replicate 28 1;
  };
}

ip_forward-Returns_example : Returns (ip_forward (default_route ∷ []) transit 0 arp_cache_init).1
ip_forward-Returns_example =
    ip_forward-Returns (default_route ∷ []) transit 0 arp_cache_init-IsValid (omega arith, tt) refl
      (omega arith)
