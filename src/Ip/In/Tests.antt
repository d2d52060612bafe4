-- ===== src/Ip/In/Tests.antt =====
-- ip_in at small examples.
use tapip.Base.{
  ◌≡◌, refl, [], ◌∷◌, none, some, replicate, htons, arith, not, if◌then◌else◌, ◌==◌, bit_and,
}
use tapip.Net.{
  Netdev, Rtentry, Pkbuf, PkType, pkt_localhost, pkt_otherhost, eth_p_ip, rt_localhost, freed,
}
use tapip.Arp.Cache.{arp_cache_init}
use tapip.Route.{rt_lookup}
use tapip.Forward.{ip_forward}
use tapip.Ip.In.{ip_in}
use tapip.Ip.In.Checked.{IsHeader, padded, received, routed, ip_in-ip_set_checksum}

abbrev nic : Netdev
nic = record {
  id = 1;
  net_mtu = 1500;
  net_ipaddr = 0x0200000a;
  net_mask = 0xffffff;
  net_hwaddr = replicate 6 2;
}

abbrev this_host : Rtentry
this_host = record {
  rt_net = 0x0200000a;
  rt_netmask = 0xffffffff;
  rt_gw = 0;
  rt_flags = rt_localhost;
  rt_metric = 0;
  rt_dev = nic;
}

-- 8 bytes behind a header of 20; the length field is 28 in network order
abbrev arriving : PkType → Pkbuf
arriving type = record {
  pk_pro = eth_p_ip;
  pk_type = type;
  pk_len = 42;
  pk_indev = some nic;
  pk_rtdst = none;
  ip = record {
    ip_hlen = 5;
    ip_ver = 4;
    ip_tos = 0;
    ip_len = 0x1c00;
    ip_id = 7;
    ip_fragoff = 0;
    ip_ttl = 64;
    ip_pro = 17;
    ip_cksum = 0;
    ip_src = 0x0100000a;
    ip_dst = 0x0200000a;
    ip_opts = [];
    ip_data = replicate 8 1;
  };
}

arriving-IsHeader : IsHeader (arriving pkt_localhost).ip
unfolding htons
arriving-IsHeader = record {
  version = refl;
  hlen_min = omega arith;
  hlen_max = omega arith;
  tos = omega arith;
  ttl = omega arith;
  pro = omega arith;
  len_small = omega arith;
  id_small = omega arith;
  fragoff_small = omega arith;
  opts = tt;
  opts_len = refl;
  total_len = refl;
}

-- a short frame, padded to the least length of Ethernet
ip_in-ip_set_checksum_example :
    ip_in (this_host ∷ []) (padded (arriving pkt_localhost) (replicate 18 0)) 0 arp_cache_init ≡ (
      if not (bit_and rt_localhost rt_localhost == 0)
      then (
        some (record (received (arriving pkt_localhost)) { pk_rtdst = some this_host }),
        (0, some (arp_cache_init, [])),
      )
      else (
        none,
        ip_forward (this_host ∷ []) (routed (arriving pkt_localhost) this_host) 0 arp_cache_init,
      ))
unfolding rt_lookup
ip_in-ip_set_checksum_example =
    ip_in-ip_set_checksum (this_host ∷ []) (arriving pkt_localhost) (replicate 18 0) 0
      arp_cache_init {rt = this_host} arriving-IsHeader refl refl

for_another_host :
    ip_in (this_host ∷ []) (arriving pkt_otherhost) 0 arp_cache_init
    ≡ (none, (0, some (arp_cache_init, freed (arriving pkt_otherhost) ∷ [])))
unfolding ip_in
for_another_host = refl
