-- ===== src/Ip/Frag/Tests.antt =====
-- The table of fragments and its timer at small examples.
use tapip.Base.{ℕ, [], ◌∷◌, none, some, replicate, arith, true, false}
use tapip.Net.{Netdev, Pkbuf, pkt_localhost, eth_p_ip}
use tapip.Route
use tapip.Arp.Cache.{arp_cache_init}
use tapip.Arp.Cache.Inv.{arp_cache_init-IsValid}
use tapip.Ip.Out.Returns.{Returns}
use tapip.Ip.Frag.{Fragment, Table, ip_reass}
use tapip.Ip.Frag.Held.{AllHold, ip_reass-AllHold}
use tapip.Ip.Frag.Timer.{ip_timer, ip_timer-Returns}

abbrev nic : Netdev
nic = record {
  id = 1;
  net_mtu = 1500;
  net_ipaddr = 0x0100000a;
  net_mask = 0xffffff;
  net_hwaddr = replicate 6 1;
}

abbrev routes : Route.Table
routes =
    record {
      rt_net = 0x0000000a;
      rt_netmask = 0xffffff;
      rt_gw = 0;
      rt_flags = 0;
      rt_metric = 0;
      rt_dev = nic;
    }
    ∷ []

-- the first 16 bytes of a datagram, with more to follow, in host order
abbrev first_part : Pkbuf
first_part = record {
  pk_pro = eth_p_ip;
  pk_type = pkt_localhost;
  pk_len = 50;
  pk_indev = some nic;
  pk_rtdst = none;
  ip = record {
    ip_hlen = 5;
    ip_ver = 4;
    ip_tos = 0;
    ip_len = 36;
    ip_id = 7;
    ip_fragoff = 0x2000;
    ip_ttl = 64;
    ip_pro = 17;
    ip_cksum = 0;
    ip_src = 0x0200000a;
    ip_dst = 0x0100000a;
    ip_opts = [];
    ip_data = replicate 16 1;
  };
}

abbrev waiting : ℕ → Fragment
waiting ttl = record {
  frag_id = 7;
  frag_src = 0x0200000a;
  frag_dst = 0x0100000a;
  frag_pro = 17;
  frag_hlen = 20;
  frag_rsize = 16;
  frag_size = 0;
  frag_ttl = ttl;
  frag_complete = false;
  frag_first_in = true;
  frag_last_in = false;
  frag_pkb = first_part ∷ [];
}

ip_reass-AllHold_example : AllHold (ip_reass (waiting 3 ∷ []) first_part).0
ip_reass-AllHold_example = ip_reass-AllHold (waiting 3 ∷ []) first_part (tt, tt)

-- an entry that is given up with this tick
ip_timer-Returns_example :
    let ticked : Table × _ = ip_timer routes 1 (waiting 1 ∷ []) 0 arp_cache_init in
    Returns ticked.1.1 × AllHold ticked.0
ip_timer-Returns_example =
    ip_timer-Returns routes 1 (waiting 1 ∷ []) 0 arp_cache_init-IsValid (omega arith, tt) (tt, tt)
