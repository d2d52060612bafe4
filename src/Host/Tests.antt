-- ===== src/Host/Tests.antt =====
-- The whole stack at small examples.
use tapip.Base.{ℕ, ◌≡◌, refl, [], ◌∷◌, ◌++◌, none, some, false, replicate, htons, arith}
use tapip.Base.Ints.{pos}
use tapip.Net.{Netdev, Rtentry, Pkbuf, pkt_none, eth_p_ip, rt_localhost, freed}
use tapip.Arp.Cache.{arp_cache_init}
use tapip.Raw.{new_raw}
use tapip.Tcp.Listen.{fresh_sock}
use tapip.Ip.Frag.{lookup_frag}
use tapip.Ip.Frag.Trip.{IsSized}
use tapip.Host.{Host, Frame, net_in, emit, ip_pkb}
use tapip.Host.Fragments.{Delivered, fragments-Delivered}

abbrev narrow_nic : Netdev
narrow_nic = record {
  id = 1;
  net_mtu = 36;
  net_ipaddr = 0x0200000a;
  net_mask = 0xffffff;
  net_hwaddr = replicate 6 2;
}

abbrev here : Rtentry
here = record {
  rt_net = 0x0200000a;
  rt_netmask = 0xffffffff;
  rt_gw = 0;
  rt_flags = rt_localhost;
  rt_metric = 0;
  rt_dev = narrow_nic;
}

abbrev host : Host
host = record {
  frags = [];
  frag_out = [];
  up = record {
    routes = here ∷ [];
    cache = arp_cache_init;
    ipid = 0;
    raw = record { socks = λ j. new_raw 0; next_sk = 0; head = λ k. []; raw_id = 0; out = [] };
    tcp = record {
      socks = λ j. fresh_sock;
      next_sk = 0;
      etable = λ k. [];
      ltable = λ k. [];
      btable = λ k. [];
      bfree = pos 100;
      defport = 40000;
      next_iss = 0;
      tcp_id = 0;
      timewait = [];
      routes = here ∷ [];
      out = [];
    };
    udp = record {
      socks = λ j. new_raw 0;
      head = λ k. [];
      next_sk = 0;
      slot_used = λ k. pos 0;
      best_slot = 0;
      best_update = pos 10;
      udp_id = 0;
      routes = here ∷ [];
      out = [];
    };
    out = [];
  };
}

-- 24 bytes behind a header of 20; the length field is 44 in network order
abbrev datagram : Pkbuf
datagram = record {
  pk_pro = eth_p_ip;
  pk_type = pkt_none;
  pk_len = 58;
  pk_indev = none;
  pk_rtdst = none;
  ip = record {
    ip_hlen = 5;
    ip_ver = 4;
    ip_tos = 0;
    ip_len = 0x2c00;
    ip_id = 7;
    ip_fragoff = 0;
    ip_ttl = 64;
    ip_pro = 17;
    ip_cksum = 0;
    ip_src = 0x0100000a;
    ip_dst = 0x0200000a;
    ip_opts = [];
    ip_data = replicate 12 1 ++ replicate 12 2;
  };
}

datagram-IsSized : IsSized (datagram.ip)
unfolding htons
datagram-IsSized = record { header = omega arith; opts_len = refl; total_len = refl }

fragments-Delivered_example : Delivered (λ j. false) host narrow_nic datagram
unfolding lookup_frag htons
fragments-Delivered_example =
    fragments-Delivered (λ j. false) host narrow_nic datagram datagram-IsSized refl (omega arith)
      (omega arith) refl

abbrev frame : ℕ → ℕ → Frame
frame eth_pro len = record {
  eth_dst = replicate 6 2;
  eth_src = replicate 6 1;
  eth_pro = eth_pro;
  len = len;
  as_ip = datagram.ip;
  as_arp = record {
    arp_hrd = 1;
    arp_pro = eth_p_ip;
    arp_hrdlen = 6;
    arp_prolen = 4;
    arp_op = 1;
    arp_sha = replicate 6 1;
    arp_sip = 0x0100000a;
    arp_tha = replicate 6 0;
    arp_tip = 0x0200000a;
  };
}

-- A frame that is too short is freed, and so is one of an unknown type; RARP is forgotten.
frames_dropped :
    (net_in (λ j. false) host narrow_nic (frame 0x0008 13)
      ≡ some (record host { up = emit (host.up) (freed (ip_pkb narrow_nic (frame 0x0008 13))) }))
    × (net_in (λ j. false) host narrow_nic (frame 0x0100 60)
        ≡ some (record host { up = emit (host.up) (freed (ip_pkb narrow_nic (frame 0x0100 60))) }))
    × (net_in (λ j. false) host narrow_nic (frame 0x3580 60) ≡ some host)
unfolding net_in htons
frames_dropped = (refl, refl, refl)
