-- ===== src/Ip/Tests.antt =====
-- IP at small examples.
use tapip.Base.{ℕ, ◌≡◌, refl, [], ◌∷◌, ◌++◌, none, some, replicate, htons, arith, ◌<◌, ◌^◌}
use tapip.Net.{Netdev, Rtentry, Pkbuf, pkt_none, pkt_localhost, tx_ip, freed_arp, eth_p_ip}
use tapip.Arp.Cache.{arp_cache_init, arp_lookup}
use tapip.Arp.Cache.Inv.{arp_cache_init-IsValid}
use tapip.Arp.Cache.Alloc.{IsFull}
use tapip.Arp.Cache.Find.{arp_lookup-none_iff}
use tapip.Arp.Packet.{ArpPkb, op_reply, arp_accepts, arp_in}
use tapip.Ip.Frag.{lookup_frag}
use tapip.Ip.Frag.Trip.{IsSized, Rejoins, ip_reass-fragments, ip_reass-fragments_cut_short}
use tapip.Ip.Out.{ip_send_dev, ip_send_out}
use tapip.Ip.Out.Returns.{Returns, ip_send_out-Returns}
use tapip.Ip.Out.Asked.{request_for}
use tapip.Ip.Out.Deliver.{ip_send_dev_delivers}

abbrev small_nic : Netdev
small_nic = record {
  id = 1;
  net_mtu = 36;
  net_ipaddr = 0x0100000a;
  net_mask = 0xffffff;
  net_hwaddr = replicate 6 1;
}

abbrev local_net : Rtentry
local_net = record {
  rt_net = 0x0000000a;
  rt_netmask = 0xffffff;
  rt_gw = 0;
  rt_flags = 0;
  rt_metric = 0;
  rt_dev = small_nic;
}

-- 24 bytes behind a header of 20; the length field is 44 in network order
abbrev datagram : ℕ → Pkbuf
datagram fragoff = record {
  pk_pro = eth_p_ip;
  pk_type = pkt_none;
  pk_len = 58;
  pk_indev = none;
  pk_rtdst = some local_net;
  ip = record {
    ip_hlen = 5;
    ip_ver = 4;
    ip_tos = 0;
    ip_len = 0x2c00;
    ip_id = 7;
    ip_fragoff = fragoff;
    ip_ttl = 64;
    ip_pro = 17;
    ip_cksum = 0;
    ip_src = 0x0100000a;
    ip_dst = 0x0200000a;
    ip_opts = [];
    ip_data = replicate 12 1 ++ replicate 12 2;
  };
}

datagram-IsSized : (fragoff : ℕ) → IsSized ((datagram fragoff).ip)
unfolding htons
datagram-IsSized fragoff = record { header = omega arith; opts_len = refl; total_len = refl }

too_long : small_nic.net_mtu < htons 0x2c00
unfolding htons
too_long = omega arith

ip_reass-fragments_example : Rejoins small_nic (datagram 0) []
unfolding lookup_frag
ip_reass-fragments_example =
    ip_reass-fragments small_nic (datagram 0) [] (datagram-IsSized 0) refl (omega arith) too_long
      refl

ip_reass-fragments_cut_short_example : Rejoins small_nic (datagram (htons (2 ^ 13))) []
unfolding lookup_frag
ip_reass-fragments_cut_short_example =
    ip_reass-fragments_cut_short small_nic (datagram (htons (2 ^ 13))) []
      (datagram-IsSized (htons (2 ^ 13))) refl (omega arith) too_long refl

abbrev answer : ArpPkb
answer = record {
  pk_type = pkt_localhost;
  pk_len = 42;
  eth_src = replicate 6 2;
  arp = record {
    arp_hrd = 1;
    arp_pro = eth_p_ip;
    arp_hrdlen = 6;
    arp_prolen = 4;
    arp_op = op_reply;
    arp_sha = replicate 6 2;
    arp_sip = 0x0200000a;
    arp_tha = replicate 6 1;
    arp_tip = 0x0100000a;
  };
}

not-IsFull : ¬ IsFull arp_cache_init
unfolding arp_cache_init
not-IsFull full = cc (full 0 (omega arith))

unknown : arp_lookup arp_cache_init eth_p_ip 0x0200000a ≡ none
unfolding arp_cache_init
unknown = (arp_lookup-none_iff arp_cache_init eth_p_ip 0x0200000a).1 (ground arith)

ip_send_dev_delivers_example :
    ((ip_send_dev arp_cache_init small_nic (datagram 0)).1 ≡ request_for small_nic 0x0200000a ∷ [])
    × ((arp_in (ip_send_dev arp_cache_init small_nic (datagram 0)).0 small_nic answer).1
        ≡ tx_ip small_nic (datagram 0) eth_p_ip (replicate 6 2) ∷ freed_arp answer.arp ∷ [])
unfolding arp_accepts
ip_send_dev_delivers_example =
    ip_send_dev_delivers small_nic (datagram 0) answer {rt = local_net} arp_cache_init-IsValid
      not-IsFull refl refl unknown refl refl refl refl refl

abbrev unrouted : Pkbuf
unrouted = record (datagram 0) { pk_rtdst = none }

ip_send_out-Returns_example : Returns (ip_send_out (local_net ∷ []) arp_cache_init unrouted)
ip_send_out-Returns_example =
    ip_send_out-Returns (local_net ∷ []) unrouted arp_cache_init-IsValid (omega arith, tt)
      (λ rt e. cc)
