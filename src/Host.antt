-- ===== src/Host.antt =====
-- ip_recv_local of ip/ip_in.c, net/net.c: the parts of the stack put together, from a frame that
-- arrives to the protocols, and the timer that ticks once a second.
pub mod Fragments
mod Tests
use tapip.Base.{
  ℕ, zero, suc, ◌/◌, ◌%◌, ◌^◌, List, [], ◌∷◌, ◌++◌, Option, none, some, Bool, true, false, ◌==◌,
  ltb, if◌then◌else◌, get_or, bit_and, htons,
}
use tapip.Net.{
  Netdev, Ip, Arp, Pkbuf, PkType, pkt_none, pkt_localhost, pkt_otherhost, pkt_multicast,
  pkt_broadcast, Event, freed, eth_hrd_sz, eth_p_ip, eth_p_arp,
}
use tapip.Route
use tapip.Arp.Cache.{ArpCache, arp_timer}
use tapip.Arp.Packet.{ArpPkb, hwa_eq, arp_in}
use tapip.Icmp.{Outcome, icmp_in}
use tapip.Ip.Frag
use tapip.Ip.Frag.{ip_reass}
use tapip.Ip.Frag.Timer.{ip_timer}
use tapip.Ip.In.{ip_in}
use tapip.Raw.{Raw, raw_in}
use tapip.Tcp.{Tcp}
use tapip.Tcp.Step.{tcp_in}
use tapip.Udp.{Udp}
use tapip.Udp.In.{udp_in}

-- What lies above the table of fragments: the routing table, the ARP cache, the counter of
-- ip_send_info, the protocols, and what ARP, IP and ICMP have sent and freed, in order.
pub record Upper : Type 0 where
  pub routes : Route.Table
  pub cache : ArpCache
  pub ipid : ℕ
  pub raw : Raw
  pub tcp : Tcp
  pub udp : Udp
  pub out : List Event

-- the whole stack, with what ip_reass frees
pub record Host : Type 0 where
  pub frags : Frag.Table
  pub frag_out : List Event
  pub up : Upper

-- what a handler of ICMP, IP or ARP comes to
abbrev pub settle : Upper → ℕ × Outcome → Option Upper
settle u (ipid, none) = none
settle u (ipid, some (c, evs)) = some (record u { ipid = ipid; cache = c; out = u.out ++ evs })

abbrev pub emit : Upper → Event → Upper
emit u e = record u { out = u.out ++ (e ∷ []) }

-- the switch of ip_recv_local; `has_cb` says which UDP sockets have a callback
unfoldable pub by_protocol : (ℕ → Bool) → Upper → Pkbuf → Option Upper
by_protocol has_cb u pkb =
    if pkb.ip.ip_pro == 1
    then settle u (u.ipid, icmp_in u.routes u.cache pkb)
    else if pkb.ip.ip_pro == 6
    then elim (tcp_in u.tcp pkb.ip) [ none ↦ none | some tcp ↦ some (record u { tcp = tcp }) ]
    else if pkb.ip.ip_pro == 17
    then some (record u { udp = udp_in u.udp has_cb pkb })
    else some (emit u (freed pkb))

-- ip_recv_local with a packet that is whole
unfoldable pub deliver : (ℕ → Bool) → Upper → Pkbuf → Option Upper
deliver has_cb u pkb = by_protocol has_cb (record u { raw = raw_in u.raw pkb }) pkb

-- IP_FRAG_OFF | IP_FRAG_MF and IP_FRAG_DF, of a field in host order
abbrev pub is_frag : Ip → Bool
is_frag h = if h.ip_fragoff % 2 ^ 14 == 0 then false else true

abbrev pub no_frag : Ip → Bool
no_frag h = h.ip_fragoff / 2 ^ 14 % 2 == 1

-- the packet that ip_reass returns, if it returns one
abbrev pub deliver_whole : (ℕ → Bool) → Host → Option Pkbuf → Option Host
deliver_whole has_cb host none = some host
deliver_whole has_cb host (some pkb) = elim (deliver has_cb host.up pkb) [
  | none ↦ none
  | some up ↦ some (record host { up = up })
]

-- ip_recv_local with what ip_reass comes to
abbrev pub recv_frag : (ℕ → Bool) → Host → Frag.Table × Option Pkbuf × List Event → Option Host
recv_frag has_cb host (frags, done, evs) =
    deliver_whole has_cb (record host { frags = frags; frag_out = host.frag_out ++ evs }) done

-- The packet is in host order. A result `none` is that of a handler.
unfoldable pub ip_recv_local : (ℕ → Bool) → Host → Pkbuf → Option Host
ip_recv_local has_cb host pkb =
    if is_frag pkb.ip
    then if no_frag pkb.ip
      then some (record host { up = emit host.up (freed pkb) })
      else recv_frag has_cb host (ip_reass host.frags pkb)
    else deliver_whole has_cb host (some pkb)

-- ip_in with local delivery behind it
abbrev pub recv_arrival : (ℕ → Bool) → Host → Option Pkbuf × (ℕ × Outcome) → Option Host
recv_arrival has_cb host (local, done) = elim (settle host.up done) [
  | none ↦ none
  | some up ↦
      let host' = record host { up = up } in
      elim local [ none ↦ some host' | some pkb ↦ ip_recv_local has_cb host' pkb ]
]

unfoldable pub ip_recv : (ℕ → Bool) → Host → Pkbuf → Option Host
ip_recv has_cb host pkb =
    recv_arrival has_cb host (ip_in host.up.routes pkb host.up.ipid host.up.cache)

-- A frame as a device hands it over: its Ethernet header, its type in network order, its length,
-- and what follows, read as an IP packet and as an ARP packet.
pub record Frame : Type 0 where
  pub eth_dst : List ℕ
  pub eth_src : List ℕ
  pub eth_pro : ℕ
  pub len : ℕ
  pub as_ip : Ip
  pub as_arp : Arp

-- is_eth_multicast and is_eth_broadcast, of an address of 6 bytes
abbrev pub is_eth_multicast : List ℕ → Bool
is_eth_multicast hwa = get_or hwa 0 0 % 2 == 1

abbrev pub is_eth_broadcast : List ℕ → Bool
is_eth_broadcast hwa =
    bit_and (get_or hwa 0 0) (
      bit_and (get_or hwa 1 0) (
        bit_and (get_or hwa 2 0)
          (bit_and (get_or hwa 3 0) (bit_and (get_or hwa 4 0) (get_or hwa 5 0)))))
    == 0xff

-- the hardware address type of eth_init
unfoldable pub eth_type : Netdev → List ℕ → PkType
eth_type dev eth_dst =
    if is_eth_multicast eth_dst
    then if is_eth_broadcast eth_dst then pkt_broadcast else pkt_multicast
    else if hwa_eq eth_dst dev.net_hwaddr
    then pkt_localhost
    else pkt_otherhost

-- the packet of a frame, as eth_init and net_in fill it in
abbrev pub ip_pkb : Netdev → Frame → Pkbuf
ip_pkb dev f = record {
  pk_pro = htons f.eth_pro;
  pk_type = eth_type dev f.eth_dst;
  pk_len = f.len;
  pk_indev = some dev;
  pk_rtdst = none;
  ip = f.as_ip;
}

abbrev pub arp_pkb : Netdev → Frame → ArpPkb
arp_pkb dev f = record {
  pk_type = eth_type dev f.eth_dst;
  pk_len = f.len;
  eth_src = f.eth_src;
  arp = f.as_arp;
}

abbrev pub eth_p_rarp : ℕ
eth_p_rarp = 0x8035

-- net_in. A frame of the type RARP is neither handled nor freed.
unfoldable pub net_in : (ℕ → Bool) → Host → Netdev → Frame → Option Host
net_in has_cb host dev f =
    let pro = htons f.eth_pro in
    let (cache, evs) = arp_in host.up.cache dev (arp_pkb dev f) in
    if ltb f.len eth_hrd_sz
    then some (record host { up = emit host.up (freed (ip_pkb dev f)) })
    else if pro == eth_p_rarp
    then some host
    else if pro == eth_p_arp
    then some (record host { up = record (host.up) { cache = cache; out = host.up.out ++ evs } })
    else if pro == eth_p_ip
    then ip_recv has_cb host (ip_pkb dev f)
    else some (record host { up = emit host.up (freed (ip_pkb dev f)) })

-- ip_timer on the whole stack
abbrev pub tick_frags : Host → Frag.Table × (ℕ × Outcome) → Option Host
tick_frags host (frags, done) = elim (settle host.up done) [
  | none ↦ none
  | some up ↦ some (record host { frags = frags; up = up })
]

-- one round of net_timer behind its sleep
unfoldable pub net_timer : Host → Option Host
net_timer host =
    let (cache, evs) = arp_timer 1 host.up.cache in
    let up = record (host.up) { cache = cache; out = host.up.out ++ evs } in
    tick_frags (record host { up = up }) (ip_timer up.routes 1 host.frags up.ipid up.cache)
