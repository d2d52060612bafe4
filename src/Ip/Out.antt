-- ===== src/Ip/Out.antt =====
-- ip/ip_out.c, and ip_send_frag of ip/ip_frag.c: IP packets on their way to a device.
-- A packet is in network order. The state is the routing table, the ARP cache and the counter of
-- ip_send_info; a packet given to the loopback device is an event like any other.
pub mod Asked
pub mod Deliver
pub mod Returns
use tapip.Base.{
  ℕ, ◌+◌, ◌-◌, ◌*◌, ◌/◌, ◌%◌, ◌^◌, List, [], ◌∷◌, ◌++◌, Option, none, some, Bool, true, false, ◌==◌,
  ltb, if◌then◌else◌, ◌&&◌, ◌||◌, not, get_elem?, htons,
}
use tapip.Net.{Netdev, Rtentry, Ip, Pkbuf, Event, tx_ip, freed, fault, eth_p_ip, ip_set_checksum}
use tapip.Route.{Table, rt_output}
use tapip.Arp.Cache.{
  ArpState, free, waiting, resolved, ArpEntry, ArpCache, modify, arp_alloc, arp_lookup, arp_request,
}
use tapip.Ip.Frag.Cut.{fragments}

abbrev pub is_localhost : Rtentry → Bool
is_localhost rt = rt.rt_flags % 2 == 1

abbrev pub is_default : Rtentry → Bool
is_default rt = rt.rt_flags / 2 % 2 == 1

-- next-hop: default route or remote dst
abbrev pub next_hop : Rtentry → Ip → ℕ
next_hop rt iphdr = if is_default rt || ltb 0 rt.rt_metric then rt.rt_gw else iphdr.ip_dst

-- list_add_tail(&pkb->pk_list, &ae->ae_list)
abbrev pub enqueue : Pkbuf → ArpEntry → ArpEntry
enqueue pkb ae = record ae { ae_list = ae.ae_list ++ (pkb ∷ []) }

-- what ip_send_dev stores in an entry that arp_alloc has made
abbrev pub ask_for : Netdev → ℕ → Pkbuf → ArpEntry → ArpEntry
ask_for dev dst pkb ae = record ae {
  ae_ipaddr = dst;
  ae_dev = some dev;
  ae_list = ae.ae_list ++ (pkb ∷ []);
}

-- the request for the entry at an index
abbrev pub request_at : ArpCache → ℕ → Event
request_at c i = elim (get_elem? c.entries i) [ none ↦ fault | some ae ↦ arp_request ae ]

-- ip_send_dev for an entry in a state
pub send_found : ArpCache → Netdev → Pkbuf → ℕ → List ℕ → ArpState → ArpCache × List Event
send_found c dev pkb i hwaddr waiting = (modify c i (enqueue pkb), [])
send_found c dev pkb i hwaddr free = (c, tx_ip dev pkb eth_p_ip hwaddr ∷ [])
send_found c dev pkb i hwaddr resolved = (c, tx_ip dev pkb eth_p_ip hwaddr ∷ [])

-- ip_send_dev with the entry that arp_lookup has found, or not
pub send_to : ArpCache → Netdev → Pkbuf → ℕ → Option ℕ → ArpCache × List Event
send_to c dev pkb dst none =
    let (ae, c') = arp_alloc c in
    elim ae [
      | none ↦ (c', freed pkb ∷ [])
      | some i ↦ let c'' = modify c' i (ask_for dev dst pkb) in (c'', request_at c'' i ∷ [])
    ]
send_to c dev pkb dst (some i) = elim (get_elem? c.entries i) [
  | none ↦ (c, fault ∷ [])
  | some ae ↦ send_found c dev pkb i ae.ae_hwaddr ae.ae_state
]

-- ip_send_dev with the route of the packet
pub send_by : ArpCache → Netdev → Pkbuf → Option Rtentry → ArpCache × List Event
send_by c dev pkb none = (c, fault ∷ [])
send_by c dev pkb (some rt) =
    if is_localhost rt
    then (c, tx_ip dev pkb eth_p_ip dev.net_hwaddr ∷ [])
    else let dst = next_hop rt pkb.ip in send_to c dev pkb dst (arp_lookup c eth_p_ip dst)

pub ip_send_dev : ArpCache → Netdev → Pkbuf → ArpCache × List Event
ip_send_dev c dev pkb = send_by c dev pkb pkb.pk_rtdst

-- the packets of a list through ip_send_dev, in order
pub send_all : ArpCache → Netdev → List Pkbuf → ArpCache × List Event
send_all c dev [] = (c, [])
send_all c dev (pkb ∷ pkbs) =
    let (c', out) = ip_send_dev c dev pkb in
    let (c'', outs) = send_all c' dev pkbs in (c'', out ++ outs)

-- `none` means that the loop does not end.
pub ip_send_frag : ArpCache → Netdev → Pkbuf → Option (ArpCache × List Event)
ip_send_frag c dev pkb = elim (fragments dev pkb) [
  | none ↦ none
  | some pkbs ↦ let (c', out) = send_all c dev pkbs in some (c', out ++ (freed pkb ∷ []))
]

-- the end of ip_send_out, with the route of the packet
pub send_routed : ArpCache → Rtentry → Pkbuf → Option (ArpCache × List Event)
send_routed c rt pkb =
    let pkb' = record pkb { ip = ip_set_checksum pkb.ip } in
    if ltb rt.rt_dev.net_mtu (htons pkb'.ip.ip_len)
    then ip_send_frag c rt.rt_dev pkb'
    else some (ip_send_dev c rt.rt_dev pkb')

-- ip_send_out with the route of the packet, if it has one
pub send_with : Table → ArpCache → Pkbuf → Option Rtentry → Option (ArpCache × List Event)
send_with rts c pkb (some rt) = send_routed c rt pkb
send_with rts c pkb none = elim (rt_output rts pkb) [
  | none ↦ some (c, freed pkb ∷ [])
  | some routed ↦ elim (routed.pk_rtdst) [
    | none ↦ some (c, fault ∷ [])
    | some rt ↦ send_routed c rt routed
  ]
]

pub ip_send_out : Table → ArpCache → Pkbuf → Option (ArpCache × List Event)
ip_send_out rts c pkb = send_with rts c (record pkb { pk_pro = eth_p_ip }) pkb.pk_rtdst

-- the packet with the header that ip_send_info fills in
abbrev pub with_info : ℕ → Pkbuf → ℕ → ℕ → ℕ → ℕ → ℕ → Pkbuf
with_info ipid pkb tos len ttl pro dst = record pkb {
  ip = record (pkb.ip) {
    ip_ver = 4;
    ip_hlen = 5;
    ip_tos = tos;
    ip_len = htons len;
    ip_id = htons ipid;
    ip_fragoff = 0;
    ip_ttl = ttl;
    ip_pro = pro;
    ip_dst = dst;
  };
}

-- The counter ipid is returned first.
unfoldable pub ip_send_info :
    ℕ → Table → ArpCache → Pkbuf → ℕ → ℕ → ℕ → ℕ → ℕ → ℕ × Option (ArpCache × List Event)
ip_send_info ipid rts c pkb tos len ttl pro dst =
    ((ipid + 1) % 2 ^ 16, ip_send_out rts c (with_info ipid pkb tos len ttl pro dst))
