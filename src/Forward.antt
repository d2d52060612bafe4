-- ===== src/Forward.antt =====
-- ip/ip_forward.c and rt_input of ip/route.c: packets that are not for this host.
pub mod Safe
mod Tests
use tapip.Base.{
  ℕ, ◌-◌, ◌/◌, ◌%◌, ◌^◌, List, [], ◌∷◌, ◌++◌, Option, none, some, Bool, false, ◌==◌, ltb, leb,
  if◌then◌else◌, ◌&&◌, bit_and, htons,
}
use tapip.Net.{
  Netdev, Rtentry, Ip, Pkbuf, Event, freed, fault, ip_ntoh, ip_set_checksum, ip_frag_df,
}
use tapip.Route.{Table, rt_lookup}
use tapip.Arp.Cache.{ArpCache}
use tapip.Ip.Out.{next_hop, ip_send_dev, ip_send_frag}
use tapip.Icmp.{Outcome, icmp_send}

-- One step after another: the counter of ip_send_info and the ARP cache go on, and the events of the
-- second step follow those of the first.
pub and_then : ℕ × Outcome → (ℕ → ArpCache → ℕ × Outcome) → ℕ × Outcome
and_then (ipid, none) next = (ipid, none)
and_then (ipid, some (c, out)) next =
    let (ipid', done) = next ipid c in
    (ipid', elim done [ none ↦ none | some (c', out') ↦ some (c', out ++ out') ])

-- free_pkb as the last step
abbrev pub drop_pkb : Pkbuf → ℕ → ArpCache → ℕ × Outcome
drop_pkb pkb ipid c = (ipid, some (c, freed pkb ∷ []))

-- equsubnet
abbrev pub equsubnet : ℕ → ℕ → ℕ → Bool
equsubnet mask ip1 ip2 = bit_and mask ip1 == bit_and mask ip2

-- indev == rt->rt_dev
abbrev pub came_by : Pkbuf → Rtentry → Bool
came_by pkb rt = elim (pkb.pk_indev) [ none ↦ false | some dev ↦ dev.id == rt.rt_dev.id ]

-- the conditions of an ICMP redirect
pub redirects : Table → Rtentry → Pkbuf → Bool
redirects rts rt pkb = came_by pkb rt && elim (rt_lookup rts pkb.ip.ip_src) [
  | none ↦ false
  | some srt ↦ srt.rt_metric == 0 && equsubnet srt.rt_netmask pkb.ip.ip_src (next_hop rt pkb.ip)
]

-- the part of ip_forward behind the redirect
pub pass_on : Table → Rtentry → Pkbuf → ℕ → ArpCache → ℕ × Outcome
pass_on rts rt pkb ipid c =
    if ltb rt.rt_dev.net_mtu (htons pkb.ip.ip_len)
    then if bit_and pkb.ip.ip_fragoff (htons ip_frag_df) == 0
      then (ipid, ip_send_frag c rt.rt_dev pkb)
      else and_then (icmp_send ipid rts c 3 4 0 pkb) (drop_pkb pkb)
    else (ipid, some (ip_send_dev c rt.rt_dev pkb))

-- the packet with its time to live reduced
abbrev pub aged : Pkbuf → Pkbuf
aged pkb = record pkb { ip = ip_set_checksum (record (pkb.ip) { ip_ttl = pkb.ip.ip_ttl - 1 }) }

pub forward_by : Table → Rtentry → Pkbuf → ℕ → ArpCache → ℕ × Outcome
forward_by rts rt pkb ipid c =
    if leb pkb.ip.ip_ttl 1
    then and_then (icmp_send ipid rts c 11 0 0 pkb) (drop_pkb pkb)
    else if redirects rts rt (aged pkb)
    then and_then (icmp_send ipid rts c 5 1 (next_hop rt (aged pkb).ip) (aged pkb))
        (pass_on rts rt (aged pkb))
    else pass_on rts rt (aged pkb) ipid c

-- ip_forward with the route of the packet
pub forward_with : Table → Pkbuf → ℕ → ArpCache → Option Rtentry → ℕ × Outcome
forward_with rts pkb ipid c none = (ipid, some (c, fault ∷ []))
forward_with rts pkb ipid c (some rt) = forward_by rts rt pkb ipid c

-- The packet is in network order.
pub ip_forward : Table → Pkbuf → ℕ → ArpCache → ℕ × Outcome
ip_forward rts pkb ipid c = forward_with rts pkb ipid c pkb.pk_rtdst

-- rt_input, on a packet in host order: the packet with its route, or none, and what it sends.
unfoldable pub rt_input : Table → Pkbuf → ℕ → ArpCache → Option Pkbuf × (ℕ × Outcome)
rt_input rts pkb ipid c = elim (rt_lookup rts pkb.ip.ip_dst) [
  | some rt ↦ (some (record pkb { pk_rtdst = some rt }), (ipid, some (c, [])))
  | none ↦
      let pkb' = record pkb { ip = ip_ntoh pkb.ip } in
      (none, and_then (icmp_send ipid rts c 3 0 0 pkb') (drop_pkb pkb'))
]
