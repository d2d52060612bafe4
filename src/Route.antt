-- ===== src/Route.antt =====
-- ip/route.c: the routing table, a list in descending order of netmasks.
mod Tests
pub mod Order
pub mod Lookup
use tapip.Base.{ℕ, List, [], ◌∷◌, Option, none, some, ◌==◌, leb, if◌then◌else◌, ◌&&◌, Bool, bit_and}
use tapip.Net.{Netdev, Rtentry, Pkbuf, rt_localhost}

abbrev pub Table : Type 0
Table = List Rtentry

-- the test of rt_lookup
abbrev pub covers : Rtentry → ℕ → Bool
covers rt ipaddr = bit_and rt.rt_netmask ipaddr == bit_and rt.rt_netmask rt.rt_net

unfoldable pub rt_lookup : Table → ℕ → Option Rtentry
rt_lookup [] ipaddr = none
rt_lookup (rt ∷ rts) ipaddr = if covers rt ipaddr then some rt else rt_lookup rts ipaddr

-- Only the first entry that fits is taken out.
unfoldable pub rt_delete : Table → ℕ → ℕ → Table
rt_delete [] ip mask = []
rt_delete (rt ∷ rts) ip mask =
    if rt.rt_netmask == mask && rt.rt_net == ip then rts else rt ∷ rt_delete rts ip mask

pub rt_alloc : ℕ → ℕ → ℕ → ℕ → ℕ → Netdev → Rtentry
rt_alloc net netmask gw metric flags dev = record {
  rt_net = net;
  rt_netmask = netmask;
  rt_gw = gw;
  rt_flags = flags;
  rt_metric = metric;
  rt_dev = dev;
}

-- list_add_tail in front of the first entry whose mask is not larger, or of the head
pub insert_route : Rtentry → Table → Table
insert_route rt [] = rt ∷ []
insert_route rt (rte ∷ rts) =
    if leb rte.rt_netmask rt.rt_netmask then rt ∷ rte ∷ rts else rte ∷ insert_route rt rts

unfoldable pub rt_add : Table → ℕ → ℕ → ℕ → ℕ → ℕ → Netdev → Table
unfolding rt_alloc insert_route
rt_add rts net netmask gw metric flags dev =
    insert_route (rt_alloc net netmask gw metric flags dev) rts

-- rt_init without CONFIG_TOP1: the route to the loopback device's own network
unfoldable pub rt_init : Table → Netdev → Table
rt_init rts loop =
    rt_add rts (bit_and loop.net_ipaddr loop.net_mask) loop.net_mask 0 0 rt_localhost loop

-- rt_output, on a packet in network order; `none` is its -1
unfoldable pub rt_output : Table → Pkbuf → Option Pkbuf
rt_output rts pkb = elim (rt_lookup rts pkb.ip.ip_dst) [
  | none ↦ none
  | some rt ↦
      some
        (record pkb { pk_rtdst = some rt; ip = record (pkb.ip) { ip_src = rt.rt_dev.net_ipaddr } })
]
