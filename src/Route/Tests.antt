-- ===== src/Route/Tests.antt =====
-- ip/route.c at a small table.
use tapip.Base.{◌≡◌, ◌↔◌, refl, [], ◌∷◌, none, some, true, arith}
use mathlib.Core.List.{Memᴰ}
use tapip.Net.{Netdev, Rtentry, rt_none, rt_localhost}
use tapip.Route.{Table, covers, rt_lookup, rt_alloc, rt_add, rt_delete, rt_init, insert_route}
use tapip.Route.Order.{IsOrdered, rt_add-IsOrdered, rt_delete-rt_add}
use tapip.Route.Lookup.{
  Covered, Uncovered, prefer, rt_lookup-longest, rt_lookup-none_iff, rt_lookup-rt_add,
}

abbrev lo : Netdev
lo = record { id = 0; net_mtu = 1500; net_ipaddr = 0x0100007f; net_mask = 0xff; net_hwaddr = [] }

abbrev local : Rtentry
local = record {
  rt_net = 0x7f;
  rt_netmask = 0xff;
  rt_gw = 0;
  rt_flags = rt_localhost;
  rt_metric = 0;
  rt_dev = lo;
}

-- 10.0.0.0/24 in front of 127.0.0.0/8
abbrev lan : Rtentry
lan = record local { rt_net = 0x0a; rt_netmask = 0xffffff; rt_flags = rt_none }

abbrev table : Table
table = lan ∷ local ∷ []

table-IsOrdered : IsOrdered table
table-IsOrdered = omega arith

-- the table at the start
init_loop : rt_init [] lo ≡ local ∷ []
unfolding rt_init rt_add rt_alloc insert_route
init_loop = refl

lookup_lan : rt_lookup table 0x0500000a ≡ some lan
unfolding rt_lookup
lookup_lan = refl

-- a second route to the same network
rt_delete-rt_add_example :
    rt_delete (rt_add table lan.rt_net lan.rt_netmask 1 0 0 lo) lan.rt_net lan.rt_netmask ≡ table
rt_delete-rt_add_example = rt_delete-rt_add table lan.rt_net lan.rt_netmask 1 0 0 lo

rt_add-IsOrdered_example : IsOrdered (rt_add table 0 0 1 0 2 lo)
rt_add-IsOrdered_example = rt_add-IsOrdered table 0 0 1 0 2 lo table-IsOrdered

rt_lookup-longest_example :
    Memᴰ lan table × (covers lan 0x0500000a ≡ true) × Covered 0x0500000a 0xffffff table
rt_lookup-longest_example = rt_lookup-longest table 0x0500000a {rt = lan} table-IsOrdered lookup_lan

rt_lookup-none_iff_example : (rt_lookup table 0x08080808 ≡ none) ↔ Uncovered 0x08080808 table
rt_lookup-none_iff_example = rt_lookup-none_iff table 0x08080808

rt_lookup-rt_add_example :
    rt_lookup (rt_add table 0 0 1 0 2 lo) 0x08080808
    ≡ prefer (rt_alloc 0 0 1 0 2 lo) 0x08080808 (rt_lookup table 0x08080808)
rt_lookup-rt_add_example = rt_lookup-rt_add table 0 0 1 0 2 lo 0x08080808 table-IsOrdered
