-- ===== src/Route/Order.antt =====
-- ip/route.c: the table stays in descending order of netmasks, and deleting undoes adding.
use tapip.Base.{ℕ, ◌≤◌, ◌≡◌, [], ◌∷◌, arith}
use tapip.Net.{Netdev, Rtentry}
use tapip.Route.{Table, rt_alloc, insert_route, rt_add, rt_delete}

-- No entry of the table has a mask above the bound.
abbrev pub Below : ℕ → Table → Type 0
Below m [] = Unit {0}
Below m (rt ∷ rts) = (rt.rt_netmask ≤ m) × Below m rts

-- Netmasks descend.
abbrev pub IsOrdered : Table → Type 0
IsOrdered [] = Unit {0}
IsOrdered (rt ∷ rts) = Below rt.rt_netmask rts × IsOrdered rts

pub Below-mono : (m n : ℕ) (rts : Table) → m ≤ n → Below m rts → Below n rts
Below-mono m n [] h b = tt
Below-mono m n (rt ∷ rts) h b = (omega (arith, b.0), Below-mono m n rts h b.1)

insert_route-Below :
    (m : ℕ) (rt : Rtentry) (rts : Table)
    → rt.rt_netmask ≤ m
    → Below m rts
    → Below m (insert_route rt rts)
unfolding insert_route
insert_route-Below m rt [] h b = (h, tt)
insert_route-Below m rt (rte ∷ rts) h b = ground (arith, insert_route-Below m rt rts h b.1)

insert_route-IsOrdered :
    (rt : Rtentry) (rts : Table) → IsOrdered rts → IsOrdered (insert_route rt rts)
unfolding insert_route
insert_route-IsOrdered rt [] o = (tt, tt)
insert_route-IsOrdered rt (rte ∷ rts) o = ground (
  arith,
  insert_route-IsOrdered rt rts o.1,
  insert_route-Below rte.rt_netmask rt rts,
  Below-mono rte.rt_netmask rt.rt_netmask rts,
)

-- rt_add keeps the table in order.
pub rt_add-IsOrdered :
    (rts : Table) (net netmask gw metric flags : ℕ) (dev : Netdev)
    → IsOrdered rts
    → IsOrdered (rt_add rts net netmask gw metric flags dev)
unfolding rt_add
rt_add-IsOrdered rts net netmask gw metric flags dev =
    insert_route-IsOrdered (rt_alloc net netmask gw metric flags dev) rts

rt_delete-Below :
    (m : ℕ) (rts : Table) (ip mask : ℕ) → Below m rts → Below m (rt_delete rts ip mask)
unfolding rt_delete
rt_delete-Below m [] ip mask b = tt
rt_delete-Below m (rt ∷ rts) ip mask b = ground (arith, rt_delete-Below m rts ip mask b.1)

-- rt_delete keeps the table in order.
rt_delete-IsOrdered :
    (rts : Table) (ip mask : ℕ) → IsOrdered rts → IsOrdered (rt_delete rts ip mask)
unfolding rt_delete
rt_delete-IsOrdered [] ip mask o = tt
rt_delete-IsOrdered (rt ∷ rts) ip mask o =
    ground
      (arith, rt_delete-IsOrdered rts ip mask o.1, rt_delete-Below rt.rt_netmask rts ip mask o.0)

rt_delete-insert_route :
    (rt : Rtentry) (rts : Table) → rt_delete (insert_route rt rts) rt.rt_net rt.rt_netmask ≡ rts
unfolding insert_route rt_delete
rt_delete-insert_route rt [] = ground arith
rt_delete-insert_route rt (rte ∷ rts) = ground (arith, rt_delete-insert_route rt rts)

-- Deleting a route by its network and mask right after adding it gives the table back, whatever
-- the table holds, an entry of the same network and mask included.
pub rt_delete-rt_add :
    (rts : Table) (net netmask gw metric flags : ℕ) (dev : Netdev)
    → rt_delete (rt_add rts net netmask gw metric flags dev) net netmask ≡ rts
unfolding rt_add
rt_delete-rt_add rts net netmask gw metric flags dev =
    rt_delete-insert_route (rt_alloc net netmask gw metric flags dev) rts
