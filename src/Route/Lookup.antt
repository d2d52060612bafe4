-- ===== src/Route/Lookup.antt =====
-- rt_lookup of ip/route.c finds the entry of the longest mask.
use tapip.Base.{
  ℕ, ◌≤◌, ◌≡◌, ◌↔◌, inl, inr, refl, sym, [], ◌∷◌, Option, none, some, true, false, ltb, arith, leb,
  if◌then◌else◌, Bool-cases, Option-cases, leb→le,
}
use mathlib.Core.List.{Memᴰ}
use mathlib.Core.Path.{subst}
use tapip.Net.{Netdev, Rtentry}
use tapip.Route.{Table, covers, rt_lookup, rt_alloc, insert_route, rt_add}
use tapip.Route.Order.{Below, Below-mono, IsOrdered}

-- All entries that cover the address have a mask of at most m.
abbrev pub Covered : ℕ → ℕ → Table → Type 0
Covered ipaddr m [] = Unit {0}
Covered ipaddr m (rt ∷ rts) = (covers rt ipaddr ≡ true → rt.rt_netmask ≤ m) × Covered ipaddr m rts

abbrev pub Uncovered : ℕ → Table → Type 0
Uncovered ipaddr [] = Unit {0}
Uncovered ipaddr (rt ∷ rts) = (covers rt ipaddr ≡ false) × Uncovered ipaddr rts

Below-Covered : (ipaddr m : ℕ) (rts : Table) → Below m rts → Covered ipaddr m rts
Below-Covered ipaddr m [] b = tt
Below-Covered ipaddr m (rt ∷ rts) b = (λ _. b.0, Below-Covered ipaddr m rts b.1)

-- What rt_lookup returns from a table in order is an entry of the table that covers the address,
-- and no entry that covers the address has a longer mask.
pub rt_lookup-longest :
    (rts : Table) (ipaddr : ℕ) {rt : Rtentry}
    → IsOrdered rts
    → rt_lookup rts ipaddr ≡ some rt
    → Memᴰ rt rts × (covers rt ipaddr ≡ true) × Covered ipaddr rt.rt_netmask rts
unfolding rt_lookup
rt_lookup-longest [] ipaddr o e = cc
rt_lookup-longest (rte ∷ rts) ipaddr {rt} o e = elim (Bool-cases (covers rte ipaddr)) [
  | inl fits ↦
      let first : rte ≡ rt = ground arith in
      subst
        (λ r.
          Memᴰ r (rte ∷ rts) × (covers r ipaddr ≡ true) × Covered ipaddr r.rt_netmask (rte ∷ rts))
        first
        (Memᴰ.head refl, fits, (λ _. omega arith, Below-Covered ipaddr rte.rt_netmask rts o.0))
  | inr misses ↦
      let (member, fits, longest) = rt_lookup-longest rts ipaddr {rt = rt} o.1 (rw misses at e) in
      (Memᴰ.tail member, fits, (λ h. cc, longest))
]

-- rt_lookup fails exactly when no entry covers the address.
pub rt_lookup-none_iff :
    (rts : Table) (ipaddr : ℕ) → (rt_lookup rts ipaddr ≡ none) ↔ Uncovered ipaddr rts
unfolding rt_lookup
rt_lookup-none_iff [] ipaddr = (λ _. tt, λ _. refl)
rt_lookup-none_iff (rt ∷ rts) ipaddr = ground (arith, rt_lookup-none_iff rts ipaddr)

-- What rt_lookup finds once an entry has been added to what it found before.
abbrev pub prefer : Rtentry → ℕ → Option Rtentry → Option Rtentry
prefer new ipaddr none = if covers new ipaddr then some new else none
prefer new ipaddr (some old) =
    if ltb new.rt_netmask old.rt_netmask
    then some old
    else if covers new ipaddr
    then some new
    else some old

rt_lookup-Below :
    (m : ℕ) (rts : Table) (ipaddr : ℕ) {old : Rtentry}
    → Below m rts
    → rt_lookup rts ipaddr ≡ some old
    → old.rt_netmask ≤ m
unfolding rt_lookup
rt_lookup-Below m [] ipaddr b e = cc
rt_lookup-Below m (rt ∷ rts) ipaddr {old} b e =
    ground (arith, rt_lookup-Below m rts ipaddr {old = old} b.1)

prefer_new :
    (new : Rtentry) (rts : Table) (ipaddr : ℕ)
    → Below new.rt_netmask rts
    → prefer new ipaddr (rt_lookup rts ipaddr)
      ≡ (if covers new ipaddr then some new else rt_lookup rts ipaddr)
prefer_new new rts ipaddr b = elim (Option-cases (rt_lookup rts ipaddr)) [
  | inl e ↦ rw e refl
  | inr (old, e) ↦ rw e (ground (arith, rt_lookup-Below new.rt_netmask rts ipaddr {old = old} b e))
]

rt_lookup-insert_route :
    (new : Rtentry) (rts : Table) (ipaddr : ℕ)
    → IsOrdered rts
    → rt_lookup (insert_route new rts) ipaddr ≡ prefer new ipaddr (rt_lookup rts ipaddr)
unfolding rt_lookup insert_route
rt_lookup-insert_route new [] ipaddr o = refl
rt_lookup-insert_route new (rt ∷ rts) ipaddr o =
    elim (Bool-cases (leb rt.rt_netmask new.rt_netmask)) [
      | inl le ↦ rw le (
          sym (
            prefer_new new (rt ∷ rts) ipaddr
              (leb→le _ _ le, Below-mono rt.rt_netmask new.rt_netmask rts (leb→le _ _ le) o.0)))
      | inr gt ↦ ground (arith, rt_lookup-insert_route new rts ipaddr o.1)
    ]

-- In a table in order, adding a route changes the lookup of exactly those addresses that it covers
-- and that no route of a longer mask did: they now find the new route.
pub rt_lookup-rt_add :
    (rts : Table) (net netmask gw metric flags : ℕ) (dev : Netdev) (ipaddr : ℕ)
    → IsOrdered rts
    → rt_lookup (rt_add rts net netmask gw metric flags dev) ipaddr
      ≡ prefer (rt_alloc net netmask gw metric flags dev) ipaddr (rt_lookup rts ipaddr)
unfolding rt_add
rt_lookup-rt_add rts net netmask gw metric flags dev =
    rt_lookup-insert_route (rt_alloc net netmask gw metric flags dev) rts
