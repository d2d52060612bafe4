-- ===== src/Arp/Cache/Find.antt =====
-- arp_lookup, arp_lookup_resolv and arp_insert of arp/arp_cache.c.
use tapip.Base.{
  ℕ, zero, suc, ◌+◌, ◌%◌, ◌≡◌, ◌≢◌, ◌↔◌, refl, ap, ◌∙◌, List, [], ◌∷◌, none, some, true, false,
  Bool-cases, Option-cases, inl, inr, get_elem?, arith,
}
use tapip.Net.{Netdev}
use tapip.Arp.Cache.{
  ArpEntry, ArpCache, resolved, update_at, cache_sz, fresh, resolve_as, arp_alloc, arp_insert,
  is_entry, lookup_from, arp_lookup, arp_lookup_resolv,
}
use tapip.Arp.Cache.Inv.{
  IsValid, Absent, AllDistinct, length-update_at, AllSound-update_at, AllDistinct-claim,
  get_elem?-update_at_self,
}
use tapip.Arp.Cache.Alloc.{
  IsFull, arp_alloc_found, arp_alloc-none_iff, arp_alloc_missed, free_at-some,
}

lookup_from-none_iff :
    (pro ipaddr i : ℕ) (entries : List ArpEntry)
    → (lookup_from pro ipaddr i entries ≡ none) ↔ Absent pro ipaddr entries
unfolding lookup_from
lookup_from-none_iff pro ipaddr i [] = (λ _. tt, λ _. refl)
lookup_from-none_iff pro ipaddr i (ae ∷ entries) =
    ground (arith, lookup_from-none_iff pro ipaddr (i + 1) entries)

-- arp_lookup fails exactly when no entry in use has the protocol and the address.
pub arp_lookup-none_iff :
    (c : ArpCache) (pro ipaddr : ℕ) → (arp_lookup c pro ipaddr ≡ none) ↔ Absent pro ipaddr c.entries
unfolding arp_lookup
arp_lookup-none_iff c pro ipaddr = lookup_from-none_iff pro ipaddr 0 c.entries

lookup_from_found :
    (pro ipaddr i k : ℕ) (entries : List ArpEntry)
    → lookup_from pro ipaddr i entries ≡ some k
    → (j : ℕ) × (k ≡ i + j)
      × ((ae : ArpEntry) × (get_elem? entries j ≡ some ae) × (is_entry pro ipaddr ae ≡ true))
unfolding lookup_from
lookup_from_found pro ipaddr i k [] e = cc
lookup_from_found pro ipaddr i k (ae ∷ entries) e = elim (Bool-cases (is_entry pro ipaddr ae)) [
  | inl hit ↦ (0, ground arith, (ae, refl, hit))
  | inr miss ↦
      let (j, at, found) = lookup_from_found pro ipaddr (i + 1) k entries (ground arith) in
      (suc j, omega arith, found)
]

-- What arp_lookup returns is the index of an entry in use with the protocol and the address.
pub arp_lookup_found :
    (c : ArpCache) (pro ipaddr : ℕ) {k : ℕ}
    → arp_lookup c pro ipaddr ≡ some k
    → (ae : ArpEntry) × (get_elem? c.entries k ≡ some ae) × (is_entry pro ipaddr ae ≡ true)
unfolding arp_lookup
arp_lookup_found c pro ipaddr {k} e =
    let (j, at, found) = lookup_from_found pro ipaddr 0 k c.entries e in
    (found.0, ap (get_elem? c.entries) (omega arith) ∙ found.1, found.2)

Absent-none_at :
    (pro ipaddr i : ℕ) (entries : List ArpEntry) {ae : ArpEntry}
    → Absent pro ipaddr entries
    → get_elem? entries i ≡ some ae
    → is_entry pro ipaddr ae ≡ true
    → ⊥
Absent-none_at pro ipaddr i [] a e h = cc
Absent-none_at pro ipaddr zero (x ∷ entries) a e h = ground arith
Absent-none_at pro ipaddr (suc i) (x ∷ entries) a e h = Absent-none_at pro ipaddr i entries a.1 e h

-- Two entries in use with one key are one entry: arp_lookup finds the only one there is.
lookup_from_unique :
    (pro ipaddr i k : ℕ) (entries : List ArpEntry) {ae : ArpEntry}
    → AllDistinct entries
    → get_elem? entries k ≡ some ae
    → is_entry pro ipaddr ae ≡ true
    → lookup_from pro ipaddr i entries ≡ some (i + k)
unfolding lookup_from
lookup_from_unique pro ipaddr i k [] d e h = cc
lookup_from_unique pro ipaddr i zero (x ∷ entries) {ae} d e h = ground arith
lookup_from_unique pro ipaddr i (suc k) (x ∷ entries) {ae} d e h =
    elim (Bool-cases (is_entry pro ipaddr x)) [
      | inl hit ↦ absurd (
          Absent-none_at x.ae_pro x.ae_ipaddr k entries {ae = ae} (d.0 (ground arith)) e
            (ground arith))
      | inr miss ↦ rw miss (
          lookup_from_unique pro ipaddr (i + 1) k entries {ae = ae} d.1 e h ∙ ap some (omega arith))
    ]

-- In a cache without doubles, the entry in use that has a key is the one that arp_lookup finds.
pub arp_lookup_unique :
    {c : ArpCache} (pro ipaddr k : ℕ) {ae : ArpEntry}
    → IsValid c
    → get_elem? c.entries k ≡ some ae
    → is_entry pro ipaddr ae ≡ true
    → arp_lookup c pro ipaddr ≡ some k
unfolding arp_lookup
arp_lookup_unique {c} pro ipaddr k {ae} v e h =
    lookup_from_unique pro ipaddr 0 k c.entries {ae = ae} v.distinct e h ∙ ap some (omega arith)

-- arp_lookup_resolv compares the protocol where it should compare the state: for every protocol
-- but number 3, IP among them, it finds nothing, whatever the cache holds.
arp_lookup_resolv-none :
    (c : ArpCache) (pro ipaddr : ℕ) → pro ≢ 3 → arp_lookup_resolv c pro ipaddr ≡ none
unfolding arp_lookup_resolv
arp_lookup_resolv-none c pro ipaddr h = elim (Option-cases (arp_lookup c pro ipaddr)) [
  | inl e ↦ rw (e, arp_lookup_resolv) refl
  | inr (k, e) ↦
      let (ae, at, hit) = arp_lookup_found c pro ipaddr {k = k} e in
      rw (e, at, arp_lookup_resolv) (ground arith)
]

pub update_at-update_at :
    (entries : List ArpEntry) (i : ℕ) (f g : ArpEntry → ArpEntry)
    → update_at (update_at entries i f) i g ≡ update_at entries i (λ ae. g (f ae))
update_at-update_at [] i f g = refl
update_at-update_at (ae ∷ entries) zero f g = refl
update_at-update_at (ae ∷ entries) (suc i) f g =
    ap (λ r. ae ∷ r) (update_at-update_at entries i f g)

module _ (c : ArpCache) (nd : Netdev) (pro ipaddr : ℕ) (hwaddr : List ℕ) where
  abbrev filled : ArpEntry → ArpEntry
  filled ae = resolve_as nd pro ipaddr hwaddr (fresh ae)

  -- arp_insert fails exactly when every entry is in use.
  pub arp_insert-false_iff : IsValid c → ((arp_insert c nd pro ipaddr hwaddr).0 ≡ false) ↔ IsFull c
  unfolding arp_insert
  arp_insert-false_iff v = elim (Option-cases (arp_alloc c).0) [
    | inl e ↦ ground (arith, arp_alloc-none_iff v)
    | inr (i, e) ↦ ground (arith, arp_alloc-none_iff v)
  ]

  entries-arp_insert :
      {i : ℕ}
      → IsValid c
      → (arp_alloc c).0 ≡ some i
      → ((arp_insert c nd pro ipaddr hwaddr).1.entries ≡ update_at c.entries i filled)
        × ((arp_insert c nd pro ipaddr hwaddr).1.next ≡ (i + 1) % cache_sz)
  unfolding arp_insert
  entries-arp_insert {i} v e =
      let (lt, f, at, n) = arp_alloc_found {i = i} v e in
      rw (e, arp_insert)
        (
          ap (λ l. update_at l i (resolve_as nd pro ipaddr hwaddr)) at
              ∙ update_at-update_at c.entries i fresh (resolve_as nd pro ipaddr hwaddr),
          n,
        )

  -- Inserting a key that is not in use keeps the cache valid.
  pub arp_insert-IsValid :
      IsValid c → Absent pro ipaddr c.entries → IsValid (arp_insert c nd pro ipaddr hwaddr).1
  unfolding arp_insert
  arp_insert-IsValid v a = elim (Option-cases (arp_alloc c).0) [
    | inl e ↦
        let (es, n) = arp_alloc_missed v e in
        rw (e, arp_insert)
          (record {
            sized = rw es v.sized;
            next_in = n;
            sound = rw es v.sound;
            distinct = rw es v.distinct;
          })
    | inr (i, e) ↦
        let (es, n) = entries-arp_insert {i = i} v e in
        record {
          sized = rw es (length-update_at c.entries i filled ∙ v.sized);
          next_in = rw n (omega arith);
          sound =
              rw es (AllSound-update_at c.entries i filled (λ ae _. (λ h. cc, λ _. refl)) v.sound);
          distinct =
              rw es (
                AllDistinct-claim pro ipaddr c.entries i filled (λ ae _. (refl, refl)) a
                  v.distinct);
        }
  ]

  -- After a successful arp_insert into a valid cache that did not have the key, arp_lookup finds the
  -- key, in an entry that is resolved and has the hardware address.
  pub arp_lookup-arp_insert :
      IsValid c
      → Absent pro ipaddr c.entries
      → (arp_insert c nd pro ipaddr hwaddr).0 ≡ true
      → (i : ℕ) × (arp_lookup (arp_insert c nd pro ipaddr hwaddr).1 pro ipaddr ≡ some i)
        × ((ae : ArpEntry) × (get_elem? (arp_insert c nd pro ipaddr hwaddr).1.entries i ≡ some ae)
            × (ae.ae_state ≡ resolved)
            × (ae.ae_hwaddr ≡ hwaddr))
  arp_lookup-arp_insert v a done = elim (Option-cases (arp_alloc c).0) [
    | inl e ↦ absurd (failed e)
    | inr (i, e) ↦
        let (es, n) = entries-arp_insert {i = i} v e in
        let (lt, idle, at, m) = arp_alloc_found {i = i} v e in
        let (ae, here) = free_at-some c.entries i idle in
        let now =
          ap (λ l. get_elem? l i) es ∙ get_elem?-update_at_self c.entries i filled {ae = ae} here in
        (
          i,
          arp_lookup_unique pro ipaddr i {ae = filled ae} (arp_insert-IsValid v a) now
              (ground arith),
          (filled ae, now, refl, refl),
        )
  ]
    where
      failed : (arp_alloc c).0 ≡ none → ⊥
      failed e = unfold arp_insert in ground arith
