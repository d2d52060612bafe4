-- ===== src/Arp/Cache/Alloc.antt =====
-- arp_alloc of arp/arp_cache.c: a free entry is found if there is one.
use tapip.Base.{
  ℕ, zero, suc, ◌+◌, ◌-◌, ◌%◌, ◌<◌, ◌≡◌, ◌↔◌, List, none, some, true, false, Option-cases, inl, inr,
  get_elem?, arith,
}
use tapip.Arp.Cache.{ArpEntry, ArpCache, update_at, cache_sz, free_at, fresh, alloc_loop, arp_alloc}
use tapip.Arp.Cache.Inv.{IsValid}

alloc_loop_found :
    (n : ℕ) (entries : List ArpEntry) (next : ℕ)
    → next < cache_sz
    → ((alloc_loop n entries next).1 < cache_sz)
      × ((alloc_loop n entries next).0 ≡ true
          → free_at entries (alloc_loop n entries next).1 ≡ true)
unfolding alloc_loop
alloc_loop_found zero entries next h = (h, λ e. cc)
alloc_loop_found (suc n) entries next h =
    let ih = alloc_loop_found n entries ((next + 1) % cache_sz) (omega arith) in ground (arith, ih)

alloc_loop_missed :
    (n : ℕ) (entries : List ArpEntry) (next k j : ℕ)
    → next < cache_sz
    → k < n
    → j ≡ (next + k) % cache_sz
    → (alloc_loop n entries next).0 ≡ false
    → free_at entries j ≡ false
unfolding alloc_loop
alloc_loop_missed zero entries next k j lt h at e = absurd (omega arith)
alloc_loop_missed (suc n) entries next zero j lt h at e =
    let here : j ≡ next = omega arith in rw here (ground arith)
alloc_loop_missed (suc n) entries next (suc k) j lt h at e =
    alloc_loop_missed n entries ((next + 1) % cache_sz) k j (omega arith) (omega arith)
      (omega arith) (ground arith)

-- Every entry is in use.
abbrev pub IsFull : ArpCache → Type 0
IsFull c = (j : ℕ) → j < cache_sz → free_at c.entries j ≡ false

-- In a valid cache an index that arp_alloc returns is that of an entry that was free; that entry is
-- made fresh, no other is changed, and the
-- next search begins behind it.
pub arp_alloc_found :
    {c : ArpCache} {i : ℕ}
    → IsValid c
    → (arp_alloc c).0 ≡ some i
    → (i < cache_sz)
      × (free_at c.entries i ≡ true)
      × ((arp_alloc c).1.entries ≡ update_at c.entries i fresh)
      × ((arp_alloc c).1.next ≡ (i + 1) % cache_sz)
unfolding arp_alloc
arp_alloc_found {c} {i} v e = ground (arith, alloc_loop_found cache_sz c.entries c.next v.next_in)

-- In a valid cache arp_alloc fails exactly when every entry is in use.
pub arp_alloc-none_iff : {c : ArpCache} → IsValid c → ((arp_alloc c).0 ≡ none) ↔ IsFull c
unfolding arp_alloc
arp_alloc-none_iff {c} v = (
  λ e j lt.
      alloc_loop_missed cache_sz c.entries c.next ((j + cache_sz - c.next) % cache_sz) j v.next_in
        (omega arith) (omega (arith, v.next_in)) (ground (arith, e)),
  λ full.
      let i : ℕ = (alloc_loop cache_sz c.entries c.next).1 in
      ground (arith, alloc_loop_found cache_sz c.entries c.next v.next_in, full i),
)

-- Then it changes no entry.
pub arp_alloc_missed :
    {c : ArpCache}
    → IsValid c
    → (arp_alloc c).0 ≡ none
    → ((arp_alloc c).1.entries ≡ c.entries) × ((arp_alloc c).1.next < cache_sz)
unfolding arp_alloc
arp_alloc_missed {c} v e = ground (arith, alloc_loop_found cache_sz c.entries c.next v.next_in)

pub free_at-some :
    (entries : List ArpEntry) (i : ℕ)
    → free_at entries i ≡ true
    → (ae : ArpEntry) × (get_elem? entries i ≡ some ae)
free_at-some entries i e = elim (Option-cases (get_elem? entries i)) [
  | inl missing ↦ absurd (ground arith)
  | inr found ↦ found
]
