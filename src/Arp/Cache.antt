-- ===== src/Arp/Cache.antt =====
-- arp/arp_cache.c: a table of ARP_CACHE_SZ entries; a pointer to an entry is its index.
pub mod Inv
pub mod Alloc
pub mod Find
pub mod Timer
use tapip.Base.{
  ℕ, zero, suc, ◌+◌, ◌-◌, ◌%◌, List, [], ◌∷◌, ◌++◌, Option, none, some, Bool, true, false, ◌==◌,
  leb, if◌then◌else◌, ◌&&◌, ◌||◌, not, get_elem?, set, replicate, map,
}
use tapip.Net.{Netdev, Pkbuf, Arp, Event, tx_ip, tx_arp, freed, fault, eth_p_ip}

abbrev pub cache_sz : ℕ
cache_sz = 20

abbrev pub arp_timeout : ℕ
arp_timeout = 600

abbrev pub arp_waittime : ℕ
arp_waittime = 1

abbrev pub req_retry : ℕ
req_retry = 4

-- ARP_FREE, ARP_WAITING, ARP_RESOLVED
pub data ArpState : Type 0 where
  free waiting resolved : ArpState

abbrev pub is_free : ArpState → Bool
is_free free = true
is_free _ = false

-- ae_ttl and ae_retry are ints that fall below 0 only as the entry is freed, where nothing reads
-- them any more.
pub record ArpEntry : Type 0 where
  pub ae_list : List Pkbuf
  pub ae_dev : Option Netdev
  pub ae_retry : ℕ
  pub ae_ttl : ℕ
  pub ae_state : ArpState
  pub ae_pro : ℕ
  pub ae_ipaddr : ℕ
  pub ae_hwaddr : List ℕ

-- the array with the static variable of arp_alloc
pub record ArpCache : Type 0 where
  pub entries : List ArpEntry
  pub next : ℕ

abbrev pub blank : ArpEntry
blank = record {
  ae_list = [];
  ae_dev = none;
  ae_retry = 0;
  ae_ttl = 0;
  ae_state = free;
  ae_pro = 0;
  ae_ipaddr = 0;
  ae_hwaddr = replicate 6 0;
}

unfoldable pub arp_cache_init : ArpCache
arp_cache_init = record { entries = replicate cache_sz blank; next = 0 }

-- arp_queue_send and arp_queue_drop empty the list of packets from its front.
unfoldable pub queue_send : Option Netdev → List ℕ → List Pkbuf → List Event
queue_send dev hwaddr [] = []
queue_send none hwaddr (pkb ∷ pkbs) = fault ∷ queue_send none hwaddr pkbs
queue_send (some dev) hwaddr (pkb ∷ pkbs) =
    tx_ip dev pkb pkb.pk_pro hwaddr ∷ queue_send (some dev) hwaddr pkbs

unfoldable pub queue_drop : List Pkbuf → List Event
queue_drop [] = []
queue_drop (pkb ∷ pkbs) = freed pkb ∷ queue_drop pkbs

-- the test of the round-robin loop, at an index inside the array
abbrev pub free_at : List ArpEntry → ℕ → Bool
free_at entries i = elim (get_elem? entries i) [ none ↦ false | some ae ↦ is_free ae.ae_state ]

-- The loop with n rounds left: whether it broke off at a free entry, and the final `next`.
unfoldable pub alloc_loop : ℕ → List ArpEntry → ℕ → Bool × ℕ
alloc_loop zero entries next = (false, next)
alloc_loop (suc n) entries next =
    let rest = alloc_loop n entries ((next + 1) % cache_sz) in
    if free_at entries next then (true, next) else rest

abbrev pub fresh : ArpEntry → ArpEntry
fresh ae = record ae {
  ae_dev = none;
  ae_retry = req_retry;
  ae_ttl = arp_waittime;
  ae_state = waiting;
  ae_pro = eth_p_ip;
  ae_list = [];
}

abbrev pub update_at : List ArpEntry → ℕ → (ArpEntry → ArpEntry) → List ArpEntry
update_at [] i f = []
update_at (ae ∷ entries) zero f = f ae ∷ entries
update_at (ae ∷ entries) (suc i) f = ae ∷ update_at entries i f

-- the body behind an entry's pointer is changed
abbrev pub modify : ArpCache → ℕ → (ArpEntry → ArpEntry) → ArpCache
modify c i f = record c { entries = update_at c.entries i f }

unfoldable pub arp_alloc : ArpCache → Option ℕ × ArpCache
arp_alloc c =
    let (found, i) = alloc_loop cache_sz c.entries c.next in
    if found
    then (some i, record { entries = update_at c.entries i fresh; next = (i + 1) % cache_sz })
    else (none, record c { next = i })

-- what arp_insert stores in a new entry
abbrev pub resolve_as : Netdev → ℕ → ℕ → List ℕ → ArpEntry → ArpEntry
resolve_as nd pro ipaddr hwaddr ae = record ae {
  ae_dev = some nd;
  ae_pro = pro;
  ae_ttl = arp_timeout;
  ae_ipaddr = ipaddr;
  ae_state = resolved;
  ae_hwaddr = hwaddr;
}

-- `false` is the -1 of a full cache.
unfoldable pub arp_insert : ArpCache → Netdev → ℕ → ℕ → List ℕ → Bool × ArpCache
arp_insert c nd pro ipaddr hwaddr =
    let (ae, c') = arp_alloc c in
    elim ae [ none ↦ (false, c') | some i ↦ (true, modify c' i (resolve_as nd pro ipaddr hwaddr)) ]

-- the test of arp_lookup
abbrev pub is_entry : ℕ → ℕ → ArpEntry → Bool
is_entry pro ipaddr ae = not (is_free ae.ae_state) && (ae.ae_pro == pro && ae.ae_ipaddr == ipaddr)

pub lookup_from : ℕ → ℕ → ℕ → List ArpEntry → Option ℕ
lookup_from pro ipaddr i [] = none
lookup_from pro ipaddr i (ae ∷ entries) =
    if is_entry pro ipaddr ae then some i else lookup_from pro ipaddr (i + 1) entries

unfoldable pub arp_lookup : ArpCache → ℕ → ℕ → Option ℕ
arp_lookup c pro ipaddr = lookup_from pro ipaddr 0 c.entries

-- The protocol is compared with ARP_RESOLVED, as in the source.
unfoldable pub arp_lookup_resolv : ArpCache → ℕ → ℕ → Option ℕ
arp_lookup_resolv c pro ipaddr = elim (arp_lookup c pro ipaddr) [
  | none ↦ none
  | some i ↦ elim (get_elem? c.entries i) [
    | none ↦ none
    | some ae ↦ if ae.ae_pro == 3 then some i else none
  ]
]

abbrev pub brd_hwaddr : List ℕ
brd_hwaddr = replicate 6 0xff

-- arp_request of arp/arp.c
unfoldable pub arp_request : ArpEntry → Event
arp_request ae = elim (ae.ae_dev) [
  | none ↦ fault
  | some dev ↦
      tx_arp dev
        (record {
          arp_hrd = 1;
          arp_pro = eth_p_ip;
          arp_hrdlen = 6;
          arp_prolen = 4;
          arp_op = 1;
          arp_sha = dev.net_hwaddr;
          arp_sip = dev.net_ipaddr;
          arp_tha = brd_hwaddr;
          arp_tip = ae.ae_ipaddr;
        })
        brd_hwaddr
]

-- The body of arp_timer for one entry: an entry whose time is up is asked for again, or freed.
pub expire : ArpState → ArpEntry → ArpEntry × List Event
expire free ae = (ae, [])
expire resolved ae = (record ae { ae_state = free }, [])
expire waiting ae =
    if ae.ae_retry == 0
    then (record ae { ae_state = free; ae_list = [] }, queue_drop ae.ae_list)
    else let ae' = record ae { ae_retry = ae.ae_retry - 1; ae_ttl = arp_waittime } in
      (ae', arp_request ae' ∷ [])

pub timer_entry : ℕ → ArpEntry → ArpEntry × List Event
timer_entry delta ae =
    if is_free ae.ae_state
    then (ae, [])
    else let ae' = record ae { ae_ttl = ae.ae_ttl - delta } in
      if leb ae.ae_ttl delta then expire ae.ae_state ae' else (ae', [])

pub timer_entries : ℕ → List ArpEntry → List ArpEntry × List Event
timer_entries delta [] = ([], [])
timer_entries delta (ae ∷ entries) =
    let (ae', out) = timer_entry delta ae in
    let (rest, outs) = timer_entries delta entries in (ae' ∷ rest, out ++ outs)

pub arp_timer : ℕ → ArpCache → ArpCache × List Event
arp_timer delta c =
    let (entries, out) = timer_entries delta c.entries in (record c { entries = entries }, out)
