-- ===== src/Ip/Out/Asked.antt =====
-- ip_send_dev of ip/ip_out.c: the cache with a new entry for a next hop.
use tapip.Base.{ℕ, ◌≡◌, refl, ap, ◌∙◌, List, [], ◌∷◌, none, some, get_elem?, arith}
use tapip.Net.{Netdev, Pkbuf, Event, tx_ip, tx_arp, eth_p_ip}
use tapip.Arp.Cache.{
  ArpCache, ArpEntry, fresh, update_at, modify, arp_alloc, arp_lookup, arp_request, brd_hwaddr,
  queue_send,
}
use tapip.Arp.Cache.Inv.{
  IsValid, AllSound-update_at, AllDistinct-claim, length-update_at, get_elem?-update_at_self,
}
use tapip.Arp.Cache.Alloc.{arp_alloc_found, free_at-some}
use tapip.Arp.Cache.Find.{arp_lookup-none_iff, arp_lookup_unique, update_at-update_at}
use tapip.Arp.Packet.{op_request, update_entry}
use tapip.Ip.Out.{ask_for, request_at, send_to}

-- the broadcast that asks for the hardware address of a next hop
abbrev pub request_for : Netdev → ℕ → Event
request_for dev dst =
    tx_arp dev
      (record {
        arp_hrd = 1;
        arp_pro = eth_p_ip;
        arp_hrdlen = 6;
        arp_prolen = 4;
        arp_op = op_request;
        arp_sha = dev.net_hwaddr;
        arp_sip = dev.net_ipaddr;
        arp_tha = brd_hwaddr;
        arp_tip = dst;
      })
      brd_hwaddr

-- A new entry for a next hop that the cache does not know.
module _ {c : ArpCache} (v : IsValid c) (dev : Netdev) (pkb : Pkbuf) (dst : ℕ)
    (miss : arp_lookup c eth_p_ip dst ≡ none) {i : ℕ} (got : (arp_alloc c).0 ≡ some i) where
  abbrev pub asked : ArpCache
  asked = modify (arp_alloc c).1 i (ask_for dev dst pkb)

  abbrev pending : ArpEntry → ArpEntry
  pending ae = ask_for dev dst pkb (fresh ae)

  entries-asked : asked.entries ≡ update_at c.entries i pending
  entries-asked =
      let (lt, idle, at, n) = arp_alloc_found {i = i} v got in
      ap (λ l. update_at l i (ask_for dev dst pkb)) at
      ∙ update_at-update_at c.entries i fresh (ask_for dev dst pkb)

  pub asked-IsValid : IsValid asked
  asked-IsValid =
      let (lt, idle, at, n) = arp_alloc_found {i = i} v got in
      record {
        sized = rw entries-asked (length-update_at c.entries i pending ∙ v.sized);
        next_in = rw n (omega arith);
        sound = rw entries-asked (
            AllSound-update_at c.entries i pending (λ ae _. (λ _ h. cc, λ h. absurd (h refl)))
              v.sound);
        distinct = rw entries-asked (
            AllDistinct-claim eth_p_ip dst c.entries i pending (λ ae _. (refl, refl))
              ((arp_lookup-none_iff c eth_p_ip dst).0 miss) v.distinct);
      }

  asked_at : (ae : ArpEntry) × (get_elem? asked.entries i ≡ some (pending ae))
  asked_at =
      let (lt, idle, at, n) = arp_alloc_found {i = i} v got in
      let (ae, here) = free_at-some c.entries i idle in
      (
        ae,
        ap (λ l. get_elem? l i) entries-asked
            ∙ get_elem?-update_at_self c.entries i pending {ae = ae} here,
      )

  pub arp_lookup-asked : arp_lookup asked eth_p_ip dst ≡ some i
  arp_lookup-asked =
      let (ae, here) = asked_at in
      arp_lookup_unique eth_p_ip dst i {ae = pending ae} asked-IsValid here (ground arith)

  pub send_to-asked : send_to c dev pkb dst none ≡ (asked, request_for dev dst ∷ [])
  unfolding send_to arp_request
  send_to-asked =
      let (ae, here) = asked_at in
      rw (got, send_to) (ap (λ e. (asked, e ∷ [])) (rw (here, request_at) refl))

  -- The entry as the reply finds it sends the packet.
  pub update_entry-asked :
      (hwaddr : List ℕ) → (update_entry asked i hwaddr).1 ≡ tx_ip dev pkb pkb.pk_pro hwaddr ∷ []
  unfolding update_entry queue_send
  update_entry-asked hwaddr = let (ae, here) = asked_at in rw (here, update_entry) refl
