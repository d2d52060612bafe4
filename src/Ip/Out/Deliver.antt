-- ===== src/Ip/Out/Deliver.antt =====
-- ip_send_dev of ip/ip_out.c against the ARP cache: what becomes of a packet.
use tapip.Base.{
  ℕ, ◌≡◌, ◌≢◌, refl, sym, ap, ◌∙◌, List, [], ◌∷◌, ◌++◌, Option, none, some, true, false, Bool-cases,
  Option-cases, inl, inr, get_elem?, arith,
}
use tapip.Net.{Netdev, Rtentry, Pkbuf, Arp, Event, tx_ip, freed_arp, eth_p_ip, is_multicast}
use tapip.Arp.Cache.{ArpCache, ArpEntry, ArpState, free, waiting, resolved, arp_alloc, arp_lookup}
use tapip.Arp.Cache.Inv.{
  IsValid, IsSound, AllSound-update_at, AllSound-at, AllDistinct-update_at, length-update_at,
}
use tapip.Arp.Cache.Alloc.{IsFull, arp_alloc_missed, arp_alloc-none_iff}
use tapip.Arp.Cache.Find.{arp_lookup_found}
use tapip.Arp.Cache.Timer.{NoFault}
use tapip.Arp.Packet.{ArpPkb, op_reply, update_entry, learn, arp_recv, arp_accepts, arp_in}
use tapip.Ip.Out.{is_localhost, next_hop, enqueue, send_found, send_to, send_by, ip_send_dev}
use mathlib.Core.Path.{subst}
use tapip.Ip.Out.Asked.{
  request_for, asked, asked-IsValid, arp_lookup-asked, send_to-asked, update_entry-asked,
}

enqueue-IsSound :
    (pkb : Pkbuf) (ae : ArpEntry) → ae.ae_state ≡ waiting → IsSound ae → IsSound (enqueue pkb ae)
enqueue-IsSound pkb ae st s = (s.0, λ h. absurd (h st))

send_found-IsValid :
    {c : ArpCache} (dev : Netdev) (pkb : Pkbuf) (i : ℕ)
    → IsValid c
    → {ae : ArpEntry} → get_elem? c.entries i ≡ some ae
    → IsValid (send_found c dev pkb i ae.ae_hwaddr ae.ae_state).0
      × NoFault (send_found c dev pkb i ae.ae_hwaddr ae.ae_state).1
unfolding send_found
send_found-IsValid {c} dev pkb i v {ae} at = by_state (ae.ae_state) refl
  where
    by_state :
        (st : ArpState)
        → ae.ae_state ≡ st
        → IsValid (send_found c dev pkb i ae.ae_hwaddr st).0
          × NoFault (send_found c dev pkb i ae.ae_hwaddr st).1
    by_state free st = (v, ((λ h. cc), tt))
    by_state resolved st = (v, ((λ h. cc), tt))
    by_state waiting st = (
      record {
        sized = length-update_at c.entries i (enqueue pkb) ∙ v.sized;
        next_in = v.next_in;
        sound =
            AllSound-update_at c.entries i (enqueue pkb)
              (λ x here.
                enqueue-IsSound pkb x (ground arith)
                  (AllSound-at c.entries i {ae = x} v.sound here))
              v.sound;
        distinct =
            AllDistinct-update_at c.entries i (enqueue pkb)
              (λ x here. record { in_use = λ b. b; same_pro = refl; same_ipaddr = refl })
              v.distinct;
      },
      tt,
    )

send_to-IsValid :
    {c : ArpCache} (dev : Netdev) (pkb : Pkbuf) (dst : ℕ) (r : Option ℕ)
    → IsValid c
    → arp_lookup c eth_p_ip dst ≡ r
    → IsValid (send_to c dev pkb dst r).0 × NoFault (send_to c dev pkb dst r).1
unfolding send_to
send_to-IsValid {c} dev pkb dst none v e = elim (Option-cases (arp_alloc c).0) [
  | inl full ↦
      let (es, n) = arp_alloc_missed v full in
      rw (full, send_to)
        (
          record {
            sized = rw es v.sized;
            next_in = n;
            sound = rw es v.sound;
            distinct = rw es v.distinct;
          },
          ((λ h. cc), tt),
        )
  | inr (i, got) ↦
      rw (send_to-asked v dev pkb dst e {i = i} got, send_to)
        (asked-IsValid v dev pkb dst e {i = i} got, ((λ h. cc), tt))
]
send_to-IsValid {c} dev pkb dst (some i) v e =
    let (ae, at, hit) = arp_lookup_found c eth_p_ip dst {k = i} e in
    rw (at, send_to) (send_found-IsValid dev pkb i v {ae = ae} at)

send_by-IsValid :
    {c : ArpCache} (dev : Netdev) (pkb : Pkbuf) (rt : Rtentry)
    → IsValid c
    → IsValid (send_by c dev pkb (some rt)).0 × NoFault (send_by c dev pkb (some rt)).1
unfolding send_by
send_by-IsValid {c} dev pkb rt v = elim (Bool-cases (is_localhost rt)) [
  | inl local ↦ rw local (v, ((λ h. cc), tt))
  | inr remote ↦ rw remote (
      send_to-IsValid dev pkb (next_hop rt pkb.ip) (arp_lookup c eth_p_ip (next_hop rt pkb.ip)) v
        refl)
]

-- Sending a routed packet keeps a valid ARP cache valid and follows no null pointer.
pub ip_send_dev-IsValid :
    {c : ArpCache} (dev : Netdev) (pkb : Pkbuf)
    → IsValid c
    → pkb.pk_rtdst ≢ none
    → IsValid (ip_send_dev c dev pkb).0 × NoFault (ip_send_dev c dev pkb).1
unfolding ip_send_dev
ip_send_dev-IsValid {c} dev pkb v h = elim (Option-cases (pkb.pk_rtdst)) [
  | inl e ↦ absurd (h e)
  | inr (rt, e) ↦
      subst (λ r. IsValid (send_by c dev pkb r).0 × NoFault (send_by c dev pkb r).1) (sym e)
        (send_by-IsValid dev pkb rt v)
]

accepts_ip : (pkb : ArpPkb) → arp_accepts pkb ≡ true → pkb.arp.arp_pro ≡ eth_p_ip
unfolding arp_accepts
accepts_ip pkb ok = ground arith

learn_hit :
    (c : ArpCache) (dev : Netdev) (ahdr : Arp) {i : ℕ}
    → ahdr.arp_pro ≡ eth_p_ip
    → arp_lookup c eth_p_ip ahdr.arp_sip ≡ some i
    → learn c dev ahdr ≡ update_entry c i ahdr.arp_sha
unfolding learn
learn_hit c dev ahdr {i} ip hit =
    rw (ap (λ pro. arp_lookup c pro ahdr.arp_sip) ip ∙ hit, learn) refl

arp_recv_replied :
    (c : ArpCache) (dev : Netdev) (pkb : ArpPkb)
    → pkb.arp.arp_op ≡ op_reply
    → pkb.arp.arp_tip ≡ dev.net_ipaddr
    → is_multicast pkb.arp.arp_tip ≡ false
    → arp_recv c dev pkb
      ≡ ((learn c dev pkb.arp).0, (learn c dev pkb.arp).1 ++ (freed_arp pkb.arp ∷ []))
unfolding arp_recv
arp_recv_replied c dev pkb answers ours single = ground arith

arp_in_replied :
    (c : ArpCache) (dev : Netdev) (reply : ArpPkb) {i : ℕ} {out : List Event}
    → arp_accepts reply ≡ true
    → reply.arp.arp_op ≡ op_reply
    → reply.arp.arp_tip ≡ dev.net_ipaddr
    → is_multicast reply.arp.arp_tip ≡ false
    → arp_lookup c eth_p_ip reply.arp.arp_sip ≡ some i
    → (update_entry c i reply.arp.arp_sha).1 ≡ out
    → (arp_in c dev reply).1 ≡ out ++ (freed_arp reply.arp ∷ [])
unfolding arp_in
arp_in_replied c dev reply {i} {out} ok answers ours single hit e = rw ok (
    ap (λ p. p.1) (arp_recv_replied c dev reply answers ours single)
    ∙ ap (λ (p : ArpCache × List Event). p.1 ++ (freed_arp reply.arp ∷ []))
        (learn_hit c dev reply.arp {i = i} (accepts_ip reply ok) hit)
    ∙ ap (λ o. o ++ (freed_arp reply.arp ∷ [])) e)

sent_asked :
    {c : ArpCache} (v : IsValid c) (dev : Netdev) (pkb : Pkbuf) {rt : Rtentry}
    → pkb.pk_rtdst ≡ some rt
    → is_localhost rt ≡ false
    → (miss : arp_lookup c eth_p_ip (next_hop rt pkb.ip) ≡ none) {i : ℕ}
      (got : (arp_alloc c).0 ≡ some i)
    → ip_send_dev c dev pkb ≡ (
      asked v dev pkb (next_hop rt pkb.ip) miss {i = i} got,
      request_for dev (next_hop rt pkb.ip) ∷ [],
    )
unfolding ip_send_dev send_by
sent_asked {c} v dev pkb {rt} routed remote miss {i} got =
    ap (send_by c dev pkb) routed
    ∙ rw (remote, miss, send_by) (send_to-asked v dev pkb (next_hop rt pkb.ip) miss {i = i} got)

-- A routed packet for a next hop that a valid cache does not know, while an entry is free, is kept,
-- and a request for the next hop is broadcast, and nothing else is sent. If what comes in next is
-- a reply from the next hop for the device's address that arp_in accepts, the packet is sent to the
-- hardware address that the reply gives.
pub ip_send_dev_delivers :
    {c : ArpCache} (dev : Netdev) (pkb : Pkbuf) (reply : ArpPkb) {rt : Rtentry}
    → IsValid c
    → ¬ IsFull c
    → pkb.pk_rtdst ≡ some rt
    → is_localhost rt ≡ false
    → arp_lookup c eth_p_ip (next_hop rt pkb.ip) ≡ none
    → arp_accepts reply ≡ true
    → reply.arp.arp_op ≡ op_reply
    → reply.arp.arp_sip ≡ next_hop rt pkb.ip
    → reply.arp.arp_tip ≡ dev.net_ipaddr
    → is_multicast reply.arp.arp_tip ≡ false
    → ((ip_send_dev c dev pkb).1 ≡ request_for dev (next_hop rt pkb.ip) ∷ [])
      × ((arp_in (ip_send_dev c dev pkb).0 dev reply).1
          ≡ tx_ip dev pkb pkb.pk_pro reply.arp.arp_sha ∷ freed_arp reply.arp ∷ [])
unfolding ip_send_dev
ip_send_dev_delivers {c} dev pkb reply {rt} v room routed remote miss ok answers from ours single =
    elim (Option-cases (arp_alloc c).0) [
      | inl full ↦ absurd (room ((arp_alloc-none_iff v).0 full))
      | inr (i, got) ↦ delivered i got
    ]
  where
    delivered :
        (i : ℕ)
        → (arp_alloc c).0 ≡ some i
        → ((ip_send_dev c dev pkb).1 ≡ request_for dev (next_hop rt pkb.ip) ∷ [])
          × ((arp_in (ip_send_dev c dev pkb).0 dev reply).1
              ≡ tx_ip dev pkb pkb.pk_pro reply.arp.arp_sha ∷ freed_arp reply.arp ∷ [])
    delivered i got =
        let sent = sent_asked v dev pkb {rt = rt} routed remote miss {i = i} got in
        (
          ap (λ p. p.1) sent,
          ap (λ (p : ArpCache × List Event). (arp_in p.0 dev reply).1) sent
              ∙ arp_in_replied (asked v dev pkb (next_hop rt pkb.ip) miss {i = i} got) dev reply
                  {i = i} ok answers ours single
                  (ap (arp_lookup (asked v dev pkb (next_hop rt pkb.ip) miss {i = i} got) eth_p_ip)
                      from
                    ∙ arp_lookup-asked v dev pkb (next_hop rt pkb.ip) miss {i = i} got)
                  (update_entry-asked v dev pkb (next_hop rt pkb.ip) miss {i = i} got
                    reply.arp.arp_sha),
        )
