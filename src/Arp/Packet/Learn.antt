-- ===== src/Arp/Packet/Learn.antt =====
-- arp_recv and arp_in of arp/arp.c: what the cache knows once a packet has come in.
use tapip.Base.{
  ℕ, ◌≡◌, ◌≢◌, refl, ◌∙◌, List, [], ◌∷◌, ◌++◌, none, some, true, false, Bool-cases, Option-cases,
  inl, inr, get_elem?, arith, ◌==◌, not, ◌||◌, ◌⊎◌, ==_iff,
}
use tapip.Net.{Netdev, Arp, Event, tx_arp, is_multicast}
use tapip.Arp.Cache.{
  ArpCache, ArpEntry, ArpState, free, waiting, resolved, is_free, is_entry, queue_send, arp_insert,
  arp_lookup,
}
use tapip.Arp.Cache.Inv.{
  IsValid, IsSound, Absent, AllSound-update_at, AllSound-at, AllDistinct-update_at,
  length-update_at, get_elem?-update_at_self,
}
use tapip.Arp.Cache.Alloc.{IsFull}
use tapip.Arp.Cache.Find.{
  arp_lookup-none_iff, arp_lookup_found, arp_lookup_unique, arp_insert-IsValid,
  arp_insert-false_iff, arp_lookup-arp_insert,
}
use tapip.Arp.Cache.Timer.{NoFault, NoFault-append, queue_send-NoFault}
use tapip.Arp.Packet.{
  ArpPkb, op_request, op_reply, learned, update_entry, learn, arp_reply, arp_recv, arp_accepts,
  arp_in,
}

learned-IsSound : (hwaddr : List ℕ) (ae : ArpEntry) → IsSound ae → IsSound (learned hwaddr ae)
learned-IsSound hwaddr ae s = ground arith

-- The update of an entry in use.
module _ {c : ArpCache} (v : IsValid c) (i : ℕ) {ae : ArpEntry}
    (at : get_elem? c.entries i ≡ some ae) (busy : is_free ae.ae_state ≡ false)
    (hwaddr : List ℕ) where
  update_entry-IsValid : IsValid (update_entry c i hwaddr).0
  unfolding update_entry
  update_entry-IsValid = record {
    sized = length-update_at c.entries i (learned hwaddr) ∙ v.sized;
    next_in = v.next_in;
    sound =
        AllSound-update_at c.entries i (learned hwaddr)
          (λ e here. learned-IsSound hwaddr e (AllSound-at c.entries i {ae = e} v.sound here))
          v.sound;
    distinct =
        AllDistinct-update_at c.entries i (learned hwaddr)
          (λ e here. record { in_use = λ _. ground arith; same_pro = refl; same_ipaddr = refl })
          v.distinct;
  }

  update_entry-NoFault : NoFault (update_entry c i hwaddr).1
  unfolding update_entry
  update_entry-NoFault =
      rw (at, update_entry, NoFault)
        (sends (ae.ae_state) (AllSound-at c.entries i {ae = ae} v.sound at).0)
    where
      sends :
          (st : ArpState)
          → (st ≡ waiting → ae.ae_dev ≢ none)
          → NoFault (elim st [ waiting ↦ queue_send ae.ae_dev hwaddr ae.ae_list | _ ↦ [] ])
      sends free h = tt
      sends waiting h = queue_send-NoFault ae.ae_dev hwaddr ae.ae_list (h refl)
      sends resolved h = tt

  get_elem?-update_entry :
      get_elem? (update_entry c i hwaddr).0.entries i ≡ some (learned hwaddr ae)
  unfolding update_entry
  get_elem?-update_entry = get_elem?-update_at_self c.entries i (learned hwaddr) {ae = ae} at

in_use :
    (pro ipaddr : ℕ) (ae : ArpEntry) → is_entry pro ipaddr ae ≡ true → is_free ae.ae_state ≡ false
in_use pro ipaddr ae h = ground arith

-- What arp_recv does to the cache keeps it valid and follows no null pointer.
pub learn-IsValid :
    {c : ArpCache} (dev : Netdev) (ahdr : Arp)
    → IsValid c
    → IsValid (learn c dev ahdr).0 × NoFault (learn c dev ahdr).1
unfolding learn
learn-IsValid {c} dev ahdr v = elim (Option-cases (arp_lookup c ahdr.arp_pro ahdr.arp_sip)) [
  | inl e ↦
      let absent = (arp_lookup-none_iff c ahdr.arp_pro ahdr.arp_sip).0 e in
      rw (e, learn)
        (elim (Bool-cases (ahdr.arp_op == op_request)) [
          | inl asks ↦
              rw asks (arp_insert-IsValid c dev ahdr.arp_pro ahdr.arp_sip ahdr.arp_sha v absent, tt)
          | inr answers ↦ rw answers (v, tt)
        ])
  | inr (i, e) ↦
      let (ae, at, hit) = arp_lookup_found c ahdr.arp_pro ahdr.arp_sip {k = i} e in
      let busy = in_use ahdr.arp_pro ahdr.arp_sip ae hit in
      rw (e, learn)
        (
          update_entry-IsValid v i {ae = ae} at busy ahdr.arp_sha,
          update_entry-NoFault v i {ae = ae} at busy ahdr.arp_sha,
        )
]

-- The cache maps a protocol address to a hardware address.
pub record Maps (c : ArpCache) (pro ipaddr : ℕ) (hwaddr : List ℕ) : Type 0 where
  pub index : ℕ
  pub entry : ArpEntry
  pub found : arp_lookup c pro ipaddr ≡ some index
  pub there : get_elem? c.entries index ≡ some entry
  pub is_resolved : entry.ae_state ≡ resolved
  pub maps_to : entry.ae_hwaddr ≡ hwaddr

insert-Maps :
    {c : ArpCache} (dev : Netdev) (pro ipaddr : ℕ) (hwaddr : List ℕ)
    → IsValid c
    → Absent pro ipaddr c.entries
    → ¬ IsFull c
    → Maps (arp_insert c dev pro ipaddr hwaddr).1 pro ipaddr hwaddr
insert-Maps {c} dev pro ipaddr hwaddr v absent room =
    elim (Bool-cases (arp_insert c dev pro ipaddr hwaddr).0) [
      | inl done ↦
          let (i, found, (ae, there, is_resolved, maps_to)) =
            arp_lookup-arp_insert c dev pro ipaddr hwaddr v absent done in
          record {
            index = i;
            entry = ae;
            found = found;
            there = there;
            is_resolved = is_resolved;
            maps_to = maps_to;
          }
      | inr failed ↦ absurd (room ((arp_insert-false_iff c dev pro ipaddr hwaddr v).0 failed))
    ]

-- A sender that the cache knows, or that asks while an entry is free, is mapped to the hardware
-- address that it gave.
pub learn-Maps :
    {c : ArpCache} (dev : Netdev) (ahdr : Arp)
    → IsValid c
    → (arp_lookup c ahdr.arp_pro ahdr.arp_sip ≢ none) ⊎ ((ahdr.arp_op ≡ op_request) × ¬ IsFull c)
    → Maps (learn c dev ahdr).0 ahdr.arp_pro ahdr.arp_sip ahdr.arp_sha
unfolding learn
learn-Maps {c} dev ahdr v h = elim (Option-cases (arp_lookup c ahdr.arp_pro ahdr.arp_sip)) [
  | inl e ↦
      let absent = (arp_lookup-none_iff c ahdr.arp_pro ahdr.arp_sip).0 e in
      elim h [
        | inl known ↦ absurd (known e)
        | inr (asks, room) ↦
            rw (e, learn)
              (rw ((==_iff ahdr.arp_op op_request).1 asks)
                (insert-Maps dev ahdr.arp_pro ahdr.arp_sip ahdr.arp_sha v absent room))
      ]
  | inr (i, e) ↦
      let (ae, at, hit) = arp_lookup_found c ahdr.arp_pro ahdr.arp_sip {k = i} e in
      let busy = in_use ahdr.arp_pro ahdr.arp_sip ae hit in
      let at' = get_elem?-update_entry v i {ae = ae} at busy ahdr.arp_sha in
      rw (e, learn)
        (record {
          index = i;
          entry = learned ahdr.arp_sha ae;
          found =
              arp_lookup_unique ahdr.arp_pro ahdr.arp_sip i {ae = learned ahdr.arp_sha ae}
                (update_entry-IsValid v i {ae = ae} at busy ahdr.arp_sha) at' (ground arith);
          there = at';
          is_resolved = refl;
          maps_to = refl;
        })
]

arp_recv-IsValid :
    {c : ArpCache} (dev : Netdev) (pkb : ArpPkb)
    → IsValid c
    → IsValid (arp_recv c dev pkb).0 × NoFault (arp_recv c dev pkb).1
unfolding arp_recv arp_reply
arp_recv-IsValid {c} dev pkb v =
    elim (Bool-cases (is_multicast pkb.arp.arp_tip || not (pkb.arp.arp_tip == dev.net_ipaddr))) [
      | inl drops ↦ rw drops (v, ((λ e. cc), tt))
      | inr takes ↦
          let (v', quiet) = learn-IsValid dev pkb.arp v in
          rw takes (
            v',
            NoFault-append (learn c dev pkb.arp).1 _ quiet (
              (elim (Bool-cases (pkb.arp.arp_op == op_request)) [
                | inl asks ↦ rw asks (λ e. cc)
                | inr answers ↦ rw answers (λ e. cc)
              ]),
              tt,
            ),
          )
    ]

-- Every packet keeps a valid cache valid, and none makes the code follow a null pointer.
pub arp_in-IsValid :
    {c : ArpCache} (dev : Netdev) (pkb : ArpPkb)
    → IsValid c
    → IsValid (arp_in c dev pkb).0 × NoFault (arp_in c dev pkb).1
unfolding arp_in
arp_in-IsValid {c} dev pkb v = elim (Bool-cases (arp_accepts pkb)) [
  | inl ok ↦ rw ok (arp_recv-IsValid dev pkb v)
  | inr bad ↦ rw bad (v, ((λ e. cc), tt))
]

arp_recv_asked :
    (c : ArpCache) (dev : Netdev) (pkb : ArpPkb)
    → pkb.arp.arp_op ≡ op_request
    → pkb.arp.arp_tip ≡ dev.net_ipaddr
    → is_multicast pkb.arp.arp_tip ≡ false
    → arp_recv c dev pkb ≡ (
      (learn c dev pkb.arp).0,
      (learn c dev pkb.arp).1
          ++ (tx_arp dev
                (record (pkb.arp) {
                  arp_op = op_reply;
                  arp_tha = pkb.arp.arp_sha;
                  arp_tip = pkb.arp.arp_sip;
                  arp_sha = dev.net_hwaddr;
                  arp_sip = dev.net_ipaddr;
                })
                pkb.eth_src
              ∷ []),
    )
unfolding arp_recv arp_reply
arp_recv_asked c dev pkb asks ours single = ground arith

-- A request that arp_in accepts, for the own address of the device, is answered from a valid cache, behind whatever was waiting for
-- the sender, with the device's hardware address and to the Ethernet source; and the sender is in the cache
-- afterwards, if it was known before or an entry was free.
pub arp_in_answers :
    {c : ArpCache} (dev : Netdev) (pkb : ArpPkb)
    → IsValid c
    → arp_accepts pkb ≡ true
    → pkb.arp.arp_op ≡ op_request
    → pkb.arp.arp_tip ≡ dev.net_ipaddr
    → is_multicast pkb.arp.arp_tip ≡ false
    → (arp_lookup c pkb.arp.arp_pro pkb.arp.arp_sip ≢ none) ⊎ (¬ IsFull c)
    → Maps (arp_in c dev pkb).0 pkb.arp.arp_pro pkb.arp.arp_sip pkb.arp.arp_sha
      × ((out : List Event) × (arp_in c dev pkb).1
            ≡ out
              ++ (tx_arp dev
                    (record (pkb.arp) {
                      arp_op = op_reply;
                      arp_tha = pkb.arp.arp_sha;
                      arp_tip = pkb.arp.arp_sip;
                      arp_sha = dev.net_hwaddr;
                      arp_sip = dev.net_ipaddr;
                    })
                    pkb.eth_src
                  ∷ []))
unfolding arp_in
arp_in_answers {c} dev pkb v ok asks ours single room = rw ok (
    rw (arp_recv_asked c dev pkb asks ours single)
      (learn-Maps dev pkb.arp v (known_or_asks room), ((learn c dev pkb.arp).1, refl)))
  where
    known_or_asks :
        (arp_lookup c pkb.arp.arp_pro pkb.arp.arp_sip ≢ none) ⊎ (¬ IsFull c)
        → (arp_lookup c pkb.arp.arp_pro pkb.arp.arp_sip ≢ none)
          ⊎ ((pkb.arp.arp_op ≡ op_request) × ¬ IsFull c)
    known_or_asks (inl known) = inl known
    known_or_asks (inr free_entry) = inr (asks, free_entry)
