-- ===== src/Arp/Packet.antt =====
-- arp/arp.c: receiving ARP packets.
pub mod Learn
use tapip.Base.{
  ℕ, zero, suc, ◌+◌, List, [], ◌∷◌, ◌++◌, Option, none, some, Bool, true, false, ◌==◌, ltb,
  if◌then◌else◌, ◌&&◌, ◌||◌, not, get_elem?,
}
use tapip.Net.{
  Netdev, Arp, PkType, pkt_otherhost, Event, tx_arp, freed_arp, eth_hrd_sz, eth_p_ip, is_multicast,
}
use tapip.Arp.Cache.{
  ArpCache, ArpEntry, ArpState, waiting, resolved, arp_timeout, modify, queue_send, arp_insert,
  arp_lookup,
}

abbrev pub arp_hrd_sz : ℕ
arp_hrd_sz = 28

abbrev pub op_request : ℕ
op_request = 1

abbrev pub op_reply : ℕ
op_reply = 2

-- A pkbuf with an ARP packet in it. Its fields are read only after the length has been tested.
pub record ArpPkb : Type 0 where
  pub pk_type : PkType
  pub pk_len : ℕ
  pub eth_src : List ℕ
  pub arp : Arp

-- !hwacmp(a, b)
abbrev pub hwa_eq : List ℕ → List ℕ → Bool
hwa_eq [] [] = true
hwa_eq (x ∷ xs) (y ∷ ys) = x == y && hwa_eq xs ys
hwa_eq _ _ = false

-- The sender becomes the target, the device the sender; the frame goes to the Ethernet source.
unfoldable pub arp_reply : Netdev → ArpPkb → Event
arp_reply dev pkb =
    tx_arp dev
      (record (pkb.arp) {
        arp_op = op_reply;
        arp_tha = pkb.arp.arp_sha;
        arp_tip = pkb.arp.arp_sip;
        arp_sha = dev.net_hwaddr;
        arp_sip = dev.net_ipaddr;
      })
      pkb.eth_src

abbrev pub learned : List ℕ → ArpEntry → ArpEntry
learned hwaddr ae = record ae {
  ae_list = elim (ae.ae_state) [ waiting ↦ [] | _ ↦ ae.ae_list ];
  ae_hwaddr = hwaddr;
  ae_state = resolved;
  ae_ttl = arp_timeout;
}

-- The update of an entry that arp_lookup has found, the packets that wait on it sent first.
unfoldable pub update_entry : ArpCache → ℕ → List ℕ → ArpCache × List Event
update_entry c i hwaddr = (
  modify c i (learned hwaddr),
  elim (get_elem? c.entries i) [
    | none ↦ []
    | some ae ↦ elim (ae.ae_state) [ waiting ↦ queue_send ae.ae_dev hwaddr ae.ae_list | _ ↦ [] ]
  ],
)

-- What arp_recv does to the cache: an entry for the sender is brought up to date; a request makes
-- a new one, and a reply that nobody waits for does not.
unfoldable pub learn : ArpCache → Netdev → Arp → ArpCache × List Event
learn c dev ahdr = elim (arp_lookup c ahdr.arp_pro ahdr.arp_sip) [
  | some i ↦ update_entry c i ahdr.arp_sha
  | none ↦
      if ahdr.arp_op == op_request
      then ((arp_insert c dev ahdr.arp_pro ahdr.arp_sip ahdr.arp_sha).1, [])
      else (c, [])
]

unfoldable pub arp_recv : ArpCache → Netdev → ArpPkb → ArpCache × List Event
unfolding arp_reply
arp_recv c dev pkb =
    if is_multicast pkb.arp.arp_tip || not (pkb.arp.arp_tip == dev.net_ipaddr)
    then (c, freed_arp pkb.arp ∷ [])
    else let (c', out) = learn c dev pkb.arp in
      (
        c',
        out
            ++ ((if pkb.arp.arp_op == op_request then arp_reply dev pkb else freed_arp pkb.arp)
                ∷ []),
      )

-- the tests of arp_in
unfoldable pub arp_accepts : ArpPkb → Bool
arp_accepts pkb = elim (pkb.pk_type) [
  | pkt_otherhost ↦ false
  | _ ↦
      not (ltb pkb.pk_len (eth_hrd_sz + arp_hrd_sz))
      && (hwa_eq pkb.arp.arp_sha pkb.eth_src
          && (pkb.arp.arp_hrd == 1
              && (pkb.arp.arp_pro == eth_p_ip
                  && (pkb.arp.arp_hrdlen == 6
                      && (pkb.arp.arp_prolen == 4
                          && (pkb.arp.arp_op == op_request || pkb.arp.arp_op == op_reply))))))
]

unfoldable pub arp_in : ArpCache → Netdev → ArpPkb → ArpCache × List Event
arp_in c dev pkb = if arp_accepts pkb then arp_recv c dev pkb else (c, freed_arp pkb.arp ∷ [])
