-- ===== src/Arp/Tests.antt =====
-- The ARP cache at small examples.
use tapip.Base.{◌≡◌, refl, inr, List, [], ◌∷◌, ◌++◌, some, true, replicate, arith}
use tapip.Net.{Netdev, pkt_broadcast, Event, tx_arp, eth_p_ip}
use tapip.Arp.Cache.{
  ArpEntry, free, fresh, blank, arp_cache_init, alloc_loop, arp_alloc, arp_insert, arp_request,
  queue_drop,
}
use tapip.Arp.Cache.Inv.{IsValid, Absent, arp_cache_init-IsValid}
use tapip.Arp.Cache.Alloc.{IsFull}
use tapip.Arp.Cache.Timer.{NoFault, ticks, ticks_give_up}
use tapip.Arp.Packet.{ArpPkb, arp_in, arp_accepts, op_request, op_reply}
use tapip.Arp.Packet.Learn.{Maps, arp_in-IsValid, arp_in_answers}

abbrev nic : Netdev
nic = record {
  id = 1;
  net_mtu = 1500;
  net_ipaddr = 0x0100000a;
  net_mask = 0xffffff;
  net_hwaddr = replicate 6 1;
}

abbrev ask : ArpPkb
ask = record {
  pk_type = pkt_broadcast;
  pk_len = 42;
  eth_src = replicate 6 2;
  arp = record {
    arp_hrd = 1;
    arp_pro = eth_p_ip;
    arp_hrdlen = 6;
    arp_prolen = 4;
    arp_op = op_request;
    arp_sha = replicate 6 2;
    arp_sip = 0x0200000a;
    arp_tha = replicate 6 0;
    arp_tip = 0x0100000a;
  };
}

init_next : (arp_alloc arp_cache_init).0 ≡ some 0
unfolding arp_alloc arp_cache_init alloc_loop
init_next = refl

init-Absent : Absent eth_p_ip 0x0200000a arp_cache_init.entries
unfolding arp_cache_init
init-Absent = ground arith

not-IsFull : ¬ IsFull arp_cache_init
unfolding arp_cache_init
not-IsFull full = cc (full 0 (omega arith))

inserted : (arp_insert arp_cache_init nic eth_p_ip 0x0200000a (replicate 6 2)).0 ≡ true
unfolding arp_insert arp_alloc arp_cache_init alloc_loop
inserted = refl

abbrev asking : ArpEntry
asking = record (fresh blank) { ae_dev = some nic; ae_ipaddr = 0x0200000a }

ticks_give_up_example : ticks 5 asking ≡ (
  record asking { ae_ttl = 0; ae_retry = 0; ae_state = free; ae_list = [] },
  replicate 4 (arp_request asking) ++ queue_drop [],
)
ticks_give_up_example = ticks_give_up 4 asking refl refl refl

arp_in-IsValid_example :
    IsValid (arp_in arp_cache_init nic ask).0 × NoFault (arp_in arp_cache_init nic ask).1
arp_in-IsValid_example = arp_in-IsValid nic ask arp_cache_init-IsValid

arp_in_answers_example :
    Maps (arp_in arp_cache_init nic ask).0 eth_p_ip 0x0200000a (replicate 6 2)
    × ((out : List Event) × (arp_in arp_cache_init nic ask).1
          ≡ out
            ++ (tx_arp nic
                  (record (ask.arp) {
                    arp_op = op_reply;
                    arp_tha = replicate 6 2;
                    arp_tip = 0x0200000a;
                    arp_sha = replicate 6 1;
                    arp_sip = 0x0100000a;
                  })
                  (replicate 6 2)
                ∷ []))
unfolding arp_accepts
arp_in_answers_example =
    arp_in_answers nic ask arp_cache_init-IsValid refl refl refl refl (inr not-IsFull)
