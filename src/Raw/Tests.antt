-- ===== src/Raw/Tests.antt =====
-- Raw sockets at small examples.
use tapip.Base.{
  ℕ, ◌≡◌, refl, [], ◌∷◌, ◌++◌, none, some, true, ◌&&◌, replicate, arith, ◌==◌, if◌then◌else◌,
}
use tapip.Net.{Pkbuf, pkt_localhost, eth_p_ip}
use tapip.Sock
use tapip.Sock.{Sock}
use tapip.Raw.{
  Raw, new_raw, raw_hash, raw_find, raw_recv, raw_loop, raw_in, copy_pkb, takes, woken, raw_init,
  raw_alloc_sock, raw_send_buf, raw_init_pkb, raw_unhash,
}
use tapip.Raw.Deliver.{AreReady, on_chain, with_copy, shortened, raw_in-queue}

abbrev bound_to : ℕ → ℕ → Sock
bound_to protocol daddr = record (new_raw protocol) {
  protocol = protocol;
  sk_daddr = daddr;
  recv_wait = true;
  refcnt = 1;
}

-- 0 takes ICMP to any address, 1 to another one, 2 to that of the packet
abbrev three : Raw
three = record {
  socks = λ j.
      if j == 0
      then bound_to 1 0
      else if j == 1
      then bound_to 1 0x0900000a
      else bound_to 1 0x0200000a;
  next_sk = 3;
  head = λ k. if k == 1 then 2 ∷ 1 ∷ 0 ∷ [] else [];
  raw_id = 0;
  out = [];
}

abbrev ping : Pkbuf
ping = record {
  pk_pro = eth_p_ip;
  pk_type = pkt_localhost;
  pk_len = 98;
  pk_indev = none;
  pk_rtdst = none;
  ip = record {
    ip_hlen = 5;
    ip_ver = 4;
    ip_tos = 0;
    ip_len = 84;
    ip_id = 7;
    ip_fragoff = 0;
    ip_ttl = 64;
    ip_pro = 1;
    ip_cksum = 0;
    ip_src = 0x0100000a;
    ip_dst = 0x0200000a;
    ip_opts = [];
    ip_data = replicate 12 8 ++ replicate 52 1;
  };
}

ping_delivered :
    ((raw_in three ping).out ≡ woken 2 ∷ woken 0 ∷ [])
    × (((raw_in three ping).socks 1).recv_queue ≡ [])
unfolding raw_in raw_loop raw_find raw_recv copy_pkb
ping_delivered = (refl, refl)

three-AreReady : AreReady three (2 ∷ 1 ∷ 0 ∷ [])
three-AreReady = record { ready = λ j e. ground arith }

raw_in-queue_example :
    ((raw_in three ping).socks 2).recv_queue
    ≡ with_copy []
        (shortened ping)
        (on_chain 2 (2 ∷ 1 ∷ 0 ∷ []) && takes (bound_to 1 0x0200000a) ping.ip)
raw_in-queue_example =
    raw_in-queue three ping 2 refl (omega arith) (refl, (refl, (refl, tt))) three-AreReady

abbrev opened : Raw
opened = (raw_alloc_sock (raw_init three) 1).1

-- opened, put into the table and taken out of it
closed_again :
    ((raw_alloc_sock three 0).0 ≡ none)
    × ((raw_alloc_sock three 1).0 ≡ some 3)
    × ((raw_hash opened 3).head 0 ≡ 3 ∷ [])
    × ((raw_unhash (raw_hash opened 3) 3).head 0 ≡ [])
    × ((raw_send_buf three 0 (1 ∷ 2 ∷ []) 0x0200000a).0 ≡ some 2)
unfolding raw_alloc_sock raw_hash raw_unhash raw_init raw_send_buf raw_init_pkb Sock.get_sock
    Sock.unlink
closed_again = (refl, refl, refl, refl, refl)
