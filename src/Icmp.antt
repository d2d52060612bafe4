-- ===== src/Icmp.antt =====
-- ip/icmp.c: receiving ICMP messages, answering echo requests, and sending error messages.
-- A message is the list of its bytes; its header is the first 8 of them.
pub mod Echo
mod Tests
use tapip.Base.{
  ℕ, ◌+◌, ◌-◌, ◌/◌, ◌%◌, ◌^◌, List, [], ◌∷◌, ◌++◌, Option, none, some, Bool, true, false, ◌==◌, ltb,
  leb, if◌then◌else◌, ◌&&◌, ◌||◌, not, get_or, set, take, drop, u16, htons, bit_and, min,
}
use tapip.Checksum.{word_at, set_word, icmp_chksum}
use tapip.Net.{
  Netdev, Ip, Pkbuf, PkType, pkt_none, pkt_localhost, Event, freed, iphlen, ip_ntoh, ip_bytes,
  long_bytes, is_multicast, ip_hrd_sz, eth_hrd_sz, ip_frag_off,
}
use tapip.Route.{Table}
use tapip.Arp.Cache.{ArpCache}
use tapip.Ip.Out.{ip_send_out, ip_send_info}

abbrev pub icmp_hrd_sz : ℕ
icmp_hrd_sz = 8

abbrev pub t_echoreq : ℕ
t_echoreq = 8

abbrev pub t_maxnum : ℕ
t_maxnum = 18

-- the field error of icmp_table
abbrev pub icmp_error : ℕ → Bool
icmp_error type = not (type == 0) && (not (type == t_echoreq) && ltb type 13)

-- The message of an echo request turned into the reply: its type cleared, and its checksum adjusted.
pub echo_reply : List ℕ → List ℕ
echo_reply icmp =
    let cksum = word_at (drop 2 icmp) in
    set_word (set icmp 0 0) 2
      (u16 (cksum + (if leb (0xffff - t_echoreq) cksum then t_echoreq + 1 else t_echoreq)))

-- What a handler comes to: the ARP cache, and the packets that it sends or frees. `none` is that of
-- ip_send_out.
abbrev pub Outcome : Type 0
Outcome = Option (ArpCache × List Event)

pub icmp_echo_request : Table → ArpCache → Pkbuf → Outcome
unfolding echo_reply
icmp_echo_request rts c pkb =
    if get_or pkb.ip.ip_data 1 0 == 0
    then ip_send_out rts c (record pkb {
      pk_rtdst = none;
      pk_indev = none;
      pk_type = pkt_none;
      ip =
          ip_ntoh (record (pkb.ip) { ip_data = echo_reply pkb.ip.ip_data; ip_dst = pkb.ip.ip_src });
    })
    else some (c, freed pkb ∷ [])

-- The packet is in host order. Every handler but that of echo requests only frees it.
pub icmp_in : Table → ArpCache → Pkbuf → Outcome
icmp_in rts c pkb =
    let icmp = pkb.ip.ip_data in
    let icmplen = pkb.ip.ip_len - iphlen pkb.ip in
    let type = get_or icmp 0 0 in
    if ltb icmplen icmp_hrd_sz || not (icmp_chksum icmp icmplen == 0) || ltb t_maxnum type
    then some (c, freed pkb ∷ [])
    else if type == t_echoreq
    then icmp_echo_request rts c pkb
    else some (c, freed pkb ∷ [])

-- BROADCAST
abbrev pub is_broadcast : ℕ → Bool
is_broadcast netip = netip / 2 ^ 24 % 2 ^ 8 == 0xff || netip / 2 ^ 24 % 2 ^ 8 == 0

-- the guards of icmp_send, on a packet in network order
pub may_answer : ℕ → Pkbuf → Bool
may_answer type pkb_in =
    not (ltb (htons pkb_in.ip.ip_len) (iphlen pkb_in.ip + 8))
    && (elim (pkb_in.pk_type) [ pkt_localhost ↦ true | _ ↦ false ]
        && (not (is_multicast pkb_in.ip.ip_dst || is_broadcast pkb_in.ip.ip_dst)
            && (bit_and pkb_in.ip.ip_fragoff (htons ip_frag_off) == 0
                && not (
                    icmp_error type
                    && (pkb_in.ip.ip_pro == 1
                        && (ltb t_maxnum (get_or pkb_in.ip.ip_data 0 0)
                            || icmp_error (get_or pkb_in.ip.ip_data 0 0)))))))

-- the payload: the packet from its IP header on, cut so that the message fits into 576 bytes
abbrev pub quoted : Pkbuf → List ℕ
quoted pkb_in =
    take (min (htons pkb_in.ip.ip_len) (576 - ip_hrd_sz - icmp_hrd_sz))
      (ip_bytes pkb_in.ip ++ pkb_in.ip.ip_data)

abbrev pub quoted_len : Pkbuf → ℕ
quoted_len pkb_in = min (htons pkb_in.ip.ip_len) (576 - ip_hrd_sz - icmp_hrd_sz)

-- the message with its checksum
pub icmp_message : ℕ → ℕ → ℕ → Pkbuf → List ℕ
icmp_message type code info pkb_in =
    let cleared = type ∷ code ∷ 0 ∷ 0 ∷ (long_bytes info ++ quoted pkb_in) in
    set_word cleared 2 (icmp_chksum cleared (icmp_hrd_sz + quoted_len pkb_in))

-- the new packet of icmp_send, as alloc_pkb makes it, with the message in it
abbrev pub message_pkb : ℕ → List ℕ → Pkbuf
message_pkb len icmp = record {
  pk_pro = 0xffff;
  pk_type = pkt_none;
  pk_len = len;
  pk_indev = none;
  pk_rtdst = none;
  ip = record {
    ip_hlen = 0;
    ip_ver = 0;
    ip_tos = 0;
    ip_len = 0;
    ip_id = 0;
    ip_fragoff = 0;
    ip_ttl = 0;
    ip_pro = 0;
    ip_cksum = 0;
    ip_src = 0;
    ip_dst = 0;
    ip_opts = [];
    ip_data = icmp;
  };
}

-- icmp_send: the counter of ip_send_info goes in and comes out. The packet that caused the message
-- is not touched.
unfoldable pub icmp_send : ℕ → Table → ArpCache → ℕ → ℕ → ℕ → Pkbuf → ℕ × Outcome
icmp_send ipid rts c type code info pkb_in =
    let len = ip_hrd_sz + icmp_hrd_sz + quoted_len pkb_in in
    if may_answer type pkb_in
    then ip_send_info ipid rts c
        (message_pkb (eth_hrd_sz + len) (icmp_message type code info pkb_in)) 0 len 0 1
        pkb_in.ip.ip_src
    else (ipid, some (c, []))
