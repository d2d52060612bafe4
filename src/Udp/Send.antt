-- ===== src/Udp/Send.antt =====
-- udp/udp_sock.c: datagrams that are sent.
use tapip.Base.{
  ℕ, ◌+◌, ◌-◌, List, [], ◌∷◌, ◌++◌, Option, none, some, ◌==◌, ltb, not, ◌||◌, if◌then◌else◌, take,
  htons,
}
use tapip.Checksum.{udp_set_checksum}
use tapip.Net.{Pkbuf, pkt_none, word_bytes, ip_hrd_sz, eth_hrd_sz}
use tapip.Route.{rt_output}
use tapip.Sock.{Sock}
use tapip.Udp.{Udp, output, pkb_freed, emit}
use tapip.Udp.In.{udp_hrd_sz}
use tapip.Udp.Port.{udp_set_sport}

-- UDP_MAX_BUFSZ
abbrev pub udp_max_bufsz : ℕ
udp_max_bufsz = 0xffff - udp_hrd_sz

-- the packet of alloc_pkb with the IP header that udp_init_pkb fills in
unfoldable pub udp_fill_ip : Udp → Sock → ℕ → ℕ → Pkbuf
udp_fill_ip st sk size daddr = record {
  pk_pro = 0xffff;
  pk_type = pkt_none;
  pk_len = eth_hrd_sz + ip_hrd_sz + udp_hrd_sz + size;
  pk_indev = none;
  pk_rtdst = none;
  ip = record {
    ip_hlen = 5;
    ip_ver = 4;
    ip_tos = 0;
    ip_len = htons (ip_hrd_sz + udp_hrd_sz + size);
    ip_id = htons st.udp_id;
    ip_fragoff = 0;
    ip_ttl = 64;
    ip_pro = sk.protocol;
    ip_cksum = 0;
    ip_src = 0;
    ip_dst = daddr;
    ip_opts = [];
    ip_data = [];
  };
}

-- the header of a datagram, with no checksum yet, and its data
unfoldable pub datagram : Sock → ℕ → ℕ → List ℕ → List ℕ
datagram sk dport size buf =
    word_bytes sk.sk_sport
    ++ (word_bytes dport ++ (word_bytes (htons (size + udp_hrd_sz)) ++ (0 ∷ 0 ∷ take size buf)))

-- `none` is -1. The checksum is taken over the length field of the datagram.
unfoldable pub udp_init_pkb : Udp → Sock → List ℕ → ℕ → ℕ → ℕ → Option Pkbuf
udp_init_pkb st sk buf size daddr dport =
    elim (rt_output st.routes (udp_fill_ip st sk size daddr)) [
      | none ↦ none
      | some pkb ↦ some (record pkb {
        ip = record (pkb.ip) {
          ip_data =
              udp_set_checksum pkb.ip.ip_src pkb.ip.ip_dst (size + udp_hrd_sz)
                (datagram sk dport size buf);
        };
      })
    ]

-- the end of udp_send_buf, with a bound socket; the result is the number of bytes, or -1 (`none`).
unfoldable pub send_bound : Udp → ℕ → List ℕ → ℕ → ℕ → ℕ → Option ℕ × Udp
send_bound st i buf size daddr dport = elim (udp_init_pkb st (st.socks i) buf size daddr dport) [
  | none ↦ (none, emit st (pkb_freed (udp_fill_ip st (st.socks i) size daddr)))
  | some pkb ↦ (some size, emit st (output pkb))
]

-- udp_send_buf to an address and a port in network order, the socket's own when the caller gives
-- none. With no port there either, the code reads variables that it has not set: `unset` is what they
-- hold. sock_autobind binds to a port of the table's choice.
unfoldable pub udp_send_buf : Udp → ℕ × ℕ → ℕ → List ℕ → ℕ → Option (ℕ × ℕ) → Option ℕ × Udp
udp_send_buf st unset i buf size skaddr =
    let sk = st.socks i in
    let own : ℕ × ℕ = if sk.sk_dport == 0 then unset else (sk.sk_daddr, sk.sk_dport) in
    let (daddr, dport) : ℕ × ℕ = elim skaddr [ none ↦ own | some a ↦ a ] in
    let (ok, bound) = udp_set_sport st i 0 in
    if (size == 0 || ltb udp_max_bufsz size) || (daddr == 0 || dport == 0)
    then (none, st)
    else if not (sk.sk_sport == 0)
    then send_bound st i buf size daddr dport
    else if ok
    then send_bound bound i buf size daddr dport
    else (none, bound)
