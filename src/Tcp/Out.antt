-- ===== src/Tcp/Out.antt =====
-- tcp/tcp_out.c: the segments that TCP sends. A packet made by alloc_pkb is filled with zeros.
use tapip.Base.{
  ℕ, ◌+◌, ◌-◌, List, [], ◌++◌, Option, none, some, true, false, if◌then◌else◌, length, add32, htons,
  htonl,
}
use tapip.Net.{Rtentry, Pkbuf, pkt_none, ip_hrd_sz, eth_hrd_sz}
use tapip.Checksum.{tcp_set_checksum, ip_p_tcp}
use tapip.Route.{rt_output}
use tapip.Tcp.{TcpHdr, Segment, TcpSock, Tcp, output, pkb_freed, fault, modify, emit}
use tapip.Tcp.Hdr.{tcp_hrd_sz, tcp_hrd_doff, hdr_bytes}

-- alloc_pkb with a TCP header and text in it
abbrev pub new_pkb : TcpHdr → List ℕ → Pkbuf
new_pkb h text = record {
  pk_pro = 0xffff;
  pk_type = pkt_none;
  pk_len = eth_hrd_sz + ip_hrd_sz + tcp_hrd_sz + length text;
  pk_indev = none;
  pk_rtdst = none;
  ip = record {
    ip_hlen = 0;
    ip_ver = 0;
    ip_tos = 0;
    ip_len = 0;
    ip_id = 0;
    ip_fragoff = 0;
    ip_ttl = 0;
    ip_pro = 0;
    ip_cksum = 0;
    ip_src = 0;
    ip_dst = 0;
    ip_opts = [];
    ip_data = hdr_bytes h ++ text;
  };
}

-- the IP header that tcp_init_pkb fills in before it looks for the route
unfoldable pub fill_ip : Tcp → Pkbuf → ℕ → Pkbuf
fill_ip st pkb daddr = record pkb {
  ip = record (pkb.ip) {
    ip_hlen = 5;
    ip_ver = 4;
    ip_tos = 0;
    ip_len = htons (pkb.pk_len - eth_hrd_sz);
    ip_id = htons st.tcp_id;
    ip_fragoff = 0;
    ip_ttl = 64;
    ip_pro = ip_p_tcp;
    ip_dst = daddr;
  };
}

-- tsk->sk.sk_dst = pkb->pk_rtdst, if there is a socket
unfoldable pub cache_dst : Tcp → Option ℕ → Pkbuf → Tcp
cache_dst st none pkb = st
cache_dst st (some i) pkb =
    modify st i (λ tsk. record tsk { sk = record (tsk.sk) { sk_dst = pkb.pk_rtdst } })

-- tcp_init_pkb with the route that the socket keeps, if there is one; `none` is -1.
unfoldable pub init_by : Tcp → Option ℕ → Option Rtentry → Pkbuf → ℕ → Option (Pkbuf × Tcp)
init_by st tsk (some rt) pkb saddr =
    some (record pkb { pk_rtdst = some rt; ip = record (pkb.ip) { ip_src = saddr } }, st)
init_by st tsk none pkb saddr = elim (rt_output st.routes pkb) [
  | none ↦ none
  | some pkb' ↦
      some (record pkb' { ip = record (pkb'.ip) { ip_src = saddr } }, cache_dst st tsk pkb')
]

-- tsk->sk.sk_dst, where a null pointer to the socket has none
abbrev pub route_of : Tcp → Option ℕ → Option Rtentry
route_of st none = none
route_of st (some i) = (st.socks i).sk.sk_dst

unfoldable pub tcp_init_pkb : Tcp → Option ℕ → Pkbuf → ℕ → ℕ → Option (Pkbuf × Tcp)
tcp_init_pkb st tsk pkb saddr daddr = init_by st tsk (route_of st tsk) (fill_ip st pkb daddr) saddr

-- tcp_set_checksum(iphdr, tcphdr); ip_send_out(pkb)
unfoldable pub with_checksum : Pkbuf → Pkbuf
with_checksum pkb = record pkb {
  ip = record (pkb.ip) {
    ip_data =
        tcp_set_checksum pkb.ip.ip_src pkb.ip.ip_dst (htons pkb.ip.ip_len - ip_hrd_sz)
          pkb.ip.ip_data;
  };
}

-- the end of tcp_send_out, with the result of tcp_init_pkb
abbrev pub give_out : Tcp → Option (Pkbuf × Tcp) → Tcp
give_out st none = emit st pkb_freed
give_out st (some (pkb', st')) = emit st' (output (with_checksum pkb'))

unfoldable pub send_between : Tcp → Option ℕ → Pkbuf → ℕ → ℕ → Tcp
send_between st tsk pkb saddr daddr = give_out st (tcp_init_pkb st tsk pkb saddr daddr)

unfoldable pub tcp_send_out : Tcp → Option ℕ → Pkbuf → Option Segment → Tcp
tcp_send_out st tsk pkb (some seg) = send_between st tsk pkb seg.ip_dst seg.ip_src
tcp_send_out st (some i) pkb none =
    send_between st (some i) pkb (st.socks i).sk.sk_saddr (st.socks i).sk.sk_daddr
tcp_send_out st none pkb none = emit st fault

-- a header with no control bit set, between two ports
abbrev pub plain_hdr : ℕ → ℕ → ℕ → ℕ → ℕ → TcpHdr
plain_hdr src dst seq ackn window = record {
  src = src;
  dst = dst;
  seq = seq;
  ackn = ackn;
  doff = tcp_hrd_doff;
  fin = false;
  syn = false;
  rst = false;
  psh = false;
  ack = false;
  urg = false;
  window = window;
  checksum = 0;
  urgptr = 0;
}

-- the header of a reset: with an ACK in the segment its number is taken, else the segment is
-- acknowledged
unfoldable pub reset_hdr : Segment → TcpHdr
reset_hdr seg =
    let h = seg.tcphdr in
    if h.ack
    then record (plain_hdr h.dst h.src h.ackn 0 0) { rst = true }
    else record (plain_hdr h.dst h.src 0 (htonl (add32 seg.seg_seq seg.len)) 0) {
      ack = true;
      rst = true;
    }

unfoldable pub ack_hdr : TcpSock → Segment → TcpHdr
ack_hdr tsk seg =
    record (plain_hdr seg.tcphdr.dst seg.tcphdr.src (htonl tsk.snd_nxt) (htonl tsk.rcv_nxt)
      (htons tsk.rcv_wnd)) { ack = true }

unfoldable pub synack_hdr : TcpSock → Segment → TcpHdr
synack_hdr tsk seg =
    record (plain_hdr seg.tcphdr.dst seg.tcphdr.src (htonl tsk.iss) (htonl tsk.rcv_nxt)
      (htons tsk.rcv_wnd)) { syn = true; ack = true }

unfoldable pub syn_hdr : TcpSock → TcpHdr
syn_hdr tsk =
    record (plain_hdr tsk.sk.sk_sport tsk.sk.sk_dport (htonl tsk.iss) 0 (htons tsk.rcv_wnd)) {
      syn = true;
    }

unfoldable pub fin_hdr : TcpSock → TcpHdr
fin_hdr tsk =
    record (plain_hdr tsk.sk.sk_sport tsk.sk.sk_dport (htonl tsk.snd_nxt) (htonl tsk.rcv_nxt)
      (htons tsk.rcv_wnd)) { fin = true; ack = true }

unfoldable pub tcp_send_reset : Tcp → Option ℕ → Segment → Tcp
tcp_send_reset st tsk seg =
    if seg.tcphdr.rst then st else tcp_send_out st none (new_pkb (reset_hdr seg) []) (some seg)

-- The segment is a pointer, read before anything else.
unfoldable pub tcp_send_ack : Tcp → ℕ → Option Segment → Tcp
tcp_send_ack st i none = emit st fault
tcp_send_ack st i (some seg) =
    if seg.tcphdr.rst
    then st
    else tcp_send_out st (some i) (new_pkb (ack_hdr (st.socks i) seg) []) (some seg)

unfoldable pub tcp_send_synack : Tcp → ℕ → Segment → Tcp
tcp_send_synack st i seg =
    if seg.tcphdr.rst
    then st
    else tcp_send_out st (some i) (new_pkb (synack_hdr (st.socks i) seg) []) (some seg)

unfoldable pub tcp_send_syn : Tcp → ℕ → Option Segment → Tcp
tcp_send_syn st i seg = tcp_send_out st (some i) (new_pkb (syn_hdr (st.socks i)) []) seg

unfoldable pub tcp_send_fin : Tcp → ℕ → Tcp
tcp_send_fin st i = tcp_send_out st (some i) (new_pkb (fin_hdr (st.socks i)) []) none
