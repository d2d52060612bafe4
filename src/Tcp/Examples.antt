-- ===== src/Tcp/Examples.antt =====
-- The tables, timers and calls of TCP at small examples.
use tapip.Base.{ℕ, zero, suc, ◌≡◌, refl, [], ◌∷◌, ◌++◌, some, true, false, arith, htons}
use tapip.Base.Ints.{pos, lebℤ}
use tapip.Tcp.{TcpHdr, established, listen, syn_recv, child_of, TcpSock, Tcp}
use tapip.Tcp.Out.{plain_hdr}
use tapip.Net.{Ip}
use tapip.Tcp.Hdr.{read_hdr, tcp_segment_init}
use tapip.Tcp.Hdr.Trip.{IsHdr}
use tapip.Tcp.Hdr.Wire.{wire_bytes, IsParsed, tcp_segment_init-wire_bytes}
use tapip.Tcp.Listen.{fresh_sock}
use tapip.Tcp.Port.{tcp_port_used, chain_has_port, tcp_get_port}
use tapip.Tcp.Port.Free.{IsPort, IsFree, tcp_get_port-IsFree}
use tapip.Tcp.Text.Window.{IsBuffered}
use tapip.Tcp.Call.{Recv, tcp_recv_buf}
use tapip.Tcp.Call.Read.{IsRead, tcp_recv_buf-Reads}

-- a SYN+ACK from port 80, in host order, with an option of four bytes
abbrev syn_ack : TcpHdr
syn_ack = record (plain_hdr 80 8080 1000 4096 0) { doff = 6; syn = true; ack = true; window = 4096 }

abbrev syn_ack_packet : Ip
syn_ack_packet = record {
  ip_hlen = 5;
  ip_ver = 4;
  ip_tos = 0;
  ip_len = 46;
  ip_id = 7;
  ip_fragoff = 0;
  ip_ttl = 64;
  ip_pro = 6;
  ip_cksum = 0;
  ip_src = 0x0100000a;
  ip_dst = 0x0200000a;
  ip_opts = [];
  ip_data = wire_bytes syn_ack ++ ((2 ∷ 4 ∷ 5 ∷ 180 ∷ []) ++ (1 ∷ 2 ∷ []));
}

syn_ack-IsHdr : IsHdr syn_ack
syn_ack-IsHdr = record {
  src_fits = omega arith;
  dst_fits = omega arith;
  seq_fits = omega arith;
  ackn_fits = omega arith;
  doff_fits = omega arith;
  window_fits = omega arith;
  checksum_fits = omega arith;
  urgptr_fits = omega arith;
}

tcp_segment_init-wire_bytes_example :
    IsParsed syn_ack
      (1 ∷ 2 ∷ [])
      (tcp_segment_init syn_ack_packet (read_hdr syn_ack_packet.ip_data))
tcp_segment_init-wire_bytes_example =
    tcp_segment_init-wire_bytes syn_ack_packet syn_ack (2 ∷ 4 ∷ 5 ∷ 180 ∷ []) (1 ∷ 2 ∷ [])
      syn_ack-IsHdr refl refl refl (omega arith)

-- socket 0 listens on port 0x8000, 1 is its child, and 2 and 3 are in TIME-WAIT
abbrev parent : TcpSock
parent = record fresh_sock {
  sk = record (fresh_sock.sk) { sk_sport = htons 0x8000 };
  state = listen;
  backlog = pos 0;
  listen_queue = 1 ∷ [];
}

abbrev child : TcpSock
child = record fresh_sock { state = syn_recv; linked = true; parent = child_of 0 }

abbrev leaving : TcpSock
leaving = record fresh_sock { timeout = 2000000 }

abbrev sockets : ℕ → TcpSock
sockets zero = parent
sockets (suc zero) = child
sockets (suc (suc n)) = leaving

abbrev busy : Tcp
busy = record {
  socks = sockets;
  next_sk = 4;
  etable = λ k. [];
  ltable = λ k. [];
  btable = λ k. elim k [ zero ↦ 0 ∷ [] | suc n ↦ [] ];
  bfree = pos 0x7000;
  defport = 0x8000;
  next_iss = 12345678;
  tcp_id = 4;
  timewait = 2 ∷ 3 ∷ [];
  routes = [];
  out = [];
}

second_port : tcp_port_used busy (htons 0x8001) ≡ false
unfolding tcp_port_used chain_has_port htons
second_port = refl

tcp_get_port-IsFree_example :
    (port : ℕ) × (st' : Tcp) × (tcp_get_port busy ≡ some (htons port, st'))
    × IsFree busy port
    × IsPort st'.defport
unfolding lebℤ
tcp_get_port-IsFree_example =
    tcp_get_port-IsFree busy 0x8001 refl (record { above = omega arith; below = omega arith })
      (record { above = omega arith; below = omega arith }, second_port)

-- a buffer of 8 bytes with three in it
abbrev reader : TcpSock
reader = record fresh_sock {
  rcv_buf =
      some (record { head = 3; tail = 0; size = 8; buf = 7 ∷ 8 ∷ 9 ∷ 0 ∷ 0 ∷ 0 ∷ 0 ∷ 0 ∷ [] });
  rcv_wnd = 5;
  state = established;
}

reader-IsBuffered : IsBuffered reader
reader-IsBuffered = record {
  valid = record {
    live = record { sized = refl; ordered = omega arith; fits = omega arith; below = omega arith };
    tail_in = omega arith;
  };
  window = refl;
  bounded = omega arith;
  counted = omega arith;
}

tcp_recv_buf-Reads_example :
    (r : Recv) × (tcp_recv_buf reader 2 ≡ some (some r)) × IsRead reader 2 r
tcp_recv_buf-Reads_example = tcp_recv_buf-Reads reader 2 reader-IsBuffered refl
