-- ===== src/Inet/Protocols.antt =====
-- udp_ops, tcp_ops and raw_ops with inet_type_table of socket/inet.c: what the protocols put into
-- the socket layer's interface.
use tapip.Base.{ℕ, Option, none, some, false, length, ◌==◌, if◌then◌else◌}
use tapip.Base.Ints.{pos}
use tapip.Route
use tapip.Sock.{Received, sock_recv_pkb}
use tapip.Inet.{SockAddr, SockOps, sock_close, inet_socket}
use tapip.Raw
use tapip.Raw.{Raw, raw_init, raw_alloc_sock, raw_hash, raw_unhash, raw_send_buf}
use tapip.Tcp
use tapip.Tcp.{Tcp, tcp_init}
use tapip.Tcp.Call.{
  Recv, tcp_connect, tcp_listen, tcp_accept, tcp_close, tcp_send_buf, tcp_recv_buf,
}
use tapip.Tcp.Hash.{tcp_hash}
use tapip.Tcp.Listen.{tcp_alloc_sock}
use tapip.Tcp.Port.{tcp_set_sport}
use tapip.Udp
use tapip.Udp.{Udp, udp_init, udp_alloc_sock, udp_hash}
use tapip.Udp.Port.{udp_set_sport, udp_unhash}
use tapip.Udp.Send.{udp_send_buf}

abbrev pair_of : Option SockAddr → Option (ℕ × ℕ)
pair_of none = none
pair_of (some a) = some (a.dst_addr, a.dst_port)

-- `unset` is what udp_send_buf reads of its variable when nothing has set it.
abbrev pub udp_ops : ℕ × ℕ → SockOps Udp Received
udp_ops unset = record {
  type = 2;
  protocol = 17;
  sock = λ st. st.socks;
  modify = Udp.modify;
  routes = λ st. st.routes;
  alloc_sock = udp_alloc_sock;
  hash = some udp_hash;
  bind = none;
  set_port = some (λ st i nport. some (udp_set_sport st i nport));
  connect = none;
  listen = none;
  accept = none;
  send_buf = some (λ st i buf a. some (udp_send_buf st unset i buf (length buf) (pair_of a)));
  recv_buf = none;
  recv = some (λ st i. some (sock_recv_pkb (st.socks i) false));
  close =
      sock_close (λ (st : Udp). st.socks) Udp.modify udp_unhash
        (λ st pkb. Udp.emit st (Udp.pkb_freed pkb));
}

-- The routing table stands outside the table of raw sockets. Without an address raw_send_buf follows
-- a NULL pointer.
abbrev pub raw_ops : Route.Table → SockOps Raw Received
raw_ops routes = record {
  type = 3;
  protocol = 0;
  sock = λ st. st.socks;
  modify = Raw.modify;
  routes = λ st. routes;
  alloc_sock = raw_alloc_sock;
  hash = some raw_hash;
  bind = none;
  set_port = none;
  connect = none;
  listen = none;
  accept = none;
  send_buf = some (λ st i buf a. elim a [
    | none ↦ none
    | some skaddr ↦ some (raw_send_buf st i buf skaddr.dst_addr)
  ]);
  recv_buf = none;
  recv = some (λ st i. some (sock_recv_pkb (st.socks i) false));
  close =
      sock_close (λ (st : Raw). st.socks) Raw.modify raw_unhash
        (λ st pkb. Raw.emit st (Raw.pkb_freed pkb));
}

-- `true` from tcp_connect says that the SYN is out and the call sleeps; an accept that finds no
-- child sleeps. The result of a read is the outcome up to its first sleep.
abbrev pub tcp_ops : SockOps Tcp (Option Recv)
tcp_ops = record {
  type = 1;
  protocol = 6;
  sock = λ st i. (st.socks i).sk;
  modify = λ st i f. Tcp.modify st i (λ tsk. record tsk { sk = f tsk.sk });
  routes = λ st. st.routes;
  alloc_sock = tcp_alloc_sock;
  hash = some (λ st i. (tcp_hash st i).1);
  bind = none;
  set_port = some tcp_set_sport;
  connect = some (λ st i skaddr. some (tcp_connect st i skaddr.dst_addr skaddr.dst_port));
  listen = some (λ st i backlog. some (tcp_listen st i (pos backlog)));
  accept =
      some (λ st i. elim (tcp_accept st i) [ none ↦ none | some (c, st') ↦ some (some c, st') ]);
  send_buf = some (λ st i buf a. tcp_send_buf st i buf (length buf));
  recv_buf = some (λ st i len. tcp_recv_buf (st.socks i) len);
  recv = none;
  close = tcp_close;
}

-- the tables of the three protocols
pub record Protocols : Type 0 where
  pub raw : Raw
  pub udp : Udp
  pub tcp : Tcp

-- inet_init, which is also socket_init
unfoldable pub inet_init : Protocols → Protocols
inet_init p = record { raw = raw_init p.raw; udp = udp_init p.udp; tcp = tcp_init p.tcp }

abbrev with_tcp : Protocols → Option ℕ × Tcp → Option ℕ × Protocols
with_tcp p (sk, tcp) = (sk, record p { tcp = tcp })

abbrev with_udp : Protocols → Option ℕ × Udp → Option ℕ × Protocols
with_udp p (sk, udp) = (sk, record p { udp = udp })

abbrev with_raw : Protocols → Option ℕ × Raw → Option ℕ × Protocols
with_raw p (sk, raw) = (sk, record p { raw = raw })

-- inet_socket with inet_type_table: the socket that it stores, where the inner `none` is the result
-- -1. The type 0 has an entry in the table, whose alloc_sock is NULL.
unfoldable pub inet_socket_of : Protocols → Route.Table → ℕ → ℕ → Option (Option ℕ × Protocols)
inet_socket_of p routes type protocol =
    if type == 0
    then none
    else if type == 1
    then some (with_tcp p (inet_socket tcp_ops p.tcp protocol))
    else if type == 2
    then some (with_udp p (inet_socket (udp_ops (0, 0)) p.udp protocol))
    else if type == 3
    then some (with_raw p (inet_socket (raw_ops routes) p.raw protocol))
    else some (none, p)
