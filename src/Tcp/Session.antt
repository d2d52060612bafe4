-- ===== src/Tcp/Session.antt =====
-- A TCP connection from its first segment to TIME-WAIT, at an example.
use tapip.Base.{
  length, replicate, ℕ, ◌+◌, ◌≡◌, refl, List, [], ◌∷◌, ◌++◌, Option, none, some, true, htons, htonl,
}
use tapip.Base.Ints.{pos, incr, decr, lebℤ}
use tapip.Cbuf.{alloc_cbuf, write_cbuf, write_loop, read_cbuf, read_loop, update_io_point}
use tapip.Net.{Netdev, Rtentry, Ip}
use tapip.Route.{rt_lookup, rt_output}
use tapip.Sock
use tapip.Sock.{Sock, unlink}
use tapip.Tcp.{tcp_set_state, get_tcp_sock, free_sock, alloc_new_iss}
use tapip.Tcp.Hdr.{hdr_bytes, read_hdr, tcp_segment_init}
use tapip.Tcp.Out.{
  fill_ip, cache_dst, init_by, tcp_init_pkb, with_checksum, send_between, tcp_send_out, reset_hdr,
  ack_hdr, synack_hdr, syn_hdr, fin_hdr, tcp_send_reset, tcp_send_ack, tcp_send_synack,
  tcp_send_syn, tcp_send_fin,
}
use tapip.Tcp.Hash.{
  tcp_ehashfn, is_pair, tcp_ehash_conflict, find_establish, find_listen, tcp_lookup_sock_establish,
  tcp_lookup_sock_listen, tcp_lookup_sock, hash_establish, hash_listen, tcp_hash, sock_del_hash,
  tcp_unhash,
}
use tapip.Tcp.Port.{
  chain_has_port, tcp_port_used, port_loop, tcp_get_port, tcp_bhash, take_port, tcp_set_sport,
  tcp_unbhash,
}
use tapip.Tcp.Text.{
  tcp_free_buf, tcp_free_reass_head, tcp_write_buf, adjacent_head, reass_place, drop_covered,
  write_reass, insert_reass, reass_at, tcp_segment_reass, recv_next, recv_later, recv_from,
  recv_text, tcp_recv_notify, tcp_recv_text,
}
use tapip.Tcp.Send.{text_hdr, send_piece, send_loop, tcp_send_text}
use tapip.Tcp.Timer.{tcp_set_timewait_timer, timewait_expire, timewait_loop, tcp_timewait_timer}
use tapip.Tcp.Listen.{new_sock, tcp_alloc_sock, adopt, tcp_listen_child_sock, start_child}
use tapip.Tcp.Process.{
  tcp_closed, synsent_syn, tcp_synsent, tcp_accept_enqueue, synrecv_at, synrecv_by, tcp_synrecv_ack,
  seq_check, tcp_update_window,
}
use tapip.Tcp.Step.{
  abort, refuse_syn, ack_synrecv, acked, ack_open, ack_check, text_check, fin_state, fin_check,
  drop_label, text_and_fin, ack_and_on, process_open, process_by, tcp_process, tcp_recv, tcp_in,
}
use tapip.Tcp.Call.{
  tcp_connect, tcp_connect_woken, tcp_listen, tcp_accept_dequeue, leave_parent, tcp_accept,
  clear_child, clear_listen, tcp_clear_listen_queue, close_to, close_listen, close_state, tcp_close,
  tcp_send_buf, recv_loop, recv_woken, tcp_recv_buf,
}
use tapip.Tcp.{TcpHdr, TcpState, closed, listen, established, close_wait, Tcp, modify}
use tapip.Tcp.Listen
use tapip.Tcp.Out.{plain_hdr}
use tapip.Tcp.Listen.{fresh_sock}

abbrev device : Netdev
device = record {
  id = 1;
  net_mtu = 44;
  net_ipaddr = 0x0100000a;
  net_mask = 0xffffff;
  net_hwaddr = [];
}

abbrev route : Rtentry
route = record {
  rt_net = 0;
  rt_netmask = 0;
  rt_gw = 0;
  rt_flags = 0;
  rt_metric = 0;
  rt_dev = device;
}

-- no socket yet
abbrev empty : Tcp
empty = record {
  socks = λ j. fresh_sock;
  next_sk = 0;
  etable = λ k. [];
  ltable = λ k. [];
  btable = λ k. [];
  bfree = pos 0x7001;
  defport = 0x8000;
  next_iss = 12345678;
  tcp_id = 0;
  timewait = [];
  routes = route ∷ [];
  out = [];
}

abbrev and_then : Option Tcp → (Tcp → Option Tcp) → Option Tcp
and_then none f = none
and_then (some st) f = f st

abbrev second : {A : Type 0} → A × Tcp → Tcp
second r = r.1

abbrev ip_of : List ℕ → Ip
ip_of text = record {
  ip_hlen = 5;
  ip_ver = 4;
  ip_tos = 0;
  ip_len = 40 + length text;
  ip_id = 0;
  ip_fragoff = 0;
  ip_ttl = 64;
  ip_pro = 6;
  ip_cksum = 0;
  ip_src = 0x0200000a;
  ip_dst = 0x0100000a;
  ip_opts = [];
  ip_data = replicate 20 0 ++ text;
}

abbrev hdr : ℕ → ℕ → TcpHdr
hdr seq ackn = plain_hdr (htons 5000) (htons 80) (htonl seq) (htonl ackn) (htons 1000)

-- a server's socket, bound to port 80, that listens and is about to accept
abbrev listening : Option Tcp
listening =
    let bound : Tcp = elim (tcp_set_sport (second (new_sock empty)) 0 (htons 80)) [
      | none ↦ empty
      | some r ↦ r.1
    ] in
    some (modify (second (tcp_listen bound 0 (pos 2))) 0 (λ tsk. record tsk { wait_accept = true }))

-- the handshake
abbrev opened : Option Tcp
opened =
    and_then
      (and_then listening (λ st. tcp_recv st (ip_of []) (record (hdr 1000 0) { syn = true })))
      (λ st. tcp_recv st (ip_of []) (record (hdr 1001 12345680) { ack = true }))

abbrev accepted : Option Tcp
accepted = and_then opened (λ st. elim (tcp_accept st 0) [ none ↦ none | some r ↦ some r.1 ])

-- text, the peer's FIN, the user's close, and the acknowledgement of the FIN
abbrev got_text : Option Tcp
got_text = and_then accepted (λ st.
    tcp_recv st (ip_of (7 ∷ 8 ∷ 9 ∷ [])) (record (hdr 1001 12345680) { ack = true; psh = true }))

abbrev got_fin : Option Tcp
got_fin =
    and_then got_text
      (λ st. tcp_recv st (ip_of []) (record (hdr 1004 12345680) { ack = true; fin = true }))

abbrev sent_text : Option Tcp
sent_text =
    and_then got_fin (λ st. elim (tcp_send_buf st 1 (1 ∷ 2 ∷ 3 ∷ 4 ∷ 5 ∷ []) 5) [
      | none ↦ none
      | some r ↦ some r.1
    ])

abbrev closed_down : Option Tcp
closed_down =
    and_then sent_text
      (λ st. tcp_recv (tcp_close st 1) (ip_of []) (record (hdr 1005 12345686) { ack = true }))

abbrev states : Option Tcp → List TcpState
states none = []
states (some st) = (st.socks 0).state ∷ (st.socks 1).state ∷ []

listening_state : states listening ≡ listen ∷ closed ∷ []
unfolding tcp_set_state get_tcp_sock free_sock alloc_new_iss hdr_bytes read_hdr tcp_segment_init
    fill_ip cache_dst init_by tcp_init_pkb with_checksum send_between tcp_send_out reset_hdr ack_hdr
    synack_hdr syn_hdr fin_hdr tcp_send_reset tcp_send_ack tcp_send_synack tcp_send_syn tcp_send_fin
    tcp_ehashfn is_pair tcp_ehash_conflict find_establish find_listen tcp_lookup_sock_establish
    tcp_lookup_sock_listen tcp_lookup_sock hash_establish hash_listen tcp_hash sock_del_hash
    tcp_unhash chain_has_port tcp_port_used port_loop tcp_get_port tcp_bhash take_port tcp_set_sport
    tcp_unbhash tcp_free_buf tcp_free_reass_head tcp_write_buf adjacent_head reass_place
    drop_covered write_reass insert_reass reass_at tcp_segment_reass recv_next recv_later recv_from
    recv_text tcp_recv_notify tcp_recv_text text_hdr send_piece send_loop tcp_send_text
    tcp_set_timewait_timer timewait_expire timewait_loop tcp_timewait_timer new_sock tcp_alloc_sock
    adopt tcp_listen_child_sock start_child tcp_closed synsent_syn tcp_synsent tcp_accept_enqueue
    synrecv_at synrecv_by tcp_synrecv_ack seq_check tcp_update_window abort refuse_syn ack_synrecv
    acked ack_open ack_check text_check fin_state fin_check drop_label text_and_fin ack_and_on
    process_open process_by tcp_process tcp_recv tcp_in tcp_connect tcp_connect_woken tcp_listen
    tcp_accept_dequeue leave_parent tcp_accept clear_child clear_listen tcp_clear_listen_queue
    close_to close_listen close_state tcp_close tcp_send_buf recv_loop recv_woken tcp_recv_buf
    Listen.tcp_listen Sock.get_sock Sock.free_sock unlink incr decr lebℤ alloc_cbuf write_cbuf
    write_loop read_cbuf read_loop update_io_point rt_lookup rt_output htons htonl
listening_state = refl

opened_state : states opened ≡ listen ∷ established ∷ []
unfolding tcp_set_state get_tcp_sock free_sock alloc_new_iss hdr_bytes read_hdr tcp_segment_init
    fill_ip cache_dst init_by tcp_init_pkb with_checksum send_between tcp_send_out reset_hdr ack_hdr
    synack_hdr syn_hdr fin_hdr tcp_send_reset tcp_send_ack tcp_send_synack tcp_send_syn tcp_send_fin
    tcp_ehashfn is_pair tcp_ehash_conflict find_establish find_listen tcp_lookup_sock_establish
    tcp_lookup_sock_listen tcp_lookup_sock hash_establish hash_listen tcp_hash sock_del_hash
    tcp_unhash chain_has_port tcp_port_used port_loop tcp_get_port tcp_bhash take_port tcp_set_sport
    tcp_unbhash tcp_free_buf tcp_free_reass_head tcp_write_buf adjacent_head reass_place
    drop_covered write_reass insert_reass reass_at tcp_segment_reass recv_next recv_later recv_from
    recv_text tcp_recv_notify tcp_recv_text text_hdr send_piece send_loop tcp_send_text
    tcp_set_timewait_timer timewait_expire timewait_loop tcp_timewait_timer new_sock tcp_alloc_sock
    adopt tcp_listen_child_sock start_child tcp_closed synsent_syn tcp_synsent tcp_accept_enqueue
    synrecv_at synrecv_by tcp_synrecv_ack seq_check tcp_update_window abort refuse_syn ack_synrecv
    acked ack_open ack_check text_check fin_state fin_check drop_label text_and_fin ack_and_on
    process_open process_by tcp_process tcp_recv tcp_in tcp_connect tcp_connect_woken tcp_listen
    tcp_accept_dequeue leave_parent tcp_accept clear_child clear_listen tcp_clear_listen_queue
    close_to close_listen close_state tcp_close tcp_send_buf recv_loop recv_woken tcp_recv_buf
    Listen.tcp_listen Sock.get_sock Sock.free_sock unlink incr decr lebℤ alloc_cbuf write_cbuf
    write_loop read_cbuf read_loop update_io_point rt_lookup rt_output htons htonl
opened_state = refl

got_fin_state : states got_fin ≡ listen ∷ close_wait ∷ []
unfolding tcp_set_state get_tcp_sock free_sock alloc_new_iss hdr_bytes read_hdr tcp_segment_init
    fill_ip cache_dst init_by tcp_init_pkb with_checksum send_between tcp_send_out reset_hdr ack_hdr
    synack_hdr syn_hdr fin_hdr tcp_send_reset tcp_send_ack tcp_send_synack tcp_send_syn tcp_send_fin
    tcp_ehashfn is_pair tcp_ehash_conflict find_establish find_listen tcp_lookup_sock_establish
    tcp_lookup_sock_listen tcp_lookup_sock hash_establish hash_listen tcp_hash sock_del_hash
    tcp_unhash chain_has_port tcp_port_used port_loop tcp_get_port tcp_bhash take_port tcp_set_sport
    tcp_unbhash tcp_free_buf tcp_free_reass_head tcp_write_buf adjacent_head reass_place
    drop_covered write_reass insert_reass reass_at tcp_segment_reass recv_next recv_later recv_from
    recv_text tcp_recv_notify tcp_recv_text text_hdr send_piece send_loop tcp_send_text
    tcp_set_timewait_timer timewait_expire timewait_loop tcp_timewait_timer new_sock tcp_alloc_sock
    adopt tcp_listen_child_sock start_child tcp_closed synsent_syn tcp_synsent tcp_accept_enqueue
    synrecv_at synrecv_by tcp_synrecv_ack seq_check tcp_update_window abort refuse_syn ack_synrecv
    acked ack_open ack_check text_check fin_state fin_check drop_label text_and_fin ack_and_on
    process_open process_by tcp_process tcp_recv tcp_in tcp_connect tcp_connect_woken tcp_listen
    tcp_accept_dequeue leave_parent tcp_accept clear_child clear_listen tcp_clear_listen_queue
    close_to close_listen close_state tcp_close tcp_send_buf recv_loop recv_woken tcp_recv_buf
    Listen.tcp_listen Sock.get_sock Sock.free_sock unlink incr decr lebℤ alloc_cbuf write_cbuf
    write_loop read_cbuf read_loop update_io_point rt_lookup rt_output htons htonl
got_fin_state = refl

closed_down_state : states closed_down ≡ listen ∷ closed ∷ []
unfolding tcp_set_state get_tcp_sock free_sock alloc_new_iss hdr_bytes read_hdr tcp_segment_init
    fill_ip cache_dst init_by tcp_init_pkb with_checksum send_between tcp_send_out reset_hdr ack_hdr
    synack_hdr syn_hdr fin_hdr tcp_send_reset tcp_send_ack tcp_send_synack tcp_send_syn tcp_send_fin
    tcp_ehashfn is_pair tcp_ehash_conflict find_establish find_listen tcp_lookup_sock_establish
    tcp_lookup_sock_listen tcp_lookup_sock hash_establish hash_listen tcp_hash sock_del_hash
    tcp_unhash chain_has_port tcp_port_used port_loop tcp_get_port tcp_bhash take_port tcp_set_sport
    tcp_unbhash tcp_free_buf tcp_free_reass_head tcp_write_buf adjacent_head reass_place
    drop_covered write_reass insert_reass reass_at tcp_segment_reass recv_next recv_later recv_from
    recv_text tcp_recv_notify tcp_recv_text text_hdr send_piece send_loop tcp_send_text
    tcp_set_timewait_timer timewait_expire timewait_loop tcp_timewait_timer new_sock tcp_alloc_sock
    adopt tcp_listen_child_sock start_child tcp_closed synsent_syn tcp_synsent tcp_accept_enqueue
    synrecv_at synrecv_by tcp_synrecv_ack seq_check tcp_update_window abort refuse_syn ack_synrecv
    acked ack_open ack_check text_check fin_state fin_check drop_label text_and_fin ack_and_on
    process_open process_by tcp_process tcp_recv tcp_in tcp_connect tcp_connect_woken tcp_listen
    tcp_accept_dequeue leave_parent tcp_accept clear_child clear_listen tcp_clear_listen_queue
    close_to close_listen close_state tcp_close tcp_send_buf recv_loop recv_woken tcp_recv_buf
    Listen.tcp_listen Sock.get_sock Sock.free_sock unlink incr decr lebℤ alloc_cbuf write_cbuf
    write_loop read_cbuf read_loop update_io_point rt_lookup rt_output htons htonl
closed_down_state = refl
