-- ===== src/Lib.antt =====
-- tapip, a TCP/IP stack in user space: frames come in from a device, ARP and IP take them apart,
-- and ICMP, UDP and TCP hand the data on to sockets. On the way out the routing table chooses the
-- device and the ARP cache the hardware address.
--
-- Base           helpers: Boolean tests, lists indexed by native numbers, machine words with their
--                wrap-around and the byte swaps of include/netif.h.
-- Cbuf           lib/cbuf.c and include/cbuf.h: the circular buffer behind a TCP receive queue, its
--                macros and both loops. Cbuf.Inv has the invariant, Cbuf.Span the bytes it holds.
-- Checksum       lib/checksum.c: every function, on the bytes behind the pointers.
-- Net            the structures of include/netif.h, include/ip.h, include/route.h and include/arp.h,
--                and the events that the handlers let out.
-- Route          ip/route.c: the routing table as a list in descending order of netmasks.
-- Arp.Cache      arp/arp_cache.c and arp_request of arp/arp.c: a table of 20 entries; a pointer to
--                an entry is its index.
-- Arp.Packet     arp/arp.c: receiving, learning and answering.
-- Ip.Frag        ip/ip_frag.c: the table of fragments, reassembly, and the pieces of a packet that is
--                too long for a device. Ip.Frag.Cut has the pieces, Ip.Frag.Insert and
--                Ip.Frag.Join follow them through the table; Ip.Frag.Timer is ip_timer.
-- Ip.Out         ip/ip_out.c and ip_send_frag: the way of a packet to the ARP cache and a device.
-- Ip.In          ip/ip_in.c: the checks of ip_in and ip_recv_route; what goes to ip_recv_local is a
--                result, which Host hands on. Ip.In.Checked has what the checks let through.
-- Icmp           ip/icmp.c: icmp_in, the echo reply with its checksum, and icmp_send.
-- Forward        ip/ip_forward.c and rt_input of ip/route.c: packets for other hosts.
--
-- Sock           socket/sock.c and include/sock.h: struct sock and its reference count.
-- Tcp            include/tcp.h and tcp/: the sockets in a table under their numbers, with the hash
--                tables and counters. Tcp.Hdr and Tcp.Out have the segments (tcp_in.c, tcp_out.c),
--                Tcp.Hash and Tcp.Port the tables of tcp_sock.c, Tcp.Text and Tcp.Send the text
--                (tcp_text.c, tcp_reass.c), Tcp.Timer tcp_timer.c, Tcp.Listen, Tcp.Process and
--                Tcp.Step the state machine (tcp_state.c), and Tcp.Call the calls of tcp_sock.c.
--                Tcp.Step.Diagram has the states that RFC 793 asks for, and Tcp.Hdr.Wire its header.
-- Udp            udp/udp_sock.c and udp/udp.c: Udp.Port has the port table, Udp.In and Udp.Send the
--                datagrams.
-- Raw            socket/raw_sock.c, ip/raw.c and copy_pkb of net/pkb.c: the table of raw sockets, and
--                packets in and out.
-- Wait           include/wait.h: the structure that calls sleep on, with the threads that sleep on it
--                and wake it as a step relation.
-- Inet           socket/inet.c, sock_close and sock_autobind of socket/sock.c and local_address of
--                net/netdev.c: the calls of inet_ops over SockOps, the record of the operations
--                that struct sock_ops holds. Inet.Protocols has the tables of UDP, TCP and raw
--                sockets, Inet.Bind what inet_bind asks of a protocol, and Inet.Laws that UDP and
--                TCP do it.
-- Socket         socket/socket.c: the calls of the user, which hold the socket while they run.
-- Host           ip_recv_local of ip/ip_in.c and net/net.c: the whole stack, from a frame to the
--                protocols, and the timer that ticks once a second.
--
-- Functions keep the names of the source. A function that changes a static table takes it and
-- returns it; what it gives to a device or frees stands in a list of events beside it. An unsigned
-- integer of w bits is a number below 2 ^ w with its wrap-around written out. Numbers and addresses
-- in network order are the ones that the little-endian host reads.
--
-- The loops of the circular buffer run on fuel 3, which is enough for every valid buffer: at most
-- two rounds copy, and the last test ends the loop. The loop of ip_send_frag runs on one more than
-- the length of the data, which is enough if the device has room for 8 bytes behind a header, since
-- each round then takes some. The search for a free TCP port runs on the number of ports, that of
-- UDP on 256, more than a slot has, the loop that sends text on one more than its bytes, and that
-- of tcp_recv_buf on 2, since one round empties the buffer. The other loops follow a list or count
-- down.
--
-- Locks and threads are modelled in Wait and Socket.Held only: elsewhere every operation is one step.
-- Socket.Held takes get_socket, free_socket and _close as one step each, although the code changes the
-- reference count without a lock. The stream theorems of Tcp take sequence numbers that do not wrap
-- around. A copy of a packet for a raw socket that ends inside the headers is not defined, and an event
-- stands for it. The drivers under net/, the shell, the applications and the printing of tables are I/O,
-- and are left out. A call that sleeps is cut in two at sleep_on; the calls of Inet and Socket go up to
-- there. What TCP and UDP give to ip_send_out is an event.
pub mod Base
pub mod Cbuf
pub mod Checksum
pub mod Net
pub mod Route
pub mod Arp
pub mod Ip
pub mod Icmp
pub mod Forward
pub mod Sock
pub mod Tcp
pub mod Udp
pub mod Wait
pub mod Raw
pub mod Host
pub mod Inet
pub mod Socket
