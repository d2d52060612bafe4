-- ===== src/Inet/Found.antt =====
-- inet_bind and inet_connect on UDP: which socket a bound port leads to afterwards.
use tapip.Base.{ℕ, ◌≡◌, ◌≢◌, refl, ◌∙◌, List, [], ◌∷◌, some, true, false, ◌==◌, htons, arith}
use mathlib.Core.Path.{subst}
use tapip.Net.{Rtentry}
use tapip.Route.{rt_lookup}
use tapip.Sock.{Sock}
use tapip.Inet.{
  SockAddr, Devices, local_address, bind_port, inet_bind, sock_autobind, connect_by, inet_connect,
}
use tapip.Inet.Laws.{UdpSets, udp_set_sport-Sets}
use tapip.Inet.Protocols.{udp_ops}
use tapip.Udp.{Udp, modify}
use tapip.Udp.Port.{chain_has_port, port_used, find_port, udp_find_sock, udp_set_sport}
use tapip.Udp.Port.Bind.{IsOff, udp_find_sock-udp_set_sport}

-- A change of a socket that keeps its port keeps what the chains are searched for.
module _ (st : Udp) (i : ℕ) (f : Sock → Sock)
    (kept : (st.socks i).sk_sport ≡ (f (st.socks i)).sk_sport) where
  modify-chain_has_port :
      (port : ℕ) (chain : List ℕ)
      → chain_has_port (modify st i f) port chain ≡ chain_has_port st port chain
  unfolding chain_has_port
  modify-chain_has_port port [] = refl
  modify-chain_has_port port (j ∷ chain) = ground (arith, modify-chain_has_port port chain)

  modify-port_used : (port : ℕ) → port_used (modify st i f) port ≡ port_used st port
  unfolding port_used
  modify-port_used port = modify-chain_has_port port _

  modify-find_port :
      (nport : ℕ) (chain : List ℕ)
      → find_port (modify st i f) nport chain ≡ find_port st nport chain
  unfolding find_port
  modify-find_port nport [] = refl
  modify-find_port nport (j ∷ chain) = ground (arith, modify-find_port nport chain)

  modify-udp_find_sock : (nport : ℕ) → udp_find_sock (modify st i f) nport ≡ udp_find_sock st nport
  unfolding udp_find_sock
  modify-udp_find_sock nport = modify-find_port nport _

-- inet_bind of a UDP socket without a port, on no chain, to an address of this host and a port other
-- than 0 that nobody uses, returns 0; then datagrams for the port lead to the socket, and those for
-- every other port where they led before.
pub udp_find_sock-inet_bind :
    (unset : ℕ × ℕ) (d : Devices) (st : Udp) (i : ℕ) (a : SockAddr)
    → (st.socks i).sk_sport ≡ 0
    → local_address d a.src_addr ≡ true
    → a.src_port ≢ 0
    → port_used st (htons a.src_port) ≡ false
    → ((k : ℕ) → IsOff i (st.head k))
    → (st' : Udp) × (inet_bind (udp_ops unset) d st i a ≡ some (true, st'))
      × (udp_find_sock st' a.src_port ≡ some i)
      × ((other : ℕ) → other ≢ a.src_port → udp_find_sock st' other ≡ udp_find_sock st other)
unfolding inet_bind bind_port
udp_find_sock-inet_bind unset d st i a unbound l p free off =
    let at_addr : Sock → Sock = λ sk. record sk { sk_saddr = a.src_addr } in
    let clear : Sock → Sock = λ sk. record sk { sk_daddr = 0; sk_dport = 0 } in
    let st0 = modify st i at_addr in
    let (st1, set, found, others) =
      udp_find_sock-udp_set_sport st0 i a.src_port p
        (modify-port_used st i at_addr refl (htons a.src_port) ∙ free) off in
    let z : ((st.socks i).sk_sport == 0) ≡ true = ground arith in
    (
      modify st1 i clear,
      rw z (rw l (rw set refl)),
      modify-udp_find_sock st1 i clear refl a.src_port ∙ found,
      λ other n.
          modify-udp_find_sock st1 i clear refl other
          ∙ others other n
          ∙ modify-udp_find_sock st i at_addr refl other,
    )

-- inet_connect of a UDP socket that has no port, to an address with a route, returns -1 when a port
-- was free, but leaves the socket on that port and with the address of the route's device.
inet_connect-udp_stays :
    (st st' : Udp) (i : ℕ) (a : SockAddr) (rt : Rtentry)
    → a.dst_port ≢ 0
    → a.dst_addr ≢ 0
    → (st.socks i).sk_dport ≡ 0
    → (st.socks i).sk_sport ≡ 0
    → udp_set_sport st i 0 ≡ (true, st')
    → rt_lookup st'.routes a.dst_addr ≡ some rt
    → (end : Udp) × (inet_connect (udp_ops (0, 0)) st i a ≡ some (false, end))
      × ((end.socks i).sk_sport ≢ 0)
      × ((end.socks i).sk_saddr ≡ rt.rt_dev.net_ipaddr)
unfolding inet_connect sock_autobind connect_by
inet_connect-udp_stays st st' i a rt p q fresh unbound set route =
    let z1 : (a.dst_port == 0) ≡ false = ground arith in
    let z2 : (a.dst_addr == 0) ≡ false = ground arith in
    let z3 : ((st.socks i).sk_dport == 0) ≡ true = ground arith in
    let z4 : ((st.socks i).sk_sport == 0) ≡ true = ground arith in
    let s : UdpSets st i (true, st') = subst (UdpSets st i) set (udp_set_sport-Sets st i 0) in
    let there : Sock → Sock =
      λ sk. record sk { sk_dst = some rt; sk_saddr = rt.rt_dev.net_ipaddr } in
    (
      modify st' i there,
      rw z1 (rw z2 (rw z3 (rw z4 (rw set (rw (connect_by, route) refl))))),
      (λ z. ground (arith, s.0)),
      ground arith,
    )
