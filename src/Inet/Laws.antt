-- ===== src/Inet/Laws.antt =====
-- What inet_bind asks of a protocol holds for UDP and TCP.
use tapip.Base.{
  ℕ, ◌≡◌, refl, ap, ◌∙◌, Option, some, Bool, ◌==◌, not, htons, if-cases, Option-cases, inl, inr,
  arith,
}
use tapip.Sock
use tapip.Sock.{Sock}
use tapip.Inet.Bind.{Sets, BindLaws}
use tapip.Inet.Protocols.{udp_ops, tcp_ops}
use tapip.Tcp.{Tcp, TcpSock, get_tcp_sock}
use tapip.Tcp.Port.{
  take_port as tcp_take, tcp_get_port, tcp_port_used, take_free_port, tcp_bhash, tcp_set_sport,
}
use tapip.Udp.{Udp, udp_hash}
use tapip.Udp.Port.{
  take_port as udp_take, port_used, count_best, udp_get_best_port, udp_get_port_slow, udp_get_port,
  udp_update_best, udp_set_sport,
}

udp_get_best_port-socks : (st : Udp) → (udp_get_best_port st).1.socks ≡ st.socks
unfolding udp_get_best_port
udp_get_best_port-socks st = ground arith

udp_get_port-socks : (st : Udp) → (udp_get_port st).1.socks ≡ st.socks
unfolding udp_get_port udp_get_port_slow count_best
udp_get_port-socks st = grind (arith, udp_get_best_port-socks)

udp_take_port :
    (st : Udp) (i nport : ℕ)
    → (((udp_take st i nport).socks i).sk_sport ≡ nport)
      × (((udp_take st i nport).socks i).sk_saddr ≡ (st.socks i).sk_saddr)
unfolding udp_take udp_hash udp_update_best Sock.get_sock
udp_take_port st i nport = (ground arith, ground arith)

tcp_take_port :
    (st : Tcp) (i nport : ℕ)
    → (((tcp_take st i nport).socks i).sk.sk_sport ≡ nport)
      × (((tcp_take st i nport).socks i).sk.sk_saddr ≡ (st.socks i).sk.sk_saddr)
unfolding tcp_take tcp_bhash get_tcp_sock Sock.get_sock
tcp_take_port st i nport = (ground arith, ground arith)

-- the result of udp_set_sport and of tcp_set_sport
abbrev pub UdpSets : Udp → ℕ → Bool × Udp → Type 0
UdpSets st i r = Sets (udp_ops (0, 0)) i (st.socks i) (some r)

pub udp_set_sport-Sets : (st : Udp) (i nport : ℕ) → UdpSets st i (udp_set_sport st i nport)
unfolding udp_set_sport
udp_set_sport-Sets st i nport =
    if-cases (UdpSets st i) (not (nport == 0))
      (λ given.
        if-cases (UdpSets st i) (port_used st (htons nport)) (λ used. tt)
          (λ free. let (p, a) = udp_take_port st i nport in ((λ z. ground (arith, p)), a)))
      (λ any.
        if-cases (UdpSets st i) ((udp_get_port st).0 == 0) (λ failed. tt)
          (λ chosen.
            let (p, a) = udp_take_port (udp_get_port st).1 i (udp_get_port st).0 in
            (
              (λ z. ground (arith, p)),
              a ∙ ap (λ (socks : ℕ → Sock). (socks i).sk_saddr) (udp_get_port-socks st),
            )))

abbrev TcpSets : Tcp → ℕ → Option (Bool × Tcp) → Type 0
TcpSets st i r = Sets tcp_ops i ((st.socks i).sk) r

take_free_port-Sets :
    (st st' : Tcp) (i nport : ℕ)
    → st'.socks ≡ st.socks
    → TcpSets st i (some (take_free_port st' i nport))
take_free_port-Sets st st' i nport e =
    if-cases (λ r. TcpSets st i (some r)) (nport == 0) (λ failed. tt)
      (λ chosen.
        let (p, a) = tcp_take_port st' i nport in
        ((λ z. ground (arith, p)), a ∙ ap (λ (socks : ℕ → TcpSock). (socks i).sk.sk_saddr) e))

tcp_get_port-socks :
    (st st' : Tcp) (nport : ℕ) → tcp_get_port st ≡ some (nport, st') → st'.socks ≡ st.socks
unfolding tcp_get_port
tcp_get_port-socks st st' nport e = ground arith

tcp_set_sport-Sets : (st : Tcp) (i nport : ℕ) → TcpSets st i (tcp_set_sport st i nport)
unfolding tcp_set_sport
tcp_set_sport-Sets st i nport =
    if-cases (TcpSets st i) (not (nport == 0))
      (λ given.
        if-cases (λ r. TcpSets st i (some r)) (tcp_port_used st nport) (λ used. tt)
          (λ free. let (p, a) = tcp_take_port st i nport in ((λ z. ground (arith, p)), a)))
      (λ any. elim (Option-cases (tcp_get_port st)) [
        | inl e ↦ rw e tt
        | inr ((chosen, st'), e) ↦
            rw e (take_free_port-Sets st st' i chosen (tcp_get_port-socks st st' chosen e))
      ])

pub udp_ops-BindLaws : BindLaws (udp_ops (0, 0))
udp_ops-BindLaws = record {
  set_port = λ st i nport. some (udp_set_sport st i nport);
  common = refl;
  own = refl;
  sock-modify = λ st i f. ground arith;
  set_port-Sets = udp_set_sport-Sets;
}

pub tcp_ops-BindLaws : BindLaws tcp_ops
tcp_ops-BindLaws = record {
  set_port = tcp_set_sport;
  common = refl;
  own = refl;
  sock-modify = λ st i f. ground arith;
  set_port-Sets = tcp_set_sport-Sets;
}
