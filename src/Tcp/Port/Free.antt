-- ===== src/Tcp/Port/Free.antt =====
-- tcp_get_port and tcp_set_sport: the loop ends at a free port, and a port is given once.
use tapip.Base.{
  ℕ, zero, suc, ◌+◌, ◌-◌, ◌%◌, ◌≤◌, ◌<◌, ◌≡◌, ◌≢◌, refl, sym, ap, ◌∙◌, List, ◌∷◌, some, true, false,
  ◌==◌, ltb, if◌then◌else◌, if-cases, htons, arith,
}
use tapip.Base.Ints.{pos, decr, lebℤ}
use tapip.Sock.{get_sock}
use tapip.Tcp.{TcpSock, Tcp, modify, get_tcp_sock}
use tapip.Tcp.Port.{
  tcp_bport_min, tcp_bport_max, tcp_bhash_size, tcp_bports, next_port, chain_has_port,
  tcp_port_used, port_loop, tcp_get_port, tcp_bhash, take_port, tcp_set_sport,
}

clash {ℓ} : {A : Type ℓ} → true ≡ false → A
clash e = absurd (ground arith)

==_refl : (n : ℕ) → (n == n) ≡ true
==_refl n = ground arith

-- a port that the system may choose
pub record IsPort (port : ℕ) : Type 0 where
  pub above : tcp_bport_min ≤ port
  pub below : port ≤ tcp_bport_max

-- the number of steps from a port on to another, around the end of the range
abbrev distance : ℕ → ℕ → ℕ
distance port p = if ltb p port then p + tcp_bports - port else p - port

next_port-IsPort : (port : ℕ) → IsPort port → IsPort (next_port port)
next_port-IsPort port v = record {
  above = ground (arith, v.above);
  below = ground (arith, v.below);
}

distance_next :
    (port p : ℕ)
    → IsPort port
    → IsPort p
    → port ≢ p
    → distance (next_port port) p + 1 ≡ distance port p
distance_next port p v w n = ground (arith, v.above, v.below, w.above, w.below)

-- A port of the range that nobody uses.
abbrev pub IsFree : Tcp → ℕ → Type 0
IsFree st port = IsPort port × (tcp_port_used st (htons port) ≡ false)

port_loop-IsFree :
    (fuel : ℕ) (st : Tcp) (port p : ℕ)
    → IsPort port
    → IsFree st p
    → distance port p < fuel
    → (q : ℕ) × (port_loop fuel st port ≡ some q) × IsFree st q
unfolding port_loop
port_loop-IsFree zero st port p v w h = absurd (omega arith)
port_loop-IsFree (suc fuel) st port p v w h =
    if-cases (λ o. (q : ℕ) × (o ≡ some q) × IsFree st q) (tcp_port_used st (htons port))
      (λ b.
        let n : port ≢ p = λ e. clash (sym b ∙ ap (λ k. tcp_port_used st (htons k)) e ∙ w.1) in
        port_loop-IsFree fuel st (next_port port) p (next_port-IsPort port v) w
          (omega (arith, distance_next port p v w.0 n)))
      (λ b. (port, refl, (v, b)))

-- While the counter of free ports is above 0 and some port of the range is free, the loop of
-- tcp_get_port ends, and the port that it returns is a free port of the range; the next search begins
-- in the range again.
pub tcp_get_port-IsFree :
    (st : Tcp) (p : ℕ)
    → lebℤ st.bfree (pos 0) ≡ false
    → IsPort st.defport
    → IsFree st p
    → (port : ℕ) × (st' : Tcp) × (tcp_get_port st ≡ some (htons port, st'))
      × IsFree st port
      × IsPort st'.defport
unfolding tcp_get_port
tcp_get_port-IsFree st p b v w =
    let (q, e, f) =
      port_loop-IsFree tcp_bports st st.defport p v w
        (ground (arith, v.above, v.below, w.0.above, w.0.below)) in
    rw (b, tcp_get_port)
      (rw (e, tcp_get_port)
        (q, record st { defport = next_port q }, refl, f, next_port-IsPort q f.0))

modify_self : (st : Tcp) (i : ℕ) (f : TcpSock → TcpSock) → (modify st i f).socks i ≡ f (st.socks i)
modify_self st i f = ap (λ b. if b then f (st.socks i) else st.socks i) (==_refl i)

-- a socket at the head of a chain, with the port
chain_has_port-head :
    (st : Tcp) (i nport : ℕ) (chain : List ℕ)
    → (st.socks i).sk.sk_sport ≡ nport
    → chain_has_port st nport (i ∷ chain) ≡ true
unfolding chain_has_port
chain_has_port-head st i nport chain e =
    ap (λ p. if p == nport then true else chain_has_port st nport chain) e
    ∙ ap (λ b. if b then true else chain_has_port st nport chain) (==_refl nport)

tcp_bhash-sport :
    (st : Tcp) (i : ℕ) → ((tcp_bhash st i).socks i).sk.sk_sport ≡ (st.socks i).sk.sk_sport
unfolding tcp_bhash get_tcp_sock get_sock
tcp_bhash-sport st i =
    ap (λ (tsk : TcpSock). tsk.sk.sk_sport)
      (modify_self (get_tcp_sock st i) i (λ tsk. record tsk { bhashed = true }))
    ∙ ap (λ (tsk : TcpSock). tsk.sk.sk_sport)
        (modify_self st i (λ tsk. record tsk { sk = get_sock tsk.sk }))

tcp_bhash-btable :
    (st : Tcp) (i h : ℕ) → (st.socks i).bhash ≡ h → (tcp_bhash st i).btable h ≡ i ∷ st.btable h
unfolding tcp_bhash get_tcp_sock
tcp_bhash-btable st i h e =
    ap (λ k. if h == k then i ∷ st.btable h else st.btable h) e
    ∙ ap (λ b. if b then i ∷ st.btable h else st.btable h) (==_refl h)

tcp_bhash-used :
    (st : Tcp) (i nport : ℕ)
    → (st.socks i).sk.sk_sport ≡ nport
    → (st.socks i).bhash ≡ htons nport % tcp_bhash_size
    → tcp_port_used (tcp_bhash st i) nport ≡ true
unfolding tcp_port_used
tcp_bhash-used st i nport e h =
    ap (chain_has_port (tcp_bhash st i) nport)
      (tcp_bhash-btable st i (htons nport % tcp_bhash_size) h)
    ∙ chain_has_port-head (tcp_bhash st i) i nport _ (tcp_bhash-sport st i ∙ e)

-- what take_port stores in the socket
abbrev bound : ℕ → TcpSock → TcpSock
bound nport tsk = record tsk {
  sk = record (tsk.sk) { sk_sport = nport };
  bhash = htons nport % tcp_bhash_size;
}

abbrev counted : Tcp → Tcp
counted st = record st { bfree = decr st.bfree }

-- A port that has been taken is in use.
take_port-used : (st : Tcp) (i nport : ℕ) → tcp_port_used (take_port st i nport) nport ≡ true
unfolding take_port
take_port-used st i nport =
    let self = modify_self (counted st) i (bound nport) in
    tcp_bhash-used (modify (counted st) i (bound nport)) i nport
      (ap (λ (tsk : TcpSock). tsk.sk.sk_sport) self) (ap (λ (tsk : TcpSock). tsk.bhash) self)

take_port-sport : (st : Tcp) (i nport : ℕ) → ((take_port st i nport).socks i).sk.sk_sport ≡ nport
unfolding take_port
take_port-sport st i nport =
    tcp_bhash-sport (modify (counted st) i (bound nport)) i
    ∙ ap (λ (tsk : TcpSock). tsk.sk.sk_sport) (modify_self (counted st) i (bound nport))

take_port-bfree : (st : Tcp) (i nport : ℕ) → (take_port st i nport).bfree ≡ decr st.bfree
unfolding take_port tcp_bhash get_tcp_sock
take_port-bfree st i nport = refl

-- Binding a socket to a port other than 0 that nobody uses succeeds, gives the socket that port, and
-- counts one free port less; the same port is then refused to every socket, which changes nothing.
tcp_set_sport_once :
    (st : Tcp) (i j nport : ℕ)
    → nport ≢ 0
    → tcp_port_used st nport ≡ false
    → (st' : Tcp) × (tcp_set_sport st i nport ≡ some (true, st'))
      × ((st'.socks i).sk.sk_sport ≡ nport)
      × (st'.bfree ≡ decr st.bfree)
      × (tcp_set_sport st' j nport ≡ some (false, st'))
unfolding tcp_set_sport
tcp_set_sport_once st i j nport h f =
    let z : (nport == 0) ≡ false = ground arith in
    rw z (
      rw f (
        take_port st i nport,
        refl,
        take_port-sport st i nport,
        take_port-bfree st i nport,
        rw (take_port-used st i nport) refl,
      ))
