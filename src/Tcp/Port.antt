-- ===== src/Tcp/Port.antt =====
-- tcp/tcp_sock.c: ports and the hash table of bound sockets.
pub mod Free
use tapip.Base.{
  ℕ, zero, suc, ◌+◌, ◌%◌, List, [], ◌∷◌, Option, none, some, Bool, true, false, ◌==◌, ltb,
  if◌then◌else◌, not, htons,
}
use tapip.Base.Ints.{pos, incr, decr, lebℤ}
use tapip.Tcp.{Tcp, modify, get_tcp_sock, free_sock}
use tapip.Tcp.Hash.{chain_add, chain_del}

abbrev pub tcp_bhash_size : ℕ
tcp_bhash_size = 256

abbrev pub tcp_bport_min : ℕ
tcp_bport_min = 0x8000

abbrev pub tcp_bport_max : ℕ
tcp_bport_max = 0xf000

-- __tcp_port_used
unfoldable pub chain_has_port : Tcp → ℕ → List ℕ → Bool
chain_has_port st nport [] = false
chain_has_port st nport (i ∷ chain) =
    if (st.socks i).sk.sk_sport == nport then true else chain_has_port st nport chain

unfoldable pub tcp_port_used : Tcp → ℕ → Bool
tcp_port_used st nport = chain_has_port st nport (st.btable (htons nport % tcp_bhash_size))

-- ++defport > TCP_BPORT_MAX
abbrev pub next_port : ℕ → ℕ
next_port port = if ltb tcp_bport_max (port + 1) then tcp_bport_min else port + 1

-- The loop of tcp_get_port, from a port on; `none` means that the fuel ran out.
unfoldable pub port_loop : ℕ → Tcp → ℕ → Option ℕ
port_loop zero st port = none
port_loop (suc fuel) st port =
    let rest = port_loop fuel st (next_port port) in
    if tcp_port_used st (htons port) then rest else some port

-- The number of ports in the range, which one round of the loop goes through.
abbrev pub tcp_bports : ℕ
tcp_bports = 0x7001

-- The port in network order, or 0; `none` means that the loop does not end.
unfoldable pub tcp_get_port : Tcp → Option (ℕ × Tcp)
tcp_get_port st =
    if lebℤ st.bfree (pos 0) then some (0, st) else elim (port_loop tcp_bports st st.defport) [
      | none ↦ none
      | some port ↦ some (htons port, record st { defport = next_port port })
    ]

unfoldable pub tcp_bhash : Tcp → ℕ → Tcp
tcp_bhash st i =
    let st' = modify (get_tcp_sock st i) i (λ tsk. record tsk { bhashed = true }) in
    record st' { btable = chain_add st.btable (st.socks i).bhash i }

-- the end of tcp_set_sport, with the port chosen
unfoldable pub take_port : Tcp → ℕ → ℕ → Tcp
take_port st i nport =
    let st' = record st { bfree = decr st.bfree } in
    tcp_bhash
      (modify st' i (λ tsk. record tsk {
        sk = record (tsk.sk) { sk_sport = nport };
        bhash = htons nport % tcp_bhash_size;
      }))
      i

-- tcp_set_sport when tcp_get_port has chosen, with 0 for its failure
abbrev pub take_free_port : Tcp → ℕ → ℕ → Bool × Tcp
take_free_port st i nport = if nport == 0 then (false, st) else (true, take_port st i nport)

-- `true` is the result 0, `false` the result -1.
unfoldable pub tcp_set_sport : Tcp → ℕ → ℕ → Option (Bool × Tcp)
tcp_set_sport st i nport =
    if not (nport == 0)
    then some (if tcp_port_used st nport then (false, st) else (true, take_port st i nport))
    else elim (tcp_get_port st) [
      | none ↦ none
      | some (chosen, st') ↦ some (take_free_port st' i chosen)
    ]

-- tcp_unset_sport is the counter's step.
unfoldable pub tcp_unbhash : Tcp → ℕ → Tcp
tcp_unbhash st i =
    if (st.socks i).bhashed
    then free_sock
        (modify
          (record st { bfree = incr st.bfree; btable = chain_del st.btable (st.socks i).bhash i }) i
          (λ tsk. record tsk { bhashed = false }))
        i
    else st
