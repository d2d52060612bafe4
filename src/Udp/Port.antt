-- ===== src/Udp/Port.antt =====
-- udp/udp_sock.c: the choice of a port, and binding.
pub mod Bind
use tapip.Base.{
  ℕ, zero, suc, ◌+◌, ◌%◌, List, [], ◌∷◌, Option, none, some, Bool, true, false, ◌==◌, ltb, leb, not,
  if◌then◌else◌, ◌&&◌, htons,
}
use tapip.Base.Ints.{ℤ, pos, incr, decr, lebℤ}
use tapip.Sock.{Sock}
use tapip.Udp.{Udp, udp_hash_size, udp_best_update, modify, set_used, udp_hash, sock_del_hash}

abbrev pub udp_port_min : ℕ
udp_port_min = 0x8000

abbrev pub udp_port_max : ℕ
udp_port_max = 0xf000

-- __port_used, for a port in host order
unfoldable pub chain_has_port : Udp → ℕ → List ℕ → Bool
chain_has_port st port [] = false
chain_has_port st port (i ∷ chain) =
    if (st.socks i).sk_sport == htons port then true else chain_has_port st port chain

unfoldable pub port_used : Udp → ℕ → Bool
port_used st port = chain_has_port st port (st.head (port % udp_hash_size))

-- The loop of udp_get_best_port over the ports of a slot, with its end at UDP_PORT_MAX as 0. There are
-- fewer ports in a slot than the fuel.
unfoldable pub best_loop : ℕ → Udp → ℕ → List ℕ → ℕ
best_loop zero st port chain = 0
best_loop (suc fuel) st port chain =
    let rest = best_loop fuel st (port + udp_hash_size) chain in
    if ltb port udp_port_max then if chain_has_port st port chain then rest else port else 0

abbrev pub is_zero : ℤ → Bool
is_zero n = lebℤ n (pos 0) && lebℤ (pos 0) n

-- The result 0 is a failure, which counts nothing.
unfoldable pub udp_get_best_port : Udp → ℕ × Udp
udp_get_best_port st =
    let b = st.best_slot in
    let first = b + udp_port_min in
    let port = if is_zero (st.slot_used b) then first else best_loop 256 st first (st.head b) in
    if port == 0 then (0, st) else (port, set_used st b (incr (st.slot_used b)))

-- a < b
abbrev pub ltbℤ : ℤ → ℤ → Bool
ltbℤ a b = not (lebℤ b a)

abbrev pub is_better : Udp → ℕ → Bool
is_better st h = not (st.best_slot == h) && ltbℤ (st.slot_used h) (st.slot_used st.best_slot)

unfoldable pub udp_update_best : Udp → ℕ → Udp
udp_update_best st h = if is_better st h then record st { best_slot = h } else st

-- The loop of udp_get_port_slow from the slot i on, with n slots left: the first of the slots that
-- have been used least.
unfoldable pub least_loop : Udp → ℕ → ℕ → ℕ → ℤ → ℕ
least_loop st i zero best_slot best_used = best_slot
least_loop st i (suc n) best_slot best_used =
    if ltbℤ (st.slot_used i) best_used
    then least_loop st (i + 1) n i (st.slot_used i)
    else least_loop st (i + 1) n best_slot best_used

-- The port is in host order.
unfoldable pub udp_get_port_slow : Udp → ℕ × Udp
udp_get_port_slow st =
    let b = least_loop st 0 udp_hash_size st.best_slot (st.slot_used st.best_slot) in
    if b == st.best_slot
    then (0, st)
    else udp_get_best_port (record st { best_slot = b; best_update = udp_best_update })

-- The loop of udp_get_port: the first slot that has been used less than `best`.
unfoldable pub better_loop : Udp → ℕ → ℕ → ℤ → ℕ
better_loop st i zero best = st.best_slot
better_loop st i (suc n) best =
    if ltbℤ (st.slot_used i) best then i else better_loop st (i + 1) n best

-- the update of the best slot, every so often
unfoldable pub count_best : Udp → ℕ → Udp
count_best st b =
    let left = decr st.best_update in
    if lebℤ left (pos 0)
    then record st {
      best_update = udp_best_update;
      best_slot = better_loop st 0 udp_hash_size (st.slot_used b);
    }
    else record st { best_update = left }

-- The port is meant to be in network order, and 0 is a failure.
unfoldable pub udp_get_port : Udp → ℕ × Udp
udp_get_port st =
    let (port, st') = udp_get_best_port st in
    if port == 0 then udp_get_port_slow st' else (htons port, count_best st' st.best_slot)

-- what udp_set_sport stores in the socket
abbrev pub bind_to : ℕ → Sock → Sock
bind_to nport sk = record sk { hash = htons nport % udp_hash_size; sk_sport = nport }

-- the end of udp_set_sport, with the port chosen
unfoldable pub take_port : Udp → ℕ → ℕ → Udp
take_port st i nport =
    udp_hash (modify (udp_update_best st (htons nport % udp_hash_size)) i (bind_to nport)) i

-- `true` is the result 0, `false` the result -1.
unfoldable pub udp_set_sport : Udp → ℕ → ℕ → Bool × Udp
udp_set_sport st i nport =
    let (chosen, st') = udp_get_port st in
    if not (nport == 0)
    then if port_used st (htons nport) then (false, st) else (true, take_port st i nport)
    else if chosen == 0
    then (false, st')
    else (true, take_port st' i chosen)

unfoldable pub udp_unset_sport : Udp → ℕ → Udp
udp_unset_sport st i =
    let h = (st.socks i).hash in udp_update_best (set_used st h (decr (st.slot_used h))) h

unfoldable pub udp_unhash : Udp → ℕ → Udp
udp_unhash st i = sock_del_hash (udp_unset_sport st i) i

unfoldable pub find_port : Udp → ℕ → List ℕ → Option ℕ
find_port st nport [] = none
find_port st nport (i ∷ chain) =
    if (st.socks i).sk_sport == nport then some i else find_port st nport chain

-- The socket that udp_lookup_sock finds for a port in network order.
unfoldable pub udp_find_sock : Udp → ℕ → Option ℕ
udp_find_sock st nport = find_port st nport (st.head (htons nport % udp_hash_size))
