-- ===== src/Tcp/Hash.antt =====
-- include/tcp_hash.h and tcp/tcp_sock.c: the hash tables of connections and of listening sockets.
use tapip.Base.{
  ℕ, ◌/◌, ◌%◌, ◌^◌, List, [], ◌∷◌, Option, none, some, Bool, true, false, ◌==◌, if◌then◌else◌, ◌&&◌,
  ◌||◌, htons, bit_xor,
}
use tapip.Sock.{Sock, unlink}
use tapip.Tcp.{TcpState, closed, listen, Tcp, modify, get_tcp_sock, free_sock}

abbrev pub tcp_ehash_size : ℕ
tcp_ehash_size = 64

abbrev pub tcp_lhash_size : ℕ
tcp_lhash_size = 32

unfoldable pub tcp_ehashfn : ℕ → ℕ → ℕ → ℕ → ℕ
tcp_ehashfn src dst src_port dst_port =
    let h = bit_xor (bit_xor src src_port) (bit_xor dst dst_port) in
    let h' = bit_xor h (h / 2 ^ 16) in bit_xor h' (h' / 2 ^ 8) % tcp_ehash_size

-- the four comparisons with another socket or a segment
unfoldable pub is_pair : Sock → ℕ → ℕ → ℕ → ℕ → Bool
is_pair sk saddr daddr sport dport =
    sk.sk_saddr == saddr && (sk.sk_daddr == daddr && (sk.sk_sport == sport && sk.sk_dport == dport))

unfoldable pub tcp_ehash_conflict : Tcp → List ℕ → Sock → Bool
tcp_ehash_conflict st [] sk = false
tcp_ehash_conflict st (i ∷ chain) sk =
    if is_pair sk (st.socks i).sk.sk_saddr (st.socks i).sk.sk_daddr (st.socks i).sk.sk_sport
      (st.socks i).sk.sk_dport
    then true
    else tcp_ehash_conflict st chain sk

-- The first socket of a chain that is the segment's connection. src is the remote machine.
unfoldable pub find_establish : Tcp → List ℕ → ℕ → ℕ → ℕ → ℕ → Option ℕ
find_establish st [] src dst src_port dst_port = none
find_establish st (i ∷ chain) src dst src_port dst_port =
    if is_pair (st.socks i).sk dst src dst_port src_port
    then some i
    else find_establish st chain src dst src_port dst_port

unfoldable pub find_listen : Tcp → List ℕ → ℕ → ℕ → Option ℕ
find_listen st [] addr nport = none
find_listen st (i ∷ chain) addr nport =
    let sk = (st.socks i).sk in
    if (sk.sk_saddr == 0 || sk.sk_saddr == addr) && sk.sk_sport == nport
    then some i
    else find_listen st chain addr nport

-- get_sock on what a lookup has found
abbrev pub take_ref : Tcp → Option ℕ → Option ℕ × Tcp
take_ref st none = (none, st)
take_ref st (some i) = (some i, get_tcp_sock st i)

unfoldable pub tcp_lookup_sock_establish : Tcp → ℕ → ℕ → ℕ → ℕ → Option ℕ
tcp_lookup_sock_establish st src dst src_port dst_port =
    find_establish st (st.etable (tcp_ehashfn src dst src_port dst_port)) src dst src_port dst_port

unfoldable pub tcp_lookup_sock_listen : Tcp → ℕ → ℕ → Option ℕ
tcp_lookup_sock_listen st addr nport =
    find_listen st (st.ltable (htons nport % tcp_lhash_size)) addr nport

-- The reference that the lookup takes is in the state returned.
unfoldable pub tcp_lookup_sock : Tcp → ℕ → ℕ → ℕ → ℕ → Option ℕ × Tcp
tcp_lookup_sock st src dst src_port dst_port =
    take_ref st (elim (tcp_lookup_sock_establish st src dst src_port dst_port) [
      | some i ↦ some i
      | none ↦ tcp_lookup_sock_listen st dst dst_port
    ])

-- hlist_add_head on a chain of a table
abbrev pub chain_add : (ℕ → List ℕ) → ℕ → ℕ → ℕ → List ℕ
chain_add table h i = λ k. if k == h then i ∷ table k else table k

abbrev pub chain_del : (ℕ → List ℕ) → ℕ → ℕ → ℕ → List ℕ
chain_del table h i = λ k. if k == h then unlink i (table k) else table k

-- sock_add_hash, with the table updated beside it
abbrev pub mark_hashed : Tcp → ℕ → ℕ → Tcp
mark_hashed st i h =
    modify (get_tcp_sock st i) i
      (λ tsk. record tsk { sk = record (tsk.sk) { hash = h; hashed = true } })

unfoldable pub hash_establish : Tcp → ℕ → Bool × Tcp
hash_establish st i =
    let sk = (st.socks i).sk in
    let h = tcp_ehashfn sk.sk_saddr sk.sk_daddr sk.sk_sport sk.sk_dport in
    if tcp_ehash_conflict st (st.etable h) sk
    then (false, st)
    else (true, record (mark_hashed st i h) { etable = chain_add st.etable h i })

unfoldable pub hash_listen : Tcp → ℕ → Bool × Tcp
hash_listen st i =
    let h = htons (st.socks i).sk.sk_sport % tcp_lhash_size in
    (true, record (mark_hashed st i h) { ltable = chain_add st.ltable h i })

-- tcp_hash for a socket in a state; `true` is the result 0, `false` the result -1.
abbrev pub hash_in : Tcp → ℕ → TcpState → Bool × Tcp
hash_in st i closed = (false, st)
hash_in st i listen = hash_listen st i
hash_in st i _ = hash_establish st i

unfoldable pub tcp_hash : Tcp → ℕ → Bool × Tcp
tcp_hash st i = hash_in st i (st.socks i).state

-- hlist_del takes the socket off the chain that it is on, whichever table that belongs to.
unfoldable pub sock_del_hash : Tcp → ℕ → Tcp
sock_del_hash st i =
    let h = (st.socks i).sk.hash in
    if (st.socks i).sk.hashed
    then free_sock
        (modify (record st { etable = chain_del st.etable h i; ltable = chain_del st.ltable h i }) i
          (λ tsk. record tsk { sk = record (tsk.sk) { hashed = false } }))
        i
    else st

unfoldable pub tcp_unhash : Tcp → ℕ → Tcp
tcp_unhash st i =
    modify (sock_del_hash st i) i (λ tsk. record tsk { sk = record (tsk.sk) { hash = 0 } })
