-- ===== src/Inet.antt =====
-- socket/inet.c and local_address of net/netdev.c: the calls of the socket layer on a protocol's
-- table of operations.
-- `none` as the result of a call says that it does not return: it sleeps, loops or calls a NULL
-- pointer. Inside, `true` is the result 0 and `false` the result -1.
pub mod Bind
pub mod Found
pub mod Laws
pub mod Protocols
mod Tests
use tapip.Base.{
  ℕ, ◌%◌, ◌^◌, List, [], ◌∷◌, Option, none, some, Bool, true, false, ◌==◌, bit_and, not,
  if◌then◌else◌, ◌||◌,
}
use tapip.Net.{Netdev, Pkbuf}
use tapip.Route
use tapip.Route.{rt_lookup}
use tapip.Sock
use tapip.Sock.{Sock}

-- struct sock_addr
pub record SockAddr : Type 0 where
  pub src_addr : ℕ
  pub dst_addr : ℕ
  pub src_port : ℕ
  pub dst_port : ℕ

-- struct sock_ops and struct inet_type of a protocol whose tables are an S. A pointer that may be
-- NULL is an option, and so is the result of an operation that may not return. `sock` and `modify`
-- are the accesses to the fields of struct sock. `Got` is what a read comes to.
pub record SockOps (S Got : Type 0) : Type 0 where
  pub type : ℕ
  pub protocol : ℕ
  pub sock : S → ℕ → Sock
  pub modify : S → ℕ → (Sock → Sock) → S
  pub routes : S → Route.Table
  pub alloc_sock : S → ℕ → Option ℕ × S
  pub hash : Option (S → ℕ → S)
  pub bind : Option (S → ℕ → SockAddr → Option (Bool × S))
  pub set_port : Option (S → ℕ → ℕ → Option (Bool × S))
  pub connect : Option (S → ℕ → SockAddr → Option (Bool × S))
  pub listen : Option (S → ℕ → ℕ → Option (Bool × S))
  pub accept : Option (S → ℕ → Option (Option ℕ × S))
  pub send_buf : Option (S → ℕ → List ℕ → Option SockAddr → Option (Option ℕ × S))
  pub recv_buf : Option (S → ℕ → ℕ → Option Got)
  pub recv : Option (S → ℕ → Option Got)
  pub close : S → ℕ → S

-- what the system knows of its own addresses: the loopback device and net_devices
pub record Devices : Type 0 where
  pub loop : Netdev
  pub net_devices : List Netdev

abbrev pub has_addr : List Netdev → ℕ → Bool
has_addr [] addr = false
has_addr (dev ∷ devs) addr = dev.net_ipaddr == addr || has_addr devs addr

unfoldable pub local_address : Devices → ℕ → Bool
local_address d addr =
    addr == 0
    || (bit_and d.loop.net_ipaddr d.loop.net_mask == bit_and d.loop.net_mask addr
        || has_addr d.net_devices addr)

-- the loop of sock_close
unfoldable pub free_all : {S : Type 0} → (S → Pkbuf → S) → S → List Pkbuf → S
free_all free_pkb st [] = st
free_all free_pkb st (pkb ∷ pkbs) = free_all free_pkb (free_pkb st pkb) pkbs

-- sock_close of socket/sock.c, for a protocol with these accesses and this unhash
unfoldable pub sock_close :
    {S : Type 0}
    → (S → ℕ → Sock)
    → (S → ℕ → (Sock → Sock) → S)
    → (S → ℕ → S)
    → (S → Pkbuf → S)
    → S
    → ℕ
    → S
sock_close sock modify unhash free_pkb st i =
    let st' = unhash (modify st i (λ sk. record sk { recv_wait = false })) i in
    free_all free_pkb (modify st' i (λ sk. record sk { recv_queue = [] })) (sock st' i).recv_queue

module _ {S Got : Type 0} (o : SockOps S Got) where
  -- sock_autobind of socket/sock.c
  unfoldable pub sock_autobind : S → ℕ → Option (Bool × S)
  sock_autobind st i = elim (o.set_port) [
    | none ↦ some (false, st)
    | some set_port ↦ set_port st i 0
  ]

  -- the fields that inet_socket sets before it hashes the socket
  abbrev pub opened : ℕ → Sock → Sock
  opened protocol sk = record (Sock.get_sock sk) {
    recv_queue = [];
    hashed = false;
    protocol = (if protocol == 0 then o.protocol else protocol) % 2 ^ 8;
  }

  abbrev pub hash_raw : S → ℕ → S
  hash_raw st i = elim (o.hash) [
    | none ↦ st
    | some hash ↦ if (o.sock st i).hash == 0 then st else hash st i
  ]

  abbrev pub socket_with : ℕ → Option ℕ × S → Option ℕ × S
  socket_with protocol (none, st) = (none, st)
  socket_with protocol (some i, st) = (
    some i,
    o.modify (hash_raw (o.modify st i (opened protocol)) i) i
        (λ sk. record sk { recv_wait = true }),
  )

  -- inet_socket for a type of the table, with the socket that it stores
  unfoldable pub inet_socket : S → ℕ → Option ℕ × S
  inet_socket st protocol = socket_with protocol (o.alloc_sock st protocol)

  -- inet_close; the socket structure has no sock behind it afterwards.
  unfoldable pub inet_close : S → Option ℕ → Bool × S
  inet_close st none = (false, st)
  inet_close st (some i) = (true, o.modify (o.close st i) i Sock.free_sock)

  -- the end of inet_bind, with the result of set_port
  abbrev pub bound : ℕ → Option (Bool × S) → Option (Bool × S)
  bound i none = none
  bound i (some (true, st)) =
      some (true, o.modify st i (λ sk. record sk { sk_daddr = 0; sk_dport = 0 }))
  bound i (some (false, st)) = some (false, o.modify st i (λ sk. record sk { sk_saddr = 0 }))

  unfoldable pub bind_port : S → ℕ → ℕ → Option (Bool × S)
  bind_port st i src_port = elim (o.set_port) [
    | none ↦ bound i (some (true, o.modify st i (λ sk. record sk { sk_sport = src_port })))
    | some set_port ↦ bound i (set_port st i src_port)
  ]

  unfoldable pub inet_bind : Devices → S → ℕ → SockAddr → Option (Bool × S)
  inet_bind d st i skaddr = elim (o.bind) [
    | some bind ↦ bind st i skaddr
    | none ↦
        if not ((o.sock st i).sk_sport == 0)
        then some (false, st)
        else if not (local_address d skaddr.src_addr)
        then some (false, st)
        else bind_port (o.modify st i (λ sk. record sk { sk_saddr = skaddr.src_addr })) i
            skaddr.src_port
  ]

  -- the route of inet_connect, and the protocol's own connect
  unfoldable pub connect_by : S → ℕ → SockAddr → Option (Bool × S)
  connect_by st i skaddr = elim (rt_lookup (o.routes st) skaddr.dst_addr) [
    | none ↦ some (false, st)
    | some rt ↦
        let st' =
          o.modify st i (λ sk. record sk { sk_dst = some rt; sk_saddr = rt.rt_dev.net_ipaddr }) in
        elim (o.connect) [ none ↦ some (false, st') | some connect ↦ connect st' i skaddr ]
  ]

  -- inet_connect with the result of sock_autobind
  abbrev pub connect_bound : ℕ → SockAddr → Option (Bool × S) → Option (Bool × S)
  connect_bound i skaddr none = none
  connect_bound i skaddr (some (false, st)) = some (false, st)
  connect_bound i skaddr (some (true, st)) = connect_by st i skaddr

  unfoldable pub inet_connect : S → ℕ → SockAddr → Option (Bool × S)
  inet_connect st i skaddr =
      if skaddr.dst_port == 0 || skaddr.dst_addr == 0
      then some (false, st)
      else if not ((o.sock st i).sk_dport == 0)
      then some (false, st)
      else if (o.sock st i).sk_sport == 0
      then connect_bound i skaddr (sock_autobind st i)
      else connect_by st i skaddr

  unfoldable pub inet_listen : S → Option ℕ → ℕ → Option (Bool × S)
  inet_listen st sk backlog = elim sk [
    | none ↦ some (false, st)
    | some i ↦
        if not (o.type == 1)
        then some (false, st)
        else elim (o.listen) [ none ↦ none | some listen ↦ listen st i backlog ]
  ]

  -- what inet_accept stores: the sock of the new socket, and the address and port of its peer
  abbrev pub accepted : Option (Option ℕ × S) → Option (Option (ℕ × ℕ × ℕ) × S)
  accepted none = none
  accepted (some (none, st)) = some (none, st)
  accepted (some (some j, st)) =
      some (some (j, (o.sock st j).sk_daddr, (o.sock st j).sk_dport), o.modify st j Sock.get_sock)

  unfoldable pub inet_accept : S → Option ℕ → Option (Option (ℕ × ℕ × ℕ) × S)
  inet_accept st sk = elim sk [
    | none ↦ some (none, st)
    | some i ↦ elim (o.accept) [ none ↦ none | some accept ↦ accepted (accept st i) ]
  ]

  -- inet_send, and inet_write without an address; the inner `none` is the result -1.
  unfoldable pub inet_send : S → Option ℕ → List ℕ → Option SockAddr → Option (Option ℕ × S)
  inet_send st sk buf skaddr = elim sk [
    | none ↦ some (none, st)
    | some i ↦ elim (o.send_buf) [ none ↦ none | some send_buf ↦ send_buf st i buf skaddr ]
  ]

  abbrev pub inet_write : S → Option ℕ → List ℕ → Option (Option ℕ × S)
  inet_write st sk buf = inet_send st sk buf none

  -- The inner `none` is the result -1 without a sock.
  unfoldable pub inet_read : S → Option ℕ → ℕ → Option (Option Got)
  inet_read st sk len = elim sk [
    | none ↦ some none
    | some i ↦ elim (o.recv_buf) [
      | none ↦ none
      | some recv_buf ↦ elim (recv_buf st i len) [ none ↦ none | some got ↦ some (some got) ]
    ]
  ]

  unfoldable pub inet_recv : S → Option ℕ → Option (Option Got)
  inet_recv st sk = elim sk [
    | none ↦ some none
    | some i ↦ elim (o.recv) [
      | none ↦ none
      | some recv ↦ elim (recv st i) [ none ↦ none | some got ↦ some (some got) ]
    ]
  ]
