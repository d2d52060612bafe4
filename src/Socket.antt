-- ===== src/Socket.antt =====
-- socket/socket.c: the calls of the user, each of which holds the socket while it runs.
-- The arguments that the calls refuse when they are NULL are not NULL here. `none` as the result of a
-- call says that it does not return, as in Inet.
pub mod Held
pub mod Life
mod Tests
use tapip.Base.{
  ℕ, ◌+◌, ◌-◌, List, Option, none, some, Bool, true, false, ◌==◌, leb, if◌then◌else◌, length,
}
use tapip.Wait.{Wait, wait_init, wait_exit}
use tapip.Inet.{
  SockAddr, SockOps, Devices, inet_socket, inet_close, inet_bind, inet_connect, inet_listen,
  inet_accept, inet_send, inet_write, inet_read, inet_recv,
}

-- struct socket. `has_ops` says that ops is inet_ops, and `freed` how often free has been called.
pub record Socket : Type 0 where
  pub family : ℕ
  pub type : ℕ
  pub sleep : Wait
  pub has_ops : Bool
  pub sk : Option ℕ
  pub refcnt : ℕ
  pub freed : ℕ

-- The increment takes no lock; calls of it that run at the same moment are not modelled.
unfoldable pub get_socket : Socket → Socket
get_socket sock = record sock { refcnt = sock.refcnt + 1 }

abbrev pub alloc_socket : ℕ → ℕ → Socket
alloc_socket family type = record {
  family = family;
  type = type;
  sleep = wait_init;
  has_ops = false;
  sk = none;
  refcnt = 1;
  freed = 0;
}

module _ {S Got : Type 0} (o : SockOps S Got) where
  -- __free_socket
  unfoldable pub do_free_socket : Socket → S → Socket × S
  do_free_socket sock st =
      if sock.has_ops
      then (
        record sock { has_ops = false; sk = none; freed = sock.freed + 1 },
        (inet_close o st sock.sk).1,
      )
      else (record sock { freed = sock.freed + 1 }, st)

  -- A count stops at 0, where the memory is gone.
  unfoldable pub free_socket : Socket → S → Socket × S
  free_socket sock st =
      if leb sock.refcnt 1
      then do_free_socket (record sock { refcnt = 0 }) st
      else (record sock { refcnt = sock.refcnt - 1 }, st)

  -- _close
  unfoldable pub socket_close : Socket → S → Socket × S
  socket_close sock st = free_socket (record sock { sleep = (wait_exit sock.sleep).0 }) st

  -- the end of a call that holds the socket
  abbrev pub finish : {R : Type 0} → Socket → Option (R × S) → Option (R × Socket × S)
  finish sock none = none
  finish sock (some (r, st)) = some (r, (free_socket sock st).0, (free_socket sock st).1)

  abbrev pub socket_opened : Socket → Option ℕ × S → Option Socket × S
  socket_opened sock (none, st) = (none, (free_socket sock st).1)
  socket_opened sock (some i, st) = (some (record sock { sk = some i }), st)

  -- _socket, for the type of the protocol
  unfoldable pub socket_new : S → ℕ → ℕ → Option Socket × S
  socket_new st family protocol =
      if family == 1
      then socket_opened (record (alloc_socket family o.type) { has_ops = true })
          (inet_socket o st protocol)
      else (none, st)

  -- _listen; the backlog is not negative.
  unfoldable pub socket_listen : Socket → S → ℕ → Option (Bool × Socket × S)
  socket_listen sock st backlog =
      let held = get_socket sock in
      finish held (if held.has_ops then inet_listen o st held.sk backlog else some (false, st))

  -- _connect and _bind; inet_connect and inet_bind read sk without a test.
  unfoldable pub socket_connect : Socket → S → SockAddr → Option (Bool × Socket × S)
  socket_connect sock st skaddr =
      let held = get_socket sock in
      finish held (
        if held.has_ops
        then elim (held.sk) [ none ↦ none | some i ↦ inet_connect o st i skaddr ]
        else some (false, st))

  abbrev pub bind_by : Devices → Socket → S → SockAddr → Option (Bool × S)
  bind_by d sock st skaddr =
      if sock.has_ops
      then elim (sock.sk) [ none ↦ none | some i ↦ inet_bind o d st i skaddr ]
      else some (false, st)

  unfoldable pub socket_bind : Devices → Socket → S → SockAddr → Option (Bool × Socket × S)
  socket_bind d sock st skaddr =
      let held = get_socket sock in finish held (bind_by d held st skaddr)

  -- the new socket of _accept with the address and port of its peer, or NULL
  abbrev pub new_socket :
      Socket → Option (Option (ℕ × ℕ × ℕ) × S) → Option (Option (Socket × ℕ × ℕ) × S)
  new_socket newsock none = none
  new_socket newsock (some (none, st)) = some (none, st)
  new_socket newsock (some (some (j, addr, port), st)) =
      some (some (record newsock { sk = some j }, addr, port), st)

  -- _accept. A socket without ops gives a new one without a sock.
  unfoldable pub socket_accept : Socket → S → Option (Option (Socket × ℕ × ℕ) × Socket × S)
  socket_accept sock st =
      let held = get_socket sock in
      let newsock = record (alloc_socket held.family held.type) { has_ops = held.has_ops } in
      finish held (
        if held.has_ops
        then new_socket newsock (inet_accept o st held.sk)
        else some (some (newsock, 0, 0), st))

  -- _send and _write; a result `none` inside is -1.
  unfoldable pub socket_send : Socket → S → List ℕ → SockAddr → Option (Option ℕ × Socket × S)
  socket_send sock st buf skaddr =
      let held = get_socket sock in
      if length buf == 0
      then some (none, sock, st)
      else finish held
          (if held.has_ops then inet_send o st held.sk buf (some skaddr) else some (none, st))

  unfoldable pub socket_write : Socket → S → List ℕ → Option (Option ℕ × Socket × S)
  socket_write sock st buf =
      let held = get_socket sock in
      if length buf == 0
      then some (none, sock, st)
      else finish held (if held.has_ops then inet_write o st held.sk buf else some (none, st))

  -- what a read comes to, with the tables as they were
  abbrev pub read_with : S → Option (Option Got) → Option (Option Got × S)
  read_with st none = none
  read_with st (some got) = some (got, st)

  -- _recv and _read; what the read takes off the sock is in its outcome.
  unfoldable pub socket_recv : Socket → S → Option (Option Got × Socket × S)
  socket_recv sock st =
      let held = get_socket sock in
      finish held (if held.has_ops then read_with st (inet_recv o st held.sk) else some (none, st))

  unfoldable pub socket_read : Socket → S → ℕ → Option (Option Got × Socket × S)
  socket_read sock st len =
      let held = get_socket sock in
      if len == 0
      then some (none, sock, st)
      else finish held
          (if held.has_ops then read_with st (inet_read o st held.sk len) else some (none, st))
