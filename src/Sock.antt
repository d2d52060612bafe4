-- ===== src/Sock.antt =====
-- socket/sock.c and include/sock.h: what the sockets of all protocols share.
-- A pointer to a socket is its number.
use tapip.Base.{
  ℕ, ◌+◌, ◌-◌, List, [], ◌∷◌, Option, none, some, Bool, true, false, ◌==◌, leb, if◌then◌else◌,
}
use tapip.Net.{Rtentry, Pkbuf}

-- struct sock. A pointer that is only tested against NULL is a Boolean, `hashed` says whether
-- hash_list is on a chain, and `released` that free has been called.
pub record Sock : Type 0 where
  pub protocol : ℕ
  pub sk_saddr : ℕ
  pub sk_daddr : ℕ
  pub sk_sport : ℕ
  pub sk_dport : ℕ
  pub sk_dst : Option Rtentry
  pub recv_queue : List Pkbuf
  pub recv_wait : Bool
  pub hash : ℕ
  pub hashed : Bool
  pub refcnt : ℕ
  pub released : Bool

unfoldable pub get_sock : Sock → Sock
get_sock sk = record sk { refcnt = sk.refcnt + 1 }

-- A count stops at 0, where the memory is gone.
unfoldable pub free_sock : Sock → Sock
free_sock sk =
    if leb sk.refcnt 1
    then record sk { refcnt = 0; released = true }
    else record sk { refcnt = sk.refcnt - 1 }

-- hlist_del of a node on a chain
unfoldable pub unlink : ℕ → List ℕ → List ℕ
unlink i [] = []
unlink i (x ∷ xs) = if x == i then xs else x ∷ unlink i xs

-- sock_recv_notify: whether it wakes the reader
abbrev pub sock_recv_notify : Sock → Bool
sock_recv_notify sk = elim (sk.recv_queue) [ [] ↦ false | pkb ∷ pkbs ↦ sk.recv_wait ]

-- How far sock_recv_pkb gets: to sleep, or back to the user with a packet or NULL.
pub data Received : Type 0 where
  waits : Received
  gets : Option Pkbuf → Sock → Received

-- One look of sock_recv_pkb at the queue. `ended` says that pthread_cond_wait has failed or that the
-- wait structure is dead.
unfoldable pub sock_recv_pkb : Sock → Bool → Received
sock_recv_pkb sk ended = elim (sk.recv_queue) [
  | [] ↦ if ended then gets none sk else waits
  | pkb ∷ pkbs ↦ gets (some pkb) (record sk { recv_queue = pkbs })
]
