-- ===== src/Tcp.antt =====
-- include/tcp.h and the static tables of tcp/: segments, control blocks and the state of TCP.
-- A pointer to a socket is its number; the chains of the hash tables and the queues of a listening
-- socket hold numbers. alloc_pkb and the other allocations are taken to succeed.
mod Tests
mod Session
mod Examples
pub mod Hdr
pub mod Out
pub mod Hash
pub mod Port
pub mod Text
pub mod Send
pub mod Timer
pub mod Listen
pub mod Process
pub mod Step
pub mod Call
use tapip.Base.{
  ℕ, ◌+◌, ◌==◌, List, [], ◌∷◌, ◌++◌, Option, none, Bool, true, false, if◌then◌else◌, replicate, u32,
  leb,
}
use tapip.Base.Ints.{ℤ, pos}
use tapip.Net.{Rtentry, Pkbuf}
use tapip.Route.{Table}
use tapip.Cbuf.{Cbuf}
use tapip.Sock
use tapip.Sock.{Sock}

-- struct tcp: numbers in network order; the bits that no function reads (reserved, ece, cwr) are
-- left out, and sent as 0.
pub record TcpHdr : Type 0 where
  pub src : ℕ
  pub dst : ℕ
  pub seq : ℕ
  pub ackn : ℕ
  pub doff : ℕ
  pub fin : Bool
  pub syn : Bool
  pub rst : Bool
  pub psh : Bool
  pub ack : Bool
  pub urg : Bool
  pub window : ℕ
  pub checksum : ℕ
  pub urgptr : ℕ

pub data TcpState : Type 0 where
  closed listen syn_recv syn_sent established close_wait last_ack : TcpState
  fin_wait1 fin_wait2 closing time_wait : TcpState

-- struct tcp_segment, in host order, with the addresses of its IP header
pub record Segment : Type 0 where
  pub seg_seq : ℕ
  pub seg_ack : ℕ
  pub lastseq : ℕ
  pub len : ℕ
  pub dlen : ℕ
  pub wnd : ℕ
  pub up : ℕ
  pub text : List ℕ
  pub ip_src : ℕ
  pub ip_dst : ℕ
  pub tcphdr : TcpHdr

-- struct tcp_reass_head, with the text that its data points to
pub record ReassHead : Type 0 where
  pub trh_seq : ℕ
  pub trh_len : ℕ
  pub trh_data : List ℕ

-- the field parent: NULL, a listening socket, or TCP_DEAD_PARENT
pub data Parent : Type 0 where
  no_parent : Parent
  child_of : ℕ → Parent
  dead_parent : Parent

-- struct tcp_sock. A pointer to a wait structure is only tested against NULL; `linked` says whether
-- the node `list` is on a queue, `bhashed` whether bhash_list is on a chain. The bits of flags have
-- a field each.
pub record TcpSock : Type 0 where
  pub sk : Sock
  pub bhashed : Bool
  pub bhash : ℕ
  pub accept_backlog : ℤ
  pub backlog : ℤ
  pub listen_queue : List ℕ
  pub accept_queue : List ℕ
  pub linked : Bool
  pub timeout : ℕ
  pub wait_accept : Bool
  pub wait_connect : Bool
  pub parent : Parent
  pub f_push : Bool
  pub f_acknow : Bool
  pub f_ackdelay : Bool
  pub rcv_buf : Option Cbuf
  pub rcv_reass : List ReassHead
  pub snd_una : ℕ
  pub snd_nxt : ℕ
  pub snd_wnd : ℕ
  pub snd_up : ℕ
  pub snd_wl1 : ℕ
  pub snd_wl2 : ℕ
  pub iss : ℕ
  pub rcv_nxt : ℕ
  pub rcv_wnd : ℕ
  pub rcv_up : ℕ
  pub irs : ℕ
  pub state : TcpState

pub data Wait : Type 0 where
  on_recv on_accept on_connect : Wait

-- What TCP does outside its own state, in order: a call of ip_send_out, a packet freed, wake_up on
-- one of a socket's wait structures, and the mark of an invalid pointer that the code follows.
pub data TcpEvent : Type 0 where
  output : Pkbuf → TcpEvent
  pkb_freed : TcpEvent
  woken : Wait → ℕ → TcpEvent
  fault : TcpEvent

-- tcp_table, the sockets, the static counters and the chain of the TIME-WAIT timer, with the routing
-- table that rt_output reads
pub record Tcp : Type 0 where
  pub socks : ℕ → TcpSock
  pub next_sk : ℕ
  pub etable : ℕ → List ℕ
  pub ltable : ℕ → List ℕ
  pub btable : ℕ → List ℕ
  pub bfree : ℤ
  pub defport : ℕ
  pub next_iss : ℕ
  pub tcp_id : ℕ
  pub timewait : List ℕ
  pub routes : Table
  pub out : List TcpEvent

abbrev pub tcp_default_window : ℕ
tcp_default_window = 4096

abbrev pub modify : Tcp → ℕ → (TcpSock → TcpSock) → Tcp
modify st i f = record st { socks = λ j. if j == i then f (st.socks i) else st.socks j }

abbrev pub emit : Tcp → TcpEvent → Tcp
emit st e = record st { out = st.out ++ (e ∷ []) }

-- TCP_BPORT_MAX - TCP_BPORT_MIN + 1 ports are free.
unfoldable pub tcp_init : Tcp → Tcp
tcp_init st = record st { etable = λ k. []; ltable = λ k. []; bfree = pos 0x7001; tcp_id = 0 }

unfoldable pub tcp_set_state : Tcp → ℕ → TcpState → Tcp
tcp_set_state st i s = modify st i (λ tsk. record tsk { state = s })

unfoldable pub get_tcp_sock : Tcp → ℕ → Tcp
get_tcp_sock st i = modify st i (λ tsk. record tsk { sk = Sock.get_sock tsk.sk })

unfoldable pub free_sock : Tcp → ℕ → Tcp
free_sock st i = modify st i (λ tsk. record tsk { sk = Sock.free_sock tsk.sk })

-- alloc_new_iss
unfoldable pub alloc_new_iss : Tcp → ℕ × Tcp
alloc_new_iss st =
    let n = u32 (st.next_iss + 1) in
    let iss = if leb 0xffffffff n then 12345678 else n in (iss, record st { next_iss = iss })
