-- ===== src/Raw.antt =====
-- socket/raw_sock.c and ip/raw.c: raw sockets, their table, and packets in and out.
-- A pointer to a socket is its number; locks are not modelled.
pub mod Deliver
mod Tests
use tapip.Base.{
  ℕ, zero, suc, ◌+◌, ◌-◌, ◌*◌, ◌%◌, ◌^◌, List, [], ◌∷◌, ◌++◌, Option, none, some, Bool, true, false,
  ◌==◌, ltb, leb, if◌then◌else◌, ◌&&◌, ◌||◌, not, take, length, u16, htons,
}
use tapip.Net.{Ip, Pkbuf, PkType, pkt_none, iphlen, eth_hrd_sz, ip_hrd_sz}
use tapip.Sock
use tapip.Sock.{Sock, unlink}

-- What raw sockets do outside their own state, in order: a call of ip_send_out, a packet freed, the
-- condition of recv_wait signalled, a copy that is too short for what is read and written in it, and
-- the mark of a null pointer that the code follows.
pub data RawEvent : Type 0 where
  output : Pkbuf → RawEvent
  pkb_freed : Pkbuf → RawEvent
  woken : ℕ → RawEvent
  overrun : RawEvent
  fault : RawEvent

-- raw_hash_table, the sockets and raw_id
pub record Raw : Type 0 where
  pub socks : ℕ → Sock
  pub next_sk : ℕ
  pub head : ℕ → List ℕ
  pub raw_id : ℕ
  pub out : List RawEvent

abbrev pub modify : Raw → ℕ → (Sock → Sock) → Raw
modify st i f = record st { socks = λ j. if j == i then f (st.socks i) else st.socks j }

abbrev pub emit : Raw → RawEvent → Raw
emit st e = record st { out = st.out ++ (e ∷ []) }

unfoldable pub raw_init : Raw → Raw
raw_init st = record st { head = λ k. []; raw_id = 0 }

-- __raw_hash_func: the protocol & IP_P_RAW
abbrev pub raw_hash_func : ℕ → ℕ
raw_hash_func protocol = protocol % 2 ^ 8

unfoldable pub raw_hash : Raw → ℕ → Raw
raw_hash st i =
    let h = raw_hash_func (st.socks i).protocol in
    let st' = modify st i (λ sk. record (Sock.get_sock sk) { hashed = true }) in
    record st' { head = λ k. if k == h then i ∷ st.head k else st.head k }

unfoldable pub raw_unhash : Raw → ℕ → Raw
raw_unhash st i =
    let h = raw_hash_func (st.socks i).protocol in
    let st' = modify st i (λ sk. Sock.free_sock (record sk { hashed = false })) in
    if (st.socks i).hashed
    then record st' { head = λ k. if k == h then unlink i (st.head k) else st.head k }
    else st

-- the socket of raw_alloc_sock, as xzalloc makes it
abbrev pub new_raw : ℕ → Sock
new_raw protocol = record {
  protocol = 0;
  sk_saddr = 0;
  sk_daddr = 0;
  sk_sport = 0;
  sk_dport = 0;
  sk_dst = none;
  recv_queue = [];
  recv_wait = false;
  hash = protocol;
  hashed = false;
  refcnt = 0;
  released = false;
}

unfoldable pub raw_alloc_sock : Raw → ℕ → Option ℕ × Raw
raw_alloc_sock st protocol =
    let i = st.next_sk in
    if protocol == 0 then (none, st) else (
      some i,
      modify (record st { next_sk = i + 1; raw_id = u16 (st.raw_id + 1) }) i
          (λ sk. new_raw protocol),
    )

-- the test of __raw_lookup_sock
abbrev pub takes : Sock → Ip → Bool
takes sk h =
    sk.protocol == h.ip_pro
    && ((sk.sk_saddr == 0 || sk.sk_saddr == h.ip_src)
        && (sk.sk_daddr == 0 || sk.sk_daddr == h.ip_dst))

-- __raw_lookup_sock: the first socket of a chain that takes the packet, and the chain behind it,
-- where raw_lookup_sock_next goes on
unfoldable pub raw_find : Raw → Ip → List ℕ → Option (ℕ × List ℕ)
raw_find st h [] = none
raw_find st h (i ∷ chain) = if takes (st.socks i) h then some (i, chain) else raw_find st h chain

abbrev pub sizeof_pkbuf : ℕ
sizeof_pkbuf = 52

-- What copy_pkb copies of the frame ends inside its headers.
abbrev pub is_short : Pkbuf → Bool
is_short pkb = ltb pkb.pk_len (sizeof_pkbuf + eth_hrd_sz + iphlen pkb.ip)

-- copy_pkb allocates and copies pk_len bytes from the start of the structure, so the copy has that
-- much less of the frame as the structure is long (52 bytes, with pointers of 8). `none`: the copy
-- ends before the text of the packet, and what is read or written behind its end is not defined.
unfoldable pub copy_pkb : Pkbuf → Option Pkbuf
copy_pkb pkb =
    if is_short pkb
    then none
    else some (record pkb {
      ip = record (pkb.ip) {
        ip_data = take (pkb.pk_len - sizeof_pkbuf - eth_hrd_sz - iphlen pkb.ip) pkb.ip.ip_data;
      };
    })

-- raw_recv with a packet that raw_in has copied
unfoldable pub raw_recv : Raw → Pkbuf → ℕ → Raw
raw_recv st rawpkb i =
    let queued = modify st i (λ sk. record sk { recv_queue = sk.recv_queue ++ (rawpkb ∷ []) }) in
    if not (st.socks i).recv_wait
    then emit st fault
    else elim ((st.socks i).recv_queue) [ [] ↦ emit queued (woken i) | pkb ∷ pkbs ↦ queued ]

-- one turn of the loop of raw_in; behind a copy that is too short nothing is defined
abbrev pub recv_copy : Raw → Pkbuf → ℕ → Raw
recv_copy st pkb i = elim (copy_pkb pkb) [
  | none ↦ emit st overrun
  | some rawpkb ↦ raw_recv st rawpkb i
]

-- the loop of raw_in; the fuel is the length of the chain
unfoldable pub raw_loop : ℕ → Raw → Pkbuf → Option (ℕ × List ℕ) → Raw
raw_loop zero st pkb found = st
raw_loop (suc fuel) st pkb none = st
raw_loop (suc fuel) st pkb (some (i, chain)) =
    let st' = recv_copy st pkb i in raw_loop fuel st' pkb (raw_find st' pkb.ip chain)

-- The packet is in host order.
unfoldable pub raw_in : Raw → Pkbuf → Raw
raw_in st pkb =
    let chain = st.head (raw_hash_func pkb.ip.ip_pro) in
    raw_loop (length chain) st pkb (raw_find st pkb.ip chain)

-- raw_init_pkb, with the text behind the header
unfoldable pub raw_init_pkb : Raw → Sock → List ℕ → ℕ → Pkbuf
raw_init_pkb st sk buf dst_addr =
    let len = eth_hrd_sz + ip_hrd_sz + length buf in
    record {
      pk_pro = 0xffff;
      pk_type = pkt_none;
      pk_len = len;
      pk_indev = none;
      pk_rtdst = none;
      ip = record {
        ip_hlen = 5;
        ip_ver = 4;
        ip_tos = 0;
        ip_len = htons (u16 (len - eth_hrd_sz));
        ip_id = htons st.raw_id;
        ip_fragoff = 0;
        ip_ttl = 64;
        ip_pro = sk.protocol;
        ip_cksum = 0;
        ip_src = sk.sk_saddr;
        ip_dst = dst_addr;
        ip_opts = [];
        ip_data = buf;
      };
    }

abbrev pub raw_max_bufsz : ℕ
raw_max_bufsz = 65536

-- raw_send_buf; `none` is the result -1. The size is the length of the buffer.
unfoldable pub raw_send_buf : Raw → ℕ → List ℕ → ℕ → Option ℕ × Raw
raw_send_buf st i buf dst_addr =
    let pkb = raw_init_pkb st (st.socks i) buf dst_addr in
    if ltb raw_max_bufsz (length buf)
    then (none, st)
    else (some (pkb.pk_len - eth_hrd_sz - ip_hrd_sz), emit st (output pkb))
