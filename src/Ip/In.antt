-- ===== src/Ip/In.antt =====
-- ip/ip_in.c: the checks of a packet that arrives, and its way to this host or on.
-- The data of a packet is what lies behind its header, with what a device has put after its end.
pub mod Checked
mod Tests
use tapip.Base.{
  ℕ, ◌+◌, ◌-◌, Option, none, some, Bool, true, false, ◌==◌, ltb, if◌then◌else◌, ◌||◌, not, take,
  bit_and,
}
use tapip.Checksum.{ip_chksum}
use tapip.Net.{
  Rtentry, Ip, Pkbuf, PkType, pkt_otherhost, iphlen, ip_ntoh, ip_bytes, ip_hrd_sz, eth_hrd_sz,
  rt_localhost,
}
use tapip.Route.{Table}
use tapip.Arp.Cache.{ArpCache}
use tapip.Icmp.{Outcome}
use tapip.Forward.{ip_forward, rt_input, drop_pkb}

-- pkb_trim: the packet with a length counted from its Ethernet header
abbrev pub pkb_trim : Pkbuf → ℕ → Pkbuf
pkb_trim pkb len = record pkb {
  pk_len = len;
  ip = record (pkb.ip) { ip_data = take (len - eth_hrd_sz - iphlen pkb.ip) pkb.ip.ip_data };
}

-- the flag that the packet's route is to this host
abbrev pub is_local : Pkbuf → Bool
is_local pkb = elim (pkb.pk_rtdst) [
  | none ↦ false
  | some rt ↦ not (bit_and rt.rt_flags rt_localhost == 0)
]

abbrev pub is_otherhost : PkType → Bool
is_otherhost pkt_otherhost = true
is_otherhost _ = false

-- the packet that goes to ip_recv_local, if it does, and what is sent or freed
abbrev pub Arrival : Type 0
Arrival = Option Pkbuf × (ℕ × Outcome)

-- ip_recv_route behind rt_input
abbrev pub route_by : Table → ℕ → ArpCache → Arrival → Arrival
route_by rts ipid c (none, done) = (none, done)
route_by rts ipid c (some pkb, done) =
    if is_local pkb
    then (some pkb, done)
    else (none, ip_forward rts (record pkb { ip = ip_ntoh pkb.ip }) ipid c)

-- The packet is in host order.
unfoldable pub ip_recv_route : Table → Pkbuf → ℕ → ArpCache → Arrival
ip_recv_route rts pkb ipid c = route_by rts ipid c (rt_input rts pkb ipid c)

-- the checks of the header in network order
abbrev pub is_bad_header : Pkbuf → Bool
is_bad_header pkb =
    (is_otherhost pkb.pk_type || ltb pkb.pk_len (eth_hrd_sz + ip_hrd_sz))
    || ((not (pkb.ip.ip_ver == 4) || ltb (iphlen pkb.ip) ip_hrd_sz)
        || not (ip_chksum (ip_bytes pkb.ip) (iphlen pkb.ip) == 0))

-- the check of the length field, in host order
abbrev pub is_bad_size : Pkbuf → Bool
is_bad_size pkb = ltb pkb.ip.ip_len (iphlen pkb.ip) || ltb pkb.pk_len (eth_hrd_sz + pkb.ip.ip_len)

-- without what stands behind the packet
abbrev pub cut_padding : Pkbuf → Pkbuf
cut_padding pkb =
    if ltb (eth_hrd_sz + pkb.ip.ip_len) pkb.pk_len
    then pkb_trim pkb (eth_hrd_sz + pkb.ip.ip_len)
    else pkb

unfoldable pub ip_in : Table → Pkbuf → ℕ → ArpCache → Arrival
ip_in rts pkb ipid c =
    let host = record pkb { ip = ip_ntoh pkb.ip } in
    if is_bad_header pkb
    then (none, drop_pkb pkb ipid c)
    else if is_bad_size host
    then (none, drop_pkb host ipid c)
    else ip_recv_route rts (cut_padding host) ipid c
