-- ===== src/Ip/In/Checked.antt =====
-- ip_in of ip/ip_in.c and ip_set_checksum of lib/checksum.c: what is sent is what is taken in.
use tapip.Base.{
  ℕ, ◌+◌, ◌-◌, ◌^◌, ◌<◌, ◌≤◌, ◌≡◌, ap, ◌∙◌, sym, refl, set, ◌/◌, ◌%◌, List, [], ◌∷◌, ◌++◌, some,
  none, not, ◌==◌, if◌then◌else◌, bit_and, htons-htons, false, length, length-append, take,
  take_all, take-append, ap₂, if-cases, ltb, htons, arith,
}
use tapip.Checksum.{checksum, ip_chksum, set_word}
use tapip.Checksum.Sum.{AllBytes}
use tapip.Checksum.Header.{checksum-set_word, total-le}
use tapip.Net.{
  Ip, Pkbuf, iphlen, ip_ntoh, ip_bytes, ip_set_checksum, eth_hrd_sz, Rtentry, rt_localhost,
}
use tapip.Route.{Table, rt_lookup}
use tapip.Forward.{ip_forward, rt_input}
use tapip.Arp.Cache.{ArpCache}
use tapip.Ip.In.{
  ip_in, ip_recv_route, route_by, is_otherhost, is_bad_header, is_bad_size, cut_padding,
}

-- A header in network order whose fields fit into their bits, with the data behind it.
pub record IsHeader (h : Ip) : Type 0 where
  pub version : h.ip_ver ≡ 4
  pub hlen_min : 5 ≤ h.ip_hlen
  pub hlen_max : h.ip_hlen < 16
  pub tos : h.ip_tos < 256
  pub ttl : h.ip_ttl < 256
  pub pro : h.ip_pro < 256
  pub len_small : h.ip_len < 2 ^ 16
  pub id_small : h.ip_id < 2 ^ 16
  pub fragoff_small : h.ip_fragoff < 2 ^ 16
  pub opts : AllBytes h.ip_opts
  pub opts_len : 20 + length h.ip_opts ≡ iphlen h
  pub total_len : htons h.ip_len ≡ iphlen h + length h.ip_data

-- the header with a checksum in it
abbrev summed : Ip → ℕ → Ip
summed h c = record h { ip_cksum = c }

AllBytes-append : (xs ys : List ℕ) → AllBytes xs → AllBytes ys → AllBytes (xs ++ ys)
AllBytes-append [] ys h g = g
AllBytes-append (x ∷ xs) ys h g = (h.0, AllBytes-append xs ys h.1 g)

ip_bytes-AllBytes : (h : Ip) → IsHeader h → AllBytes (ip_bytes (summed h 0))
unfolding ip_bytes
ip_bytes-AllBytes h v =
    AllBytes-append (ip_bytes (record (summed h 0) { ip_opts = [] })) h.ip_opts (omega (arith, v))
      v.opts

length-ip_bytes : (h : Ip) → length (ip_bytes h) ≡ 20 + length h.ip_opts
unfolding ip_bytes
length-ip_bytes h = omega arith

byte_small : (c : ℕ) → c < 2 ^ 16 → c / 2 ^ 8 ≡ c / 2 ^ 8 % 2 ^ 8
byte_small c lt = omega arith

ip_bytes-set_word :
    (h : Ip) (c : ℕ) → c < 2 ^ 16 → set_word (ip_bytes (summed h 0)) 10 c ≡ ip_bytes (summed h c)
unfolding ip_bytes
ip_bytes-set_word h c lt = ap (λ i. set (ip_bytes (summed h c)) 11 i) (byte_small c lt)

checksum-lt : (bytes : List ℕ) (size o : ℕ) → checksum bytes size o < 2 ^ 16
unfolding checksum
checksum-lt bytes size o = omega arith

-- The structure with its checksum filled in passes the test of ip_in.
ip_chksum-summed :
    (h : Ip) (data_ : List ℕ)
    → IsHeader h
    → ip_chksum (ip_bytes (record (ip_set_checksum h) { ip_data = data_ })) (iphlen h) ≡ 0
unfolding ip_chksum ip_set_checksum ip_bytes
ip_chksum-summed h data_ v =
    let bytes : List ℕ = ip_bytes (summed h 0) in
    let c : ℕ = checksum bytes (iphlen h) 0 in
    let bound : AllBytes bytes = ip_bytes-AllBytes h v in
    ap (λ i. checksum i (iphlen h) 0) (sym (ip_bytes-set_word h c (checksum-lt bytes (iphlen h) 0)))
    ∙ checksum-set_word 5 bytes (iphlen h) 0 bound (omega (arith, v)) (omega arith)
        (omega (arith, v, total-le bytes (iphlen h) bound))

-- the packet as the other side takes it from the wire: with its checksum, and with padding
abbrev pub padded : Pkbuf → List ℕ → Pkbuf
padded pkb pad = record pkb {
  pk_len = eth_hrd_sz + htons pkb.ip.ip_len + length pad;
  ip = record (ip_set_checksum pkb.ip) { ip_data = pkb.ip.ip_data ++ pad };
}

-- the packet with its header in host order
abbrev arrived : Pkbuf → Pkbuf
arrived pkb = record pkb { ip = ip_ntoh pkb.ip }

-- the packet behind the checks: without the padding, and in host order
abbrev pub received : Pkbuf → Pkbuf
received pkb = record pkb {
  pk_len = eth_hrd_sz + htons pkb.ip.ip_len;
  ip = ip_ntoh (ip_set_checksum pkb.ip);
}

-- a packet like this one, of another length and with other data
abbrev resized : Pkbuf → ℕ → List ℕ → Pkbuf
resized pkb len data_ = record pkb {
  pk_len = len;
  ip = record (ip_ntoh (ip_set_checksum pkb.ip)) { ip_data = data_ };
}

accepts_header :
    (pkb : Pkbuf) (pad : List ℕ)
    → IsHeader pkb.ip
    → is_otherhost pkb.pk_type ≡ false
    → is_bad_header (padded pkb pad) ≡ false
unfolding ip_set_checksum
accepts_header pkb pad v e = ground (arith, e, v, ip_chksum-summed pkb.ip (pkb.ip.ip_data ++ pad) v)

accepts_size :
    (pkb : Pkbuf) (pad : List ℕ) → IsHeader pkb.ip → is_bad_size (arrived (padded pkb pad)) ≡ false
unfolding ip_set_checksum ip_ntoh
accepts_size pkb pad v = ground (arith, v)

-- The padding is what is cut off.
cut_padding-padded :
    (pkb : Pkbuf) (pad : List ℕ)
    → IsHeader pkb.ip
    → cut_padding (arrived (padded pkb pad)) ≡ received pkb
unfolding ip_set_checksum ip_ntoh
cut_padding-padded pkb pad v =
    let len : ℕ = eth_hrd_sz + htons pkb.ip.ip_len in
    let n : ℕ = len - eth_hrd_sz - iphlen pkb.ip in
    let text : take n (pkb.ip.ip_data ++ pad) ≡ pkb.ip.ip_data =
      take-append n pkb.ip.ip_data pad (omega (arith, v)) in
    if-cases (λ p. p ≡ received pkb) (ltb len (len + length pad))
      (λ more. ap (resized pkb len) text)
      (λ same.
        let empty : length pad ≡ 0 = ground arith in
        ap₂ (resized pkb) (omega arith) (
          sym (
            take_all n (pkb.ip.ip_data ++ pad) (omega (arith, v, length-append pkb.ip.ip_data pad)))
          ∙ text))

ip_in-padded :
    (rts : Table) (pkb : Pkbuf) (pad : List ℕ) (ipid : ℕ) (c : ArpCache)
    → IsHeader pkb.ip
    → is_otherhost pkb.pk_type ≡ false
    → ip_in rts (padded pkb pad) ipid c ≡ ip_recv_route rts (received pkb) ipid c
unfolding ip_in
ip_in-padded rts pkb pad ipid c v e =
    rw (accepts_header pkb pad v e, accepts_size pkb pad v, cut_padding-padded pkb pad v) refl

ip_ntoh-ip_ntoh : (h : Ip) → IsHeader h → ip_ntoh (ip_ntoh (ip_set_checksum h)) ≡ ip_set_checksum h
unfolding ip_ntoh ip_set_checksum
ip_ntoh-ip_ntoh h v =
    rw
      (
        htons-htons h.ip_len v.len_small,
        htons-htons h.ip_id v.id_small,
        htons-htons h.ip_fragoff v.fragoff_small,
      )
      refl

-- the packet as it was sent, with the route that was found
abbrev pub routed : Pkbuf → Rtentry → Pkbuf
routed pkb rt = record pkb {
  pk_len = eth_hrd_sz + htons pkb.ip.ip_len;
  pk_rtdst = some rt;
  ip = ip_set_checksum pkb.ip;
}

rt_input-received :
    (rts : Table) (pkb : Pkbuf) (ipid : ℕ) (c : ArpCache) {rt : Rtentry}
    → rt_lookup rts pkb.ip.ip_dst ≡ some rt
    → rt_input rts (received pkb) ipid c
      ≡ (some (record (received pkb) { pk_rtdst = some rt }), (ipid, some (c, [])))
unfolding rt_input ip_ntoh ip_set_checksum
rt_input-received rts pkb ipid c r = rw (r, rt_input) refl

-- A packet whose header is in order and carries the checksum of ip_set_checksum, that is not for
-- another host's hardware address and that has a route, is dropped by no check of ip_in, whatever
-- padding follows it. If the route is to this host, then it goes to ip_recv_local, its header in
-- host order and the padding cut off, and nothing is sent; otherwise ip_forward gets it as it was
-- sent, with the route.
pub ip_in-ip_set_checksum :
    (rts : Table) (pkb : Pkbuf) (pad : List ℕ) (ipid : ℕ) (c : ArpCache) {rt : Rtentry}
    → IsHeader pkb.ip
    → is_otherhost pkb.pk_type ≡ false
    → rt_lookup rts pkb.ip.ip_dst ≡ some rt
    → ip_in rts (padded pkb pad) ipid c ≡ (
        if not (bit_and rt.rt_flags rt_localhost == 0)
        then (some (record (received pkb) { pk_rtdst = some rt }), (ipid, some (c, [])))
        else (none, ip_forward rts (routed pkb rt) ipid c))
unfolding ip_recv_route
ip_in-ip_set_checksum rts pkb pad ipid c {rt = rt} v e r =
    ip_in-padded rts pkb pad ipid c v e
    ∙ ap (route_by rts ipid c) (rt_input-received rts pkb ipid c r)
    ∙ rw (ip_ntoh-ip_ntoh pkb.ip v) refl
