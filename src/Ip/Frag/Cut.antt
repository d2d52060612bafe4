-- ===== src/Ip/Frag/Cut.antt =====
-- ip_frag and ip_send_frag of ip/ip_frag.c: the pieces of a packet that is too long for a device.
use tapip.Base.{
  ℕ, zero, suc, ◌+◌, ◌-◌, ◌*◌, ◌/◌, ◌^◌, List, [], ◌∷◌, Option, none, some, ltb, if◌then◌else◌,
  take, drop, htons,
}
use tapip.Net.{Netdev, Pkbuf, iphlen, ip_set_checksum, eth_hrd_sz}
use tapip.Ip.Frag.{more_frags}

-- ip_frag, of a packet in network order. The bits that `|=` joins are disjoint, since an offset is
-- below 2 ^ 16, so the sum stands for it.
unfoldable pub ip_frag : Pkbuf → ℕ → ℕ → ℕ → ℕ → Pkbuf
unfolding ip_set_checksum
ip_frag pkb hlen dlen off mf_bit = record pkb {
  pk_len = eth_hrd_sz + hlen + dlen;
  ip = ip_set_checksum (record (pkb.ip) {
    ip_len = htons (hlen + dlen);
    ip_fragoff = htons (mf_bit + off / 8);
    ip_data = take dlen (drop off pkb.ip.ip_data);
  });
}

-- The loop of ip_send_frag and the piece behind it: the packets that it makes, in order. `none`
-- means that the fuel ran out, as it does for every fuel when mlen is 0.
unfoldable pub frag_loop : ℕ → Pkbuf → ℕ → ℕ → ℕ → ℕ → Option (List Pkbuf)
unfolding ip_frag
frag_loop zero pkb hlen mlen dlen off = none
frag_loop (suc fuel) pkb hlen mlen dlen off =
    let rest = frag_loop fuel pkb hlen mlen (dlen - mlen) (off + mlen) in
    if ltb mlen dlen
    then elim rest [ none ↦ none | some pkbs ↦ some (ip_frag pkb hlen mlen off (2 ^ 13) ∷ pkbs) ]
    else if ltb 0 dlen
    then some (ip_frag pkb hlen dlen off (more_frags pkb.ip.ip_fragoff * 2 ^ 13) ∷ [])
    else some []

-- dlen and the largest payload of a fragment, as ip_send_frag computes them
abbrev pub frag_dlen : Pkbuf → ℕ
frag_dlen pkb = htons pkb.ip.ip_len - iphlen pkb.ip

abbrev pub frag_mlen : Netdev → Pkbuf → ℕ
frag_mlen dev pkb = (dev.net_mtu - iphlen pkb.ip) / 8 * 8

unfoldable pub fragments : Netdev → Pkbuf → Option (List Pkbuf)
unfolding frag_loop
fragments dev pkb =
    frag_loop (suc (frag_dlen pkb)) pkb (iphlen pkb.ip) (frag_mlen dev pkb) (frag_dlen pkb) 0
