-- ===== src/Ip/Out/Returns.antt =====
-- ip_send_out of ip/ip_out.c as a whole: it returns, and what it leaves behind.
use tapip.Base.{
  ℕ, zero, suc, ◌+◌, ◌-◌, ◌*◌, ◌≤◌, ◌<◌, ◌≡◌, ◌≢◌, refl, sym, List, [], ◌∷◌, ◌++◌, Option, none,
  some, Bool-cases, Option-cases, inl, inr, arith, htons, ltb, ltb→lt, ◌^◌,
}
use mathlib.Core.Path.{subst}
use tapip.Net.{Netdev, Rtentry, Pkbuf, Event, freed, iphlen, ip_set_checksum, eth_p_ip}
use tapip.Route.{Table, rt_lookup, rt_output, covers}
use tapip.Arp.Cache.{ArpCache}
use tapip.Arp.Cache.Inv.{IsValid}
use tapip.Arp.Cache.Timer.{NoFault, NoFault-append}
use tapip.Ip.Frag.{more_frags}
use tapip.Ip.Frag.Cut.{ip_frag, frag_loop, frag_mlen, frag_dlen, fragments}
use tapip.Ip.Out.{ip_send_dev, send_all, ip_send_frag, send_routed, send_with, ip_send_out}
use tapip.Ip.Out.Deliver.{ip_send_dev-IsValid}

-- Every packet has a route.
abbrev AllRouted : List Pkbuf → Type 0
AllRouted [] = Unit {0}
AllRouted (pkb ∷ pkbs) = (pkb.pk_rtdst ≢ none) × AllRouted pkbs

-- It returns, with a valid cache, and follows no null pointer.
pub record Returns (r : Option (ArpCache × List Event)) : Type 0 where
  pub cache : ArpCache
  pub out : List Event
  pub returns : r ≡ some (cache, out)
  pub valid : IsValid cache
  pub quiet : NoFault out

record Cuts (r : Option (List Pkbuf)) : Type 0 where
  pieces : List Pkbuf
  made : r ≡ some pieces
  routed : AllRouted pieces

module _ (pkb : Pkbuf) (has_route : pkb.pk_rtdst ≢ none) where
  ip_frag-routed : (hlen dlen off mf : ℕ) → (ip_frag pkb hlen dlen off mf).pk_rtdst ≢ none
  unfolding ip_frag
  ip_frag-routed hlen dlen off mf = has_route

  -- The loop of ip_send_frag ends if each round takes some data.
  frag_loop-Cuts :
      (fuel hlen mlen dlen off : ℕ)
      → 0 < mlen
      → dlen < fuel
      → Cuts (frag_loop fuel pkb hlen mlen dlen off)
  unfolding frag_loop
  frag_loop-Cuts zero hlen mlen dlen off step enough = absurd (omega arith)
  frag_loop-Cuts (suc fuel) hlen mlen dlen off step enough = elim (Bool-cases (ltb mlen dlen)) [
    | inl more ↦
        let ih =
          frag_loop-Cuts fuel hlen mlen (dlen - mlen) (off + mlen) step
            (omega (arith, ltb→lt mlen dlen more)) in
        rw (more, ih.made)
          (record {
            pieces = ip_frag pkb hlen mlen off (2 ^ 13) ∷ ih.pieces;
            made = refl;
            routed = (ip_frag-routed hlen mlen off (2 ^ 13), ih.routed);
          })
    | inr done ↦ rw done (elim (Bool-cases (ltb 0 dlen)) [
      | inl left ↦ rw left (record {
        pieces = ip_frag pkb hlen dlen off (more_frags pkb.ip.ip_fragoff * 2 ^ 13) ∷ [];
        made = refl;
        routed = (ip_frag-routed hlen dlen off (more_frags pkb.ip.ip_fragoff * 2 ^ 13), tt);
      })
      | inr none_left ↦ rw none_left (record { pieces = []; made = refl; routed = tt })
    ])
  ]

send_all-IsValid :
    {c : ArpCache} (dev : Netdev) (pkbs : List Pkbuf)
    → IsValid c
    → AllRouted pkbs
    → IsValid (send_all c dev pkbs).0 × NoFault (send_all c dev pkbs).1
unfolding send_all
send_all-IsValid dev [] v r = (v, tt)
send_all-IsValid {c} dev (pkb ∷ pkbs) v r =
    let (v', q) = ip_send_dev-IsValid dev pkb v r.0 in
    let (v'', q') = send_all-IsValid {c = (ip_send_dev c dev pkb).0} dev pkbs v' r.1 in
    (v'', NoFault-append (ip_send_dev c dev pkb).1 _ q q')

-- The device of a route has room for 8 bytes behind the header of a packet.
abbrev pub HasRoom : Pkbuf → Rtentry → Type 0
HasRoom pkb rt = iphlen pkb.ip + 8 ≤ rt.rt_dev.net_mtu

abbrev pub AllRoom : Pkbuf → Table → Type 0
AllRoom pkb [] = Unit {0}
AllRoom pkb (rt ∷ rts) = HasRoom pkb rt × AllRoom pkb rts

rt_lookup-HasRoom :
    (pkb : Pkbuf) (rts : Table) (ipaddr : ℕ) {rt : Rtentry}
    → AllRoom pkb rts
    → rt_lookup rts ipaddr ≡ some rt
    → HasRoom pkb rt
unfolding rt_lookup
rt_lookup-HasRoom pkb [] ipaddr r e = cc
rt_lookup-HasRoom pkb (x ∷ rts) ipaddr {rt} r e = elim (Bool-cases (covers x ipaddr)) [
  | inl fits ↦ let first : x ≡ rt = ground arith in subst (HasRoom pkb) first r.0
  | inr misses ↦ rt_lookup-HasRoom pkb rts ipaddr {rt = rt} r.1 (rw misses at e)
]

pub ip_send_frag-Returns :
    {c : ArpCache} (dev : Netdev) (pkb : Pkbuf)
    → IsValid c
    → pkb.pk_rtdst ≢ none
    → iphlen pkb.ip + 8 ≤ dev.net_mtu
    → Returns (ip_send_frag c dev pkb)
unfolding ip_send_frag fragments
ip_send_frag-Returns {c} dev pkb v has_route room =
    let cuts =
      frag_loop-Cuts pkb has_route (suc (frag_dlen pkb)) (iphlen pkb.ip) (frag_mlen dev pkb)
        (frag_dlen pkb) 0 (omega arith) (omega arith) in
    let (v', q) = send_all-IsValid dev cuts.pieces v cuts.routed in
    record {
      cache = (send_all c dev cuts.pieces).0;
      out = (send_all c dev cuts.pieces).1 ++ (freed pkb ∷ []);
      returns = rw (cuts.made, ip_send_frag, fragments) refl;
      valid = v';
      quiet = NoFault-append (send_all c dev cuts.pieces).1 (freed pkb ∷ []) q ((λ e. cc), tt);
    }

send_routed-Returns :
    {c : ArpCache} (rt : Rtentry) (pkb : Pkbuf)
    → IsValid c
    → pkb.pk_rtdst ≢ none
    → HasRoom pkb rt
    → Returns (send_routed c rt pkb)
unfolding send_routed ip_set_checksum
send_routed-Returns {c} rt pkb v has_route room =
    let pkb' = record pkb { ip = ip_set_checksum pkb.ip } in
    let (v', q) = ip_send_dev-IsValid rt.rt_dev pkb' v has_route in
    elim (Bool-cases (ltb rt.rt_dev.net_mtu (htons pkb.ip.ip_len))) [
      | inl long ↦ rw long (ip_send_frag-Returns rt.rt_dev pkb' v has_route room)
      | inr short ↦ rw short (record {
        cache = (ip_send_dev c rt.rt_dev pkb').0;
        out = (ip_send_dev c rt.rt_dev pkb').1;
        returns = refl;
        valid = v';
        quiet = q;
      })
    ]

send_with-Returns :
    {c : ArpCache} (rts : Table) (pkb : Pkbuf)
    → IsValid c
    → AllRoom pkb rts
    → Returns (send_with rts c pkb none)
unfolding send_with rt_output
send_with-Returns {c} rts pkb v all = elim (Option-cases (rt_lookup rts pkb.ip.ip_dst)) [
  | inl lost ↦
      rw (lost, send_with, rt_output)
        (record {
          cache = c;
          out = freed pkb ∷ [];
          returns = refl;
          valid = v;
          quiet = ((λ e. cc), tt);
        })
  | inr (rt, found) ↦
      rw (found, send_with, rt_output)
        (send_routed-Returns rt
          (record pkb {
            pk_rtdst = some rt;
            ip = record (pkb.ip) { ip_src = rt.rt_dev.net_ipaddr };
          })
          v (λ h. cc) (rt_lookup-HasRoom pkb rts pkb.ip.ip_dst {rt = rt} all found))
]

-- ip_send_out returns, keeps a valid ARP cache valid and follows no null pointer, for a packet with
-- a route whose device has room for 8 bytes behind the packet's header, or without a route, if
-- that holds of every device in the routing table.
pub ip_send_out-Returns :
    {c : ArpCache} (rts : Table) (pkb : Pkbuf)
    → IsValid c
    → AllRoom pkb rts
    → ((rt : Rtentry) → pkb.pk_rtdst ≡ some rt → HasRoom pkb rt)
    → Returns (ip_send_out rts c pkb)
unfolding ip_send_out send_with
ip_send_out-Returns {c} rts pkb v all own =
    let pkb' = record pkb { pk_pro = eth_p_ip } in
    elim (Option-cases (pkb.pk_rtdst)) [
      | inr (rt, e) ↦
          subst (λ r. Returns (send_with rts c pkb' r)) (sym e)
            (send_routed-Returns rt pkb' v (λ h. cc) (own rt e))
      | inl e ↦
          subst (λ r. Returns (send_with rts c pkb' r)) (sym e) (send_with-Returns rts pkb' v all)
    ]
