-- ===== src/Forward/Safe.antt =====
-- ip/ip_forward.c: forwarding returns and leaves the ARP cache valid.
use tapip.Base.{
  ℕ, ◌+◌, ◌≤◌, ◌≡◌, ◌≢◌, refl, sym, [], ◌∷◌, ◌++◌, none, some, Bool-cases, inl, inr, ltb, leb, ◌==◌,
  htons, bit_and, arith,
}
use mathlib.Core.Path.{subst}
use tapip.Net.{Netdev, Rtentry, Pkbuf, freed, ip_set_checksum, ip_frag_df, ip_hrd_sz, eth_hrd_sz}
use tapip.Route.{Table}
use tapip.Arp.Cache.{ArpCache}
use tapip.Arp.Cache.Inv.{IsValid}
use tapip.Arp.Cache.Timer.{NoFault-append}
use tapip.Ip.Out.{with_info, next_hop, ip_send_dev, ip_send_info}
use tapip.Ip.Out.Deliver.{ip_send_dev-IsValid}
use tapip.Ip.Out.Returns.{Returns, HasRoom, AllRoom, ip_send_frag-Returns, ip_send_out-Returns}
use tapip.Icmp.{Outcome, icmp_send, may_answer, message_pkb, icmp_message, icmp_hrd_sz, quoted_len}
use tapip.Forward.{
  and_then, drop_pkb, redirects, pass_on, aged, forward_by, forward_with, ip_forward,
}

-- Every device in the table has room for a header of 20 bytes and 8 bytes behind it.
abbrev pub AllWide : Table → Type 0
AllWide [] = Unit {0}
AllWide (rt ∷ rts) = (28 ≤ rt.rt_dev.net_mtu) × AllWide rts

AllWide-AllRoom : (pkb : Pkbuf) (rts : Table) → pkb.ip.ip_hlen ≡ 5 → AllWide rts → AllRoom pkb rts
AllWide-AllRoom pkb [] e w = tt
AllWide-AllRoom pkb (rt ∷ rts) e w = (omega (arith, w.0), AllWide-AllRoom pkb rts e w.1)

abbrev pub silent : {c : ArpCache} → IsValid c → Returns (some (c, []))
silent {c} v = record { cache = c; out = []; returns = refl; valid = v; quiet = tt }

pub icmp_send-Returns :
    {c : ArpCache} (ipid : ℕ) (rts : Table) (type code info : ℕ) (pkb : Pkbuf)
    → IsValid c
    → AllWide rts
    → Returns (icmp_send ipid rts c type code info pkb).1
unfolding icmp_send ip_send_info
icmp_send-Returns {c} ipid rts type code info pkb v w = elim (Bool-cases (may_answer type pkb)) [
  | inl may ↦
      let len = ip_hrd_sz + icmp_hrd_sz + quoted_len pkb in
      let new =
        with_info ipid (message_pkb (eth_hrd_sz + len) (icmp_message type code info pkb)) 0 len 0 1
          pkb.ip.ip_src in
      rw may (ip_send_out-Returns rts new v (AllWide-AllRoom new rts refl w) (λ rt e. cc))
  | inr not_may ↦ rw not_may (silent v)
]

pub and_then-Returns :
    (r : ℕ × Outcome) (next : ℕ → ArpCache → ℕ × Outcome)
    → Returns r.1
    → ((ipid : ℕ) (c : ArpCache) → IsValid c → Returns (next ipid c).1)
    → Returns (and_then r next).1
unfolding and_then
and_then-Returns (ipid, result) next r h =
    let n = h ipid r.cache r.valid in
    record {
      cache = n.cache;
      out = r.out ++ n.out;
      returns = rw (r.returns, n.returns, and_then) refl;
      valid = n.valid;
      quiet = NoFault-append r.out n.out r.quiet n.quiet;
    }

dropped : {c : ArpCache} (ipid : ℕ) (pkb : Pkbuf) → IsValid c → Returns (drop_pkb pkb ipid c).1
dropped {c} ipid pkb v = record {
  cache = c;
  out = freed pkb ∷ [];
  returns = refl;
  valid = v;
  quiet = ((λ e. cc), tt);
}

sent :
    {c : ArpCache} (dev : Netdev) (pkb : Pkbuf)
    → IsValid c
    → pkb.pk_rtdst ≢ none
    → Returns (some (ip_send_dev c dev pkb))
sent {c} dev pkb v has_route =
    let (v', q) = ip_send_dev-IsValid dev pkb v has_route in
    record {
      cache = (ip_send_dev c dev pkb).0;
      out = (ip_send_dev c dev pkb).1;
      returns = refl;
      valid = v';
      quiet = q;
    }

module _ (rts : Table) (rt : Rtentry) (w : AllWide rts) where
  pass_on-Returns :
      {c : ArpCache} (pkb : Pkbuf) (ipid : ℕ)
      → IsValid c
      → pkb.pk_rtdst ≢ none
      → HasRoom pkb rt
      → Returns (pass_on rts rt pkb ipid c).1
  unfolding pass_on
  pass_on-Returns {c} pkb ipid v has_route room =
      elim (Bool-cases (ltb rt.rt_dev.net_mtu (htons pkb.ip.ip_len))) [
        | inr short ↦ rw short (sent rt.rt_dev pkb v has_route)
        | inl long ↦
            rw long (elim (Bool-cases (bit_and pkb.ip.ip_fragoff (htons ip_frag_df) == 0)) [
              | inl may ↦ rw may (ip_send_frag-Returns rt.rt_dev pkb v has_route room)
              | inr df ↦ rw df (
                  and_then-Returns (icmp_send ipid rts c 3 4 0 pkb) (drop_pkb pkb)
                    (icmp_send-Returns ipid rts 3 4 0 pkb v w)
                    (λ i c' v'. dropped {c = c'} i pkb v'))
            ])
      ]

  forward_by-Returns :
      {c : ArpCache} (pkb : Pkbuf) (ipid : ℕ)
      → IsValid c
      → pkb.pk_rtdst ≢ none
      → HasRoom pkb rt
      → Returns (forward_by rts rt pkb ipid c).1
  unfolding forward_by ip_set_checksum
  forward_by-Returns {c} pkb ipid v has_route room = elim (Bool-cases (leb pkb.ip.ip_ttl 1)) [
    | inl expired ↦ rw expired (
        and_then-Returns (icmp_send ipid rts c 11 0 0 pkb) (drop_pkb pkb)
          (icmp_send-Returns ipid rts 11 0 0 pkb v w) (λ i c' v'. dropped {c = c'} i pkb v'))
    | inr alive ↦ rw alive (elim (Bool-cases (redirects rts rt (aged pkb))) [
      | inr plain ↦ rw plain (pass_on-Returns (aged pkb) ipid v has_route room)
      | inl back ↦ rw back (
          and_then-Returns (icmp_send ipid rts c 5 1 (next_hop rt (aged pkb).ip) (aged pkb))
            (pass_on rts rt (aged pkb))
            (icmp_send-Returns ipid rts 5 1 (next_hop rt (aged pkb).ip) (aged pkb) v w)
            (λ i c' v'. pass_on-Returns {c = c'} (aged pkb) i v' has_route room))
    ])
  ]

-- ip_forward returns, keeps a valid ARP cache valid and follows no null pointer, whatever it does
-- with the packet and whatever ICMP message it sends, for a packet with a route whose device has
-- room for 8 bytes behind the packet's header, if every device in the routing table has room for 28
-- bytes.
pub ip_forward-Returns :
    {c : ArpCache} (rts : Table) (pkb : Pkbuf) (ipid : ℕ) {rt : Rtentry}
    → IsValid c
    → AllWide rts
    → pkb.pk_rtdst ≡ some rt
    → HasRoom pkb rt
    → Returns (ip_forward rts pkb ipid c).1
unfolding ip_forward forward_with
ip_forward-Returns {c} rts pkb ipid {rt} v w routed room =
    subst (λ r. Returns (forward_with rts pkb ipid c r).1) (sym routed)
      (forward_by-Returns rts rt w pkb ipid v (λ h. cc) room)
