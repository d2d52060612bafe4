-- ===== src/Host/Fragments.antt =====
-- ip_recv_local: what a packet that arrives in fragments comes to at the protocols.
use tapip.Base.{
  ℕ, zero, suc, ◌+◌, ◌-◌, ◌*◌, ◌/◌, ◌%◌, ◌^◌, ◌≤◌, ◌<◌, ◌≡◌, ◌≢◌, refl, sym, List, [], ◌∷◌, ◌++◌,
  Option, none, some, Bool, map, htons, htons-htons, htons-lt, ltb, arith, Option-cases, inl, inr,
  if-cases,
}
use mathlib.Core.Path.{subst}
use mathlib.Core.Logic.{◌⊎◌}
use tapip.Net.{Event, Netdev, Pkbuf, iphlen, ip_ntoh, ip_set_checksum}
use tapip.Ip.Frag
use tapip.Ip.Frag.{more_frags, lookup_frag, ip_reass}
use tapip.Ip.Frag.Cut.{fragments, frag_loop, ip_frag, frag_dlen, frag_mlen}
use tapip.Ip.Frag.Trip.{reass_all, arrived, IsSized, Rejoins, ip_reass-fragments}
use tapip.Ip.Frag.Join.{Restored}
use tapip.Host.{Upper, Host, deliver, recv_frag, ip_recv_local}

-- A fragment that may be joined: it has an offset or the MF bit, and the bits above are 0.
pub record IsFragment (pkb : Pkbuf) : Type 0 where
  pub is_part : pkb.ip.ip_fragoff % 2 ^ 14 ≢ 0
  pub plain : pkb.ip.ip_fragoff < 2 ^ 14

abbrev pub AllFragments : List Pkbuf → Type 0
AllFragments [] = Unit {0}
AllFragments (pkb ∷ pkbs) = IsFragment pkb × AllFragments pkbs

-- The packets are received one after the other.
abbrev pub recv_all : (ℕ → Bool) → Host → List Pkbuf → Option Host
recv_all has_cb host [] = some host
recv_all has_cb host (pkb ∷ pkbs) = elim (ip_recv_local has_cb host pkb) [
  | none ↦ none
  | some host' ↦ recv_all has_cb host' pkbs
]

abbrev pub deliver_all : (ℕ → Bool) → Upper → List Pkbuf → Option Upper
deliver_all has_cb u [] = some u
deliver_all has_cb u (pkb ∷ pkbs) = elim (deliver has_cb u pkb) [
  | none ↦ none
  | some u' ↦ deliver_all has_cb u' pkbs
]

-- The run of the host comes to this table and to this state of the protocols.
abbrev pub Ends : Frag.Table → Option Upper → Option Host → Type 0
Ends t none r = r ≡ none
Ends t (some u) r = (host : Host) × (r ≡ some host) × (host.frags ≡ t) × (host.up ≡ u)

recv_local-part :
    (has_cb : ℕ → Bool) (host : Host) (pkb : Pkbuf)
    → IsFragment pkb
    → ip_recv_local has_cb host pkb ≡ recv_frag has_cb host (ip_reass host.frags pkb)
unfolding ip_recv_local
recv_local-part has_cb host pkb f = ground (arith, f.is_part, f.plain)

-- one packet through ip_reass, and the others behind it
recv_frag-Ends :
    (has_cb : ℕ → Bool) (host : Host) (pkbs : List Pkbuf)
    (r : Frag.Table × Option Pkbuf × List Event)
    → ((host' : Host)
        → Ends
            (reass_all host'.frags pkbs).0
            (deliver_all has_cb host'.up (reass_all host'.frags pkbs).1)
            (recv_all has_cb host' pkbs))
    → Ends
        (reass_all r.0 pkbs).0
        (deliver_all has_cb host.up
          (elim (r.1) [ none ↦ (reass_all r.0 pkbs).1 | some w ↦ w ∷ (reass_all r.0 pkbs).1 ]))
        (elim (recv_frag has_cb host r) [ none ↦ none | some host' ↦ recv_all has_cb host' pkbs ])
recv_frag-Ends has_cb host pkbs (frags, none, evs) ih =
    ih (record host { frags = frags; frag_out = host.frag_out ++ evs })
recv_frag-Ends has_cb host pkbs (frags, some w, evs) ih =
    elim (Option-cases (deliver has_cb host.up w)) [
      | inl e ↦ rw (e, deliver_all) refl
      | inr (u, e) ↦
          rw (e, deliver_all)
            (ih (record host { frags = frags; frag_out = host.frag_out ++ evs; up = u }))
    ]

recv_all-Ends :
    (has_cb : ℕ → Bool) (host : Host) (pkbs : List Pkbuf)
    → AllFragments pkbs
    → Ends
        (reass_all host.frags pkbs).0
        (deliver_all has_cb host.up (reass_all host.frags pkbs).1)
        (recv_all has_cb host pkbs)
recv_all-Ends has_cb host [] a = (host, refl, refl, refl)
recv_all-Ends has_cb host (pkb ∷ pkbs) a =
    rw (recv_all, recv_local-part has_cb host pkb a.0)
      (recv_frag-Ends has_cb host pkbs (ip_reass host.frags pkb)
        (λ host'. recv_all-Ends has_cb host' pkbs a.1))

ip_frag-IsFragment :
    (pkb : Pkbuf) (hlen n off m : ℕ)
    → m < 2
    → off < 2 ^ 16
    → 0 < m * 2 ^ 13 + off / 8
    → IsFragment (arrived (ip_frag pkb hlen n off (m * 2 ^ 13)))
unfolding ip_frag ip_set_checksum ip_ntoh
ip_frag-IsFragment pkb hlen n off m bit small part =
    let e : htons (htons (m * 2 ^ 13 + off / 8)) ≡ m * 2 ^ 13 + off / 8 =
      htons-htons (m * 2 ^ 13 + off / 8) (omega arith) in
    record { is_part = λ z. omega (arith, e, z); plain = omega (arith, e) }

-- the packets that a run of the loop makes, if it ends
abbrev Pieces : Option (List Pkbuf) → Type 0
Pieces none = Unit {0}
Pieces (some pkbs) = AllFragments (map arrived pkbs)

frag_loop-Pieces :
    (fuel : ℕ) (pkb : Pkbuf) (hlen mlen dlen off : ℕ)
    → more_frags pkb.ip.ip_fragoff ≡ 0
    → 8 ≤ mlen
    → off + dlen < 2 ^ 16
    → 8 ≤ off ⊎ mlen < dlen
    → Pieces (frag_loop fuel pkb hlen mlen dlen off)
unfolding frag_loop
frag_loop-Pieces zero pkb hlen mlen dlen off unset room small part = tt
frag_loop-Pieces (suc fuel) pkb hlen mlen dlen off unset room small part =
    if-cases Pieces (ltb mlen dlen)
      (λ more. elim (Option-cases (frag_loop fuel pkb hlen mlen (dlen - mlen) (off + mlen))) [
        | inl e ↦ rw e tt
        | inr (pkbs, e) ↦ rw e (
          ip_frag-IsFragment pkb hlen mlen off 1 (omega arith) (omega arith) (omega arith),
          subst Pieces e (
              frag_loop-Pieces fuel pkb hlen mlen (dlen - mlen) (off + mlen) unset room
                (ground arith) (inl (omega arith))),
        )
      ])
      (λ last.
        if-cases Pieces (ltb 0 dlen)
          (λ some_left. (
            subst (λ m. IsFragment (arrived (ip_frag pkb hlen dlen off (m * 2 ^ 13)))) (sym unset)
                (ip_frag-IsFragment pkb hlen dlen off 0 (omega arith) (ground arith)
                  (ground arith)),
            tt,
          ))
          (λ none_left. tt))

-- the host's run over one packet for the protocols
Ends-one :
    (has_cb : ℕ → Bool) (u : Upper) (w : Pkbuf) (t : Frag.Table) (r : Option Host)
    → Ends t (deliver_all has_cb u (w ∷ [])) r
    → Ends t (deliver has_cb u w) r
Ends-one has_cb u w t r e = elim (Option-cases (deliver has_cb u w)) [
  | inl n ↦ rw n (rw (n, Ends) at e)
  | inr (u', d) ↦ rw d (rw (d, Ends) at e)
]

-- What the fragments of a packet come to at a host.
pub record Delivered (has_cb : ℕ → Bool) (host : Host) (dev : Netdev) (pkb : Pkbuf) : Type 0 where
  pub pieces : List Pkbuf
  pub made : fragments dev pkb ≡ some pieces
  pub joined : Pkbuf
  pub restored : Restored (ip_ntoh pkb.ip) pkb.ip.ip_data joined
  pub ends :
      Ends host.frags (deliver has_cb host.up joined) (recv_all has_cb host (map arrived pieces))

-- ip_send_frag cuts a packet that is no fragment, and too long for the device, into fragments. When
-- they arrive in order at a host whose table has no entry for the packet, the raw sockets and the
-- protocol of the packet get it once, as ip_recv_local hands over a whole packet, with the data, the
-- length, the addresses, the protocol and the id of the first; they get nothing else, and the table
-- is as before. If that protocol does not return, neither does ip_recv_local. The device must have
-- room for 8 bytes behind a header.
pub fragments-Delivered :
    (has_cb : ℕ → Bool) (host : Host) (dev : Netdev) (pkb : Pkbuf)
    → IsSized pkb.ip
    → pkb.ip.ip_fragoff ≡ 0
    → iphlen pkb.ip + 8 ≤ dev.net_mtu
    → dev.net_mtu < htons pkb.ip.ip_len
    → lookup_frag host.frags (ip_ntoh pkb.ip) ≡ none
    → Delivered has_cb host dev pkb
unfolding fragments Rejoins
fragments-Delivered has_cb host dev pkb v whole room long miss =
    let (pieces, made, (joined, received, restored)) =
      ip_reass-fragments dev pkb host.frags v whole room long miss in
    let parts = subst Pieces made (
      frag_loop-Pieces (suc (frag_dlen pkb)) pkb (iphlen pkb.ip) (frag_mlen dev pkb) (frag_dlen pkb)
        0 (omega arith) (omega arith) (omega (arith, htons-lt pkb.ip.ip_len))
        (inr (omega arith))) in
    record {
      pieces = pieces;
      made = made;
      joined = joined;
      restored = restored;
      ends = Ends-one has_cb host.up joined host.frags _ (
          subst
            (λ (r : Frag.Table × List Pkbuf).
              Ends r.0 (deliver_all has_cb host.up r.1) (recv_all has_cb host (map arrived pieces)))
            received (recv_all-Ends has_cb host (map arrived pieces) parts));
    }
