-- ===== src/Ip/Frag/Trip.antt =====
-- ip/ip_frag.c: what ip_send_frag takes apart, ip_reass puts together.
use tapip.Base.{
  ℕ, zero, suc, ◌+◌, ◌-◌, ◌*◌, ◌/◌, ◌%◌, ◌^◌, ◌≤◌, ◌<◌, ◌≡◌, refl, sym, ap, ap₂, ◌∙◌, List, [], ◌∷◌,
  ◌++◌, Option, none, some, take, drop, length, htons, htons-lt, htons-htons, arith, map, take_all,
  length-take,
}
use native.Mathlib.Decide.{dec_lt}
use tapip.Net.{Netdev, Ip, Pkbuf, iphlen, ip_ntoh, ip_hrd_sz, ip_set_checksum}
use tapip.Ip.Frag.{Fragment, Table, more_frags, lookup_frag, ip_reass}
use tapip.Ip.Frag.Cut.{ip_frag, frag_loop, frag_dlen, frag_mlen, fragments}
use tapip.Ip.Frag.Insert.{IsPiece, Started, grown-Started, first-Started}
use tapip.Ip.Frag.Join.{Restored, rebuilt, ip_reass_first, ip_reass_middle, ip_reass_end}

-- The packets are received one after the other; the packets that ip_reass returns, in order.
abbrev pub reass_all : Table → List Pkbuf → Table × List Pkbuf
reass_all frags [] = (frags, [])
reass_all frags (pkb ∷ pkbs) =
    let (frags', done, _) = ip_reass frags pkb in
    let (frags'', more) = reass_all frags' pkbs in
    (frags'', elim done [ none ↦ more | some w ↦ w ∷ more ])

-- a fragment as it comes out of ip_in: its header in host order
abbrev pub arrived : Pkbuf → Pkbuf
arrived pkb = record pkb { ip = ip_ntoh pkb.ip }

reass_all_skip :
    (frags : Table) (p : Pkbuf) (pkbs : List Pkbuf) {frags' : Table}
    → (ip_reass frags p).0 ≡ frags'
    → (ip_reass frags p).1 ≡ none
    → reass_all frags (p ∷ pkbs) ≡ reass_all frags' pkbs
reass_all_skip frags p pkbs e1 e2 =
    ap₂
      (λ (rest : Table) (done : Option Pkbuf).
        let (last, more) = reass_all rest pkbs in
        (last, elim done [ none ↦ more | some w ↦ w ∷ more ]))
      e1 e2

-- lookup_frag reads only the four fields of the key.
lookup_frag-same :
    (t : Table) (h g : Ip)
    → h.ip_id ≡ g.ip_id
    → h.ip_pro ≡ g.ip_pro
    → h.ip_src ≡ g.ip_src
    → h.ip_dst ≡ g.ip_dst
    → lookup_frag t h ≡ lookup_frag t g
unfolding lookup_frag
lookup_frag-same [] h g e1 e2 e3 e4 = refl
lookup_frag-same (f ∷ t) h g e1 e2 e3 e4 = ground (arith, lookup_frag-same t h g e1 e2 e3 e4)

reass_all_done :
    (frags : Table) (p : Pkbuf) {t : Table} {w : Pkbuf}
    → (ip_reass frags p).0 ≡ t
    → (ip_reass frags p).1 ≡ some w
    → reass_all frags (p ∷ []) ≡ (t, w ∷ [])
reass_all_done frags p e1 e2 = rw (e1, e2) refl

drop-append : {A : Type 0} (xs ys : List A) (n : ℕ) → length xs ≡ n → drop n (xs ++ ys) ≡ ys
drop-append [] ys n e = ap (λ i. drop i ys) (sym e)
drop-append (x ∷ xs) ys zero e = absurd (omega arith)
drop-append (x ∷ xs) ys (suc n) e = drop-append xs ys n (omega arith)

take-take : {A : Type 0} (n : ℕ) (xs : List A) → take n (take n xs) ≡ take n xs
take-take n xs = take_all n (take n xs) (omega (arith, length-take n xs))

-- A packet in network order whose length fields agree with what it holds, and whose header is no
-- shorter than struct ip.
pub record IsSized (h : Ip) : Type 0 where
  pub header : ip_hrd_sz ≤ iphlen h
  pub opts_len : length h.ip_opts ≡ iphlen h - ip_hrd_sz
  pub total_len : iphlen h + length h.ip_data ≡ htons h.ip_len

module _ (pkb : Pkbuf) (v : IsSized pkb.ip) where
  abbrev h : Ip
  h = ip_ntoh pkb.ip

  abbrev hlen : ℕ
  hlen = iphlen pkb.ip

  fits : hlen + length pkb.ip.ip_data < 2 ^ 16
  fits = omega (arith, v.total_len, htons-lt pkb.ip.ip_len)

  module _ (n off m : ℕ) (mult : off % 8 ≡ 0) (inside : off + n ≤ length pkb.ip.ip_data)
      (bit : m < 2) where
    small : m * 2 ^ 13 + off / 8 < 2 ^ 16
    small = omega (arith, fits)

    ip_frag-IsPiece : IsPiece h pkb.ip.ip_data off n (arrived (ip_frag pkb hlen n off (m * 2 ^ 13)))
    unfolding ip_frag ip_set_checksum ip_ntoh
    ip_frag-IsPiece = record {
      placed =
          ap (λ i. i % 2 ^ 13 * 8) (htons-htons (m * 2 ^ 13 + off / 8) small) ∙ omega (arith, fits);
      sized = htons-htons (hlen + n) (omega (arith, fits));
      headed = refl;
      same_id = refl;
      same_pro = refl;
      same_src = refl;
      same_dst = refl;
      carries =
          ap₂ (λ i l. take (i - hlen) l) (htons-htons (hlen + n) (omega (arith, fits)))
            (drop-append pkb.ip.ip_opts (take n (drop off pkb.ip.ip_data)) (hlen - ip_hrd_sz)
              v.opts_len)
          ∙ ap (λ i. take i (take n (drop off pkb.ip.ip_data))) (omega arith)
          ∙ take-take n (drop off pkb.ip.ip_data);
    }

    ip_frag-more_frags :
        more_frags (arrived (ip_frag pkb hlen n off (m * 2 ^ 13))).ip.ip_fragoff ≡ m
    unfolding ip_frag ip_set_checksum ip_ntoh
    ip_frag-more_frags =
        ap more_frags (htons-htons (m * 2 ^ 13 + off / 8) small) ∙ omega (arith, fits)

  -- What a run of the loop comes to: all its fragments, received in order, leave the table without
  -- an entry and give one packet.
  record Trip (r : Option (List Pkbuf)) (frags t : Table) : Type 0 where
    pieces : List Pkbuf
    made : r ≡ some pieces
    joined : Pkbuf
    received : reass_all frags (map arrived pieces) ≡ (t, joined ∷ [])
    restored : Restored h pkb.ip.ip_data joined

  abbrev piece_at : ℕ → ℕ → ℕ → Pkbuf
  piece_at n off m = ip_frag pkb hlen n off (m * 2 ^ 13)

  Trip-next :
      (fuel mlen dlen off off' : ℕ) (t : Table) {frags frags' : Table}
      → off + mlen ≡ off'
      → mlen < dlen
      → (ip_reass frags (arrived (piece_at mlen off 1))).0 ≡ frags'
      → (ip_reass frags (arrived (piece_at mlen off 1))).1 ≡ none
      → Trip (frag_loop fuel pkb hlen mlen (dlen - mlen) off') frags' t
      → Trip (frag_loop (suc fuel) pkb hlen mlen dlen off) frags t
  unfolding frag_loop
  Trip-next fuel mlen dlen off off' t {frags} {frags'} next more e1 e2 trip = record {
    pieces = piece_at mlen off 1 ∷ trip.pieces;
    made = ground (arith, next, trip.made);
    joined = trip.joined;
    received =
        reass_all_skip frags (arrived (piece_at mlen off 1)) (map arrived trip.pieces) e1 e2
        ∙ trip.received;
    restored = trip.restored;
  }

  Trip-last :
      (fuel mlen dlen off : ℕ) (t : Table) {f : Fragment}
      → Started h pkb.ip.ip_data off f
      → off + dlen ≡ length pkb.ip.ip_data
      → 0 < dlen
      → dlen ≤ mlen
      → off % 8 ≡ 0
      → more_frags pkb.ip.ip_fragoff ≡ 0
      → Trip (frag_loop (suc fuel) pkb hlen mlen dlen off) (f ∷ t) t
  unfolding frag_loop ip_ntoh
  Trip-last fuel mlen dlen off t {f} s e pos done at unset =
      let piece = ip_frag-IsPiece dlen off 0 at (omega arith) (omega arith) in
      let (e1, e2) =
        ip_reass_end h pkb.ip.ip_data t piece s
          (ip_frag-more_frags dlen off 0 at (omega arith) (omega arith)) e fits in
      record {
        pieces = piece_at dlen off 0 ∷ [];
        made = ground (arith, unset);
        joined = rebuilt h pkb.ip.ip_data s.head;
        received = reass_all_done (f ∷ t) (arrived (piece_at dlen off 0)) e1 e2;
        restored = record {
          whole_len = refl;
          whole_fragoff = refl;
          whole_id = s.head_id;
          whole_pro = s.head_pro;
          whole_src = s.head_src;
          whole_dst = s.head_dst;
          whole_data = refl;
        };
      }

  Trip-rest :
      (fuel mlen dlen off : ℕ) (t : Table) {f : Fragment}
      → Started h pkb.ip.ip_data off f
      → off + dlen ≡ length pkb.ip.ip_data
      → 0 < dlen
      → dlen < fuel
      → 0 < mlen
      → mlen % 8 ≡ 0
      → off % 8 ≡ 0
      → more_frags pkb.ip.ip_fragoff ≡ 0
      → Trip (frag_loop fuel pkb hlen mlen dlen off) (f ∷ t) t
  Trip-rest zero mlen dlen off t s e pos enough step mult at unset = absurd (omega arith)
  Trip-rest (suc fuel) mlen dlen off t {f} s e pos enough step mult at unset =
      elim (dec_lt mlen dlen) [
        | yes more ↦
            let piece = ip_frag-IsPiece mlen off 1 at (omega arith) (omega arith) in
            let (e1, e2) =
              ip_reass_middle h pkb.ip.ip_data t piece s
                (ip_frag-more_frags mlen off 1 at (omega arith) (omega arith))
                (omega (arith, fits)) in
            Trip-next fuel mlen dlen off (off + mlen) t refl more e1 e2 (
              Trip-rest fuel mlen (dlen - mlen) (off + mlen) t
                (grown-Started h pkb.ip.ip_data piece s step) (omega arith) (omega arith)
                (omega arith) step mult (omega arith) unset)
        | no done ↦ Trip-last fuel mlen dlen off t s e pos (omega arith) at unset
      ]

-- What the pieces of a packet come to at a table.
unfoldable pub Rejoins : Netdev → Pkbuf → Table → Type 0
Rejoins dev pkb t =
    (pieces : List Pkbuf) × (fragments dev pkb ≡ some pieces)
    × ((joined : Pkbuf) × (reass_all t (map arrived pieces) ≡ (t, joined ∷ []))
        × Restored (ip_ntoh pkb.ip) pkb.ip.ip_data joined)

rejoins :
    (dev : Netdev) (pkb : Pkbuf) (t : Table)
    → IsSized pkb.ip
    → more_frags pkb.ip.ip_fragoff ≡ 0
    → iphlen pkb.ip + 8 ≤ dev.net_mtu
    → dev.net_mtu < htons pkb.ip.ip_len
    → lookup_frag t (ip_ntoh pkb.ip) ≡ none
    → Rejoins dev pkb t
unfolding Rejoins fragments
rejoins dev pkb t v unset room long miss =
    let h = ip_ntoh pkb.ip in
    let text = pkb.ip.ip_data in
    let mlen = frag_mlen dev pkb in
    let dlen = frag_dlen pkb in
    let piece = ip_frag-IsPiece pkb v mlen 0 1 refl (omega (arith, v.total_len)) (omega arith) in
    let key =
      lookup_frag-same t (arrived (piece_at pkb v mlen 0 1)).ip h piece.same_id piece.same_pro
        piece.same_src piece.same_dst in
    let (e1, e2) =
      ip_reass_first h text t piece refl
        (ip_frag-more_frags pkb v mlen 0 1 refl (omega (arith, v.total_len)) (omega arith))
        (omega (arith, fits pkb v, v.total_len)) (key ∙ miss) in
    let trip = Trip-next pkb v dlen mlen dlen 0 mlen t (omega arith) (omega arith) e1 e2 (
      Trip-rest pkb v dlen mlen (dlen - mlen) mlen t (first-Started h text piece refl (omega arith))
        (omega (arith, v.total_len)) (omega arith) (omega arith) (omega arith) (omega arith)
        (omega arith) unset) in
    (trip.pieces, trip.made, (trip.joined, trip.received, trip.restored))

-- ip_send_frag cuts a packet that is no fragment, and too long for the device, into fragments. When
-- they arrive in order at a table that has no entry for the packet, ip_reass gives exactly one
-- packet back, with the data, the length, the addresses, the protocol and the id of the first, and
-- the table is as before. The device must have room for 8 bytes behind a header.
pub ip_reass-fragments :
    (dev : Netdev) (pkb : Pkbuf) (t : Table)
    → IsSized pkb.ip
    → pkb.ip.ip_fragoff ≡ 0
    → iphlen pkb.ip + 8 ≤ dev.net_mtu
    → dev.net_mtu < htons pkb.ip.ip_len
    → lookup_frag t (ip_ntoh pkb.ip) ≡ none
    → Rejoins dev pkb t
ip_reass-fragments dev pkb t v e = rejoins dev pkb t v (omega arith)

-- ip_send_frag loses the MF bit of a packet that is itself a first fragment, with more to follow:
-- it tests the bit on the field in network order. The pieces of that fragment alone are joined to
-- a packet that passes for the whole one.
pub ip_reass-fragments_cut_short :
    (dev : Netdev) (pkb : Pkbuf) (t : Table)
    → IsSized pkb.ip
    → pkb.ip.ip_fragoff ≡ htons (2 ^ 13)
    → iphlen pkb.ip + 8 ≤ dev.net_mtu
    → dev.net_mtu < htons pkb.ip.ip_len
    → lookup_frag t (ip_ntoh pkb.ip) ≡ none
    → Rejoins dev pkb t
unfolding htons
ip_reass-fragments_cut_short dev pkb t v e = rejoins dev pkb t v (omega arith)
