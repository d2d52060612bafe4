-- ===== src/Ip/Frag/Join.antt =====
-- ip/ip_frag.c: the packet that the last fragment of a table entry makes of it.
use tapip.Base.{
  ℕ, ◌+◌, ◌-◌, ◌^◌, ◌<◌, ◌≡◌, refl, sym, ap, ◌∙◌, List, [], ◌∷◌, ◌++◌, none, some, take, length,
  arith, take-add, take_all,
}
use tapip.Net.{Ip, Pkbuf, iphlen, ip_hrd_sz, eth_p_ip, eth_hrd_sz, pkt_none}
use tapip.Ip.Frag.{
  Fragment, Table, new_frag, copy_frags, ip_rest, reass_frag, whole, more_frags, lookup_frag,
  reass_in, ip_reass,
}
use tapip.Ip.Frag.Insert.{
  IsPiece, Started, grown, closed, copy_frags-append, insert_first, insert_middle, insert_end,
}

-- the packet that reass_frag makes of the data under the first fragment's header
abbrev pub rebuilt : Ip → List ℕ → Pkbuf → Pkbuf
rebuilt h text first = record {
  pk_pro = eth_p_ip;
  pk_type = pkt_none;
  pk_len = eth_hrd_sz + (iphlen h + length text);
  pk_indev = none;
  pk_rtdst = none;
  ip = record (first.ip) {
    ip_fragoff = 0;
    ip_len = iphlen h + length text;
    ip_opts = take (iphlen h - ip_hrd_sz) (ip_rest first.ip);
    ip_data = text;
  };
}

-- What a reassembled packet has of the packet that was taken apart.
pub record Restored (h : Ip) (text : List ℕ) (w : Pkbuf) : Type 0 where
  pub whole_len : w.ip.ip_len ≡ iphlen h + length text
  pub whole_fragoff : w.ip.ip_fragoff ≡ 0
  pub whole_id : w.ip.ip_id ≡ h.ip_id
  pub whole_pro : w.ip.ip_pro ≡ h.ip_pro
  pub whole_src : w.ip.ip_src ≡ h.ip_src
  pub whole_dst : w.ip.ip_dst ≡ h.ip_dst
  pub whole_data : w.ip.ip_data ≡ text

reass_frag_lem :
    (h : Ip) (text : List ℕ) (frag : Fragment) {first : Pkbuf} {rest : List Pkbuf}
    → frag.frag_pkb ≡ first ∷ rest
    → frag.frag_hlen ≡ iphlen h
    → frag.frag_size ≡ length text
    → copy_frags frag.frag_hlen frag.frag_pkb ≡ some text
    → iphlen h + length text < 2 ^ 16
    → reass_frag frag ≡ whole (rebuilt h text first)
unfolding reass_frag
reass_frag_lem h text frag {first} {rest} list hl size bytes lt =
    ground (arith, list, hl, size, bytes)

-- the entry after its last fragment
reass_closed :
    (h : Ip) (text : List ℕ) {off n : ℕ} {p : Pkbuf} {f : Fragment} (piece : IsPiece h text off n p)
    (s : Started h text off f)
    → off + n ≡ length text
    → iphlen h + length text < 2 ^ 16
    → reass_frag (closed h text piece f) ≡ whole (rebuilt h text s.head)
reass_closed h text {off} {n} {p} {f} piece s e lt =
    reass_frag_lem h text (closed h text piece f) (ap (λ l. l ++ (p ∷ [])) s.from) s.headed e
      (ap (λ hl. copy_frags hl (f.frag_pkb ++ (p ∷ []))) s.headed
        ∙ copy_frags-append (iphlen h) f.frag_pkb p {bytes = take off text}
            (omega (arith, piece.sized)) s.bytes
        ∙ ap some (
            ap (λ l. take off text ++ l) piece.carries
            ∙ sym (take-add off n (off + n) text refl)
            ∙ take_all (off + n) text (omega arith)))
      lt

module _ (h : Ip) (text : List ℕ) (t : Table) {off n : ℕ} {p : Pkbuf}
    (piece : IsPiece h text off n p) where
  pub ip_reass_first :
      off ≡ 0
      → more_frags p.ip.ip_fragoff ≡ 1
      → n < 2 ^ 16
      → lookup_frag t p.ip ≡ none
      → ((ip_reass t p).0 ≡ grown (new_frag p.ip) (iphlen h) n p ∷ t) × ((ip_reass t p).1 ≡ none)
  unfolding ip_reass reass_in
  ip_reass_first e mf lt miss =
      rw (miss, insert_first h text piece e mf lt, ip_reass, reass_in) (refl, refl)

  found : {f : Fragment} → Started h text off f → lookup_frag (f ∷ t) p.ip ≡ some ([], f, t)
  unfolding lookup_frag
  found {f} s = ground (
    arith, s.same_id, s.same_pro, s.same_src, s.same_dst, piece.same_id, piece.same_pro,
    piece.same_src, piece.same_dst,
  )

  pub ip_reass_middle :
      {f : Fragment}
      → Started h text off f
      → more_frags p.ip.ip_fragoff ≡ 1
      → off + n < 2 ^ 16
      → ((ip_reass (f ∷ t) p).0 ≡ grown f (iphlen h) (off + n) p ∷ t)
        × ((ip_reass (f ∷ t) p).1 ≡ none)
  unfolding ip_reass reass_in
  ip_reass_middle {f} s mf lt =
      rw (found s, insert_middle h text piece s mf lt, ip_reass, reass_in) (refl, refl)

  pub ip_reass_end :
      {f : Fragment} (s : Started h text off f)
      → more_frags p.ip.ip_fragoff ≡ 0
      → off + n ≡ length text
      → iphlen h + length text < 2 ^ 16
      → ((ip_reass (f ∷ t) p).0 ≡ t) × ((ip_reass (f ∷ t) p).1 ≡ some (rebuilt h text s.head))
  unfolding ip_reass reass_in
  ip_reass_end {f} s mf e lt =
      rw
        (
          found s,
          insert_end h text piece s mf (omega arith),
          reass_closed h text piece s e lt,
          ip_reass,
          reass_in,
        )
        (refl, refl)
