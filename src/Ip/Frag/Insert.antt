-- ===== src/Ip/Frag/Insert.antt =====
-- ip/ip_frag.c: the fragments of a packet enter its table entry in order.
use tapip.Base.{
  ℕ, ◌+◌, ◌-◌, ◌^◌, ◌≤◌, ◌<◌, ◌≡◌, refl, sym, ap, ◌∙◌, List, [], ◌∷◌, ◌++◌, Option-cases, inl, inr,
  some, true, false, take, drop, arith, take-add,
}
use mathlib.Core.List.{append_assoc, append-nil}
use tapip.Net.{Ip, Pkbuf, iphlen, ipoff, ip_hrd_sz}
use tapip.Ip.Frag.{
  Fragment, new_frag, copy_frags, ip_rest, after, find_place, more_frags, insert_frag,
}

-- the bytes of a packet that reass_frag copies
abbrev pub payload : ℕ → Ip → List ℕ
payload hlen h = take (h.ip_len - hlen) (drop (hlen - ip_hrd_sz) (ip_rest h))

find_place_last :
    (off : ℕ) (pkbs : List Pkbuf) (pkb : Pkbuf)
    → ipoff pkb.ip < off
    → find_place off (pkbs ++ (pkb ∷ [])) ≡ after pkbs pkb []
unfolding find_place
find_place_last off [] pkb h = ground arith
find_place_last off (x ∷ pkbs) pkb h = rw (find_place_last off pkbs pkb h) refl

pub copy_frags-append :
    (hlen : ℕ) (pkbs : List Pkbuf) (pkb : Pkbuf) {bytes : List ℕ}
    → hlen ≤ pkb.ip.ip_len
    → copy_frags hlen pkbs ≡ some bytes
    → copy_frags hlen (pkbs ++ (pkb ∷ [])) ≡ some (bytes ++ payload hlen pkb.ip)
unfolding copy_frags
copy_frags-append hlen [] pkb {bytes} h e = ground (arith, append-nil (payload hlen pkb.ip))
copy_frags-append hlen (x ∷ pkbs) pkb {bytes} h e = elim (Option-cases (copy_frags hlen pkbs)) [
  | inl bad ↦ absurd (ground arith)
  | inr (rest, ok) ↦
      rw (copy_frags-append hlen pkbs pkb {bytes = rest} h ok)
        (ground (arith, append_assoc (payload hlen x.ip) rest (payload hlen pkb.ip)))
]

-- A fragment as it arrives: n bytes of the text from off on, under the header of h.
pub record IsPiece (h : Ip) (text : List ℕ) (off n : ℕ) (p : Pkbuf) : Type 0 where
  pub placed : ipoff p.ip ≡ off
  pub sized : p.ip.ip_len ≡ iphlen h + n
  pub headed : p.ip.ip_hlen ≡ h.ip_hlen
  pub same_id : p.ip.ip_id ≡ h.ip_id
  pub same_pro : p.ip.ip_pro ≡ h.ip_pro
  pub same_src : p.ip.ip_src ≡ h.ip_src
  pub same_dst : p.ip.ip_dst ≡ h.ip_dst
  pub carries : payload (iphlen h) p.ip ≡ take n (drop off text)

-- An entry that has the first off bytes of the text, and nothing else.
pub record Started (h : Ip) (text : List ℕ) (off : ℕ) (f : Fragment) : Type 0 where
  pub same_id : f.frag_id ≡ h.ip_id
  pub same_pro : f.frag_pro ≡ h.ip_pro
  pub same_src : f.frag_src ≡ h.ip_src
  pub same_dst : f.frag_dst ≡ h.ip_dst
  pub incomplete : f.frag_complete ≡ false
  pub first : f.frag_first_in ≡ true
  pub no_last : f.frag_last_in ≡ false
  pub received : f.frag_rsize ≡ off
  pub headed : f.frag_hlen ≡ iphlen h
  pub bytes : copy_frags (iphlen h) f.frag_pkb ≡ some (take off text)
  pub front : List Pkbuf
  pub prev : Pkbuf
  pub last : f.frag_pkb ≡ front ++ (prev ∷ [])
  pub below : ipoff prev.ip < off
  pub up_to : ipoff prev.ip + prev.ip.ip_len ≡ off + iphlen h
  pub head : Pkbuf
  pub tail : List Pkbuf
  pub from : f.frag_pkb ≡ head ∷ tail
  pub head_id : head.ip.ip_id ≡ h.ip_id
  pub head_pro : head.ip.ip_pro ≡ h.ip_pro
  pub head_src : head.ip.ip_src ≡ h.ip_src
  pub head_dst : head.ip.ip_dst ≡ h.ip_dst

abbrev pub grown : Fragment → ℕ → ℕ → Pkbuf → Fragment
grown f hlen size p = record f {
  frag_hlen = hlen;
  frag_rsize = size;
  frag_first_in = true;
  frag_complete = false;
  frag_pkb = f.frag_pkb ++ (p ∷ []);
}

module _ (h : Ip) (text : List ℕ) {off n : ℕ} {p : Pkbuf} (piece : IsPiece h text off n p) where
  pub insert_first :
      off ≡ 0
      → more_frags p.ip.ip_fragoff ≡ 1
      → n < 2 ^ 16
      → insert_frag p (new_frag p.ip) ≡ (true, grown (new_frag p.ip) (iphlen h) n p)
  unfolding insert_frag find_place
  insert_first e mf lt = ground (arith, piece.placed, piece.sized, piece.headed)

  pub insert_middle :
      {f : Fragment}
      → Started h text off f
      → more_frags p.ip.ip_fragoff ≡ 1
      → off + n < 2 ^ 16
      → insert_frag p f ≡ (true, grown f (iphlen h) (off + n) p)
  unfolding insert_frag
  insert_middle {f} s mf lt =
      let place = ap (find_place off) s.last ∙ find_place_last off s.front s.prev s.below in
      let list =
        sym (append_assoc s.front (s.prev ∷ []) (p ∷ [])) ∙ ap (λ l. l ++ (p ∷ [])) (sym s.last) in
      rw (s.incomplete, mf, piece.placed, place)
        (ground (
          arith, list, s.incomplete, s.first, s.no_last, s.received, s.headed, s.up_to,
          piece.placed, piece.sized, piece.headed,
        ))

  abbrev pub closed : Fragment → Fragment
  closed f = record f {
    frag_rsize = off + n;
    frag_size = off + n;
    frag_last_in = true;
    frag_complete = true;
    frag_pkb = f.frag_pkb ++ (p ∷ []);
  }

  pub insert_end :
      {f : Fragment}
      → Started h text off f
      → more_frags p.ip.ip_fragoff ≡ 0
      → off + n < 2 ^ 16
      → insert_frag p f ≡ (true, closed f)
  unfolding insert_frag
  insert_end {f} s mf lt =
      rw (s.incomplete, mf)
        (ground (
          arith, s.incomplete, s.first, s.no_last, s.received, s.headed, s.up_to, piece.placed,
          piece.sized, piece.headed,
        ))

  pub grown-Started :
      {f : Fragment}
      → Started h text off f
      → 0 < n
      → Started h text (off + n) (grown f (iphlen h) (off + n) p)
  grown-Started {f} s pos = record {
    same_id = s.same_id;
    same_pro = s.same_pro;
    same_src = s.same_src;
    same_dst = s.same_dst;
    incomplete = refl;
    first = refl;
    no_last = s.no_last;
    received = refl;
    headed = refl;
    bytes =
        copy_frags-append (iphlen h) f.frag_pkb p {bytes = take off text}
          (omega (arith, piece.sized)) s.bytes
        ∙ ap some
            (ap (λ l. take off text ++ l) piece.carries ∙ sym (take-add off n (off + n) text refl));
    front = f.frag_pkb;
    prev = p;
    last = refl;
    below = omega (arith, piece.placed);
    up_to = omega (arith, piece.placed, piece.sized);
    head = s.head;
    tail = s.tail ++ (p ∷ []);
    from = ap (λ l. l ++ (p ∷ [])) s.from;
    head_id = s.head_id;
    head_pro = s.head_pro;
    head_src = s.head_src;
    head_dst = s.head_dst;
  }

  pub first-Started : off ≡ 0 → 0 < n → Started h text n (grown (new_frag p.ip) (iphlen h) n p)
  unfolding copy_frags
  first-Started e pos = record {
    same_id = piece.same_id;
    same_pro = piece.same_pro;
    same_src = piece.same_src;
    same_dst = piece.same_dst;
    incomplete = refl;
    first = refl;
    no_last = refl;
    received = refl;
    headed = refl;
    bytes =
        copy_frags-append (iphlen h) [] p {bytes = []} (omega (arith, piece.sized)) refl
        ∙ ap some (piece.carries ∙ ap (λ o. take n (drop o text)) e);
    front = [];
    prev = p;
    last = refl;
    below = omega (arith, piece.placed);
    up_to = omega (arith, piece.placed, piece.sized);
    head = p;
    tail = [];
    from = refl;
    head_id = piece.same_id;
    head_pro = piece.same_pro;
    head_src = piece.same_src;
    head_dst = piece.same_dst;
  }
