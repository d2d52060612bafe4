-- ===== src/Ip/Frag/Held.antt =====
-- ip_reass of ip/ip_frag.c: every entry of the table of fragments holds a packet.
use tapip.Base.{
  ℕ, ◌+◌, ◌-◌, ◌≡◌, refl, sym, List, [], ◌∷◌, ◌++◌, Option, none, some, Bool, true, false, ltb,
  if-cases, Option-cases, inl, inr, arith, ◌==◌, not, ◌&&◌,
}
use mathlib.Core.Path.{subst}
use tapip.Net.{Ip, Pkbuf, Event, fault, ipoff, iphlen}
use tapip.Ip.Frag.{
  Fragment, Table, new_frag, delete_frag, lookup_frag, insert_frag, insert_last, insert_found,
  find_place, Place, at_head, duplicate, after, more_frags, reass_frag, Reass, oversize, stray,
  whole, reass_in, ip_reass, is_frag_of,
}

-- An entry holds a packet.
abbrev pub Holds : List Pkbuf → Type 0
Holds [] = ⊥
Holds (pkb ∷ pkbs) = Unit {0}

abbrev pub AllHold : Table → Type 0
AllHold [] = Unit {0}
AllHold (frag ∷ frags) = Holds frag.frag_pkb × AllHold frags

Holds-append : (front back : List Pkbuf) (pkb : Pkbuf) → Holds (front ++ (pkb ∷ back))
Holds-append [] back pkb = tt
Holds-append (p ∷ front) back pkb = tt

-- What insert_frag leaves of an entry: it holds a packet if one was added, and its list is as it was
-- if not. The first packet of an entry is always added.
record Inserted (frag : Fragment) (r : Bool × Fragment) : Type 0 where
  added : r.0 ≡ true → Holds r.1.frag_pkb
  kept : r.0 ≡ false → r.1.frag_pkb ≡ frag.frag_pkb

insert_last-Inserted : (pkb : Pkbuf) (frag : Fragment) → Inserted frag (insert_last pkb frag)
insert_last-Inserted pkb frag =
    if-cases (Inserted frag) (frag.frag_last_in) (λ e. record { added = λ h. cc; kept = λ h. refl })
      (λ e. record { added = λ h. Holds-append frag.frag_pkb [] pkb; kept = λ h. cc })

insert_found-Inserted :
    (pkb : Pkbuf) (frag : Fragment) (end : ℕ) (pkbs : List Pkbuf)
    → Holds pkbs
    → Inserted frag (insert_found pkb frag end pkbs)
insert_found-Inserted pkb frag end pkbs holds =
    if-cases (Inserted frag) (not (frag.frag_hlen == 0) && not (frag.frag_hlen == iphlen pkb.ip))
      (λ e. record { added = λ h. cc; kept = λ h. refl })
      (λ e.
        if-cases (Inserted frag) (ltb (ipoff pkb.ip) (end - iphlen pkb.ip))
          (λ e. record { added = λ h. cc; kept = λ h. refl })
          (λ e. record { added = λ h. holds; kept = λ h. cc }))

insert_frag-Inserted : (pkb : Pkbuf) (frag : Fragment) → Inserted frag (insert_frag pkb frag)
unfolding insert_frag
insert_frag-Inserted pkb frag =
    if-cases (Inserted frag) (frag.frag_complete)
      (λ e. record { added = λ h. cc; kept = λ h. refl })
      (λ e.
        if-cases (Inserted frag) (more_frags pkb.ip.ip_fragoff == 0)
          (λ e. insert_last-Inserted pkb frag)
          (λ e.
            elim (find_place (ipoff pkb.ip) frag.frag_pkb)
              as (λ (place : Place). Inserted frag (elim place [
                | duplicate ↦ (false, frag)
                | at_head ↦ insert_found pkb frag 0 (pkb ∷ frag.frag_pkb)
                | after front prev back ↦
                    insert_found pkb frag (ipoff prev.ip + prev.ip.ip_len)
                      (front ++ (prev ∷ pkb ∷ back))
              ])) [
                | duplicate ↦ record { added = λ h. cc; kept = λ h. refl }
                | at_head ↦ insert_found-Inserted pkb frag 0 (pkb ∷ frag.frag_pkb) tt
                | after front prev back ↦
                    insert_found-Inserted pkb frag (ipoff prev.ip + prev.ip.ip_len)
                      (front ++ (prev ∷ pkb ∷ back)) (Holds-append front (pkb ∷ back) prev)
              ]))

insert_frag-first : (pkb : Pkbuf) → (insert_frag pkb (new_frag pkb.ip)).0 ≡ true
unfolding insert_frag find_place
insert_frag-first pkb = ground arith

AllHold-append : (xs ys : Table) → AllHold xs → AllHold ys → AllHold (xs ++ ys)
AllHold-append [] ys h g = g
AllHold-append (x ∷ xs) ys h g = (h.0, AllHold-append xs ys h.1 g)

abbrev TableHolds : Table × Option Pkbuf × List Event → Type 0
TableHolds r = AllHold r.0

-- the entry that the packet goes into holds one, or will
reass_in-AllHold :
    (pkb : Pkbuf) (front : Table) (frag : Fragment) (back : Table)
    → AllHold front
    → AllHold back
    → ((insert_frag pkb frag).0 ≡ false → Holds frag.frag_pkb)
    → AllHold (reass_in pkb front frag back).0
unfolding reass_in
reass_in-AllHold pkb front frag back hf hb hold =
    let r = insert_frag pkb frag in
    let i = insert_frag-Inserted pkb frag in
    if-cases TableHolds (r.0)
      (λ added.
        if-cases TableHolds (r.1.frag_complete)
          (λ done.
            elim (reass_frag r.1)
              as (λ (w : Reass). TableHolds (elim w [
                | oversize ↦ (front ++ back, none, delete_frag r.1.frag_pkb)
                | stray ↦ (front ++ back, none, fault ∷ [])
                | whole whole_pkb ↦ (front ++ back, some whole_pkb, delete_frag r.1.frag_pkb)
              ])) [
                | oversize ↦ AllHold-append front back hf hb
                | stray ↦ AllHold-append front back hf hb
                | whole whole_pkb ↦ AllHold-append front back hf hb
              ])
          (λ open_. AllHold-append front (r.1 ∷ back) hf (i.added added, hb)))
      (λ refused.
        AllHold-append front (r.1 ∷ back) hf
          (subst Holds (sym (i.kept refused)) (hold refused), hb))

-- the parts of a table that lookup_frag has taken apart
abbrev Parts : Option (Table × Fragment × Table) → Type 0
Parts none = Unit {0}
Parts (some r) = AllHold r.0 × Holds r.1.frag_pkb × AllHold r.2

lookup_frag-Parts : (t : Table) (h : Ip) → AllHold t → Parts (lookup_frag t h)
unfolding lookup_frag
lookup_frag-Parts [] h a = tt
lookup_frag-Parts (frag ∷ frags) h a =
    if-cases Parts (is_frag_of h frag) (λ e. (tt, a.0, a.1))
      (λ e. elim (Option-cases (lookup_frag frags h)) [
        | inl n ↦ rw n tt
        | inr ((front, found, back), f) ↦
            let p = subst Parts f (lookup_frag-Parts frags h a.1) in rw f ((a.0, p.0), p.1, p.2)
      ])

-- Every entry of the table of fragments holds a packet after ip_reass if it did before, whatever
-- packet comes in.
pub ip_reass-AllHold :
    (frags : Table) (pkb : Pkbuf) → AllHold frags → AllHold (ip_reass frags pkb).0
unfolding ip_reass
ip_reass-AllHold frags pkb a = elim (Option-cases (lookup_frag frags pkb.ip)) [
  | inl n ↦
      rw (n, ip_reass)
        (reass_in-AllHold pkb [] (new_frag pkb.ip) frags tt a (λ h. cc (insert_frag-first pkb, h)))
  | inr ((front, frag, back), f) ↦
      let p = subst Parts f (lookup_frag-Parts frags pkb.ip a) in
      rw (f, ip_reass) (reass_in-AllHold pkb front frag back p.0 p.2 (λ h. p.1))
]
