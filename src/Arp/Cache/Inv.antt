-- ===== src/Arp/Cache/Inv.antt =====
-- The invariant of the ARP cache.
use tapip.Base.{
  ℕ, zero, suc, ◌<◌, ◌≡◌, ◌≢◌, refl, ap, List, [], ◌∷◌, none, some, false, Bool-cases, inl, inr,
  length, get_elem?, arith, replicate, length-replicate,
}
use tapip.Arp.Cache.{
  ArpEntry, ArpCache, waiting, is_free, update_at, cache_sz, blank, arp_cache_init, is_entry,
}

-- An entry that waits for an address knows its device; only such an entry holds packets.
abbrev pub IsSound : ArpEntry → Type 0
IsSound ae = (ae.ae_state ≡ waiting → ae.ae_dev ≢ none) × (ae.ae_state ≢ waiting → ae.ae_list ≡ [])

abbrev pub AllSound : List ArpEntry → Type 0
AllSound [] = Unit {0}
AllSound (ae ∷ entries) = IsSound ae × AllSound entries

-- No entry in use has this key.
abbrev pub Absent : ℕ → ℕ → List ArpEntry → Type 0
Absent pro ipaddr [] = Unit {0}
Absent pro ipaddr (ae ∷ entries) = (is_entry pro ipaddr ae ≡ false) × Absent pro ipaddr entries

-- No two entries in use have one key.
abbrev pub AllDistinct : List ArpEntry → Type 0
AllDistinct [] = Unit {0}
AllDistinct (ae ∷ entries) =
    (is_free ae.ae_state ≡ false → Absent ae.ae_pro ae.ae_ipaddr entries) × AllDistinct entries

pub record IsValid (c : ArpCache) : Type 0 where
  pub sized : length c.entries ≡ cache_sz
  pub next_in : c.next < cache_sz
  pub sound : AllSound c.entries
  pub distinct : AllDistinct c.entries

pub length-update_at :
    (entries : List ArpEntry) (i : ℕ) (f : ArpEntry → ArpEntry)
    → length (update_at entries i f) ≡ length entries
length-update_at [] i f = refl
length-update_at (ae ∷ entries) zero f = refl
length-update_at (ae ∷ entries) (suc i) f = ap suc (length-update_at entries i f)

pub get_elem?-update_at_self :
    (entries : List ArpEntry) (i : ℕ) (f : ArpEntry → ArpEntry) {ae : ArpEntry}
    → get_elem? entries i ≡ some ae
    → get_elem? (update_at entries i f) i ≡ some (f ae)
get_elem?-update_at_self [] i f e = cc
get_elem?-update_at_self (x ∷ entries) zero f {ae} e = ground arith
get_elem?-update_at_self (x ∷ entries) (suc i) f e = get_elem?-update_at_self entries i f e

pub get_elem?-update_at_ne :
    (entries : List ArpEntry) (i j : ℕ) (f : ArpEntry → ArpEntry)
    → i ≢ j
    → get_elem? (update_at entries i f) j ≡ get_elem? entries j
get_elem?-update_at_ne [] i j f h = refl
get_elem?-update_at_ne (x ∷ entries) zero zero f h = absurd (h refl)
get_elem?-update_at_ne (x ∷ entries) zero (suc j) f h = refl
get_elem?-update_at_ne (x ∷ entries) (suc i) zero f h = refl
get_elem?-update_at_ne (x ∷ entries) (suc i) (suc j) f h =
    get_elem?-update_at_ne entries i j f (λ e. h (ap suc e))

-- An entry may be changed into a sound one.
pub AllSound-update_at :
    (entries : List ArpEntry) (i : ℕ) (f : ArpEntry → ArpEntry)
    → ((ae : ArpEntry) → get_elem? entries i ≡ some ae → IsSound (f ae))
    → AllSound entries
    → AllSound (update_at entries i f)
AllSound-update_at [] i f h s = tt
AllSound-update_at (ae ∷ entries) zero f h s = (h ae refl, s.1)
AllSound-update_at (ae ∷ entries) (suc i) f h s = (s.0, AllSound-update_at entries i f h s.1)

pub AllSound-at :
    (entries : List ArpEntry) (i : ℕ) {ae : ArpEntry}
    → AllSound entries
    → get_elem? entries i ≡ some ae
    → IsSound ae
AllSound-at [] i s e = cc
AllSound-at (x ∷ entries) zero {ae} s e = ground (arith, s.0.0, s.0.1)
AllSound-at (x ∷ entries) (suc i) s e = AllSound-at entries i s.1 e

-- An entry in use after a change was in use before it, under the same key.
pub record Shrinks (ae ae' : ArpEntry) : Type 0 where
  pub in_use : is_free ae'.ae_state ≡ false → is_free ae.ae_state ≡ false
  pub same_pro : ae'.ae_pro ≡ ae.ae_pro
  pub same_ipaddr : ae'.ae_ipaddr ≡ ae.ae_ipaddr

pub is_entry-Shrinks :
    {ae ae' : ArpEntry} (pro ipaddr : ℕ)
    → Shrinks ae ae'
    → is_entry pro ipaddr ae ≡ false
    → is_entry pro ipaddr ae' ≡ false
is_entry-Shrinks {ae} {ae'} pro ipaddr s h = elim (Bool-cases (is_free ae'.ae_state)) [
  | inl idle ↦ rw idle refl
  | inr busy ↦ ground (arith, s.in_use busy, s.same_pro, s.same_ipaddr)
]

Absent-update_at :
    (pro ipaddr : ℕ) (entries : List ArpEntry) (i : ℕ) (f : ArpEntry → ArpEntry)
    → ((ae : ArpEntry) → get_elem? entries i ≡ some ae → Shrinks ae (f ae))
    → Absent pro ipaddr entries
    → Absent pro ipaddr (update_at entries i f)
Absent-update_at pro ipaddr [] i f h a = tt
Absent-update_at pro ipaddr (ae ∷ entries) zero f h a =
    (is_entry-Shrinks pro ipaddr (h ae refl) a.0, a.1)
Absent-update_at pro ipaddr (ae ∷ entries) (suc i) f h a =
    (a.0, Absent-update_at pro ipaddr entries i f h a.1)

pub AllDistinct-update_at :
    (entries : List ArpEntry) (i : ℕ) (f : ArpEntry → ArpEntry)
    → ((ae : ArpEntry) → get_elem? entries i ≡ some ae → Shrinks ae (f ae))
    → AllDistinct entries
    → AllDistinct (update_at entries i f)
AllDistinct-update_at [] i f h d = tt
AllDistinct-update_at (ae ∷ entries) zero f h d =
    let s = h ae refl in (λ busy. rw (s.same_pro, s.same_ipaddr) (d.0 (s.in_use busy)), d.1)
AllDistinct-update_at (ae ∷ entries) (suc i) f h d = (
  λ busy. Absent-update_at ae.ae_pro ae.ae_ipaddr entries i f h (d.0 busy),
  AllDistinct-update_at entries i f h d.1,
)

Absent-claim :
    (pro ipaddr : ℕ) (entries : List ArpEntry) (i : ℕ) (f : ArpEntry → ArpEntry)
    → ((ae : ArpEntry) → get_elem? entries i ≡ some ae → is_entry pro ipaddr (f ae) ≡ false)
    → Absent pro ipaddr entries
    → Absent pro ipaddr (update_at entries i f)
Absent-claim pro ipaddr [] i f h a = tt
Absent-claim pro ipaddr (ae ∷ entries) zero f h a = (h ae refl, a.1)
Absent-claim pro ipaddr (ae ∷ entries) (suc i) f h a =
    (a.0, Absent-claim pro ipaddr entries i f h a.1)

other_key :
    (ae new : ArpEntry) (pro ipaddr : ℕ)
    → is_entry pro ipaddr ae ≡ false
    → is_free ae.ae_state ≡ false
    → (new.ae_pro ≡ pro) × (new.ae_ipaddr ≡ ipaddr)
    → is_entry ae.ae_pro ae.ae_ipaddr new ≡ false
other_key ae new pro ipaddr a busy key = ground arith

-- A free entry may take a key that no entry in use has.
pub AllDistinct-claim :
    (pro ipaddr : ℕ) (entries : List ArpEntry) (i : ℕ) (f : ArpEntry → ArpEntry)
    → ((ae : ArpEntry)
        → get_elem? entries i ≡ some ae
        → ((f ae).ae_pro ≡ pro) × ((f ae).ae_ipaddr ≡ ipaddr))
    → Absent pro ipaddr entries
    → AllDistinct entries
    → AllDistinct (update_at entries i f)
AllDistinct-claim pro ipaddr [] i f key a d = tt
AllDistinct-claim pro ipaddr (ae ∷ entries) zero f key a d =
    (λ _. rw (key ae refl).0 (rw (key ae refl).1 a.1), d.1)
AllDistinct-claim pro ipaddr (ae ∷ entries) (suc i) f key a d = (
  λ busy.
      Absent-claim ae.ae_pro ae.ae_ipaddr entries i f
        (λ e at. other_key ae (f e) pro ipaddr a.0 busy (key e at)) (d.0 busy),
  AllDistinct-claim pro ipaddr entries i f key a.1 d.1,
)

blank-IsSound : IsSound blank
blank-IsSound = (λ h. cc, λ _. refl)

replicate-blank : (n : ℕ) → AllSound (replicate n blank) × AllDistinct (replicate n blank)
replicate-blank zero = (tt, tt)
replicate-blank (suc n) = let (s, d) = replicate-blank n in ((blank-IsSound, s), (λ h. cc, d))

-- arp_cache_init makes a valid cache.
pub arp_cache_init-IsValid : IsValid arp_cache_init
unfolding arp_cache_init
arp_cache_init-IsValid = record {
  sized = length-replicate cache_sz blank;
  next_in = omega arith;
  sound = (replicate-blank cache_sz).0;
  distinct = (replicate-blank cache_sz).1;
}
