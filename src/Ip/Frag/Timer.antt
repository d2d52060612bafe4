-- ===== src/Ip/Frag/Timer.antt =====
-- ip_timer of ip/ip_frag.c: entries that have waited too long are given up.
use tapip.Base.{
  ℕ, zero, suc, ◌-◌, ◌<◌, ◌≡◌, refl, sym, ap, ◌∙◌, List, [], ◌∷◌, Option, none, some, true, false,
  ltb, leb, if◌then◌else◌, if-cases, Bool-cases, Option-cases, inl, inr, arith,
}
use mathlib.Core.Path.{subst}
use tapip.Net.{Pkbuf, fault, ip_ntoh}
use tapip.Route
use tapip.Arp.Cache.{ArpCache}
use tapip.Arp.Cache.Inv.{IsValid}
use tapip.Arp.Cache.Timer.{NoFault}
use tapip.Ip.Out.Returns.{Returns}
use tapip.Icmp.{Outcome, icmp_send}
use tapip.Forward.{and_then}
use tapip.Forward.Safe.{AllWide, icmp_send-Returns, and_then-Returns, silent}
use tapip.Ip.Frag.Held.{Holds, AllHold}
use tapip.Ip.Frag.{Fragment, Table, full_frag, delete_frag}

-- what a round of the loop leaves of an entry, if it does not delete it
abbrev pub age : ℕ → Fragment → Option Fragment
age delta frag =
    if full_frag frag
    then some frag
    else if leb frag.frag_ttl delta
    then none
    else some (record frag { frag_ttl = frag.frag_ttl - delta })

-- the message about an entry whose time is up, and delete_frag; an entry without a packet makes
-- frag_head_pkb a stray pointer
unfoldable pub give_up : Route.Table → List Pkbuf → ℕ → ArpCache → ℕ × Outcome
give_up rts [] ipid c = (ipid, some (c, fault ∷ []))
give_up rts (pkb ∷ pkbs) ipid c =
    let pkb' = record pkb { ip = ip_ntoh pkb.ip } in
    and_then (icmp_send ipid rts c 11 1 0 pkb') (λ i c'. (i, some (c', delete_frag (pkb' ∷ pkbs))))

-- The loop of ip_timer: the entries that stay, and what it sends and frees.
unfoldable pub timer_frags : ℕ → Table → Table
timer_frags delta [] = []
timer_frags delta (frag ∷ frags) = elim (age delta frag) [
  | none ↦ timer_frags delta frags
  | some frag' ↦ frag' ∷ timer_frags delta frags
]

unfoldable pub timer_sends : Route.Table → ℕ → Table → ℕ → ArpCache → ℕ × Outcome
timer_sends rts delta [] ipid c = (ipid, some (c, []))
timer_sends rts delta (frag ∷ frags) ipid c = elim (age delta frag) [
  | none ↦ and_then (give_up rts frag.frag_pkb ipid c) (timer_sends rts delta frags)
  | some frag' ↦ timer_sends rts delta frags ipid c
]

unfoldable pub ip_timer : Route.Table → ℕ → Table → ℕ → ArpCache → Table × (ℕ × Outcome)
ip_timer rts delta frags ipid c = (timer_frags delta frags, timer_sends rts delta frags ipid c)

-- what age keeps of an entry
abbrev AgesTo : Fragment → Option Fragment → Type 0
AgesTo frag none = Unit {0}
AgesTo frag (some frag') = frag'.frag_pkb ≡ frag.frag_pkb

age-AgesTo : (delta : ℕ) (frag : Fragment) → AgesTo frag (age delta frag)
age-AgesTo delta frag =
    if-cases (AgesTo frag) (full_frag frag) (λ e. refl)
      (λ e. if-cases (AgesTo frag) (leb frag.frag_ttl delta) (λ e. tt) (λ e. refl))

timer_frags-AllHold :
    (delta : ℕ) (frags : Table) → AllHold frags → AllHold (timer_frags delta frags)
unfolding timer_frags
timer_frags-AllHold delta [] a = tt
timer_frags-AllHold delta (frag ∷ frags) a = elim (Option-cases (age delta frag)) [
  | inl n ↦ rw (n, AllHold) (timer_frags-AllHold delta frags a.1)
  | inr (frag', e) ↦
      let same : frag'.frag_pkb ≡ frag.frag_pkb = subst (AgesTo frag) e (age-AgesTo delta frag) in
      rw (e, AllHold) ((subst Holds (sym same) a.0, timer_frags-AllHold delta frags a.1))
]

delete_frag-NoFault : (pkbs : List Pkbuf) → NoFault (delete_frag pkbs)
unfolding delete_frag
delete_frag-NoFault [] = tt
delete_frag-NoFault (pkb ∷ pkbs) = ((λ e. cc), delete_frag-NoFault pkbs)

give_up-Returns :
    {c : ArpCache} (rts : Route.Table) (pkbs : List Pkbuf) (ipid : ℕ)
    → IsValid c
    → AllWide rts
    → Holds pkbs
    → Returns (give_up rts pkbs ipid c).1
unfolding give_up
give_up-Returns rts [] ipid v w h = absurd h
give_up-Returns {c} rts (pkb ∷ pkbs) ipid v w h =
    let pkb' : Pkbuf = record pkb { ip = ip_ntoh pkb.ip } in
    and_then-Returns (icmp_send ipid rts c 11 1 0 pkb')
      (λ i c'. (i, some (c', delete_frag (pkb' ∷ pkbs))))
      (icmp_send-Returns ipid rts 11 1 0 pkb' v w)
      (λ i c' v'. record {
        cache = c';
        out = delete_frag (pkb' ∷ pkbs);
        returns = refl;
        valid = v';
        quiet = delete_frag-NoFault (pkb' ∷ pkbs);
      })

timer_sends-Returns :
    {c : ArpCache} (rts : Route.Table) (delta : ℕ) (frags : Table) (ipid : ℕ)
    → IsValid c
    → AllWide rts
    → AllHold frags
    → Returns (timer_sends rts delta frags ipid c).1
unfolding timer_sends
timer_sends-Returns rts delta [] ipid v w a = silent v
timer_sends-Returns {c} rts delta (frag ∷ frags) ipid v w a = elim (Option-cases (age delta frag)) [
  | inr (frag', e) ↦ rw (e, timer_sends) (timer_sends-Returns rts delta frags ipid v w a.1)
  | inl e ↦
      rw (e, timer_sends)
        (and_then-Returns (give_up rts frag.frag_pkb ipid c) (timer_sends rts delta frags)
          (give_up-Returns rts frag.frag_pkb ipid v w a.0)
          (λ i c' v'. timer_sends-Returns {c = c'} rts delta frags i v' w a.1))
]

-- A tick of the timer of the fragment table returns, keeps a valid ARP cache valid and follows no
-- stray pointer, whatever messages it sends, and leaves a table in which every entry holds a packet,
-- if that held before and every device in the routing table has room for 28 bytes.
pub ip_timer-Returns :
    {c : ArpCache} (rts : Route.Table) (delta : ℕ) (frags : Table) (ipid : ℕ)
    → IsValid c
    → AllWide rts
    → AllHold frags
    → Returns (ip_timer rts delta frags ipid c).1.1 × AllHold (ip_timer rts delta frags ipid c).0
unfolding ip_timer
ip_timer-Returns rts delta frags ipid v w a =
    (timer_sends-Returns rts delta frags ipid v w a, timer_frags-AllHold delta frags a)

-- n ticks of a second without a packet for the table
abbrev ticks : ℕ → Table → Table
ticks zero frags = frags
ticks (suc n) frags = ticks n (timer_frags 1 frags)

ticks-nil : (n : ℕ) → ticks n [] ≡ []
unfolding timer_frags
ticks-nil zero = refl
ticks-nil (suc n) = ticks-nil n

timer_frags_gone :
    (frag : Fragment)
    → full_frag frag ≡ false
    → leb frag.frag_ttl 1 ≡ true
    → timer_frags 1 (frag ∷ []) ≡ []
unfolding timer_frags
timer_frags_gone frag f e = rw (timer_frags, f, e) refl

timer_frags_aged :
    (frag : Fragment)
    → full_frag frag ≡ false
    → leb frag.frag_ttl 1 ≡ false
    → timer_frags 1 (frag ∷ []) ≡ record frag { frag_ttl = frag.frag_ttl - 1 } ∷ []
unfolding timer_frags
timer_frags_aged frag f e = rw (timer_frags, f, e) refl

-- An incomplete entry whose packets do not come is in the table for as many seconds as its time to
-- live says, and then gone.
ticks_frag_end :
    (n : ℕ) (frag : Fragment)
    → full_frag frag ≡ false
    → 0 < frag.frag_ttl
    → ticks n (frag ∷ [])
      ≡ (if ltb n frag.frag_ttl then record frag { frag_ttl = frag.frag_ttl - n } ∷ [] else [])
ticks_frag_end zero frag f pos = ground arith
ticks_frag_end (suc n) frag f pos = elim (Bool-cases (leb frag.frag_ttl 1)) [
  | inl e ↦ ap (ticks n) (timer_frags_gone frag f e) ∙ ticks-nil n ∙ ground arith
  | inr e ↦
      ap (ticks n) (timer_frags_aged frag f e)
      ∙ ticks_frag_end n (record frag { frag_ttl = frag.frag_ttl - 1 }) f (ground arith)
      ∙ ground arith
]
