-- ===== src/Arp/Cache/Timer.antt =====
-- arp_timer of arp/arp_cache.c: entries age, are asked for again and are given up.
use tapip.Base.{
  ℕ, zero, suc, ◌≡◌, ◌≢◌, refl, ap, ◌∙◌, List, [], ◌∷◌, ◌++◌, Option, none, some, Bool-cases, inl,
  inr, length, get_elem?, arith, replicate, leb, ◌==◌,
}
use mathlib.Core.List.{append-nil}
use tapip.Net.{Netdev, Pkbuf, Event, fault}
use tapip.Arp.Cache.{
  ArpEntry, ArpCache, ArpState, free, waiting, resolved, is_free, queue_drop, queue_send,
  arp_request, expire, timer_entry, timer_entries, arp_timer,
}
use tapip.Arp.Cache.Inv.{IsValid, IsSound, AllSound, Absent, AllDistinct, Shrinks, is_entry-Shrinks}

-- No null pointer was followed.
abbrev pub NoFault : List Event → Type 0
NoFault [] = Unit {0}
NoFault (e ∷ out) = (e ≢ fault) × NoFault out

pub NoFault-append : (xs ys : List Event) → NoFault xs → NoFault ys → NoFault (xs ++ ys)
NoFault-append [] ys hx hy = hy
NoFault-append (x ∷ xs) ys hx hy = (hx.0, NoFault-append xs ys hx.1 hy)

pub queue_drop-NoFault : (pkbs : List Pkbuf) → NoFault (queue_drop pkbs)
unfolding queue_drop
queue_drop-NoFault [] = tt
queue_drop-NoFault (pkb ∷ pkbs) = ((λ e. cc), queue_drop-NoFault pkbs)

pub queue_send-NoFault :
    (dev : Option Netdev) (hwaddr : List ℕ) (pkbs : List Pkbuf)
    → dev ≢ none
    → NoFault (queue_send dev hwaddr pkbs)
unfolding queue_send
queue_send-NoFault dev hwaddr [] h = tt
queue_send-NoFault none hwaddr (pkb ∷ pkbs) h = absurd (h refl)
queue_send-NoFault (some dev) hwaddr (pkb ∷ pkbs) h =
    ((λ e. cc), queue_send-NoFault (some dev) hwaddr pkbs h)

pub arp_request-ne-fault : (ae : ArpEntry) → ae.ae_dev ≢ none → arp_request ae ≢ fault
unfolding arp_request
arp_request-ne-fault ae h = ground arith

timer_entry-Shrinks : (delta : ℕ) (ae : ArpEntry) → Shrinks ae (timer_entry delta ae).0
unfolding timer_entry expire
timer_entry-Shrinks delta ae = ground arith

timer_entry-IsSound : (delta : ℕ) (ae : ArpEntry) → IsSound ae → IsSound (timer_entry delta ae).0
unfolding timer_entry expire
timer_entry-IsSound delta ae s = ground arith

expire-NoFault :
    (st : ArpState) (ae : ArpEntry) → (st ≡ waiting → ae.ae_dev ≢ none) → NoFault (expire st ae).1
unfolding expire
expire-NoFault free ae h = tt
expire-NoFault resolved ae h = tt
expire-NoFault waiting ae h = elim (Bool-cases (ae.ae_retry == 0)) [
  | inl last ↦ rw last (queue_drop-NoFault ae.ae_list)
  | inr more ↦ rw more (arp_request-ne-fault _ (h refl), tt)
]

timer_entry-NoFault : (delta : ℕ) (ae : ArpEntry) → IsSound ae → NoFault (timer_entry delta ae).1
unfolding timer_entry
timer_entry-NoFault delta ae s = elim (Bool-cases (is_free ae.ae_state)) [
  | inl idle ↦ rw idle tt
  | inr busy ↦ rw busy (elim (Bool-cases (leb ae.ae_ttl delta)) [
    | inl over ↦ rw over (expire-NoFault ae.ae_state _ s.0)
    | inr time ↦ rw time tt
  ])
]

length-timer_entries :
    (delta : ℕ) (entries : List ArpEntry) → length (timer_entries delta entries).0 ≡ length entries
unfolding timer_entries
length-timer_entries delta [] = refl
length-timer_entries delta (ae ∷ entries) = ap suc (length-timer_entries delta entries)

timer_entries-AllSound :
    (delta : ℕ) (entries : List ArpEntry)
    → AllSound entries
    → AllSound (timer_entries delta entries).0 × NoFault (timer_entries delta entries).1
unfolding timer_entries
timer_entries-AllSound delta [] s = (tt, tt)
timer_entries-AllSound delta (ae ∷ entries) s =
    let (rest, quiet) = timer_entries-AllSound delta entries s.1 in
    (
      (timer_entry-IsSound delta ae s.0, rest),
      NoFault-append (timer_entry delta ae).1 (timer_entries delta entries).1
          (timer_entry-NoFault delta ae s.0) quiet,
    )

timer_entries-Absent :
    (delta pro ipaddr : ℕ) (entries : List ArpEntry)
    → Absent pro ipaddr entries
    → Absent pro ipaddr (timer_entries delta entries).0
unfolding timer_entries
timer_entries-Absent delta pro ipaddr [] a = tt
timer_entries-Absent delta pro ipaddr (ae ∷ entries) a = (
  is_entry-Shrinks pro ipaddr (timer_entry-Shrinks delta ae) a.0,
  timer_entries-Absent delta pro ipaddr entries a.1,
)

timer_entries-AllDistinct :
    (delta : ℕ) (entries : List ArpEntry)
    → AllDistinct entries
    → AllDistinct (timer_entries delta entries).0
unfolding timer_entries
timer_entries-AllDistinct delta [] d = tt
timer_entries-AllDistinct delta (ae ∷ entries) d =
    let s = timer_entry-Shrinks delta ae in
    (
      λ busy.
          rw (s.same_pro, s.same_ipaddr)
            (timer_entries-Absent delta ae.ae_pro ae.ae_ipaddr entries (d.0 (s.in_use busy))),
      timer_entries-AllDistinct delta entries d.1,
    )

-- A tick of the timer keeps a valid cache valid and follows no null pointer.
arp_timer-IsValid :
    (delta : ℕ) {c : ArpCache}
    → IsValid c
    → IsValid (arp_timer delta c).0 × NoFault (arp_timer delta c).1
unfolding arp_timer
arp_timer-IsValid delta {c} v =
    let (s, quiet) = timer_entries-AllSound delta c.entries v.sound in
    (
      record {
        sized = length-timer_entries delta c.entries ∙ v.sized;
        next_in = v.next_in;
        sound = s;
        distinct = timer_entries-AllDistinct delta c.entries v.distinct;
      },
      quiet,
    )

get_elem?-timer_entries :
    (delta i : ℕ) (entries : List ArpEntry) {ae : ArpEntry}
    → get_elem? entries i ≡ some ae
    → get_elem? (timer_entries delta entries).0 i ≡ some (timer_entry delta ae).0
unfolding timer_entries
get_elem?-timer_entries delta i [] e = cc
get_elem?-timer_entries delta zero (x ∷ entries) e = ground arith
get_elem?-timer_entries delta (suc i) (x ∷ entries) {ae} e =
    get_elem?-timer_entries delta i entries {ae = ae} e

-- The timer treats each entry by itself.
pub get_elem?-arp_timer :
    (delta i : ℕ) (c : ArpCache) {ae : ArpEntry}
    → get_elem? c.entries i ≡ some ae
    → get_elem? (arp_timer delta c).0.entries i ≡ some (timer_entry delta ae).0
unfolding arp_timer
get_elem?-arp_timer delta i c {ae} = get_elem?-timer_entries delta i c.entries {ae = ae}

-- One entry through n ticks of a second, with all that it lets out.
pub ticks : ℕ → ArpEntry → ArpEntry × List Event
ticks zero ae = (ae, [])
ticks (suc n) ae =
    let (ae', out) = timer_entry 1 ae in let (ae'', outs) = ticks n ae' in (ae'', out ++ outs)

timer_entry_retry :
    (ae : ArpEntry) (r : ℕ)
    → ae.ae_state ≡ waiting
    → ae.ae_ttl ≡ 1
    → ae.ae_retry ≡ suc r
    → timer_entry 1 ae ≡ (record ae { ae_retry = r }, arp_request ae ∷ [])
unfolding timer_entry expire arp_request
timer_entry_retry ae r st ttl retry = ground arith

timer_entry_last :
    (ae : ArpEntry)
    → ae.ae_state ≡ waiting
    → ae.ae_ttl ≡ 1
    → ae.ae_retry ≡ 0
    → timer_entry 1 ae
      ≡ (record ae { ae_ttl = 0; ae_state = free; ae_list = [] }, queue_drop ae.ae_list)
unfolding timer_entry expire
timer_entry_last ae st ttl retry = ground arith

-- An entry that waits with r retries left, and that nobody answers, asks r times more, once a
-- second; the tick after that frees it and drops the packets that waited on it, in order.
pub ticks_give_up :
    (r : ℕ) (ae : ArpEntry)
    → ae.ae_state ≡ waiting
    → ae.ae_ttl ≡ 1
    → ae.ae_retry ≡ r
    → ticks (suc r) ae ≡ (
      record ae { ae_ttl = 0; ae_retry = 0; ae_state = free; ae_list = [] },
      replicate r (arp_request ae) ++ queue_drop ae.ae_list,
    )
unfolding ticks arp_request
ticks_give_up zero ae st ttl retry =
    ground (arith, timer_entry_last ae st ttl retry, append-nil (queue_drop ae.ae_list))
ticks_give_up (suc r) ae st ttl retry =
    let ih = ticks_give_up r (record ae { ae_retry = r }) st ttl refl in
    rw (timer_entry_retry ae r st ttl retry)
      (ap (λ (p : ArpEntry × List Event). (p.0, arp_request ae ∷ p.1)) ih)
