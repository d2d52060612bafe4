-- ===== src/Raw/Deliver.antt =====
-- raw_in: which raw sockets get a copy of a packet.
use tapip.Base.{
  ℕ, zero, suc, ◌+◌, ◌-◌, take, ◌≤◌, ◌≡◌, refl, sym, ap, ◌∙◌, List, [], ◌∷◌, ◌++◌, none, some, Bool,
  true, false, ◌==◌, if◌then◌else◌, ◌||◌, ◌&&◌, length, arith, inl, inr, Bool-cases, if-cases,
}
use mathlib.Core.Path.{subst}
use tapip.Net.{Pkbuf, Ip, eth_hrd_sz, iphlen}
use tapip.Raw.{
  Raw, emit, overrun, recv_copy, sizeof_pkbuf, is_short, takes, raw_find, raw_recv, raw_loop,
  raw_in, copy_pkb, raw_hash_func,
}

-- The same as the loop, by recursion on the chain, for a packet that is copied to `rawpkb`.
abbrev recv_each : Raw → Pkbuf → Pkbuf → List ℕ → Raw
recv_each st pkb rawpkb [] = st
recv_each st pkb rawpkb (i ∷ chain) =
    recv_each (if takes (st.socks i) pkb.ip then raw_recv st rawpkb i else st) pkb rawpkb chain

recv_copy_lem :
    (st : Raw) (pkb rawpkb : Pkbuf) (i : ℕ)
    → copy_pkb pkb ≡ some rawpkb
    → recv_copy st pkb i ≡ raw_recv st rawpkb i
recv_copy_lem st pkb rawpkb i c =
    ap (λ o. elim o as (λ x. Raw) [ none ↦ emit st overrun | some copy ↦ raw_recv st copy i ]) c

raw_loop_lem :
    (fuel : ℕ) (st : Raw) (pkb rawpkb : Pkbuf) (chain : List ℕ)
    → copy_pkb pkb ≡ some rawpkb
    → length chain ≤ fuel
    → raw_loop fuel st pkb (raw_find st pkb.ip chain) ≡ recv_each st pkb rawpkb chain
unfolding raw_loop raw_find
raw_loop_lem zero st pkb rawpkb [] c h = refl
raw_loop_lem (suc fuel) st pkb rawpkb [] c h = refl
raw_loop_lem zero st pkb rawpkb (i ∷ chain) c h = absurd (omega arith)
raw_loop_lem (suc fuel) st pkb rawpkb (i ∷ chain) c h =
    elim (Bool-cases (takes (st.socks i) pkb.ip)) [
      | inl t ↦ rw t (
          subst
            (λ st'.
              raw_loop fuel st' pkb (raw_find st' pkb.ip chain)
              ≡ recv_each (raw_recv st rawpkb i) pkb rawpkb chain)
            (sym (recv_copy_lem st pkb rawpkb i c))
            (raw_loop_lem fuel (raw_recv st rawpkb i) pkb rawpkb chain c (omega arith)))
      | inr f ↦ rw f (raw_loop_lem (suc fuel) st pkb rawpkb chain c (omega arith))
    ]

abbrev pub on_chain : ℕ → List ℕ → Bool
on_chain j [] = false
on_chain j (i ∷ chain) = j == i || on_chain j chain

-- No socket stands on the chain twice.
abbrev pub AreDistinct : List ℕ → Type 0
AreDistinct [] = Unit
AreDistinct (i ∷ chain) = (on_chain i chain ≡ false) × AreDistinct chain

-- Every socket on the chain has its wait structure.
pub record AreReady (st : Raw) (chain : List ℕ) : Type 0 where
  pub ready : (j : ℕ) → on_chain j chain ≡ true → (st.socks j).recv_wait ≡ true

abbrev queue_of : Raw → ℕ → List Pkbuf
queue_of st j = (st.socks j).recv_queue

-- the receive queue with one packet more, or as it is
abbrev pub with_copy : List Pkbuf → Pkbuf → Bool → List Pkbuf
with_copy q rawpkb b = if b then q ++ (rawpkb ∷ []) else q

raw_recv-queue :
    (st : Raw) (p : Pkbuf) (i j : ℕ)
    → (st.socks i).recv_wait ≡ true
    → queue_of (raw_recv st p i) j ≡ (if j == i then queue_of st j ++ (p ∷ []) else queue_of st j)
unfolding raw_recv
raw_recv-queue st p i j w = ground arith

raw_recv-takes :
    (st : Raw) (p : Pkbuf) (i j : ℕ) (h : Ip)
    → takes ((raw_recv st p i).socks j) h ≡ takes (st.socks j) h
unfolding raw_recv
raw_recv-takes st p i j h = ground arith

raw_recv-wait :
    (st : Raw) (p : Pkbuf) (i j : ℕ)
    → ((raw_recv st p i).socks j).recv_wait ≡ (st.socks j).recv_wait
unfolding raw_recv
raw_recv-wait st p i j = ground arith

-- one socket of the chain that is looked at
abbrev try_sock : Raw → Pkbuf → Pkbuf → ℕ → Raw
try_sock st pkb rawpkb i = if takes (st.socks i) pkb.ip then raw_recv st rawpkb i else st

try_sock-takes :
    (st : Raw) (pkb rawpkb : Pkbuf) (i j : ℕ) (h : Ip)
    → takes ((try_sock st pkb rawpkb i).socks j) h ≡ takes (st.socks j) h
try_sock-takes st pkb rawpkb i j h =
    if-cases (λ (s : Raw). takes (s.socks j) h ≡ takes (st.socks j) h) (takes (st.socks i) pkb.ip)
      (λ t. raw_recv-takes st rawpkb i j h) (λ f. refl)

try_sock-wait :
    (st : Raw) (pkb rawpkb : Pkbuf) (i j : ℕ)
    → ((try_sock st pkb rawpkb i).socks j).recv_wait ≡ (st.socks j).recv_wait
try_sock-wait st pkb rawpkb i j =
    if-cases (λ (s : Raw). (s.socks j).recv_wait ≡ (st.socks j).recv_wait)
      (takes (st.socks i) pkb.ip) (λ t. raw_recv-wait st rawpkb i j) (λ f. refl)

try_sock-queue :
    (st : Raw) (pkb rawpkb : Pkbuf) (i j : ℕ)
    → (st.socks i).recv_wait ≡ true
    → queue_of (try_sock st pkb rawpkb i) j
      ≡ with_copy (queue_of st j) rawpkb (j == i && takes (st.socks j) pkb.ip)
try_sock-queue st pkb rawpkb i j w =
    if-cases
      (λ (s : Raw).
        queue_of s j ≡ with_copy (queue_of st j) rawpkb (j == i && takes (st.socks j) pkb.ip))
      (takes (st.socks i) pkb.ip) (λ t. ground (arith, raw_recv-queue st rawpkb i j w))
      (λ f. ground arith)

try_sock-AreReady :
    (st : Raw) (pkb rawpkb : Pkbuf) (i : ℕ) (chain : List ℕ)
    → AreReady st (i ∷ chain)
    → AreReady (try_sock st pkb rawpkb i) chain
try_sock-AreReady st pkb rawpkb i chain r = record {
  ready = λ j e. try_sock-wait st pkb rawpkb i j ∙ r.ready j (ground arith);
}

recv_each-queue :
    (st : Raw) (pkb rawpkb : Pkbuf) (chain : List ℕ) (j : ℕ)
    → AreDistinct chain
    → AreReady st chain
    → queue_of (recv_each st pkb rawpkb chain) j
      ≡ with_copy (queue_of st j) rawpkb (on_chain j chain && takes (st.socks j) pkb.ip)
recv_each-queue st pkb rawpkb [] j d r = refl
recv_each-queue st pkb rawpkb (i ∷ chain) j d r = ground (
  arith,
  recv_each-queue (try_sock st pkb rawpkb i) pkb rawpkb chain j d.1
      (try_sock-AreReady st pkb rawpkb i chain r),
  try_sock-queue st pkb rawpkb i j (r.ready i (ground arith)),
  try_sock-takes st pkb rawpkb i j pkb.ip,
)

-- The packet as a raw socket gets it: without the last 52 bytes of its data, as many as the
-- structure in front of the frame is long.
abbrev pub shortened : Pkbuf → Pkbuf
shortened pkb = record pkb {
  ip = record (pkb.ip) { ip_data = take (length pkb.ip.ip_data - sizeof_pkbuf) pkb.ip.ip_data };
}

copy_pkb-shortened :
    (pkb : Pkbuf)
    → pkb.pk_len ≡ eth_hrd_sz + iphlen pkb.ip + length pkb.ip.ip_data
    → sizeof_pkbuf ≤ length pkb.ip.ip_data
    → copy_pkb pkb ≡ some (shortened pkb)
unfolding copy_pkb
copy_pkb-shortened pkb e h =
    let long : is_short pkb ≡ false = ground arith in
    let same : pkb.pk_len - sizeof_pkbuf - eth_hrd_sz - iphlen pkb.ip
        ≡ length pkb.ip.ip_data - sizeof_pkbuf =
      omega arith in
    rw (long, same) refl

-- A packet that fills its frame and has at least 52 bytes of data is put at the end of the receive
-- queue of every raw socket on the chain of its protocol that takes it, once and without the last 52
-- bytes of its data, which copy_pkb does not copy; no other queue changes. No socket stands on the
-- chain twice, and each has its wait structure.
pub raw_in-queue :
    (st : Raw) (pkb : Pkbuf) (j : ℕ)
    → pkb.pk_len ≡ eth_hrd_sz + iphlen pkb.ip + length pkb.ip.ip_data
    → sizeof_pkbuf ≤ length pkb.ip.ip_data
    → let chain = st.head (raw_hash_func pkb.ip.ip_pro) in
      AreDistinct chain
      → AreReady st chain
      → ((raw_in st pkb).socks j).recv_queue
        ≡ with_copy
            ((st.socks j).recv_queue)
            (shortened pkb)
            (on_chain j chain && takes (st.socks j) pkb.ip)
unfolding raw_in
raw_in-queue st pkb j e h d r =
    let chain : List ℕ = st.head (raw_hash_func pkb.ip.ip_pro) in
    ap (λ (s : Raw). queue_of s j)
      (raw_loop_lem (length chain) st pkb (shortened pkb) chain (copy_pkb-shortened pkb e h)
        (omega arith))
    ∙ recv_each-queue st pkb (shortened pkb) chain j d r
