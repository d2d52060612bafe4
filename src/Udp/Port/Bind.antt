-- ===== src/Udp/Port/Bind.antt =====
-- udp_set_sport and udp_lookup_sock: a port leads to the socket that is bound to it.
use tapip.Base.{
  ℕ, ◌%◌, ◌≡◌, ◌≢◌, refl, ap, ◌∙◌, List, [], ◌∷◌, some, Bool, true, false, ◌==◌, if◌then◌else◌,
  if-cases, htons, arith,
}
use tapip.Sock
use tapip.Sock.{Sock}
use tapip.Udp.{Udp, udp_hash_size, modify, udp_hash}
use tapip.Udp.Port.{
  bind_to, is_better, port_used, udp_update_best, take_port, udp_set_sport, find_port,
  udp_find_sock,
}

==_refl : (n : ℕ) → (n == n) ≡ true
==_refl n = ground arith

modify_self : (st : Udp) (i : ℕ) (f : Sock → Sock) → (modify st i f).socks i ≡ f (st.socks i)
modify_self st i f = ap (λ b. if b then f (st.socks i) else st.socks i) (==_refl i)

modify_other : (st : Udp) (i j : ℕ) (f : Sock → Sock) → j ≢ i → (modify st i f).socks j ≡ st.socks j
modify_other st i j f n =
    ap (λ b. if b then f (st.socks i) else st.socks j) {x = j == i} {y = false} (ground arith)

-- The socket is on none of the chains.
abbrev pub IsOff : ℕ → List ℕ → Type 0
IsOff i [] = Unit
IsOff i (j ∷ chain) = (j ≢ i) × IsOff i chain

find_port-head :
    (st : Udp) (i nport : ℕ) (chain : List ℕ)
    → (st.socks i).sk_sport ≡ nport
    → find_port st nport (i ∷ chain) ≡ some i
unfolding find_port
find_port-head st i nport chain e =
    ap (λ b. if b then some i else find_port st nport chain) {y = true}
      (ap (λ p. p == nport) e ∙ ==_refl nport)

-- A socket that is not on a chain may change.
find_port-other :
    (st st' : Udp) (i nport : ℕ) (chain : List ℕ)
    → IsOff i chain
    → ((j : ℕ) → j ≢ i → st'.socks j ≡ st.socks j)
    → find_port st' nport chain ≡ find_port st nport chain
unfolding find_port
find_port-other st st' i nport [] off same = refl
find_port-other st st' i nport (j ∷ chain) off same =
    ap (λ (sk : Sock). if sk.sk_sport == nport then some j else find_port st' nport chain)
      (same j off.0)
    ∙ ap (λ r. if (st.socks j).sk_sport == nport then some j else r)
        (find_port-other st st' i nport chain off.1 same)

-- What udp_hash makes of the chains, and of the sockets.
udp_hash-head :
    (st : Udp) (i k : ℕ)
    → (udp_hash st i).head k ≡ (if k == (st.socks i).hash then i ∷ st.head k else st.head k)
unfolding udp_hash
udp_hash-head st i k = refl

udp_hash-sport : (st : Udp) (i : ℕ) → ((udp_hash st i).socks i).sk_sport ≡ (st.socks i).sk_sport
unfolding udp_hash Sock.get_sock
udp_hash-sport st i =
    ap (λ (sk : Sock). sk.sk_sport)
      (modify_self st i (λ sk. record (Sock.get_sock sk) { hashed = true }))

udp_hash-other : (st : Udp) (i j : ℕ) → j ≢ i → (udp_hash st i).socks j ≡ st.socks j
unfolding udp_hash
udp_hash-other st i j n = modify_other st i j (λ sk. record (Sock.get_sock sk) { hashed = true }) n

udp_update_best-socks : (st : Udp) (h j : ℕ) → (udp_update_best st h).socks j ≡ st.socks j
unfolding udp_update_best
udp_update_best-socks st h j =
    if-cases (λ (s : Udp). s.socks j ≡ st.socks j) (is_better st h)
      {x = record st { best_slot = h }} {y = st} (λ b. refl) (λ b. refl)

udp_update_best-head : (st : Udp) (h k : ℕ) → (udp_update_best st h).head k ≡ st.head k
unfolding udp_update_best
udp_update_best-head st h k =
    if-cases (λ (s : Udp). s.head k ≡ st.head k) (is_better st h) {x = record st { best_slot = h }}
      {y = st} (λ b. refl) (λ b. refl)

module _ (st : Udp) (i nport : ℕ) where
  abbrev slot : ℕ
  slot = htons nport % udp_hash_size

  -- the table in front of udp_hash
  abbrev before : Udp
  before = modify (udp_update_best st slot) i (bind_to nport)

  before_self : before.socks i ≡ bind_to nport (st.socks i)
  before_self =
      modify_self (udp_update_best st slot) i (bind_to nport)
      ∙ ap (bind_to nport) (udp_update_best-socks st slot i)

  take_port-head :
      (k : ℕ) → (take_port st i nport).head k ≡ (if k == slot then i ∷ st.head k else st.head k)
  unfolding take_port
  take_port-head k =
      udp_hash-head before i k
      ∙ ap (λ (sk : Sock). if k == sk.hash then i ∷ before.head k else before.head k) before_self
      ∙ ap (λ l. if k == slot then i ∷ l else l) (udp_update_best-head st slot k)

  take_port-sport : ((take_port st i nport).socks i).sk_sport ≡ nport
  unfolding take_port
  take_port-sport = udp_hash-sport before i ∙ ap (λ (sk : Sock). sk.sk_sport) before_self

  take_port-other : (j : ℕ) → j ≢ i → (take_port st i nport).socks j ≡ st.socks j
  unfolding take_port
  take_port-other j n =
      udp_hash-other before i j n
      ∙ modify_other (udp_update_best st slot) i j (bind_to nport) n
      ∙ udp_update_best-socks st slot j

  -- The bound port leads to the socket.
  take_port-found : udp_find_sock (take_port st i nport) nport ≡ some i
  unfolding udp_find_sock
  take_port-found =
      ap (find_port (take_port st i nport) nport) (
        take_port-head slot ∙ ap (λ b. if b then i ∷ st.head slot else st.head slot) (==_refl slot))
      ∙ find_port-head (take_port st i nport) i nport (st.head slot) take_port-sport

  -- On a chain that the socket is put on, another port does not stop at it.
  behind_new :
      (other : ℕ) (b : Bool) (chain : List ℕ)
      → other ≢ nport
      → find_port (take_port st i nport) other (if b then i ∷ chain else chain)
        ≡ find_port (take_port st i nport) other chain
  unfolding find_port
  behind_new other false chain n = refl
  behind_new other true chain n =
      ap (λ p. if p == other then some i else find_port (take_port st i nport) other chain)
        take_port-sport
      ∙ ap (λ b. if b then some i else find_port (take_port st i nport) other chain)
          {x = nport == other} {y = false} (ground arith)

  take_port-others :
      (other : ℕ)
      → other ≢ nport
      → ((k : ℕ) → IsOff i (st.head k))
      → udp_find_sock (take_port st i nport) other ≡ udp_find_sock st other
  unfolding udp_find_sock
  take_port-others other n off =
      let k = htons other % udp_hash_size in
      ap (find_port (take_port st i nport) other) (take_port-head k)
      ∙ behind_new other (k == slot) (st.head k) n
      ∙ find_port-other st (take_port st i nport) i other (st.head k) (off k) take_port-other

-- Binding a socket that is on no chain to a port other than 0 that nobody uses succeeds; then
-- datagrams for the port go to the socket, and those for every other port go where they went before.
pub udp_find_sock-udp_set_sport :
    (st : Udp) (i nport : ℕ)
    → nport ≢ 0
    → port_used st (htons nport) ≡ false
    → ((k : ℕ) → IsOff i (st.head k))
    → (st' : Udp) × (udp_set_sport st i nport ≡ (true, st'))
      × (udp_find_sock st' nport ≡ some i)
      × ((other : ℕ) → other ≢ nport → udp_find_sock st' other ≡ udp_find_sock st other)
unfolding udp_set_sport
udp_find_sock-udp_set_sport st i nport h f off =
    let z : (nport == 0) ≡ false = ground arith in
    rw z (
      rw f (
        take_port st i nport,
        refl,
        take_port-found st i nport,
        λ other n. take_port-others st i nport other n off,
      ))
