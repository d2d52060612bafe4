-- ===== src/Inet/Bind.antt =====
-- inet_bind of socket/inet.c: what a protocol's set_port must do for it, and what it then does.
use tapip.Base.{
  ℕ, ◌≡◌, ◌≢◌, refl, ap, ◌∙◌, Option, none, some, Bool, true, false, ◌==◌, not, if-cases,
  Bool-cases, inl, inr, arith,
}
use mathlib.Core.Path.{subst}
use tapip.Sock.{Sock}
use tapip.Inet.{SockAddr, SockOps, Devices, local_address, bound, bind_port, inet_bind}

-- What a call of set_port has done when it returns: on success the socket has a port, and its
-- address is as it was.
abbrev pub Sets : {S Got : Type 0} → SockOps S Got → ℕ → Sock → Option (Bool × S) → Type 0
Sets o i old none = Unit {0}
Sets o i old (some (false, st)) = Unit {0}
Sets o i old (some (true, st)) =
    ((o.sock st i).sk_sport ≢ 0) × ((o.sock st i).sk_saddr ≡ old.sk_saddr)

-- What a protocol promises to inet_bind.
pub record BindLaws {S Got : Type 0} (o : SockOps S Got) : Type 0 where
  pub set_port : S → ℕ → ℕ → Option (Bool × S)
  pub common : o.bind ≡ none
  pub own : o.set_port ≡ some set_port
  pub sock-modify :
      (st : S) (i : ℕ) (f : Sock → Sock) → o.sock (o.modify st i f) i ≡ f (o.sock st i)
  pub set_port-Sets : (st : S) (i nport : ℕ) → Sets o i (o.sock st i) (set_port st i nport)

-- What a socket is after inet_bind has succeeded with an address.
pub record IsBound {S Got : Type 0} (o : SockOps S Got) (d : Devices) (st : S) (i : ℕ)
    (a : SockAddr) : Type 0 where
  pub at_addr : (o.sock st i).sk_saddr ≡ a.src_addr
  pub is_local : local_address d a.src_addr ≡ true
  pub has_port : (o.sock st i).sk_sport ≢ 0
  pub no_peer : ((o.sock st i).sk_daddr ≡ 0) × ((o.sock st i).sk_dport ≡ 0)
  pub refused : (b : SockAddr) → inet_bind o d st i b ≡ some (false, st)

module _ {S Got : Type 0} {o : SockOps S Got} (laws : BindLaws o) (d : Devices) where
  inet_bind_again :
      (st : S) (i : ℕ) (b : SockAddr)
      → (o.sock st i).sk_sport ≢ 0
      → inet_bind o d st i b ≡ some (false, st)
  unfolding inet_bind
  inet_bind_again st i b p =
      let z : ((o.sock st i).sk_sport == 0) ≡ false = ground arith in rw laws.common (rw z refl)

  -- the result of inet_bind
  abbrev Binds : ℕ → SockAddr → Option (Bool × S) → Type 0
  Binds i a none = Unit {0}
  Binds i a (some (false, st)) = Unit {0}
  Binds i a (some (true, st)) = IsBound o d st i a

  bound-Binds :
      (i : ℕ) (a : SockAddr) (old : Sock) (r : Option (Bool × S))
      → old.sk_saddr ≡ a.src_addr
      → local_address d a.src_addr ≡ true
      → Sets o i old r
      → Binds i a (bound o i r)
  bound-Binds i a old none e l s = tt
  bound-Binds i a old (some (false, st)) e l s = tt
  bound-Binds i a old (some (true, st)) e l s =
      let clear : Sock → Sock = λ sk. record sk { sk_daddr = 0; sk_dport = 0 } in
      let m = laws.sock-modify st i clear in
      let port : (o.sock (o.modify st i clear) i).sk_sport ≢ 0 = λ z. s.0 (cc (m, z)) in
      record {
        at_addr = ap (λ (sk : Sock). sk.sk_saddr) m ∙ s.1 ∙ e;
        is_local = l;
        has_port = port;
        no_peer = (ap (λ (sk : Sock). sk.sk_daddr) m, ap (λ (sk : Sock). sk.sk_dport) m);
        refused = λ b. inet_bind_again (o.modify st i clear) i b port;
      }

  inet_bind-Binds : (st : S) (i : ℕ) (a : SockAddr) → Binds i a (inet_bind o d st i a)
  unfolding inet_bind bind_port
  inet_bind-Binds st i a =
      rw (laws.common, laws.own)
        (if-cases (Binds i a) (not ((o.sock st i).sk_sport == 0)) (λ p. tt)
          (λ p. elim (Bool-cases (local_address d a.src_addr)) [
            | inr l ↦ rw l tt
            | inl l ↦
                let st' = o.modify st i (λ sk. record sk { sk_saddr = a.src_addr }) in
                rw l (
                  bound-Binds i a (o.sock st' i) (laws.set_port st' i a.src_port)
                    (ap (λ (sk : Sock). sk.sk_saddr)
                      (laws.sock-modify st i (λ sk. record sk { sk_saddr = a.src_addr })))
                    l (laws.set_port-Sets st' i a.src_port))
          ]))

-- When inet_bind returns 0 for a socket of a protocol that keeps the laws, the address is one of this
-- host, the socket has it and a port other than 0 and no peer, and every further inet_bind of the
-- socket returns -1 and changes nothing.
pub inet_bind-IsBound :
    {S Got : Type 0} {o : SockOps S Got}
    → BindLaws o
    → (d : Devices) (st st' : S) (i : ℕ) (a : SockAddr) → inet_bind o d st i a ≡ some (true, st')
    → IsBound o d st' i a
inet_bind-IsBound laws d st st' i a e = subst (Binds laws d i a) e (inet_bind-Binds laws d st i a)
