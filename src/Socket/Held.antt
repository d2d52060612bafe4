-- ===== src/Socket/Held.antt =====
-- socket/socket.c: a socket that other threads use while it is closed.
use tapip.Base.{ℕ, suc, ◌+◌, ◌<◌, ◌≡◌, refl, none, Bool, true, false, if◌then◌else◌, arith}
use tapip.Inet.{SockOps, inet_close}
use tapip.Socket.{Socket, get_socket, do_free_socket, free_socket, socket_close}

-- A socket with the tables of its protocol, the number of calls that are inside, and whether the
-- user has not called _close yet.
pub record Shared (S : Type 0) : Type 0 where
  pub sock : Socket
  pub st : S
  pub inside : ℕ
  pub open_ : Bool

module _ {S Got : Type 0} (o : SockOps S Got) where
  abbrev pub run_leave : Shared S → ℕ → Shared S
  run_leave s n = record {
    sock = (free_socket o s.sock s.st).0;
    st = (free_socket o s.sock s.st).1;
    inside = n;
    open_ = s.open_;
  }

  abbrev pub run_close : Shared S → Shared S
  run_close s = record {
    sock = (socket_close o s.sock s.st).0;
    st = (socket_close o s.sock s.st).1;
    inside = s.inside;
    open_ = false;
  }

  -- Threads call the socket in any order: a call begins with get_socket and ends with free_socket, and
  -- what it and the rest of the stack do to the tables in between is any change. No call begins behind
  -- _close, which is called once. Each get_socket, free_socket and _close is one step: the code changes
  -- refcnt without a lock, so two of them that run at the same moment are not among these orders.
  pub data Step (s : Shared S) : Shared S → Type 0 where
    enters : s.open_ ≡ true → Step s (record s { sock = get_socket s.sock; inside = s.inside + 1 })
    acts : (st : S) → Step s (record s { st = st })
    leaves : (n : ℕ) → s.inside ≡ suc n → Step s (run_leave s n)
    closes : s.open_ ≡ true → Step s (run_close s)

  pub data Reach (first : Shared S) : Shared S → Type 0 where
    start : Reach first first
    later : {s t : Shared S} → Reach first s → Step s t → Reach first t

-- how many hold the socket: the calls inside, and the user until _close
abbrev pub holders : {S : Type 0} → Shared S → ℕ
holders s = s.inside + (if s.open_ then 1 else 0)

-- While somebody holds the socket it is there with all its parts; after that it has been taken apart
-- and freed once.
pub record IsHeld {S : Type 0} (s : Shared S) : Type 0 where
  pub counted : s.sock.refcnt ≡ holders s
  pub there : 0 < holders s → (s.sock.freed ≡ 0) × (s.sock.has_ops ≡ true)
  pub gone : holders s ≡ 0 → (s.sock.freed ≡ 1) × (s.sock.has_ops ≡ false) × (s.sock.sk ≡ none)

module _ {S Got : Type 0} {o : SockOps S Got} where
  Step-IsHeld : {s t : Shared S} → Step o s t → IsHeld s → IsHeld t
  unfolding get_socket free_socket do_free_socket socket_close
  Step-IsHeld (enters e) h = record {
    counted = ground (arith, h.counted);
    there = λ p. h.there (ground arith);
    gone = λ z. ground arith;
  }
  Step-IsHeld (acts st) h = record { counted = h.counted; there = h.there; gone = h.gone }
  Step-IsHeld (leaves n e) h = record {
    counted = ground (arith, h.counted, h.there (ground arith));
    there = λ p. (
      ground (arith, h.counted, h.there (ground arith)),
      ground (arith, h.counted, h.there (ground arith)),
    );
    gone = λ z. ground (arith, h.counted, h.there (ground arith));
  }
  Step-IsHeld (closes e) h = record {
    counted = ground (arith, h.counted, h.there (ground arith));
    there = λ p. ground (arith, h.counted, h.there (ground arith));
    gone = λ z. ground (arith, h.counted, h.there (ground arith));
  }

-- The step that takes the last holder away has called inet_close for the sock, and the steps before it
-- leave the socket its sock.
pub record Releases {S Got : Type 0} (o : SockOps S Got) (s t : Shared S) : Type 0 where
  pub closed : 0 < holders s → holders t ≡ 0 → t.st ≡ (inet_close o s.st s.sock.sk).1
  pub still : 0 < holders t → t.sock.sk ≡ s.sock.sk

Step-Releases :
    {S Got : Type 0} {o : SockOps S Got} {s t : Shared S} → Step o s t → IsHeld s → Releases o s t
unfolding get_socket free_socket do_free_socket socket_close
Step-Releases (enters e) h = record { closed = λ p z. absurd (ground arith); still = λ p. refl }
Step-Releases (acts st) h = record { closed = λ p z. absurd (omega arith); still = λ p. refl }
Step-Releases (leaves n e) h = record {
  closed = λ p z. ground (arith, h.counted, h.there p);
  still = λ p. ground (arith, h.counted, h.there (ground arith));
}
Step-Releases (closes e) h = record {
  closed = λ p z. ground (arith, h.counted, h.there p);
  still = λ p. ground (arith, h.counted, h.there (ground arith));
}

Reach-IsHeld :
    {S Got : Type 0} (o : SockOps S Got) (first s : Shared S)
    → first.sock.refcnt ≡ 1
    → first.sock.freed ≡ 0
    → first.sock.has_ops ≡ true
    → first.inside ≡ 0
    → first.open_ ≡ true
    → Reach o first s
    → IsHeld s
Reach-IsHeld o first s a b c d e start = record {
  counted = ground arith;
  there = λ p. (b, c);
  gone = λ z. ground arith;
}
Reach-IsHeld o first s a b c d e (later r st) = Step-IsHeld st (Reach-IsHeld o first _ a b c d e r)

-- However calls and one _close of a new socket are interleaved, while no call begins behind _close and
-- no two get_socket, free_socket or _close run at the same moment, after every step: while the user has
-- not closed the socket or a call is inside, its memory has not been freed and it keeps its operations
-- and its sock; the step after which it is closed and the last call has ended has called inet_close for
-- the sock on the tables as they were, and from then on the memory has been freed exactly once.
pub Reach-Releases :
    {S Got : Type 0} (o : SockOps S Got) (first s t : Shared S)
    → first.sock.refcnt ≡ 1
    → first.sock.freed ≡ 0
    → first.sock.has_ops ≡ true
    → first.inside ≡ 0
    → first.open_ ≡ true
    → Reach o first s
    → Step o s t
    → IsHeld t × Releases o s t
Reach-Releases o first s t a b c d e r st =
    let h = Reach-IsHeld o first s a b c d e r in (Step-IsHeld st h, Step-Releases st h)
