-- ===== src/Tcp/Step/Passive.antt =====
-- tcp_listen and the child that it begins, against the state diagram.
use tapip.Base.{ℕ, true, false, ◌≡◌, refl, Bool, if◌then◌else◌, if-cases, Option, none, some, arith}
use tapip.Tcp.{TcpState, closed, listen, syn_recv, Segment, Tcp, modify}
use tapip.Tcp.Out.{tcp_send_synack}
use tapip.Tcp.Step.Diagram.{with_state, with_child, Goes}
use tapip.Tcp.Step.Graph.{state_of, Same, Same-trans, Same-refl, state_IsInner, modify-Same}
use tapip.Tcp.Step.Quiet.{emit-Same, tcp_send_reset-Same, tcp_send_synack-Same, get_tcp_sock-Same}
use tapip.Tcp.{alloc_new_iss}
use tapip.Tcp.Hash.{tcp_ehashfn, tcp_ehash_conflict, tcp_hash, hash_in, hash_establish, hash_listen}
use tapip.Tcp.Listen.{
  new_sock, child_fields, adopt, tcp_listen_child_sock, first_syn, after_synack, start_child,
  start_if, tcp_listen,
}
use tapip.Tcp.Step.Moves.{quiet}

new_sock-Same : (st : Tcp) → state_of st st.next_sk ≡ closed → Same st (new_sock st).1
unfolding new_sock
new_sock-Same st e = record { same = λ j. ground (arith, e) }

hash_establish-Same : (st : Tcp) (i : ℕ) → Same st (hash_establish st i).1
unfolding hash_establish
hash_establish-Same st i =
    let sk = (st.socks i).sk in
    let h = tcp_ehashfn sk.sk_saddr sk.sk_daddr sk.sk_sport sk.sk_dport in
    if-cases (λ (r : Bool × Tcp). Same st r.1) (tcp_ehash_conflict st (st.etable h) sk)
      (λ b. Same-refl)
      (λ b. Same-trans (get_tcp_sock-Same st i) (record { same = λ j. ground arith }))

hash_listen-Same : (st : Tcp) (i : ℕ) → Same st (hash_listen st i).1
unfolding hash_listen
hash_listen-Same st i = Same-trans (get_tcp_sock-Same st i) (record { same = λ j. ground arith })

hash_in-Same : (st : Tcp) (i : ℕ) (s : TcpState) → Same st (hash_in st i s).1
hash_in-Same st i closed = Same-refl
hash_in-Same st i listen = hash_listen-Same st i
hash_in-Same st i _ = hash_establish-Same st i

tcp_hash-Same : (st : Tcp) (i : ℕ) → Same st (tcp_hash st i).1
unfolding tcp_hash
tcp_hash-Same st i = hash_in-Same st i (st.socks i).state

adopt-Same : (st : Tcp) (i c : ℕ) → Same st (adopt st i c)
unfolding adopt
adopt-Same st i c =
    Same-trans (get_tcp_sock-Same st i)
      (Same-trans (record { same = λ j. ground arith }) (get_tcp_sock-Same _ c))

-- A child is made, and its state is set together with its addresses.
child-Goes :
    (st : Tcp) (seg : Segment)
    → state_of st st.next_sk ≡ closed
    → Goes
        (with_state st st.next_sk syn_recv)
        (modify (new_sock st).1 (new_sock st).0 (child_fields seg))
unfolding new_sock
child-Goes st seg e = record { goes = λ j. ground arith }

alloc_new_iss-Same : (st : Tcp) → Same st (alloc_new_iss st).1
unfolding alloc_new_iss
alloc_new_iss-Same st = record { same = λ j. refl }

tcp_listen_child_sock-Goes :
    (st : Tcp) (i : ℕ) (seg : Segment)
    → state_of st st.next_sk ≡ closed
    → Goes (with_state st st.next_sk syn_recv) (tcp_listen_child_sock st i seg).1
unfolding tcp_listen_child_sock
tcp_listen_child_sock-Goes st i seg e =
    let c = (new_sock st).0 in
    let st' = (new_sock st).1 in
    let hashed = tcp_hash (modify st' c (child_fields seg)) c in
    let made = child-Goes st seg e in
    if-cases (λ (r : Option ℕ × Tcp). Goes (with_state st st.next_sk syn_recv) r.1) (hashed.0)
      (λ b. quiet (quiet made (tcp_hash-Same _ c)) (adopt-Same hashed.1 i c))
      (λ b. quiet (quiet made (tcp_hash-Same _ c)) (record { same = λ j. ground arith }))

start_child-Same : (st : Tcp) (c : ℕ) (seg : Segment) → Same st (start_child st c seg)
unfolding start_child
start_child-Same st c seg =
    let st' = (alloc_new_iss st).1 in
    let st'' = modify st' c (first_syn seg (alloc_new_iss st).0) in
    Same-trans (alloc_new_iss-Same st) (
      Same-trans (modify-Same st' c (first_syn seg (alloc_new_iss st).0) (λ tsk. refl)) (
        Same-trans (tcp_send_synack-Same st'' c seg)
          (modify-Same (tcp_send_synack st'' c seg) c after_synack (λ tsk. refl))))

pub tcp_listen-Goes :
    (st : Tcp) (i : ℕ) (seg : Segment)
    → state_of st st.next_sk ≡ closed
    → Goes (with_child st seg) (tcp_listen st i seg)
unfolding tcp_listen
tcp_listen-Goes st i seg e =
    let r = tcp_listen_child_sock st i seg in
    quiet
      (by_checks (seg.tcphdr.rst) (seg.tcphdr.ack) (seg.tcphdr.syn)
        (tcp_send_reset-Same st (some i) seg)
        (quiet (tcp_listen_child_sock-Goes st i seg e) (born r.1 r.0)))
      (emit-Same _ _)
  where
    born : (st' : Tcp) (c : Option ℕ) → Same st' (start_if st' c seg)
    born st' none = Same-refl
    born st' (some c) = start_child-Same st' c seg

    by_checks :
        {reset opened : Tcp} (rst ack syn : Bool)
        → Same st reset
        → Goes (with_state st st.next_sk syn_recv) opened
        → Goes
            (λ j.
              if rst
              then state_of st j
              else if ack
              then state_of st j
              else if syn
              then with_state st st.next_sk syn_recv j
              else state_of st j)
            (if rst then st else if ack then reset else if syn then opened else st)
    by_checks true ack syn p q = record { goes = λ j. refl }
    by_checks false true syn p q = record { goes = p.same }
    by_checks false false true p q = q
    by_checks false false false p q = record { goes = λ j. refl }
