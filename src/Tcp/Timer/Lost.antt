-- ===== src/Tcp/Timer/Lost.antt =====
-- tcp_timewait_timer: what a tick makes of the chain of timers.
use tapip.Base.{
  ℕ, ◌-◌, ◌<◌, ◌≡◌, ◌≢◌, refl, ap, ◌∙◌, List, [], ◌∷◌, true, false, ◌==◌, leb, if◌then◌else◌, arith,
}
use tapip.Tcp.{TcpSock, Tcp, modify}
use tapip.Tcp.Timer.{count_down, timewait_loop, tcp_timewait_timer}

modify_other :
    (st : Tcp) (i j : ℕ) (f : TcpSock → TcpSock) → j ≢ i → (modify st i f).socks j ≡ st.socks j
modify_other st i j f n =
    ap (λ b. if b then f (st.socks i) else st.socks j) {x = j == i} {y = false} (ground arith)

-- The first timer goes on, and so does the second: the links to all but the first are gone.
loop_lost :
    (st : Tcp) (delta i j : ℕ) (rest : List ℕ)
    → j ≢ i
    → delta < (st.socks i).timeout
    → delta < (st.socks j).timeout
    → (timewait_loop st delta true (i ∷ j ∷ rest)).0 ≡ i ∷ []
unfolding timewait_loop
loop_lost st delta i j rest n a b =
    let first : leb (st.socks i).timeout delta ≡ false = ground arith in
    let other = modify_other st i j (λ tsk. record tsk { timeout = tsk.timeout - delta }) n in
    let second : leb ((count_down st delta i).socks j).timeout delta ≡ false =
      ap (λ (tsk : TcpSock). leb tsk.timeout delta) other ∙ ground arith in
    rw first (rw second refl)

-- When the first two sockets in the chain of TIME-WAIT timers both have more time than has passed,
-- a tick leaves the first one alone in the chain: the second and all behind it are never looked at
-- again.
tcp_timewait_timer-lost :
    (st : Tcp) (delta i j : ℕ) (rest : List ℕ)
    → st.timewait ≡ i ∷ j ∷ rest
    → j ≢ i
    → delta < (st.socks i).timeout
    → delta < (st.socks j).timeout
    → (tcp_timewait_timer st delta).timewait ≡ i ∷ []
unfolding tcp_timewait_timer
tcp_timewait_timer-lost st delta i j rest e n a b =
    ap (λ chain. (timewait_loop st delta true chain).0) e ∙ loop_lost st delta i j rest n a b
