-- ===== src/Tcp/Timer.antt =====
-- tcp/tcp_timer.c: sockets in TIME-WAIT. The thread's loop calls tcp_timewait_timer once a second.
pub mod Lost
use tapip.Base.{ℕ, ◌-◌, List, [], ◌∷◌, Bool, true, false, leb, if◌then◌else◌}
use tapip.Tcp.{closed, time_wait, no_parent, Tcp, modify, tcp_set_state, get_tcp_sock, free_sock}
use tapip.Tcp.Hash.{tcp_unhash}
use tapip.Tcp.Port.{tcp_unbhash}

abbrev pub tcp_timewait_timeout : ℕ
tcp_timewait_timeout = 2000000

abbrev pub restart_timewait : Tcp → ℕ → Tcp
restart_timewait st i = modify st i (λ tsk. record tsk { timeout = tcp_timewait_timeout })

unfoldable pub tcp_set_timewait_timer : Tcp → ℕ → Tcp
tcp_set_timewait_timer st i =
    let st' = restart_timewait (tcp_set_state st i time_wait) i in
    get_tcp_sock (record st' { timewait = i ∷ st.timewait }) i

-- TIME-WAIT expires
unfoldable pub timewait_expire : Tcp → ℕ → Tcp
timewait_expire st i =
    let st' : Tcp = elim ((st.socks i).parent) [ no_parent ↦ tcp_unbhash st i | _ ↦ st ] in
    free_sock (tcp_set_state (tcp_unhash st' i) i closed) i

-- t->timeout -= delta, on a timeout that stops at 0
abbrev pub count_down : Tcp → ℕ → ℕ → Tcp
count_down st delta i = modify st i (λ tsk. record tsk { timeout = tsk.timeout - delta })

-- The loop, and the chain that it leaves. Every t->next is cleared, and *pprev is set again only
-- when a timer behind it expires: `linked` says that *pprev still points to the next timer.
unfoldable pub timewait_loop : Tcp → ℕ → Bool → List ℕ → List ℕ × Tcp
timewait_loop st delta linked [] = ([], st)
timewait_loop st delta linked (i ∷ chain) =
    let st' = count_down st delta i in
    let gone = timewait_loop (timewait_expire st' i) delta true chain in
    let (kept, st'') = timewait_loop st' delta false chain in
    if leb (st.socks i).timeout delta then gone else (if linked then i ∷ kept else [], st'')

unfoldable pub tcp_timewait_timer : Tcp → ℕ → Tcp
tcp_timewait_timer st delta =
    let (chain, st') = timewait_loop st delta true st.timewait in record st' { timewait = chain }
