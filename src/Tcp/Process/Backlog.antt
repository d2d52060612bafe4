-- ===== src/Tcp/Process/Backlog.antt =====
-- tcp_accept_enqueue and tcp_accept_queue_full of include/tcp.h: the length of the accept queue.
use tapip.Base.{ℕ, ◌≡◌, ◌≢◌, ◌∷◌, if◌then◌else◌, arith}
use tapip.Sock.{unlink}
use tapip.Tcp.{Tcp}
use tapip.Tcp.Process.{tcp_accept_queue_full, tcp_accept_enqueue}

-- Queueing a child puts it at the head of the accept queue of its parent, and leaves the count that
-- stands for the length of that queue as it is: whether the queue counts as full does not change.
tcp_accept_queue_full-tcp_accept_enqueue :
    (st : Tcp) (i p : ℕ)
    → p ≢ i
    → (((tcp_accept_enqueue st i p).socks p).accept_queue
        ≡ i
          ∷ (if (st.socks i).linked
              then unlink i (st.socks p).accept_queue
              else (st.socks p).accept_queue))
      × (tcp_accept_queue_full ((tcp_accept_enqueue st i p).socks p)
          ≡ tcp_accept_queue_full (st.socks p))
unfolding tcp_accept_enqueue
tcp_accept_queue_full-tcp_accept_enqueue st i p n = (ground arith, ground arith)
