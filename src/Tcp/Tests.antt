-- ===== src/Tcp/Tests.antt =====
-- TCP at small examples.
use tapip.Base.{
  ℕ, zero, suc, ◌+◌, ◌%◌, ◌≡◌, refl, inl, List, [], ◌∷◌, Option, none, some, true, arith,
  length-replicate,
}
use tapip.Base.Ints.{pos}
use tapip.Cbuf.{alloc_cbuf, write_cbuf, write_loop}
use tapip.Tcp.{listen, established, Segment, ReassHead, TcpSock, Tcp}
use tapip.Tcp.Out.{plain_hdr}
use tapip.Tcp.Listen.{fresh_sock}
use tapip.Tcp.Text.{
  tcp_write_buf, adjacent_head, reass_place, drop_covered, write_reass, insert_reass, reass_at,
  tcp_segment_reass, recv_next, recv_later, recv_from, recv_text,
}
use tapip.Tcp.Text.Stream.{IsSegment}
use tapip.Tcp.Text.Receive.{IsReceiver, HasReceived}
use tapip.Tcp.Text.Arrive.{TextReceived, recv_text-Received}
use tapip.Tcp.Step.{tcp_process}
use tapip.Tcp.Step.Drive.{MayGo, tcp_process-Goes}
use tapip.Tcp.Step.Diagram.{next_state, Goes}
use tapip.Tcp.Step.Graph.{established_peer}
use tapip.Tcp.Step.Ready.{IsReady}
use tapip.Tcp.Step.Takes.{room_for, new_bytes, HasNews, tcp_process-Took}
use tapip.Tcp.Process.{seq_check}
use tapip.Tcp.Text.Progress.{Took}
use tapip.Tcp.Step.Returns.{tcp_process_delivers}

-- the byte with each sequence number
abbrev bytes : ℕ → ℕ
bytes k = k % 256

abbrev text_at : ℕ → List ℕ → Segment
text_at seq text = record {
  seg_seq = seq;
  seg_ack = 500;
  lastseq = seq + 7;
  len = 8;
  dlen = 8;
  wnd = 1000;
  up = 0;
  text = text;
  ip_src = 0x0200000a;
  ip_dst = 0x0100000a;
  tcphdr = record (plain_hdr 80 8080 0 0 0) { ack = true };
}

-- The bytes from 98 to 105; the first two have been received.
abbrev segment : Segment
segment = text_at 98 (98 ∷ 99 ∷ 100 ∷ 101 ∷ 102 ∷ 103 ∷ 104 ∷ 105 ∷ [])

abbrev later : ReassHead
later = record { trh_seq = 106; trh_len = 2; trh_data = 106 ∷ 107 ∷ [] }

abbrev receiver : TcpSock
receiver = record fresh_sock { rcv_nxt = 100; rcv_reass = later ∷ []; state = established }

segment-IsSegment : IsSegment bytes segment
segment-IsSegment = record { same = refl; enough = omega arith; inside = omega arith }

receiver-IsReceiver : IsReceiver bytes receiver
unfolding alloc_cbuf
receiver-IsReceiver = record {
  buffered = record {
    valid = record {
      live = record {
        sized = length-replicate {A = ℕ} 4096 0;
        ordered = omega arith;
        fits = omega arith;
        below = omega arith;
      };
      tail_in = omega arith;
    };
    window = refl;
    bounded = omega arith;
    counted = omega arith;
  };
  apart = (omega arith, record { same = refl; enough = omega arith; inside = omega arith }, tt);
}

recv_text-Received_example : TextReceived bytes receiver (recv_text receiver segment)
recv_text-Received_example =
    recv_text-Received bytes receiver segment receiver-IsReceiver segment-IsSegment (omega arith)
      (inl (omega arith))

-- Segments, one after another, for a receiver with a window of 32 bytes.
all_text : TcpSock → List Segment → Option TcpSock
unfolding recv_text
all_text tsk [] = some tsk
all_text tsk (seg ∷ segs) = elim (recv_text tsk seg) [
  | none ↦ none
  | some (tsk', seg') ↦ all_text tsk' segs
]

abbrev small : TcpSock
small = record receiver { rcv_wnd = 32; rcv_reass = [] }

-- the bytes from 106 to 113, out of order while 100 is awaited
abbrev ahead : Segment
ahead = text_at 106 (106 ∷ 107 ∷ 108 ∷ 109 ∷ 110 ∷ 111 ∷ 112 ∷ 113 ∷ [])

-- A segment that waits comes a second time, and is put behind its first copy; when the gap in front
-- of them is filled, the assertion on the second copy fails.
twice_aborts : all_text small (ahead ∷ ahead ∷ segment ∷ []) ≡ none
unfolding all_text recv_from recv_later recv_next tcp_segment_reass reass_at insert_reass
    write_reass tcp_write_buf write_cbuf write_loop alloc_cbuf reass_place drop_covered
    adjacent_head
twice_aborts = refl

-- a socket that listens, and the number 1 for the next one
abbrev listener : TcpSock
listener = record fresh_sock { state = listen; backlog = pos 2 }

abbrev server : Tcp
server = record {
  socks = λ j. elim j [ zero ↦ listener | suc n ↦ fresh_sock ];
  next_sk = 1;
  etable = λ k. [];
  ltable = λ k. [];
  btable = λ k. [];
  bfree = pos 0x7001;
  defport = 0x8000;
  next_iss = 12345678;
  tcp_id = 1;
  timewait = [];
  routes = [];
  out = [];
}

abbrev syn_segment : Segment
syn_segment = record segment { tcphdr = record (plain_hdr 80 8080 0 0 0) { syn = true } }

tcp_process-Goes_example :
    MayGo (next_state server (some 0) syn_segment) (tcp_process server (some 0) syn_segment)
tcp_process-Goes_example = tcp_process-Goes server (some 0) syn_segment refl

-- a connection with nothing out of order
abbrev steady : TcpSock
steady = record receiver { rcv_reass = []; snd_una = 400; snd_nxt = 600 }

abbrev connected : Tcp
connected = record server { socks = λ j. elim j [ zero ↦ steady | suc n ↦ fresh_sock ] }

steady-IsReady : IsReady bytes steady
steady-IsReady = record {
  receiver = record {
    buffered = record {
      valid = receiver-IsReceiver.buffered.valid;
      window = receiver-IsReceiver.buffered.window;
      bounded = receiver-IsReceiver.buffered.bounded;
      counted = receiver-IsReceiver.buffered.counted;
    };
    apart = tt;
  };
  in_order = refl;
}

tcp_process_delivers_example :
    (st' : Tcp) × (tcp_process connected (some 0) segment ≡ some st')
    × Goes (next_state connected (some 0) segment) st'
    × HasReceived bytes steady (st'.socks 0)
tcp_process_delivers_example =
    tcp_process_delivers bytes 0 segment segment-IsSegment connected steady-IsReady established_peer
      refl refl

segment-HasNews : HasNews steady segment
segment-HasNews = record {
  buffered = steady-IsReady.receiver.buffered;
  in_order = refl;
  enough = omega arith;
  low = omega arith;
  high = omega arith;
  open_ = omega arith;
}

-- The two bytes that have been received before are left out.
tcp_process-Took_example :
    (st' : Tcp) × (tcp_process connected (some 0) segment ≡ some st')
    × Took steady (room_for steady segment) (new_bytes steady segment) (st'.socks 0)
unfolding seq_check
tcp_process-Took_example =
    tcp_process-Took 0 segment connected segment-HasNews refl refl refl refl refl refl (omega arith)
