-- ===== src/Tcp/Send.antt =====
-- tcp/tcp_text.c: the text that a user sends, cut into segments.
use tapip.Base.{
  ℕ, zero, suc, ◌+◌, ◌-◌, ◌^◌, List, Option, none, some, Bool, true, ◌==◌, ltb, leb, if◌then◌else◌,
  min, drop, take, add32, sub32, htons, htonl,
}
use tapip.Net.{ip_hrd_sz}
use tapip.Tcp.{TcpHdr, TcpSock, Tcp, fault, modify, emit}
use tapip.Tcp.Hdr.{tcp_hrd_sz}
use tapip.Tcp.Out.{new_pkb, plain_hdr, tcp_send_out, tcp_send_ack}

-- the header of tcp_init_text, with the psh that tcp_send_text gives the last segment
unfoldable pub text_hdr : TcpSock → Bool → TcpHdr
text_hdr tsk is_last =
    record (plain_hdr tsk.sk.sk_sport tsk.sk.sk_dport (htonl tsk.snd_nxt) (htonl tsk.rcv_nxt)
      (htons tsk.rcv_wnd)) { ack = true; psh = is_last }

-- the counters of tcp_init_text
abbrev pub sent : ℕ → TcpSock → TcpSock
sent size tsk = record tsk { snd_nxt = add32 tsk.snd_nxt size; snd_wnd = sub32 tsk.snd_wnd size }

-- one round: the first n bytes of what is left
unfoldable pub send_piece : Tcp → ℕ → List ℕ → ℕ → Bool → Tcp
send_piece st i buf n is_last =
    tcp_send_out (modify st i (sent n)) (some i)
      (new_pkb (text_hdr (st.socks i) is_last) (take n buf)) none

-- The loop with `left` bytes to send; `none` means that the fuel ran out.
unfoldable pub send_loop : ℕ → Tcp → ℕ → ℕ → List ℕ → ℕ → Option Tcp
send_loop zero st i segsize buf left = none
send_loop (suc fuel) st i segsize buf left =
    let n = min segsize left in
    let rest = send_loop fuel (send_piece st i buf n (leb left n)) i n (drop n buf) (left - n) in
    if ltb 0 left then rest else some st

-- min(len, (int)tsk->snd_wnd), where a window of 2 ^ 31 or more is negative
abbrev pub sendable : TcpSock → ℕ → ℕ
sendable tsk len = if ltb tsk.snd_wnd (2 ^ 31) then min len tsk.snd_wnd else 0

-- the rest of tcp_send_text once the loop is done
abbrev pub send_result : ℕ → Tcp → ℕ → Option ℕ × Tcp
send_result slen st i = if slen == 0 then (none, tcp_send_ack st i none) else (some slen, st)

-- The result is the number of bytes sent, or -1, written `none`. The fuel is one more than that
-- number. sk_dst is followed without a test, and the route of a device with room for no text makes
-- the loop run on.
unfoldable pub tcp_send_text : Tcp → ℕ → List ℕ → ℕ → Option (Option ℕ × Tcp)
tcp_send_text st i buf len = elim ((st.socks i).sk.sk_dst) [
  | none ↦ some (none, emit st fault)
  | some rt ↦
      let len' = sendable (st.socks i) len in
      elim (send_loop (suc len') st i (rt.rt_dev.net_mtu - (ip_hrd_sz + tcp_hrd_sz)) buf len') [
        | none ↦ none
        | some st' ↦ some (send_result len' st' i)
      ]
]
