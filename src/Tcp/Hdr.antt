-- ===== src/Tcp/Hdr.antt =====
-- tcp/tcp_in.c and the bit fields of include/tcp.h: a TCP header as bytes, and struct tcp_segment.
pub mod Trip
pub mod Wire
use tapip.Base.{
  ℕ, ◌+◌, ◌-◌, ◌*◌, ◌/◌, ◌%◌, ◌^◌, List, ◌∷◌, ◌++◌, Bool, ◌==◌, if◌then◌else◌, get_or, drop, add32,
  sub32, u32, htons, htonl,
}
use tapip.Net.{Ip, iphlen, word_bytes, long_bytes}
use tapip.Checksum.{word_at}
use tapip.Tcp.{TcpHdr, Segment}

abbrev pub tcp_hrd_sz : ℕ
tcp_hrd_sz = 20

-- TCP_HRD_DOFF
abbrev pub tcp_hrd_doff : ℕ
tcp_hrd_doff = 5

-- tcphlen
abbrev pub tcphlen : TcpHdr → ℕ
tcphlen h = h.doff * 4

abbrev pub bit : Bool → ℕ
bit b = if b then 1 else 0

-- the byte of the control bits, from fin in bit 0 up to urg in bit 5
abbrev pub control_bits : TcpHdr → ℕ
control_bits h =
    bit h.fin + 2 * bit h.syn + 4 * bit h.rst + 8 * bit h.psh + 16 * bit h.ack + 32 * bit h.urg

unfoldable pub hdr_bytes : TcpHdr → List ℕ
hdr_bytes h =
    word_bytes h.src
    ++ (word_bytes h.dst
        ++ (long_bytes h.seq
            ++ (long_bytes h.ackn
                ++ (h.doff * 16 ∷ control_bits h ∷ word_bytes h.window
                    ++ (word_bytes h.checksum ++ word_bytes h.urgptr)))))

-- bit k of the control byte
abbrev pub control_bit : List ℕ → ℕ → Bool
control_bit bytes k = get_or bytes 13 0 / 2 ^ k % 2 == 1

-- an unsigned int at an offset
abbrev pub long_at : List ℕ → ℕ
long_at bytes = word_at bytes + 2 ^ 16 * word_at (drop 2 bytes)

-- the structure that lies in the first 20 bytes
unfoldable pub read_hdr : List ℕ → TcpHdr
read_hdr bytes = record {
  src = word_at bytes;
  dst = word_at (drop 2 bytes);
  seq = long_at (drop 4 bytes);
  ackn = long_at (drop 8 bytes);
  doff = get_or bytes 12 0 / 16;
  fin = control_bit bytes 0;
  syn = control_bit bytes 1;
  rst = control_bit bytes 2;
  psh = control_bit bytes 3;
  ack = control_bit bytes 4;
  urg = control_bit bytes 5;
  window = word_at (drop 14 bytes);
  checksum = word_at (drop 16 bytes);
  urgptr = word_at (drop 18 bytes);
}

-- The IP header is in host order, and its data begins with the TCP header.
unfoldable pub tcp_segment_init : Ip → TcpHdr → Segment
tcp_segment_init iphdr h =
    let seq = htonl h.seq in
    let dlen = u32 (iphdr.ip_len - iphlen iphdr + 2 ^ 32 - tcphlen h) in
    let len = add32 (add32 dlen (bit h.syn)) (bit h.fin) in
    record {
      seg_seq = seq;
      seg_ack = if h.ack then htonl h.ackn else 0;
      lastseq = if len == 0 then seq else sub32 (add32 seq len) 1;
      len = len;
      dlen = dlen;
      wnd = htons h.window;
      up = htons h.urgptr;
      text = drop (tcphlen h) iphdr.ip_data;
      ip_src = iphdr.ip_src;
      ip_dst = iphdr.ip_dst;
      tcphdr = h;
    }
