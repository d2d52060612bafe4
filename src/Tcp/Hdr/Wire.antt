-- ===== src/Tcp/Hdr/Wire.antt =====
-- A TCP header as RFC 793 lays it out, against struct tcp and tcp_segment_init of tcp/tcp_in.c.
use tapip.Base.{
  ℕ, zero, suc, ◌+◌, ◌*◌, ◌/◌, ◌%◌, ◌^◌, ◌<◌, ◌≡◌, refl, sym, ap, ◌∙◌, List, [], ◌∷◌, ◌++◌, Bool,
  if◌then◌else◌, drop, length, length-append, htons, htonl, htons-lt, htons-htons, htonl-htonl,
  arith,
}
use mathlib.Core.Path.{subst}
use mathlib.Core.List.{append_assoc}
use tapip.Net.{Ip, iphlen, word_bytes, long_bytes}
use tapip.Tcp.{TcpHdr, Segment}
use tapip.Tcp.Hdr.{bit, control_bits, hdr_bytes, read_hdr, tcp_segment_init}
use tapip.Tcp.Hdr.Trip.{IsHdr, read_hdr-hdr_bytes}

-- the most significant byte first
abbrev pub be16 : ℕ → List ℕ
be16 w = w / 2 ^ 8 ∷ w % 2 ^ 8 ∷ []

abbrev pub be32 : ℕ → List ℕ
be32 w = be16 (w / 2 ^ 16) ++ be16 (w % 2 ^ 16)

-- bits as a number, the most significant first
abbrev pub binary : ℕ → List Bool → ℕ
binary n [] = n
binary n (b ∷ bits) = binary (2 * n + bit b) bits

-- The 20 bytes of a header whose numbers are in host order: the ports, the sequence and the
-- acknowledgement number, the data offset above four reserved bits, two bits that are not used with URG,
-- ACK, PSH, RST, SYN and FIN, the window, the checksum and the urgent pointer.
abbrev pub wire_bytes : TcpHdr → List ℕ
wire_bytes h =
    be16 h.src
    ++ (be16 h.dst
        ++ (be32 h.seq
            ++ (be32 h.ackn
                ++ (16 * h.doff
                      ∷ binary 0 (h.urg ∷ h.ack ∷ h.psh ∷ h.rst ∷ h.syn ∷ h.fin ∷ [])
                      ∷ be16 h.window
                    ++ (be16 h.checksum ++ be16 h.urgptr)))))

-- the fields as the structure holds them
abbrev pub in_network : TcpHdr → TcpHdr
in_network h = record h {
  src = htons h.src;
  dst = htons h.dst;
  seq = htonl h.seq;
  ackn = htonl h.ackn;
  window = htons h.window;
  checksum = htons h.checksum;
  urgptr = htons h.urgptr;
}

word_bytes-htons : (w : ℕ) → w < 2 ^ 16 → word_bytes (htons w) ≡ be16 w
unfolding htons
word_bytes-htons w l =
    let high : htons w % 2 ^ 8 ≡ w / 2 ^ 8 = omega arith in
    let low : htons w / 2 ^ 8 % 2 ^ 8 ≡ w % 2 ^ 8 = omega arith in λ i. high i ∷ low i ∷ []

long_bytes-htonl : (w : ℕ) → w < 2 ^ 32 → long_bytes (htonl w) ≡ be32 w
unfolding htonl
long_bytes-htonl w l =
    let a : htonl w % 2 ^ 8 ≡ w / 2 ^ 16 / 2 ^ 8 = omega arith in
    let b : htonl w / 2 ^ 8 % 2 ^ 8 ≡ w / 2 ^ 16 % 2 ^ 8 = omega arith in
    let c : htonl w / 2 ^ 16 % 2 ^ 8 ≡ w % 2 ^ 16 / 2 ^ 8 = omega arith in
    let d : htonl w / 2 ^ 16 / 2 ^ 8 % 2 ^ 8 ≡ w % 2 ^ 16 % 2 ^ 8 = omega arith in
    λ i. a i ∷ b i ∷ c i ∷ d i ∷ []

hdr_bytes-in_network : (h : TcpHdr) → IsHdr h → hdr_bytes (in_network h) ≡ wire_bytes h
unfolding hdr_bytes
hdr_bytes-in_network h v =
    let doff : h.doff * 16 ≡ 16 * h.doff = omega arith in
    let bits : control_bits h ≡ binary 0 (h.urg ∷ h.ack ∷ h.psh ∷ h.rst ∷ h.syn ∷ h.fin ∷ []) =
      omega arith in
    λ i.
      word_bytes-htons h.src v.src_fits i
      ++ (word_bytes-htons h.dst v.dst_fits i
          ++ (long_bytes-htonl h.seq v.seq_fits i
              ++ (long_bytes-htonl h.ackn v.ackn_fits i
                  ++ (doff i ∷ bits i ∷ word_bytes-htons h.window v.window_fits i
                      ++ (word_bytes-htons h.checksum v.checksum_fits i
                          ++ word_bytes-htons h.urgptr v.urgptr_fits i)))))

htonl-lt : (w : ℕ) → htonl w < 2 ^ 32
unfolding htonl
htonl-lt w = omega arith

in_network-IsHdr : (h : TcpHdr) → IsHdr h → IsHdr (in_network h)
in_network-IsHdr h v = record {
  src_fits = htons-lt h.src;
  dst_fits = htons-lt h.dst;
  seq_fits = htonl-lt h.seq;
  ackn_fits = htonl-lt h.ackn;
  doff_fits = v.doff_fits;
  window_fits = htons-lt h.window;
  checksum_fits = htons-lt h.checksum;
  urgptr_fits = htons-lt h.urgptr;
}

drop-append : (n : ℕ) (xs ys : List ℕ) → n ≡ length xs → drop n (xs ++ ys) ≡ ys
drop-append zero [] ys e = refl
drop-append zero (x ∷ xs) ys e = absurd (omega arith)
drop-append (suc n) [] ys e = absurd (omega arith)
drop-append (suc n) (x ∷ xs) ys e = drop-append n xs ys (omega arith)

-- The segment holds the header's numbers in host order, and the text.
pub record IsParsed (h : TcpHdr) (text : List ℕ) (seg : Segment) : Type 0 where
  pub hdr : seg.tcphdr ≡ in_network h
  pub seq : seg.seg_seq ≡ h.seq
  pub ack : seg.seg_ack ≡ (if h.ack then h.ackn else 0)
  pub wnd : seg.wnd ≡ h.window
  pub up : seg.up ≡ h.urgptr
  pub dlen : seg.dlen ≡ length text
  pub all_text : seg.text ≡ text

-- A packet that carries the 20 bytes that RFC 793 gives a header, the options that its data offset
-- counts, and a text, whose length field is right and below 2 ^ 32: struct tcp reads every field and
-- control bit of the header, in network order, and tcp_segment_init makes of it the segment with the
-- header's numbers in host order and exactly the text.
pub tcp_segment_init-wire_bytes :
    (iphdr : Ip) (h : TcpHdr) (options text : List ℕ)
    → IsHdr h
    → 20 + length options ≡ h.doff * 4
    → iphdr.ip_data ≡ wire_bytes h ++ (options ++ text)
    → iphdr.ip_len ≡ iphlen iphdr + h.doff * 4 + length text
    → iphdr.ip_len < 2 ^ 32
    → IsParsed h text (tcp_segment_init iphdr (read_hdr iphdr.ip_data))
unfolding tcp_segment_init
tcp_segment_init-wire_bytes iphdr h options text v o d l small =
    let parsed : read_hdr iphdr.ip_data ≡ in_network h =
      ap read_hdr d
      ∙ ap (λ b. read_hdr (b ++ (options ++ text))) (sym (hdr_bytes-in_network h v))
      ∙ read_hdr-hdr_bytes (in_network h) (options ++ text) (in_network-IsHdr h v) in
    subst (λ r. IsParsed h text (tcp_segment_init iphdr r)) (sym parsed)
      (record {
        hdr = refl;
        seq = htonl-htonl h.seq v.seq_fits;
        ack = ap (λ a. if h.ack then a else 0) (htonl-htonl h.ackn v.ackn_fits);
        wnd = htons-htons h.window v.window_fits;
        up = htons-htons h.urgptr v.urgptr_fits;
        dlen = omega arith;
        all_text =
            ap (drop (h.doff * 4)) (d ∙ sym (append_assoc (wire_bytes h) options text))
            ∙ drop-append (h.doff * 4) (wire_bytes h ++ options) text
                (sym o ∙ sym (length-append (wire_bytes h) options));
      })
