-- ===== src/Tcp/Hdr/Trip.antt =====
-- A TCP header written as bytes and read again.
use tapip.Base.{ℕ, ◌+◌, ◌*◌, ◌/◌, ◌%◌, ◌^◌, ◌<◌, ◌≡◌, List, ◌++◌, Bool, ◌==◌, arith}
use tapip.Checksum.{word_at}
use tapip.Tcp.{TcpHdr}
use tapip.Tcp.Hdr.{bit, hdr_bytes, read_hdr}

-- The numbers of a header fit into their fields.
pub record IsHdr (h : TcpHdr) : Type 0 where
  pub src_fits : h.src < 2 ^ 16
  pub dst_fits : h.dst < 2 ^ 16
  pub seq_fits : h.seq < 2 ^ 32
  pub ackn_fits : h.ackn < 2 ^ 32
  pub doff_fits : h.doff < 2 ^ 4
  pub window_fits : h.window < 2 ^ 16
  pub checksum_fits : h.checksum < 2 ^ 16
  pub urgptr_fits : h.urgptr < 2 ^ 16

word_trip : (w : ℕ) → w < 2 ^ 16 → w % 2 ^ 8 + 2 ^ 8 * (w / 2 ^ 8 % 2 ^ 8) ≡ w
word_trip w h = omega arith

long_trip :
    (w : ℕ)
    → w < 2 ^ 32
    → w % 2 ^ 8
        + 2 ^ 8 * (w / 2 ^ 8 % 2 ^ 8)
        + 2 ^ 16 * (w / 2 ^ 16 % 2 ^ 8 + 2 ^ 8 * (w / 2 ^ 16 / 2 ^ 8 % 2 ^ 8))
      ≡ w
long_trip w h = omega arith

-- a bit of the sum of six bits
abbrev nth : ℕ → Bool → Bool → Bool → Bool → Bool → Bool → Bool
nth k a b c d e f =
    (bit a + 2 * bit b + 4 * bit c + 8 * bit d + 16 * bit e + 32 * bit f) / 2 ^ k % 2 == 1

nth_trip :
    (a b c d e f : Bool)
    → (nth 0 a b c d e f ≡ a)
      × (nth 1 a b c d e f ≡ b)
      × (nth 2 a b c d e f ≡ c)
      × (nth 3 a b c d e f ≡ d)
      × (nth 4 a b c d e f ≡ e)
      × (nth 5 a b c d e f ≡ f)
nth_trip a b c d e f =
    (ground arith, ground arith, ground arith, ground arith, ground arith, ground arith)

-- A header whose numbers fit is read back from its 20 bytes, whatever text follows.
pub read_hdr-hdr_bytes : (h : TcpHdr) (text : List ℕ) → IsHdr h → read_hdr (hdr_bytes h ++ text) ≡ h
unfolding read_hdr hdr_bytes
read_hdr-hdr_bytes h text v =
    let bits = nth_trip h.fin h.syn h.rst h.psh h.ack h.urg in
    let src : word_at (hdr_bytes h ++ text) ≡ h.src = word_trip h.src v.src_fits in
    let dst = word_trip h.dst v.dst_fits in
    let seq = long_trip h.seq v.seq_fits in
    let ackn = long_trip h.ackn v.ackn_fits in
    let doff : h.doff * 16 / 16 ≡ h.doff = omega arith in
    let window = word_trip h.window v.window_fits in
    let checksum = word_trip h.checksum v.checksum_fits in
    let urgptr = word_trip h.urgptr v.urgptr_fits in
    λ i. record {
      src = src i;
      dst = dst i;
      seq = seq i;
      ackn = ackn i;
      doff = doff i;
      fin = bits.0 i;
      syn = bits.1 i;
      rst = bits.2 i;
      psh = bits.3 i;
      ack = bits.4 i;
      urg = bits.5 i;
      window = window i;
      checksum = checksum i;
      urgptr = urgptr i;
    }
