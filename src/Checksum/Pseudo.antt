-- ===== src/Checksum/Pseudo.antt =====
-- tcp_set_checksum, udp_set_checksum and their checks: the checksums over the pseudo header.
use tapip.Base.{
  ℕ, ◌+◌, ◌-◌, ◌%◌, ◌^◌, ◌≤◌, ◌<◌, ◌≡◌, ◌≢◌, ap, ◌∙◌, sym, List, ◌==◌, if◌then◌else◌, drop, length,
  htons, arith,
}
use tapip.Checksum.{
  word_at, checksum, pseudo_sum, tcp_udp_chksum, tcp_chksum, udp_chksum, ip_p_tcp, ip_p_udp,
  set_word, tcp_set_checksum, udp_set_checksum,
}
use tapip.Checksum.Sum.{
  AllBytes, total, ones_complement, checksum_lem, checksum_wrapped, set_word-set_word,
  total-set_word, complement_sum, word_at-set_word,
}
use tapip.Checksum.Header.{AllBytes-set_word, checksum-set_word}

-- A segment whose checksum tcp_set_checksum has filled in passes the test of tcp_in, if the
-- segment's words, added to the sum of the pseudo header, leave room for a checksum in 32 bits.
pub tcp_chksum-tcp_set_checksum :
    (src dst len : ℕ) (seg : List ℕ)
    → AllBytes seg
    → 18 ≤ len
    → 18 ≤ length seg
    → pseudo_sum src dst ip_p_tcp len + total (set_word seg 16 0) len + 65535 < 2 ^ 32
    → tcp_chksum src dst len (tcp_set_checksum src dst len seg) ≡ 0
unfolding tcp_chksum tcp_set_checksum
tcp_chksum-tcp_set_checksum src dst len seg h g l lt =
    let o : ℕ = pseudo_sum src dst ip_p_tcp len in
    let c : ℕ = checksum (set_word seg 16 0) len o in
    ap (λ bytes. checksum bytes len o) (set_word-set_word 16 seg 0 c)
    ∙ checksum-set_word 8 seg len o h g l lt

filled :
    (s c : ℕ)
    → s + 65535 < 2 ^ 32
    → c ≡ 65535 - ones_complement s
    → 65535 - ones_complement (s + (if c == 0 then 0xffff else c)) ≡ 0
filled s c h e = ground (arith, complement_sum s h)

-- A datagram whose checksum udp_set_checksum has filled in carries a checksum other than 0, and
-- passes the test of udp_in, if its words, added to the sum of the pseudo header, leave room for a
-- checksum in 32 bits.
pub udp_chksum-udp_set_checksum :
    (src dst len : ℕ) (dgram : List ℕ)
    → AllBytes dgram
    → 8 ≤ len
    → 8 ≤ length dgram
    → pseudo_sum src dst ip_p_udp len + total (set_word dgram 6 0) len + 65535 < 2 ^ 32
    → (udp_chksum src dst len (udp_set_checksum src dst len dgram) ≡ 0)
      × (word_at (drop 6 (udp_set_checksum src dst len dgram)) ≢ 0)
unfolding udp_chksum udp_set_checksum
udp_chksum-udp_set_checksum src dst len dgram h g l lt =
    let o : ℕ = pseudo_sum src dst ip_p_udp len in
    let cleared : List ℕ = set_word dgram 6 0 in
    let t : ℕ = total cleared len in
    let c : ℕ = checksum cleared len o in
    let v : ℕ = if c == 0 then 0xffff else c in
    let e : c ≡ 65535 - ones_complement (o + t) =
      checksum_lem cleared len o (AllBytes-set_word dgram 6 0 h (omega arith)) (omega arith) in
    let b : (v < 2 ^ 16) × (0 < v) = ground arith in
    let s : total (set_word dgram 6 v) len ≡ t + v = total-set_word 3 dgram len v g l in
    (
      ap (λ bytes. checksum bytes len o) (set_word-set_word 6 dgram 0 v)
          ∙ checksum_lem (set_word dgram 6 v) len o (AllBytes-set_word dgram 6 v h b.0)
              (omega arith)
          ∙ ap (λ i. 65535 - ones_complement i) {y = o + t + v} (omega arith)
          ∙ filled (o + t) c lt e,
      λ z. absurd (
          omega (
            arith,
            z,
            b,
            ap (λ bytes. word_at (drop 6 bytes)) (set_word-set_word 6 dgram 0 v),
            word_at-set_word 3 dgram v l b.0,
          )),
    )

-- The sum of RFC 793 and RFC 768 over pseudo header and data, unbounded. Addresses stand in it as
-- the little-endian numbers that the code keeps, which is the same sum up to multiples of 65535.
abbrev pub rfc_sum : ℕ → ℕ → ℕ → ℕ → List ℕ → ℕ
rfc_sum src dst proto len bytes = htons proto + htons len + src + dst + total bytes len

-- While the true sum stays below 2 ^ 32, the checksum is the complement of the RFC's sum.
pub tcp_udp_chksum-eq-rfc :
    (src dst proto len : ℕ) (bytes : List ℕ)
    → AllBytes bytes
    → rfc_sum src dst proto len bytes < 2 ^ 32
    → tcp_udp_chksum src dst proto len bytes
      ≡ 65535 - ones_complement (rfc_sum src dst proto len bytes)
unfolding tcp_udp_chksum
tcp_udp_chksum-eq-rfc src dst proto len bytes h lt =
    let e : pseudo_sum src dst proto len ≡ htons proto + htons len + src + dst = omega arith in
    checksum_lem bytes len (pseudo_sum src dst proto len) h (omega arith)
    ∙ ap (λ i. 65535 - ones_complement (i + total bytes len)) e

ones_complement_carry :
    (s : ℕ)
    → 2 ^ 32 ≤ s
    → s < 2 ^ 32 + 2 ^ 32
    → 65535 - ones_complement (s % 2 ^ 32) ≢ 65535 - ones_complement s
ones_complement_carry s h g = ground arith

-- Once the true sum needs a 33rd bit, that carry is lost: the checksum is never the RFC's.
pub tcp_udp_chksum-ne-rfc :
    (src dst proto len : ℕ) (bytes : List ℕ)
    → AllBytes bytes
    → 2 ^ 32 ≤ rfc_sum src dst proto len bytes
    → rfc_sum src dst proto len bytes < 2 ^ 32 + 2 ^ 32
    → tcp_udp_chksum src dst proto len bytes
      ≢ 65535 - ones_complement (rfc_sum src dst proto len bytes)
unfolding tcp_udp_chksum
tcp_udp_chksum-ne-rfc src dst proto len bytes h lo hi e =
    ones_complement_carry (rfc_sum src dst proto len bytes) lo hi (
      ap (λ i. 65535 - ones_complement i) same
      ∙ sym (checksum_wrapped bytes len (pseudo_sum src dst proto len) h (omega arith))
      ∙ e)
  where
    same :
        rfc_sum src dst proto len bytes % 2 ^ 32
        ≡ (pseudo_sum src dst proto len + total bytes len) % 2 ^ 32
    same = omega arith
