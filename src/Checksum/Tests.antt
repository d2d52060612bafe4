-- ===== src/Checksum/Tests.antt =====
-- lib/checksum.c at concrete packets.
use tapip.Base.{ℕ, ◌-◌, ◌≡◌, ◌≢◌, refl, List, [], ◌∷◌, drop, replicate, htons, arith}
use tapip.Checksum.{
  sum, checksum, ip_chksum, tcp_chksum, udp_chksum, tcp_udp_chksum, ip_set_checksum,
  tcp_set_checksum, udp_set_checksum, iphlen, word_at, ip_p_tcp,
}
use tapip.Checksum.Sum.{AllBytes, total, ones_complement}
use tapip.Checksum.Header.{ip_chksum-ip_set_checksum}
use tapip.Checksum.Pseudo.{
  tcp_chksum-tcp_set_checksum, udp_chksum-udp_set_checksum, rfc_sum, tcp_udp_chksum-eq-rfc,
  tcp_udp_chksum-ne-rfc,
}

-- 10.0.0.1 to 10.0.0.2, no data
abbrev header : List ℕ
header =
    0x45 ∷ 0 ∷ 0 ∷ 20 ∷ 0 ∷ 1 ∷ 0 ∷ 0 ∷ 64 ∷ 6 ∷ 0xaa ∷ 0xbb ∷ 10 ∷ 0 ∷ 0 ∷ 1 ∷ 10 ∷ 0 ∷ 0 ∷ 2 ∷ []

abbrev segment : List ℕ
segment = replicate 20 7

abbrev datagram : List ℕ
datagram = 1 ∷ 2 ∷ 3 ∷ 4 ∷ 0 ∷ 9 ∷ 0 ∷ 0 ∷ 200 ∷ []

header-AllBytes : AllBytes header
header-AllBytes = omega arith

segment-AllBytes : AllBytes segment
segment-AllBytes = omega arith

datagram-AllBytes : AllBytes datagram
datagram-AllBytes = omega arith

odd_length : ip_chksum (1 ∷ 2 ∷ 3 ∷ []) 3 ≡ 0xfdfb
unfolding ip_chksum checksum sum htons
odd_length = refl

ip_chksum-ip_set_checksum_example :
    ip_chksum (ip_set_checksum header) (iphlen (ip_set_checksum header)) ≡ 0
ip_chksum-ip_set_checksum_example =
    ip_chksum-ip_set_checksum header header-AllBytes (omega arith) (omega arith)

tcp_chksum-tcp_set_checksum_example :
    tcp_chksum 0x0100000a 0x0200000a 20 (tcp_set_checksum 0x0100000a 0x0200000a 20 segment) ≡ 0
unfolding total htons
tcp_chksum-tcp_set_checksum_example =
    tcp_chksum-tcp_set_checksum 0x0100000a 0x0200000a 20 segment segment-AllBytes (omega arith)
      (omega arith) (omega arith)

udp_chksum-udp_set_checksum_example :
    (udp_chksum 0x0100000a 0x0200000a 9 (udp_set_checksum 0x0100000a 0x0200000a 9 datagram) ≡ 0)
    × (word_at (drop 6 (udp_set_checksum 0x0100000a 0x0200000a 9 datagram)) ≢ 0)
unfolding total htons
udp_chksum-udp_set_checksum_example =
    udp_chksum-udp_set_checksum 0x0100000a 0x0200000a 9 datagram datagram-AllBytes (omega arith)
      (omega arith) (omega arith)

tcp_udp_chksum-eq-rfc_example :
    tcp_udp_chksum 0x0100000a 0x0200000a ip_p_tcp 20 segment
    ≡ 65535 - ones_complement (rfc_sum 0x0100000a 0x0200000a ip_p_tcp 20 segment)
unfolding total htons
tcp_udp_chksum-eq-rfc_example =
    tcp_udp_chksum-eq-rfc 0x0100000a 0x0200000a ip_p_tcp 20 segment segment-AllBytes (omega arith)

-- 10.0.0.200 to 10.0.0.100: the last octets alone carry over.
tcp_udp_chksum-ne-rfc_example :
    tcp_udp_chksum 0xc800000a 0x6400000a ip_p_tcp 20 segment
    ≢ 65535 - ones_complement (rfc_sum 0xc800000a 0x6400000a ip_p_tcp 20 segment)
unfolding total htons
tcp_udp_chksum-ne-rfc_example =
    tcp_udp_chksum-ne-rfc 0xc800000a 0x6400000a ip_p_tcp 20 segment segment-AllBytes (omega arith)
      (omega arith)
