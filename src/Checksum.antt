-- ===== src/Checksum.antt =====
-- lib/checksum.c: the Internet checksum of IP, ICMP, TCP and UDP.
-- A pointer to unsigned short is the list of the bytes behind it; the host is little-endian.
pub mod Sum
mod Tests
pub mod Header
pub mod Pseudo
use tapip.Base.{
  ℕ, zero, suc, ◌+◌, ◌-◌, ◌*◌, ◌/◌, ◌%◌, ◌^◌, List, [], ◌∷◌, ◌==◌, if◌then◌else◌, get_or, set, drop,
  add32, u16, htons,
}

-- *data as an unsigned short
abbrev pub word_at : List ℕ → ℕ
word_at bytes = get_or bytes 0 0 + 2 ^ 8 * get_or bytes 1 0

-- The loop takes two bytes a round; a byte that is left over is padded to the right.
unfoldable pub sum : List ℕ → ℕ → ℕ → ℕ
sum bytes zero origsum = origsum
sum bytes (suc zero) origsum = add32 origsum (htons (get_or bytes 0 0 % 2 ^ 8 * 2 ^ 8))
sum bytes (suc (suc size)) origsum = sum (drop 2 bytes) size (add32 origsum (word_at bytes))

-- (origsum & 0xffff) + (origsum >> 16)
abbrev pub fold : ℕ → ℕ
fold s = s % 2 ^ 16 + s / 2 ^ 16

-- ~origsum & 0xffff, after two folds
unfoldable pub checksum : List ℕ → ℕ → ℕ → ℕ
checksum bytes size origsum = (2 ^ 32 - 1 - fold (fold (sum bytes size origsum))) % 2 ^ 16

unfoldable pub ip_chksum : List ℕ → ℕ → ℕ
ip_chksum bytes size = checksum bytes size 0

unfoldable pub icmp_chksum : List ℕ → ℕ → ℕ
icmp_chksum bytes size = checksum bytes size 0

-- the sum that the pseudo header starts with
abbrev pub pseudo_sum : ℕ → ℕ → ℕ → ℕ → ℕ
pseudo_sum src dst proto len = add32 (add32 (htons proto + htons len) src) dst

unfoldable pub tcp_udp_chksum : ℕ → ℕ → ℕ → ℕ → List ℕ → ℕ
tcp_udp_chksum src dst proto len bytes = checksum bytes len (pseudo_sum src dst proto len)

abbrev pub ip_p_tcp : ℕ
ip_p_tcp = 6

abbrev pub ip_p_udp : ℕ
ip_p_udp = 17

unfoldable pub tcp_chksum : ℕ → ℕ → ℕ → List ℕ → ℕ
unfolding tcp_udp_chksum
tcp_chksum src dst len bytes = tcp_udp_chksum src dst ip_p_tcp len bytes

unfoldable pub udp_chksum : ℕ → ℕ → ℕ → List ℕ → ℕ
unfolding tcp_udp_chksum
udp_chksum src dst len bytes = tcp_udp_chksum src dst ip_p_udp len bytes

-- A field of two bytes is stored at a byte index.
abbrev pub set_word : List ℕ → ℕ → ℕ → List ℕ
set_word bytes i v = set (set bytes i (v % 2 ^ 8)) (suc i) (v / 2 ^ 8)

-- iphlen: the low four bits of the first byte, in units of four bytes
abbrev pub iphlen : List ℕ → ℕ
iphlen hdr = get_or hdr 0 0 % 2 ^ 4 * 4

-- ip_cksum stands at byte 10 of the header.
pub ip_set_checksum : List ℕ → List ℕ
unfolding ip_chksum
ip_set_checksum hdr =
    let cleared = set_word hdr 10 0 in set_word cleared 10 (ip_chksum cleared (iphlen cleared))

-- The checksum of struct tcp stands at byte 16; len is ipndlen(iphdr).
pub tcp_set_checksum : ℕ → ℕ → ℕ → List ℕ → List ℕ
unfolding tcp_udp_chksum
tcp_set_checksum src dst len seg =
    let cleared = set_word seg 16 0 in
    set_word cleared 16 (tcp_udp_chksum src dst ip_p_tcp len cleared)

-- The checksum of struct udp stands at byte 6; len is _ntohs(udphdr->length). The value 0 means no
-- checksum, so 0xffff is sent for it.
pub udp_set_checksum : ℕ → ℕ → ℕ → List ℕ → List ℕ
unfolding tcp_udp_chksum
udp_set_checksum src dst len dgram =
    let cleared = set_word dgram 6 0 in
    let sum = tcp_udp_chksum src dst ip_p_udp len cleared in
    set_word cleared 6 (if sum == 0 then 0xffff else sum)
