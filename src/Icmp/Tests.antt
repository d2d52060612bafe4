-- ===== src/Icmp/Tests.antt =====
-- ICMP at small examples.
use tapip.Base.{ℕ, ◌<◌, ◌≡◌, ◌↔◌, refl, List, [], ◌∷◌, arith}
use tapip.Checksum.{icmp_chksum, checksum, sum}
use tapip.Checksum.Sum.{total}
use tapip.Icmp.{echo_reply}
use tapip.Icmp.Echo.{icmp_chksum-echo_reply}

abbrev request : List ℕ
request = 8 ∷ 0 ∷ 0xf6 ∷ 0xff ∷ 1 ∷ 0 ∷ 0 ∷ 0 ∷ []

request_ok : icmp_chksum request 8 ≡ 0
unfolding icmp_chksum checksum sum
request_ok = refl

icmp_chksum-echo_reply_example :
    (icmp_chksum (echo_reply request) 8 ≡ 0) ↔ (0 < total (echo_reply request) 8)
icmp_chksum-echo_reply_example =
    icmp_chksum-echo_reply request 8
      (
        omega arith,
        (
          omega arith,
          (
            omega arith,
            (omega arith, (omega arith, (omega arith, (omega arith, (omega arith, tt))))),
          ),
        ),
      )
      (omega arith) (omega arith) (omega arith) refl request_ok
