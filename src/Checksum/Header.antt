-- ===== src/Checksum/Header.antt =====
-- ip_set_checksum and ip_chksum of lib/checksum.c: what is sent is what ip_in accepts.
use tapip.Base.{
  ℕ, zero, suc, ◌+◌, ◌-◌, ◌*◌, ◌/◌, ◌%◌, ◌^◌, ◌≤◌, ◌<◌, ◌≡◌, ap, ◌∙◌, List, [], ◌∷◌, set, length,
  length-set, arith,
}
use tapip.Checksum.{checksum, ip_chksum, set_word, iphlen, ip_set_checksum}
use tapip.Checksum.Sum.{
  AllBytes, AllBytes-set, total, ones_complement, checksum_lem, double, total-set_word,
  set_word-set_word, complement_sum,
}

-- A total of 16-bit words is bounded by their number.
pub total-le : (bytes : List ℕ) (size : ℕ) → AllBytes bytes → total bytes size ≤ size * 65535
unfolding total
total-le bytes zero h = omega arith
total-le [] (suc zero) h = omega arith
total-le (a ∷ bytes) (suc zero) h = omega (arith, h.0)
total-le [] (suc (suc size)) h = omega (arith, total-le [] size h)
total-le (a ∷ []) (suc (suc size)) h = omega (arith, total-le [] size tt, h.0)
total-le (a ∷ b ∷ bytes) (suc (suc size)) h = omega (arith, total-le bytes size h.1.1, h.0, h.1.0)

pub AllBytes-set_word :
    (bytes : List ℕ) (i v : ℕ) → AllBytes bytes → v < 2 ^ 16 → AllBytes (set_word bytes i v)
AllBytes-set_word bytes i v h lt =
    AllBytes-set (set bytes i (v % 2 ^ 8)) (suc i) (v / 2 ^ 8)
      (AllBytes-set bytes i (v % 2 ^ 8) h (omega arith)) (omega arith)

pub length-set_word : (bytes : List ℕ) (i v : ℕ) → length (set_word bytes i v) ≡ length bytes
length-set_word bytes i v =
    length-set (set bytes i (v % 2 ^ 8)) (suc i) (v / 2 ^ 8) ∙ length-set bytes i (v % 2 ^ 8)

-- Storing the complement of the sum over a cleared field makes the sum come out as all ones, with
-- o the sum of a pseudo header.
pub checksum-set_word :
    (k : ℕ) (bytes : List ℕ) (size o : ℕ)
    → AllBytes bytes
    → double k + 2 ≤ size
    → double k + 2 ≤ length bytes
    → o + total (set_word bytes (double k) 0) size + 65535 < 2 ^ 32
    → checksum (set_word bytes (double k) (checksum (set_word bytes (double k) 0) size o)) size o
      ≡ 0
checksum-set_word k bytes size o h g l lt =
    let t : ℕ = total (set_word bytes (double k) 0) size in
    let c : ℕ = checksum (set_word bytes (double k) 0) size o in
    let e : c ≡ 65535 - ones_complement (o + t) =
      checksum_lem (set_word bytes (double k) 0) size o
        (AllBytes-set_word bytes (double k) 0 h (omega arith)) (omega arith) in
    let b : c < 2 ^ 16 = omega arith in
    let s : total (set_word bytes (double k) c) size ≡ t + c = total-set_word k bytes size c g l in
    let o' : o + total (set_word bytes (double k) c) size
        ≡ o + t + (65535 - ones_complement (o + t)) =
      omega arith in
    checksum_lem (set_word bytes (double k) c) size o (AllBytes-set_word bytes (double k) c h b)
      (omega arith)
    ∙ ap (λ i. 65535 - ones_complement i) o'
    ∙ ap (λ i. 65535 - i) (complement_sum (o + t) (omega arith))

-- A header whose checksum ip_set_checksum has filled in passes the test of ip_in, if its length
-- field covers the checksum and does not reach past the header's bytes.
pub ip_chksum-ip_set_checksum :
    (hdr : List ℕ)
    → AllBytes hdr
    → 12 ≤ iphlen hdr
    → 12 ≤ length hdr
    → ip_chksum (ip_set_checksum hdr) (iphlen (ip_set_checksum hdr)) ≡ 0
unfolding ip_chksum ip_set_checksum
ip_chksum-ip_set_checksum [] h g l = absurd (omega arith)
ip_chksum-ip_set_checksum (b ∷ hdr) h g l =
    let cleared : List ℕ = set_word (b ∷ hdr) 10 0 in
    let size : ℕ = iphlen (b ∷ hdr) in
    let c : ℕ = checksum cleared size 0 in
    ap (λ bytes. checksum bytes size 0) (set_word-set_word 10 (b ∷ hdr) 0 c)
    ∙ checksum-set_word 5 (b ∷ hdr) size 0 h g l
        (omega (arith, total-le cleared size (AllBytes-set_word (b ∷ hdr) 10 0 h (omega arith))))
