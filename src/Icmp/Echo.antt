-- ===== src/Icmp/Echo.antt =====
-- icmp_echo_request of ip/icmp.c: the checksum of the reply.
use tapip.Base.{
  ℕ, zero, suc, ◌+◌, ◌-◌, ◌*◌, ◌/◌, ◌%◌, ◌^◌, ◌≤◌, ◌<◌, ◌≡◌, ◌↔◌, ap, sym, ◌∙◌, List, [], ◌∷◌, u16,
  leb, if◌then◌else◌, arith, get_or, length,
}
use tapip.Checksum.{icmp_chksum}
use tapip.Checksum.Sum.{AllBytes, total, ones_complement, checksum_lem}
use tapip.Checksum.Header.{total-le}
use tapip.Icmp.{echo_reply, t_echoreq}

abbrev adjusted : ℕ → ℕ
adjusted cksum = u16 (cksum + (if leb (0xffff - t_echoreq) cksum then t_echoreq + 1 else t_echoreq))

-- Adjusting keeps the sum a multiple of 65535.
adjusted_lem :
    (a c t : ℕ)
    → c < 2 ^ 16
    → 65535 - ones_complement (8 + a + c + t) ≡ 0
    → (65535 - ones_complement (a + adjusted c + t) ≡ 0) ↔ (0 < a + adjusted c + t)
adjusted_lem a c t lt e = ground arith

-- An echo request that passes the checksum test of icmp_in is turned into a reply whose
-- checksum is right exactly if the words of the reply are not all 0.
pub icmp_chksum-echo_reply :
    (icmp : List ℕ) (len : ℕ)
    → AllBytes icmp
    → 8 ≤ len
    → len < 2 ^ 16
    → len ≤ length icmp
    → get_or icmp 0 0 ≡ t_echoreq
    → icmp_chksum icmp len ≡ 0
    → (icmp_chksum (echo_reply icmp) len ≡ 0) ↔ (0 < total (echo_reply icmp) len)
unfolding icmp_chksum echo_reply total
icmp_chksum-echo_reply [] len h ge lt fits type ok = absurd (omega arith)
icmp_chksum-echo_reply (a ∷ []) len h ge lt fits type ok = absurd (omega arith)
icmp_chksum-echo_reply (a ∷ b ∷ []) len h ge lt fits type ok = absurd (omega arith)
icmp_chksum-echo_reply (a ∷ b ∷ x ∷ []) len h ge lt fits type ok = absurd (omega arith)
icmp_chksum-echo_reply (a ∷ b ∷ x ∷ y ∷ icmp) zero h ge lt fits type ok = absurd (omega arith)
icmp_chksum-echo_reply (a ∷ b ∷ x ∷ y ∷ icmp) (suc zero) h ge lt fits type ok = absurd (omega arith)
icmp_chksum-echo_reply (a ∷ b ∷ x ∷ y ∷ icmp) (suc (suc zero)) h ge lt fits type ok =
    absurd (omega arith)
icmp_chksum-echo_reply (a ∷ b ∷ x ∷ y ∷ icmp) (suc (suc (suc zero))) h ge lt fits type ok =
    absurd (omega arith)
icmp_chksum-echo_reply (a ∷ b ∷ x ∷ y ∷ icmp) (suc (suc (suc (suc n)))) h ge lt fits type ok =
    let len = suc (suc (suc (suc n))) in
    let c = x + 256 * y in
    let w = adjusted c in
    let reply = 0 ∷ b ∷ (w % 256) ∷ (w / 256) ∷ icmp in
    let bytes : AllBytes reply = (omega arith, (h.1.0, (omega arith, (omega arith, h.1.1.1.1)))) in
    let before =
      checksum_lem (a ∷ b ∷ x ∷ y ∷ icmp) len 0 h
        (omega (arith, total-le (a ∷ b ∷ x ∷ y ∷ icmp) len h)) in
    let now = checksum_lem reply len 0 bytes (omega (arith, total-le reply len bytes)) in
    let old : 0 + total (a ∷ b ∷ x ∷ y ∷ icmp) len ≡ 8 + 256 * b + c + total icmp n =
      omega (arith, type) in
    let new : 0 + total reply len ≡ 256 * b + w + total icmp n = omega arith in
    let iff =
      adjusted_lem (256 * b) c (total icmp n) (omega (arith, h.1.1.0, h.1.1.1.0))
        (ap (λ i. 65535 - ones_complement i) (sym old) ∙ sym before ∙ ok) in
    (
      λ p. omega (arith, new, iff.0 (ap (λ i. 65535 - ones_complement i) (sym new) ∙ sym now ∙ p)),
      λ pos. now ∙ ap (λ i. 65535 - ones_complement i) new ∙ iff.1 (omega (arith, new)),
    )
