-- ===== src/Checksum/Sum.antt =====
-- The sum of lib/checksum.c against the one's complement sum of RFC 1071.
use tapip.Base.{
  ℕ, zero, suc, ◌+◌, ◌-◌, ◌*◌, ◌%◌, ◌^◌, ◌≤◌, ◌<◌, ◌≡◌, refl, ap, List, [], ◌∷◌, ◌==◌,
  if◌then◌else◌, get_or, set, drop, length, add32, htons, arith,
}
use tapip.Checksum.{word_at, sum, fold, checksum, set_word}

-- The bytes are bytes.
abbrev pub AllBytes : List ℕ → Type 0
AllBytes [] = Unit {0}
AllBytes (b ∷ bytes) = (b < 256) × AllBytes bytes

-- The sum of the 16-bit words of the first size bytes, as an unbounded number.
unfoldable pub total : List ℕ → ℕ → ℕ
total bytes zero = 0
total bytes (suc zero) = get_or bytes 0 0
total bytes (suc (suc size)) = word_at bytes + total (drop 2 bytes) size

-- RFC 1071: the one's complement sum has 0xffff for every multiple of it but 0.
abbrev pub ones_complement : ℕ → ℕ
ones_complement s = if s == 0 then 0 else (s - 1) % 65535 + 1

AllBytes-head : (bytes : List ℕ) → AllBytes bytes → get_or bytes 0 0 < 256
AllBytes-head [] h = omega arith
AllBytes-head (b ∷ bytes) h = h.0

pub AllBytes-drop : (bytes : List ℕ) → AllBytes bytes → AllBytes (drop 2 bytes)
AllBytes-drop [] h = tt
AllBytes-drop (a ∷ []) h = tt
AllBytes-drop (a ∷ b ∷ bytes) h = h.1.1

htons_shifted : (b : ℕ) → b < 256 → htons (b % 2 ^ 8 * 2 ^ 8) ≡ b
unfolding htons
htons_shifted b h = omega arith

-- The loop adds up modulo 2 ^ 32.
pub sum_lem :
    (bytes : List ℕ) (size o : ℕ)
    → AllBytes bytes
    → o < 2 ^ 32
    → sum bytes size o ≡ (o + total bytes size) % 2 ^ 32
unfolding sum total
sum_lem bytes zero o h lt = omega arith
sum_lem bytes (suc zero) o h lt =
    omega (arith, htons_shifted (get_or bytes 0 0) (AllBytes-head bytes h))
sum_lem bytes (suc (suc size)) o h lt = omega (
  arith,
  sum_lem (drop 2 bytes) size (add32 o (word_at bytes)) (AllBytes-drop bytes h) (omega arith),
)

pub fold-fold : (s : ℕ) → s < 2 ^ 32 → fold (fold s) ≡ ones_complement s
fold-fold s h = ground arith

-- Where the sum does not pass 2 ^ 32, the checksum is the complement of the RFC's sum.
pub checksum_lem :
    (bytes : List ℕ) (size o : ℕ)
    → AllBytes bytes
    → o + total bytes size < 2 ^ 32
    → checksum bytes size o ≡ 65535 - ones_complement (o + total bytes size)
unfolding checksum
checksum_lem bytes size o h lt =
    ground (arith, sum_lem bytes size o h (omega arith), fold-fold (o + total bytes size) lt)

-- In general it is the complement of the sum that is left modulo 2 ^ 32.
pub checksum_wrapped :
    (bytes : List ℕ) (size o : ℕ)
    → AllBytes bytes
    → o < 2 ^ 32
    → checksum bytes size o ≡ 65535 - ones_complement ((o + total bytes size) % 2 ^ 32)
unfolding checksum
checksum_wrapped bytes size o h lt =
    ground
      (arith, sum_lem bytes size o h lt, fold-fold ((o + total bytes size) % 2 ^ 32) (omega arith))

abbrev pub double : ℕ → ℕ
double zero = zero
double (suc k) = suc (suc (double k))

-- A word stored at an even index adds itself to the total.
pub total-set_word :
    (k : ℕ) (bytes : List ℕ) (size v : ℕ)
    → double k + 2 ≤ size
    → double k + 2 ≤ length bytes
    → total (set_word bytes (double k) v) size ≡ total (set_word bytes (double k) 0) size + v
unfolding total
total-set_word zero [] size v h g = absurd (omega arith)
total-set_word zero (a ∷ []) size v h g = absurd (omega arith)
total-set_word zero (a ∷ b ∷ bytes) zero v h g = absurd (omega arith)
total-set_word zero (a ∷ b ∷ bytes) (suc zero) v h g = absurd (omega arith)
total-set_word zero (a ∷ b ∷ bytes) (suc (suc size)) v h g = omega arith
total-set_word (suc k) [] size v h g = absurd (omega arith)
total-set_word (suc k) (a ∷ []) size v h g = absurd (omega arith)
total-set_word (suc k) (a ∷ b ∷ bytes) zero v h g = absurd (omega arith)
total-set_word (suc k) (a ∷ b ∷ bytes) (suc zero) v h g = absurd (omega arith)
total-set_word (suc k) (a ∷ b ∷ bytes) (suc (suc size)) v h g =
    omega (arith, total-set_word k bytes size v (omega arith) (omega arith))

pub AllBytes-set : (bytes : List ℕ) (i v : ℕ) → AllBytes bytes → v < 256 → AllBytes (set bytes i v)
AllBytes-set [] i v h lt = tt
AllBytes-set (b ∷ bytes) zero v h lt = (lt, h.1)
AllBytes-set (b ∷ bytes) (suc i) v h lt = (h.0, AllBytes-set bytes i v h.1 lt)

-- Writing the same word twice leaves the second.
pub set_word-set_word :
    (i : ℕ) (bytes : List ℕ) (v w : ℕ) → set_word (set_word bytes i v) i w ≡ set_word bytes i w
set_word-set_word i [] v w = refl
set_word-set_word zero (a ∷ []) v w = refl
set_word-set_word zero (a ∷ b ∷ bytes) v w = refl
set_word-set_word (suc i) (a ∷ bytes) v w = ap (λ r. a ∷ r) (set_word-set_word i bytes v w)

pub complement_sum :
    (s : ℕ) → s + 65535 < 2 ^ 32 → ones_complement (s + (65535 - ones_complement s)) ≡ 65535
complement_sum s h = ground arith

-- A word that was stored is read back.
pub word_at-set_word :
    (k : ℕ) (bytes : List ℕ) (v : ℕ)
    → double k + 2 ≤ length bytes
    → v < 2 ^ 16
    → word_at (drop (double k) (set_word bytes (double k) v)) ≡ v
word_at-set_word zero [] v g h = absurd (omega arith)
word_at-set_word zero (a ∷ []) v g h = absurd (omega arith)
word_at-set_word zero (a ∷ b ∷ bytes) v g h = omega arith
word_at-set_word (suc k) [] v g h = absurd (omega arith)
word_at-set_word (suc k) (a ∷ []) v g h = absurd (omega arith)
word_at-set_word (suc k) (a ∷ b ∷ bytes) v g h = word_at-set_word k bytes v (omega arith) h
