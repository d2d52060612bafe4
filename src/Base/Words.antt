-- ===== src/Base/Words.antt =====
-- Unsigned machine words: casts, wrapping arithmetic and the byte order of the network.
use Prim.Native.Nat.{ℕ, ◌+◌, ◌-◌, ◌*◌, ◌/◌, ◌%◌, ◌^◌, ◌<◌}
use mathlib.Core.Path.{◌≡◌}
use native.Mathlib.Omega.{arith}

abbrev pub u16 : ℕ → ℕ
u16 n = n % 2 ^ 16

abbrev pub u32 : ℕ → ℕ
u32 n = n % 2 ^ 32

-- unsigned int a + b and a - b
abbrev pub add32 : ℕ → ℕ → ℕ
add32 a b = (a + b) % 2 ^ 32

abbrev pub sub32 : ℕ → ℕ → ℕ
sub32 a b = (a + 2 ^ 32 - b) % 2 ^ 32

-- _htons and _ntohs: the low 16 bits with their two bytes exchanged. The fields that `|` joins
-- are disjoint, so the sum stands for it.
unfoldable pub htons : ℕ → ℕ
htons host = host / 2 ^ 8 % 2 ^ 8 + host % 2 ^ 8 * 2 ^ 8

-- _htonl and _ntohl
unfoldable pub htonl : ℕ → ℕ
htonl host =
    host % 2 ^ 8 * 2 ^ 24
    + host / 2 ^ 8 % 2 ^ 8 * 2 ^ 16
    + host / 2 ^ 16 % 2 ^ 8 * 2 ^ 8
    + host / 2 ^ 24 % 2 ^ 8

pub htons-lt : (x : ℕ) → htons x < 2 ^ 16
unfolding htons
htons-lt x = omega arith

-- Swapping twice gives a 16-bit value back.
pub htons-htons : (x : ℕ) → x < 2 ^ 16 → htons (htons x) ≡ x
unfolding htons
htons-htons x h = omega arith

-- Swapping twice gives a 32-bit value back.
pub htonl-htonl : (x : ℕ) → x < 2 ^ 32 → htonl (htonl x) ≡ x
unfolding htonl
htonl-htonl x h = omega arith
