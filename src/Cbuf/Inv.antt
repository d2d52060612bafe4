-- ===== src/Cbuf/Inv.antt =====
-- include/cbuf.h: the invariant of the circular buffer, and its indices without `%`.
use tapip.Base.{ℕ, ◌+◌, ◌-◌, ◌%◌, ◌≤◌, ◌<◌, ◌≡◌, ltb, if◌then◌else◌, arith, length}
use native.Mathlib.Nat.{mod-eq_of_lt, mod-eq-sub-mod}
use native.Mathlib.Decide.{dec_lt}
use tapip.Cbuf.{Cbuf, head_index, tail_index}

-- what holds between the rounds of a loop
pub record IsLive (c : Cbuf) : Type 0 where
  pub sized : length c.buf ≡ c.size
  pub ordered : c.tail ≤ c.head
  pub fits : c.head ≤ c.tail + c.size
  pub below : c.head < c.size + c.size

-- what holds between calls: the read point has been brought below the size
pub record IsValid (c : Cbuf) : Type 0 where
  pub live : IsLive c
  pub tail_in : c.tail < c.size

abbrev pub reduced : ℕ → ℕ → ℕ
reduced x s = if ltb x s then x else x - s

pub mod-eq-reduced : (x s : ℕ) → x < s + s → x % s ≡ reduced x s
mod-eq-reduced x s h = elim (dec_lt x s) [
  | yes p ↦ ground (arith, mod-eq_of_lt p)
  | no p ↦ ground (
    arith,
    mod-eq-sub-mod {n = x} {m = s} (omega arith),
    mod-eq_of_lt {n = x - s} {m = s} (omega arith),
  )
]

pub head_index_lem : {c : Cbuf} → IsLive c → head_index c ≡ reduced c.head c.size
head_index_lem {c} v = mod-eq-reduced c.head c.size v.below

pub tail_index_lem : {c : Cbuf} → IsLive c → tail_index c ≡ reduced c.tail c.size
tail_index_lem {c} v = mod-eq-reduced c.tail c.size (omega (arith, v.ordered, v.below))
