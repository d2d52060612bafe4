-- ===== src/Cbuf/Read.antt =====
-- read_cbuf of lib/cbuf.c: the loop ends, keeps the invariant and takes the oldest bytes.
use tapip.Base.{
  ℕ, zero, suc, ◌+◌, ◌-◌, ◌%◌, ◌≤◌, ◌<◌, ◌≡◌, refl, ap, ap₂, ◌∙◌, sym, List, [], ◌∷◌, ◌++◌, min,
  Option, some, arith, take, drop, get_or,
}
use mathlib.Core.List.{append_assoc, append-nil}
use native.Mathlib.Decide.{dec_lt, dec_le}
use native.Mathlib.Nat.{mod-eq-sub-mod}
use tapip.Cbuf.{Cbuf, tail_index, used, tail_right, copy_out, read_loop, read_cbuf, update_io_point}
use tapip.Cbuf.Inv.{IsLive, IsValid, mod-eq-reduced, head_index_lem, tail_index_lem}
use tapip.Cbuf.Span.{span, contents, span-add, copy_out-span}

-- the buffer after a round that took n bytes
abbrev advance : Cbuf → ℕ → Cbuf
advance c n = record c { tail = c.tail + n }

module _ {c : Cbuf} (v : IsLive c) (n : ℕ) (held : n ≤ used c) where
  advance-IsLive : IsLive (advance c n)
  advance-IsLive = omega (arith, v.sized, v.ordered, v.fits, v.below)

  contents-advance :
      (m l : ℕ)
      → n + m ≡ l
      → span c.buf c.size c.tail l ≡ span c.buf c.size c.tail n ++ span c.buf c.size (c.tail + n) m
  contents-advance m l e = span-add c.buf c.size c.tail n m l e

  tail_right_fits : n ≤ tail_right c → tail_index c + n ≤ c.size
  tail_right_fits right =
      ground (arith, v.ordered, v.fits, v.below, head_index_lem v, tail_index_lem v)

-- The loop ended after len bytes from the read point.
record Took (c : Cbuf) (out : List ℕ) (len : ℕ) (r : Option (List ℕ × Cbuf)) : Type 0 where
  returns : r ≡ some (out ++ span c.buf c.size c.tail len, advance c len)

read_loop_done :
    (fuel : ℕ) {c : Cbuf} (out : List ℕ) (len : ℕ)
    → len ≡ 0
    → Took c out len (read_loop (suc fuel) c out len)
unfolding read_loop
read_loop_done fuel {c} out len e = record {
  returns =
      rw e (ap₂ (λ o t. some (o, record c { tail = t })) (sym (append-nil out)) (omega arith));
}

module _ (fuel : ℕ) {c : Cbuf} (out : List ℕ) (len : ℕ) (v : IsLive c) where
  abbrev block : ℕ
  block = min (tail_right c) len

  read_loop_next :
      0 < len
      → len ≤ used c
      → Took
          (advance c block)
          (out ++ span c.buf c.size c.tail block)
          (len - block)
          (read_loop fuel (advance c block) (out ++ span c.buf c.size c.tail block) (len - block))
      → Took c out len (read_loop (suc fuel) c out len)
  unfolding read_loop
  read_loop_next h held w = record {
    returns =
        ground (arith, enters)
        ∙ w.returns
        ∙ ap₂ (λ o t. some (o, record c { tail = t }))
            (append_assoc out (span c.buf c.size c.tail block)
                (span c.buf c.size (c.tail + block) (len - block))
              ∙ ap (λ k. out ++ k)
                  (sym (contents-advance v block (omega arith) (len - block) len (omega arith))))
            (omega arith);
  }
    where
      enters : copy_out c.buf (tail_index c) block ≡ span c.buf c.size c.tail block
      enters =
          copy_out-span c.buf c.size c.tail block
            (tail_right_fits v block (omega arith) (omega arith))

read_loop_one :
    (fuel : ℕ) {c : Cbuf} (out : List ℕ) (len : ℕ)
    → IsLive c
    → len ≤ used c
    → len ≤ tail_right c
    → Took c out len (read_loop (suc (suc fuel)) c out len)
read_loop_one fuel {c} out len v held right = elim (dec_lt 0 len) [
  | yes h ↦ read_loop_next (suc fuel) out len v h held (
      read_loop_done fuel (out ++ span c.buf c.size c.tail (min (tail_right c) len))
        (len - min (tail_right c) len) (omega arith))
  | no h ↦ read_loop_done (suc fuel) out len (omega arith)
]

second_round :
    {c : Cbuf} (len : ℕ)
    → IsLive c
    → len ≤ used c
    → tail_right c < len
    → IsLive (advance c (tail_right c))
    → len - tail_right c ≤ tail_right (advance c (tail_right c))
second_round {c} len v held more v' = ground (
  arith,
  v.ordered,
  v.fits,
  v.below,
  v'.ordered,
  head_index_lem v,
  tail_index_lem v,
  mod-eq-reduced (c.tail + tail_right c) c.size (omega (arith, v'.ordered, v'.below)),
)

read_loop_lem :
    {c : Cbuf} (len : ℕ) → IsLive c → len ≤ used c → Took c [] len (read_loop 3 c [] len)
read_loop_lem {c} len v held = elim (dec_le len (tail_right c)) [
  | yes h ↦ read_loop_one 1 [] len v held h
  | no h ↦
      let e : min (tail_right c) len ≡ tail_right c = omega arith in
      let v' = advance-IsLive v (min (tail_right c) len) (omega arith) in
      read_loop_next 2 [] len v (omega arith) held (
        read_loop_one 0 (span c.buf c.size c.tail (min (tail_right c) len))
          (len - min (tail_right c) len) v' (omega (arith, v.ordered))
          (rw e (second_round len v held (omega arith) (rw e at v'))))
]

-- Bringing the read point back below the size leaves the bytes where they are.
span-sub_size :
    (buf : List ℕ) (size k n : ℕ) → size ≤ k → span buf size k n ≡ span buf size (k - size) n
span-sub_size buf size k zero h = refl
span-sub_size buf size k (suc n) h =
    ap₂ ◌∷◌ (ap (λ i. get_or buf i 0) (mod-eq-sub-mod h))
      (span-sub_size buf size (k + 1) n (omega arith) ∙ ap (λ i. span buf size i n) (omega arith))

update_io_point-IsValid : {c : Cbuf} → IsLive c → 0 < c.size → IsValid (update_io_point c)
unfolding update_io_point
update_io_point-IsValid v h = ground (arith, v.sized, v.ordered, v.fits, v.below)

contents-update_io_point : {c : Cbuf} → IsLive c → contents (update_io_point c) ≡ contents c
unfolding update_io_point
contents-update_io_point {c} v = elim (dec_le c.size c.tail) [
  | yes h ↦
      ground (
        arith,
        v.ordered,
        span-sub_size c.buf c.size c.tail (c.head - c.size - (c.tail - c.size)) h,
      )
  | no h ↦ ground arith
]

size-update_io_point : (c : Cbuf) → (update_io_point c).size ≡ c.size
unfolding update_io_point
size-update_io_point c = ground arith

take-span :
    (buf : List ℕ) (size k m n : ℕ)
    → m ≤ n
    → (take m (span buf size k n) ≡ span buf size k m)
      × (drop m (span buf size k n) ≡ span buf size (k + m) (n - m))
take-span buf size k zero n h = (refl, ap₂ (span buf size) (omega arith) (omega arith))
take-span buf size k (suc m) zero h = absurd (omega arith)
take-span buf size k (suc m) (suc n) h =
    let (t, d) = take-span buf size (k + 1) m n (omega arith) in
    (ap (λ r. get_or buf (k % size) 0 ∷ r) t, d ∙ ap₂ (span buf size) (omega arith) (omega arith))

-- Reading from a valid buffer always returns: it gives the oldest bytes, as many as were asked for
-- and held, keeps the others in order, and leaves a valid buffer of the same size.
pub read_cbuf-contents :
    {c : Cbuf} (size : ℕ)
    → IsValid c
    → (c' : Cbuf) × (read_cbuf (some c) size
        ≡ some (min (used c) size, take (min (used c) size) (contents c), some c'))
      × IsValid c'
      × (contents c' ≡ drop (min (used c) size) (contents c))
      × (c'.size ≡ c.size)
unfolding read_cbuf
read_cbuf-contents {c} size v =
    let n : ℕ = min (used c) size in
    let live = advance-IsLive v.live n (omega arith) in
    let (t, d) = take-span c.buf c.size c.tail n (used c) (omega arith) in
    let w = read_loop_lem n v.live (omega arith) in
    (
      update_io_point (advance c n),
      rw (w.returns, t, read_cbuf) refl,
      update_io_point-IsValid live (omega (arith, v.tail_in)),
      contents-update_io_point live ∙ ap (span c.buf c.size (c.tail + n)) (omega arith) ∙ sym d,
      size-update_io_point (advance c n),
    )
