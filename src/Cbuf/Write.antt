-- ===== src/Cbuf/Write.antt =====
-- write_cbuf of lib/cbuf.c: the loop ends, keeps the invariant and appends what it was given.
use tapip.Base.{
  ℕ, suc, ◌+◌, ◌-◌, ◌%◌, ◌≤◌, ◌<◌, ◌≡◌, refl, ap, ap₂, ◌∙◌, sym, List, ◌++◌, min, Option, some,
  arith, length, take, drop, length-take, length-drop, take-add, get_or, ◌⊎◌, inl, inr,
}
use mathlib.Core.List.{append_assoc, append-nil}
use native.Mathlib.Decide.{dec_lt, dec_le}
use tapip.Cbuf.{
  Cbuf, head_index, free, head_right, copy_in, copy_out, write_block, write_loop, write_cbuf,
}
use tapip.Cbuf.Inv.{IsLive, IsValid, mod-eq-reduced, head_index_lem, tail_index_lem}
use tapip.Cbuf.Span.{
  span, contents, span-add, copy_out-span, length-copy_in, get_or-copy_in_before,
  get_or-copy_in_after, copy_out-copy_in, span_ext,
}

module _ {c : Cbuf} (v : IsLive c) (n : ℕ) (room : n ≤ free c) (right : n ≤ head_right c) where
  -- The block lies in the array, and away from the bytes that wait to be read.
  block_fits : head_index c + n ≤ c.size
  block_fits =
      ground (arith, v.sized, v.ordered, v.fits, v.below, head_index_lem v, tail_index_lem v)

  block_apart :
      (j : ℕ)
      → c.tail ≤ j
      → j < c.head
      → (j % c.size < head_index c) ⊎ (head_index c + n ≤ j % c.size)
  block_apart j p q = ground (
    arith,
    v.ordered,
    v.fits,
    v.below,
    head_index_lem v,
    tail_index_lem v,
    mod-eq-reduced j c.size (omega (arith, v.below)),
  )

  module _ (src : List ℕ) (given : n ≤ length src) where
    length_block : length (take n src) ≡ n
    length_block = omega (arith, length-take n src)

    pub contents-write_block : contents (write_block c src n) ≡ contents c ++ take n src
    contents-write_block =
        span-add b c.size c.tail (c.head - c.tail) n (c.head + n - c.tail)
          (omega (arith, v.ordered))
        ∙ ap₂ ◌++◌ (span_ext b c.buf c.size c.tail (c.head - c.tail) old)
            (ap (λ k. span b c.size k n) (omega (arith, v.ordered)) ∙ new)
      where
        b : List ℕ
        b = copy_in c.buf (head_index c) (take n src)

        old :
            (j : ℕ)
            → c.tail ≤ j
            → j < c.tail + (c.head - c.tail)
            → get_or b (j % c.size) 0 ≡ get_or c.buf (j % c.size) 0
        old j p q = elim (block_apart j p (omega (arith, v.ordered))) [
          | inl below ↦ get_or-copy_in_before c.buf (head_index c) (take n src) (j % c.size) below
          | inr above ↦
              get_or-copy_in_after c.buf (head_index c) (take n src) (j % c.size)
                (omega (arith, length_block))
        ]

        new : span b c.size c.head n ≡ take n src
        new =
            sym (copy_out-span b c.size c.head n block_fits)
            ∙ ap (λ k. copy_out b (head_index c) k) (sym length_block)
            ∙ copy_out-copy_in c.buf (head_index c) (take n src)
                (omega (arith, length_block, block_fits, v.sized))

    pub write_block-IsLive : c.head + n < c.size + c.size → IsLive (write_block c src n)
    write_block-IsLive h =
        omega (arith, length-copy_in c.buf (head_index c) (take n src), v.sized, v.ordered, v.fits)

-- The loop ended with len more bytes of src behind what the buffer held.
record Wrote (c : Cbuf) (src : List ℕ) (len : ℕ) (r : Option Cbuf) : Type 0 where
  out : Cbuf
  returns : r ≡ some out
  valid : IsValid out
  appended : contents out ≡ contents c ++ take len src
  same_size : out.size ≡ c.size

write_loop_done :
    (fuel : ℕ) {c : Cbuf} (src : List ℕ) (len : ℕ)
    → len ≡ 0
    → IsValid c
    → Wrote c src len (write_loop (suc fuel) c src len)
unfolding write_loop
write_loop_done fuel {c} src len e v = record {
  out = c;
  returns = rw e refl;
  valid = v;
  appended = rw e (sym (append-nil (contents c)));
  same_size = refl;
}

module _ (fuel : ℕ) {c : Cbuf} (src : List ℕ) (len : ℕ) (v : IsValid c) where
  abbrev block : ℕ
  block = min (head_right c) len

  block-IsValid : len ≤ free c → len ≤ length src → IsValid (write_block c src block)
  block-IsValid room given = record {
    live =
        write_block-IsLive v.live block (omega arith) (omega arith) src (omega arith)
          (omega (arith, v.live.fits, v.live.ordered, v.tail_in));
    tail_in = v.tail_in;
  }

  write_loop_next :
      0 < len
      → len ≤ free c
      → len ≤ length src
      → Wrote
          (write_block c src block)
          (drop block src)
          (len - block)
          (write_loop fuel (write_block c src block) (drop block src) (len - block))
      → Wrote c src len (write_loop (suc fuel) c src len)
  unfolding write_loop
  write_loop_next h room given w = record {
    out = w.out;
    returns = ground (arith, w.returns);
    valid = w.valid;
    appended =
        w.appended
        ∙ ap (λ k. k ++ take (len - block) (drop block src))
            (contents-write_block v.live block (omega arith) (omega arith) src (omega arith))
        ∙ append_assoc (contents c) (take block src) (take (len - block) (drop block src))
        ∙ ap (λ k. contents c ++ k) (sym (take-add block (len - block) len src (omega arith)));
    same_size = w.same_size;
  }

-- Bytes that fit to the right of the write point take one round.
write_loop_one :
    (fuel : ℕ) {c : Cbuf} (src : List ℕ) (len : ℕ)
    → IsValid c
    → len ≤ free c
    → len ≤ head_right c
    → len ≤ length src
    → Wrote c src len (write_loop (suc (suc fuel)) c src len)
write_loop_one fuel {c} src len v room right given = elim (dec_lt 0 len) [
  | yes h ↦ write_loop_next (suc fuel) src len v h room given (
      write_loop_done fuel (drop (min (head_right c) len) src) (len - min (head_right c) len)
        (omega arith) (block-IsValid (suc fuel) src len v room given))
  | no h ↦ write_loop_done (suc fuel) src len (omega arith) v
]

-- After a round that ran into the end of the array, the rest fits.
second_round :
    {c : Cbuf} (src : List ℕ) (len : ℕ)
    → IsValid c
    → len ≤ free c
    → head_right c < len
    → IsLive (write_block c src (head_right c))
    → len - head_right c ≤ head_right (write_block c src (head_right c))
second_round {c} src len v room more v' = ground (
  arith,
  v.live.ordered,
  v.live.fits,
  v.live.below,
  v.tail_in,
  v'.below,
  head_index_lem v.live,
  tail_index_lem v.live,
  mod-eq-reduced (c.head + head_right c) c.size v'.below,
)

write_loop_lem :
    {c : Cbuf} (src : List ℕ) (len : ℕ)
    → IsValid c
    → len ≤ free c
    → len ≤ length src
    → Wrote c src len (write_loop 3 c src len)
write_loop_lem {c} src len v room given = elim (dec_le len (head_right c)) [
  | yes h ↦ write_loop_one 1 src len v room h given
  | no h ↦
      let v' = block-IsValid 2 src len v room given in
      let e : min (head_right c) len ≡ head_right c = omega arith in
      write_loop_next 2 src len v (omega arith) room given (
        write_loop_one 0 (drop (min (head_right c) len) src) (len - min (head_right c) len) v'
          (omega (arith, v.live.ordered, v.live.fits))
          (rw e (second_round src len v room (omega arith) (rw e at v'.live)))
          (omega (arith, length-drop (min (head_right c) len) src)))
]

-- Writing to a valid buffer always returns: it takes as many bytes as there is room for, appends
-- exactly those to what the buffer holds, and leaves a valid buffer of the same size.
pub write_cbuf-contents :
    {c : Cbuf} (src : List ℕ) (size : ℕ)
    → IsValid c
    → size ≤ length src
    → (c' : Cbuf) × (write_cbuf (some c) src size ≡ some (min (free c) size, some c'))
      × IsValid c'
      × (contents c' ≡ contents c ++ take (min (free c) size) src)
      × (c'.size ≡ c.size)
unfolding write_cbuf
write_cbuf-contents {c} src size v given =
    let w = write_loop_lem src (min (free c) size) v (omega arith) (omega arith) in
    (w.out, rw (w.returns, write_cbuf) refl, w.valid, w.appended, w.same_size)
