-- ===== src/Cbuf.antt =====
-- lib/cbuf.c and include/cbuf.h: the circular buffer behind a TCP receive queue.
-- An int field is a number: none goes below 0 while the invariant of Inv holds.
pub mod Inv
mod Tests
pub mod Span
pub mod Write
pub mod Read
use tapip.Base.{
  ℕ, zero, suc, ◌+◌, ◌-◌, ◌%◌, min, List, [], ◌∷◌, ◌++◌, Option, none, some, Bool, true, false, ltb,
  leb, if◌then◌else◌, get_or, set, take, drop, replicate,
}

pub record Cbuf : Type 0 where
  pub head : ℕ
  pub tail : ℕ
  pub size : ℕ
  pub buf : List ℕ

unfoldable pub alloc_cbuf : ℕ → Cbuf
alloc_cbuf size = record { head = 0; tail = 0; size = size; buf = replicate size 0 }

-- _CBUFHEAD and _CBUFTAIL: the index of the write point and of the read point
abbrev pub head_index : Cbuf → ℕ
head_index c = c.head % c.size

abbrev pub tail_index : Cbuf → ℕ
tail_index c = c.tail % c.size

-- CBUFUSED and CBUFFREE
abbrev pub used : Cbuf → ℕ
used c = c.head - c.tail

abbrev pub free : Cbuf → ℕ
free c = c.size - used c

-- CBUFHEADRIGHT: the room to the right of the write point
abbrev pub head_right : Cbuf → ℕ
head_right c =
    if leb (tail_index c) (head_index c) then c.size - head_index c else tail_index c - head_index c

-- CBUFTAILRIGHT: the bytes to the right of the read point
abbrev pub tail_right : Cbuf → ℕ
tail_right c = if ltb (tail_index c) (head_index c) then used c else c.size - tail_index c

-- memcpy(&buf[i], src, n) with the n bytes of the list, and memcpy(dst, &buf[i], n)
abbrev pub copy_in : List ℕ → ℕ → List ℕ → List ℕ
copy_in buf i [] = buf
copy_in buf i (x ∷ src) = copy_in (set buf i x) (i + 1) src

abbrev pub copy_out : List ℕ → ℕ → ℕ → List ℕ
copy_out buf i zero = []
copy_out buf i (suc n) = get_or buf i 0 ∷ copy_out buf (i + 1) n

-- memcpy(CBUFHEAD(cbuf), buf, onelen); cbuf->head += onelen
abbrev pub write_block : Cbuf → List ℕ → ℕ → Cbuf
write_block c src n = record c {
  buf = copy_in c.buf (head_index c) (take n src);
  head = c.head + n;
}

-- The loop of write_cbuf with len bytes left and fuel for its rounds; `none` means that the fuel
-- ran out.
unfoldable pub write_loop : ℕ → Cbuf → List ℕ → ℕ → Option Cbuf
write_loop zero c src len = none
write_loop (suc fuel) c src len =
    let onelen = min (head_right c) len in
    let rest = write_loop fuel (write_block c src onelen) (drop onelen src) (len - onelen) in
    if ltb 0 len then rest else some c

-- The loop of read_cbuf; `out` is what it has copied to the user so far.
unfoldable pub read_loop : ℕ → Cbuf → List ℕ → ℕ → Option (List ℕ × Cbuf)
read_loop zero c out len = none
read_loop (suc fuel) c out len =
    let onelen = min (tail_right c) len in
    let rest =
      read_loop fuel (record c { tail = c.tail + onelen })
        (out ++ copy_out c.buf (tail_index c) onelen) (len - onelen) in
    if ltb 0 len then rest else some (out, c)

-- the update of the I/O points at the end of read_cbuf
unfoldable pub update_io_point : Cbuf → Cbuf
update_io_point c =
    if leb c.size c.tail then record c { head = c.head - c.size; tail = c.tail - c.size } else c

-- The fuel of both loops is 3: at most two rounds copy, and the last test ends the loop.
-- A null buffer (`none`) takes and gives nothing.
unfoldable pub write_cbuf : Option Cbuf → List ℕ → ℕ → Option (ℕ × Option Cbuf)
write_cbuf none src size = some (0, none)
write_cbuf (some c) src size =
    let wlen = min (free c) size in
    elim (write_loop 3 c src wlen) [ none ↦ none | some c' ↦ some (wlen, some c') ]

-- The bytes copied out stand beside the number that read_cbuf returns.
unfoldable pub read_cbuf : Option Cbuf → ℕ → Option (ℕ × List ℕ × Option Cbuf)
unfolding update_io_point
read_cbuf none size = some (0, [], none)
read_cbuf (some c) size =
    let rlen = min (used c) size in
    elim (read_loop 3 c [] rlen) [
      | none ↦ none
      | some (out, c') ↦ some (rlen, out, some (update_io_point c'))
    ]
