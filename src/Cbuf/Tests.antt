-- ===== src/Cbuf/Tests.antt =====
-- lib/cbuf.c at small buffers, and its theorems at inputs that run round the end of the array.
use tapip.Base.{◌≡◌, refl, [], ◌∷◌, some, arith}
use tapip.Cbuf.{Cbuf, write_loop, read_loop, update_io_point, write_cbuf, read_cbuf}
use tapip.Cbuf.Inv.{IsValid}
use tapip.Cbuf.Span.{contents}
use tapip.Cbuf.Write.{write_cbuf-contents}
use tapip.Cbuf.Read.{read_cbuf-contents}

-- 4 bytes, of which 8 and 9 are held, 9 behind the end of the array
abbrev wrapped : Cbuf
wrapped = record { head = 5; tail = 3; size = 4; buf = 9 ∷ 0 ∷ 0 ∷ 8 ∷ [] }

wrapped-IsValid : IsValid wrapped
wrapped-IsValid = omega arith

write_round :
    write_cbuf
      (some (record { head = 3; tail = 3; size = 4; buf = 0 ∷ 0 ∷ 0 ∷ 0 ∷ [] }))
      (8 ∷ 9 ∷ [])
      2
    ≡ some (2, some wrapped)
unfolding write_cbuf write_loop
write_round = refl

read_round :
    read_cbuf (some wrapped) 7
    ≡ some (2, 8 ∷ 9 ∷ [], some (record { head = 1; tail = 1; size = 4; buf = 9 ∷ 0 ∷ 0 ∷ 8 ∷ [] }))
unfolding read_cbuf read_loop update_io_point
read_round = refl

write_cbuf-contents_example :
    (c' : Cbuf) × (write_cbuf (some wrapped) (1 ∷ 2 ∷ 3 ∷ []) 3 ≡ some (2, some c'))
    × IsValid c'
    × (contents c' ≡ 8 ∷ 9 ∷ 1 ∷ 2 ∷ [])
    × (c'.size ≡ 4)
write_cbuf-contents_example =
    write_cbuf-contents {c = wrapped} (1 ∷ 2 ∷ 3 ∷ []) 3 wrapped-IsValid (omega arith)

read_cbuf-contents_example :
    (c' : Cbuf) × (read_cbuf (some wrapped) 1 ≡ some (1, 8 ∷ [], some c'))
    × IsValid c'
    × (contents c' ≡ 9 ∷ [])
    × (c'.size ≡ 4)
read_cbuf-contents_example = read_cbuf-contents {c = wrapped} 1 wrapped-IsValid
