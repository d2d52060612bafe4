-- ===== src/Cbuf/Span.antt =====
-- The bytes that a circular buffer holds, as a list, and what the copies of lib/cbuf.c do to it.
use tapip.Base.{
  ℕ, zero, suc, ◌+◌, ◌-◌, ◌%◌, ◌≤◌, ◌<◌, ◌≡◌, refl, ap, ap₂, ◌∙◌, sym, List, [], ◌∷◌, ◌++◌, arith,
  length, get_or, set, length-set, get_or-set_self, get_or-set_ne,
}
use tapip.Cbuf.{Cbuf, copy_in, copy_out}

module _ (buf : List ℕ) (size : ℕ) where
  -- the n bytes from the absolute position k on
  abbrev pub span : ℕ → ℕ → List ℕ
  span k zero = []
  span k (suc n) = get_or buf (k % size) 0 ∷ span (k + 1) n

-- The queue that the buffer stands for, oldest byte first.
abbrev pub contents : Cbuf → List ℕ
contents c = span c.buf c.size c.tail (c.head - c.tail)

pub length-span : (buf : List ℕ) (size k n : ℕ) → length (span buf size k n) ≡ n
length-span buf size k zero = refl
length-span buf size k (suc n) = ap suc (length-span buf size (k + 1) n)

pub span-add :
    (buf : List ℕ) (size k m n l : ℕ)
    → m + n ≡ l
    → span buf size k l ≡ span buf size k m ++ span buf size (k + m) n
span-add buf size k zero n l e = ap₂ (λ i j. span buf size i j) (omega arith) (omega arith)
span-add buf size k (suc m) n zero e = absurd (omega arith)
span-add buf size k (suc m) n (suc l) e =
    ap (λ r. get_or buf (k % size) 0 ∷ r)
      (span-add buf size (k + 1) m n l (omega arith)
        ∙ ap (λ i. span buf size (k + 1) m ++ span buf size i n) (omega arith))

mod_next : (k size : ℕ) → k % size + 1 < size → (k + 1) % size ≡ k % size + 1
mod_next k size h = grind arith

-- A block that does not run over the end of the array is copied out in order.
pub copy_out-span :
    (buf : List ℕ) (size k n : ℕ)
    → k % size + n ≤ size
    → copy_out buf (k % size) n ≡ span buf size k n
copy_out-span buf size k zero h = refl
copy_out-span buf size k (suc zero) h = refl
copy_out-span buf size k (suc (suc n)) h =
    ap (λ r. get_or buf (k % size) 0 ∷ r)
      (ap (λ i. copy_out buf i (suc n)) (sym (mod_next k size (omega arith)))
        ∙ copy_out-span buf size (k + 1) (suc n) (omega (arith, mod_next k size (omega arith))))

pub length-copy_in : (buf : List ℕ) (i : ℕ) (src : List ℕ) → length (copy_in buf i src) ≡ length buf
length-copy_in buf i [] = refl
length-copy_in buf i (x ∷ src) = length-copy_in (set buf i x) (i + 1) src ∙ length-set buf i x

-- A copy leaves the bytes outside its range alone.
pub get_or-copy_in_before :
    (buf : List ℕ) (i : ℕ) (src : List ℕ) (j : ℕ)
    → j < i
    → get_or (copy_in buf i src) j 0 ≡ get_or buf j 0
get_or-copy_in_before buf i [] j h = refl
get_or-copy_in_before buf i (x ∷ src) j h =
    get_or-copy_in_before (set buf i x) (i + 1) src j (omega arith)
    ∙ get_or-set_ne buf i j x 0 (omega arith)

pub get_or-copy_in_after :
    (buf : List ℕ) (i : ℕ) (src : List ℕ) (j : ℕ)
    → i + length src ≤ j
    → get_or (copy_in buf i src) j 0 ≡ get_or buf j 0
get_or-copy_in_after buf i [] j h = refl
get_or-copy_in_after buf i (x ∷ src) j h =
    get_or-copy_in_after (set buf i x) (i + 1) src j (omega arith)
    ∙ get_or-set_ne buf i j x 0 (omega arith)

-- What was copied in at an index is what is copied out there.
pub copy_out-copy_in :
    (buf : List ℕ) (i : ℕ) (src : List ℕ)
    → i + length src ≤ length buf
    → copy_out (copy_in buf i src) i (length src) ≡ src
copy_out-copy_in buf i [] h = refl
copy_out-copy_in buf i (x ∷ src) h =
    ap₂ ◌∷◌
      (get_or-copy_in_before (set buf i x) (i + 1) src i (omega arith)
        ∙ get_or-set_self buf i x 0 (omega arith))
      (copy_out-copy_in (set buf i x) (i + 1) src (omega (arith, length-set buf i x)))

pub span_ext :
    (a b : List ℕ) (size k n : ℕ)
    → ((j : ℕ) → k ≤ j → j < k + n → get_or a (j % size) 0 ≡ get_or b (j % size) 0)
    → span a size k n ≡ span b size k n
span_ext a b size k zero h = refl
span_ext a b size k (suc n) h =
    ap₂ ◌∷◌ (h k (omega arith) (omega arith))
      (span_ext a b size (k + 1) n (λ j p q. h j (omega arith) (omega arith)))
